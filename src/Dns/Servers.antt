-- ===== src/Dns/Servers.antt =====
-- The name servers of the whole file that internal/dns/dns.go writes.
use Prim.Native.Char.{Char}
use Prim.Native.Nat.{◌/◌, ◌%◌}
use text.Mathlib.TextLemmas.{append_assoc, nil-append}
use mathlib.Core.List.{append-nil}
use consul_ecs.Base.{
  ℕ, zero, suc, ◌<◌, ◌≡◌, ltb, nat_eq, refl, sym, ap, ◌∙◌, ◌<>◌, ◌==◌, String, true, false, List,
  [], ◌∷◌, ◌++◌, arith, All, All-append, Bool-cases, inl, inr,
}
use consul_ecs.Base.Decimal.{itoa, digits, digit, digit_code}
use consul_ecs.Base.Text.{char_eq, split, join, trim}
use consul_ecs.Dns.{
  DnsConfig, option_text, construct_dns_opts, search_line, nameserver_lines, options_line,
  build_resolve_conf, resolve_conf,
}
use consul_ecs.Dns.Lines.{
  servers_of, one_line, one_line-append, one_line-join, other_line, other_head,
  servers_of-nameserver_lines,
}

abbrev pub IsLines : List String → Type 0
IsLines = All (λ x. one_line x ≡ true)

digits-one_line :
    (fuel n : ℕ) (out : String)
    → n < fuel
    → one_line out ≡ true
    → one_line (digits fuel n out) ≡ true
unfolding digits one_line char_eq
digits-one_line zero n out less h = absurd (omega arith)
digits-one_line (suc fuel) n out less h = elim (Bool-cases (ltb n 10)) [
  | inl small ↦ ground (arith, digit_code n)
  | inr large ↦
      ground (
        arith,
        digits-one_line fuel (n / 10) (String.◌∷◌ (digit (n % 10)) out),
        digit_code (n % 10),
      )
]

option_text-IsLines :
    (name : String) (n default : ℕ) → one_line name ≡ true → IsLines (option_text name n default)
unfolding itoa one_line
option_text-IsLines name n default h = elim (Bool-cases (nat_eq n default)) [
  | inl same ↦ rw same tt
  | inr other ↦ rw other (
    one_line-append name (":" <> itoa n) h
        (one_line-append ":" (itoa n) refl (digits-one_line (suc n) n "" (omega arith) refl)),
    tt,
  )
]

construct_dns_opts-IsLines : (cfg : DnsConfig) → IsLines (construct_dns_opts cfg)
unfolding construct_dns_opts one_line
construct_dns_opts-IsLines cfg =
    All-append (λ x. one_line x ≡ true)
      (option_text "ndots" cfg.ndots 1 ++ option_text "timeout" cfg.timeout 5)
      (option_text "attempts" cfg.attempts 2)
      (All-append (λ x. one_line x ≡ true) (option_text "ndots" cfg.ndots 1)
        (option_text "timeout" cfg.timeout 5) (option_text-IsLines "ndots" cfg.ndots 1 refl)
        (option_text-IsLines "timeout" cfg.timeout 5 refl))
      (option_text-IsLines "attempts" cfg.attempts 2 refl)

-- A line that begins with another word names no server.
no_server :
    (c : Char) (word text rest : String)
    → char_eq "n" c ≡ false
    → one_line (String.◌∷◌ c word) ≡ true
    → one_line text ≡ true
    → servers_of (split "\n" (String.◌∷◌ c word <> text <> "\n" <> rest))
      ≡ servers_of (split "\n" rest)
no_server c word text rest other h k =
    ap (λ (t : String). servers_of (split "\n" t))
      (sym (append_assoc (String.◌∷◌ c word) text ("\n" <> rest)))
    ∙ other_line (String.◌∷◌ c word <> text) rest (one_line-append (String.◌∷◌ c word) text h k)
        (other_head "n" c "ameserver " word text other)

search_line_passed :
    (search : List String) (rest : String)
    → IsLines search
    → servers_of (split "\n" (search_line search <> rest)) ≡ servers_of (split "\n" rest)
unfolding search_line char_eq one_line
search_line_passed [] rest h = ap (λ (t : String). servers_of (split "\n" t)) (nil-append rest)
search_line_passed (x ∷ search) rest h =
    let text = join " " (x ∷ search) in
    elim (Bool-cases (trim " " text == ".")) [
      | inl dot ↦ rw (dot, search_line, nil-append rest) refl
      | inr other ↦
          rw
            (
              other,
              search_line,
              append_assoc "search " (text <> "\n") rest,
              append_assoc text "\n" rest,
            )
            (no_server "s" "earch " text rest refl refl (one_line-join (x ∷ search) h))
    ]

options_line_passed :
    (options : List String) → IsLines options → servers_of (split "\n" (options_line options)) ≡ []
unfolding options_line char_eq one_line servers_of split
options_line_passed [] h = refl
options_line_passed (x ∷ options) h =
    let text = join " " (x ∷ options) in
    elim (Bool-cases (trim " " text == "")) [
      | inl empty ↦ rw (empty, options_line) refl
      | inr other ↦
          rw (other, options_line)
            (no_server "o" "ptions " text "" refl refl (one_line-join (x ∷ options) h))
    ]

-- The file that is written names the dataplane's DNS server and then, in their order, the servers
-- that it named before; neither the search domains nor the options hide one. The names of servers
-- and domains have no line breaks.
pub resolve_conf-servers :
    (cfg : DnsConfig)
    → IsLines cfg.servers
    → IsLines cfg.search
    → servers_of (split "\n" (resolve_conf cfg)) ≡ "127.0.0.1" ∷ cfg.servers
unfolding resolve_conf build_resolve_conf one_line
resolve_conf-servers cfg servers search =
    let options = construct_dns_opts cfg in
    search_line_passed cfg.search
      (nameserver_lines ("127.0.0.1" ∷ cfg.servers) <> options_line options) search
    ∙ servers_of-nameserver_lines ("127.0.0.1" ∷ cfg.servers) (options_line options) (refl, servers)
    ∙ ap (λ (l : List String). "127.0.0.1" ∷ (cfg.servers ++ l))
        (options_line_passed options (construct_dns_opts-IsLines cfg))
    ∙ ap (λ (l : List String). "127.0.0.1" ∷ l) (append-nil cfg.servers)
