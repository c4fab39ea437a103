-- ===== src/Dns/Lines.antt =====
-- The name servers of the resolv.conf that internal/dns/dns.go writes, read back line by line.
use Prim.Native.Char.{Char}
use text.Mathlib.TextLemmas.{append_assoc, cons-append, nil-append}
use consul_ecs.Base.{
  ◌≡◌, ◌≢◌, List-cases, refl, sym, ap, ◌∙◌, ◌<>◌, String, Bool, true, false, List, [], ◌∷◌, ◌++◌,
  none, some, arith, All, if◌then◌else◌, Bool-cases, inl, inr,
}
use consul_ecs.Base.Text.{char_eq, split, strip_prefix, join}
use consul_ecs.Dns.{nameserver_lines}

-- The lines that name a server, as resolv.conf is read.
unfoldable pub servers_of : List String → List String
unfolding strip_prefix
servers_of [] = []
servers_of (line ∷ lines) =
    let rest = servers_of lines in
    elim (strip_prefix "nameserver " line) [ some server ↦ server ∷ rest | none ↦ rest ]

-- No line ends within the text.
unfoldable pub one_line : String → Bool
unfolding char_eq
one_line String.[] = true
one_line (String.◌∷◌ c s) = let rest = one_line s in if char_eq c "\n" then false else rest

char_eq_refl : (c : Char) → char_eq c c ≡ true
unfolding char_eq
char_eq_refl c = ground arith

-- A line break between two texts, as a character.
line_break : (s rest : String) → s <> "\n" <> rest ≡ s <> String.◌∷◌ "\n" rest
line_break s rest =
    ap (λ (t : String). s <> t) (cons-append "\n" "" rest ∙ ap (String.◌∷◌ "\n") (nil-append rest))

strip_prefix-append : (p s : String) → strip_prefix p (p <> s) ≡ some s
unfolding strip_prefix
strip_prefix-append String.[] s = ap some (nil-append s)
strip_prefix-append (String.◌∷◌ c p) s =
    rw (cons-append c p s, char_eq_refl c) (strip_prefix-append p s)

pub other_head :
    (c d : Char) (p q s : String)
    → char_eq c d ≡ false
    → strip_prefix (String.◌∷◌ c p) (String.◌∷◌ d q <> s) ≡ none
unfolding strip_prefix
other_head c d p q s e = rw (cons-append d q s, e) refl

split-ne-nil : (c : Char) (s : String) → split c s ≢ []
unfolding split
split-ne-nil c String.[] e = ground arith
split-ne-nil c (String.◌∷◌ d s) e = elim (List-cases (split c s)) [
  | inl none_left ↦ split-ne-nil c s none_left
  | inr (x, xs, is) ↦ ground (arith, is)
]

split_cons :
    (s rest : String)
    → one_line s ≡ true
    → split "\n" (s <> String.◌∷◌ "\n" rest) ≡ s ∷ split "\n" rest
unfolding split one_line
split_cons String.[] rest h = elim (List-cases (split "\n" rest)) [
  | inl none_left ↦ absurd (split-ne-nil "\n" rest none_left)
  | inr (x, xs, is) ↦ rw (nil-append (String.◌∷◌ "\n" rest), is) refl
]
split_cons (String.◌∷◌ c s) rest h = elim (Bool-cases (char_eq c "\n")) [
  | inl end ↦ ground (arith, end)
  | inr inside ↦
      rw
        (
          cons-append c s (String.◌∷◌ "\n" rest),
          split,
          split_cons s rest (ground (arith, inside)),
          inside,
        )
        refl
]

split_line :
    (s rest : String) → one_line s ≡ true → split "\n" (s <> "\n" <> rest) ≡ s ∷ split "\n" rest
split_line s rest h = ap (split "\n") (line_break s rest) ∙ split_cons s rest h

pub one_line-append :
    (s t : String) → one_line s ≡ true → one_line t ≡ true → one_line (s <> t) ≡ true
unfolding one_line
one_line-append String.[] t h k = rw (nil-append t) k
one_line-append (String.◌∷◌ c s) t h k = elim (Bool-cases (char_eq c "\n")) [
  | inl end ↦ ground (arith, end)
  | inr inside ↦ rw (cons-append c s t, inside) (one_line-append s t (ground (arith, inside)) k)
]

pub one_line-join :
    (xs : List String) → All (λ x. one_line x ≡ true) xs → one_line (join " " xs) ≡ true
unfolding one_line join
one_line-join [] h = refl
one_line-join (x ∷ []) h = h.0
one_line-join (x ∷ y ∷ ys) h =
    one_line-append x (" " <> join " " (y ∷ ys)) h.0
      (one_line-append " " (join " " (y ∷ ys)) refl (one_line-join (y ∷ ys) h.1))

-- A line that names no server is passed over.
pub other_line :
    (line rest : String)
    → one_line line ≡ true
    → strip_prefix "nameserver " line ≡ none
    → servers_of (split "\n" (line <> "\n" <> rest)) ≡ servers_of (split "\n" rest)
unfolding servers_of
other_line line rest h e = rw (split_line line rest h, servers_of, e) refl

server_line :
    (server rest : String)
    → one_line server ≡ true
    → servers_of (split "\n" ("nameserver " <> server <> "\n" <> rest))
      ≡ server ∷ servers_of (split "\n" rest)
unfolding servers_of one_line
server_line server rest h =
    ap (λ (t : String). servers_of (split "\n" t))
      (sym (append_assoc "nameserver " server ("\n" <> rest)))
    ∙ rw
        (
          split_line ("nameserver " <> server) rest (one_line-append "nameserver " server refl h),
          servers_of,
          strip_prefix-append "nameserver " server,
        )
        refl

-- The lines of the name servers, with whatever is behind them.
pub servers_of-nameserver_lines :
    (servers : List String) (rest : String)
    → All (λ x. one_line x ≡ true) servers
    → servers_of (split "\n" (nameserver_lines servers <> rest))
      ≡ servers ++ servers_of (split "\n" rest)
unfolding nameserver_lines
servers_of-nameserver_lines [] rest h =
    ap (λ (t : String). servers_of (split "\n" t)) (nil-append rest)
servers_of-nameserver_lines (x ∷ servers) rest h =
    let later = nameserver_lines servers in
    rw
      (
        append_assoc "nameserver " (x <> "\n" <> later) rest,
        append_assoc x ("\n" <> later) rest,
        append_assoc "\n" later rest,
      )
      (server_line x (later <> rest) h.0
        ∙ ap (λ (l : List String). x ∷ l) (servers_of-nameserver_lines servers rest h.1))
