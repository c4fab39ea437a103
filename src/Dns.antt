-- ===== src/Dns.antt =====
-- internal/dns/dns.go: resolv.conf with the dataplane's DNS server in front.
pub mod Lines
pub mod Servers
use consul_ecs.Base.{
  ℕ, ◌<>◌, ◌==◌, nat_eq, not, String, List, [], ◌∷◌, ◌++◌, Option, none, some, Result, ok, err,
  Error, errorf, if◌then◌else◌,
}
use consul_ecs.Base.Decimal.{itoa}
use consul_ecs.Base.Text.{join, trim}
use consul_ecs.Config.Types.{consul_dataplane_dns_bind_host}

abbrev pub default_etc_resolv_conf_file : String
default_etc_resolv_conf_file = "/etc/resolv.conf"

abbrev pub default_dns_option_ndots : ℕ
default_dns_option_ndots = 1

abbrev pub default_dns_option_timeout : ℕ
default_dns_option_timeout = 5

abbrev pub default_dns_option_attempts : ℕ
default_dns_option_attempts = 2

-- `dns.ClientConfig` of the DNS package, which reads no negative numbers.
pub record DnsConfig : Type 0 where
  pub servers : List String
  pub search : List String
  pub ndots : ℕ
  pub timeout : ℕ
  pub attempts : ℕ

-- `fmt.Sprintf("ndots:%d", n)`, unless it is the default.
abbrev option_text : String → ℕ → ℕ → List String
option_text name n default = if not (nat_eq n default) then (name <> ":" <> itoa n) ∷ [] else []

unfoldable pub construct_dns_opts : DnsConfig → List String
unfolding itoa
construct_dns_opts cfg =
    option_text "ndots" cfg.ndots default_dns_option_ndots
    ++ option_text "timeout" cfg.timeout default_dns_option_timeout
    ++ option_text "attempts" cfg.attempts default_dns_option_attempts

unfoldable pub search_line : List String → String
unfolding join trim
search_line [] = ""
search_line (s ∷ search) =
    let text = join " " (s ∷ search) in
    if not (trim " " text == ".") then "search " <> text <> "\n" else ""

unfoldable pub nameserver_lines : List String → String
nameserver_lines [] = ""
nameserver_lines (ns ∷ nameservers) = "nameserver " <> ns <> "\n" <> nameserver_lines nameservers

unfoldable pub options_line : List String → String
unfolding join trim
options_line [] = ""
options_line (o ∷ options) =
    let text = join " " (o ∷ options) in
    if not (trim " " text == "") then "options " <> text <> "\n" else ""

-- The content that `buildResolveConf` writes; writing to the buffer does not fail.
unfoldable pub build_resolve_conf : DnsConfig → List String → List String → String
unfolding search_line nameserver_lines options_line
build_resolve_conf cfg nameservers options =
    search_line cfg.search <> nameserver_lines nameservers <> options_line options

-- The content of the new file; the file is read by the DNS package.
unfoldable pub resolve_conf : DnsConfig → String
unfolding construct_dns_opts build_resolve_conf
resolve_conf cfg =
    build_resolve_conf cfg (consul_dataplane_dns_bind_host ∷ cfg.servers) (construct_dns_opts cfg)

-- `ClientConfigFromFile` of the DNS package, and `os.WriteFile`, which fails or not.
unfoldable pub configure_consul_dns :
    (String → Result (Option DnsConfig))
    → (String → String → Option Error)
    → String
    → Option Error × List (String × String)
unfolding resolve_conf
configure_consul_dns client_config_from_file write_file etc_resolv_conf_file =
    let file =
      if not (etc_resolv_conf_file == "")
      then etc_resolv_conf_file
      else default_etc_resolv_conf_file in
    elim (client_config_from_file file) [
      | err e ↦ (some e, [])
      | ok none ↦ (some (errorf "failed to fetch DNS config"), [])
      | ok (some cfg) ↦ (write_file file (resolve_conf cfg), (file, resolve_conf cfg) ∷ [])
    ]
