-- ===== src/Redirect.antt =====
-- internal/redirecttraffic/redirect_traffic.go: the iptables configuration of the transparent proxy.
pub mod Excludes
use consul_ecs.Base.{
  ℕ, ◌<>◌, ◌==◌, nat_eq, not, String, Bool, List, [], ◌∷◌, ◌++◌, map, Option, none, some, Result,
  ok, err, Error, errorf, wrapf, message, ◌>>=◌, if◌then◌else◌,
}
use consul_ecs.Base.Decimal.{itoa}
use consul_ecs.Base.Dict.{Dict}
use consul_ecs.Base.Json.{Json}
use consul_ecs.Consul.{AgentService, ConnectProxy, TransparentProxy, ExposedPath}
use consul_ecs.Config.Types.{Config, consul_dataplane_dns_bind_host, consul_dataplane_dns_bind_port}
use consul_ecs.Config.Settings.{consul_dns_enabled}

abbrev pub default_proxy_user_id : ℕ
default_proxy_user_id = 5995

abbrev pub default_health_sync_process_uid : String
default_health_sync_process_uid = "5996"

-- `trafficRedirectProxyConfig`
pub record RedirectProxyConfig : Type 0 where
  pub bind_port : ℕ
  pub prometheus_bind_addr : String
  pub stats_bind_addr : String

-- `TrafficRedirectionCfg`
pub record TrafficRedirectionCfg : Type 0 where
  pub proxy_svc : Option AgentService
  pub enable_consul_dns : Bool
  pub exclude_inbound_ports : List ℕ
  pub exclude_outbound_ports : List ℕ
  pub exclude_outbound_cidrs : List String
  pub exclude_uids : List String

-- `iptables.Config` of Consul's SDK, with the fields that the program sets.
pub record IptablesConfig : Type 0 where
  pub consul_dns_ip : String
  pub consul_dns_port : ℕ
  pub proxy_user_id : String
  pub proxy_inbound_port : ℕ
  pub proxy_outbound_port : ℕ
  pub exclude_inbound_ports : List String
  pub exclude_outbound_ports : List String
  pub exclude_outbound_cidrs : List String
  pub exclude_uids : List String

-- What comes from other packages: `mapstructure.WeakDecode` into the proxy's configuration, the
-- port of `net.SplitHostPort`, `iptables.DefaultTProxyOutboundPort`, and the set-up of the rules.
pub record Iptables : Type 0 where
  pub weak_decode : Dict Json → Result RedirectProxyConfig
  pub split_host_port : String → Result String
  pub default_tproxy_outbound_port : ℕ
  pub setup : IptablesConfig → Option Error

-- `New`
unfoldable pub new : Config → Option AgentService → List ℕ → TrafficRedirectionCfg
unfolding consul_dns_enabled
new cfg proxy_svc additional_inbound_ports_to_exclude = record {
  proxy_svc = proxy_svc;
  enable_consul_dns = consul_dns_enabled cfg;
  exclude_inbound_ports =
      cfg.transparent_proxy.exclude_inbound_ports ++ additional_inbound_ports_to_exclude;
  exclude_outbound_ports = cfg.transparent_proxy.exclude_outbound_ports;
  exclude_outbound_cidrs = cfg.transparent_proxy.exclude_outbound_cidrs;
  exclude_uids = cfg.transparent_proxy.exclude_uids;
}

-- The port of an address, which may be empty: an empty one has none.
unfoldable pub bind_addr_port : Iptables → String → String → Result (List String)
bind_addr_port t name addr =
    if not (addr == "")
    then elim (t.split_host_port addr) [
      | err e ↦ err (wrapf ("failed parsing host and port from " <> name) e)
      | ok port ↦ ok (port ∷ [])
    ]
    else ok []

unfoldable pub expose_ports : List ExposedPath → List String
unfolding itoa
expose_ports [] = []
expose_ports (p ∷ paths) =
    let rest = expose_ports paths in
    if not (nat_eq p.listener_port 0) then itoa p.listener_port ∷ rest else rest

outbound_port : Iptables → Option TransparentProxy → ℕ
outbound_port t none = t.default_tproxy_outbound_port
outbound_port t (some p) =
    if not (nat_eq p.outbound_listener_port 0)
    then p.outbound_listener_port
    else t.default_tproxy_outbound_port

-- The configuration, given the ports of both addresses.
unfoldable pub config_with :
    Iptables
    → TrafficRedirectionCfg
    → AgentService
    → ConnectProxy
    → RedirectProxyConfig
    → List String
    → List String
    → IptablesConfig
unfolding itoa expose_ports outbound_port
config_with t c svc proxy tr prometheus stats = record {
  consul_dns_ip = if c.enable_consul_dns then consul_dataplane_dns_bind_host else "";
  consul_dns_port = if c.enable_consul_dns then consul_dataplane_dns_bind_port else 0;
  proxy_user_id = itoa default_proxy_user_id;
  proxy_inbound_port = if not (nat_eq tr.bind_port 0) then tr.bind_port else svc.port;
  proxy_outbound_port = outbound_port t proxy.transparent_proxy;
  exclude_inbound_ports =
      map itoa c.exclude_inbound_ports ++ prometheus ++ stats ++ expose_ports proxy.expose.paths;
  exclude_outbound_ports = map itoa c.exclude_outbound_ports;
  exclude_outbound_cidrs = c.exclude_outbound_cidrs;
  exclude_uids = c.exclude_uids ++ default_health_sync_process_uid ∷ [];
}

-- The configuration for a proxy whose own configuration is decoded.
unfoldable pub config_from :
    Iptables
    → TrafficRedirectionCfg
    → AgentService
    → ConnectProxy
    → RedirectProxyConfig
    → Result IptablesConfig
unfolding bind_addr_port config_with
config_from t c svc proxy tr =
    bind_addr_port t "envoy_prometheus_bind_addr" tr.prometheus_bind_addr >>= λ prometheus.
    bind_addr_port t "envoy_stats_bind_addr" tr.stats_bind_addr >>= λ stats.
    ok (config_with t c svc proxy tr prometheus stats)

-- The first part of `Apply`, up to the call that sets the rules up. The service that is looked up
-- has a proxy; without one the code would dereference nil, and so there is no answer.
unfoldable pub iptables_config : Iptables → TrafficRedirectionCfg → Option (Result IptablesConfig)
unfolding config_from
iptables_config t c = elim c.proxy_svc [
  | none ↦ some (err (errorf "proxy service details are required to enable traffic redirection"))
  | some svc ↦ elim svc.proxy [
    | none ↦ none
    | some proxy ↦ elim (t.weak_decode proxy.config) [
      | err e ↦ some (err (wrapf "failed parsing proxy service's Proxy.Config" e))
      | ok tr ↦ some (config_from t c svc proxy tr)
    ]
  ]
]

-- `Apply`, with the configurations that were set up.
unfoldable pub apply :
    Iptables → TrafficRedirectionCfg → Option (Option Error × List IptablesConfig)
unfolding iptables_config
apply t c = elim (iptables_config t c) [
  | none ↦ none
  | some (err e) ↦ some (some e, [])
  | some (ok cfg) ↦ elim (t.setup cfg) [
    | none ↦ some (none, cfg ∷ [])
    | some e ↦
        some (some (errorf ("failed to setup traffic redirection rules " <> message e)), cfg ∷ [])
  ]
]
