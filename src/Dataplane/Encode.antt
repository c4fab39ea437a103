-- ===== src/Dataplane/Encode.antt =====
-- internal/dataplane/dataplane_json.go: the JSON value of the configuration by its struct tags, and
-- its reading by the same tags, as `json.Unmarshal` reads it: a field that is absent, or whose
-- value is of another type, is left at its zero value. The order of an object's members is that of
-- the fields here, and an empty map is a nil one.
use consul_ecs.Base.{◌==◌, String, List, [], ◌∷◌, Option, none, some, if◌then◌else◌}
use consul_ecs.Base.Decimal.{itoa}
use consul_ecs.Base.Dict.{Dict}
use consul_ecs.Base.Json.{Json, null, boolean, number, string, object, Members, no_members, member}
use consul_ecs.Dataplane.{
  TlsConfig, LoginConfig, CredentialsConfig, ConsulConfig, ProxyConfig, EnvoyConfig,
  DnsServerConfig, DataplaneConfig,
}

-- The members with their values; what `omitempty` leaves out has none.
unfoldable pub members : List (String × Option Json) → Members
members [] = no_members
members ((k, none) ∷ xs) = members xs
members ((k, some v) ∷ xs) = member k v (members xs)

unfoldable pub omit_empty : String → Option Json
omit_empty s = if s == "" then none else some (string s)

-- `omitempty` on a pointer to a struct.
unfoldable pub omit_nil {ℓ} : {A : Type ℓ} → (A → Json) → Option A → Option Json
omit_nil f none = none
omit_nil f (some a) = some (f a)

abbrev pub texts : Dict String → Members
texts [] = no_members
texts ((k, v) ∷ m) = member k (string v) (texts m)

unfoldable pub map_json : Dict String → Json
map_json [] = null
map_json ((k, v) ∷ m) = object (texts ((k, v) ∷ m))

unfoldable pub tls_json : TlsConfig → Json
unfolding members omit_empty
tls_json t = object (
    members (
      ("disabled", some (boolean t.disabled))
      ∷ ("caCertsPath", omit_empty t.grpc_ca_cert_path)
      ∷ ("tlsServerName", omit_empty t.tls_server_name)
      ∷ []))

unfoldable pub login_json : LoginConfig → Json
unfolding members omit_empty map_json
login_json l = object (
    members (
      ("authMethod", some (string l.auth_method))
      ∷ ("namespace", omit_empty l.namespace)
      ∷ ("partition", omit_empty l.partition)
      ∷ ("datacenter", some (string l.datacenter))
      ∷ ("bearerToken", some (string l.bearer_token))
      ∷ ("meta", some (map_json l.meta))
      ∷ []))

unfoldable pub credentials_json : CredentialsConfig → Json
unfolding members login_json
credentials_json c = object (
    members (("type", some (string c.credential_type)) ∷ ("login", some (login_json c.login)) ∷ []))

unfoldable pub consul_json : ConsulConfig → Json
unfolding members omit_nil itoa tls_json credentials_json
consul_json c = object (
    members (
      ("addresses", some (string c.addresses))
      ∷ ("grpcPort", some (number (itoa c.grpc_port)))
      ∷ ("serverWatchDisabled", some (boolean c.skip_server_watch))
      ∷ ("tls", omit_nil tls_json c.tls)
      ∷ ("credentials", omit_nil credentials_json c.credentials)
      ∷ []))

unfoldable pub proxy_json : ProxyConfig → Json
unfolding members
proxy_json p = object (
    members (
      ("nodeName", some (string p.node_name))
      ∷ ("id", some (string p.id))
      ∷ ("namespace", some (string p.namespace))
      ∷ ("partition", some (string p.partition))
      ∷ []))

unfoldable pub envoy_json : EnvoyConfig → Json
unfolding members itoa
envoy_json e = object (
    members (
      ("readyBindAddress", some (string e.ready_bind_addr))
      ∷ ("readyBindPort", some (number (itoa e.ready_bind_port)))
      ∷ []))

unfoldable pub dns_server_json : DnsServerConfig → Json
unfolding members itoa
dns_server_json d = object (
    members (
      ("bindAddress", some (string d.bind_address))
      ∷ ("bindPort", some (number (itoa d.bind_port)))
      ∷ []))

unfoldable pub generate_json : DataplaneConfig → Json
unfolding members omit_nil consul_json proxy_json envoy_json dns_server_json
generate_json d = object (
    members (
      ("consul", some (consul_json d.consul))
      ∷ ("proxy", some (proxy_json d.proxy))
      ∷ ("xdsServer", some (object (member "bindAddress" (string d.xds_address) no_members)))
      ∷ ("envoy", some (envoy_json d.envoy))
      ∷ ("logging", some (object (member "logLevel" (string d.log_level) no_members)))
      ∷ ("dnsServer", omit_nil dns_server_json d.dns_server)
      ∷ []))
