-- ===== src/Dataplane/RoundTrip.antt =====
-- The JSON value of the dataplane's configuration, read back by the same struct tags, as
-- `json.Unmarshal` reads it: a field that is absent, or whose value is of another type, is left at
-- its zero value.
use mathlib.Core.Path.{ap₂}
use consul_ecs.Base.{
  ℕ, ◌≡◌, refl, ap, arith, ◌==◌, String, Bool, false, [], ◌∷◌, Option, none, some, if◌then◌else◌,
  eq_iff,
}
use consul_ecs.Base.Decimal.{itoa, read_digits, read-itoa}
use consul_ecs.Base.Dict.{Dict}
use consul_ecs.Base.Json.{Json, null, boolean, number, string, object, Members, no_members, member}
use consul_ecs.Dataplane.{
  TlsConfig, LoginConfig, CredentialsConfig, ConsulConfig, DnsServerConfig, DataplaneConfig,
}
use consul_ecs.Dataplane.Encode.{
  texts, map_json, tls_json, login_json, credentials_json, consul_json, proxy_json, envoy_json,
  dns_server_json, generate_json,
}

-- The value of a member, `null` for one that is absent.
unfoldable pub value_of : String → Members → Json
value_of k no_members = null
value_of k (member j v ms) = let rest = value_of k ms in if j == k then v else rest

unfoldable pub field : String → Json → Json
unfolding value_of
field k (object ms) = value_of k ms
field k _ = null

unfoldable pub text_of : Json → String
text_of (string s) = s
text_of _ = ""

unfoldable pub bool_of : Json → Bool
bool_of (boolean b) = b
bool_of _ = false

abbrev number_or_zero : Option ℕ → ℕ
number_or_zero none = 0
number_or_zero (some n) = n

unfoldable pub nat_of : Json → ℕ
unfolding read_digits
nat_of (number s) = number_or_zero (read_digits 0 s)
nat_of _ = 0

abbrev texts_of : Members → Dict String
texts_of no_members = []
texts_of (member k v ms) = (k, text_of v) ∷ texts_of ms

unfoldable pub map_of : Json → Dict String
map_of (object ms) = texts_of ms
map_of _ = []

-- A pointer is set where there is an object.
unfoldable pub pointer_of {ℓ} : {A : Type ℓ} → (Json → A) → Json → Option A
pointer_of f (object ms) = some (f (object ms))
pointer_of f _ = none

unfoldable pub read_tls : Json → TlsConfig
unfolding field bool_of text_of
read_tls j = record {
  disabled = bool_of (field "disabled" j);
  grpc_ca_cert_path = text_of (field "caCertsPath" j);
  tls_server_name = text_of (field "tlsServerName" j);
}

unfoldable pub read_login : Json → LoginConfig
unfolding field text_of map_of
read_login j = record {
  auth_method = text_of (field "authMethod" j);
  namespace = text_of (field "namespace" j);
  partition = text_of (field "partition" j);
  datacenter = text_of (field "datacenter" j);
  bearer_token = text_of (field "bearerToken" j);
  meta = map_of (field "meta" j);
}

unfoldable pub read_credentials : Json → CredentialsConfig
unfolding field text_of read_login
read_credentials j = record {
  credential_type = text_of (field "type" j);
  login = read_login (field "login" j);
}

unfoldable pub read_consul : Json → ConsulConfig
unfolding field text_of nat_of bool_of pointer_of read_tls read_credentials
read_consul j = record {
  addresses = text_of (field "addresses" j);
  grpc_port = nat_of (field "grpcPort" j);
  skip_server_watch = bool_of (field "serverWatchDisabled" j);
  tls = pointer_of read_tls (field "tls" j);
  credentials = pointer_of read_credentials (field "credentials" j);
}

unfoldable pub read_dns_server : Json → DnsServerConfig
unfolding field text_of nat_of
read_dns_server j = record {
  bind_address = text_of (field "bindAddress" j);
  bind_port = nat_of (field "bindPort" j);
}

unfoldable pub read_dataplane_config : Json → DataplaneConfig
unfolding field text_of nat_of pointer_of read_consul read_dns_server
read_dataplane_config j = record {
  consul = read_consul (field "consul" j);
  proxy = record {
    node_name = text_of (field "nodeName" (field "proxy" j));
    id = text_of (field "id" (field "proxy" j));
    namespace = text_of (field "namespace" (field "proxy" j));
    partition = text_of (field "partition" (field "proxy" j));
  };
  xds_address = text_of (field "bindAddress" (field "xdsServer" j));
  envoy = record {
    ready_bind_addr = text_of (field "readyBindAddress" (field "envoy" j));
    ready_bind_port = nat_of (field "readyBindPort" (field "envoy" j));
  };
  log_level = text_of (field "logLevel" (field "logging" j));
  dns_server = pointer_of read_dns_server (field "dnsServer" j);
}

nat_of-itoa : (n : ℕ) → nat_of (number (itoa n)) ≡ n
unfolding nat_of
nat_of-itoa n = rw (read-itoa n) refl

texts_of-texts : (m : Dict String) → texts_of (texts m) ≡ m
unfolding text_of
texts_of-texts [] = refl
texts_of-texts ((k, v) ∷ m) = ap₂ ◌∷◌ refl (texts_of-texts m)

map_of-map_json : (m : Dict String) → map_of (map_json m) ≡ m
unfolding map_of map_json
map_of-map_json [] = refl
map_of-map_json ((k, v) ∷ m) = texts_of-texts ((k, v) ∷ m)

-- The two fields of each struct that `omitempty` may leave out.
tls_texts :
    (t : TlsConfig)
    → (text_of (field "caCertsPath" (tls_json t)) ≡ t.grpc_ca_cert_path)
      × (text_of (field "tlsServerName" (tls_json t)) ≡ t.tls_server_name)
unfolding field value_of text_of tls_json
tls_texts t = ground (arith, eq_iff t.grpc_ca_cert_path "", eq_iff t.tls_server_name "")

read_tls-tls_json : (t : TlsConfig) → read_tls (tls_json t) ≡ t
unfolding read_tls tls_json
read_tls-tls_json t = λ i. record {
  disabled = t.disabled;
  grpc_ca_cert_path = (tls_texts t).0 i;
  tls_server_name = (tls_texts t).1 i;
}

login_texts :
    (l : LoginConfig)
    → (text_of (field "namespace" (login_json l)) ≡ l.namespace)
      × (text_of (field "partition" (login_json l)) ≡ l.partition)
      × (text_of (field "datacenter" (login_json l)) ≡ l.datacenter)
      × (text_of (field "bearerToken" (login_json l)) ≡ l.bearer_token)
      × (map_of (field "meta" (login_json l)) ≡ l.meta)
unfolding field value_of text_of login_json
login_texts l = ground (arith, eq_iff l.namespace "", eq_iff l.partition "", map_of-map_json l.meta)

read_login-login_json : (l : LoginConfig) → read_login (login_json l) ≡ l
unfolding read_login login_json
read_login-login_json l = λ i. record {
  auth_method = l.auth_method;
  namespace = (login_texts l).0 i;
  partition = (login_texts l).1 i;
  datacenter = (login_texts l).2 i;
  bearer_token = (login_texts l).3 i;
  meta = (login_texts l).4 i;
}

read_credentials-credentials_json :
    (c : CredentialsConfig) → read_credentials (credentials_json c) ≡ c
unfolding read_credentials credentials_json
read_credentials-credentials_json c =
    λ i. record { credential_type = c.credential_type; login = read_login-login_json c.login i }

consul_pointers :
    (address : String) (port : ℕ) (watch : Bool) (tls : Option TlsConfig)
    (credentials : Option CredentialsConfig)
    → let j = consul_json (record {
      addresses = address;
      grpc_port = port;
      skip_server_watch = watch;
      tls = tls;
      credentials = credentials;
    }) in
      (pointer_of read_tls (field "tls" j) ≡ tls)
      × (pointer_of read_credentials (field "credentials" j) ≡ credentials)
unfolding field pointer_of consul_json tls_json credentials_json
consul_pointers address port watch none none = (refl, refl)
consul_pointers address port watch (some t) none = (ap some (read_tls-tls_json t), refl)
consul_pointers address port watch none (some k) =
    (refl, ap some (read_credentials-credentials_json k))
consul_pointers address port watch (some t) (some k) =
    (ap some (read_tls-tls_json t), ap some (read_credentials-credentials_json k))

read_consul-consul_json : (c : ConsulConfig) → read_consul (consul_json c) ≡ c
unfolding read_consul consul_json
read_consul-consul_json c =
    let pointers =
      consul_pointers c.addresses c.grpc_port c.skip_server_watch c.tls c.credentials in
    λ i. record {
      addresses = c.addresses;
      grpc_port = nat_of-itoa c.grpc_port i;
      skip_server_watch = c.skip_server_watch;
      tls = pointers.0 i;
      credentials = pointers.1 i;
    }

read_dns_server-dns_server_json : (d : DnsServerConfig) → read_dns_server (dns_server_json d) ≡ d
unfolding read_dns_server dns_server_json
read_dns_server-dns_server_json d =
    λ i. record { bind_address = d.bind_address; bind_port = nat_of-itoa d.bind_port i }

dns_pointer :
    (d : DataplaneConfig) (dns : Option DnsServerConfig)
    → pointer_of read_dns_server (field "dnsServer" (generate_json (record d { dns_server = dns })))
      ≡ dns
unfolding field pointer_of generate_json dns_server_json
dns_pointer d none = refl
dns_pointer d (some dns) = ap some (read_dns_server-dns_server_json dns)

-- No setting is lost in the JSON of the dataplane's configuration: every configuration is read back
-- by the same struct tags, with what `omitempty` leaves out, numbers and nil pointers included.
pub read_dataplane_config-generate_json :
    (d : DataplaneConfig) → read_dataplane_config (generate_json d) ≡ d
unfolding read_dataplane_config generate_json proxy_json envoy_json
read_dataplane_config-generate_json d = λ i. record {
  consul = read_consul-consul_json d.consul i;
  proxy = d.proxy;
  xds_address = d.xds_address;
  envoy = record {
    ready_bind_addr = d.envoy.ready_bind_addr;
    ready_bind_port = nat_of-itoa d.envoy.ready_bind_port i;
  };
  log_level = d.log_level;
  dns_server = dns_pointer d d.dns_server i;
}
