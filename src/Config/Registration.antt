-- ===== src/Config/Registration.antt =====
-- The `ToConsulType` methods of config/types.go, and the port defaults beside them.
use consul_ecs.Base.{ℕ, nat_eq, false, [], map, Option, none, some, if◌then◌else◌}
use consul_ecs.Consul.{
  AgentService, ConnectProxy, ProxyUpstream, GatewayMode, Exposed, ExposedPath, ServiceAddress,
  Weights,
}
use consul_ecs.Config.Types.{
  ServiceRegistration, AgentWeights, ConnectProxyConfig, Upstream, MeshGatewayConfig, ExposeConfig,
  ExposePath, GatewayRegistration, GatewayProxyConfig, GatewayAddress, default_gateway_port,
  default_public_listener_port, default_proxy_health_check_port,
}

-- The zero values of Go's structs.
abbrev pub no_weights : Weights
no_weights = record { passing = 0; warning = 0 }

abbrev pub no_mode : GatewayMode
no_mode = record { mode = "" }

abbrev pub no_expose : Exposed
no_expose = record { checks = false; paths = [] }

abbrev pub weights_to_consul : AgentWeights → Weights
weights_to_consul w = record { passing = w.passing; warning = w.warning }

abbrev pub mode_to_consul : MeshGatewayConfig → GatewayMode
mode_to_consul m = record { mode = m.mode }

abbrev pub expose_path_to_consul : ExposePath → ExposedPath
expose_path_to_consul e = record {
  listener_port = e.listener_port;
  path = e.path;
  local_path_port = e.local_path_port;
  protocol = e.protocol;
}

unfoldable pub expose_to_consul : ExposeConfig → Exposed
expose_to_consul e = record { checks = e.checks; paths = map expose_path_to_consul e.paths }

abbrev mesh_gateway_of : Option MeshGatewayConfig → GatewayMode
mesh_gateway_of none = no_mode
mesh_gateway_of (some m) = mode_to_consul m

unfoldable pub upstream_to_consul : Upstream → ProxyUpstream
upstream_to_consul u = record {
  destination_type = u.destination_type;
  destination_namespace = u.destination_namespace;
  destination_partition = u.destination_partition;
  destination_name = u.destination_name;
  destination_peer = u.destination_peer;
  datacenter = u.datacenter;
  local_bind_address = u.local_bind_address;
  local_bind_port = u.local_bind_port;
  config = u.config;
  mesh_gateway = mesh_gateway_of u.mesh_gateway;
}

abbrev expose_of : Option ExposeConfig → Exposed
expose_of none = no_expose
expose_of (some e) = expose_to_consul e

-- `AgentServiceConnectProxyConfig.ToConsulType`
unfoldable pub connect_proxy_to_consul : ConnectProxyConfig → ConnectProxy
unfolding expose_to_consul upstream_to_consul
connect_proxy_to_consul a = record {
  destination_service_name = "";
  destination_service_id = "";
  local_service_address = a.local_service_address;
  local_service_port = 0;
  mode = "";
  transparent_proxy = none;
  config = a.config;
  upstreams = map upstream_to_consul a.upstreams;
  mesh_gateway = mesh_gateway_of a.mesh_gateway;
  expose = expose_of a.expose;
}

-- `GatewayProxyConfig.ToConsulType`
unfoldable pub gateway_proxy_to_consul : GatewayProxyConfig → ConnectProxy
gateway_proxy_to_consul p = record {
  destination_service_name = "";
  destination_service_id = "";
  local_service_address = "";
  local_service_port = 0;
  mode = "";
  transparent_proxy = none;
  config = p.config;
  upstreams = [];
  mesh_gateway = no_mode;
  expose = no_expose;
}

abbrev weights_of : Option AgentWeights → Weights
weights_of none = no_weights
weights_of (some w) = weights_to_consul w

-- `ServiceRegistration.ToConsulType`
unfoldable pub service_to_consul : ServiceRegistration → AgentService
service_to_consul r = record {
  kind = "";
  id = "";
  service = r.name;
  tags = r.tags;
  meta = r.meta;
  port = r.port;
  address = "";
  tagged_addresses = [];
  weights = weights_of r.weights;
  enable_tag_override = r.enable_tag_override;
  proxy = none;
  namespace = r.namespace;
  partition = r.partition;
  locality = none;
}

abbrev gateway_proxy_of : Option GatewayProxyConfig → Option ConnectProxy
gateway_proxy_of none = none
gateway_proxy_of (some p) = some (gateway_proxy_to_consul p)

-- `GatewayRegistration.ToConsulType`
unfoldable pub gateway_to_consul : GatewayRegistration → AgentService
unfolding gateway_proxy_to_consul
gateway_to_consul g = record {
  kind = g.kind;
  id = "";
  service = g.name;
  tags = g.tags;
  meta = g.meta;
  port = default_gateway_port;
  address = "";
  tagged_addresses = [];
  weights = no_weights;
  enable_tag_override = false;
  proxy = gateway_proxy_of g.proxy;
  namespace = g.namespace;
  partition = g.partition;
  locality = none;
}

-- `GatewayAddress.ToConsulType`
unfoldable pub address_to_consul : GatewayAddress → ServiceAddress
address_to_consul a = record {
  address = a.address;
  port = if nat_eq a.port 0 then default_gateway_port else a.port;
}

unfoldable pub get_public_listener_port : ConnectProxyConfig → ℕ
get_public_listener_port a =
    if nat_eq a.public_listener_port 0 then default_public_listener_port else a.public_listener_port

unfoldable pub get_health_check_port : ℕ → ℕ
get_health_check_port p = if nat_eq p 0 then default_proxy_health_check_port else p
