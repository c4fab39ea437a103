-- ===== src/MeshInit/Registration.antt =====
-- The registrations of a service and its sidecar proxy, subcommand/mesh-init/command.go.
use consul_ecs.Base.{
  ◌<>◌, ◌==◌, true, String, List, [], ◌∷◌, Option, none, some, Result, ok, err, errorf,
  if◌then◌else◌,
}
use consul_ecs.Base.Dict.{Dict}
use consul_ecs.Task.{TaskMeta, task_id, node_ip}
use consul_ecs.Consul.{
  AgentService, Locality, CatalogRegistration, ConnectProxy, kind_connect_proxy,
  proxy_mode_transparent,
}
use consul_ecs.Config.Types.{Config, ConnectProxyConfig}
use consul_ecs.Config.Registration.{
  service_to_consul, connect_proxy_to_consul, get_public_listener_port,
}
use consul_ecs.MeshInit.Naming.{
  construct_service_name, make_service_id, make_proxy_svc_id_and_name, merge_meta, get_node_meta,
  construct_checks,
}

unfoldable pub construct_catalog_registration_payload :
    Config → AgentService → TaskMeta → String → CatalogRegistration
unfolding construct_checks get_node_meta
construct_catalog_registration_payload c service meta cluster_arn = record {
  node = cluster_arn;
  node_meta = get_node_meta;
  address = node_ip meta;
  service = some service;
  checks = construct_checks c service;
  partition = service.partition;
  skip_node_update = true;
}

-- The region is read from the environment variable AWS_REGION.
unfoldable pub get_locality_params : String → TaskMeta → Option Locality
get_locality_params region meta =
    if region == "" then none else some (record { region = region; zone = meta.availability_zone })

-- The metadata that every registration of a task carries.
abbrev pub task_meta_entries : TaskMeta → Dict String
task_meta_entries meta =
    ("task-id", task_id meta) ∷ ("task-arn", meta.task_arn) ∷ ("source", "consul-ecs") ∷ []

-- The service before it is wrapped in a catalog registration.
unfoldable pub typical_service : Config → String → TaskMeta → AgentService
unfolding merge_meta get_locality_params
typical_service c region meta =
    let name = construct_service_name c meta.family in
    let address = node_ip meta in
    record (service_to_consul c.service) {
      id = make_service_id name (task_id meta);
      service = name;
      meta = merge_meta (task_meta_entries meta) c.service.meta;
      address = address;
      tagged_addresses =
          if c.transparent_proxy.enabled
          then ("virtual", record { address = address; port = c.service.port }) ∷ []
          else [];
      locality = get_locality_params region meta;
    }

unfoldable pub construct_service_registration :
    Config → String → TaskMeta → String → CatalogRegistration
unfolding typical_service construct_catalog_registration_payload
construct_service_registration c region meta cluster_arn =
    construct_catalog_registration_payload c (typical_service c region meta) meta cluster_arn

-- The proxy's own configuration, with its destination and mode filled in.
abbrev proxy_for : Config → AgentService → ConnectProxyConfig → ConnectProxy
proxy_for c service p =
    let plain = connect_proxy_to_consul p in
    record plain {
      destination_service_id = service.id;
      destination_service_name = service.service;
      local_service_port = service.port;
      mode = if c.transparent_proxy.enabled then proxy_mode_transparent else plain.mode;
    }

unfoldable pub sidecar_proxy : Config → AgentService → ConnectProxyConfig → TaskMeta → AgentService
sidecar_proxy c service p meta =
    let (proxy_id, proxy_name) = make_proxy_svc_id_and_name service.id service.service in
    record {
      kind = kind_connect_proxy;
      id = proxy_id;
      service = proxy_name;
      tags = service.tags;
      meta = service.meta;
      port = get_public_listener_port p;
      address = node_ip meta;
      tagged_addresses = if c.transparent_proxy.enabled then service.tagged_addresses else [];
      weights = service.weights;
      enable_tag_override = service.enable_tag_override;
      proxy = some (proxy_for c service p);
      namespace = service.namespace;
      partition = service.partition;
      locality = service.locality;
    }

-- `none` is the nil dereference of a configuration without `proxy`.
unfoldable pub construct_proxy_registration :
    Config → AgentService → TaskMeta → String → Option CatalogRegistration
unfolding sidecar_proxy construct_catalog_registration_payload
construct_proxy_registration c service meta cluster_arn = elim c.proxy [
  | none ↦ none
  | some p ↦
      some
        (construct_catalog_registration_payload c (sidecar_proxy c service p meta) meta cluster_arn)
]

-- Exactly one registered service is expected, and it must be a proxy.
unfoldable pub only_proxy : String → List AgentService → Result AgentService
only_proxy svc_id [] = err (errorf ("proxy service with ID " <> svc_id <> " not found"))
only_proxy svc_id (_ ∷ _ ∷ _) = err (
    errorf
      ("expected to find only one proxy service with ID " <> svc_id <> ", but more were found"))
only_proxy svc_id (service ∷ []) = elim service.proxy [
  | none ↦ err (errorf ("service " <> svc_id <> " is not a proxy"))
  | some _ ↦ ok service
]
