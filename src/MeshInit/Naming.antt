-- ===== src/MeshInit/Naming.antt =====
-- The names, IDs and checks of subcommand/mesh-init/command.go and checks.go.
use consul_ecs.Base.{◌<>◌, ◌==◌, String, List, [], ◌∷◌, ◌++◌, map, if◌then◌else◌}
use consul_ecs.Base.Text.{to_lower}
use consul_ecs.Base.Dict.{Dict, insert_all}
use consul_ecs.Consul.{AgentService, HealthCheck, health_critical, health_passing, kind_typical}
use consul_ecs.Config.Types.{Config, consul_dataplane_container_name, synthetic_node}
use consul_ecs.Config.Settings.{is_gateway, gateway_field}

unfoldable pub construct_service_name : Config → String → String
unfolding is_gateway to_lower
construct_service_name c family =
    let config_name =
      if is_gateway c then gateway_field c.gateway (λ g. g.name) else c.service.name in
    if config_name == "" then to_lower family else config_name

unfoldable pub make_service_id : String → String → String
make_service_id service_name task_id = service_name <> "-" <> task_id

unfoldable pub make_proxy_svc_id_and_name : String → String → String × String
make_proxy_svc_id_and_name service_id service_name =
    (service_id <> "-sidecar-proxy", service_name <> "-sidecar-proxy")

unfoldable pub construct_check_id : String → String → String
construct_check_id service_id container_name = service_id <> "-" <> container_name

-- `mergeMeta`: the second map wins.
unfoldable pub merge_meta : Dict String → Dict String → Dict String
unfolding insert_all
merge_meta m1 m2 = insert_all m2 (insert_all m1 [])

unfoldable pub get_node_meta : Dict String
get_node_meta = (synthetic_node, "true") ∷ []

unfoldable pub health_check_output_reason : String → String → String
health_check_output_reason status service_name =
    if status == health_passing
    then "ECS health check passing"
    else "Service " <> service_name <> " is not ready"

abbrev pub consul_ecs_check_type : String
consul_ecs_check_type = "consul-ecs-health-check"

abbrev pub container_check : AgentService → String → HealthCheck
container_check service name = record {
  check_id = construct_check_id service.id name;
  name = "Consul ECS health check synced";
  type = consul_ecs_check_type;
  service_id = service.id;
  namespace = service.namespace;
  status = health_critical;
  output = health_check_output_reason health_critical service.service;
  notes =
      "consul-ecs created and updates this check because the " <> name
      <> " container has an ECS health check.";
}

abbrev pub dataplane_check : AgentService → HealthCheck
dataplane_check service = record {
  check_id = construct_check_id service.id consul_dataplane_container_name;
  name = "Consul dataplane readiness";
  type = consul_ecs_check_type;
  service_id = service.id;
  namespace = service.namespace;
  status = health_critical;
  output = health_check_output_reason health_critical service.service;
  notes =
      "consul-ecs created and updates this check to indicate consul-dataplane container's readiness";
}

-- A check for each synced container of a typical service, and one for the dataplane always.
unfoldable pub construct_checks : Config → AgentService → List HealthCheck
unfolding construct_check_id health_check_output_reason
construct_checks c service =
    (if service.kind == kind_typical
      then map (container_check service) c.health_sync_containers
      else [])
    ++ dataplane_check service ∷ []
