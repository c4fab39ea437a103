-- ===== src/HealthSync/Naming.antt =====
-- The names and IDs of subcommand/health-sync/command.go and checks.go.
use consul_ecs.Base.{String, ◌<>◌, ◌==◌, if◌then◌else◌}
use consul_ecs.Base.Text.{to_lower}
use consul_ecs.Config.Types.{Config}
use consul_ecs.Config.Settings.{is_gateway, gateway_field}

unfoldable pub construct_service_name : Config → String → String
unfolding is_gateway to_lower
construct_service_name c family =
    let config_name =
      if is_gateway c then gateway_field c.gateway (λ g. g.name) else c.service.name in
    if config_name == "" then to_lower family else config_name

unfoldable pub make_service_id : String → String → String
make_service_id service_name task_id = service_name <> "-" <> task_id

unfoldable pub make_proxy_svc_id_and_name : String → String → String × String
make_proxy_svc_id_and_name service_id service_name =
    (service_id <> "-sidecar-proxy", service_name <> "-sidecar-proxy")

unfoldable pub construct_check_id : String → String → String
construct_check_id service_id container_name = service_id <> "-" <> container_name
