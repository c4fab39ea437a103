-- ===== src/Tests/MeshInit.antt =====
-- Tests and examples for mesh-init.
use consul_ecs.MeshInit.ServiceDefaults.{entry_or_new, with_passive_health_check}
use consul_ecs.MeshInit.Merging.{passive_of, with_passive_health_check-keeps}
use consul_ecs.Consul.{PassiveHealthCheck, ServiceConfigEntry}
use consul_ecs.Base.{
  none, ◌≡◌, ◌==◌, ◌&&◌, refl, true, String, [], contains, some, ok, if◌then◌else◌,
}
use consul_ecs.Base.Dict.{Dict, lookup}
use consul_ecs.Task.{parse_task_id, task_id}
use consul_ecs.Consul.{AgentService, HealthCheck}
use consul_ecs.Client.{Client}
use consul_ecs.Config.Types.{Config}
use consul_ecs.Config.Settings.{is_gateway}
use consul_ecs.Config.Registration.{service_to_consul}
use consul_ecs.Controller.Services.{get_task_id_from_service_meta}
use consul_ecs.HealthSync.Naming.{
  construct_check_id, construct_service_name, make_service_id, make_proxy_svc_id_and_name,
}
use consul_ecs.HealthSync.Fetch.{fetch_health_checks}
use consul_ecs.HealthSync.Loop.{health_sync_containers}
use consul_ecs.MeshInit.Naming
use consul_ecs.MeshInit.Naming.{construct_checks}
use consul_ecs.MeshInit.Registration.{typical_service, sidecar_proxy}
use consul_ecs.MeshInit.Gateway.{gateway_service}
use consul_ecs.MeshInit.Carries.{registered_task_id, gateway_task_id}
use consul_ecs.MeshInit.WanPort.{mesh_gateway_ports}
use consul_ecs.MeshInit.Indexed.{IsFound}
use consul_ecs.MeshInit.Synced.{registered_checks-IsFound}
use consul_ecs.Tests.Samples.{task, config, proxy_config, gateway, client}

abbrev web : AgentService
web = typical_service config "us-east-1" task

abbrev web_proxy : AgentService
web_proxy = sidecar_proxy config web proxy_config task

-- The same service in a namespace and a partition of its own.
abbrev tenant : Config
tenant = record config {
  service = record (config.service) { namespace = "apps"; partition = "eu" };
}

abbrev tenant_web : AgentService
tenant_web = typical_service tenant "us-east-1" task

abbrev tenant_proxy : AgentService
tenant_proxy = sidecar_proxy tenant tenant_web proxy_config task

-- Servers that know the two services there, and none elsewhere.
abbrev registry : Client
registry = record client {
  checks = λ h name o.
      if o.namespace == "apps" && o.partition == "eu"
      then if name == "web"
        then ok (construct_checks tenant tenant_web)
        else ok (construct_checks tenant tenant_proxy)
      else ok [];
}

registered_checks-IsFound_example :
    (m : Dict HealthCheck) × ((fetch_health_checks registry tenant task []).0 ≡ ok m)
    × ((name : String)
        → contains (health_sync_containers tenant) name ≡ true
        → IsFound m (
            construct_check_id
              (make_service_id (construct_service_name tenant task.family) (task_id task))
              name))
    × IsFound m (
        construct_check_id
          (make_proxy_svc_id_and_name
            (make_service_id (construct_service_name tenant task.family) (task_id task))
            "").0
          "consul-dataplane")
unfolding is_gateway typical_service service_to_consul Naming.construct_service_name sidecar_proxy
    Naming.make_proxy_svc_id_and_name
registered_checks-IsFound_example =
    registered_checks-IsFound registry tenant "us-east-1" proxy_config task [] refl
      (λ h o n p e. rw (n, p) refl) (λ h o n p e. rw (n, p) refl)

task_id_example :
    (get_task_id_from_service_meta web ≡ ok "7")
    × (get_task_id_from_service_meta web_proxy ≡ ok "7")
unfolding task_id lookup parse_task_id
task_id_example = registered_task_id config "us-east-1" proxy_config task (refl, tt) refl

gateway_example : get_task_id_from_service_meta (gateway_service config gateway task) ≡ ok "7"
unfolding task_id lookup parse_task_id
gateway_example = gateway_task_id config gateway task (refl, tt) refl

-- The LAN port is 9000, and the WAN port 8443.
ports_example :
    ((gateway_service config gateway task).port ≡ 9000)
    × (lookup "wan" (gateway_service config gateway task).tagged_addresses
        ≡ some (record { address = "1.2.3.4"; port = 8443 }))
ports_example = mesh_gateway_ports config gateway task refl

abbrev own_check : PassiveHealthCheck
own_check = record {
  interval = 1;
  max_failures = 2;
  enforcing_consecutive5xx = none;
  max_ejection_percent = some 9;
}

abbrev set_check : PassiveHealthCheck
set_check = record {
  interval = 5;
  max_failures = 5;
  enforcing_consecutive5xx = some 7;
  max_ejection_percent = some 8;
}

abbrev plain_entry : ServiceConfigEntry
plain_entry = entry_or_new web none

merging_example :
    ((own : PassiveHealthCheck)
      → none ≡ some own
      → with_passive_health_check own_check plain_entry ≡ plain_entry)
    × (passive_of plain_entry ≡ none
        → passive_of (with_passive_health_check own_check plain_entry) ≡ some own_check)
    × ((with_passive_health_check own_check plain_entry).other ≡ plain_entry.other)
    × (with_passive_health_check set_check (with_passive_health_check own_check plain_entry)
        ≡ with_passive_health_check own_check plain_entry)
merging_example = with_passive_health_check-keeps own_check set_check plain_entry
