-- ===== src/MeshInit/Carries.antt =====
-- The metadata of the services that subcommand/mesh-init/command.go registers, and the controller.
use consul_ecs.Base.{◌≡◌, refl, String, [], none, some, ok, arith}
use consul_ecs.Base.Dict.{Dict, lookup, insert_all, lookup-insert_all, NodupKeys}
use consul_ecs.Task.{TaskMeta, task_id}
use consul_ecs.Consul.{AgentService}
use consul_ecs.Config.Types.{Config, ConnectProxyConfig, GatewayRegistration}
use consul_ecs.MeshInit.Naming.{merge_meta}
use consul_ecs.MeshInit.Registration.{typical_service, sidecar_proxy, task_meta_entries}
use consul_ecs.MeshInit.Gateway.{
  plain_gateway, gateway_service, mesh_gateway, with_lan_address, with_wan_address,
}
use consul_ecs.Controller.Services.{get_task_id_from_service_meta}

-- The second map wins where it has the key, and the first fills in the rest.
lookup-merge_meta :
    (k : String) (m1 m2 : Dict String)
    → NodupKeys m1
    → NodupKeys m2
    → lookup k (merge_meta m1 m2) ≡ elim (lookup k m2) [ some v ↦ some v | none ↦ lookup k m1 ]
unfolding merge_meta lookup
lookup-merge_meta k m1 m2 u1 u2 =
    ground (arith, lookup-insert_all k m2 (insert_all m1 []) u2, lookup-insert_all k m1 [] u1)

task_meta_entries-NodupKeys : (meta : TaskMeta) → NodupKeys (task_meta_entries meta)
unfolding lookup
task_meta_entries-NodupKeys meta = ground arith

lookup_task_id : (meta : TaskMeta) → lookup "task-id" (task_meta_entries meta) ≡ some (task_id meta)
unfolding lookup
lookup_task_id meta = refl

merged_task_id :
    (meta : TaskMeta) (own : Dict String)
    → NodupKeys own
    → lookup "task-id" own ≡ none
    → lookup "task-id" (merge_meta (task_meta_entries meta) own) ≡ some (task_id meta)
merged_task_id meta own u free =
    let merged =
      lookup-merge_meta "task-id" (task_meta_entries meta) own (task_meta_entries-NodupKeys meta)
        u in
    ground (arith, merged, lookup_task_id meta)

-- Unless the service's own metadata have the key "task-id", the controller reads the task's ID off
-- the service that mesh-init registers, and off its sidecar proxy.
pub registered_task_id :
    (c : Config) (region : String) (p : ConnectProxyConfig) (meta : TaskMeta)
    → NodupKeys c.service.meta
    → lookup "task-id" c.service.meta ≡ none
    → let service = typical_service c region meta in
      (get_task_id_from_service_meta service ≡ ok (task_id meta))
      × (get_task_id_from_service_meta (sidecar_proxy c service p meta) ≡ ok (task_id meta))
unfolding get_task_id_from_service_meta typical_service sidecar_proxy
registered_task_id c region p meta u free =
    let merged = merged_task_id meta c.service.meta u free in
    (ground (arith, merged), ground (arith, merged))

mesh_gateway-meta :
    (g : GatewayRegistration) (service : AgentService)
    → (mesh_gateway g service).meta ≡ service.meta
unfolding mesh_gateway with_lan_address with_wan_address
mesh_gateway-meta g service = ground arith

-- Unless the gateway's own metadata have the key "task-id", the controller reads the task's ID off
-- the gateway that mesh-init registers, whatever the gateway's kind and addresses.
pub gateway_task_id :
    (c : Config) (g : GatewayRegistration) (meta : TaskMeta)
    → NodupKeys g.meta
    → lookup "task-id" g.meta ≡ none
    → get_task_id_from_service_meta (gateway_service c g meta) ≡ ok (task_id meta)
unfolding get_task_id_from_service_meta gateway_service plain_gateway
gateway_task_id c g meta u free =
    let merged = merged_task_id meta g.meta u free in
    ground (arith, mesh_gateway-meta g (plain_gateway c g meta))
