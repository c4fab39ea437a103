-- ===== src/MeshInit/Gateway.antt =====
-- The registration of a gateway, subcommand/mesh-init/command.go.
use consul_ecs.Base.{◌==◌, ltb, nat_eq, String, [], ◌∷◌, none, some, if◌then◌else◌}
use consul_ecs.Base.Dict.{insert}
use consul_ecs.Task.{TaskMeta, task_id, node_ip}
use consul_ecs.Consul.{AgentService, ServiceAddress, CatalogRegistration, kind_mesh_gateway}
use consul_ecs.Config.Types.{
  Config, GatewayRegistration, default_gateway_port, tagged_address_lan, tagged_address_wan,
}
use consul_ecs.Config.Registration.{gateway_to_consul, address_to_consul}
use consul_ecs.MeshInit.Naming.{construct_service_name, make_service_id, merge_meta}
use consul_ecs.MeshInit.Registration.{task_meta_entries, construct_catalog_registration_payload}

-- The gateway before the `switch` on its kind.
unfoldable pub plain_gateway : Config → GatewayRegistration → TaskMeta → AgentService
unfolding gateway_to_consul merge_meta
plain_gateway c g meta =
    let name = construct_service_name c meta.family in
    record (gateway_to_consul g) {
      id = make_service_id name (task_id meta);
      service = name;
      address = node_ip meta;
      meta = merge_meta (task_meta_entries meta) g.meta;
    }

-- The LAN address gives the port and, where it has one, the address.
unfoldable pub with_lan_address : ServiceAddress → AgentService → AgentService
with_lan_address lan service =
    let ported = record service { port = if ltb 0 lan.port then lan.port else service.port } in
    if lan.address == ""
    then ported
    else record ported { address = lan.address; tagged_addresses = (tagged_address_lan, lan) ∷ [] }

-- The WAN address is tagged where it has an address.
unfoldable pub with_wan_address : ServiceAddress → AgentService → AgentService
with_wan_address wan service =
    let ported = record wan { port = if nat_eq wan.port 0 then service.port else wan.port } in
    if wan.address == "" then service else record service {
      tagged_addresses = insert tagged_address_wan ported service.tagged_addresses;
    }

unfoldable pub mesh_gateway : GatewayRegistration → AgentService → AgentService
unfolding with_lan_address with_wan_address address_to_consul insert
mesh_gateway g service =
    let ported = record service { port = default_gateway_port } in
    let lan : AgentService = elim g.lan_address [
      | none ↦ ported
      | some a ↦ with_lan_address (address_to_consul a) ported
    ] in
    elim g.wan_address [ none ↦ lan | some a ↦ with_wan_address (address_to_consul a) lan ]

unfoldable pub gateway_service : Config → GatewayRegistration → TaskMeta → AgentService
unfolding plain_gateway mesh_gateway
gateway_service c g meta =
    let service = plain_gateway c g meta in
    if g.kind == kind_mesh_gateway then mesh_gateway g service else service

unfoldable pub construct_gateway_proxy_registration :
    Config → GatewayRegistration → TaskMeta → String → CatalogRegistration
unfolding gateway_service construct_catalog_registration_payload
construct_gateway_proxy_registration c g meta cluster_arn =
    construct_catalog_registration_payload c (gateway_service c g meta) meta cluster_arn
