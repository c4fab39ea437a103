-- ===== src/MeshInit/WanPort.antt =====
-- The addresses of a mesh gateway, `constructGatewayProxyRegistration` of subcommand/mesh-init/command.go.
use consul_ecs.Base.{
  ℕ, ◌≡◌, refl, ◌==◌, eq_iff, true, nat_eq, [], ◌∙◌, eq_refl, Option, none, some, arith,
  Option-cases, Bool-cases, inl, inr, if◌then◌else◌,
}
use consul_ecs.Base.Dict.{lookup, lookup-insert}
use consul_ecs.Consul.{AgentService, ServiceAddress, kind_mesh_gateway}
use consul_ecs.Task.{TaskMeta}
use consul_ecs.Config.Types.{
  Config, GatewayRegistration, GatewayAddress, default_gateway_port, tagged_address_wan,
}
use consul_ecs.Config.Registration.{address_to_consul, gateway_to_consul}
use consul_ecs.MeshInit.Gateway.{
  mesh_gateway, with_lan_address, with_wan_address, plain_gateway, gateway_service,
}

-- The port of an address as configured, with the default of mesh gateways for 0.
abbrev pub port_or_default : ℕ → ℕ
port_or_default port = if nat_eq port 0 then default_gateway_port else port

abbrev lan_port : Option GatewayAddress → ℕ
lan_port none = default_gateway_port
lan_port (some a) = port_or_default a.port

with_lan_address-port :
    (a : GatewayAddress) (service : AgentService)
    → (with_lan_address (address_to_consul a) service).port ≡ port_or_default a.port
unfolding with_lan_address address_to_consul
with_lan_address-port a service = ground arith

-- What stands under the WAN key: the WAN address where it has one, with its port or 8443.
abbrev pub wan_tag : Option GatewayAddress → Option ServiceAddress
wan_tag none = none
wan_tag (some a) =
    if a.address == ""
    then none
    else some (record { address = a.address; port = port_or_default a.port })

with_lan_address-untagged :
    (a : GatewayAddress) (service : AgentService)
    → service.tagged_addresses ≡ []
    → lookup tagged_address_wan (with_lan_address (address_to_consul a) service).tagged_addresses
      ≡ none
unfolding with_lan_address address_to_consul lookup
with_lan_address-untagged a service bare = elim (Bool-cases (a.address == "")) [
  | inl e ↦ rw (e, with_lan_address) (rw bare refl)
  | inr e ↦ rw (e, with_lan_address) refl
]

with_wan_address_lem :
    (a : GatewayAddress) (service : AgentService)
    → lookup tagged_address_wan service.tagged_addresses ≡ none
    → ((with_wan_address (address_to_consul a) service).port ≡ service.port)
      × (lookup tagged_address_wan (with_wan_address (address_to_consul a) service).tagged_addresses
          ≡ wan_tag (some a))
unfolding with_wan_address address_to_consul
with_wan_address_lem a service bare =
    let port = port_or_default a.port in
    let wan : ServiceAddress = record { address = a.address; port = port } in
    (
      ground arith,
      ground (
        arith,
        eq_refl tagged_address_wan,
        lookup-insert tagged_address_wan tagged_address_wan wan service.tagged_addresses,
      ),
    )

mesh_gateway-ports_of :
    (g : GatewayRegistration) (service : AgentService)
    → service.tagged_addresses ≡ []
    → ((mesh_gateway g service).port ≡ lan_port g.lan_address)
      × (lookup tagged_address_wan (mesh_gateway g service).tagged_addresses
          ≡ wan_tag g.wan_address)
unfolding mesh_gateway lookup
mesh_gateway-ports_of g service bare =
    let ported : AgentService = record service { port = default_gateway_port } in
    let unported : lookup tagged_address_wan ported.tagged_addresses ≡ none = rw bare refl in
    elim (Option-cases g.lan_address) [
      | inl no_lan ↦ elim (Option-cases g.wan_address) [
        | inl no_wan ↦ rw (no_wan, mesh_gateway) (rw (no_lan, mesh_gateway) (refl, unported))
        | inr (wan, given) ↦
            rw (given, mesh_gateway)
              (rw (no_lan, mesh_gateway) (with_wan_address_lem wan ported unported))
      ]
      | inr (lan, is) ↦
          let local = with_lan_address (address_to_consul lan) ported in
          let listens = with_lan_address-port lan ported in
          let untagged = with_lan_address-untagged lan ported bare in
          elim (Option-cases g.wan_address) [
            | inl no_wan ↦ rw (no_wan, mesh_gateway) (rw (is, mesh_gateway) (listens, untagged))
            | inr (wan, given) ↦
                let both = with_wan_address_lem wan local untagged in
                rw (given, mesh_gateway) (rw (is, mesh_gateway) (both.0 ∙ listens, both.1))
          ]
    ]

plain_gateway-bare :
    (c : Config) (g : GatewayRegistration) (meta : TaskMeta)
    → (plain_gateway c g meta).tagged_addresses ≡ []
unfolding plain_gateway gateway_to_consul
plain_gateway-bare c g meta = refl

-- A mesh gateway is registered with its LAN port, 8443 if none is given, whether or not it has a WAN
-- address. Its WAN address, where it has one, is tagged with the WAN port, and with 8443 if that is
-- not given, even where the LAN port differs; without one nothing is tagged as WAN address.
pub mesh_gateway_ports :
    (c : Config) (g : GatewayRegistration) (meta : TaskMeta)
    → g.kind ≡ kind_mesh_gateway
    → ((gateway_service c g meta).port ≡ lan_port g.lan_address)
      × (lookup tagged_address_wan (gateway_service c g meta).tagged_addresses
          ≡ wan_tag g.wan_address)
unfolding gateway_service
mesh_gateway_ports c g meta mesh =
    let is_mesh : (g.kind == kind_mesh_gateway) ≡ true = (eq_iff g.kind kind_mesh_gateway).1 mesh in
    rw (is_mesh, gateway_service)
      (mesh_gateway-ports_of g (plain_gateway c g meta) (plain_gateway-bare c g meta))
