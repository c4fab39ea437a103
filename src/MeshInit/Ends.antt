-- ===== src/MeshInit/Ends.antt =====
-- The ends of the steps of subcommand/mesh-init/command.go, and the registrations that they are given.
use consul_ecs.Base.{
  ℕ, ◌≡◌, ◌≢◌, ◌⊎◌, refl, true, false, String, List, [], ◌∷◌, Option, none, some, Result, ok, err,
  Error, All, arith, inl, inr, Option-cases,
}
use consul_ecs.Task.{TaskMeta}
use consul_ecs.Consul.{AgentService, CatalogRegistration, ConnectProxy}
use consul_ecs.Config.Types.{Config, GatewayRegistration, ConnectProxyConfig}
use consul_ecs.Config.Settings.{is_gateway}
use consul_ecs.Config.Registration.{get_health_check_port}
use consul_ecs.Redirect.{Iptables, TrafficRedirectionCfg, iptables_config, apply}
use consul_ecs.MeshInit.Registration.{
  only_proxy, construct_proxy_registration, construct_service_registration,
  construct_catalog_registration_payload, typical_service, sidecar_proxy,
}
use consul_ecs.MeshInit.Gateway.{construct_gateway_proxy_registration}
use consul_ecs.MeshInit.Host.{
  Host, Progress, Outcome, finished, retrying, panics, and_then, in_turn, with,
}
use consul_ecs.MeshInit.Files.{proxy_health_check_port}
use consul_ecs.MeshInit.Run.{registrations}

-- The command returns, with or without an error.
abbrev pub Ends : Outcome → Type 0
Ends (finished e p) = Unit
Ends retrying = ⊥
Ends panics = ⊥

pub Ends-inv : (m : Outcome) → Ends m → (e : Option Error) × (p : Progress) × (m ≡ finished e p)
Ends-inv (finished e p) h = (e, p, refl)
Ends-inv retrying h = absurd h
Ends-inv panics h = absurd h

pub and_then-Ends :
    (m : Outcome) (k : Progress → Outcome)
    → Ends m
    → ((p : Progress) → Ends (k p))
    → Ends (and_then m k)
and_then-Ends (finished none p) k h f = f p
and_then-Ends (finished (some e) p) k h f = tt
and_then-Ends retrying k h f = h
and_then-Ends panics k h f = h

pub with-Ends :
    {A : Type 0} (r : Result A) (p : Progress) (k : A → Outcome)
    → ((a : A) → r ≡ ok a → Ends (k a))
    → Ends (with r p k)
with-Ends (ok a) p k f = f a refl
with-Ends (err e) p k f = tt

pub in_turn-Ends :
    (steps : List (Progress → Outcome))
    → All (λ step. (p : Progress) → Ends (step p)) steps
    → (p : Progress) → Ends (in_turn steps p)
in_turn-Ends [] h p = tt
in_turn-Ends (step ∷ steps) h p =
    and_then-Ends (step p) (in_turn steps) (h.0 p) (in_turn-Ends steps h.1)

-- The registration is one of a service.
abbrev pub HasService : CatalogRegistration → Type 0
HasService r = (service : AgentService) × (r.service ≡ some service)

abbrev pub HasServiceIfAny : Option CatalogRegistration → Type 0
HasServiceIfAny none = Unit
HasServiceIfAny (some r) = HasService r

-- The configuration is one of a gateway, or has a proxy.
abbrev pub IsConfigured : Config → Type 0
IsConfigured c =
    (is_gateway c ≡ true) ⊎ ((is_gateway c ≡ false) × (p : ConnectProxyConfig) × (c.proxy ≡ some p))

pub proxy_health_check_port-some :
    (c : Config) (host : Host)
    → IsConfigured c
    → (port : ℕ) × (proxy_health_check_port host c ≡ some port)
unfolding proxy_health_check_port is_gateway
proxy_health_check_port-some c host (inl gateway) = elim (Option-cases c.gateway) [
  | inl missing ↦ absurd (ground (arith, gateway, missing))
  | inr (g, is) ↦ (get_health_check_port g.health_check_port, ground (arith, gateway, is))
]
proxy_health_check_port-some c host (inr (typical, p, is)) =
    (get_health_check_port p.health_check_port, ground (arith, typical, is))

gateway_registration-HasService :
    (c : Config) (g : GatewayRegistration) (meta : TaskMeta) (arn : String)
    → HasService (construct_gateway_proxy_registration c g meta arn)
unfolding construct_gateway_proxy_registration construct_catalog_registration_payload
gateway_registration-HasService c g meta arn = (_, refl)

service_registration-HasService :
    (c : Config) (region : String) (meta : TaskMeta) (arn : String)
    → HasService (construct_service_registration c region meta arn)
unfolding construct_service_registration construct_catalog_registration_payload
service_registration-HasService c region meta arn = (_, refl)

proxy_registration-HasService :
    (c : Config) (service : AgentService) (meta : TaskMeta) (arn : String) (p : ConnectProxyConfig)
    → c.proxy ≡ some p
    → (proxy : CatalogRegistration) × (construct_proxy_registration c service meta arn ≡ some proxy)
      × HasService proxy
unfolding construct_proxy_registration construct_catalog_registration_payload
proxy_registration-HasService c service meta arn p is = (
  construct_catalog_registration_payload c (sidecar_proxy c service p meta) meta arn,
  ground (arith, is),
  (_, refl),
)

pub registrations-HasService :
    (c : Config) (region : String) (meta : TaskMeta) (arn : String)
    → IsConfigured c
    → (service : Option CatalogRegistration) × (proxy : CatalogRegistration) × (registrations c
          region meta arn
        ≡ some (service, proxy))
      × HasServiceIfAny service
      × HasService proxy
unfolding registrations is_gateway
registrations-HasService c region meta arn (inl gateway) = elim (Option-cases c.gateway) [
  | inl missing ↦ absurd (ground (arith, gateway, missing))
  | inr (g, is) ↦ (
    none,
    construct_gateway_proxy_registration c g meta arn,
    ground (arith, gateway, is),
    tt,
    gateway_registration-HasService c g meta arn,
  )
]
registrations-HasService c region meta arn (inr (typical, p, is)) =
    let (proxy, made, has) =
      proxy_registration-HasService c (typical_service c region meta) meta arn p is in
    (
      some (construct_service_registration c region meta arn),
      proxy,
      ground (arith, typical, made),
      service_registration-HasService c region meta arn,
      has,
    )

pub only_proxy-proxy :
    (id : String) (services : List AgentService) (svc : AgentService)
    → only_proxy id services ≡ ok svc
    → (proxy : ConnectProxy) × (svc.proxy ≡ some proxy)
unfolding only_proxy
only_proxy-proxy id [] svc e = absurd (ground (arith, e))
only_proxy-proxy id (x ∷ y ∷ services) svc e = absurd (ground (arith, e))
only_proxy-proxy id (x ∷ []) svc e = elim (Option-cases x.proxy) [
  | inl missing ↦ absurd (ground (arith, e, missing))
  | inr (proxy, is) ↦ (proxy, ground (arith, e, is))
]

pub apply-some :
    (t : Iptables) (cfg : TrafficRedirectionCfg) (svc : AgentService) (proxy : ConnectProxy)
    → cfg.proxy_svc ≡ some svc
    → svc.proxy ≡ some proxy
    → apply t cfg ≢ none
unfolding apply iptables_config
apply-some t cfg svc proxy given has e = ground arith
