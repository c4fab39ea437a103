-- ===== src/MeshInit/Returns.antt =====
-- mesh-init comes to an end, without a nil dereference, where its retries do.
use consul_ecs.Base.{
  ℕ, zero, suc, ◌+◌, ◌≤◌, length, length-append, leb, ◌≡◌, ◌≢◌, [], ◌∷◌, ◌++◌, Option, none, Error,
  arith, inl, inr, Option-cases, Bool-cases,
}
use consul_ecs.Consul.{AgentService, CatalogRegistration}
use consul_ecs.Client.{Client, History, register}
use consul_ecs.Config.Types.{Config, NetworkPartitionResilienceConfig}
use consul_ecs.MeshInit.ServiceDefaults.{register_service_defaults}
use consul_ecs.MeshInit.Host.{Host, Progress, finished}
use consul_ecs.MeshInit.Run.{register_with_retries, real_run}
use consul_ecs.MeshInit.Ends.{Ends-inv, IsConfigured}
use consul_ecs.MeshInit.Merging.{SetsFrom, register_service_defaults_returns}
use consul_ecs.MeshInit.Steps.{real_run-Ends}

-- From a history of this length on, Consul accepts registrations.
abbrev pub AcceptsFrom : Client → ℕ → Type 0
AcceptsFrom api n =
    (h : History) (registration : CatalogRegistration)
    → n ≤ length h
    → api.failure h (register registration none) ≡ none

register_returns :
    (api : Client) (n : ℕ) (registration : CatalogRegistration) (fuel : ℕ) (h : History)
    → AcceptsFrom api n
    → suc n ≤ fuel + length h
    → 1 ≤ fuel
    → register_with_retries api registration fuel h ≢ none
unfolding register_with_retries
register_returns api n registration zero h accepts enough one e = absurd (omega (arith, one))
register_returns api n registration (suc fuel) h accepts enough one e =
    let call = register registration none in
    elim (Option-cases (api.failure h call)) [
      | inl taken ↦ ground arith
      | inr (x, failed) ↦
          let later = register_returns api n registration fuel (h ++ call ∷ []) accepts in
          let longer = length-append h (call ∷ []) in
          elim (Bool-cases (leb n (length h))) [
            | inl late ↦ let good = accepts h registration (ground arith) in ground arith
            | inr early ↦ later (ground arith) (ground arith) (ground arith)
          ]
    ]

-- mesh-init returns, with or without an error, where the configuration is one of a gateway or has a
-- proxy and where, from some length of the calls made on, Consul accepts registrations and service
-- defaults: so many attempts and one more are enough, and there is no nil dereference.
pub real_run_returns :
    (host : Host) (c : Config) (n : ℕ) (p : Progress)
    → IsConfigured c
    → AcceptsFrom host.api n
    → SetsFrom host.api n
    → (e : Option Error) × (p' : Progress) × (real_run host c (suc n) p ≡ finished e p')
real_run_returns host c n p configured accepts sets =
    let registers : (registration : CatalogRegistration) (h : History)
        → register_with_retries host.api registration (suc n) h ≢ none =
      λ registration h.
        register_returns host.api n registration (suc n) h accepts (omega arith) (omega arith) in
    let defaults : (service : AgentService) (resilience : NetworkPartitionResilienceConfig)
          (h : History)
        → register_service_defaults host.api service resilience (suc n) h ≢ none =
      λ service resilience h out.
        let done = register_service_defaults_returns host.api service resilience n h sets in
        ground (arith, out, done.2) in
    Ends-inv (real_run host c (suc n) p)
      (real_run-Ends host c (suc n) registers defaults configured p)
