-- ===== src/MeshInit/Ready.antt =====
-- What has been done when mesh-init returns without an error.
use mathlib.Core.Path.{subst}
use consul_ecs.Base.{
  ℕ, ◌≡◌, [], ◌∷◌, ◌++◌, Option, none, some, ◌>>=◌, Error, arith, inl, inr, Option-cases,
  Result-cases,
}
use consul_ecs.Consul.{AgentService, CatalogRegistration, QueryOptions}
use consul_ecs.Client.{Client, History, service_defaults_get}
use consul_ecs.Config.Types.{Config, NetworkPartitionResilienceConfig}
use consul_ecs.MeshInit.ServiceDefaults.{set_with_retries, merged_entry, register_service_defaults}
use consul_ecs.MeshInit.Host.{Host, Progress}
use consul_ecs.MeshInit.Files.{write, executable_path, copy_ecs_binary_to_shared_volume}
use consul_ecs.MeshInit.Run.{
  register_with_retries, enabled_resilience, register_step, service_defaults_step,
}
use consul_ecs.MeshInit.Holds.{
  After, Holds, finished-Holds, Longer, Longer-refl, Longer-one, Longer-trans, IsAccepted,
  Longer-IsAccepted, register_with_retries-IsAccepted, set_with_retries-Longer,
}

-- Consul has accepted the registration, if there is one.
abbrev pub IsAcceptedIfAny : Client → Option CatalogRegistration → History → Type 0
IsAcceptedIfAny api none h = Unit
IsAcceptedIfAny api (some registration) h = IsAccepted api registration h

pub Longer-IsAcceptedIfAny :
    (api : Client) (registration : Option CatalogRegistration) (h h' : History)
    → Longer h h'
    → IsAcceptedIfAny api registration h
    → IsAcceptedIfAny api registration h'
Longer-IsAcceptedIfAny api none h h' longer a = tt
Longer-IsAcceptedIfAny api (some registration) h h' longer a =
    Longer-IsAccepted api registration h h' longer a

register_service_defaults-Longer :
    (api : Client) (service : AgentService) (resilience : NetworkPartitionResilienceConfig)
    (fuel : ℕ) (h h' : History) (e : Option Error)
    → register_service_defaults api service resilience fuel h ≡ some (e, h')
    → Longer h h'
unfolding register_service_defaults
register_service_defaults-Longer api service resilience fuel h h' e x =
    let opts : QueryOptions = record {
      namespace = service.namespace;
      partition = service.partition;
      filter = "";
    } in
    let call = service_defaults_get service.service opts in
    let h1 = h ++ call ∷ [] in
    elim (Result-cases
      (merged_entry service resilience (api.service_defaults h service.service opts))) [
        | inl (y, failed) ↦
            let same : h1 ≡ h' = ground (arith, x, failed) in
            subst (Longer h) same (Longer-one h call)
        | inr (entry, merged) ↦ elim (Option-cases (set_with_retries api entry fuel h1)) [
          | inl out ↦ absurd (ground (arith, x, merged, out))
          | inr (h2, set) ↦
              let same : h2 ≡ h' = ground (arith, x, merged, set) in
              subst (Longer h) same (
                Longer-trans h h1 h2 (Longer-one h call)
                  (set_with_retries-Longer api entry fuel h1 h2 set))
        ]
      ]

module _ (host : Host) (c : Config) (fuel : ℕ) where
  pub register_step-Holds :
      (registration : Option CatalogRegistration) (p : Progress)
      → Holds
          (λ p'. IsAcceptedIfAny host.api registration p'.history × Longer p.history p'.history)
          (register_step host c fuel registration p)
  unfolding register_step
  register_step-Holds none p = (tt, Longer-refl p.history)
  register_step-Holds (some registration) p =
      elim (Option-cases (register_with_retries host.api registration fuel p.history)) [
        | inl out ↦ rw (out, register_step) tt
        | inr (h, done) ↦
            rw (done, register_step)
              (register_with_retries-IsAccepted host.api registration fuel p.history h done)
      ]

  pub service_defaults_step-After :
      (registration : Option CatalogRegistration) (p : Progress)
      → After p (service_defaults_step host c fuel registration p)
  unfolding service_defaults_step
  service_defaults_step-After none p = Longer-refl p.history
  service_defaults_step-After (some registration) p = elim (Option-cases (enabled_resilience c)) [
    | inl off ↦ rw (off, service_defaults_step) (Longer-refl p.history)
    | inr (resilience, on) ↦ elim (Option-cases registration.service) [
      | inl missing ↦ rw (on, missing, service_defaults_step) tt
      | inr (service, is) ↦
          elim (Option-cases
            (register_service_defaults host.api service resilience fuel p.history)) [
              | inl out ↦ rw (on, is, out, service_defaults_step) tt
              | inr ((e, h), done) ↦
                  rw (on, is, done, service_defaults_step)
                    (finished-Holds (λ p'. Longer p.history p'.history) e (record p { history = h })
                      (register_service_defaults-Longer host.api service resilience fuel p.history h
                        e done))
            ]
    ]
  ]

  pub copy_ecs_binary-After : (p : Progress) → After p (copy_ecs_binary_to_shared_volume host c p)
  unfolding copy_ecs_binary_to_shared_volume write
  copy_ecs_binary-After p = elim (Result-cases (executable_path host c >>= host.read_file)) [
    | inl (e, failed) ↦ rw (failed, copy_ecs_binary_to_shared_volume) tt
    | inr (content, read) ↦
        elim (Option-cases
          (host.write_file (host.path_join c.bootstrap_dir "consul-ecs") content)) [
            | inl done ↦ rw (read, done, copy_ecs_binary_to_shared_volume) (Longer-refl p.history)
            | inr (e, failed) ↦ rw (read, failed, copy_ecs_binary_to_shared_volume) tt
          ]
  ]
