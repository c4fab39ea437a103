-- ===== src/MeshInit/Merging.antt =====
-- What `registerServiceDefaults` of subcommand/mesh-init/command.go keeps, and that it returns.

use consul_ecs.Base.{
  leb, wrapf, ◌<>◌, Error, ◌↔◌, ℕ, zero, suc, ◌+◌, ◌≤◌, ◌≡◌, ◌≢◌, refl, length, length-append, true,
  Bool-cases, Option-cases, Result-cases, [], ◌∷◌, ◌++◌, Option, none, some, err, arith, inl, inr,
}
use consul_ecs.Base.Text.{quote}
use consul_ecs.Consul.{
  AgentService, QueryOptions, PassiveHealthCheck, UpstreamConfiguration, ServiceConfigEntry,
}
use consul_ecs.Client.{Client, History, service_defaults_get, service_defaults_set}
use consul_ecs.Config.Types.{NetworkPartitionResilienceConfig}
use consul_ecs.MeshInit.ServiceDefaults.{
  entry_or_new, passive_health_check_of, with_passive_health_check, succeeds, set_with_retries,
  merged_entry, register_service_defaults, is_config_entry_not_found_error,
}

abbrev pub passive_of_upstreams : UpstreamConfiguration → Option PassiveHealthCheck
passive_of_upstreams u = elim u.defaults [ none ↦ none | some d ↦ d.passive_health_check ]

-- The passive health check of an entry.
abbrev pub passive_of : ServiceConfigEntry → Option PassiveHealthCheck
passive_of entry = elim entry.upstream_config [ none ↦ none | some u ↦ passive_of_upstreams u ]

-- The merged entry has a passive health check: its own if it had one, and then the whole entry is
-- as it was, and else the given one; and merging once more, with any other check, changes nothing.
pub with_passive_health_check-keeps :
    (check again : PassiveHealthCheck) (entry : ServiceConfigEntry)
    → let merged = with_passive_health_check check entry in
      ((own : PassiveHealthCheck) → passive_of entry ≡ some own → merged ≡ entry)
      × (passive_of entry ≡ none → passive_of merged ≡ some check)
      × (merged.other ≡ entry.other)
      × (with_passive_health_check again merged ≡ merged)
unfolding with_passive_health_check
with_passive_health_check-keeps check again entry =
    (λ own e. ground arith, λ e. ground arith, refl, refl)

-- From a history of this length on, attempts to set service defaults succeed.
abbrev pub SetsFrom : Client → ℕ → Type 0
SetsFrom api n =
    (h : History) (entry : ServiceConfigEntry)
    → n ≤ length h
    → succeeds (api.set_service_defaults h entry) ≡ true

set_returns :
    (api : Client) (n : ℕ) (entry : ServiceConfigEntry) (fuel : ℕ) (h : History)
    → SetsFrom api n
    → suc n ≤ fuel + length h
    → 1 ≤ fuel
    → set_with_retries api entry fuel h ≢ none
unfolding set_with_retries
set_returns api n entry zero h sets enough one e = absurd (omega (arith, one))
set_returns api n entry (suc fuel) h sets enough one e =
    elim (Bool-cases (succeeds (api.set_service_defaults h entry))) [
      | inl fine ↦ ground arith
      | inr failed ↦
          let later = set_returns api n entry fuel (h ++ service_defaults_set entry ∷ []) sets in
          let longer = length-append h (service_defaults_set entry ∷ []) in
          elim (Bool-cases (leb n (length h))) [
            | inl late ↦ let good = sets h entry (ground arith) in ground arith
            | inr early ↦ later (ground arith) (ground arith) (ground arith)
          ]
    ]

pub register_service_defaults_returns :
    (api : Client) (service : AgentService) (resilience : NetworkPartitionResilienceConfig) (n : ℕ)
    (h : History)
    → SetsFrom api n
    → let opts : QueryOptions = record {
      namespace = service.namespace;
      partition = service.partition;
      filter = "";
    } in
      (e : Option Error) × (h' : History) × (register_service_defaults api service resilience
          (suc n)
          h
        ≡ some (e, h'))
      × ((e ≡ none) ↔ (
          (x : Error)
          → api.service_defaults h service.service opts ≡ err x
          → is_config_entry_not_found_error x ≡ true))
unfolding register_service_defaults merged_entry
register_service_defaults_returns api service resilience n h sets =
    let opts : QueryOptions = record {
      namespace = service.namespace;
      partition = service.partition;
      filter = "";
    } in
    let h1 = h ++ service_defaults_get service.service opts ∷ [] in
    let merge = λ (o : Option ServiceConfigEntry).
      with_passive_health_check (passive_health_check_of resilience.outlier_detection)
        (entry_or_new service o) in
    let set = λ (entry : ServiceConfigEntry).
      set_returns api n entry (suc n) h1 sets (omega arith) (omega arith) in
    elim (Result-cases (api.service_defaults h service.service opts)) [
      | inl (x, failed) ↦ elim (Bool-cases (is_config_entry_not_found_error x)) [
        | inl absent ↦ elim (Option-cases (set_with_retries api (merge none) (suc n) h1)) [
          | inl out ↦ absurd (set (merge none) out)
          | inr (h2, is) ↦ (
            none,
            h2,
            rw (failed, register_service_defaults, absent, is) refl,
            (λ e y z. cc, λ all. refl),
          )
        ]
        | inr other ↦
            let error =
              wrapf
                ("failed to fetch existing service defaults for service " <> quote service.service)
                x in
            (
              some error,
              h1,
              rw (failed, register_service_defaults, other) refl,
              (λ (e : some error ≡ none). cc, λ all. (let wrong = all x failed in cc)),
            )
      ]
      | inr (found, answered) ↦
          elim (Option-cases (set_with_retries api (merge found) (suc n) h1)) [
            | inl out ↦ absurd (set (merge found) out)
            | inr (h2, is) ↦ (
              none,
              h2,
              rw (answered, register_service_defaults, is) refl,
              (λ e y z. cc, λ all. refl),
            )
          ]
    ]
