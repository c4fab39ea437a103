-- ===== src/MeshInit/Indexed.antt =====
-- Checks by their IDs, as `fetchHealthChecks` of subcommand/health-sync/checks.go indexes them.
use consul_ecs.Base.{
  ◌≡◌, ◌≢◌, ◌==◌, eq_iff, refl, true, String, List, [], ◌∷◌, contains, All, none, some, arith,
  Option-cases, Bool-cases, inl, inr,
}
use consul_ecs.Base.Dict.{
  Dict, lookup, insert, lookup-insert, Entries, insert-Entries, lookup-Entries,
}
use consul_ecs.Consul.{HealthCheck, health_critical}
use consul_ecs.HealthSync.Fetch.{index_checks}

-- The IDs of the checks.
abbrev pub ids : List HealthCheck → List String
ids [] = []
ids (check ∷ checks) = check.check_id ∷ ids checks

-- The check stands under its own ID, and is critical.
abbrev pub IsInitial : String → HealthCheck → Type 0
IsInitial id check = (check.check_id ≡ id) × (check.status ≡ health_critical)

abbrev pub IsCritical : HealthCheck → Type 0
IsCritical check = check.status ≡ health_critical

pub index_checks-IsInitial :
    (checks : List HealthCheck) (m : Dict HealthCheck)
    → All IsCritical checks
    → Entries IsInitial m
    → Entries IsInitial (index_checks checks m)
unfolding index_checks
index_checks-IsInitial [] m h it = it
index_checks-IsInitial (check ∷ checks) m h it =
    index_checks-IsInitial checks _ h.1
      (insert-Entries IsInitial check.check_id check m (refl, h.0) it)

index_checks-keeps :
    (checks : List HealthCheck) (m : Dict HealthCheck) (id : String)
    → lookup id m ≢ none
    → lookup id (index_checks checks m) ≢ none
unfolding index_checks
index_checks-keeps [] m id h = h
index_checks-keeps (check ∷ checks) m id h =
    index_checks-keeps checks _ id
      (λ e. h (ground (arith, lookup-insert id check.check_id check m)))

pub lookup-index_checks :
    (checks : List HealthCheck) (m : Dict HealthCheck) (id : String)
    → contains (ids checks) id ≡ true
    → lookup id (index_checks checks m) ≢ none
unfolding index_checks
lookup-index_checks [] m id h = cc
lookup-index_checks (check ∷ checks) m id h = elim (Bool-cases (check.check_id == id)) [
  | inl same ↦
      index_checks-keeps checks _ id (λ e. ground (arith, lookup-insert id check.check_id check m))
  | inr other ↦ lookup-index_checks checks _ id (ground arith)
]

-- The check is stored under the ID, as it was registered.
abbrev pub IsFound : Dict HealthCheck → String → Type 0
IsFound m id = (check : HealthCheck) × (lookup id m ≡ some check) × IsInitial id check

pub IsFound-of :
    (m : Dict HealthCheck) (id : String) → Entries IsInitial m → lookup id m ≢ none → IsFound m id
IsFound-of m id it there = elim (Option-cases (lookup id m)) [
  | inl e ↦ absurd (there e)
  | inr (check, e) ↦ (check, e, lookup-Entries IsInitial id m it e)
]

pub insert-IsFound :
    (m : Dict HealthCheck) (check : HealthCheck) (id : String)
    → check.status ≡ health_critical
    → IsFound m id
    → IsFound (insert check.check_id check m) id
insert-IsFound m check id critical (old, e, it) = elim (Bool-cases (check.check_id == id)) [
  | inl same ↦ (
    check,
    ground (arith, lookup-insert id check.check_id check m),
    ((eq_iff check.check_id id).0 same, critical),
  )
  | inr other ↦ (old, ground (arith, lookup-insert id check.check_id check m), it)
]
