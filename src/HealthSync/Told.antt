-- ===== src/HealthSync/Told.antt =====
-- What Consul is told when checks are marked as critical, subcommand/health-sync/checks.go.
use mathlib.Core.Option
use mathlib.Core.Path.{subst}
use mathlib.Core.List.{append_assoc}
use consul_ecs.Base.{
  ◌≡◌, ◌⊎◌, ◌∙◌, refl, eq_iff, true, String, List, [], ◌∷◌, ◌++◌, Option, none, some, Append, All,
  All-append, ap, contains, arith, inl, inr, Option-cases,
}
use consul_ecs.Base.Dict.{lookup, lookup-insert}
use consul_ecs.Task.{TaskMeta, task_id}
use consul_ecs.Consul.{HealthCheck}
use consul_ecs.Client.{
  Client, Call, register, History, Extends, Extends-refl, Extends-one, Extends-trans,
}
use consul_ecs.Config.Types.{Config}
use consul_ecs.HealthSync.Naming.{construct_service_name, make_service_id, construct_check_id}
use consul_ecs.HealthSync.Containers.{status_unhealthy, ecs_health_to_consul_health}
use consul_ecs.HealthSync.Checks.{
  State, update_consul_health_status, update_check_req, set_checks_critical, with_health,
}
use consul_ecs.HealthSync.Critical.{
  status_at, with_status, mark_all-reaches, set_checks_critical-All,
}

-- The call tells Consul that one check at the cluster's node is critical.
abbrev pub TellsCritical : String → Call → Type 0
TellsCritical cluster_arn (register r o) =
    (check : HealthCheck) × (r.node ≡ cluster_arn)
    × (r.checks ≡ check ∷ [])
    × (check.status ≡ "critical")
TellsCritical cluster_arn _ = ⊥

-- The call updates the check of the ID.
abbrev pub Updates : String → Call → Type 0
Updates id (register r o) = (check : HealthCheck) × (r.checks ≡ check ∷ []) × (check.check_id ≡ id)
Updates id _ = ⊥

-- Some of the calls updates the check of the ID, if there is one.
abbrev pub AreTold : Option String → List Call → Type 0
AreTold none calls = Unit
AreTold (some id) [] = ⊥
AreTold (some id) (call ∷ calls) = Updates id call ⊎ AreTold (some id) calls

AreTold-append : (o : Option String) (xs ys : List Call) → AreTold o xs → AreTold o (xs ++ ys)
AreTold-append none xs ys h = tt
AreTold-append (some id) [] ys h = absurd h
AreTold-append (some id) (x ∷ xs) ys (inl h) = inl h
AreTold-append (some id) (x ∷ xs) ys (inr h) = inr (AreTold-append (some id) xs ys h)

-- The ID of a stored check, as Consul knows it.
abbrev pub check_id_at : String → State → Option String
check_id_at id s = Option.map (λ (check : HealthCheck). check.check_id) (lookup id s.checks)

-- The calls made since are updates to critical, and the check is among those updated.
abbrev pub IsTold : String → Option String → History → History → Type 0
IsTold cluster_arn o h h' =
    (calls : List Call) × (h' ≡ h ++ calls)
    × All (TellsCritical cluster_arn) calls
    × AreTold o calls

AreTold-last :
    (id : String) (calls : List Call) (call : Call)
    → Updates id call
    → AreTold (some id) (calls ++ call ∷ [])
AreTold-last id [] call h = inl h
AreTold-last id (x ∷ calls) call h = inr (AreTold-last id calls call h)

module _ (cluster_arn : String) where
  IsTold-then :
      (o : Option String) (h1 h2 h3 : History)
      → IsTold cluster_arn o h1 h2
      → Extends (TellsCritical cluster_arn) h2 h3
      → IsTold cluster_arn o h1 h3
  IsTold-then o h1 h2 h3 (xs, e1, p1, told) (ys, e2, p2) = (
    xs ++ ys,
    e2 ∙ ap (λ (h : History). h ++ ys) e1 ∙ append_assoc h1 xs ys,
    All-append (TellsCritical cluster_arn) xs ys p1 p2,
    AreTold-append o xs ys told,
  )

  IsTold-last :
      (id : String) (h1 h2 : History) (call : Call)
      → Extends (TellsCritical cluster_arn) h1 h2
      → TellsCritical cluster_arn call
      → Updates id call
      → IsTold cluster_arn (some id) h1 (h2 ++ call ∷ [])
  IsTold-last id h1 h2 call (xs, e, p) critical updates = (
    xs ++ call ∷ [],
    ap (λ (h : History). h ++ call ∷ []) e ∙ append_assoc h1 xs (call ∷ []),
    All-append (TellsCritical cluster_arn) xs (call ∷ []) p (critical, tt),
    AreTold-last id xs call updates,
  )

  IsTold-none :
      (h1 h2 : History) → Extends (TellsCritical cluster_arn) h1 h2 → IsTold cluster_arn none h1 h2
  IsTold-none h1 h2 (xs, e, p) = (xs, e, p, tt)

module _ (api : Client) (c : Config) (cluster_arn : String) where
  check_id_at-update :
      (id j status : String) (s : State)
      → check_id_at id (update_consul_health_status api c cluster_arn j status s).1
        ≡ check_id_at id s
  unfolding update_consul_health_status
  check_id_at-update id j status s = elim (Option-cases (lookup j s.checks)) [
    | inl e ↦ ground (arith, eq_iff j id)
    | inr (check, e) ↦
        ground (arith, eq_iff j id, lookup-insert id j (with_health j status check) s.checks)
  ]

  update-Extends :
      (j : String) (s : State)
      → Extends
          (TellsCritical cluster_arn)
          s.calls
          (update_consul_health_status api c cluster_arn j status_unhealthy s).1.calls
  unfolding update_consul_health_status ecs_health_to_consul_health
  update-Extends j s = elim (Option-cases (lookup j s.checks)) [
    | inl e ↦ rw (e, update_consul_health_status) (Extends-refl (TellsCritical cluster_arn) s.calls)
    | inr (check, e) ↦
        rw (e, update_consul_health_status)
          (Extends-one (TellsCritical cluster_arn) s.calls
            (update_check_req cluster_arn (with_health j status_unhealthy check))
            (with_health j status_unhealthy check, refl, refl, refl))
  ]

  module _ (id : String) (o : Option String) (h : History) where
    abbrev Before : State → Type 0
    Before t = (check_id_at id t ≡ o) × Extends (TellsCritical cluster_arn) h t.calls

    abbrev After : State → Type 0
    After t = (check_id_at id t ≡ o) × IsTold cluster_arn o h t.calls

    update-Before :
        (j : String) (t : State)
        → Before t
        → Before (update_consul_health_status api c cluster_arn j status_unhealthy t).1
    update-Before j t (same, calls) = (
      check_id_at-update id j status_unhealthy t ∙ same,
      Extends-trans (TellsCritical cluster_arn) h t.calls _ calls (update-Extends j t),
    )

    update-After :
        (j : String) (t : State)
        → After t
        → After (update_consul_health_status api c cluster_arn j status_unhealthy t).1
    update-After j t (same, told) = (
      check_id_at-update id j status_unhealthy t ∙ same,
      IsTold-then cluster_arn o h t.calls _ told (update-Extends j t),
    )

    update-After_self :
        (t : State)
        → Before t
        → After (update_consul_health_status api c cluster_arn id status_unhealthy t).1
    unfolding update_consul_health_status ecs_health_to_consul_health
    update-After_self t (same, calls) = (
      check_id_at-update id id status_unhealthy t ∙ same,
      elim (Option-cases (lookup id t.checks)) [
        | inl e ↦
            let absent : none ≡ o = ground (arith, same, e) in
            rw (e, update_consul_health_status)
              (subst (λ o'. IsTold cluster_arn o' h t.calls) absent
                (IsTold-none cluster_arn h t.calls calls))
        | inr (check, e) ↦
            let stored : some check.check_id ≡ o = ground (arith, same, e) in
            let check' = with_health id status_unhealthy check in
            let call = update_check_req cluster_arn check' in
            rw (e, update_consul_health_status)
              (subst (λ o'. IsTold cluster_arn o' h (t.calls ++ call ∷ [])) stored
                (IsTold-last cluster_arn check.check_id h t.calls call calls
                  (check', refl, refl, refl) (check', refl, refl)))
      ],
    )

  -- After `setChecksCritical`, whatever Consul answered to any of the updates, each named container's
  -- check under the service is critical if it is stored at all; and then a call has told Consul so.
  -- All the calls made are updates that tell Consul that a check is critical.
  pub set_checks_critical-tells :
      (append : Append) (meta : TaskMeta) (names : List String) (name : String) (s : State)
      → contains names name ≡ true
      → let id =
          construct_check_id
            (make_service_id (construct_service_name c meta.family) (task_id meta))
            name in
        let s' = (set_checks_critical api c cluster_arn append meta names s).1 in
        (status_at id s' ≡ with_status "critical" (status_at id s))
        × IsTold cluster_arn (check_id_at id s) s.calls s'.calls
  unfolding set_checks_critical
  set_checks_critical-tells append meta names name s m =
      let task = task_id meta in
      let service_name = construct_service_name c meta.family in
      let id = construct_check_id (make_service_id service_name task) name in
      let o = check_id_at id s in
      (
        set_checks_critical-All api c cluster_arn append meta names name s m,
        (mark_all-reaches api c cluster_arn task service_name (Before id o s.calls)
            (After id o s.calls) append names none name s m (update-Before id o s.calls)
            (update-After id o s.calls) (update-After_self id o s.calls)
            (refl, Extends-refl (TellsCritical cluster_arn) s.calls)).1,
      )
