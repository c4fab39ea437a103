-- ===== src/HealthSync/Critical.antt =====
-- Marking checks as critical, `updateConsulHealthStatus` and its callers.
use mathlib.Core.Option
use mathlib.Core.Path.{subst}
use consul_ecs.Config.Settings.{is_gateway}
use consul_ecs.Base.{
  Option-cases, ◌⊎◌, eq_refl, sym, contains, ◌≡◌, ◌==◌, eq_iff, refl, true, String, List, [], ◌∷◌,
  Option, none, some, Error, Append, arith, Bool-cases, inl, inr, if◌then◌else◌,
}
use consul_ecs.Base.Dict.{lookup, lookup-insert}
use consul_ecs.Task.{TaskMeta, task_id}
use consul_ecs.Consul.{HealthCheck, health_critical}
use consul_ecs.Client.{Client}
use consul_ecs.Config.Types.{Config, consul_dataplane_container_name}
use consul_ecs.HealthSync.Naming.{construct_service_name, make_service_id, construct_check_id}
use consul_ecs.HealthSync.Containers.{status_unhealthy, ecs_health_to_consul_health}
use consul_ecs.HealthSync.Checks.{
  State, update_consul_health_status, handle_health_for_dataplane_container, mark_unhealthy,
  mark_all_unhealthy, set_checks_critical, with_health,
}

-- The status of a stored check.
abbrev pub status_at : String → State → Option String
status_at id s = Option.map (λ (check : HealthCheck). check.status) (lookup id s.checks)

abbrev pub with_status : String → Option String → Option String
with_status status none = none
with_status status (some _) = some status

module _ (api : Client) (c : Config) (cluster_arn : String) where
  -- An update sets the status of its check where that is stored, and leaves all others alone.
  status_at-update :
      (id j status : String) (s : State)
      → status_at id (update_consul_health_status api c cluster_arn j status s).1 ≡ (
          if j == id
          then with_status (ecs_health_to_consul_health status) (status_at id s)
          else status_at id s)
  unfolding update_consul_health_status
  status_at-update id j status s = elim (Option-cases (lookup j s.checks)) [
    | inl e ↦ ground (arith, eq_iff j id)
    | inr (check, e) ↦
        ground (arith, eq_iff j id, lookup-insert id j (with_health j status check) s.checks)
  ]

module _ (api : Client) (c : Config) (cluster_arn : String) (P : State → Type 0) where
  -- What every update with the given status keeps, the updates of the dataplane's checks keep.
  pub handle-keeps :
      (task service_name name status : String) (s : State)
      → ((j : String) (t : State)
          → P t
          → P (update_consul_health_status api c cluster_arn j status t).1)
      → P s
      → P
          (handle_health_for_dataplane_container api c cluster_arn task service_name name status
            s).1
  unfolding handle_health_for_dataplane_container
  handle-keeps task service_name name status s keep h =
      let id = construct_check_id (make_service_id service_name task) name in
      let first = update_consul_health_status api c cluster_arn id status s in
      elim (Bool-cases (is_gateway c)) [
        | inl e ↦ rw e (keep id s h)
        | inr e ↦ elim (Option-cases first.0) [
          | inl ok ↦ rw (e, ok) (keep _ first.1 (keep id s h))
          | inr (x, failed) ↦ rw (e, failed) (keep id s h)
        ]
      ]

  pub mark-keeps :
      (task service_name name : String) (s : State)
      → ((j : String) (t : State)
          → P t
          → P (update_consul_health_status api c cluster_arn j status_unhealthy t).1)
      → P s
      → P (mark_unhealthy api c cluster_arn task service_name name s).1
  unfolding mark_unhealthy
  mark-keeps task service_name name s keep h =
      elim (Bool-cases (name == consul_dataplane_container_name)) [
        | inl e ↦ rw e (handle-keeps task service_name name status_unhealthy s keep h)
        | inr e ↦ rw e (keep _ s h)
      ]

  pub mark_all-keeps :
      (append : Append) (task service_name : String) (names : List String) (e : Option Error)
      (s : State)
      → ((j : String) (t : State)
          → P t
          → P (update_consul_health_status api c cluster_arn j status_unhealthy t).1)
      → P s
      → P (mark_all_unhealthy api c cluster_arn append task service_name names e s).1
  unfolding mark_all_unhealthy
  mark_all-keeps append task service_name [] e s keep h = h
  mark_all-keeps append task service_name (name ∷ names) e s keep h =
      mark_all-keeps append task service_name names _ _ keep
        (mark-keeps task service_name name s keep h)

-- Whatever an update of the named container's check reaches, and other updates keep, marking all
-- the containers reaches.
module _ (api : Client) (c : Config) (cluster_arn task service_name : String)
    (P Q : State → Type 0) where
  abbrev pub check_id_of : String → String
  check_id_of name = construct_check_id (make_service_id service_name task) name

  -- Updates with the unhealthy status keep the predicate.
  abbrev pub Keeps : (State → Type 0) → Type 0
  Keeps R =
      (j : String) (t : State)
      → R t
      → R (update_consul_health_status api c cluster_arn j status_unhealthy t).1

  mark-reaches :
      (name : String) (s : State)
      → Keeps Q
      → ((t : State)
          → P t
          → Q
              (update_consul_health_status api c cluster_arn
                (check_id_of name)
                status_unhealthy
                t).1)
      → P s
      → Q (mark_unhealthy api c cluster_arn task service_name name s).1
  unfolding mark_unhealthy handle_health_for_dataplane_container
  mark-reaches name s keep reach h =
      let first =
        update_consul_health_status api c cluster_arn (check_id_of name) status_unhealthy s in
      let reached : Q first.1 = reach s h in
      elim (Bool-cases (name == consul_dataplane_container_name)) [
        | inr e ↦ rw e reached
        | inl e ↦ elim (Bool-cases (is_gateway c)) [
          | inl g ↦ rw (e, g) reached
          | inr g ↦ elim (Option-cases first.0) [
            | inl ok ↦ rw (e, g, ok) (keep _ first.1 reached)
            | inr (x, failed) ↦ rw (e, g, failed) reached
          ]
        ]
      ]

  pub mark_all-reaches :
      (append : Append) (names : List String) (e : Option Error) (name : String) (s : State)
      → contains names name ≡ true
      → Keeps P
      → Keeps Q
      → ((t : State)
          → P t
          → Q
              (update_consul_health_status api c cluster_arn
                (check_id_of name)
                status_unhealthy
                t).1)
      → P s
      → Q (mark_all_unhealthy api c cluster_arn append task service_name names e s).1
  unfolding mark_all_unhealthy
  mark_all-reaches append [] e name s m keep_p keep_q reach h = cc
  mark_all-reaches append (j ∷ names) e name s m keep_p keep_q reach h =
      elim (Bool-cases (j == name)) [
        | inl same ↦ mark_all-keeps api c cluster_arn Q append task service_name names _ _ keep_q (
            subst (λ k. Q (mark_unhealthy api c cluster_arn task service_name k s).1)
              (sym ((eq_iff j name).0 same)) (mark-reaches name s keep_q reach h))
        | inr other ↦
            mark_all-reaches append names _ name _ (ground arith) keep_p keep_q reach
              (mark-keeps api c cluster_arn P task service_name j s keep_p h)
      ]

-- Either nothing happened to the check since its status was `o`, or it was marked.
abbrev Tracked : String → Option String → State → Type 0
Tracked id o s = (status_at id s ≡ o) ⊎ (status_at id s ≡ with_status health_critical o)

abbrev Marked : String → Option String → State → Type 0
Marked id o s = status_at id s ≡ with_status health_critical o

module _ (api : Client) (c : Config) (cluster_arn : String) where
  update-Tracked :
      (id : String) (o : Option String) (j : String) (s : State)
      → Tracked id o s
      → Tracked id o (update_consul_health_status api c cluster_arn j status_unhealthy s).1
  unfolding ecs_health_to_consul_health
  update-Tracked id o j s h =
      ground (arith, status_at-update api c cluster_arn id j status_unhealthy s)

  update-Marked :
      (id : String) (o : Option String) (j : String) (s : State)
      → Marked id o s
      → Marked id o (update_consul_health_status api c cluster_arn j status_unhealthy s).1
  unfolding ecs_health_to_consul_health
  update-Marked id o j s h =
      ground (arith, status_at-update api c cluster_arn id j status_unhealthy s)

  update-Marked_self :
      (id : String) (o : Option String) (s : State)
      → Tracked id o s
      → Marked id o (update_consul_health_status api c cluster_arn id status_unhealthy s).1
  unfolding ecs_health_to_consul_health
  update-Marked_self id o s h =
      ground (arith, eq_refl id, status_at-update api c cluster_arn id id status_unhealthy s)

  -- After `setChecksCritical`, each named container's check under the service is critical if it is
  -- stored at all, whatever Consul answered to any of the updates.
  pub set_checks_critical-All :
      (append : Append) (meta : TaskMeta) (names : List String) (name : String) (s : State)
      → contains names name ≡ true
      → let id =
          construct_check_id
            (make_service_id (construct_service_name c meta.family) (task_id meta))
            name in
        status_at id (set_checks_critical api c cluster_arn append meta names s).1
        ≡ with_status health_critical (status_at id s)
  unfolding set_checks_critical
  set_checks_critical-All append meta names name s m =
      let task = task_id meta in
      let service_name = construct_service_name c meta.family in
      let id = construct_check_id (make_service_id service_name task) name in
      let o = status_at id s in
      mark_all-reaches api c cluster_arn task service_name (Tracked id o) (Marked id o) append names
        none name s m (update-Tracked id o) (update-Marked id o) (update-Marked_self id o)
        (inl refl)
