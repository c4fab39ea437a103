-- ===== src/Controller/Safety.antt =====
-- `List` of controller/resource.go: what is known of the resources that it returns.
use mathlib.Core.Path.{subst}
use consul_ecs.Base.{
  ◌≡◌, sym, ◌∙◌, true, false, String, List, [], ◌∷◌, none, ok, arith, is_some, Option-cases,
  Result-cases, inl, inr, All, All-append,
}
use consul_ecs.Base.Dict.{
  Dict, lookup, insert, lookup-insert, Entries, insert-Entries, lookup-Entries, Entries-values,
  Entries-map₂, Entries-lookup, values,
}
use consul_ecs.Client.{History}
use consul_ecs.Controller.Env.{TaskState, Lister, Env}
use consul_ecs.Controller.Acl.{fetch_acl_state}
use consul_ecs.Controller.Services.{fetch_service_state_for_tasks}
use consul_ecs.Controller.Lister.{merge_tokens, merge_services, list_from}
use consul_ecs.Controller.ListedServices.{fetch_services-IsConsulState}
use consul_ecs.Controller.Listed.{
  TokenOf, ServiceOf, IsEcsState, IsConsulState, fetch_acl-IsConsulState,
}

module _ (env : Env) (s : Lister) (tasks : Dict TaskState) where
  -- A state of `List`, where ECS knows of `tasks`.
  abbrev pub IsListed : String → TaskState → Type 0
  IsListed id r =
      (r.task_id ≡ id)
      × (r.ecs_task_found ≡ is_some (lookup id tasks))
      × (r.ecs_task_found ≡ false → r.cluster_arn ≡ s.cluster_arn)
      × All (TokenOf env s id) r.acl_tokens
      × All (ServiceOf env s id) r.services

  -- No task of ECS is lost.
  abbrev pub Covers : Dict TaskState → Type 0
  Covers m = (id : String) → lookup id m ≡ none → lookup id tasks ≡ none

  IsListed-of_IsEcsState : Entries (IsEcsState env s) tasks → Entries IsListed tasks
  IsListed-of_IsEcsState h =
      Entries-map₂ (IsEcsState env s) (λ id r. is_some (lookup id tasks) ≡ true) IsListed
        (λ id r e found. (e.0, e.1 ∙ sym found, λ absent. cc, rw e.3 tt, rw e.4 tt)) tasks h
        (Entries-lookup tasks)

  insert-Covers :
      (id : String) (r : TaskState) (m : Dict TaskState) → Covers m → Covers (insert id r m)
  insert-Covers id r m h j e = h j (ground (arith, lookup-insert j id r m))

  merge_tokens-IsListed :
      (acl m : Dict TaskState)
      → Entries (IsConsulState env s) acl
      → Entries IsListed m
      → Covers m
      → Entries IsListed (merge_tokens acl m) × Covers (merge_tokens acl m)
  unfolding merge_tokens
  merge_tokens-IsListed [] m a h c = (h, c)
  merge_tokens-IsListed ((id, state) ∷ acl) m a h c = elim (Option-cases (lookup id m)) [
    | inl new ↦
        let own : IsListed id state = (a.0.0, ground (arith, c id new), λ _. a.0.2, a.0.3, a.0.4) in
        rw (new, merge_tokens)
          (merge_tokens-IsListed acl _ a.1 (insert-Entries IsListed id state m own h)
            (insert-Covers id state m c))
    | inr (r, old) ↦
        let it = lookup-Entries IsListed id m h old in
        rw (old, merge_tokens)
          (merge_tokens-IsListed acl _ a.1
            (insert-Entries IsListed id _ m
              (
                it.0,
                it.1,
                it.2,
                All-append (TokenOf env s id) r.acl_tokens state.acl_tokens it.3 a.0.3,
                it.4,
              )
              h)
            (insert-Covers id _ m c))
  ]

  merge_services-IsListed :
      (found m : Dict TaskState)
      → Entries (IsConsulState env s) found
      → Entries IsListed m
      → Covers m
      → Entries IsListed (merge_services found m)
  unfolding merge_services
  merge_services-IsListed [] m a h c = h
  merge_services-IsListed ((id, state) ∷ found) m a h c = elim (Option-cases (lookup id m)) [
    | inl new ↦
        let own : IsListed id state = (a.0.0, ground (arith, c id new), λ _. a.0.2, a.0.3, a.0.4) in
        rw (new, merge_services)
          (merge_services-IsListed found _ a.1 (insert-Entries IsListed id state m own h)
            (insert-Covers id state m c))
    | inr (r, old) ↦
        let it = lookup-Entries IsListed id m h old in
        rw (old, merge_services)
          (merge_services-IsListed found _ a.1
            (insert-Entries IsListed id _ m
              (
                it.0,
                it.1,
                it.2,
                it.3,
                All-append (ServiceOf env s id) r.services state.services it.4 a.0.4,
              )
              h)
            (insert-Covers id _ m c))
  ]

  -- Every resource of `List` is found in ECS exactly when ECS lists its task, and its tokens and
  -- services are those of that task, of this cluster.
  pub list_from-IsListed :
      (h : History) {resources : List TaskState}
      → Entries (IsEcsState env s) tasks
      → (list_from env s tasks h).0 ≡ ok resources
      → All (λ r. IsListed r.task_id r) resources
  unfolding list_from
  list_from-IsListed h {resources} t e =
      let h1 = (fetch_acl_state env s h).1 in
      let services = fetch_service_state_for_tasks env s h1 in
      elim (Result-cases (fetch_acl_state env s h).0) [
        | inl (x, failed) ↦ absurd (ground arith)
        | inr (acl, fetched) ↦ elim (Option-cases services.0.0) [
          | inr (x, failed) ↦ absurd (ground arith)
          | inl fine ↦
              let tokens =
                merge_tokens-IsListed acl tasks (fetch_acl-IsConsulState env s h fetched)
                  (IsListed-of_IsEcsState t) (λ id gone. gone) in
              let all =
                merge_services-IsListed services.0.1 (merge_tokens acl tasks)
                  (fetch_services-IsConsulState env s h1) tokens.0 tokens.1 in
              let same : values (merge_services services.0.1 (merge_tokens acl tasks)) ≡ resources =
                ground arith in
              subst (All (λ r. IsListed r.task_id r)) same (
                Entries-values IsListed (λ r. IsListed r.task_id r)
                  (λ id r it. subst (λ i. IsListed i r) (sym it.0) it) _ all)
        ]
      ]
