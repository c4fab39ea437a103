-- ===== src/Controller/Listed.antt =====
-- What the three listings of controller/resource.go return: every state bears its key, its tokens
-- and services belong to the task, and it is found in ECS or of this cluster.
use mathlib.Core.Path.{subst}
use consul_ecs.Base.{
  ℕ, ◌≡◌, ◌==◌, eq_iff, refl, true, false, String, List, [], ◌∷◌, ◌++◌, Option, some, ok, arith,
  Bool-cases, Option-cases, Result-cases, List-cases, zero, suc, ◌+◌, inl, inr, All, All-append,
}
use consul_ecs.Base.Dict.{Dict, lookup, Entries, insert-Entries, lookup-Entries}
use consul_ecs.Consul.{AclToken, AgentService, Namespace, QueryOptions}
use consul_ecs.Client.{History, token_list, namespace_list}
use consul_ecs.Controller.Env.{
  TaskState, Lister, TokenMeta, EcsTask, Env, new_task_state, partitions_enabled,
}
use consul_ecs.Controller.Ecs.{accept, task_state_from_task, add_tasks, fetch_pages}
use consul_ecs.Controller.Acl.{
  parse_token_description, task_state_from_token, add_token, add_tokens, list_tokens,
  fetch_acl_state,
}
use consul_ecs.Controller.Services.{get_task_id_from_service_meta}

module _ (env : Env) (s : Lister) where
  -- The token's description names the task and this cluster.
  abbrev pub TokenOf : String → AclToken → Type 0
  TokenOf id token =
      (meta : TokenMeta) × (parse_token_description env token.description ≡ ok meta)
      × (meta.task_id ≡ id)
      × (meta.cluster ≡ s.cluster_arn)

  abbrev pub ServiceOf : String → AgentService → Type 0
  ServiceOf id service = get_task_id_from_service_meta service ≡ ok id

  -- A state of `fetchECSTasks`.
  abbrev pub IsEcsState : String → TaskState → Type 0
  IsEcsState id r =
      (r.task_id ≡ id)
      × (r.ecs_task_found ≡ true)
      × (r.partition ≡ s.partition)
      × (r.acl_tokens ≡ [])
      × (r.services ≡ [])

  -- A state of `fetchACLState` or of `fetchServiceStateForTasks`.
  abbrev pub IsConsulState : String → TaskState → Type 0
  IsConsulState id r =
      (r.task_id ≡ id)
      × (r.ecs_task_found ≡ false)
      × (r.cluster_arn ≡ s.cluster_arn)
      × All (TokenOf id) r.acl_tokens
      × All (ServiceOf id) r.services

  accept-IsEcsState : (t : EcsTask) {r : TaskState} → accept s t ≡ some r → IsEcsState r.task_id r
  unfolding accept task_state_from_task new_task_state
  accept-IsEcsState t {r} h = ground (arith, eq_iff r.partition s.partition)

  add_tasks-IsEcsState :
      (ts : List EcsTask) (m : Dict TaskState)
      → Entries IsEcsState m
      → Entries IsEcsState (add_tasks s ts m)
  unfolding add_tasks
  add_tasks-IsEcsState [] m h = h
  add_tasks-IsEcsState (t ∷ ts) m h = elim (Option-cases (accept s t)) [
    | inl e ↦ rw e (add_tasks-IsEcsState ts m h)
    | inr (r, e) ↦ rw e (
        add_tasks-IsEcsState ts _
          (insert-Entries IsEcsState r.task_id r m (accept-IsEcsState t e) h))
  ]

  -- Every state that `fetchECSTasks` returns is that of a task found in ECS, in this partition.
  pub fetch_pages-IsEcsState :
      (fuel round : ℕ) (token : Option String) (m : Dict TaskState) {tasks : Dict TaskState}
      → Entries IsEcsState m
      → fetch_pages env s fuel round token m ≡ some (ok tasks)
      → Entries IsEcsState tasks
  unfolding fetch_pages
  fetch_pages-IsEcsState zero round token m h e = cc
  fetch_pages-IsEcsState (suc fuel) round token m {tasks} h e =
      elim (Result-cases (env.list_tasks round token)) [
        | inl (x, failed) ↦ absurd (ground arith)
        | inr (page, listed) ↦ elim (List-cases page.task_arns) [
          | inl empty ↦ let same : m ≡ tasks = ground arith in subst (Entries IsEcsState) same h
          | inr (arn, arns, more) ↦ elim (Result-cases (env.describe_tasks round (arn ∷ arns))) [
            | inl (x, failed) ↦ absurd (ground arith)
            | inr (ts, described) ↦
                let m' = add_tasks s ts m in
                let h' = add_tasks-IsEcsState ts m h in
                elim (Option-cases page.next_token) [
                  | inl last ↦
                      let same : m' ≡ tasks = ground arith in subst (Entries IsEcsState) same h'
                  | inr (next, again) ↦
                      fetch_pages-IsEcsState fuel (round + 1) (some next) m' h' (ground arith)
                ]
          ]
        ]
      ]

  token-IsConsulState :
      (token : AclToken) {r : TaskState}
      → task_state_from_token env token ≡ ok r
      → s.cluster_arn ≡ r.cluster_arn
      → IsConsulState r.task_id r
  unfolding task_state_from_token new_task_state
  token-IsConsulState token {r} h same =
      elim (Result-cases (parse_token_description env token.description)) [
        | inl (x, failed) ↦ absurd (ground arith)
        | inr (meta, parsed) ↦
            let made : r
                ≡ record (new_task_state meta.task_id meta.cluster) { acl_tokens = token ∷ [] } =
              ground arith in
            rw made (refl, refl, ground arith, ((meta, parsed, refl, ground arith), tt), tt)
      ]

  acl_tokens-token :
      (token : AclToken) {r : TaskState}
      → task_state_from_token env token ≡ ok r
      → r.acl_tokens ≡ token ∷ []
  unfolding task_state_from_token
  acl_tokens-token token {r} h = ground arith

  add_token-IsConsulState :
      (token : AclToken) (r : TaskState) (m : Dict TaskState)
      → task_state_from_token env token ≡ ok r
      → s.cluster_arn ≡ r.cluster_arn
      → Entries IsConsulState m
      → Entries IsConsulState (add_token token r m)
  unfolding add_token
  add_token-IsConsulState token r m made same h =
      let own = token-IsConsulState token made same in
      elim (Option-cases (lookup r.task_id m)) [
        | inl new ↦ rw (new, add_token) (insert-Entries IsConsulState r.task_id r m own h)
        | inr (found, old) ↦
            let it = lookup-Entries IsConsulState r.task_id m h old in
            rw (old, add_token)
              (insert-Entries IsConsulState r.task_id _ m
                (
                  it.0,
                  it.1,
                  it.2,
                  All-append (TokenOf r.task_id) found.acl_tokens _ it.3
                      (subst (All (TokenOf r.task_id)) (acl_tokens-token token made) own.3),
                  it.4,
                )
                h)
      ]

  add_tokens-IsConsulState :
      (tokens : List AclToken) (m : Dict TaskState)
      → Entries IsConsulState m
      → Entries IsConsulState (add_tokens env s tokens m)
  unfolding add_tokens
  add_tokens-IsConsulState [] m h = h
  add_tokens-IsConsulState (token ∷ tokens) m h =
      elim (Result-cases (task_state_from_token env token)) [
        | inl (x, failed) ↦ rw failed (add_tokens-IsConsulState tokens m h)
        | inr (r, made) ↦ elim (Bool-cases (s.cluster_arn == r.cluster_arn)) [
          | inl same ↦
              rw (made, same)
                (add_tokens-IsConsulState tokens _ (
                  add_token-IsConsulState token r m made
                    ((eq_iff s.cluster_arn r.cluster_arn).0 same) h))
          | inr other ↦ rw (made, other) (add_tokens-IsConsulState tokens m h)
        ]
      ]

  list_tokens-IsConsulState :
      (nss : List Namespace) (m : Dict TaskState) (h : History) {acl : Dict TaskState}
      → Entries IsConsulState m
      → (list_tokens env s nss m h).0 ≡ ok acl
      → Entries IsConsulState acl
  unfolding list_tokens
  list_tokens-IsConsulState [] m h {acl} p e =
      let same : m ≡ acl = ground arith in subst (Entries IsConsulState) same p
  list_tokens-IsConsulState (ns ∷ nss) m h {acl} p e =
      let opts : QueryOptions = record {
        namespace = ns.name;
        partition = s.partition;
        filter = "";
      } in
      elim (Result-cases (env.api.tokens h opts)) [
        | inl (x, failed) ↦ absurd (ground arith)
        | inr (tokens, listed) ↦
            list_tokens-IsConsulState nss (add_tokens env s tokens m) (h ++ token_list opts ∷ [])
              (add_tokens-IsConsulState tokens m p) (ground arith)
      ]

  pub fetch_acl-IsConsulState :
      (h : History) {acl : Dict TaskState}
      → (fetch_acl_state env s h).0 ≡ ok acl
      → Entries IsConsulState acl
  unfolding fetch_acl_state
  fetch_acl-IsConsulState h {acl} e = elim (Bool-cases (partitions_enabled s.partition)) [
    | inr off ↦ list_tokens-IsConsulState _ [] h tt (rw (off, fetch_acl_state) at e)
    | inl on ↦
        let opts : QueryOptions = record { namespace = ""; partition = s.partition; filter = "" } in
        elim (Result-cases (env.api.namespaces h opts)) [
          | inl (x, failed) ↦ absurd (ground arith)
          | inr (nss, listed) ↦
              list_tokens-IsConsulState nss [] (h ++ namespace_list opts ∷ []) tt (ground arith)
        ]
  ]
