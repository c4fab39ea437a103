-- ===== src/Controller/Justified.antt =====
-- The removals that the parts of a pass make, controller/controller.go and resource.go.
use mathlib.Core.Path.{subst}
use consul_ecs.Base.{
  ◌≡◌, refl, String, List, [], ◌∷◌, Option, none, some, ok, Error, arith, Bool-cases, Option-cases,
  Result-cases, inl, inr, All, contains,
}
use consul_ecs.Base.Dict.{Dict, lookup}
use consul_ecs.Consul.{AclToken, AgentService, QueryOptions}
use consul_ecs.Client.{
  Call, History, token_delete, deregister, Extends, Extends-refl, Extends-one, Extends-trans,
  namespace_list, namespace_read, policy_read_by_name,
}
use consul_ecs.Controller.Env.{TaskState, Lister, TokenMeta, Env, partitions_enabled}
use consul_ecs.Controller.Ecs.{default_namespace}
use consul_ecs.Controller.Acl.{parse_token_description}
use consul_ecs.Controller.Services.{get_task_id_from_service_meta}
use consul_ecs.Controller.Reconcile.{
  reconcile, delete_tokens, deregister_each, deregister_services, token_deletion,
  service_deregistration,
}
use consul_ecs.Controller.Namespaces.{
  found_policy, and_then, in_partition, xns_policy_name, policy_defaults_of, reconcile_namespaces,
  upsert_cross_ns_policy, ensure_policy, link_policy, create_namespaces, create_each,
}
use consul_ecs.Controller.Pass.{reconcile_each}
use consul_ecs.Controller.Listed.{TokenOf, ServiceOf}
use consul_ecs.Controller.Safety.{IsListed}

and_then-Extends :
    (P : Call → Type 0) (h : History) (r : Option Error × History)
    (k : History → Option Error × History)
    → Extends P h r.1
    → ((h' : History) → Extends P h' (k h').1)
    → Extends P h (and_then r k).1
and_then-Extends P h (some e, h') k first rest = first
and_then-Extends P h (none, h') k first rest = Extends-trans P h h' _ first (rest h')

module _ (env : Env) (s : Lister) (tasks : Dict TaskState) where
  -- A token may go if its description names this cluster and a task that ECS did not list, and a
  -- service registered with the cluster's node if its metadata name such a task.
  abbrev pub IsJustified : Call → Type 0
  IsJustified (token_delete accessor opts) =
      (token : AclToken) × (meta : TokenMeta) × (token_delete accessor opts ≡ token_deletion token)
      × (parse_token_description env token.description ≡ ok meta)
      × (meta.cluster ≡ s.cluster_arn)
      × (lookup meta.task_id tasks ≡ none)
  IsJustified (deregister d opts) =
      (service : AgentService) × (id : String) × (deregister d opts
        ≡ service_deregistration s.cluster_arn service)
      × (get_task_id_from_service_meta service ≡ ok id)
      × (lookup id tasks ≡ none)
  IsJustified _ = Unit

  delete_tokens-IsJustified :
      (id : String) (tokens : List AclToken) (h : History)
      → lookup id tasks ≡ none
      → All (TokenOf env s id) tokens
      → Extends IsJustified h (delete_tokens env.api tokens h).1
  unfolding delete_tokens
  delete_tokens-IsJustified id [] h gone of = Extends-refl IsJustified h
  delete_tokens-IsJustified id (token ∷ tokens) h gone of =
      let (meta, parsed, names, cluster) = of.0 in
      let one : IsJustified (token_deletion token) =
        (token, meta, refl, parsed, cluster, rw names gone) in
      elim (Option-cases (env.api.failure h (token_deletion token))) [
        | inr (x, failed) ↦ rw (failed, delete_tokens) (Extends-one IsJustified h _ one)
        | inl fine ↦
            rw (fine, delete_tokens)
              (Extends-trans IsJustified h _ _ (Extends-one IsJustified h _ one)
                (delete_tokens-IsJustified id tokens _ gone of.1))
      ]

  deregister_each-IsJustified :
      (id : String) (services : List AgentService) (e : Option Error) (h : History)
      → lookup id tasks ≡ none
      → All (ServiceOf env s id) services
      → Extends IsJustified h (deregister_each env s.cluster_arn services e h).1
  unfolding deregister_each
  deregister_each-IsJustified id [] e h gone of = Extends-refl IsJustified h
  deregister_each-IsJustified id (service ∷ services) e h gone of =
      let one : IsJustified (service_deregistration s.cluster_arn service) =
        (service, id, refl, of.0, gone) in
      Extends-trans IsJustified h _ _ (Extends-one IsJustified h _ one)
        (deregister_each-IsJustified id services _ _ gone of.1)

  reconcile-IsJustified :
      (r : TaskState) (h : History)
      → IsListed env s tasks r.task_id r
      → Extends IsJustified h (reconcile env r h).1
  unfolding reconcile deregister_services
  reconcile-IsJustified r h it = elim (Bool-cases r.ecs_task_found) [
    | inl present ↦
        let same : h ≡ (reconcile env r h).1 = ground arith in
        subst (Extends IsJustified h) same (Extends-refl IsJustified h)
    | inr absent ↦
        let gone : lookup r.task_id tasks ≡ none = ground arith in
        elim (Option-cases (env.setup h)) [
          | inr (x, failed) ↦
              let same : h ≡ (reconcile env r h).1 = ground arith in
              subst (Extends IsJustified h) same (Extends-refl IsJustified h)
          | inl fine ↦
              let h1 = (delete_tokens env.api r.acl_tokens h).1 in
              let same : (deregister_each env s.cluster_arn r.services none h1).1
                  ≡ (reconcile env r h).1 =
                ground (arith, it.2 absent) in
              subst (Extends IsJustified h) same (
                Extends-trans IsJustified h h1 _
                  (delete_tokens-IsJustified r.task_id r.acl_tokens h gone it.3)
                  (deregister_each-IsJustified r.task_id r.services none h1 gone it.4))
        ]
  ]

  pub reconcile_each-IsJustified :
      (resources : List TaskState) (e : Option Error) (h : History)
      → All (λ r. IsListed env s tasks r.task_id r) resources
      → Extends IsJustified h (reconcile_each env resources e h).1
  unfolding reconcile_each
  reconcile_each-IsJustified [] e h it = Extends-refl IsJustified h
  reconcile_each-IsJustified (r ∷ resources) e h it =
      Extends-trans IsJustified h (reconcile env r h).1 _ (reconcile-IsJustified r h it.0)
        (reconcile_each-IsJustified resources _ _ it.1)

  create_each-IsJustified :
      (ns : List String) (e : Option Error) (h : History)
      → Extends IsJustified h (create_each env s ns e h).1
  unfolding create_each
  create_each-IsJustified [] e h = Extends-refl IsJustified h
  create_each-IsJustified (n ∷ ns) e h =
      Extends-trans IsJustified h _ _ (Extends-one IsJustified h _ tt)
        (create_each-IsJustified ns _ _)

  create_namespaces-IsJustified :
      (resources : List TaskState) (h : History)
      → Extends IsJustified h (create_namespaces env s resources h).1
  unfolding create_namespaces
  create_namespaces-IsJustified resources h =
      let opts : QueryOptions = record { namespace = ""; partition = s.partition; filter = "" } in
      let listed = Extends-one IsJustified h (namespace_list opts) tt in
      elim (Result-cases (env.api.namespaces h opts)) [
        | inl (x, failed) ↦ rw (failed, create_namespaces) listed
        | inr (existing, listing) ↦
            rw (listing, create_namespaces)
              (Extends-trans IsJustified h _ _ listed (create_each-IsJustified _ none _))
      ]

  ensure_policy-IsJustified : (h : History) → Extends IsJustified h (ensure_policy env s h).1
  unfolding ensure_policy
  ensure_policy-IsJustified h =
      let opts = in_partition s default_namespace in
      let read = Extends-one IsJustified h (policy_read_by_name xns_policy_name opts) tt in
      elim (Result-cases (found_policy (env.api.policy h xns_policy_name opts))) [
        | inl (x, failed) ↦ rw (failed, ensure_policy) read
        | inr (p, answered) ↦ elim (Option-cases p) [
          | inr (policy, old) ↦ rw (answered, ensure_policy) (rw (old, ensure_policy) read)
          | inl new ↦
              rw (answered, ensure_policy)
                (rw (new, ensure_policy)
                  (Extends-trans IsJustified h _ _ read (Extends-one IsJustified _ _ tt)))
        ]
      ]

  link_policy-IsJustified : (h : History) → Extends IsJustified h (link_policy env s h).1
  unfolding link_policy
  link_policy-IsJustified h =
      let opts = in_partition s "" in
      let read = Extends-one IsJustified h (namespace_read default_namespace opts) tt in
      elim (Result-cases (env.api.namespace h default_namespace opts)) [
        | inl (x, failed) ↦ rw (failed, link_policy) read
        | inr (ns, answered) ↦
            elim (Bool-cases (contains (policy_defaults_of ns) xns_policy_name)) [
              | inl linked ↦ rw (answered, link_policy) (rw (linked, link_policy) read)
              | inr new ↦
                  rw (answered, link_policy)
                    (rw (new, link_policy)
                      (Extends-trans IsJustified h _ _ read (Extends-one IsJustified _ _ tt)))
            ]
      ]

  pub reconcile_namespaces-IsJustified :
      (resources : List TaskState) (h : History)
      → Extends IsJustified h (reconcile_namespaces env s resources h).1
  unfolding reconcile_namespaces upsert_cross_ns_policy
  reconcile_namespaces-IsJustified resources h =
      elim (Bool-cases (partitions_enabled s.partition)) [
        | inr off ↦ rw (off, reconcile_namespaces) (Extends-refl IsJustified h)
        | inl on ↦ elim (Option-cases (env.setup h)) [
          | inr (x, failed) ↦
              rw (on, reconcile_namespaces)
                (rw (failed, reconcile_namespaces) (Extends-refl IsJustified h))
          | inl fine ↦
              rw (on, reconcile_namespaces)
                (rw (fine, reconcile_namespaces)
                  (and_then-Extends IsJustified h (upsert_cross_ns_policy env s h)
                    (create_namespaces env s resources)
                    (and_then-Extends IsJustified h (ensure_policy env s h) (link_policy env s)
                      (ensure_policy-IsJustified h) link_policy-IsJustified)
                    (create_namespaces-IsJustified resources)))
        ]
      ]
