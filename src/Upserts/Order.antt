-- ===== src/Upserts/Order.antt =====
-- What `upsertConsulResources` has done when it returns no error, and where it stops.
use consul_ecs.Base.{
  ◌≡◌, ◌≢◌, refl, String, false, List, [], ◌∷◌, ◌++◌, Option, none, some, Error, arith, inl, inr,
  Option-cases, Result-cases, ◌⊎◌, eq_iff,
}
use consul_ecs.Consul.Acl.{AuthMethod}
use consul_ecs.Client.{Client, Call, History, register, agent_self}
use consul_ecs.Config.Types.{Config}
use consul_ecs.Controller.Namespaces.{and_then}
use consul_ecs.Task.{TaskMeta, account_id}
use consul_ecs.Upserts.Env.{
  terminating_gateway_role_name, terminating_gateway_role_description, Servers, AgentConfig,
  write_options,
}
use consul_ecs.Upserts.Policies.{
  upsert_role, upsert_api_gateway_policy_and_role, upsert_mesh_gateway_policy_and_role,
}
use consul_ecs.Upserts.Anonymous.{upsert_anonymous_token_policy}
use consul_ecs.Upserts.Methods.{service_auth_method, upsert_auth_method}
use consul_ecs.Upserts.Bindings.{binding_rules, upsert_binding_rules}
use consul_ecs.Upserts.Resources.{
  in_turn, node_registration, register_node, registered, with_default_partition, agent_config,
  manage_partition, upsert_steps, upsert_consul_resources,
}

-- The action, where it returns no error, has made this call last, and Consul took it.
abbrev EndsWith : Client → Call → (History → Option Error × History) → Type 0
EndsWith api call f =
    (h : History)
    → (f h).0 ≡ none
    → (before : History) × ((f h).1 ≡ before ++ call ∷ []) × (api.failure before call ≡ none)

and_then-EndsWith :
    (api : Client) (call : Call) (f g : History → Option Error × History)
    → EndsWith api call g
    → EndsWith api call (λ h. and_then (f h) g)
and_then-EndsWith api call f g q h fine = elim (Option-cases (f h).0) [
  | inr (e, failed) ↦ ground (arith, failed)
  | inl ok_first ↦ rw (ok_first) (q (f h).1 (rw ok_first at fine))
]

in_turn-EndsWith :
    (api : Client) (call : Call) (steps : List (History → Option Error × History))
    (last : History → Option Error × History)
    → EndsWith api call last
    → EndsWith api call (in_turn (steps ++ last ∷ []))
unfolding in_turn
in_turn-EndsWith api call [] last p h fine = elim (Option-cases (last h).0) [
  | inr (e, failed) ↦ ground (arith, failed)
  | inl ok_last ↦ rw ok_last (p h ok_last)
]
in_turn-EndsWith api call (step ∷ steps) last p h fine =
    and_then-EndsWith api call step (in_turn (steps ++ last ∷ []))
      (in_turn-EndsWith api call steps last p) h fine

module _ (s : Servers) (c : Config) (task_meta : TaskMeta) (cluster_arn : String) where
  -- The call that registers the cluster as a node.
  abbrev pub node_call : Config → Call
  node_call c' = register (node_registration c' task_meta cluster_arn) (some (write_options c'))

  registered-EndsWith :
      (c' : Config) → EndsWith s.api (node_call c') (registered s c' task_meta cluster_arn)
  unfolding registered register_node
  registered-EndsWith c' h fine = elim (Option-cases (s.api.failure h (node_call c'))) [
    | inl taken ↦ (h, refl, taken)
    | inr (e, failed) ↦ ground (arith, failed)
  ]

  upsert_steps-EndsWith :
      (c' : Config) (method : AuthMethod) (a : AgentConfig)
      → EndsWith s.api (node_call c') (in_turn (upsert_steps s c' method a task_meta cluster_arn))
  unfolding upsert_steps
  upsert_steps-EndsWith c' method a =
      in_turn-EndsWith s.api (node_call c')
        (upsert_api_gateway_policy_and_role s.api c'
          ∷ upsert_mesh_gateway_policy_and_role s.api c'
          ∷ upsert_role s.api c' terminating_gateway_role_name ""
              terminating_gateway_role_description
          ∷ upsert_auth_method s.api c' method
          ∷ upsert_binding_rules s.api c' binding_rules
          ∷ upsert_anonymous_token_policy s.api c' a
          ∷ [])
        (registered s c' task_meta cluster_arn) (registered-EndsWith c')

-- If `upsertConsulResources` returns no error, then its last call registered the cluster as the
-- node, in the controller's partition, and Consul took it.
pub upsert_consul_resources_registers :
    (s : Servers) (c : Config) (task_meta : TaskMeta) (cluster_arn : String) (h : History)
    → (upsert_consul_resources s c task_meta cluster_arn h).0 ≡ none
    → (before : History) × ((upsert_consul_resources s c task_meta cluster_arn h).1
        ≡ before ++ node_call s c task_meta cluster_arn (with_default_partition c) ∷ [])
      × (s.api.failure before (node_call s c task_meta cluster_arn (with_default_partition c))
          ≡ none)
unfolding upsert_consul_resources
upsert_consul_resources_registers s c task_meta cluster_arn h fine =
    let c' = with_default_partition c in
    elim (Result-cases (account_id s.arn_parse task_meta)) [
      | inl (e, x) ↦ ground (arith, x)
      | inr (account, x) ↦ elim (Result-cases (agent_config s h)) [
        | inl (e, y) ↦ ground (arith, x, y)
        | inr (a, y) ↦
            rw (x, y, upsert_consul_resources)
              (and_then-EndsWith s.api (node_call s c task_meta cluster_arn c')
                (manage_partition s c')
                (in_turn
                  (upsert_steps s c' (service_auth_method c account) a task_meta cluster_arn))
                (upsert_steps-EndsWith s c task_meta cluster_arn c' (service_auth_method c account)
                  a)
                (h ++ agent_self ∷ []) (rw (x, y, upsert_consul_resources) at fine))
      ]
    ]

-- A configuration that names a partition without enabling them is refused: whatever Consul answers,
-- the controller command makes at most the query for the agent's own configuration.
pub upsert_consul_resources_refuses :
    (s : Servers) (c : Config) (task_meta : TaskMeta) (cluster_arn : String) (h : History)
    → c.controller.partitions_enabled ≡ false
    → c.controller.partition ≢ ""
    → ((upsert_consul_resources s c task_meta cluster_arn h).0 ≢ none)
      × (((upsert_consul_resources s c task_meta cluster_arn h).1 ≡ h)
          ⊎ ((upsert_consul_resources s c task_meta cluster_arn h).1 ≡ h ++ agent_self ∷ []))
unfolding upsert_consul_resources with_default_partition manage_partition
upsert_consul_resources_refuses s c task_meta cluster_arn h off named =
    elim (Result-cases (account_id s.arn_parse task_meta)) [
      | inl (e, x) ↦ ground (arith, x)
      | inr (account, x) ↦ elim (Result-cases (agent_config s h)) [
        | inl (e, y) ↦ ground (arith, x, y)
        | inr (a, y) ↦ ground (arith, x, y, off, eq_iff c.controller.partition "")
      ]
    ]
