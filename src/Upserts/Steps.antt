-- ===== src/Upserts/Steps.antt =====
-- The calls of each step of `upsertConsulResources`.
use consul_ecs.Base.{
  ◌≡◌, refl, ap, ok, ◌==◌, not, ◌&&◌, String, true, List, [], ◌∷◌, ◌++◌, some, contains, inl, inr,
  Bool-cases, Option-cases, Result-cases,
}
use consul_ecs.Consul.Acl.{AuthMethod, BindingRule, FullToken}
use consul_ecs.Client.{
  Client, History, partition_list, policy_read_by_name, policy_create, role_read_by_name,
  auth_method_read, binding_rule_list, token_read, Extends-refl, Extends-one, Extends-trans,
}
use consul_ecs.Consul.{QueryOptions}
use consul_ecs.Config.Types.{Config}
use consul_ecs.Upserts.Env.{AgentConfig, anon_policy_name, anon_token_id, query_options}
use consul_ecs.Upserts.Policies.{found, no_policies, upsert_consul_policy, upsert_role}
use consul_ecs.Upserts.Rules.{get_rules_for_policy}
use consul_ecs.Upserts.Methods.{is_settled, upsert_auth_method}
use consul_ecs.Upserts.Bindings.{existing_id, upsert_binding_rule, upsert_binding_rules}
use consul_ecs.Upserts.Anonymous.{
  anonymous_query_options, anonymous_write_options, anonymous_policy, attach_policy,
  ensure_anonymous_policy, consul_datacenter_list, upsert_anonymous_token_policy,
}
use consul_ecs.Upserts.Resources.{upsert_partition}
use consul_ecs.Upserts.Writes.{
  IsUpsert, Upserts, and_then-Upserts, two, write_options-scope, anonymous_write_options-scope,
}

module _ (c : Config) (api : Client) where
  pub upsert_consul_policy-Upserts :
      (name description : String) → Upserts c api (upsert_consul_policy api c name description)
  unfolding upsert_consul_policy
  upsert_consul_policy-Upserts name description h =
      let read = policy_read_by_name name (query_options c) in
      elim (Result-cases (found (api.policy h name (query_options c)))) [
        | inl (e, x) ↦ rw (x, upsert_consul_policy) (Extends-one (IsUpsert c api) h read tt)
        | inr (o, x) ↦ elim (Option-cases o) [
          | inr (policy, y) ↦
              rw (x, y, upsert_consul_policy) (Extends-one (IsUpsert c api) h read tt)
          | inl y ↦ elim (Result-cases (get_rules_for_policy c name)) [
            | inl (e, z) ↦
                rw (x, y, z, upsert_consul_policy) (Extends-one (IsUpsert c api) h read tt)
            | inr (rules, z) ↦
                rw (x, y, z, upsert_consul_policy)
                  (two c api h read _ tt (inl (ap some (write_options-scope c))))
          ]
        ]
      ]

  pub upsert_role-Upserts :
      (role_name policy_name description : String)
      → Upserts c api (upsert_role api c role_name policy_name description)
  unfolding upsert_role
  upsert_role-Upserts role_name policy_name description h =
      let read = role_read_by_name role_name (query_options c) in
      elim (Result-cases (found (api.role h role_name (query_options c)))) [
        | inl (e, x) ↦ rw (x, upsert_role) (Extends-one (IsUpsert c api) h read tt)
        | inr (o, x) ↦ elim (Option-cases o) [
          | inl y ↦ rw (x, y, upsert_role) (two c api h read _ tt (write_options-scope c))
          | inr (role, y) ↦ elim (Bool-cases (no_policies role && not (policy_name == ""))) [
            | inl z ↦ rw (x, y, z, upsert_role) (two c api h read _ tt (write_options-scope c))
            | inr z ↦ rw (x, y, z, upsert_role) (Extends-one (IsUpsert c api) h read tt)
          ]
        ]
      ]

  pub upsert_partition-Upserts :
      c.controller.partitions_enabled ≡ true → Upserts c api (upsert_partition api c)
  unfolding upsert_partition
  upsert_partition-Upserts on h = elim (Result-cases (api.partitions h)) [
    | inl (e, x) ↦ rw (x, upsert_partition) (Extends-one (IsUpsert c api) h partition_list tt)
    | inr (names, x) ↦ elim (Bool-cases (contains names c.controller.partition)) [
      | inl y ↦ rw (x, y, upsert_partition) (Extends-one (IsUpsert c api) h partition_list tt)
      | inr y ↦ rw (x, y, upsert_partition) (two c api h partition_list _ tt (on, refl))
    ]
  ]

  pub upsert_auth_method-Upserts :
      (ours : AuthMethod) → Upserts c api (upsert_auth_method api c ours)
  unfolding upsert_auth_method
  upsert_auth_method-Upserts ours h =
      let read = auth_method_read ours.name (query_options c) in
      elim (Result-cases (found (api.auth_method h ours.name (query_options c)))) [
        | inl (e, x) ↦ rw (x, upsert_auth_method) (Extends-one (IsUpsert c api) h read tt)
        | inr (o, x) ↦ elim (Option-cases o) [
          | inl y ↦ rw (x, y, upsert_auth_method) (two c api h read _ tt (write_options-scope c))
          | inr (current, y) ↦ elim (Bool-cases (is_settled current ours)) [
            | inl z ↦ rw (x, y, z, upsert_auth_method) (Extends-one (IsUpsert c api) h read tt)
            | inr z ↦
                rw (x, y, z, upsert_auth_method) (two c api h read _ tt (write_options-scope c))
          ]
        ]
      ]

  pub upsert_binding_rule-Upserts :
      (rule : BindingRule) → Upserts c api (upsert_binding_rule api c rule)
  unfolding upsert_binding_rule
  upsert_binding_rule-Upserts rule h =
      let list = binding_rule_list rule.auth_method (query_options c) in
      elim (Result-cases (api.binding_rules h rule.auth_method (query_options c))) [
        | inl (e, x) ↦ rw (x, upsert_binding_rule) (Extends-one (IsUpsert c api) h list tt)
        | inr (rules, x) ↦ elim (Bool-cases (existing_id rule rules == "")) [
          | inl y ↦ rw (x, y, upsert_binding_rule) (two c api h list _ tt (write_options-scope c))
          | inr y ↦ rw (x, y, upsert_binding_rule) (two c api h list _ tt (write_options-scope c))
        ]
      ]

  pub upsert_binding_rules-Upserts :
      (rules : List BindingRule) → Upserts c api (upsert_binding_rules api c rules)
  unfolding upsert_binding_rules
  upsert_binding_rules-Upserts [] h = Extends-refl (IsUpsert c api) h
  upsert_binding_rules-Upserts (rule ∷ rules) h =
      and_then-Upserts c api (upsert_binding_rule api c rule) (upsert_binding_rules api c rules)
        (upsert_binding_rule-Upserts rule) (upsert_binding_rules-Upserts rules) h

  -- Consul has answered the token for the ID of the anonymous token.
  abbrev IsRead : FullToken → Type 0
  IsRead t = (h : History) × (o : QueryOptions) × (api.token h anon_token_id o ≡ ok t)

  attach_policy-Upserts :
      (t : FullToken) (name : String) → IsRead t → Upserts c api (attach_policy api c t name)
  unfolding attach_policy
  attach_policy-Upserts t name (h', o, is) h =
      Extends-one (IsUpsert c api) h _ (anonymous_write_options-scope c, (h', o, t, name, is, refl))

  ensure_anonymous_policy-Upserts :
      (t : FullToken) → IsRead t → Upserts c api (ensure_anonymous_policy api c t)
  unfolding ensure_anonymous_policy anonymous_policy
  ensure_anonymous_policy-Upserts t is h =
      let read = policy_read_by_name anon_policy_name (anonymous_query_options c) in
      let h1 = h ++ read ∷ [] in
      let create = policy_create (anonymous_policy c) (some (anonymous_write_options c)) in
      let h2 = h1 ++ create ∷ [] in
      elim (Result-cases (found (api.policy h anon_policy_name (anonymous_query_options c)))) [
        | inl (e, x) ↦ rw (x, ensure_anonymous_policy) (Extends-one (IsUpsert c api) h read tt)
        | inr (o, x) ↦ elim (Option-cases o) [
          | inr (policy, y) ↦
              rw (x, y, ensure_anonymous_policy)
                (Extends-trans (IsUpsert c api) h h1 _ (Extends-one (IsUpsert c api) h read tt)
                  (attach_policy-Upserts t policy.name is h1))
          | inl y ↦
              let created =
                two c api h read create tt
                  (inr (refl, ap some (anonymous_write_options-scope c))) in
              elim (Option-cases (api.failure h1 create)) [
                | inr (e, z) ↦ rw (x, y, z, ensure_anonymous_policy) created
                | inl z ↦
                    rw (x, y, z, ensure_anonymous_policy)
                      (Extends-trans (IsUpsert c api) h h2 _ created (
                        attach_policy-Upserts t (api.created_policy h1 (anonymous_policy c)).name is
                          h2))
              ]
        ]
      ]

  pub upsert_anonymous_token_policy-Upserts :
      (a : AgentConfig) → Upserts c api (upsert_anonymous_token_policy api c a)
  unfolding upsert_anonymous_token_policy
  upsert_anonymous_token_policy-Upserts a h =
      let read = token_read anon_token_id (anonymous_query_options c) in
      elim (Result-cases (consul_datacenter_list a)) [
        | inl (e, w) ↦ rw (w, upsert_anonymous_token_policy) (Extends-refl (IsUpsert c api) h)
        | inr ((consul_dc, primary_dc), w) ↦ elim (Bool-cases (consul_dc == primary_dc)) [
          | inr v ↦ rw (w, v, upsert_anonymous_token_policy) (Extends-refl (IsUpsert c api) h)
          | inl v ↦ elim (Result-cases (api.token h anon_token_id (anonymous_query_options c))) [
            | inl (e, x) ↦
                rw (w, v, x, upsert_anonymous_token_policy) (Extends-one (IsUpsert c api) h read tt)
            | inr (t, x) ↦ elim (Bool-cases (contains t.policies anon_policy_name)) [
              | inl y ↦
                  rw (w, v, x, y, upsert_anonymous_token_policy)
                    (Extends-one (IsUpsert c api) h read tt)
              | inr y ↦
                  rw (w, v, x, y, upsert_anonymous_token_policy)
                    (Extends-trans (IsUpsert c api) h (h ++ read ∷ []) _
                      (Extends-one (IsUpsert c api) h read tt)
                      (ensure_anonymous_policy-Upserts t (h, anonymous_query_options c, x)
                        (h ++ read ∷ [])))
            ]
          ]
        ]
      ]
