-- ===== src/Upserts/Policies.antt =====
-- Policies and roles: `upsertConsulPolicy`, `upsertRole` and their callers.
use consul_ecs.Base.{
  ◌<>◌, ◌==◌, not, ◌&&◌, String, Bool, true, false, List, [], ◌∷◌, ◌++◌, Option, none, some, Result,
  ok, err, Error, wrapf, errorf, message, if◌then◌else◌,
}
use consul_ecs.Consul.Acl.{AclRole}
use consul_ecs.Client.{
  Client, Call, History, send, policy_read_by_name, policy_create, role_read_by_name, role_create,
  role_update,
}
use consul_ecs.Config.Types.{Config}
use consul_ecs.Controller.Namespaces.{is_acl_not_found_error, and_then}
use consul_ecs.Upserts.Env.{
  api_gateway_role_name, api_gateway_policy_name, api_gateway_role_description,
  api_gateway_policy_description, mesh_gateway_role_name, mesh_gateway_role_description,
  mesh_gateway_policy_name, mesh_gateway_policy_description, query_options, write_options,
  wrap_failure,
}
use consul_ecs.Upserts.Rules.{get_rules_for_policy}

-- What was found, if anything: an error that says that it was not found counts as nothing.
abbrev pub found {ℓ} : {A : Type ℓ} → Result (Option A) → Result (Option A)
found (ok o) = ok o
found (err e) = if is_acl_not_found_error e then ok none else err e

-- A call whose error is returned with a text in front.
abbrev pub attempt : Client → String → Call → History → Option Error × History
attempt api text call h = let (e, h') = send api call h in (wrap_failure text e, h')

-- `fmt.Errorf("...: %s", err)`, which keeps the text of the error only.
abbrev restate : String → Option Error → Option Error
restate s none = none
restate s (some e) = some (errorf (s <> ": " <> message e))

-- The policies of a role for a policy name, which may be empty.
abbrev pub links : String → List String
links policy_name = if not (policy_name == "") then policy_name ∷ [] else []

abbrev pub no_policies : AclRole → Bool
no_policies role = elim role.policies [ [] ↦ true | _ ∷ _ ↦ false ]

module _ (api : Client) (c : Config) where
  unfoldable pub upsert_consul_policy : String → String → History → Option Error × History
  unfolding query_options write_options get_rules_for_policy
  upsert_consul_policy name description h =
      let h1 = h ++ policy_read_by_name name (query_options c) ∷ [] in
      elim (found (api.policy h name (query_options c))) [
        | err e ↦ (some (wrapf ("reading " <> name <> " ACL policy") e), h1)
        | ok (some _) ↦ (none, h1)
        | ok none ↦ elim (get_rules_for_policy c name) [
          | err e ↦ (some (wrapf ("failed to generate " <> name <> " policy rules") e), h1)
          | ok rules ↦
              attempt api "creating ACL policy"
                (policy_create
                  (record {
                    name = name;
                    description = description;
                    rules = rules;
                    namespace = "";
                    partition = "";
                  })
                  (some (write_options c)))
                h1
        ]
      ]

  unfoldable pub upsert_role : String → String → String → History → Option Error × History
  unfolding query_options write_options
  upsert_role role_name policy_name description h =
      let h1 = h ++ role_read_by_name role_name (query_options c) ∷ [] in
      elim (found (api.role h role_name (query_options c))) [
        | err e ↦ (some (wrapf ("reading " <> role_name <> " ACL role") e), h1)
        | ok (some role) ↦
            let (e, h2) =
              send api (role_update (record role { policies = policy_name ∷ [] }) (write_options c))
                h1 in
            if no_policies role && not (policy_name == "")
            then (restate "updating Consul client ACL role" e, h2)
            else (none, h1)
        | ok none ↦
            attempt api "creating role"
              (role_create
                (record {
                  name = role_name;
                  description = description;
                  policies = links policy_name;
                })
                (write_options c))
              h1
      ]

  unfoldable pub upsert_api_gateway_policy_and_role : History → Option Error × History
  unfolding upsert_consul_policy upsert_role
  upsert_api_gateway_policy_and_role h =
      and_then (upsert_consul_policy api_gateway_policy_name api_gateway_policy_description h)
        (upsert_role api_gateway_role_name api_gateway_policy_name api_gateway_role_description)

  unfoldable pub upsert_mesh_gateway_policy_and_role : History → Option Error × History
  unfolding upsert_consul_policy upsert_role
  upsert_mesh_gateway_policy_and_role h =
      and_then (upsert_consul_policy mesh_gateway_policy_name mesh_gateway_policy_description h)
        (upsert_role mesh_gateway_role_name mesh_gateway_policy_name mesh_gateway_role_description)
