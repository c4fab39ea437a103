-- ===== src/Upserts/Bindings.antt =====
-- The binding rules, and `upsertBindingRule`.
use consul_ecs.Base.{
  ◌<>◌, ◌==◌, not, ◌&&◌, String, List, [], ◌∷◌, ◌++◌, Option, none, some, ok, err, Error, wrapf,
  if◌then◌else◌,
}
use consul_ecs.Consul.Acl.{BindingRule}
use consul_ecs.Client.{Client, History, binding_rule_list, binding_rule_create, binding_rule_update}
use consul_ecs.Config.Types.{Config}
use consul_ecs.Controller.Namespaces.{and_then}
use consul_ecs.Upserts.Env.{
  auth_method_service_name_tag, auth_method_gateway_kind_tag, api_gateway_role_name,
  terminating_gateway_role_name, mesh_gateway_role_name, query_options, write_options,
}
use consul_ecs.Upserts.Policies.{attempt}
use consul_ecs.Upserts.Methods.{service_auth_method_name}

-- `api.BindingRuleBindTypeService`, `api.BindingRuleBindTypeRole`
abbrev pub bind_type_service : String
bind_type_service = "service"

abbrev pub bind_type_role : String
bind_type_role = "role"

-- The rule that binds a role for gateways of the kind.
gateway_rule : String → String → String → BindingRule
gateway_rule title kind role_name = record {
  id = "";
  description = "Bind a Consul role from IAM role tag for ECS " <> title;
  auth_method = service_auth_method_name;
  bind_type = bind_type_role;
  selector = "entity_tags[\"" <> auth_method_gateway_kind_tag <> "\"] == \"" <> kind <> "\"";
  bind_name = role_name;
}

unfoldable pub binding_rules : List BindingRule
unfolding gateway_rule
binding_rules =
    record {
      id = "";
      description = "Bind a service identity from IAM role tag for ECS";
      auth_method = service_auth_method_name;
      bind_type = bind_type_service;
      selector = "";
      bind_name = "${entity_tags." <> auth_method_service_name_tag <> "}";
    }
    ∷ gateway_rule "based API gateways" "api-gateway" api_gateway_role_name
    ∷ gateway_rule "based Terminating gateways" "terminating-gateway" terminating_gateway_role_name
    ∷ gateway_rule "based mesh gateways" "mesh-gateway" mesh_gateway_role_name
    ∷ []

-- The ID of the first of the existing rules with the same bind name and description, else the
-- rule's own one.
unfoldable pub existing_id : BindingRule → List BindingRule → String
existing_id rule [] = rule.id
existing_id rule (existing ∷ rules) =
    let later = existing_id rule rules in
    if existing.bind_name == rule.bind_name && existing.description == rule.description
    then existing.id
    else later

unfoldable pub upsert_binding_rule :
    Client → Config → BindingRule → History → Option Error × History
unfolding query_options write_options existing_id
upsert_binding_rule api c rule h =
    let h1 = h ++ binding_rule_list rule.auth_method (query_options c) ∷ [] in
    elim (api.binding_rules h rule.auth_method (query_options c)) [
      | err e ↦
          (some (wrapf ("listing ACL binding rules for auth method " <> rule.auth_method) e), h1)
      | ok rules ↦
          let rule' = record rule { id = existing_id rule rules } in
          if not (rule'.id == "")
          then attempt api "updating ACL binding rule" (binding_rule_update rule' (write_options c))
              h1
          else attempt api "create ACL binding rule" (binding_rule_create rule' (write_options c))
              h1
    ]

-- The loop over the rules, which ends at the first error.
unfoldable pub upsert_binding_rules :
    Client → Config → List BindingRule → History → Option Error × History
unfolding upsert_binding_rule
upsert_binding_rules api c [] h = (none, h)
upsert_binding_rules api c (rule ∷ rules) h =
    and_then (upsert_binding_rule api c rule h) (upsert_binding_rules api c rules)
