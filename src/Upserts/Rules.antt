-- ===== src/Upserts/Rules.antt =====
-- The rules of the policies, `RenderTemplate` on the three templates. A template is its pieces after
-- the trim markers have taken effect: texts, and texts under a condition.
use consul_ecs.Base.{
  ◌<>◌, ◌==◌, String, Bool, List, [], ◌∷◌, Result, ok, err, errorf, if◌then◌else◌,
}
use consul_ecs.Config.Types.{Config}
use consul_ecs.Upserts.Env.{api_gateway_policy_name, mesh_gateway_policy_name}

pub record TemplateData : Type 0 where
  pub enterprise : Bool
  pub partition : String

unfoldable pub template_data : Config → TemplateData
template_data c = record {
  enterprise = c.controller.partitions_enabled;
  partition = c.controller.partition;
}

-- `{{- if .Enterprise }}` and `{{- if eq .Partition "default" }}`
pub data Piece : Type 0 where
  text if_enterprise if_default : String → Piece

abbrev render_piece : TemplateData → Piece → String
render_piece d (text s) = s
render_piece d (if_enterprise s) = if d.enterprise then s else ""
render_piece d (if_default s) = if d.partition == "default" then s else ""

unfoldable pub render_template : List Piece → TemplateData → String
render_template [] d = ""
render_template (p ∷ pieces) d = render_piece d p <> render_template pieces d

abbrev pub api_gateway_policy_template : List Piece
api_gateway_policy_template =
    text "mesh = \"read\""
    ∷ if_enterprise "\nnamespace_prefix \"\" {"
    ∷ text
        "\n\tnode_prefix \"\" {\n\t\tpolicy = \"read\"\n\t}\n\tservice_prefix \"\" {\n\t\tpolicy = \"read\"\n\t}"
    ∷ if_enterprise "\n}"
    ∷ []

abbrev pub mesh_gateway_policy_template : List Piece
mesh_gateway_policy_template =
    text "mesh = \"write\"\npeering = \"read\""
    ∷ if_default "\npartition_prefix \"\" {\n\tpeering = \"read\"\n}"
    ∷ []

abbrev pub anonymous_policy_template : List Piece
anonymous_policy_template =
    if_enterprise "\npartition_prefix \"\" {\n  namespace_prefix \"\" {"
    ∷ text
        "\n    node_prefix \"\" {\n      policy = \"read\"\n    }\n    service_prefix \"\" {\n      policy = \"read\"\n    }"
    ∷ if_enterprise "\n  }\n}"
    ∷ []

unfoldable pub api_gateway_policy_rules : Config → String
unfolding render_template template_data
api_gateway_policy_rules c = render_template api_gateway_policy_template (template_data c)

unfoldable pub mesh_gateway_policy_rules : Config → String
unfolding render_template template_data
mesh_gateway_policy_rules c = render_template mesh_gateway_policy_template (template_data c)

unfoldable pub anonymous_policy_rules : Config → String
unfolding render_template template_data
anonymous_policy_rules c = render_template anonymous_policy_template (template_data c)

unfoldable pub get_rules_for_policy : Config → String → Result String
unfolding mesh_gateway_policy_rules api_gateway_policy_rules
get_rules_for_policy c policy =
    if policy == mesh_gateway_policy_name
    then ok (mesh_gateway_policy_rules c)
    else if policy == api_gateway_policy_name
    then ok (api_gateway_policy_rules c)
    else err (errorf ("failed to fetch rules for the given policy " <> policy))
