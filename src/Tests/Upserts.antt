-- ===== src/Tests/Upserts.antt =====
-- Tests and examples for what the controller sets up.
use mathlib.Core.Logic.{◌↔◌}
use consul_ecs.Base.{
  ◌≡◌, ◌≢◌, ◌⊎◌, refl, String, true, false, List, [], ◌∷◌, none, some, Result, ok, contains, arith,
  eq_iff,
}
use consul_ecs.Base.Json.{Json, null, string}
use consul_ecs.Base.Ascending.{IsAscending}
use consul_ecs.Consul.Acl.{AuthMethod, items}
use consul_ecs.Client.{Client, agent_self, Extends}
use consul_ecs.Config.Types.{Config}
use consul_ecs.Task.{ArnFields}
use consul_ecs.Upserts.Env.{Servers, AgentConfig}
use consul_ecs.Upserts.Unique.{unique_strings}
use consul_ecs.Upserts.Methods.{
  role_path, service_auth_method, merged_method, principals_key, tags_key,
}
use consul_ecs.Upserts.Merged.{unique_strings_iff}
use consul_ecs.Upserts.Resources.{upsert_consul_resources}
use consul_ecs.Upserts.Writes.{IsUpsertIn}
use consul_ecs.Upserts.Safety.{upsert_consul_resources_upserts}
use consul_ecs.Upserts.Order.{upsert_consul_resources_refuses}
use consul_ecs.Upserts.Rules.{api_gateway_policy_rules}
use consul_ecs.Tests.Samples.{task, config, client}

abbrev self_config : AgentConfig
self_config = record {
  config = record { datacenter = "dc1"; primary_datacenter = "dc1" };
  debug_config = record { datacenter = ""; primary_datacenter = "" };
}

abbrev arn_parse : String → Result ArnFields
arn_parse s = ok (record { region = "us-east-1"; account_id = "1" })

abbrev decode : Json → Result AgentConfig
decode j = ok self_config

abbrev pub up : Servers
up = record { api = client; arn_parse = arn_parse; decode = decode }

abbrev with_path : String → Config
with_path p = record config {
  controller = record { iam_role_path = p; partitions_enabled = true; partition = "" };
}

trimmed_path : role_path (with_path "//consul/ecs/") ≡ "consul/ecs/"
unfolding role_path
trimmed_path = refl

no_path : role_path (with_path "/") ≡ ""
unfolding role_path
no_path = refl

rules_test :
    api_gateway_policy_rules (with_path "")
    ≡ "mesh = \"read\"\nnamespace_prefix \"\" {\n\tnode_prefix \"\" {\n\t\tpolicy = \"read\"\n\t}\n\tservice_prefix \"\" {\n\t\tpolicy = \"read\"\n\t}\n}"
unfolding api_gateway_policy_rules
rules_test = refl

abbrev texts : List String
texts = "b" ∷ "a" ∷ "b" ∷ []

abbrev texts_sorted : List String
texts_sorted = "a" ∷ "b" ∷ []

unique_strings_iff_example :
    (unique_strings texts ≡ texts_sorted)
    ↔ (IsAscending texts_sorted × ((n : String) → contains texts_sorted n ≡ contains texts n))
unique_strings_iff_example = unique_strings_iff texts texts_sorted

abbrev ours : AuthMethod
ours = service_auth_method config "1"

-- Consul gives lists back as values of any type.
abbrev before : AuthMethod
before = record ours {
  config =
      (principals_key, items (string "arn:aws:iam::2:role/*" ∷ []))
      ∷ (tags_key, items (string "team" ∷ null ∷ []))
      ∷ [];
}

abbrev held : Client
held = record client { auth_method = λ h name o. ok (some (merged_method before ours)) }

-- Partitions are enabled, and none is named.
abbrev partitioned : Config
partitioned = record config {
  controller = record { iam_role_path = ""; partitions_enabled = true; partition = "" };
}

upsert_consul_resources_upserts_example :
    Extends
      (IsUpsertIn up.api true "default")
      []
      (upsert_consul_resources up partitioned task "arn:aws:ecs:us-east-1:1:cluster/c" []).1
upsert_consul_resources_upserts_example =
    upsert_consul_resources_upserts up partitioned task "arn:aws:ecs:us-east-1:1:cluster/c" []

abbrev misconfigured : Config
misconfigured = record config {
  controller = record { iam_role_path = ""; partitions_enabled = false; partition = "blue" };
}

upsert_consul_resources_refuses_example :
    ((upsert_consul_resources up misconfigured task "arn:aws:ecs:us-east-1:1:cluster/c" []).0
      ≢ none)
    × (((upsert_consul_resources up misconfigured task "arn:aws:ecs:us-east-1:1:cluster/c" []).1
          ≡ [])
        ⊎ ((upsert_consul_resources up misconfigured task "arn:aws:ecs:us-east-1:1:cluster/c" []).1
            ≡ agent_self ∷ []))
upsert_consul_resources_refuses_example =
    upsert_consul_resources_refuses up misconfigured task "arn:aws:ecs:us-east-1:1:cluster/c" []
      refl (λ e. ground (arith, eq_iff "blue" ""))
