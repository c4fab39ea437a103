-- ===== src/Upserts/Methods.antt =====
-- The auth method of the service tokens, and `upsertAuthMethod`.
use consul_ecs.Base.{
  ◌<>◌, ◌==◌, not, ◌&&◌, String, Bool, true, List, [], ◌∷◌, ◌++◌, Option, none, some, ok, err,
  Error, wrapf, if◌then◌else◌,
}
use consul_ecs.Base.Dict.{lookup, insert}
use consul_ecs.Base.Json.{boolean}
use consul_ecs.Base.Text.{trim}
use consul_ecs.Consul.Acl.{AuthMethod, ConfigValue, no_value, strings, other_value}
use consul_ecs.Client.{Client, History, auth_method_read, auth_method_create, auth_method_update}
use consul_ecs.Config.Types.{Config}
use consul_ecs.Upserts.Env.{
  auth_method_service_name_tag, auth_method_namespace_tag, auth_method_gateway_kind_tag,
  query_options, write_options,
}
use consul_ecs.Upserts.Policies.{found, attempt}
use consul_ecs.Upserts.Unique.{unique_strings, force_string_slice, deep_equal}

abbrev pub principals_key : String
principals_key = "BoundIAMPrincipalARNs"

abbrev pub tags_key : String
tags_key = "IAMEntityTags"

-- The path of the roles without slashes at its ends, and with one behind it unless it is empty.
unfoldable pub role_path : Config → String
unfolding trim
role_path c =
    let path = trim "/" c.controller.iam_role_path in if not (path == "") then path <> "/" else path

unfoldable pub bound_arn_pattern : Config → String → String
unfolding role_path
bound_arn_pattern c account = "arn:aws:iam::" <> account <> ":role/" <> role_path c <> "*"

abbrev pub service_auth_method_name : String
service_auth_method_name = "iam-ecs-service-token"

unfoldable pub service_auth_method : Config → String → AuthMethod
unfolding bound_arn_pattern
service_auth_method c account = record {
  name = service_auth_method_name;
  type = "aws-iam";
  description = "AWS IAM auth method for ECS service tokens";
  config =
      (principals_key, strings (bound_arn_pattern c account ∷ []))
      ∷ ("EnableIAMEntityDetails", other_value (boolean true))
      ∷ (
        tags_key,
        strings (
            auth_method_gateway_kind_tag ∷ auth_method_namespace_tag ∷ auth_method_service_name_tag
            ∷ []),
      )
      ∷ [];
  namespace_rules =
      if c.controller.partitions_enabled
      then record {
        selector = "entity_tags[\"" <> auth_method_namespace_tag <> "\"] != \"\"";
        bind_namespace = "${entity_tags." <> auth_method_namespace_tag <> "}";
      }
        ∷ []
      else [];
}

-- `method.Config[key]`, nil where the key is missing.
abbrev pub config_value : String → AuthMethod → ConfigValue
config_value key m = elim (lookup key m.config) [ none ↦ no_value | some v ↦ v ]

-- The list of texts under a key. The error of `forceStringSlice` is only logged.
unfoldable pub texts_under : String → AuthMethod → List String
unfolding lookup force_string_slice
texts_under key m = (force_string_slice (config_value key m)).0

-- `uniqueStrings(append(current, ours...))`
unfoldable pub merged : String → AuthMethod → AuthMethod → List String
unfolding texts_under unique_strings
merged key current ours = unique_strings (texts_under key current ++ texts_under key ours)

-- Our method with both merged lists.
unfoldable pub merged_method : AuthMethod → AuthMethod → AuthMethod
unfolding merged insert
merged_method current ours = record ours {
  config =
      insert tags_key (strings (merged tags_key current ours))
        (insert principals_key (strings (merged principals_key current ours)) ours.config);
}

-- Both merged lists are what is there already.
unfoldable pub is_settled : AuthMethod → AuthMethod → Bool
unfolding merged texts_under deep_equal
is_settled current ours =
    deep_equal (merged principals_key current ours) (texts_under principals_key current)
    && deep_equal (merged tags_key current ours) (texts_under tags_key current)

unfoldable pub upsert_auth_method : Client → Config → AuthMethod → History → Option Error × History
unfolding query_options write_options is_settled merged_method
upsert_auth_method api c ours h =
    let h1 = h ++ auth_method_read ours.name (query_options c) ∷ [] in
    elim (found (api.auth_method h ours.name (query_options c))) [
      | err e ↦ (some (wrapf "reading ACL auth method" e), h1)
      | ok (some current) ↦
          if is_settled current ours
          then (none, h1)
          else attempt api "updating ACL auth method"
              (auth_method_update (merged_method current ours) (write_options c)) h1
      | ok none ↦
          attempt api "creating ACL auth method" (auth_method_create ours (write_options c)) h1
    ]
