-- ===== src/Consul/Acl.antt =====
-- The ACL structs of Consul's API package that the controller command sets or reads.
use consul_ecs.Base.{String, List}
use consul_ecs.Base.Dict.{Dict}
use consul_ecs.Base.Json.{Json}

-- `api.ACLRole`, with the names of its policies.
pub record AclRole : Type 0 where
  pub name : String
  pub description : String
  pub policies : List String

-- A value of `ACLAuthMethod.Config`, an `interface{}`: nil, a `[]string`, a `[]interface{}` or any
-- other value.
pub data ConfigValue : Type 0 where
  no_value : ConfigValue
  strings : List String → ConfigValue
  items : List Json → ConfigValue
  other_value : Json → ConfigValue

-- `api.ACLAuthMethodNamespaceRule`
pub record NamespaceRule : Type 0 where
  pub selector : String
  pub bind_namespace : String

-- `api.ACLAuthMethod`
pub record AuthMethod : Type 0 where
  pub name : String
  pub type : String
  pub description : String
  pub config : Dict ConfigValue
  pub namespace_rules : List NamespaceRule

-- `api.ACLBindingRule`
pub record BindingRule : Type 0 where
  pub id : String
  pub description : String
  pub auth_method : String
  pub bind_type : String
  pub selector : String
  pub bind_name : String

-- `api.ACLToken`, with the names of its policies.
pub record FullToken : Type 0 where
  pub accessor_id : String
  pub policies : List String
  pub other : Json
