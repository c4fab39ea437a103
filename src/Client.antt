-- ===== src/Client.antt =====
-- The Consul servers, seen through the API client. They are not part of the repository: what they
-- answer is an arbitrary function of all the calls made so far and of the call at hand.
use mathlib.Core.List.{append-nil, append_assoc}
use consul_ecs.Base.{
  Bool, ◌≡◌, ◌∙◌, refl, ap, All, All-append, String, List, [], ◌∷◌, ◌++◌, Option, none, Result,
  Error,
}
use consul_ecs.Base.Json.{Json}
use consul_ecs.Consul.Acl.{AclRole, AuthMethod, BindingRule, FullToken}
use consul_ecs.Consul.{
  AgentService, HealthCheck, CatalogRegistration, CatalogDeregistration, QueryOptions, WriteOptions,
  AclToken, Namespace, AclPolicy, ServiceConfigEntry,
}

pub data Call : Type 0 where
  connect : String → Call
  register : CatalogRegistration → Option WriteOptions → Call
  deregister : CatalogDeregistration → Option WriteOptions → Call
  health_checks : String → QueryOptions → Call
  logout : Call
  token_list namespace_list : QueryOptions → Call
  token_delete : String → WriteOptions → Call
  node_service_list namespace_read policy_read_by_name : String → QueryOptions → Call
  namespace_create namespace_update : Namespace → WriteOptions → Call
  policy_create : AclPolicy → Option WriteOptions → Call
  agent_self partition_list : Call
  partition_create : String → Call
  auth_method_read role_read_by_name binding_rule_list token_read : String → QueryOptions → Call
  auth_method_create auth_method_update : AuthMethod → WriteOptions → Call
  role_create role_update : AclRole → WriteOptions → Call
  binding_rule_create binding_rule_update : BindingRule → WriteOptions → Call
  token_update : FullToken → WriteOptions → Call
  service_defaults_get : String → QueryOptions → Call
  service_defaults_set : ServiceConfigEntry → Call

-- The calls made so far, oldest first.
abbrev pub History : Type 0
History = List Call

-- The answers: an error for a call that returns nothing of interest, else a value or an error. A
-- policy that is not found is `none`, and so are service defaults, an auth
-- method or a role that are absent. The policy that a successful creation returns is a field of its own.
pub record Client : Type 0 where
  pub failure : History → Call → Option Error
  pub checks : History → String → QueryOptions → Result (List HealthCheck)
  pub tokens : History → QueryOptions → Result (List AclToken)
  pub services : History → String → QueryOptions → Result (List AgentService)
  pub namespaces : History → QueryOptions → Result (List Namespace)
  pub namespace : History → String → QueryOptions → Result Namespace
  pub service_defaults : History → String → QueryOptions → Result (Option ServiceConfigEntry)
  pub set_service_defaults : History → ServiceConfigEntry → Bool × Option Error
  pub policy : History → String → QueryOptions → Result (Option AclPolicy)
  pub created_policy : History → AclPolicy → AclPolicy
  pub agent : History → Result Json
  pub partitions : History → Result (List String)
  pub auth_method : History → String → QueryOptions → Result (Option AuthMethod)
  pub role : History → String → QueryOptions → Result (Option AclRole)
  pub binding_rules : History → String → QueryOptions → Result (List BindingRule)
  pub token : History → String → QueryOptions → Result FullToken

-- One call and its answer.
abbrev pub send : Client → Call → History → Option Error × History
send api call h = (api.failure h call, h ++ call ∷ [])

-- None of the calls, made one after the other, fails.
abbrev pub NoneFails : Client → History → List Call → Type 0
NoneFails api h [] = Unit
NoneFails api h (call ∷ calls) = (api.failure h call ≡ none) × NoneFails api (h ++ call ∷ []) calls

-- The later history adds calls to the earlier one, all of which have the property.
abbrev pub Extends : (Call → Type 0) → History → History → Type 0
Extends P h h' = (calls : List Call) × (h' ≡ h ++ calls) × All P calls

module _ (P : Call → Type 0) where
  pub Extends-refl : (h : History) → Extends P h h
  Extends-refl h = ([], rw append-nil, tt)

  pub Extends-one : (h : History) (call : Call) → P call → Extends P h (h ++ call ∷ [])
  Extends-one h call p = (call ∷ [], refl, (p, tt))

  pub Extends-trans : (h1 h2 h3 : History) → Extends P h1 h2 → Extends P h2 h3 → Extends P h1 h3
  Extends-trans h1 h2 h3 (xs, e1, p1) (ys, e2, p2) = (
    xs ++ ys,
    e2 ∙ ap (λ (h : History). h ++ ys) e1 ∙ append_assoc h1 xs ys,
    All-append P xs ys p1 p2,
  )
