-- ===== src/Controller/Reconcile.antt =====
-- `Reconcile`, `Delete` and `DeregisterServices` of controller/resource.go.
use consul_ecs.Base.{
  ◌<>◌, String, List, [], ◌∷◌, ◌++◌, Option, none, some, Error, wrapf, collect, if◌then◌else◌,
}
use consul_ecs.Consul.{AclToken, AgentService}
use consul_ecs.Client.{Client, Call, History, token_delete, deregister, send}
use consul_ecs.Controller.Env.{TaskState, Env}

abbrev pub token_deletion : AclToken → Call
token_deletion token =
    token_delete token.accessor_id
      (record { namespace = token.namespace; partition = token.partition })

-- `Delete` stops at the first token that cannot be deleted.
unfoldable pub delete_tokens : Client → List AclToken → History → Option Error × History
delete_tokens api [] h = (none, h)
delete_tokens api (token ∷ tokens) h = elim (api.failure h (token_deletion token)) [
  | some e ↦ (some (wrapf "deleting token" e), h ++ token_deletion token ∷ [])
  | none ↦ delete_tokens api tokens (h ++ token_deletion token ∷ [])
]

abbrev pub service_deregistration : String → AgentService → Call
service_deregistration cluster_arn service =
    deregister
      (record {
        node = cluster_arn;
        service_id = service.id;
        namespace = service.namespace;
        partition = service.partition;
      })
      (some (record { namespace = service.namespace; partition = service.partition }))

-- The loop of `DeregisterServices`, with the errors that it collects.
unfoldable pub deregister_each :
    Env → String → List AgentService → Option Error → History → Option Error × History
deregister_each env cluster_arn [] result h = (result, h)
deregister_each env cluster_arn (service ∷ services) result h =
    let (e, h') = send env.api (service_deregistration cluster_arn service) h in
    let failed : Option Error = elim e [
      | none ↦ none
      | some x ↦ some (wrapf ("deregistering service with ID " <> service.id) x)
    ] in
    deregister_each env cluster_arn services (collect env.append result failed) h'

-- The collected errors are dropped: the method returns nil.
unfoldable pub deregister_services : Env → TaskState → History → Option Error × History
deregister_services env t h =
    let (_, h') = deregister_each env t.cluster_arn t.services none h in (none, h')

-- A present task is left alone. Otherwise the tokens are deleted and then the services are
-- deregistered, whatever became of the tokens.
unfoldable pub reconcile : Env → TaskState → History → Option Error × History
reconcile env t h = if t.ecs_task_found then (none, h) else elim (env.setup h) [
  | some e ↦ (some e, h)
  | none ↦
      let (e1, h1) = delete_tokens env.api t.acl_tokens h in
      let (e2, h2) = deregister_services env t h1 in
      (collect env.append (collect env.append none e1) e2, h2)
]
