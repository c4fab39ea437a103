-- ===== src/Controller/Deletion.antt =====
-- What `Reconcile` of controller/resource.go removes for a task that is gone.
use consul_ecs.Base.{
  String, ◌≡◌, ◌↔◌, refl, ap, ◌∙◌, false, List, [], ◌∷◌, ◌++◌, map, Option, none, Error, arith,
  Option-cases, inl, inr,
}
use mathlib.Core.List.{append_assoc, append-nil}
use consul_ecs.Consul.{AclToken, AgentService}
use consul_ecs.Client.{Client, History, NoneFails}
use consul_ecs.Controller.Env.{TaskState, Env}
use consul_ecs.Controller.Reconcile.{
  token_deletion, delete_tokens, service_deregistration, deregister_each, deregister_services,
  reconcile,
}

pub deregister_each_calls :
    (env : Env) (cluster_arn : String) (services : List AgentService) (e : Option Error)
    (h : History)
    → (deregister_each env cluster_arn services e h).1
      ≡ h ++ map (service_deregistration cluster_arn) services
unfolding deregister_each
deregister_each_calls env cluster_arn [] e h = rw append-nil
deregister_each_calls env cluster_arn (x ∷ xs) e h =
    deregister_each_calls env cluster_arn xs _ (h ++ service_deregistration cluster_arn x ∷ [])
    ∙ append_assoc h _ _

delete_tokens_lem :
    (api : Client) (tokens : List AclToken) (h : History)
    → ((delete_tokens api tokens h).0 ≡ none ↔ NoneFails api h (map token_deletion tokens))
      × (NoneFails api h (map token_deletion tokens)
          → (delete_tokens api tokens h).1 ≡ h ++ map token_deletion tokens)
unfolding delete_tokens
delete_tokens_lem api [] h = ((λ e. tt, λ e. refl), λ e. rw append-nil)
delete_tokens_lem api (t ∷ ts) h =
    let ih = delete_tokens_lem api ts (h ++ token_deletion t ∷ []) in
    elim (Option-cases (api.failure h (token_deletion t))) [
      | inl fine ↦
          rw (fine, delete_tokens)
            ((λ e. (refl, ih.0.0 e), λ e. ih.0.1 e.1), λ e. ih.1 e.1 ∙ append_assoc h _ _)
      | inr (x, failed) ↦ rw (failed, delete_tokens) ((λ e. cc, λ e. cc), λ e. cc)
    ]

-- For a task that is gone, where the client is set up: all its services are deregistered whatever
-- the answers, after all its tokens are deleted if none of the deletions fails; and no error is
-- reported exactly when no deletion of a token fails, even where deregistrations do.
pub reconcile_absent :
    (env : Env) (t : TaskState) (h : History)
    → t.ecs_task_found ≡ false
    → env.setup h ≡ none
    → let deletions = map token_deletion t.acl_tokens in
      let deregistrations = map (service_deregistration t.cluster_arn) t.services in
      ((reconcile env t h).1 ≡ (delete_tokens env.api t.acl_tokens h).1 ++ deregistrations)
      × (NoneFails env.api h deletions
          → (reconcile env t h).1 ≡ (h ++ deletions) ++ deregistrations)
      × (((reconcile env t h).0 ≡ none) ↔ NoneFails env.api h deletions)
unfolding reconcile deregister_services
reconcile_absent env t h gone fine =
    let calls =
      deregister_each_calls env t.cluster_arn t.services none
        (delete_tokens env.api t.acl_tokens h).1 in
    let tokens = delete_tokens_lem env.api t.acl_tokens h in
    rw (gone, reconcile)
      (rw (fine, reconcile)
        (
          calls,
          λ e.
              calls
              ∙ ap (λ (k : History). k ++ map (service_deregistration t.cluster_arn) t.services)
                  (tokens.1 e),
          (λ e. tokens.0.0 (ground arith), λ e. ground (arith, tokens.0.1 e)),
        ))
