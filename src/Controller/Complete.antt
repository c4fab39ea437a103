-- ===== src/Controller/Complete.antt =====
-- That the services of tasks that are gone are deregistered in one pass, controller/controller.go.
use mathlib.Core.List.{append_assoc, append-nil}
use mathlib.Core.Path.{subst}
use consul_ecs.Base.{
  ◌≡◌, ◌∙◌, refl, sym, ap, false, List, [], ◌∷◌, ◌++◌, map, All, All-map, Option, none, Error,
  Bool-cases, Option-cases, inl, inr,
}
use consul_ecs.Consul.{AclToken, AgentService}
use consul_ecs.Client.{Client, Call, History}
use consul_ecs.Controller.Env.{TaskState, Env}
use consul_ecs.Controller.Reconcile.{
  delete_tokens, token_deletion, service_deregistration, reconcile, deregister_services,
}
use consul_ecs.Controller.Deletion.{deregister_each_calls}
use consul_ecs.Controller.Pass.{reconcile_each}

-- The call is in the history.
abbrev pub Occurs : Call → History → Type 0
Occurs call h = (before : History) × (after : History) × (h ≡ before ++ call ∷ after)

-- The later history begins with the earlier one.
abbrev pub Begins : History → History → Type 0
Begins h h' = (calls : History) × (h' ≡ h ++ calls)

Begins-trans : (h1 h2 h3 : History) → Begins h1 h2 → Begins h2 h3 → Begins h1 h3
Begins-trans h1 h2 h3 (xs, e) (ys, f) =
    (xs ++ ys, f ∙ ap (λ (h : History). h ++ ys) e ∙ append_assoc h1 xs ys)

Occurs-Begins : (call : Call) (h h' : History) → Begins h h' → Occurs call h → Occurs call h'
Occurs-Begins call h h' (xs, e) (a, b, f) =
    (a, b ++ xs, e ∙ ap (λ (k : History). k ++ xs) f ∙ append_assoc a _ xs)

Occurs-map :
    (f : AgentService → Call) (services : List AgentService) (h : History)
    → All (λ s. Occurs (f s) (h ++ map f services)) services
Occurs-map f [] h = tt
Occurs-map f (s ∷ services) h = (
  (h, map f services, refl),
  subst (λ (k : History). All (λ t. Occurs (f t) k) services)
      (append_assoc h (f s ∷ []) (map f services)) (Occurs-map f services (h ++ f s ∷ [])),
)

delete_tokens-Begins :
    (api : Client) (tokens : List AclToken) (h : History) → Begins h (delete_tokens api tokens h).1
unfolding delete_tokens
delete_tokens-Begins api [] h = ([], rw append-nil refl)
delete_tokens-Begins api (t ∷ tokens) h = elim (Option-cases (api.failure h (token_deletion t))) [
  | inl fine ↦
      rw (fine, delete_tokens)
        (Begins-trans h (h ++ token_deletion t ∷ []) _ (token_deletion t ∷ [], refl)
          (delete_tokens-Begins api tokens _))
  | inr (x, failed) ↦ rw (failed, delete_tokens) (token_deletion t ∷ [], refl)
]

module _ (env : Env) where
  deregister_services_calls :
      (r : TaskState) (h : History)
      → (deregister_services env r h).1 ≡ h ++ map (service_deregistration r.cluster_arn) r.services
  unfolding deregister_services
  deregister_services_calls r h = deregister_each_calls env r.cluster_arn r.services none h

  reconcile-Begins : (r : TaskState) (h : History) → Begins h (reconcile env r h).1
  unfolding reconcile
  reconcile-Begins r h = elim (Bool-cases r.ecs_task_found) [
    | inl found ↦ rw (found, reconcile) ([], rw append-nil refl)
    | inr gone ↦ elim (Option-cases (env.setup h)) [
      | inr (x, failed) ↦ rw (gone, reconcile) (rw (failed, reconcile) ([], rw append-nil refl))
      | inl fine ↦
          rw (gone, reconcile)
            (rw (fine, reconcile)
              (Begins-trans h (delete_tokens env.api r.acl_tokens h).1 _
                (delete_tokens-Begins env.api r.acl_tokens h)
                (
                  map (service_deregistration r.cluster_arn) r.services,
                  deregister_services_calls r _,
                )))
    ]
  ]

  reconcile_each-Begins :
      (rs : List TaskState) (e : Option Error) (h : History)
      → Begins h (reconcile_each env rs e h).1
  unfolding reconcile_each
  reconcile_each-Begins [] e h = ([], rw append-nil refl)
  reconcile_each-Begins (r ∷ rs) e h =
      Begins-trans h (reconcile env r h).1 _ (reconcile-Begins r h) (reconcile_each-Begins rs _ _)

  reconcile-removes :
      (r : TaskState) (h : History)
      → r.ecs_task_found ≡ false
      → env.setup h ≡ none
      → All (λ s. Occurs (service_deregistration r.cluster_arn s) (reconcile env r h).1) r.services
  unfolding reconcile
  reconcile-removes r h gone fine =
      let h1 = (delete_tokens env.api r.acl_tokens h).1 in
      rw (gone, reconcile)
        (rw (fine, reconcile)
          (subst
            (λ (k : History).
              All (λ s. Occurs (service_deregistration r.cluster_arn s) k) r.services)
            (sym (deregister_services_calls r h1))
            (Occurs-map (service_deregistration r.cluster_arn) r.services h1)))

  -- Where a client can always be set up, the loop over the resources deregisters every service of
  -- every resource that ECS does not have, whatever Consul answers and whatever failed before.
  pub reconcile_each-removes :
      (rs : List TaskState) (e : Option Error) (h : History)
      → ((k : History) → env.setup k ≡ none)
      → All
          (λ r.
            r.ecs_task_found ≡ false
            → All
                (λ s. Occurs (service_deregistration r.cluster_arn s) (reconcile_each env rs e h).1)
                r.services)
          rs
  unfolding reconcile_each
  reconcile_each-removes [] e h setup = tt
  reconcile_each-removes (r ∷ rs) e h setup =
      let h1 = (reconcile env r h).1 in
      (
        λ gone.
            All-map (λ s. Occurs (service_deregistration r.cluster_arn s) h1)
              (λ s.
                Occurs (service_deregistration r.cluster_arn s) (reconcile_each env (r ∷ rs) e h).1)
              (λ s o.
                Occurs-Begins (service_deregistration r.cluster_arn s) h1 _
                  (reconcile_each-Begins rs _ h1) o)
              r.services (reconcile-removes r h gone (setup h)),
        reconcile_each-removes rs _ h1 setup,
      )
