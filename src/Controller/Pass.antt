-- ===== src/Controller/Pass.antt =====
-- One pass of controller/controller.go over all resources.
use consul_ecs.Base.{ℕ, List, [], ◌∷◌, Option, none, some, ok, err, Error, wrapf}
use consul_ecs.Client.{History}
use consul_ecs.Controller.Env.{TaskState, Lister, Env}
use consul_ecs.Controller.Lister.{list}
use consul_ecs.Controller.Reconcile.{reconcile}
use consul_ecs.Controller.Namespaces.{reconcile_namespaces}

-- The loop over the resources. The code appends to `err`, not to `merr`: after an error of a
-- resource the errors before it are gone.
unfoldable pub reconcile_each :
    Env → List TaskState → Option Error → History → Option Error × History
reconcile_each env [] merr h = (merr, h)
reconcile_each env (r ∷ resources) merr h =
    let (e, h') = reconcile env r h in
    reconcile_each env resources
      (elim e [
        | none ↦ merr
        | some x ↦ some (env.append (some x) (wrapf "reconciling resource" x))
      ])
      h'

-- The error of the namespaces does not keep the resources from being reconciled.
unfoldable pub reconcile_listed : Env → Lister → List TaskState → History → Option Error × History
reconcile_listed env s resources h =
    let (e, h') = reconcile_namespaces env s resources h in
    reconcile_each env resources
      (elim e [ none ↦ none | some x ↦ some (env.append none (wrapf "reconciling namespaces" x)) ])
      h'

-- `Controller.reconcile`; `none` means that the fuel for the pages of ECS ran out.
unfoldable pub reconcile_all : Env → Lister → ℕ → History → Option (Option Error × History)
reconcile_all env s fuel h = elim (list env s fuel h) [
  | none ↦ none
  | some (err e, h') ↦ some (some (wrapf "listing resources" e), h')
  | some (ok resources, h') ↦ some (reconcile_listed env s resources h')
]
