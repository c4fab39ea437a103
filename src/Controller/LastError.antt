-- ===== src/Controller/LastError.antt =====
-- The error that `reconcile` of controller/controller.go returns.
use consul_ecs.Base.{◌≡◌, List, [], ◌∷◌, ◌++◌, Option, some, Error, wrapf, arith}
use consul_ecs.Client.{History}
use consul_ecs.Controller.Env.{TaskState, Env}
use consul_ecs.Controller.Reconcile.{reconcile}
use consul_ecs.Controller.Pass.{reconcile_each}

-- If the last resource fails, the error of the pass is made of that error alone: those of the
-- namespaces and of the other resources are lost.
pub reconcile_each_last :
    (env : Env) (rs : List TaskState) (r : TaskState) (merr : Option Error) (h : History)
    (x : Error)
    → (reconcile env r (reconcile_each env rs merr h).1).0 ≡ some x
    → (reconcile_each env (rs ++ r ∷ []) merr h).0
      ≡ some (env.append (some x) (wrapf "reconciling resource" x))
unfolding reconcile_each
reconcile_each_last env [] r merr h x failed = ground arith
reconcile_each_last env (q ∷ rs) r merr h x failed =
    reconcile_each_last env rs r _ (reconcile env q h).1 x failed
