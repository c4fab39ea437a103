-- ===== src/Upserts/Passes.antt =====
-- What has come before the first pass of the controller, and what the passes remove.
use consul_ecs.Base.{ℕ, ◌≡◌, ◌⊎◌, String, List, [], ◌∷◌, ◌++◌, Option, none, some, ok, Error}
use consul_ecs.Base.Dict.{Dict}
use consul_ecs.Task.{TaskMeta, cluster_arn}
use consul_ecs.Client.{History, Extends}
use consul_ecs.Config.Types.{Config}
use consul_ecs.MeshInit.Host.{Host}
use consul_ecs.Controller.Env.{TaskState, Lister, Env}
use consul_ecs.Controller.Ecs.{fetch_ecs_tasks}
use consul_ecs.Controller.Justified.{IsJustified}
use consul_ecs.Upserts.Env.{Servers}
use consul_ecs.Upserts.Resources.{with_default_partition}
use consul_ecs.Upserts.Order.{node_call}
use consul_ecs.Upserts.Run.{lister_of}

-- One pass after the other, each of which only removes what belongs to tasks that ECS does not list.
abbrev pub ArePasses : List Env → Lister → ℕ → History → History → Type 0
ArePasses [] s fuel h h' = h' ≡ h
ArePasses (env ∷ envs) s fuel h h' =
    (h1 : History) × ((h1 ≡ h)
      ⊎ ((tasks : Dict TaskState) × (fetch_ecs_tasks env s fuel ≡ some (ok tasks))
          × Extends (IsJustified env s tasks) h h1))
    × ArePasses envs s fuel h1 h'

module _ (host : Host) (s : Servers) (aws_config : TaskMeta → Option Error) (c : Config) where
  -- The node is registered, and then come the passes.
  abbrev pub RegistersFirst : List Env → ℕ → History → Type 0
  RegistersFirst envs fuel h' =
      (meta : TaskMeta) × (arn : String) × (before : History) × (cluster_arn meta ≡ ok arn)
      × (s.api.failure before (node_call s c meta arn (with_default_partition c)) ≡ none)
      × ArePasses envs (lister_of c arn) fuel
          (before ++ node_call s c meta arn (with_default_partition c) ∷ []) h'
