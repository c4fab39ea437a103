-- ===== src/Controller/Created.antt =====
-- `createNamespaces` of controller/resource.go.
use consul_ecs.Base.{◌==◌, false, not, ◌&&◌, ◌||◌, Bool, String, List, [], ◌∷◌}
use consul_ecs.Controller.Env.{TaskState, Env}
use consul_ecs.Controller.Namespaces.{namespace_of}

-- Some resource is a task of ECS that asks for this namespace, which is not empty.
abbrev pub asks_for : List TaskState → String → Bool
asks_for [] n = false
asks_for (r ∷ rs) n = (namespace_of r == n && not (n == "")) || asks_for rs n
