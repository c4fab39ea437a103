-- ===== src/Controller/Removal.antt =====
-- What a pass of the controller may remove from Consul, controller/controller.go and resource.go.
use consul_ecs.Base.Dict.{Dict}
use consul_ecs.Controller.Env.{Lister, Env}
