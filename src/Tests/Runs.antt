-- ===== src/Tests/Runs.antt =====
-- Examples for whole runs of health-sync and of the controller command.
use mathlib.Core.Logic.{◌↔◌}
use consul_ecs.Base.{◌≡◌, ◌⊎◌, true, [], ◌∷◌, Option, none, some, err, Error}
use consul_ecs.Task.{TaskMeta}
use consul_ecs.Client.{History, Extends}
use consul_ecs.HealthSync.Loop.{sigterm, dataplane_done}
use consul_ecs.HealthSync.Shutdown.{is_returned, has_dataplane_done}
use consul_ecs.HealthSync.Start
use consul_ecs.HealthSync.Start.{set_up}
use consul_ecs.HealthSync.Started.{IsCheckQuery, real_run_returned}
use consul_ecs.Controller.Lister
use consul_ecs.Controller.Ecs
use consul_ecs.Controller.Acl
use consul_ecs.Controller.Services
use consul_ecs.Upserts.Run.{controller_run}
use consul_ecs.Tests.Samples.{config, append}
use consul_ecs.Tests.Controller.{env}
use consul_ecs.Tests.Upserts.{up}
use consul_ecs.Tests.Start.{host}

real_run_returned_example :
    Extends IsCheckQuery [] (set_up host config []).1
    × ((is_returned (Start.real_run host config append (sigterm ∷ dataplane_done ∷ []) []) ≡ true)
        ↔ (((e : Error) × ((set_up host config []).0 ≡ err e))
            ⊎ (has_dataplane_done (sigterm ∷ dataplane_done ∷ []) ≡ true)))
real_run_returned_example = real_run_returned host config append (sigterm ∷ dataplane_done ∷ []) []

abbrev aws_config : TaskMeta → Option Error
aws_config meta = none

abbrev calls_of : Option (Option Error × History) → History
calls_of none = []
calls_of (some (_, h)) = h

abbrev calls : History
calls = calls_of (controller_run host up aws_config config (env ∷ []) 1 [])
