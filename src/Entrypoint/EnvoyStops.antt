-- ===== src/Entrypoint/EnvoyStops.antt =====
-- When Envoy is told to end, subcommand/envoy-entrypoint/command_unix.go.
use consul_ecs.Base.{ℤ, ◌≡◌, true, false, Bool, ◌||◌, List, [], ◌∷◌, Option, none, some, arith}
use consul_ecs.Entrypoint.Signals.{
  sigterm, sigchld, sigurg, other, Sent, to_process, to_group, has_sigterm,
}
use consul_ecs.Entrypoint.Envoy.{
  EnvoyEvent, envoy_done, envoy_signal, app_stopped, monitor_closed, envoy_run,
}

-- The monitor says that the application has stopped, before Envoy exits.
abbrev pub stops_in_time : List EnvoyEvent → Bool
stops_in_time [] = false
stops_in_time (envoy_done code ∷ es) = false
stops_in_time (app_stopped ∷ es) = true
stops_in_time (_ ∷ es) = stops_in_time es

abbrev pub envoy_exit : List EnvoyEvent → Option ℤ
envoy_exit [] = none
envoy_exit (envoy_done code ∷ es) = some code
envoy_exit (_ ∷ es) = envoy_exit es

envoy_run_lem :
    (es : List EnvoyEvent) (sent : List Sent)
    → (has_sigterm (envoy_run sent es).sent ≡ (has_sigterm sent || stops_in_time es))
      × ((envoy_run sent es).code ≡ envoy_exit es)
unfolding envoy_run
envoy_run_lem [] sent = ground arith
envoy_run_lem (envoy_done code ∷ es) sent = ground arith
envoy_run_lem (envoy_signal sigterm ∷ es) sent = envoy_run_lem es sent
envoy_run_lem (envoy_signal sigchld ∷ es) sent = envoy_run_lem es sent
envoy_run_lem (envoy_signal sigurg ∷ es) sent = envoy_run_lem es sent
envoy_run_lem (envoy_signal (other n) ∷ es) sent = envoy_run_lem es (to_process (other n) ∷ sent)
envoy_run_lem (app_stopped ∷ es) sent = ground (arith, envoy_run_lem es (to_group sigterm ∷ sent))
envoy_run_lem (monitor_closed ∷ es) sent = envoy_run_lem es sent

-- Envoy is sent SIGTERM exactly when the monitor says, before Envoy exits, that the application has
-- stopped, however many SIGTERMs arrive; and the entry point ends exactly when Envoy exits, with
-- its code.
pub envoy_run-stops :
    (es : List EnvoyEvent)
    → (has_sigterm (envoy_run [] es).sent ≡ stops_in_time es)
      × ((envoy_run [] es).code ≡ envoy_exit es)
envoy_run-stops es = envoy_run_lem es []
