-- ===== src/Entrypoint/Envoy.antt =====
-- subcommand/envoy-entrypoint/command_unix.go: `realRun` once Envoy has started.
use consul_ecs.Base.{ℤ, List, [], ◌∷◌, Option, none, some}
use consul_ecs.Entrypoint.Signals.{Signal, sigterm, sigchld, sigurg, Sent, to_process, to_group}

-- Envoy exits with a code, a signal arrives, the monitor says that the application has stopped, or
-- its channel is closed.
pub data EnvoyEvent : Type 0 where
  envoy_done : ℤ → EnvoyEvent
  envoy_signal : Signal → EnvoyEvent
  app_stopped monitor_closed : EnvoyEvent

-- The exit code, once there is one, and what was sent to Envoy, the latest first.
pub record Envoy : Type 0 where
  pub code : Option ℤ
  pub sent : List Sent

-- `handleSignal`
unfoldable pub handle_signal : Signal → List Sent → List Sent
handle_signal sigterm sent = sent
handle_signal sigchld sent = sent
handle_signal sigurg sent = sent
handle_signal s sent = to_process s ∷ sent

unfoldable pub envoy_run : List Sent → List EnvoyEvent → Envoy
unfolding handle_signal
envoy_run sent [] = record { code = none; sent = sent }
envoy_run sent (envoy_done code ∷ es) = record { code = some code; sent = sent }
envoy_run sent (envoy_signal s ∷ es) = envoy_run (handle_signal s sent) es
envoy_run sent (app_stopped ∷ es) = envoy_run (to_group sigterm ∷ sent) es
envoy_run sent (monitor_closed ∷ es) = envoy_run sent es
