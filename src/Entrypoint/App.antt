-- ===== src/Entrypoint/App.antt =====
-- subcommand/app-entrypoint/command_unix.go: `realRun` from the start of the application on, as a
-- machine over the events of its `select` statements. What is sent is kept, the latest first.
use consul_ecs.Base.{ℕ, ℤ, ltb, List, [], ◌∷◌, if◌then◌else◌}
use consul_ecs.Entrypoint.Signals.{Signal, sigterm, sigchld, sigurg, Sent, to_process, to_group}

-- The application exits with a code, a signal arrives, or the timer of the delay fires.
pub data AppEvent : Type 0 where
  app_done : ℤ → AppEvent
  signal : Signal → AppEvent
  timer : AppEvent

-- Where `realRun` is: in `waitForSigterm`, in `waitForShutdownDelay` before or after its timer, in
-- `waitForAppExit`, or at its end with the exit code.
pub data AppPhase : Type 0 where
  for_sigterm for_delay after_delay for_exit : AppPhase
  ended : ℤ → AppPhase

pub record App : Type 0 where
  pub phase : AppPhase
  pub sent : List Sent

-- `forwardSignal`
unfoldable pub forward_signal : Signal → List Sent → List Sent
forward_signal sigchld sent = sent
forward_signal sigurg sent = sent
forward_signal s sent = to_process s ∷ sent

-- The phase after SIGTERM.
abbrev pub after_sigterm : ℕ → AppPhase
after_sigterm delay = if ltb 0 delay then for_delay else for_exit

-- The timer exists in `waitForShutdownDelay` only, and fires once.
unfoldable pub app_step : ℕ → AppPhase → List Sent → AppEvent → App
app_step delay (ended code) sent e = record { phase = ended code; sent = sent }
app_step delay phase sent (app_done code) = record { phase = ended code; sent = sent }
app_step delay for_sigterm sent (signal sigterm) = record {
  phase = after_sigterm delay;
  sent = sent;
}
app_step delay phase sent (signal s) = record { phase = phase; sent = forward_signal s sent }
app_step delay for_delay sent timer = record { phase = after_delay; sent = to_group sigterm ∷ sent }
app_step delay phase sent timer = record { phase = phase; sent = sent }

unfoldable pub app_run : ℕ → AppPhase → List Sent → List AppEvent → App
app_run delay phase sent [] = record { phase = phase; sent = sent }
app_run delay phase sent (e ∷ es) =
    let r = app_step delay phase sent e in app_run delay r.phase r.sent es
