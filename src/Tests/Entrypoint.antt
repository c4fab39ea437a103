-- ===== src/Tests/Entrypoint.antt =====
-- Tests and examples for the entry points and the monitors.
use consul_ecs.Base.{
  ◌≡◌, ◌↔◌, refl, true, false, List, [], ◌∷◌, All, some, pos, negsuc, ok, err, errorf, arith, inl,
}
use consul_ecs.Task.{TaskMeta}
use consul_ecs.Entrypoint.Signals.{sigterm, sigchld, other, to_process, to_group, has_sigterm}
use consul_ecs.Entrypoint.App.{
  AppEvent, app_done, signal, timer, for_sigterm, app_run, app_step, forward_signal,
}
use consul_ecs.Entrypoint.AppStops.{exit_of, app_run-first_exit, app_run_early, app_run_delayed}
use consul_ecs.Entrypoint.Envoy.{envoy_done, envoy_signal, app_stopped, envoy_run}
use consul_ecs.Entrypoint.EnvoyStops.{envoy_run-stops}
use consul_ecs.Entrypoint.Monitor.{
  all_app_containers_stopped, MonitorEvent, terminated, polled, asleep, app_monitor_step,
  monitor_run,
}
use consul_ecs.Entrypoint.MonitorEnds.{
  StoppedIfApp, is_finished, polls_after_sigterm, app_monitor_ends,
}
use consul_ecs.Tests.Samples.{task}

abbrev stop : List AppEvent
stop = signal sigchld ∷ signal sigterm ∷ signal (other 2) ∷ timer ∷ app_done (pos 55) ∷ []

exit_example : exit_of (app_run 10 for_sigterm [] stop).phase ≡ some (pos 55)
exit_example = app_run-first_exit 10 stop

-- Without a delay the application is sent SIGINT, but not SIGTERM.
no_delay_example : has_sigterm (app_run 0 for_sigterm [] stop).sent ≡ false
no_delay_example = app_run_early 0 stop (inl refl) (omega arith)

delayed_example :
    has_sigterm
      (app_run 10 for_sigterm []
        (signal sigchld ∷ signal (other 2) ∷ signal sigterm ∷ signal (other 2) ∷ timer ∷ [])).sent
    ≡ true
delayed_example =
    app_run_delayed 10 (signal sigchld ∷ signal (other 2) ∷ []) (signal (other 2) ∷ timer ∷ [])
      (omega arith) refl refl refl refl

stop_run : (app_run 10 for_sigterm [] stop).sent ≡ to_group sigterm ∷ to_process (other 2) ∷ []
unfolding app_run app_step forward_signal
stop_run = refl

envoy_example :
    (has_sigterm
        (envoy_run [] (envoy_signal sigterm ∷ app_stopped ∷ envoy_done (negsuc 0) ∷ [])).sent
      ≡ true)
    × ((envoy_run [] (envoy_signal sigterm ∷ app_stopped ∷ envoy_done (negsuc 0) ∷ [])).code
        ≡ some (negsuc 0))
envoy_example = envoy_run-stops (envoy_signal sigterm ∷ app_stopped ∷ envoy_done (negsuc 0) ∷ [])

abbrev polls : List MonitorEvent
polls =
    polled (ok task)
    ∷ terminated
    ∷ polled (err (errorf "no metadata"))
    ∷ polled (ok task)
    ∷ polled (ok (record task { containers = [] }))
    ∷ []

app_monitor_example :
    (is_finished (monitor_run app_monitor_step asleep polls)
      ≡ polls_after_sigterm all_app_containers_stopped polls)
    × ((meta : TaskMeta)
        → (all_app_containers_stopped meta ≡ true) ↔ All StoppedIfApp meta.containers)
app_monitor_example = app_monitor_ends polls (tt, (tt, (tt, (tt, (tt, tt)))))
