-- ===== src/Entrypoint/AppStops.antt =====
-- When the application's entry point ends and what it sends, subcommand/app-entrypoint/command_unix.go.
use mathlib.Core.Path.{subst}
use consul_ecs.Base.{
  ℕ, ℤ, suc, ◌≤◌, ◌<◌, ◌≡◌, ◌⊎◌, sym, ltb, Bool-cases, refl, true, false, Bool, List, [], ◌∷◌, ◌++◌,
  Option, none, some, arith, inl, inr, if◌then◌else◌,
}
use consul_ecs.Entrypoint.Signals.{sigterm, sigchld, sigurg, other, Sent, has_sigterm}
use consul_ecs.Entrypoint.App.{
  AppEvent, app_done, signal, timer, AppPhase, for_sigterm, for_delay, after_delay, for_exit, ended,
  after_sigterm, forward_signal, app_step, app_run,
}

-- The code of the first exit.
abbrev pub first_exit : List AppEvent → Option ℤ
first_exit [] = none
first_exit (app_done code ∷ es) = some code
first_exit (_ ∷ es) = first_exit es

abbrev pub exit_of : AppPhase → Option ℤ
exit_of (ended code) = some code
exit_of _ = none

abbrev pub has_timer : List AppEvent → Bool
has_timer [] = false
has_timer (timer ∷ es) = true
has_timer (_ ∷ es) = has_timer es

-- How often SIGTERM arrives.
abbrev pub sigterms : List AppEvent → ℕ
sigterms [] = 0
sigterms (signal sigterm ∷ es) = suc (sigterms es)
sigterms (_ ∷ es) = sigterms es

ended_stays :
    (delay : ℕ) (code : ℤ) (sent : List Sent) (es : List AppEvent)
    → app_run delay (ended code) sent es ≡ record { phase = ended code; sent = sent }
unfolding app_run app_step
ended_stays delay code sent [] = refl
ended_stays delay code sent (e ∷ es) = ended_stays delay code sent es

app_run_exit :
    (delay : ℕ) (es : List AppEvent) (phase : AppPhase) (sent : List Sent)
    → exit_of phase ≡ none
    → exit_of (app_run delay phase sent es).phase ≡ first_exit es
unfolding app_run app_step
app_run_exit delay [] phase sent live = live
app_run_exit delay (app_done code ∷ es) for_sigterm sent live =
    rw (ended_stays delay code sent es) refl
app_run_exit delay (app_done code ∷ es) for_delay sent live =
    rw (ended_stays delay code sent es) refl
app_run_exit delay (app_done code ∷ es) after_delay sent live =
    rw (ended_stays delay code sent es) refl
app_run_exit delay (app_done code ∷ es) for_exit sent live =
    rw (ended_stays delay code sent es) refl
app_run_exit delay (e ∷ es) (ended code) sent live = cc
app_run_exit delay (timer ∷ es) for_sigterm sent live = app_run_exit delay es for_sigterm sent refl
app_run_exit delay (timer ∷ es) for_delay sent live = app_run_exit delay es after_delay _ refl
app_run_exit delay (timer ∷ es) after_delay sent live = app_run_exit delay es after_delay sent refl
app_run_exit delay (timer ∷ es) for_exit sent live = app_run_exit delay es for_exit sent refl
app_run_exit delay (signal sigterm ∷ es) for_sigterm sent live =
    app_run_exit delay es (after_sigterm delay) sent (ground arith)
app_run_exit delay (signal sigchld ∷ es) for_sigterm sent live =
    app_run_exit delay es for_sigterm _ refl
app_run_exit delay (signal sigurg ∷ es) for_sigterm sent live =
    app_run_exit delay es for_sigterm _ refl
app_run_exit delay (signal (other n) ∷ es) for_sigterm sent live =
    app_run_exit delay es for_sigterm _ refl
app_run_exit delay (signal s ∷ es) for_delay sent live = app_run_exit delay es for_delay _ refl
app_run_exit delay (signal s ∷ es) after_delay sent live = app_run_exit delay es after_delay _ refl
app_run_exit delay (signal s ∷ es) for_exit sent live = app_run_exit delay es for_exit _ refl

-- The entry point ends exactly when the application exits, in whatever phase, and with its code.
pub app_run-first_exit :
    (delay : ℕ) (es : List AppEvent)
    → exit_of (app_run delay for_sigterm [] es).phase ≡ first_exit es
app_run-first_exit delay es = app_run_exit delay es for_sigterm [] refl

-- No SIGTERM has been sent in a phase that has one yet to come, or none.
abbrev IsEarly : ℕ → ℕ → AppPhase → Type 0
IsEarly delay n for_sigterm = n ≤ 1
IsEarly delay n for_delay = (n ≡ 0) × (0 < delay)
IsEarly delay n for_exit = n ≡ 0
IsEarly delay n after_delay = ⊥
IsEarly delay n (ended code) = Unit

early_run :
    (delay : ℕ) (es : List AppEvent) (phase : AppPhase) (sent : List Sent)
    → (delay ≡ 0) ⊎ (has_timer es ≡ false)
    → IsEarly delay (sigterms es) phase
    → has_sigterm sent ≡ false
    → has_sigterm (app_run delay phase sent es).sent ≡ false
unfolding app_run app_step forward_signal
early_run delay [] phase sent idle early unsent = unsent
early_run delay (e ∷ es) (ended code) sent idle early unsent =
    rw (ended_stays delay code sent es) unsent
early_run delay (e ∷ es) after_delay sent idle early unsent = absurd early
early_run delay (app_done code ∷ es) for_sigterm sent idle early unsent =
    rw (ended_stays delay code sent es) unsent
early_run delay (app_done code ∷ es) for_delay sent idle early unsent =
    rw (ended_stays delay code sent es) unsent
early_run delay (app_done code ∷ es) for_exit sent idle early unsent =
    rw (ended_stays delay code sent es) unsent
early_run delay (timer ∷ es) for_delay sent idle early unsent = ground arith
early_run delay (timer ∷ es) for_sigterm sent (inl none_left) early unsent =
    early_run delay es for_sigterm sent (inl none_left) early unsent
early_run delay (timer ∷ es) for_sigterm sent (inr no_timer) early unsent = cc
early_run delay (timer ∷ es) for_exit sent (inl none_left) early unsent =
    early_run delay es for_exit sent (inl none_left) early unsent
early_run delay (timer ∷ es) for_exit sent (inr no_timer) early unsent = cc
early_run delay (signal sigterm ∷ es) for_delay sent idle early unsent =
    absurd (omega (arith, early.0))
early_run delay (signal sigterm ∷ es) for_exit sent idle early unsent =
    absurd (omega (arith, early))
early_run delay (signal sigchld ∷ es) for_sigterm sent idle early unsent =
    early_run delay es for_sigterm sent idle early unsent
early_run delay (signal sigchld ∷ es) for_delay sent idle early unsent =
    early_run delay es for_delay sent idle early unsent
early_run delay (signal sigchld ∷ es) for_exit sent idle early unsent =
    early_run delay es for_exit sent idle early unsent
early_run delay (signal sigurg ∷ es) for_sigterm sent idle early unsent =
    early_run delay es for_sigterm sent idle early unsent
early_run delay (signal sigurg ∷ es) for_delay sent idle early unsent =
    early_run delay es for_delay sent idle early unsent
early_run delay (signal sigurg ∷ es) for_exit sent idle early unsent =
    early_run delay es for_exit sent idle early unsent
early_run delay (signal (other n) ∷ es) for_sigterm sent idle early unsent =
    early_run delay es for_sigterm _ idle early unsent
early_run delay (signal (other n) ∷ es) for_delay sent idle early unsent =
    early_run delay es for_delay _ idle early unsent
early_run delay (signal (other n) ∷ es) for_exit sent idle early unsent =
    early_run delay es for_exit _ idle early unsent
early_run delay (signal sigterm ∷ es) for_sigterm sent idle early unsent =
    early_run delay es (after_sigterm delay) sent idle
      (elim (Bool-cases (ltb 0 delay)) [
        | inl e ↦ rw e (omega (arith, early), ground arith)
        | inr e ↦ rw e (omega (arith, early))
      ])
      unsent

-- Where SIGTERM arrives at most once, the application is sent no SIGTERM before the timer of the
-- delay has fired; and where the delay is 0, it is sent none at all.
pub app_run_early :
    (delay : ℕ) (es : List AppEvent)
    → (delay ≡ 0) ⊎ (has_timer es ≡ false)
    → sigterms es ≤ 1
    → has_sigterm (app_run delay for_sigterm [] es).sent ≡ false
app_run_early delay es idle once = early_run delay es for_sigterm [] idle once refl

step-keeps :
    (delay : ℕ) (phase : AppPhase) (sent : List Sent) (e : AppEvent)
    → has_sigterm sent ≡ true
    → has_sigterm (app_step delay phase sent e).sent ≡ true
unfolding app_step forward_signal
step-keeps delay phase sent e h = ground arith

run-keeps :
    (delay : ℕ) (es : List AppEvent) (phase : AppPhase) (sent : List Sent)
    → has_sigterm sent ≡ true
    → has_sigterm (app_run delay phase sent es).sent ≡ true
unfolding app_run
run-keeps delay [] phase sent h = h
run-keeps delay (e ∷ es) phase sent h = run-keeps delay es _ _ (step-keeps delay phase sent e h)

delay_sends :
    (delay : ℕ) (es : List AppEvent) (sent : List Sent)
    → first_exit es ≡ none
    → has_timer es ≡ true
    → has_sigterm (app_run delay for_delay sent es).sent ≡ true
unfolding app_run app_step forward_signal
delay_sends delay [] sent alive fires = cc
delay_sends delay (app_done code ∷ es) sent alive fires = cc
delay_sends delay (timer ∷ es) sent alive fires = run-keeps delay es after_delay _ refl
delay_sends delay (signal s ∷ es) sent alive fires = delay_sends delay es _ alive fires

waits_for_first :
    (delay : ℕ) (before es : List AppEvent) (sent : List Sent)
    → first_exit before ≡ none
    → sigterms before ≡ 0
    → (sent' : List Sent) × (app_run delay for_sigterm sent (before ++ es)
        ≡ app_run delay for_sigterm sent' es)
unfolding app_run app_step
waits_for_first delay [] es sent alive unsent = (sent, refl)
waits_for_first delay (app_done code ∷ before) es sent alive unsent = cc
waits_for_first delay (timer ∷ before) es sent alive unsent =
    waits_for_first delay before es sent alive unsent
waits_for_first delay (signal sigterm ∷ before) es sent alive unsent =
    absurd (omega (arith, unsent))
waits_for_first delay (signal sigchld ∷ before) es sent alive unsent =
    waits_for_first delay before es _ alive unsent
waits_for_first delay (signal sigurg ∷ before) es sent alive unsent =
    waits_for_first delay before es _ alive unsent
waits_for_first delay (signal (other n) ∷ before) es sent alive unsent =
    waits_for_first delay before es _ alive unsent

-- Where there is a delay and the application does not exit by itself, SIGTERM is sent to it once the
-- timer has fired after the first SIGTERM, whatever other signals come before it and whatever signals
-- come between it and the timer.
pub app_run_delayed :
    (delay : ℕ) (before es : List AppEvent)
    → 0 < delay
    → first_exit before ≡ none
    → sigterms before ≡ 0
    → first_exit es ≡ none
    → has_timer es ≡ true
    → has_sigterm (app_run delay for_sigterm [] (before ++ signal sigterm ∷ es)).sent ≡ true
unfolding app_run app_step
app_run_delayed delay before es positive waiting first alive fires =
    let set : ltb 0 delay ≡ true = ground arith in
    let (sent, same) = waits_for_first delay before (signal sigterm ∷ es) [] waiting first in
    rw same (
      subst
        (λ b. has_sigterm (app_run delay (if b then for_delay else for_exit) sent es).sent ≡ true)
        (sym set) (delay_sends delay es sent alive fires))
