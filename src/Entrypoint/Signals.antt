-- ===== src/Entrypoint/Signals.antt =====
-- Signals, and what the entry points send to the process that they run.
use consul_ecs.Base.{ℕ, List, [], ◌∷◌, Bool, true, false, ◌||◌}

-- `os.Signal`, by the cases that the code tells apart.
pub data Signal : Type 0 where
  sigterm sigchld sigurg : Signal
  other : ℕ → Signal

-- `Process.Signal(sig)`, and `syscall.Kill(-pid, sig)` to the process group.
pub data Sent : Type 0 where
  to_process to_group : Signal → Sent

abbrev pub is_sigterm : Sent → Bool
is_sigterm (to_process sigterm) = true
is_sigterm (to_group sigterm) = true
is_sigterm _ = false

-- Some SIGTERM was sent.
abbrev pub has_sigterm : List Sent → Bool
has_sigterm [] = false
has_sigterm (s ∷ sent) = is_sigterm s || has_sigterm sent
