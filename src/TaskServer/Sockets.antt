-- ===== src/TaskServer/Sockets.antt =====
-- The descriptors of a TaskServer over its life, src/TaskServer.cpp.
use task_monitor.Base.{
  ℕ, ◌+◌, ◌≡◌, List, [], ◌∷◌, ◌++◌, Bool, true, false, ◌⊎◌, none, some, ℤ, ok_code, fail_code,
}
use task_monitor.Sys.{SysCall, is_positive, pid_eq, one_if}
use task_monitor.TaskServer.{TaskServer, Answers, stop_server, restart_server}
use task_monitor.Sys.Descriptors.{opens, closes}

abbrev pub is_watched : TaskServer → Bool
is_watched s = elim s.server_io [ none ↦ false | some io ↦ true ]

-- How a start ends: with 0, and the socket of this start is held and watched, or with -1, and no
-- socket above 0 is held and none watched.
abbrev pub Ended : Answers → ℤ × TaskServer × List SysCall → Type 0
Ended a (ret, s, calls) =
    ((ret ≡ ok_code) × (s.server_fd ≡ a.fd) × (is_watched s ≡ true))
    ⊎ ((ret ≡ fail_code) × (is_positive s.server_fd ≡ false) × (is_watched s ≡ false))

-- A server that was stopped.
abbrev IsStopped : TaskServer → Type 0
IsStopped s = (is_positive s.server_fd ≡ false) × (is_watched s ≡ false)

-- A stop, or a restart with what the system answers to it.
pub data Method : Type 0 where
  stop : Method
  restart : Answers → Method

unfoldable pub run_methods : List Method → TaskServer → TaskServer × List SysCall
run_methods [] s = (s, [])
run_methods (stop ∷ ms) s =
    let (_, s', calls) = stop_server s in
    let (s'', calls') = run_methods ms s' in (s'', calls ++ calls')
run_methods (restart a ∷ ms) s =
    let (_, s', calls) = restart_server a s in
    let (s'', calls') = run_methods ms s' in (s'', calls ++ calls')

module _ (d : ℤ) where
  -- Whether the server has the descriptor.
  abbrev pub held : TaskServer → ℕ
  held s = one_if (pid_eq s.server_fd d)

  -- What an operation does with the descriptor: it is not lost, and not closed while it is held.
  abbrev Keeps : TaskServer → TaskServer × List SysCall → Type 0
  Keeps s (s', calls) = opens d calls + held s ≡ closes d calls + held s'
