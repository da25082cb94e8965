-- ===== src/Sys.antt =====
-- The calls of the system and of libev_api that src/TaskObj.cpp, src/TaskObjClient.cpp,
-- src/TaskServer.cpp, src/task_client.cpp, src/task_cli.cpp and src/task_core.cpp make, as a record
-- of what was done. What a call answers is an argument of the
-- operation that makes it. A destroy function of libev_api is given the address of a handle, and
-- clears it.
pub mod Descriptors
use task_monitor.Base.{ℕ, Option, List, ℤ, pos, negsuc, Bool, true, false, ltb, ◌==◌}

pub data SysCall : Type 0 where
  -- fork, with the pid that it gives in the parent. The child runs `sh -c`; the text of its command
  -- is read from a string that was destroyed before, so it is nothing that can be told.
  fork_sh : ℤ → SysCall
  -- kill with SIGKILL; waitpid
  kill wait : ℤ → SysCall
  -- These two are given the handle as it is, set or not.
  start_timer restart_timer : Option ℕ → SysCall
  stop_timer destroy_timer : ℕ → SysCall
  watch_io : ℤ → SysCall
  destroy_io : ℕ → SysCall
  set_nonblock close : ℤ → SysCall
  -- A descriptor that `socket` gave, one that `accept` gave; the calls on a socket.
  open_socket accept bind listen connect : ℤ → SysCall
  -- libev_api_send_event_delay with the event that connects again
  connect_later : SysCall
  -- The deletion of a TaskObjClient, by its address.
  delete_client : ℕ → SysCall

-- `fd > 0`
abbrev pub is_positive : ℤ → Bool
is_positive (pos n) = ltb 0 n
is_positive (negsuc n) = false

-- `==` on pids and descriptors
abbrev pub pid_eq : ℤ → ℤ → Bool
pid_eq (pos m) (pos n) = m == n
pid_eq (negsuc m) (negsuc n) = m == n
pid_eq _ _ = false

-- 1 for a call that concerns the process or the descriptor that is counted.
abbrev pub one_if : Bool → ℕ
one_if true = 1
one_if false = 0
