-- ===== src/Tests/Listening.antt =====
-- TaskServer at concrete answers of the system.
use task_monitor.Base.{◌≡◌, refl, ℤ, List, [], ◌∷◌, ◌++◌, true, false, none, some, pos, fail_code}
use task_monitor.Json.{codes}
use task_monitor.Sys.{SysCall, accept, close, set_nonblock, watch_io, pid_eq, one_if}
use task_monitor.NewClient.{NewClient}
use task_monitor.Sys.Descriptors.{closes}
use task_monitor.Core.{Core, recv_client_connect}
use task_monitor.TaskServer.{TaskServer, Answers, task_server, server_read_io_cb}
use task_monitor.TaskServer.Sockets.{Method, stop, restart}
use task_monitor.TaskServer.Accepting.{server_read_io_cb-closes}

abbrev fresh : TaskServer
fresh = task_server (codes "/tmp/s")

abbrev good : Answers
good = record { fd = pos 7; bound = pos 0; listening = pos 0; io = some 3 }

abbrev unwatched : Answers
unwatched = record { fd = pos 8; bound = pos 0; listening = pos 0; io = none }

-- A start that works, one whose watch fails, and a stop.
abbrev methods : List Method
methods = restart good ∷ restart unwatched ∷ stop ∷ restart good ∷ []

abbrev empty_core : Core
empty_core = record {
  task_list = [];
  task_count = 0;
  cli_list = [];
  clilist_timer = none;
  sys = [];
}

abbrev made : NewClient
made = record { address = 1; old_io = none; watch = pos 0; memory = true }

-- No task has the peer's pid: a client of its own is made for the connection.
abbrev later : Core
later = record empty_core {
  cli_list =
      record { client_fd = fail_code; pid = pos 42; is_available = true; freed = false } ∷ [];
  sys = accept (pos 9) ∷ close (pos 9) ∷ set_nonblock (pos 9) ∷ watch_io (pos 9) ∷ [];
}

server_read_io_cb-closes_example :
    (calls : List SysCall) × (later.sys ≡ [] ++ accept (pos 9) ∷ calls)
    × ((d : ℤ) → closes d calls ≡ one_if (pid_eq (pos 9) d))
unfolding server_read_io_cb recv_client_connect
server_read_io_cb-closes_example =
    server_read_io_cb-closes (pos 9) (some (pos 42)) made empty_core later refl refl
