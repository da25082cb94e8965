-- ===== src/Tests/Connecting.antt =====
-- TaskObjClient at a concrete connection.
use task_monitor.Base.{
  ◌≡◌, refl, ℕ, ℤ, List, [], ◌∷◌, true, false, none, some, ◌+◌, pos, fail_code, is_zero,
}
use task_monitor.Msg.{EventErr}
use task_monitor.Sys.{is_positive, close, destroy_io, set_nonblock, watch_io}
use task_monitor.Server.{MsgServer, UserData, msg_server}
use task_monitor.Server.Dispatch.{Memory}
use task_monitor.Package.{get_available_package}
use task_monitor.TaskObjClient.{
  TaskObjClient, ReadAnswer, closed, interrupted, got, Callbacks, task_obj_client, register_all,
  task_read_io_cb,
}
use task_monitor.Sys.Descriptors.{closes}
use task_monitor.TaskObjClient.Closing.{held, IsLive, run_reads, run_reads-closes_once}
use task_monitor.TaskObjClient.Serving.{task_obj_client-closes_fd}
use task_monitor.Tests.Instances.{byte_ring}
use task_monitor.Tests.Serving.{js, server, memory}

abbrev Client : Type 0
Client = TaskObjClient js byte_ring ℕ ℕ

abbrev connected : Client
connected = record {
  client_fd = pos 9;
  pid = pos 42;
  read_io = some 3;
  msg_server = some server;
  is_available = true;
}

-- A part of a request, which is kept, and then the end of the connection.
abbrev reads : List (List ReadAnswer × Memory)
reads = (interrupted ∷ got (0 ∷ 0 ∷ []) ∷ [], memory) ∷ (closed ∷ [], memory) ∷ []

abbrev done : Client
done = record {
  client_fd = fail_code;
  pid = pos 42;
  read_io = none;
  msg_server = none;
  is_available = false;
}

runs :
    run_reads js byte_ring ℕ ℕ reads connected 0
    ≡ some ((done, destroy_io 3 ∷ close (pos 9) ∷ []), 0)
unfolding run_reads task_read_io_cb get_available_package
runs = refl

connected-IsLive : IsLive js byte_ring ℕ ℕ connected
connected-IsLive = (refl, λ h. cc)

run_reads-closes_once_example :
    ((d : ℤ)
      → is_positive d ≡ true
      → closes d (destroy_io 3 ∷ close (pos 9) ∷ []) + held js byte_ring ℕ ℕ d done
        ≡ held js byte_ring ℕ ℕ d connected)
    × IsLive js byte_ring ℕ ℕ done
run_reads-closes_once_example =
    run_reads-closes_once js byte_ring ℕ ℕ reads connected done (destroy_io 3 ∷ close (pos 9) ∷ [])
      0 0 connected-IsLive runs

abbrev cbs : Callbacks js byte_ring ℕ ℕ
cbs = record {
  heartbeat = λ q u w. (EventErr.fail, none, w);
  query_all = λ q u w. (EventErr.succ, some (record { count = 0; task_list = [] }), w);
  query_task = λ q u w. (EventErr.not_found, none, w);
  task_action = λ q u w. (EventErr.succ, none, w);
}

abbrev garbage : UserData js byte_ring ℕ ℕ
garbage = server.user_data

abbrev fresh : MsgServer js byte_ring ℕ ℕ
fresh = record {
  ring = [];
  client_fd = server.client_fd;
  event_cb = record { heartbeat = none; query_all = none; query_task = none; task_action = none };
  user_data = garbage;
}

made : msg_server js byte_ring ℕ ℕ server.client_fd garbage ≡ some fresh
unfolding msg_server
made = refl

task_obj_client-closes_fd_example :
    (is_zero (pos 0) ≡ false
      → task_obj_client js byte_ring ℕ ℕ done cbs 5
          (pos 0)
          server.client_fd
          garbage
          (pos 9)
          (pos 42)
        ≡ none)
    × (is_zero (pos 0) ≡ true
        → task_obj_client js byte_ring ℕ ℕ done cbs 5
            (pos 0)
            server.client_fd
            garbage
            (pos 9)
            (pos 42)
          ≡ some (
            record {
              client_fd = fail_code;
              pid = pos 42;
              read_io = none;
              msg_server = some (register_all js byte_ring ℕ ℕ cbs 5 fresh);
              is_available = true;
            },
            close (pos 9) ∷ set_nonblock (pos 9) ∷ watch_io (pos 9) ∷ [],
          ))
task_obj_client-closes_fd_example =
    task_obj_client-closes_fd js byte_ring ℕ ℕ done cbs 5 (pos 0) server.client_fd garbage (pos 9)
      (pos 42) fresh refl refl made
