-- ===== src/Tests/Library.antt =====
-- src/task_client.cpp at a concrete connection.
use task_monitor.Base.{◌≡◌, refl, ℕ, ℤ, List, [], ◌∷◌, ◌++◌, true, false, none, some, ◌+◌, pos}
use task_monitor.ListApi.{ListApi}
use task_monitor.Json.{Json}
use task_monitor.Sys.{
  SysCall, connect_later, close, destroy_io, stop_timer, open_socket, connect, set_nonblock,
  watch_io, restart_timer, is_positive,
}
use task_monitor.Sys.Descriptors.{opens, closes}
use task_monitor.Client.{MsgRequest, MsgClient, node_of, msg_client}
use task_monitor.Client.Requests.{send_req_hearbeat}
use task_monitor.TaskObjClient.{closed, interrupted, failed}
use task_monitor.TaskClient.{TaskClient, Answers, client_readio_cb, connect_server_event_cb}
use task_monitor.TaskClient.Reading.{retries, client_readio_cb-retries}
use task_monitor.TaskClient.Connecting.{held, IsWhole}
use task_monitor.TaskClient.Events.{Event, connects, reads, run_event, run_events, run_events-keeps}
use task_monitor.Tests.Instances.{obj, end, tree_json, byte_ring, plain_list}

abbrev js : Json
js = tree_json (obj end)

abbrev requests : ListApi (MsgRequest js ℕ)
requests = plain_list (node_of js ℕ)

abbrev Global : Type 0
Global = TaskClient js ℕ byte_ring requests 77

abbrev client : MsgClient js ℕ byte_ring requests
client = record {
  ring = [];
  client_fd = record { answers = []; sent = [] };
  request_list = [];
  cur_req_id = 3;
  calls = [];
  timers = [];
}

abbrev connected : Global
connected = record {
  client_fd = pos 9;
  client_io = some 4;
  msg_client = some client;
  heartbeat_timer = 6;
  heartbeat_timeout = pos 5;
}

client_readio_cb-retries_example :
    let errors = failed ∷ interrupted ∷ failed ∷ [] in
    (client_readio_cb js ℕ byte_ring requests 77 errors true connected ≡ none)
    × (client_readio_cb js ℕ byte_ring requests 77 (errors ++ closed ∷ []) true connected
        ≡ some (connected, retries errors))
client_readio_cb-retries_example =
    client_readio_cb-retries js ℕ byte_ring requests 77 (failed ∷ interrupted ∷ failed ∷ []) [] true
      connected client refl refl

-- A socket that cannot be watched.
abbrev unwatched : Answers js ℕ byte_ring requests 77
unwatched = record {
  fd = pos 10;
  connected = pos 0;
  peer = record { answers = []; sent = [] };
  garbage = 0;
  io = none;
  grant = record { node = none; timer = none; now = pos 1 };
  alloc = λ n. true;
  my_pid = pos 42;
}

-- One that is greeted, but has no memory for the request.
abbrev good : Answers js ℕ byte_ring requests 77
good = record unwatched { fd = pos 11; io = some 5; alloc = λ n. false }

abbrev events : List (Event js ℕ byte_ring requests 77)
events = reads (interrupted ∷ closed ∷ []) true ∷ connects unwatched ∷ connects good ∷ []

abbrev later : Global
later = record {
  client_fd = pos 11;
  client_io = some 5;
  msg_client = some (record client { cur_req_id = 0 });
  heartbeat_timer = 6;
  heartbeat_timeout = pos 5;
}

abbrev calls : List SysCall
calls =
    connect_later
    ∷ close (pos 9)
    ∷ destroy_io 4
    ∷ stop_timer 6
    ∷ open_socket (pos 10)
    ∷ connect (pos 10)
    ∷ set_nonblock (pos 10)
    ∷ watch_io (pos 10)
    ∷ close (pos 10)
    ∷ connect_later
    ∷ stop_timer 6
    ∷ open_socket (pos 11)
    ∷ connect (pos 11)
    ∷ set_nonblock (pos 11)
    ∷ watch_io (pos 11)
    ∷ restart_timer (some 6)
    ∷ []

runs : run_events js ℕ byte_ring requests 77 events connected ≡ some (later, calls)
unfolding run_events run_event client_readio_cb connect_server_event_cb msg_client send_req_hearbeat
runs = refl

run_events-keeps_example :
    ((d : ℤ)
      → is_positive d ≡ true
      → opens d calls + held js ℕ byte_ring requests 77 d connected
        ≡ closes d calls + held js ℕ byte_ring requests 77 d later)
    × IsWhole js ℕ byte_ring requests 77 later
run_events-keeps_example =
    run_events-keeps js ℕ byte_ring requests 77 events connected later calls (refl, refl) runs
