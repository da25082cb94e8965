-- ===== src/Tests/Command.antt =====
-- A restart of pid 42 from the command line, with both ends of the protocol concrete.
use task_monitor.Base.{
  ℕ, ◌+◌, ◌≡◌, refl, [], ◌∷◌, ◌++◌, none, some, true, false, arith, pos, ok_code,
}
use task_monitor.Package.Frame.{frame}
use task_monitor.ListApi.{ListApi}
use task_monitor.Json.{Json, codes, same_name}
use task_monitor.Msg.{EventErr, err_code}
use task_monitor.Server.{MsgServer}
use task_monitor.Server.Dispatch
use task_monitor.Client.{MsgRequest, MsgClient, Grant, Call, node_of, null}
use task_monitor.Client.Requests.{action_request}
use task_monitor.Client.Receive
use task_monitor.Client.Sending.{CanSend}
use task_monitor.Exchange.Hearing.{CanHear}
use task_monitor.Exchange.Refused.{CanRefuse}
use task_monitor.TaskCli.{CliCb, wild, MsgData, send_command}
use task_monitor.TaskCli.Dispatching.{Readable, send_command-never_acts}
use task_monitor.Tests.Instances.{
  Tree, num, obj, end, field, talk_json, talk_json-IsJson, byte_ring, byte_ring-IsRing, plain_list,
  plain_list-IsListApi,
}
use task_monitor.Tests.Serving.{steady_answers, memory}

abbrev asked : Tree
asked = obj (
    field (codes "type") (num (pos 3)) (
      field (codes "data")
        (obj (field (codes "pid") (num (pos 42)) (field (codes "action") (num (pos 3)) end))) end))

abbrev answered : Tree
answered = obj (field (codes "ret") (num (pos 5)) end)

abbrev js : Json
js = talk_json asked answered

abbrev requests : ListApi (MsgRequest js CliCb)
requests = plain_list (node_of js CliCb)

abbrev client : MsgClient js CliCb byte_ring requests
client = record {
  ring = [];
  client_fd = record { answers = steady_answers 40; sent = [] };
  request_list = [];
  cur_req_id = 3;
  calls = [];
  timers = [];
}

abbrev grant : Grant js CliCb byte_ring requests
grant = record { node = some 300; timer = some 400; now = pos 1 }

-- The state of the program is a number here.
abbrev server : MsgServer js byte_ring ℕ ℕ
server = record {
  ring = [];
  client_fd = record { answers = steady_answers 40; sent = [] };
  event_cb = record {
    heartbeat = none;
    query_all = none;
    query_task = none;
    task_action = some (λ q u w. (EventErr.succ, none, w + 1));
  };
  user_data = record { heartbeat = 0; query_all = 0; query_task = 0; task_action = 0 };
}

-- task_cli -p 42 -a restart
abbrev restart_42 : MsgData
restart_42 = record { is_list = false; pid = pos 42; name = []; action = 3 }

can_send : CanSend js CliCb byte_ring requests client grant (codes "q") 300 400
can_send = record {
  node_given = refl;
  timer_given = refl;
  progress = omega arith;
  enough = omega arith;
  short = omega arith;
  timed = refl;
}

can_refuse :
    CanRefuse js
      (talk_json-IsJson asked answered)
      byte_ring
      byte_ring-IsRing
      ℕ
      ℕ
      server
      memory
      (frame 4 (codes "q" ++ 0 ∷ []))
unfolding err_code same_name
can_refuse = record {
  memory = λ n. refl;
  package_memory = refl;
  nothing_left = refl;
  room_left = refl;
  progress = omega arith;
  enough = omega arith;
  short = omega arith;
}

can_hear :
    CanHear js CliCb byte_ring byte_ring-IsRing requests
      (plain_list-IsListApi (node_of js CliCb))
      client
      (frame 4 (codes "a" ++ 0 ∷ []))
can_hear = record { nothing_left = refl; room_left = refl }

readable :
    Readable js
      (talk_json-IsJson asked answered)
      byte_ring
      byte_ring-IsRing
      ℕ
      ℕ
      requests
      (plain_list-IsListApi (node_of js CliCb))
      (pos 42)
      3
unfolding action_request err_code same_name
readable = record { request = refl; reply = refl; request_short = omega arith }

send_command-never_acts_example :
    let wire = frame 4 (codes "q" ++ 0 ∷ []) in
    let wire' = frame 4 (codes "a" ++ 0 ∷ []) in
    let call : Call js CliCb = record { cb = wild 3; ret = pos 5; rsp = null } in
    (c1 : MsgClient js CliCb byte_ring requests) × (s1 : MsgServer js byte_ring ℕ ℕ)
    × (c2 : MsgClient js CliCb byte_ring requests) × (send_command js byte_ring requests grant
          (λ n. true)
          (pos 42)
          restart_42
          client
        ≡ some (ok_code, c1))
    × (c1.client_fd.sent ≡ [] ++ wire)
    × (Dispatch.recv_data js byte_ring ℕ ℕ server memory wire 0 ≡ some (ok_code, s1, 0))
    × (s1.client_fd.sent ≡ [] ++ wire')
    × (Receive.recv_data js CliCb byte_ring requests c1 true wire' ≡ (ok_code, c2))
    × (c2.calls ≡ [] ++ call ∷ [])
unfolding action_request err_code same_name
send_command-never_acts_example =
    send_command-never_acts js (talk_json-IsJson asked answered) byte_ring byte_ring-IsRing ℕ ℕ
      requests (plain_list-IsListApi (node_of js CliCb)) client grant (λ n. true) server memory 0
      (pos 42) restart_42 300 400 refl (omega arith) (λ n. refl) can_send can_refuse can_hear
      readable
