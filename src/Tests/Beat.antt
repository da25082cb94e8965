-- ===== src/Tests/Beat.antt =====
-- A heartbeat of process 42, with both ends of the protocol concrete.
use task_monitor.Base.{ℕ, ◌≡◌, refl, [], ◌∷◌, ◌++◌, none, some, true, arith, pos}
use task_monitor.Package.Frame.{frame}
use task_monitor.ListApi.{ListApi}
use task_monitor.Json.{Json, codes, same_name}
use task_monitor.Msg.{EventErr, err_code, HeartbeatRsp}
use task_monitor.Server.{MsgServer}
use task_monitor.Client.{MsgRequest, MsgClient, Grant, Call, node_of, null}
use task_monitor.Client.Requests.{heartbeat_request}
use task_monitor.Client.Sending.{CanSend}
use task_monitor.Exchange.Hearing.{CanHear}
use task_monitor.Exchange.Refused.{CanRefuse}
use task_monitor.TaskObjClient.{TaskObjClient, got, closed, task_read_io_cb}
use task_monitor.TaskClient.{TaskClient, heartbeat_req_cb, heartbeat_timer_cb, client_readio_cb}
use task_monitor.TaskClient.Beating.{Readable, heartbeat_timer_cb-lost}
use task_monitor.Tests.Instances.{
  Tree, num, obj, end, field, talk_json, talk_json-IsJson, byte_ring, byte_ring-IsRing, plain_list,
  plain_list-IsListApi,
}
use task_monitor.Tests.Serving.{steady_answers, memory}

abbrev asked : Tree
asked = obj (
    field (codes "type") (num (pos 0)) (
      field (codes "data")
        (obj (field (codes "pid") (num (pos 42)) (field (codes "heartbeat") (num (pos 5)) end)))
        end))

abbrev answered : Tree
answered = obj (field (codes "ret") (num (pos 5)) end)

abbrev js : Json
js = talk_json asked answered

abbrev requests : ListApi (MsgRequest js ℕ)
requests = plain_list (node_of js ℕ)

abbrev client : MsgClient js ℕ byte_ring requests
client = record {
  ring = [];
  client_fd = record { answers = steady_answers 40; sent = [] };
  request_list = [];
  cur_req_id = 3;
  calls = [];
  timers = [];
}

abbrev library : TaskClient js ℕ byte_ring requests 77
library = record {
  client_fd = pos 9;
  client_io = some 4;
  msg_client = some client;
  heartbeat_timer = 6;
  heartbeat_timeout = pos 5;
}

abbrev grant : Grant js ℕ byte_ring requests
grant = record { node = some 300; timer = some 400; now = pos 1 }

-- The state of the program is a number here, and a heartbeat that came through would raise it.
abbrev server : MsgServer js byte_ring ℕ ℕ
server = record {
  ring = [];
  client_fd = record { answers = steady_answers 40; sent = [] };
  event_cb = record {
    heartbeat = some (λ q u w. (EventErr.succ, none, 1));
    query_all = none;
    query_task = none;
    task_action = none;
  };
  user_data = record { heartbeat = 0; query_all = 0; query_task = 0; task_action = 0 };
}

abbrev connection : TaskObjClient js byte_ring ℕ ℕ
connection = record {
  client_fd = pos 9;
  pid = pos 42;
  read_io = some 3;
  msg_server = some server;
  is_available = true;
}

can_send : CanSend js ℕ byte_ring requests client grant (codes "q") 300 400
can_send = record {
  node_given = refl;
  timer_given = refl;
  progress = omega arith;
  enough = omega arith;
  short = omega arith;
  timed = refl;
}

can_refuse :
    CanRefuse js
      (talk_json-IsJson asked answered)
      byte_ring
      byte_ring-IsRing
      ℕ
      ℕ
      server
      memory
      (frame 4 (codes "q" ++ 0 ∷ []))
unfolding err_code same_name
can_refuse = record {
  memory = λ n. refl;
  package_memory = refl;
  nothing_left = refl;
  room_left = refl;
  progress = omega arith;
  enough = omega arith;
  short = omega arith;
}

can_hear :
    CanHear js ℕ byte_ring byte_ring-IsRing requests
      (plain_list-IsListApi (node_of js ℕ))
      client
      (frame 4 (codes "a" ++ 0 ∷ []))
can_hear = record { nothing_left = refl; room_left = refl }

readable :
    Readable js
      (talk_json-IsJson asked answered)
      byte_ring
      byte_ring-IsRing
      ℕ
      ℕ
      ℕ
      requests
      (plain_list-IsListApi (node_of js ℕ))
      77
      (pos 42)
      (pos 5)
unfolding heartbeat_request err_code same_name
readable = record { request = refl; reply = refl; request_short = omega arith }

heartbeat_timer_cb-lost_example :
    let beat = frame 4 (codes "q" ++ 0 ∷ []) in
    let answer = frame 4 (codes "a" ++ 0 ∷ []) in
    let call : Call js ℕ = record { cb = 77; ret = pos 5; rsp = null } in
    (c1 : MsgClient js ℕ byte_ring requests) × (s1 : MsgServer js byte_ring ℕ ℕ) × (c2 : MsgClient
      js ℕ byte_ring requests)
    × (heartbeat_timer_cb js ℕ byte_ring requests 77 grant (λ n. true) (pos 42) library
        ≡ some (record library { msg_client = some c1 }))
    × (c1.client_fd.sent ≡ [] ++ beat)
    × (task_read_io_cb js byte_ring ℕ ℕ (got beat ∷ []) memory connection 0
        ≡ some ((record connection { msg_server = some s1 }, []), 0))
    × (s1.client_fd.sent ≡ [] ++ answer)
    × (client_readio_cb js ℕ byte_ring requests 77
          (got answer ∷ closed ∷ [])
          true
          (record library { msg_client = some c1 })
        ≡ some (record library { msg_client = some c2 }, []))
    × (c2.calls ≡ [] ++ call ∷ [])
    × ((rsp : HeartbeatRsp js) (now : TaskClient js ℕ byte_ring requests 77)
        → heartbeat_req_cb js ℕ byte_ring requests 77 (pos 5) rsp now ≡ (now, none))
unfolding heartbeat_request err_code same_name
heartbeat_timer_cb-lost_example =
    heartbeat_timer_cb-lost js (talk_json-IsJson asked answered) byte_ring byte_ring-IsRing ℕ ℕ ℕ
      requests (plain_list-IsListApi (node_of js ℕ)) 77 library client grant (λ n. true) (pos 42)
      connection server memory 0 300 400 [] (closed ∷ []) refl refl (λ n. refl) can_send can_refuse
      can_hear readable
