-- ===== src/Tests/Typing.antt =====
-- The data of a callback at a concrete query.
use task_monitor.Base.{ℕ, ◌+ℤ◌, to_u32, ◌≡◌, refl, [], ◌∷◌, some, true, arith, pos, ok_code}
use task_monitor.ListApi.{ListApi}
use task_monitor.Package.{get_available_package, htonl, payload}
use task_monitor.Package.Frame.{frame}
use task_monitor.Socket.{room, write_socket}
use task_monitor.Json.{Json, codes, same_name}
use task_monitor.Msg.{EventType}
use task_monitor.Send.{send_frame}
use task_monitor.Client.{
  MsgRequest, node_of, MsgClient, Grant, detail_rsp, send_request, create_timer, start_timer,
  drop_request,
}
use task_monitor.Client.Responses.{process_rsp_data, parse_detail_rsp}
use task_monitor.Client.Receive.{find_request, respond, recv_data}
use task_monitor.Client.Lifecycle.{here, next, sends, receives}
use task_monitor.Client.Typing.{AllSuit}
use task_monitor.Client.Typed.{Reach-AllSuit}
use task_monitor.Tests.Instances.{
  Tree, num, str, obj, end, field, tree_json, byte_ring, plain_list, plain_list-IsListApi,
}

abbrev details : Tree
details = obj (
    field (codes "ret") (num (pos 0)) (
      field (codes "data")
        (obj (
          field (codes "pid") (num (pos 42)) (
            field (codes "name") (str (codes "b")) (
              field (codes "param") (str []) (
                field (codes "status") (str (codes "running"))
                  (field (codes "heartbeat") (num (pos 0)) end))))))
        end))

abbrev js : Json
js = tree_json details

abbrev requests : ListApi (MsgRequest js ℕ)
requests = plain_list (node_of js ℕ)

-- The callback 77 is written for queries for one task.
abbrev kind : ℕ → EventType
kind cb = EventType.query_task

abbrev start : MsgClient js ℕ byte_ring requests
start = record {
  ring = [];
  client_fd = record { answers = room 9 ∷ room 9 ∷ room 9 ∷ []; sent = [] };
  request_list = [];
  cur_req_id = 4;
  calls = [];
  timers = [];
}

abbrev grant : Grant js ℕ byte_ring requests
grant = record { node = some 300; timer = some 400; now = pos 1 }

abbrev asking : MsgClient js ℕ byte_ring requests
asking = record start {
  client_fd = record { answers = []; sent = 0 ∷ 0 ∷ 0 ∷ 5 ∷ 0 ∷ 0 ∷ 0 ∷ 1 ∷ 65 ∷ [] };
  request_list =
      record {
        node = 300;
        req_id = 5;
        type = EventType.query_task;
        cb = some 77;
        time_start = pos 1;
        timeout = pos 3;
        timer = 400;
      }
      ∷ [];
  cur_req_id = 5;
  timers = create_timer 400 ∷ start_timer 400 ∷ [];
}

sent_query :
    send_request js ℕ byte_ring requests start grant EventType.query_task
      (65 ∷ [])
      1
      (some 77)
      (pos 3)
    ≡ some (ok_code, asking)
unfolding send_request send_frame write_socket htonl ◌+ℤ◌
sent_query = refl

abbrev told : MsgClient js ℕ byte_ring requests
told = (recv_data js ℕ byte_ring requests asking true (frame 5 (65 ∷ []))).1

told_details :
    told.calls
    ≡ record {
      cb = 77;
      ret = pos 0;
      rsp = detail_rsp (record {
        pid = 42;
        name = codes "b";
        param = [];
        status = codes "running";
        heartbeat = pos 0;
      });
    }
      ∷ []
unfolding recv_data get_available_package htonl drop_request find_request process_rsp_data payload
    same_name respond parse_detail_rsp to_u32
told_details = refl

Reach-AllSuit_example : AllSuit js ℕ kind told.calls
Reach-AllSuit_example =
    Reach-AllSuit js ℕ kind byte_ring requests (plain_list-IsListApi (node_of js ℕ)) start told
      (next
        (next here (
          sends grant EventType.query_task (65 ∷ []) 1 (some 77) (pos 3) ok_code (omega arith)
            (λ n h. tt) sent_query))
        (receives true (frame 5 (65 ∷ [])) refl))
      refl refl (refl, tt)
