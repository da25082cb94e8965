-- ===== src/Tests/Answering.antt =====
-- The replies of MsgServer at a concrete MsgClient.
use task_monitor.Base.{
  ℕ, ◌≡◌, refl, List, [], ◌∷◌, ◌++◌, none, some, arith, pos, ok_code, fail_code,
}
use task_monitor.ListApi.{ListApi}
use task_monitor.Json.{Json, codes}
use task_monitor.Msg.{EventType, TaskDetailInfo}
use task_monitor.Client.{MsgRequest, node_of, MsgClient, Call, ended, null, msg_client_req_timer_cb}
use task_monitor.Client.Receive.{find_request, parse_client_data, respond}
use task_monitor.Client.Pending.{Inv}
use task_monitor.Client.Once.{AtMostOne, respond-once, timeout_then_response}
use task_monitor.Exchange.Completing.{Arrives, heartbeat_reply-refused, query_all_reply-refused}
use task_monitor.Tests.Instances.{
  Tree, num, str, arr, obj, end, field, nil, cons, tree_json, tree_json-IsJson, byte_ring,
  plain_list, plain_list-IsListApi,
}

-- A client over JSON that reads `doc`, with one request of a type waiting under id 4.
module _ (doc : Tree) where
  abbrev pub Js : Json
  Js = tree_json doc

  abbrev pub requests : ListApi (MsgRequest Js ℕ)
  requests = plain_list (node_of Js ℕ)

  abbrev waiting_request : EventType → MsgRequest Js ℕ
  waiting_request type = record {
    node = 100;
    req_id = 4;
    type = type;
    cb = some 77;
    time_start = pos 0;
    timeout = pos 3;
    timer = 200;
  }

  abbrev pub client : List (MsgRequest Js ℕ) → MsgClient Js ℕ byte_ring requests
  client reqs = record {
    ring = [];
    client_fd = record { answers = []; sent = [] };
    request_list = reqs;
    cur_req_id = 4;
    calls = [];
    timers = [];
  }

  abbrev asking : EventType → MsgClient Js ℕ byte_ring requests
  asking type = client (waiting_request type ∷ [])

  -- Whatever arrives for it finds it.
  arrives :
      (type : EventType)
      → Arrives Js
          (tree_json-IsJson doc)
          ℕ
          byte_ring
          requests
          (asking type)
          4
          []
          doc
          (waiting_request type)
          77
  unfolding find_request
  arrives type = record { parsed = refl; waits = refl; has_cb = refl }

  asking-Inv :
      (type : EventType)
      → Inv Js ℕ byte_ring requests (plain_list-IsListApi (node_of Js ℕ)) (asking type)
  asking-Inv type = omega arith

abbrev pub plain : Tree
plain = obj end

abbrev heartbeat_answer : Tree
heartbeat_answer = obj (
    field (codes "ret") (num (pos 0)) (
      field (codes "data")
        (obj (field (codes "pid") (num (pos 40)) (field (codes "heartbeat") (num (pos 5)) end)))
        end))

heartbeat_reply-refused_example :
    parse_client_data
      (Js heartbeat_answer)
      ℕ
      byte_ring
      (requests heartbeat_answer)
      (asking heartbeat_answer EventType.heartbeat)
      4
      []
    ≡ (
      fail_code,
      ended
          (Js heartbeat_answer)
          ℕ
          byte_ring
          (requests heartbeat_answer)
          (asking heartbeat_answer EventType.heartbeat)
          (waiting_request heartbeat_answer EventType.heartbeat)
          [],
    )
heartbeat_reply-refused_example =
    heartbeat_reply-refused (Js heartbeat_answer) (tree_json-IsJson heartbeat_answer) ℕ byte_ring
      (requests heartbeat_answer) (asking heartbeat_answer EventType.heartbeat) 4 []
      (waiting_request heartbeat_answer EventType.heartbeat) 77
      (record { pid = 40; heatbeat = pos 5 }) (arrives heartbeat_answer EventType.heartbeat) refl

abbrev no_infos_reply : Tree
no_infos_reply = obj (
    field (codes "ret") (num (pos 0)) (
      field (codes "data")
        (arr (
          cons
            (obj (
              field (codes "name") (str (codes "a")) (
                field (codes "pid") (num (pos 7))
                  (field (codes "status") (str (codes "running")) end))))
            nil))
        end))

query_all_reply-refused_example :
    parse_client_data
      (Js no_infos_reply)
      ℕ
      byte_ring
      (requests no_infos_reply)
      (asking no_infos_reply EventType.query_all)
      4
      []
    ≡ (
      fail_code,
      ended
          (Js no_infos_reply)
          ℕ
          byte_ring
          (requests no_infos_reply)
          (asking no_infos_reply EventType.query_all)
          (waiting_request no_infos_reply EventType.query_all)
          [],
    )
query_all_reply-refused_example =
    query_all_reply-refused (Js no_infos_reply) (tree_json-IsJson no_infos_reply) ℕ byte_ring
      (requests no_infos_reply) (asking no_infos_reply EventType.query_all) 4 []
      (waiting_request no_infos_reply EventType.query_all) 77
      (record { name = codes "a"; pid = 7; status = codes "running" } ∷ [])
      (arrives no_infos_reply EventType.query_all) refl

abbrev detail_reply : Tree
detail_reply = obj (
    field (codes "ret") (num (pos 0)) (
      field (codes "data")
        (obj (
          field (codes "pid") (num (pos 7)) (
            field (codes "name") (str (codes "a")) (
              field (codes "param") (str []) (
                field (codes "status") (str (codes "running"))
                  (field (codes "heartbeat") (num (pos 5)) end))))))
        end))

abbrev info : TaskDetailInfo (Js detail_reply)
info = record { pid = 7; name = codes "a"; param = []; status = codes "running"; heartbeat = pos 5 }

respond-once_example :
    let c' =
      (respond
        (Js plain)
        ℕ
        byte_ring
        (requests plain)
        (asking plain EventType.task_action)
        4
        (pos 0)
        none).1 in
    ((new : List (Call (Js plain) ℕ)) × (c'.calls ≡ [] ++ new)
      × AtMostOne (Js plain) ℕ byte_ring (requests plain) new)
    × (respond (Js plain) ℕ byte_ring (requests plain) c' 4 (pos 2) none ≡ (ok_code, c'))
unfolding find_request
respond-once_example =
    respond-once (Js plain) ℕ byte_ring (requests plain)
      (plain_list-IsListApi (node_of (Js plain) ℕ)) (asking plain EventType.task_action) 4 (pos 0)
      (pos 2) none none (waiting_request plain EventType.task_action)
      (asking-Inv plain EventType.task_action) refl

timeout_then_response_example :
    let c' =
      msg_client_req_timer_cb
        (Js plain)
        ℕ
        byte_ring
        (requests plain)
        (asking plain EventType.task_action)
        (waiting_request plain EventType.task_action) in
    (c'.calls ≡ record { cb = 77; ret = pos 2; rsp = null } ∷ [])
    × (respond (Js plain) ℕ byte_ring (requests plain) c' 4 (pos 0) none ≡ (ok_code, c'))
unfolding find_request
timeout_then_response_example =
    timeout_then_response (Js plain) ℕ byte_ring (requests plain)
      (plain_list-IsListApi (node_of (Js plain) ℕ)) (asking plain EventType.task_action) 4 (pos 0)
      none (waiting_request plain EventType.task_action) (asking-Inv plain EventType.task_action)
      refl
