-- ===== src/Tests/Asking.antt =====
-- The requests of MsgClient at a concrete MsgServer.
use task_monitor.Base.{ℕ, ◌+◌, ◌≡◌, refl, [], none, some, arith, pos}
use task_monitor.Json.{codes}
use task_monitor.Msg.{EventErr, TaskSingleReq, TaskDetailInfo}
use task_monitor.Server.{MsgServer, Callback}
use task_monitor.Server.Handlers.{single_reply}
use task_monitor.Server.Dispatch.{dispatch}
use task_monitor.Client.Requests.{query_single_request}
use task_monitor.Exchange.Asking.{single_request-loses_name}
use task_monitor.Tests.Instances.{
  Tree, num, obj, end, field, tree_json, tree_json-IsJson, byte_ring,
}
use task_monitor.Tests.Serving.{memory}

abbrev heartbeat_doc : Tree
heartbeat_doc = obj (
    field (codes "type") (num (pos 0)) (
      field (codes "data")
        (obj (field (codes "pid") (num (pos 40)) (field (codes "heartbeat") (num (pos 5)) end)))
        end))

abbrev details : TaskSingleReq → TaskDetailInfo (tree_json heartbeat_doc)
details req = record {
  pid = req.pid;
  name = req.name;
  param = [];
  status = codes "running";
  heartbeat = pos 5;
}

-- Answers with the request itself, and counts its calls.
abbrev echo : Callback ℕ ℕ TaskSingleReq (TaskDetailInfo (tree_json heartbeat_doc))
echo req u w = (EventErr.succ, some (details req), w + 1)

abbrev server : (doc : Tree) → MsgServer (tree_json doc) byte_ring ℕ ℕ
server doc = record {
  ring = [];
  client_fd = record { answers = []; sent = [] };
  event_cb = record { heartbeat = none; query_all = none; query_task = none; task_action = none };
  user_data = record { heartbeat = 0; query_all = 0; query_task = 0; task_action = 0 };
}

abbrev echo_server : MsgServer (tree_json heartbeat_doc) byte_ring ℕ ℕ
echo_server = record (server heartbeat_doc) {
  event_cb = record {
    heartbeat = none;
    query_all = none;
    query_task = some echo;
    task_action = none;
  };
}

single_request-loses_name_example :
    let js = tree_json heartbeat_doc in
    dispatch js byte_ring ℕ ℕ echo_server memory.alloc
      (pos 2)
      (js.get_object_item (query_single_request js (pos 0) (some (codes "db"))) (codes "data"))
      3
    ≡ (
      single_reply js memory.alloc EventErr.succ (some (details (record { pid = 0; name = [] }))),
      4,
    )
single_request-loses_name_example =
    single_request-loses_name (tree_json heartbeat_doc) (tree_json-IsJson heartbeat_doc) byte_ring ℕ
      ℕ echo_server memory.alloc 3 0 (some (codes "db")) {cb = echo} (omega arith) refl
