-- ===== src/Tests/Serving.antt =====
-- MsgServer at a concrete connection.
use task_monitor.Base.{
  ℕ, zero, suc, ◌+◌, ◌≡◌, refl, List, [], ◌∷◌, ◌++◌, none, some, true, arith, pos, ok_code,
}
use task_monitor.Socket.{Socket, WriteAnswer, room}
use task_monitor.Package.{htonl}
use task_monitor.Package.Frame.{frame}
use task_monitor.Package.Receiver.{HasRoom, no_piece, one_more}
use task_monitor.Json.{Json, codes, same_name}
use task_monitor.Msg.{EventErr, TaskAllRsp}
use task_monitor.Server.{MsgServer, Callback}
use task_monitor.Server.Handlers.{process_query_all_req}
use task_monitor.Server.Dispatch.{Memory, parse_server_data, recv_data, dispatch, reply_data}
use task_monitor.Server.Replies.{parse_server_data-answers}
use task_monitor.Server.Fragments.{Handed, deliver, deliver-same}
use task_monitor.Tests.Instances.{
  Tree, num, obj, end, field, tree_json, byte_ring, byte_ring-IsRing,
}

abbrev pub doc : Tree
doc = obj (field (codes "type") (num (pos 1)) end)

abbrev pub js : Json
js = tree_json doc

abbrev pub Server : Type 0
Server = MsgServer js byte_ring ℕ ℕ

-- Counts its calls, and lists one task.
abbrev list_tasks : Callback ℕ ℕ (Unit {0}) TaskAllRsp
list_tasks req u w = (
  EventErr.succ,
  some (record {
    count = 1;
    task_list = record { name = codes "a"; pid = 7; status = codes "running" } ∷ [];
  }),
  w + 1,
)

abbrev pub steady_answers : ℕ → List WriteAnswer
steady_answers n = elim n [ zero ↦ [] | suc (n → rest) ↦ room 3 ∷ rest ]

abbrev pub server : Server
server = record {
  ring = [];
  client_fd = record { answers = steady_answers 60; sent = [] };
  event_cb = record {
    heartbeat = none;
    query_all = some list_tasks;
    query_task = none;
    task_action = none;
  };
  user_data = record { heartbeat = 0; query_all = 0; query_task = 0; task_action = 0 };
}

abbrev pub memory : Memory
memory = record { alloc = λ n. true; fail_alloc = λ n. true; malloc_ok = true }

parse_server_data-answers_example :
    (fd : Socket) × (parse_server_data js byte_ring ℕ ℕ server memory 9 (codes "{}") 3
      ≡ some (ok_code, record server { client_fd = fd }, 4))
    × (fd.sent ≡ [] ++ frame 9 (codes "{}" ++ 0 ∷ []))
unfolding dispatch reply_data same_name process_query_all_req
parse_server_data-answers_example =
    parse_server_data-answers js byte_ring ℕ ℕ server memory 9 (codes "{}") (codes "{}") 3 doc
      (num (pos 1)) refl refl refl refl (omega arith) (omega arith) (omega arith)

-- A frame in three pieces, the first of them in the buffer already.
abbrev begun : Server
begun = record server { ring = 0 ∷ 0 ∷ 0 ∷ [] }

has_room : HasRoom byte_ring byte_ring-IsRing 9
has_room b bytes h = refl

deliver-same_example :
    Handed js byte_ring byte_ring-IsRing ℕ ℕ begun memory 1 (65 ∷ []) 3 (
      deliver js byte_ring byte_ring-IsRing ℕ ℕ begun memory
        ((1 ∷ 0 ∷ []) ∷ [])
        (0 ∷ 0 ∷ 1 ∷ 65 ∷ [])
        3)
    × Handed js byte_ring byte_ring-IsRing ℕ ℕ begun memory 1
        (65 ∷ [])
        3
        (recv_data js byte_ring ℕ ℕ begun memory (1 ∷ 0 ∷ 0 ∷ 0 ∷ 1 ∷ 65 ∷ []) 3)
unfolding htonl
deliver-same_example =
    deliver-same js byte_ring byte_ring-IsRing ℕ ℕ begun memory ((1 ∷ 0 ∷ []) ∷ [])
      (0 ∷ 0 ∷ 1 ∷ 65 ∷ []) (65 ∷ []) 1 3 (one_more (omega arith) no_piece) (omega arith) has_room
      refl refl (omega arith) (omega arith) (omega arith)
