-- ===== src/Tests/Queueing.antt =====
-- The receivers with three messages in two pieces, the last of which stays in the ring buffer, and
-- a client with two responses in three.
use task_monitor.Base.{ℕ, ◌+◌, ◌≤◌, ◌≡◌, refl, List, [], ◌∷◌, some, arith, pos}
use task_monitor.Package.{htonl}
use task_monitor.Package.Receiver.{
  Message, IsSound, AllSound, AllPieces, no_piece, one_more, HasRoom, frames, put_buf, handle_all,
  serve,
}
use task_monitor.Server.Pipeline.{server_receiver, serve_requests-in_order}
use task_monitor.Client.{MsgRequest, MsgClient, node_of}
use task_monitor.Client.Pending.{Inv}
use task_monitor.Client.Ending.{AllEnded, responses-end_requests}
use task_monitor.Client.Pipeline.{client_receiver, take_responses-in_order}
use task_monitor.Msg.{EventType}
use task_monitor.Json.{Json, codes, same_name}
use task_monitor.ListApi.{ListApi}
use task_monitor.Tests.Instances.{
  Tree, num, obj, end, field, tree_json, byte_ring, byte_ring-IsRing, plain_list,
  plain_list-IsListApi,
}
use task_monitor.Tests.Serving.{js, server, memory}

abbrev message : ℕ → ℕ → Message
message id byte = record { req_id = id; text = byte ∷ [] }

abbrev todo : List Message
todo = message 1 65 ∷ message 2 66 ∷ message 3 67 ∷ []

-- The first piece ends before the text of the second message.
abbrev pieces : List (List ℕ)
pieces =
    (0 ∷ 0 ∷ 0 ∷ 1 ∷ 0 ∷ 0 ∷ 0 ∷ 1 ∷ 65 ∷ 0 ∷ 0 ∷ 0 ∷ 2 ∷ 0 ∷ 0 ∷ 0 ∷ 1 ∷ [])
    ∷ (66 ∷ 0 ∷ 0 ∷ 0 ∷ 3 ∷ 0 ∷ 0 ∷ 0 ∷ 1 ∷ 67 ∷ [])
    ∷ []

pieces-AllPieces : AllPieces pieces
pieces-AllPieces = one_more (omega arith) (one_more (omega arith) no_piece)

abbrev message-IsSound : (id byte : ℕ) → id ≤ 9 → IsSound (message id byte)
message-IsSound id byte h = record {
  id_bound = omega arith;
  text_bound = omega arith;
  not_empty = omega arith;
}

todo-AllSound : AllSound todo
todo-AllSound = (
  message-IsSound 1 65 (omega arith),
  (message-IsSound 2 66 (omega arith), (message-IsSound 3 67 (omega arith), tt)),
)

has_room : HasRoom byte_ring byte_ring-IsRing 27
has_room b bytes h = refl

serve_requests-in_order_example :
    let r = server_receiver js byte_ring byte_ring-IsRing ℕ ℕ memory in
    (b : List ℕ) × (b ≡ frames (message 3 67 ∷ []))
    × (serve byte_ring byte_ring-IsRing r pieces (server, 3)
        ≡ put_buf byte_ring byte_ring-IsRing r b (
            handle_all byte_ring byte_ring-IsRing r (message 1 65 ∷ message 2 66 ∷ []) (server, 3)))
    × (2 ≤ 2)
    × (2 ≤ 3)
unfolding htonl
serve_requests-in_order_example =
    serve_requests-in_order js byte_ring byte_ring-IsRing ℕ ℕ memory pieces todo 27 server 3 refl
      pieces-AllPieces todo-AllSound has_room (omega arith) refl refl

abbrev ret_doc : Tree
ret_doc = obj (field (codes "ret") (num (pos 0)) end)

abbrev ret_js : Json
ret_js = tree_json ret_doc

abbrev requests : ListApi (MsgRequest ret_js ℕ)
requests = plain_list (node_of ret_js ℕ)

abbrev waits : ℕ → MsgRequest ret_js ℕ
waits id = record {
  node = 100 + id;
  req_id = id;
  type = EventType.task_action;
  cb = some id;
  time_start = pos 0;
  timeout = pos 3;
  timer = 200 + id;
}

-- Two requests wait, for the first and the third of the messages.
abbrev client : MsgClient ret_js ℕ byte_ring requests
client = record {
  ring = [];
  client_fd = record { answers = []; sent = [] };
  request_list = waits 3 ∷ waits 1 ∷ [];
  cur_req_id = 3;
  calls = [];
  timers = [];
}

take_responses-in_order_example :
    let r = client_receiver ret_js ℕ byte_ring byte_ring-IsRing requests in
    (b : List ℕ) × (b ≡ frames (message 3 67 ∷ []))
    × (serve byte_ring byte_ring-IsRing r pieces client
        ≡ put_buf byte_ring byte_ring-IsRing r b
            (handle_all byte_ring byte_ring-IsRing r (message 1 65 ∷ message 2 66 ∷ []) client))
    × (2 ≤ 2)
    × (2 ≤ 3)
unfolding htonl
take_responses-in_order_example =
    take_responses-in_order ret_js ℕ byte_ring byte_ring-IsRing requests pieces todo 27 client
      pieces-AllPieces todo-AllSound has_room (omega arith) refl refl

client-Inv : Inv ret_js ℕ byte_ring requests (plain_list-IsListApi (node_of ret_js ℕ)) client
client-Inv = omega arith

-- The responses to both, in pieces of nine bytes at most.
abbrev answers : List Message
answers = message 1 65 ∷ message 3 67 ∷ []

abbrev small_pieces : List (List ℕ)
small_pieces =
    (0 ∷ 0 ∷ 0 ∷ 1 ∷ 0 ∷ 0 ∷ [])
    ∷ (0 ∷ 1 ∷ 65 ∷ 0 ∷ 0 ∷ 0 ∷ 3 ∷ 0 ∷ [])
    ∷ (0 ∷ 0 ∷ 1 ∷ 67 ∷ [])
    ∷ []

responses-end_requests_example :
    let list = plain_list-IsListApi (node_of ret_js ℕ) in
    (c' : MsgClient ret_js ℕ byte_ring requests) × (serve byte_ring byte_ring-IsRing
        (client_receiver ret_js ℕ byte_ring byte_ring-IsRing requests)
        small_pieces
        client
      ≡ some c')
    × (c'.ring ≡ [])
    × Inv ret_js ℕ byte_ring requests list c'
    × AllEnded ret_js ℕ byte_ring requests list answers c'
unfolding same_name htonl
responses-end_requests_example =
    responses-end_requests ret_js ℕ byte_ring requests (plain_list-IsListApi (node_of ret_js ℕ))
      byte_ring-IsRing client answers small_pieces 27 client-Inv
      ((ret_doc, num (pos 0), refl, refl), ((ret_doc, num (pos 0), refl, refl), tt))
      (one_more (omega arith) (one_more (omega arith) (one_more (omega arith) no_piece)))
      (omega arith, (omega arith, (omega arith, tt)))
      (message-IsSound 1 65 (omega arith), (message-IsSound 3 67 (omega arith), tt)) has_room
      (omega arith) refl refl
