-- ===== src/Tests/Streaming.antt =====
-- Two queries of a client in small pieces.
use task_monitor.Base.{ℕ, ◌+ℤ◌, ◌≡◌, refl, List, [], ◌∷◌, ◌++◌, some, arith, pos, ok_code}
use task_monitor.ListApi.{ListApi}
use task_monitor.Package.{htonl}
use task_monitor.Package.Receiver.{Message, AllPieces, no_piece, one_more, HasRoom, serve, frames}
use task_monitor.Socket.{room, write_socket}
use task_monitor.Json.{same_name}
use task_monitor.Msg.{EventType}
use task_monitor.Send.{send_frame}
use task_monitor.Client.{
  MsgRequest, node_of, MsgClient, Grant, send_request, create_timer, start_timer,
}
use task_monitor.Server.Dispatch.{parse_server_data}
use task_monitor.Server.Handlers.{process_query_all_req}
use task_monitor.Server.Answered.{Serves, none_served, served, ids}
use task_monitor.Server.Pipeline.{server_receiver}
use task_monitor.Exchange.Stream.{Sends, none_sent, one_more_sent}
use task_monitor.Exchange.Replied.{requests-one_reply_each}
use task_monitor.Tests.Instances.{byte_ring, byte_ring-IsRing, plain_list}
use task_monitor.Tests.Serving.{Server, js, server, memory}

abbrev requests : ListApi (MsgRequest js ℕ)
requests = plain_list (node_of js ℕ)

-- It has sent something before.
abbrev start : MsgClient js ℕ byte_ring requests
start = record {
  ring = [];
  client_fd = record {
    answers = room 9 ∷ room 9 ∷ room 9 ∷ room 9 ∷ room 9 ∷ room 9 ∷ [];
    sent = 7 ∷ [];
  };
  request_list = [];
  cur_req_id = 4;
  calls = [];
  timers = [];
}

abbrev grant : ℕ → Grant js ℕ byte_ring requests
grant n = record { node = some n; timer = some n; now = pos 1 }

abbrev waits : ℕ → MsgRequest js ℕ
waits n = record {
  node = n;
  req_id = n;
  type = EventType.query_all;
  cb = some 77;
  time_start = pos 1;
  timeout = pos 3;
  timer = n;
}

abbrev sent_one : MsgClient js ℕ byte_ring requests
sent_one = record start {
  client_fd = record {
    answers = room 9 ∷ room 9 ∷ room 9 ∷ [];
    sent = 7 ∷ 0 ∷ 0 ∷ 0 ∷ 5 ∷ 0 ∷ 0 ∷ 0 ∷ 1 ∷ 65 ∷ [];
  };
  request_list = waits 5 ∷ [];
  cur_req_id = 5;
  timers = create_timer 5 ∷ start_timer 5 ∷ [];
}

abbrev sent_two : MsgClient js ℕ byte_ring requests
sent_two = record start {
  client_fd = record {
    answers = [];
    sent = 7 ∷ 0 ∷ 0 ∷ 0 ∷ 5 ∷ 0 ∷ 0 ∷ 0 ∷ 1 ∷ 65 ∷ 0 ∷ 0 ∷ 0 ∷ 6 ∷ 0 ∷ 0 ∷ 0 ∷ 1 ∷ 66 ∷ [];
  };
  request_list = waits 6 ∷ waits 5 ∷ [];
  cur_req_id = 6;
  timers = create_timer 5 ∷ start_timer 5 ∷ create_timer 6 ∷ start_timer 6 ∷ [];
}

first_sent :
    send_request js ℕ byte_ring requests start
      (grant 5)
      EventType.query_all
      (65 ∷ [])
      1
      (some 77)
      (pos 3)
    ≡ some (ok_code, sent_one)
unfolding send_request send_frame write_socket htonl ◌+ℤ◌
first_sent = refl

second_sent :
    send_request js ℕ byte_ring requests sent_one
      (grant 6)
      EventType.query_all
      (66 ∷ [])
      1
      (some 77)
      (pos 3)
    ≡ some (ok_code, sent_two)
unfolding send_request send_frame write_socket htonl ◌+ℤ◌
second_sent = refl

abbrev messages : List Message
messages = record { req_id = 5; text = 65 ∷ [] } ∷ record { req_id = 6; text = 66 ∷ [] } ∷ []

abbrev pieces : List (List ℕ)
pieces =
    (0 ∷ 0 ∷ 0 ∷ 5 ∷ 0 ∷ [])
    ∷ (0 ∷ 0 ∷ 1 ∷ 65 ∷ 0 ∷ 0 ∷ 0 ∷ 6 ∷ 0 ∷ [])
    ∷ (0 ∷ 0 ∷ 1 ∷ 66 ∷ [])
    ∷ []

pieces-AllPieces : AllPieces pieces
pieces-AllPieces = one_more (omega arith) (one_more (omega arith) (one_more (omega arith) no_piece))

has_room : HasRoom byte_ring byte_ring-IsRing 18
has_room b bytes h = refl

both_sent : Sends js ℕ byte_ring requests start sent_two messages
both_sent =
    one_more_sent (grant 6) EventType.query_all (66 ∷ []) (some 77) (pos 3)
      (one_more_sent (grant 5) EventType.query_all (65 ∷ []) (some 77) (pos 3) none_sent first_sent)
      second_sent

-- The server takes nine bytes at each write.
abbrev serving : Server
serving = record server {
  client_fd = record {
    answers = room 9 ∷ room 9 ∷ room 9 ∷ room 9 ∷ room 9 ∷ room 9 ∷ [];
    sent = [];
  };
}

abbrev served_one : Server
served_one = record server {
  client_fd = record {
    answers = room 9 ∷ room 9 ∷ room 9 ∷ [];
    sent = 0 ∷ 0 ∷ 0 ∷ 5 ∷ 0 ∷ 0 ∷ 0 ∷ 3 ∷ 123 ∷ 125 ∷ 0 ∷ [];
  };
}

abbrev served_two : Server
served_two = record server {
  client_fd = record {
    answers = [];
    sent =
        0 ∷ 0 ∷ 0 ∷ 5 ∷ 0 ∷ 0 ∷ 0 ∷ 3 ∷ 123 ∷ 125 ∷ 0 ∷ 0 ∷ 0 ∷ 0 ∷ 6 ∷ 0 ∷ 0 ∷ 0 ∷ 3 ∷ 123 ∷ 125
        ∷ 0 ∷ [];
  };
}

first_served :
    parse_server_data js byte_ring ℕ ℕ serving memory 5 (65 ∷ []) 3 ≡ some (ok_code, served_one, 4)
unfolding parse_server_data same_name htonl process_query_all_req send_frame write_socket ◌+ℤ◌
first_served = refl

second_served :
    parse_server_data js byte_ring ℕ ℕ served_one memory 6 (66 ∷ []) 4
    ≡ some (ok_code, served_two, 5)
unfolding parse_server_data same_name htonl process_query_all_req send_frame write_socket ◌+ℤ◌
second_served = refl

both_served : Serves js byte_ring ℕ ℕ memory (refl, refl) served_two 5 serving 3 messages
both_served =
    served (record { req_id = 5; text = 65 ∷ [] }) first_served
      (served (record { req_id = 6; text = 66 ∷ [] }) second_served none_served)

requests-one_reply_each_example :
    (b : List ℕ) × (replies : List Message) × (b ≡ [])
    × (serve byte_ring byte_ring-IsRing
          (server_receiver js byte_ring byte_ring-IsRing ℕ ℕ memory)
          pieces
          (serving, 3)
        ≡ some (record served_two { ring = b }, 5))
    × (served_two.client_fd.sent ≡ [] ++ frames replies)
    × (ids replies ≡ 5 ∷ 6 ∷ [])
unfolding htonl
requests-one_reply_each_example =
    requests-one_reply_each js ℕ byte_ring requests byte_ring-IsRing ℕ ℕ memory start sent_two
      messages pieces 18 serving served_two 3 5 (refl, refl) both_sent refl both_served refl
      pieces-AllPieces (omega arith, (omega arith, (omega arith, tt)))
      ((omega arith, omega arith), ((omega arith, omega arith), tt)) has_room (omega arith) refl
