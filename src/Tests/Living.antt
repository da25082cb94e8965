-- ===== src/Tests/Living.antt =====
-- The life of a request at a concrete MsgClient.
use task_monitor.Base.{ℕ, ◌+◌, ◌≤◌, ◌==◌, ◌≡◌, refl, [], ◌∷◌, some, arith, pos, ok_code, ◌+ℤ◌}
use task_monitor.ListApi.{delete}
use task_monitor.Package.{htonl}
use task_monitor.Socket.{room, write_socket}
use task_monitor.Msg.{EventType}
use task_monitor.Send.{send_frame}
use task_monitor.Client.{
  MsgRequest, node_of, MsgClient, Grant, null, send_request, msg_client_req_timer_cb, create_timer,
  start_timer, destroy_timer, drop_request,
}
use task_monitor.Client.Receive.{find_request}
use task_monitor.Client.Pending.{Inv}
use task_monitor.Client.Lifecycle.{here, next, sends, expires, Reach-Inv}
use task_monitor.Client.Accounting.{called}
use task_monitor.Client.Promises.{Reach-kept}
use task_monitor.Tests.Instances.{byte_ring, plain_list-IsListApi}
use task_monitor.Tests.Answering.{Js, requests, client, plain}

abbrev start : MsgClient (Js plain) ℕ byte_ring (requests plain)
start = record (client plain []) {
  client_fd = record { answers = room 9 ∷ room 9 ∷ room 9 ∷ []; sent = [] };
}

abbrev grant : Grant (Js plain) ℕ byte_ring (requests plain)
grant = record { node = some 300; timer = some 400; now = pos 1 }

abbrev sent_request : MsgRequest (Js plain) ℕ
sent_request = record {
  node = 300;
  req_id = 5;
  type = EventType.heartbeat;
  cb = some 77;
  time_start = pos 1;
  timeout = pos 3;
  timer = 400;
}

abbrev sent_client : MsgClient (Js plain) ℕ byte_ring (requests plain)
sent_client = record {
  ring = [];
  client_fd = record { answers = []; sent = 0 ∷ 0 ∷ 0 ∷ 5 ∷ 0 ∷ 0 ∷ 0 ∷ 1 ∷ 65 ∷ [] };
  request_list = sent_request ∷ [];
  cur_req_id = 5;
  calls = [];
  timers = create_timer 400 ∷ start_timer 400 ∷ [];
}

send_once :
    send_request
      (Js plain)
      ℕ
      byte_ring
      (requests plain)
      start
      grant
      EventType.heartbeat
      (65 ∷ [])
      1
      (some 77)
      (pos 3)
    ≡ some (ok_code, sent_client)
unfolding send_request send_frame write_socket htonl ◌+ℤ◌
send_once = refl

Reach-Inv_example :
    Inv
      (Js plain)
      ℕ
      byte_ring
      (requests plain)
      (plain_list-IsListApi (node_of (Js plain) ℕ))
      sent_client
Reach-Inv_example =
    Reach-Inv (Js plain) ℕ byte_ring (requests plain) (plain_list-IsListApi (node_of (Js plain) ℕ))
      start sent_client refl
      (next here (
        sends grant EventType.heartbeat (65 ∷ []) 1 (some 77) (pos 3) ok_code (omega arith)
          (λ n h. tt) send_once))

-- The request times out.
abbrev expired_client : MsgClient (Js plain) ℕ byte_ring (requests plain)
expired_client = record sent_client {
  request_list = [];
  calls = record { cb = 77; ret = pos 2; rsp = null } ∷ [];
  timers = create_timer 400 ∷ start_timer 400 ∷ destroy_timer 400 ∷ [];
}

Reach-kept_example : called (λ (cb : ℕ). cb == 77) expired_client.calls + 0 ≤ 1
unfolding msg_client_req_timer_cb drop_request find_request delete
Reach-kept_example =
    Reach-kept (Js plain) ℕ byte_ring (requests plain) (plain_list-IsListApi (node_of (Js plain) ℕ))
      (λ (cb : ℕ). cb == 77) start expired_client
      (next
        (next here (
          sends grant EventType.heartbeat (65 ∷ []) 1 (some 77) (pos 3) ok_code (omega arith)
            (λ n h. tt) send_once))
        (expires sent_request refl refl))
      refl refl
