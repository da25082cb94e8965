-- ===== src/Tests/Shown.antt =====
-- A listing of pid 42 on the command line.
use task_monitor.Base.{ℕ, ◌≡◌, refl, [], ◌∷◌, ◌++◌, some, true, arith, pos, ok_code}
use task_monitor.Package.Frame.{frame}
use task_monitor.ListApi.{ListApi}
use task_monitor.Json.{codes, same_name}
use task_monitor.Server.{MsgServer}
use task_monitor.Core.{Core, detail_info}
use task_monitor.TaskObjClient.{TaskObjClient, got, closed, task_read_io_cb}
use task_monitor.Client.{MsgRequest, MsgClient, Grant, Call, node_of, detail_rsp}
use task_monitor.Client.Requests.{query_single_request}
use task_monitor.Client.Sending.{CanSend}
use task_monitor.Exchange.Hearing.{CanHear}
use task_monitor.Exchange.Query.{Readable}
use task_monitor.TaskCli.{MsgData, CliCb, single_task, send_command, cli_readio_cb}
use task_monitor.TaskCli.Printing.{single_task_cb}
use task_monitor.TaskCli.Showing.{shown, send_command-shows}
use task_monitor.TaskCli
use task_monitor.Tests.Instances.{
  talk_json-IsJson, byte_ring, byte_ring-IsRing, plain_list, plain_list-IsListApi,
}
use task_monitor.Tests.Serving.{steady_answers, memory}
use task_monitor.Tests.Tasks.{busy_task, core}
use task_monitor.Tests.Whole.{asked, answered, js, server, can_serve, has_task}

abbrev requests : ListApi (MsgRequest js CliCb)
requests = plain_list (node_of js CliCb)

abbrev client : MsgClient js CliCb byte_ring requests
client = record {
  ring = [];
  client_fd = record { answers = steady_answers 40; sent = [] };
  request_list = [];
  cur_req_id = 3;
  calls = [];
  timers = [];
}

abbrev grant : Grant js CliCb byte_ring requests
grant = record { node = some 300; timer = some 400; now = pos 1 }

abbrev connection : TaskObjClient js byte_ring Core ℕ
connection = record {
  client_fd = pos 9;
  pid = pos 77;
  read_io = some 3;
  msg_server = some server;
  is_available = true;
}

-- task_cli -l -p 42 -n b
abbrev list_42 : MsgData
list_42 = record { is_list = true; pid = pos 42; name = codes "b"; action = 0 }

can_send : CanSend js CliCb byte_ring requests client grant (codes "q") 300 400
can_send = record {
  node_given = refl;
  timer_given = refl;
  progress = omega arith;
  enough = omega arith;
  short = omega arith;
  timed = refl;
}

can_hear :
    CanHear js CliCb byte_ring byte_ring-IsRing requests
      (plain_list-IsListApi (node_of js CliCb))
      client
      (frame 4 (codes "a" ++ 0 ∷ []))
can_hear = record { nothing_left = refl; room_left = refl }

readable :
    Readable js
      (talk_json-IsJson asked answered)
      byte_ring
      byte_ring-IsRing
      CliCb
      ℕ
      requests
      (plain_list-IsListApi (node_of js CliCb))
      42
      (some (codes "b"))
      busy_task
unfolding query_single_request detail_info same_name
readable = record {
  request = refl;
  reply = refl;
  request_short = omega arith;
  reply_short = omega arith;
}

send_command-shows_example :
    let query = frame 4 (codes "q" ++ 0 ∷ []) in
    let answer = frame 4 (codes "a" ++ 0 ∷ []) in
    let info = detail_info js busy_task in
    let call : Call js CliCb = record { cb = single_task; ret = ok_code; rsp = detail_rsp info } in
    (c1 : MsgClient js CliCb byte_ring requests) × (s1 : MsgServer js byte_ring Core ℕ)
    × (c2 : MsgClient js CliCb byte_ring requests) × (send_command js byte_ring requests grant
          (λ n. true)
          (pos 0)
          list_42
          client
        ≡ some (ok_code, c1))
    × (c1.client_fd.sent ≡ [] ++ query)
    × (task_read_io_cb js byte_ring Core ℕ (got query ∷ []) memory connection core
        ≡ some ((record connection { msg_server = some s1 }, []), core))
    × (s1.client_fd.sent ≡ [] ++ answer)
    × (cli_readio_cb js byte_ring requests (got answer ∷ closed ∷ []) true c1
        ≡ some (TaskCli.asked ok_code c2))
    × (c2.calls ≡ [] ++ call ∷ [])
    × (single_task_cb js 0 info ≡ (
      shown js
          (talk_json-IsJson asked answered)
          byte_ring
          byte_ring-IsRing
          ℕ
          requests
          (plain_list-IsListApi (node_of js CliCb))
          42
          busy_task,
      0,
    ))
unfolding query_single_request same_name
send_command-shows_example =
    send_command-shows js (talk_json-IsJson asked answered) byte_ring byte_ring-IsRing ℕ requests
      (plain_list-IsListApi (node_of js CliCb)) client grant (λ n. true) connection server memory
      core (pos 0) list_42 42 busy_task 300 400 [] (closed ∷ []) refl refl (omega arith)
      (omega arith) (λ n. refl) refl can_send can_serve can_hear readable has_task
