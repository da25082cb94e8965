-- ===== src/TaskCli/Showing.antt =====
-- A query for one task on the command line of src/task_cli.cpp: the request of inst_init_cb, the
-- connection of src/TaskObjClient.cpp in the daemon, and what cli_readio_cb and singleTaskCb make of
-- the answer.
use task_monitor.Base.{
  ℕ, ◌<◌, ◌^◌, ◌≡◌, ◌≢◌, refl, List, [], ◌∷◌, ◌++◌, true, false, some, pos, arith, ℤ, ok_code,
  is_zero, ◌∙◌, to_u32,
}
use task_monitor.Ring.{RingBuf, IsRing}
use task_monitor.Package.Frame.{frame}
use task_monitor.ListApi.{ListApi, IsListApi}
use task_monitor.Json.{Json, IsJson, Alloc, codes}
use task_monitor.Server.{MsgServer}
use task_monitor.Server.Handlers.{strncpy}
use task_monitor.Server.Dispatch.{Memory}
use task_monitor.TaskObj.{TaskObj}
use task_monitor.TaskObjClient.{TaskObjClient, ReadAnswer, got, task_read_io_cb}
use task_monitor.TaskObjClient.Reading.{task_read_io_cb-served}
use task_monitor.Core.{Core, detail_info, get_status_str}
use task_monitor.Client.{MsgRequest, MsgClient, Grant, Call, node_of, detail_rsp}
use task_monitor.Client.Requests.{send_req_query_single_task}
use task_monitor.Client.Receive
use task_monitor.Client.Sending.{CanSend, next_id}
use task_monitor.Exchange.Asked.{HasTask, CanServe, wanted-pid}
use task_monitor.Exchange.Hearing.{CanHear}
use task_monitor.Exchange.Query.{Readable, request_text, reply_text, query_task-answered}
use task_monitor.TaskCli.{MsgData, CliCb, single_task, send_command, cli_readio_cb, asked}
use task_monitor.TaskCli.Printing.{single_task_cb, number_field, text_field, double_field, Line}

module _ (js : Json) (law : IsJson js) (rb : RingBuf) (ring : IsRing rb) (U : Type 0)
    (api : ListApi (MsgRequest js CliCb)) (lists : IsListApi (node_of js CliCb) api) where
  -- The lines for a task.
  abbrev pub shown : ℕ → TaskObj → List (Line js)
  unfolding strncpy get_status_str
  shown pid t =
      number_field (codes "pid") pid
      ∷ text_field (codes "name") (strncpy t.name 31)
      ∷ text_field (codes "param") (strncpy t.param 127)
      ∷ text_field (codes "status") (strncpy (get_status_str t.status) 31)
      ∷ double_field (codes "heartbeat") (js.of_int (pos 0))
      ∷ []

  single_task_cb-shown :
      (pid : ℕ) (t : TaskObj)
      → to_u32 t.pid ≡ pid
      → single_task_cb js 0 (detail_info js t) ≡ (shown pid t, 0)
  unfolding single_task_cb detail_info
  single_task_cb-shown pid t e = rw e refl

  sends_query :
      (g : Grant js CliCb rb api) (alloc : Alloc) (own : ℤ) (d : MsgData)
      (c : MsgClient js CliCb rb api) (pid : ℕ)
      → d.is_list ≡ true
      → d.pid ≡ pos pid
      → pid ≢ 0
      → send_command js rb api g alloc own d c
        ≡ send_req_query_single_task js CliCb rb api c g alloc
            (pos pid)
            (some d.name)
            (some single_task)
  unfolding send_command
  sends_query g alloc own d c pid l p n =
      let z : is_zero (pos pid) ≡ false = ground arith in rw (send_command, l, p, z) refl

  cli_readio_cb-heard :
      (c c' : MsgClient js CliCb rb api) (buf : List ℕ) (rest : List ReadAnswer) (ret : ℤ)
      → Receive.recv_data js CliCb rb api c true buf ≡ (ret, c')
      → cli_readio_cb js rb api (got buf ∷ rest) true c ≡ some (asked ret c')
  unfolding cli_readio_cb
  cli_readio_cb-heard c c' buf rest ret e = rw (cli_readio_cb, e) refl

  abbrev query_text : ℕ → List ℕ → List ℕ
  query_text pid name = request_text js law rb ring CliCb U api lists pid (some name)

  abbrev answer_text : TaskObj → List ℕ
  answer_text t = reply_text js law rb ring CliCb U api lists t

  -- A listing of one pid on the command line, from end to end, where memory, the peers' writes and
  -- the buffers suffice, nothing is unread, and the texts are read as they were printed. The tool
  -- sends one frame; the daemon's connection, given it, sends one frame, stays open, and leaves the
  -- program's state as it was; the tool, given that, calls singleTaskCb once, with 0 and data for
  -- which it prints the pid asked for, the name, parameter and status of the first task of that
  -- pid, and the heartbeat 0, and exits with 0.
  pub send_command-shows :
      (c : MsgClient js CliCb rb api) (g : Grant js CliCb rb api) (alloc : Alloc)
      (conn : TaskObjClient js rb Core U) (s : MsgServer js rb Core U) (m : Memory) (core : Core)
      (own : ℤ) (d : MsgData) (pid : ℕ) (t : TaskObj) (node timer : ℕ)
      (rest rest' : List ReadAnswer)
      → d.is_list ≡ true
      → d.pid ≡ pos pid
      → pid ≢ 0
      → pid < 2 ^ 31
      → ((n : ℕ) → alloc n ≡ true)
      → conn.msg_server ≡ some s
      → CanSend js CliCb rb api c g (query_text pid d.name) node timer
      → CanServe js law rb ring U s m
          (frame (next_id js CliCb rb api c) (query_text pid d.name ++ 0 ∷ []))
          (answer_text t)
      → CanHear js CliCb rb ring api lists c
          (frame (next_id js CliCb rb api c) (answer_text t ++ 0 ∷ []))
      → Readable js law rb ring CliCb U api lists pid (some d.name) t
      → HasTask js law rb ring U core pid t
      → let query = frame (next_id js CliCb rb api c) (query_text pid d.name ++ 0 ∷ []) in
        let answer = frame (next_id js CliCb rb api c) (answer_text t ++ 0 ∷ []) in
        let info = detail_info js t in
        let call : Call js CliCb = record {
          cb = single_task;
          ret = ok_code;
          rsp = detail_rsp info;
        } in
        (c1 : MsgClient js CliCb rb api) × (s1 : MsgServer js rb Core U) × (c2 : MsgClient js CliCb
          rb api)
        × (send_command js rb api g alloc own d c ≡ some (ok_code, c1))
        × (c1.client_fd.sent ≡ c.client_fd.sent ++ query)
        × (task_read_io_cb js rb Core U (got query ∷ rest) m conn core
            ≡ some ((record conn { msg_server = some s1 }, []), core))
        × (s1.client_fd.sent ≡ s.client_fd.sent ++ answer)
        × (cli_readio_cb js rb api (got answer ∷ rest') true c1 ≡ some (asked ok_code c2))
        × (c2.calls ≡ c.calls ++ call ∷ [])
        × (single_task_cb js 0 info ≡ (shown pid t, 0))
  send_command-shows c g alloc conn s m core own d pid t node timer rest rest' is_list has_pid n h
        memory serving can_send can_serve can_hear readable found =
      let (c1, s1, c2, sent, wire, served, wire', heard, calls, left) =
        query_task-answered js law rb ring CliCb U api lists c g alloc s m core pid (some d.name)
          single_task t node timer memory can_send can_serve can_hear readable found n h in
      (
        c1,
        s1,
        c2,
        sends_query g alloc own d c pid is_list has_pid n ∙ sent,
        wire,
        task_read_io_cb-served js rb Core U conn s s1 m core core _ rest serving served,
        wire',
        cli_readio_cb-heard c1 c2 _ rest' ok_code heard,
        calls,
        single_task_cb-shown pid t (wanted-pid pid [] t n found.hit),
      )
