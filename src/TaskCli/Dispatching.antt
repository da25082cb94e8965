-- ===== src/TaskCli/Dispatching.antt =====
-- What a command of src/task_cli.cpp does to a task: the request of inst_init_cb, the server's
-- answer, and the call of what the tool gave for a callback.
use task_monitor.Base.{
  ℕ, ℤ, zero, suc, ◌+◌, ◌<◌, ◌≡◌, refl, List, [], ◌∷◌, ◌++◌, true, false, some, arith, pos, length,
  ok_code, u32_mod,
}
use task_monitor.Socket.{Socket}
use task_monitor.Ring.{RingBuf, IsRing}
use task_monitor.Package.Frame.{frame}
use task_monitor.ListApi.{ListApi, IsListApi}
use task_monitor.Json.{Json, IsJson, Alloc}
use task_monitor.Msg.{EventType, EventErr, err_code}
use task_monitor.Server.{MsgServer}
use task_monitor.Server.Handlers.{fail_tree}
use task_monitor.Server.Dispatch.{Memory}
use task_monitor.Server.Dispatch
use task_monitor.Client.{MsgRequest, MsgClient, Grant, Call, node_of, null}
use task_monitor.Client.Requests.{action_request, send_req_task_action}
use task_monitor.Client.Receive
use task_monitor.Client.Sending.{CanSend, next_id, request_for, waiting_for, send_tree-sends}
use task_monitor.Exchange.Hearing.{CanHear}
use task_monitor.Exchange.Asking.{action_request-refused}
use task_monitor.Exchange.Refused.{CanRefuse, refusal, refuses, hears_refusal}
use task_monitor.TaskCli.{MsgData, CliCb, wild, wild_cb, send_command}

module _ (js : Json) (law : IsJson js) (rb : RingBuf) (ring : IsRing rb) (W U : Type 0)
    (api : ListApi (MsgRequest js CliCb)) (lists : IsListApi (node_of js CliCb) api) where
  open js use {print}

  -- The request of a command.
  abbrev command_text : ℤ → ℕ → List ℕ
  command_text pid action = print (action_request js pid (pos action))

  -- What both ends print is what the other end reads, and the request fits a length field.
  pub record Readable (pid : ℤ) (action : ℕ) : Type 0 where
    pub request :
        js.parse (command_text pid action ++ 0 ∷ []) ≡ some (action_request js pid (pos action))
    pub reply :
        js.parse (refusal js law rb ring W U ++ 0 ∷ [])
        ≡ some (fail_tree js (err_code EventErr.parse))
    pub request_short : length (command_text pid action) + 9 < u32_mod

  wild_cb-given : (n : ℕ) → 0 < n → wild_cb n ≡ some (wild n)
  wild_cb-given zero h = absurd (ground arith)
  wild_cb-given (suc n) h = refl

  commands :
      (c : MsgClient js CliCb rb api) (g : Grant js CliCb rb api) (alloc : Alloc) (pid : ℤ)
      (d : MsgData) (node timer : ℕ)
      → d.is_list ≡ false
      → ((n : ℕ) → alloc n ≡ true)
      → CanSend js CliCb rb api c g (command_text pid d.action) node timer
      → (fd : Socket) × (send_command js rb api g alloc pid d c
          ≡ some (
            ok_code,
            waiting_for js CliCb rb api c
                (request_for js CliCb rb api c g EventType.task_action
                  (wild_cb d.action)
                  node
                  timer)
                fd,
          ))
        × (fd.sent
            ≡ c.client_fd.sent
              ++ frame (next_id js CliCb rb api c) (command_text pid d.action ++ 0 ∷ []))
  unfolding send_command send_req_task_action
  commands c g alloc pid d node timer action memory can =
      let (fd, e, sent) =
        send_tree-sends js CliCb rb api c g EventType.task_action
          (action_request js pid (pos d.action)) (wild_cb d.action) node timer can in
      (fd, rw (action, memory 0, memory 1, memory 2) e, sent)

  -- A command to start, stop or restart never comes to a task, whatever pid and name were given
  -- with it and whatever `pid` stands for in sendReqTaskAction, where nothing fails on the way:
  -- memory, the peers' writes and the buffers suffice, both ends hold nothing unread, and the texts
  -- are read as they were printed. The tool sends one frame; the server answers it with one frame,
  -- the message of EVENT_ERROR_PARSE, and leaves the program's state as it was; and the tool then
  -- calls the number of the action as if it were a function, once, with that code.
  pub send_command-never_acts :
      (c : MsgClient js CliCb rb api) (g : Grant js CliCb rb api) (alloc : Alloc)
      (s : MsgServer js rb W U) (m : Memory) (w : W) (pid : ℤ) (d : MsgData) (node timer : ℕ)
      → d.is_list ≡ false
      → 0 < d.action
      → ((n : ℕ) → alloc n ≡ true)
      → CanSend js CliCb rb api c g (command_text pid d.action) node timer
      → CanRefuse js law rb ring W U s m
          (frame (next_id js CliCb rb api c) (command_text pid d.action ++ 0 ∷ []))
      → CanHear js CliCb rb ring api lists c
          (frame (next_id js CliCb rb api c) (refusal js law rb ring W U ++ 0 ∷ []))
      → Readable pid d.action
      → let asked = frame (next_id js CliCb rb api c) (command_text pid d.action ++ 0 ∷ []) in
        let answered = frame (next_id js CliCb rb api c) (refusal js law rb ring W U ++ 0 ∷ []) in
        let code = err_code EventErr.parse in
        let call : Call js CliCb = record { cb = wild d.action; ret = pos code; rsp = null } in
        (c1 : MsgClient js CliCb rb api) × (s1 : MsgServer js rb W U) × (c2 : MsgClient js CliCb rb
          api)
        × (send_command js rb api g alloc pid d c ≡ some (ok_code, c1))
        × (c1.client_fd.sent ≡ c.client_fd.sent ++ asked)
        × (Dispatch.recv_data js rb W U s m asked w ≡ some (ok_code, s1, w))
        × (s1.client_fd.sent ≡ s.client_fd.sent ++ answered)
        × (Receive.recv_data js CliCb rb api c1 true answered ≡ (ok_code, c2))
        × (c2.calls ≡ c.calls ++ call ∷ [])
  send_command-never_acts c g alloc s m w pid d node timer action named memory can_send can_refuse
        can_hear readable =
      let id = next_id js CliCb rb api c in
      let id_bound : id < u32_mod = omega arith in
      let req =
        request_for js CliCb rb api c g EventType.task_action (wild_cb d.action) node timer in
      let (fd, sent, wire) = commands c g alloc pid d node timer action memory can_send in
      let (s1, served, wire') =
        refuses js law rb ring W U s m w id (command_text pid d.action) can_refuse
          (λ b.
            action_request-refused js law rb W U (record s { ring = b }) m id
              (command_text pid d.action ++ 0 ∷ []) w pid (pos d.action) readable.request)
          id_bound readable.request_short in
      let (c2, heard, calls, left) =
        hears_refusal js law rb ring W U CliCb api lists c fd req (wild d.action) can_hear
          readable.reply (wild_cb-given d.action named) id_bound can_refuse.short in
      (waiting_for js CliCb rb api c req fd, s1, c2, sent, wire, served, wire', heard, calls)
