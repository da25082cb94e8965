-- ===== src/TaskClient/Beating.antt =====
-- A heartbeat of src/task_client.cpp: the timer that sends it, the connection of
-- src/TaskObjClient.cpp in the daemon, and what client_readio_cb and heartbeat_req_cb make of the
-- answer.
use task_monitor.Base.{
  ℕ, ◌+◌, ◌<◌, ◌≡◌, refl, List, [], ◌∷◌, ◌++◌, true, none, some, arith, ℤ, pos, length, ok_code,
  u32_mod,
}
use task_monitor.Socket.{Socket}
use task_monitor.Ring.{RingBuf, IsRing}
use task_monitor.Package.Frame.{frame}
use task_monitor.ListApi.{ListApi, IsListApi}
use task_monitor.Json.{Json, IsJson, Alloc}
use task_monitor.Msg.{EventType, EventErr, err_code, HeartbeatRsp}
use task_monitor.Server.{MsgServer}
use task_monitor.Server.Handlers.{fail_tree}
use task_monitor.Server.Dispatch.{Memory}
use task_monitor.Client.{MsgRequest, MsgClient, Grant, Call, node_of, null}
use task_monitor.Client.Requests.{heartbeat_request, send_req_hearbeat}
use task_monitor.Client.Receive
use task_monitor.Client.Sending.{CanSend, next_id, request_for, waiting_for, send_tree-sends}
use task_monitor.Exchange.Asking.{heartbeat_request-refused}
use task_monitor.Exchange.Hearing.{CanHear}
use task_monitor.Exchange.Refused.{CanRefuse, refusal, refuses, hears_refusal}
use task_monitor.TaskObjClient.{TaskObjClient, ReadAnswer, got, task_read_io_cb}
use task_monitor.TaskObjClient.Reading.{task_read_io_cb-served}
use task_monitor.TaskClient.{
  TaskClient, heartbeat_req_cb, heartbeat_timer_cb, read_loop, client_readio_cb,
}

module _ (js : Json) (law : IsJson js) (rb : RingBuf) (ring : IsRing rb) (W U C : Type 0)
    (api : ListApi (MsgRequest js C)) (lists : IsListApi (node_of js C) api)
    (heartbeat_cb : C) where
  open js use {print, Double}

  abbrev Global : Type 0
  Global = TaskClient js C rb api heartbeat_cb

  -- What the timer sends.
  abbrev beat_text : ℤ → Double → List ℕ
  beat_text my_pid period = print (heartbeat_request js my_pid period)

  -- What both ends print is what the other end reads, and the heartbeat fits a length field.
  pub record Readable (my_pid : ℤ) (period : Double) : Type 0 where
    pub request :
        js.parse (beat_text my_pid period ++ 0 ∷ []) ≡ some (heartbeat_request js my_pid period)
    pub reply :
        js.parse (refusal js law rb ring W U ++ 0 ∷ [])
        ≡ some (fail_tree js (err_code EventErr.parse))
    pub request_short : length (beat_text my_pid period) + 9 < u32_mod

  beats :
      (g : Global) (c : MsgClient js C rb api) (grant : Grant js C rb api) (alloc : Alloc)
      (my_pid : ℤ) (node timer : ℕ)
      → g.msg_client ≡ some c
      → ((n : ℕ) → alloc n ≡ true)
      → CanSend js C rb api c grant (beat_text my_pid g.heartbeat_timeout) node timer
      → (fd : Socket) × (heartbeat_timer_cb js C rb api heartbeat_cb grant alloc my_pid g
          ≡ some (record g {
            msg_client = some (
                waiting_for js C rb api c
                  (request_for js C rb api c grant EventType.heartbeat
                    (some heartbeat_cb)
                    node
                    timer)
                  fd);
          }))
        × (fd.sent
            ≡ c.client_fd.sent
              ++ frame (next_id js C rb api c) (beat_text my_pid g.heartbeat_timeout ++ 0 ∷ []))
  unfolding heartbeat_timer_cb send_req_hearbeat
  beats g c grant alloc my_pid node timer has memory can =
      let (fd, e, sent) =
        send_tree-sends js C rb api c grant EventType.heartbeat
          (heartbeat_request js my_pid g.heartbeat_timeout) (some heartbeat_cb) node timer can in
      (fd, rw (heartbeat_timer_cb, has, memory 0, memory 1, memory 2, e) refl, sent)

  client_readio_cb-heard :
      (g : Global) (c c' : MsgClient js C rb api) (buf : List ℕ) (rest : List ReadAnswer)
      → g.msg_client ≡ some c
      → Receive.recv_data js C rb api c true buf ≡ (ok_code, c')
      → client_readio_cb js C rb api heartbeat_cb (got buf ∷ rest) true g
        ≡ some (record g { msg_client = some c' }, [])
  unfolding client_readio_cb read_loop
  client_readio_cb-heard g c c' buf rest has e = rw (client_readio_cb, has, read_loop, e) refl

  -- A heartbeat never comes to a task, where nothing fails on the way: memory, the peers' writes and
  -- the buffers suffice, both ends hold nothing unread, and the texts are read as they were printed.
  -- The timer sends one frame; the daemon's connection, given it, answers with the message of
  -- EVENT_ERROR_PARSE, stays open, and leaves the program's state, the timers of the tasks in it,
  -- as it was; and the library, given that, has its callback called once, with that code, at which
  -- it changes nothing, so that the period of its heartbeats stays what it was.
  pub heartbeat_timer_cb-lost :
      (g : Global) (c : MsgClient js C rb api) (grant : Grant js C rb api) (alloc : Alloc)
      (my_pid : ℤ) (conn : TaskObjClient js rb W U) (s : MsgServer js rb W U) (m : Memory) (w : W)
      (node timer : ℕ) (rest rest' : List ReadAnswer)
      → g.msg_client ≡ some c
      → conn.msg_server ≡ some s
      → ((n : ℕ) → alloc n ≡ true)
      → CanSend js C rb api c grant (beat_text my_pid g.heartbeat_timeout) node timer
      → CanRefuse js law rb ring W U s m
          (frame (next_id js C rb api c) (beat_text my_pid g.heartbeat_timeout ++ 0 ∷ []))
      → CanHear js C rb ring api lists c
          (frame (next_id js C rb api c) (refusal js law rb ring W U ++ 0 ∷ []))
      → Readable my_pid g.heartbeat_timeout
      → let beat = frame (next_id js C rb api c) (beat_text my_pid g.heartbeat_timeout ++ 0 ∷ []) in
        let answer = frame (next_id js C rb api c) (refusal js law rb ring W U ++ 0 ∷ []) in
        let code = err_code EventErr.parse in
        let call : Call js C = record { cb = heartbeat_cb; ret = pos code; rsp = null } in
        (c1 : MsgClient js C rb api) × (s1 : MsgServer js rb W U) × (c2 : MsgClient js C rb api)
        × (heartbeat_timer_cb js C rb api heartbeat_cb grant alloc my_pid g
            ≡ some (record g { msg_client = some c1 }))
        × (c1.client_fd.sent ≡ c.client_fd.sent ++ beat)
        × (task_read_io_cb js rb W U (got beat ∷ rest) m conn w
            ≡ some ((record conn { msg_server = some s1 }, []), w))
        × (s1.client_fd.sent ≡ s.client_fd.sent ++ answer)
        × (client_readio_cb js C rb api heartbeat_cb
              (got answer ∷ rest')
              true
              (record g { msg_client = some c1 })
            ≡ some (record g { msg_client = some c2 }, []))
        × (c2.calls ≡ c.calls ++ call ∷ [])
        × ((rsp : HeartbeatRsp js) (now : Global)
            → heartbeat_req_cb js C rb api heartbeat_cb (pos code) rsp now ≡ (now, none))
  unfolding heartbeat_req_cb err_code
  heartbeat_timer_cb-lost g c grant alloc my_pid conn s m w node timer rest rest' has serving memory
        can_send can_refuse can_hear readable =
      let id = next_id js C rb api c in
      let text = beat_text my_pid g.heartbeat_timeout in
      let id_bound : id < u32_mod = omega arith in
      let req =
        request_for js C rb api c grant EventType.heartbeat (some heartbeat_cb) node timer in
      let (fd, sent, wire) = beats g c grant alloc my_pid node timer has memory can_send in
      let c1 = waiting_for js C rb api c req fd in
      let (s1, served, wire') =
        refuses js law rb ring W U s m w id text can_refuse
          (λ b.
            heartbeat_request-refused js law rb W U (record s { ring = b }) m id (text ++ 0 ∷ []) w
              my_pid g.heartbeat_timeout readable.request)
          id_bound readable.request_short in
      let (c2, heard, calls, left) =
        hears_refusal js law rb ring W U C api lists c fd req heartbeat_cb can_hear readable.reply
          refl id_bound can_refuse.short in
      (
        c1,
        s1,
        c2,
        sent,
        wire,
        task_read_io_cb-served js rb W U conn s s1 m w w _ rest serving served,
        wire',
        client_readio_cb-heard (record g { msg_client = some c1 }) c1 c2 _ rest' refl heard,
        calls,
        λ rsp now. refl,
      )
