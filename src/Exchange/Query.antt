-- ===== src/Exchange/Query.antt =====
-- A query for one task from end to end: MsgClient::sendReqQuerySingleTask, MsgServer::recvData with
-- processGetSingleTask behind it, and MsgClient::recvData, of src/task_msg.cpp and
-- src/task_core.cpp.
use task_monitor.Base.{
  ℕ, ◌+◌, ◌<◌, ◌^◌, ◌≡◌, ◌≢◌, refl, List, [], ◌∷◌, ◌++◌, true, Option, some, arith, length, pos,
  ok_code, u32_mod, to_u32,
}
use task_monitor.Socket.{Socket}
use task_monitor.Ring.{RingBuf, IsRing}
use task_monitor.Package.Frame.{frame}
use task_monitor.ListApi.{ListApi, IsListApi}
use task_monitor.Json.{Json, IsJson, Alloc}
use task_monitor.Msg.{EventType}
use task_monitor.Server.{MsgServer}
use task_monitor.Server.Handlers.{success_tree, detail_tree}
use task_monitor.Server.Dispatch.{Memory}
use task_monitor.Server.Dispatch
use task_monitor.TaskObj.{TaskObj}
use task_monitor.Core.{Core, detail_info}
use task_monitor.Client.{MsgRequest, MsgClient, Grant, Call, node_of, detail_rsp}
use task_monitor.Client.Requests.{query_single_request, send_req_query_single_task}
use task_monitor.Client.Receive
use task_monitor.Client.Receive.{find_request, parse_client_data}
use task_monitor.Client.Sending.{CanSend, next_id, request_for, waiting_for, send_tree-sends}
use task_monitor.Exchange.Hearing.{CanHear, newest, hears_reply}
use task_monitor.Exchange.Asked.{detail_info-Fits, wanted-pid, HasTask, CanServe, serves}
use task_monitor.Exchange.Completing.{Arrives, detail_reply-delivered}

module _ (js : Json) (law : IsJson js) (rb : RingBuf) (ring : IsRing rb) (C U : Type 0)
    (api : ListApi (MsgRequest js C)) (lists : IsListApi (node_of js C) api) where
  open js use {print}
  open ring use {contents}

  abbrev pub request_text : ℕ → Option (List ℕ) → List ℕ
  request_text pid name = print (query_single_request js (pos pid) name)

  abbrev pub reply_text : TaskObj → List ℕ
  reply_text t = print (success_tree js (detail_tree js (detail_info js t)))

  -- What both ends print is what the other end reads, and fits a length field.
  pub record Readable (pid : ℕ) (name : Option (List ℕ)) (t : TaskObj) : Type 0 where
    pub request :
        js.parse (request_text pid name ++ 0 ∷ []) ≡ some (query_single_request js (pos pid) name)
    pub reply :
        js.parse (reply_text t ++ 0 ∷ [])
        ≡ some (success_tree js (detail_tree js (detail_info js t)))
    pub request_short : length (request_text pid name) + 9 < u32_mod
    pub reply_short : length (reply_text t) + 9 < u32_mod

  asks :
      (c : MsgClient js C rb api) (g : Grant js C rb api) (alloc : Alloc) (pid : ℕ)
      (name : Option (List ℕ)) (cb : Option C) (node timer : ℕ)
      → ((n : ℕ) → alloc n ≡ true)
      → CanSend js C rb api c g (request_text pid name) node timer
      → (fd : Socket) × (send_req_query_single_task js C rb api c g alloc (pos pid) name cb
          ≡ some (
            ok_code,
            waiting_for js C rb api c
                (request_for js C rb api c g EventType.query_task cb node timer)
                fd,
          ))
        × (fd.sent
            ≡ c.client_fd.sent ++ frame (next_id js C rb api c) (request_text pid name ++ 0 ∷ []))
  unfolding send_req_query_single_task
  asks c g alloc pid name cb node timer memory can =
      let (fd, e, sent) =
        send_tree-sends js C rb api c g EventType.query_task
          (query_single_request js (pos pid) name) cb node timer can in
      (fd, rw (memory 0, memory 1, memory 2) e, sent)

  -- The reply arrives at a client whose newest request it answers.
  hears :
      (c : MsgClient js C rb api) (fd : Socket) (req : MsgRequest js C) (cb : C) (pid : ℕ)
      (name : Option (List ℕ)) (t : TaskObj)
      → CanHear js C rb ring api lists c (frame req.req_id (reply_text t ++ 0 ∷ []))
      → Readable pid name t
      → req.type ≡ EventType.query_task
      → req.cb ≡ some cb
      → req.req_id < u32_mod
      → to_u32 t.pid < 2 ^ 31
      → (c' : MsgClient js C rb api) × (Receive.recv_data js C rb api
            (waiting_for js C rb api c req fd)
            true
            (frame req.req_id (reply_text t ++ 0 ∷ []))
          ≡ (ok_code, c'))
        × (c'.calls
            ≡ c.calls
              ++ record { cb = cb; ret = ok_code; rsp = detail_rsp (detail_info js t) } ∷ [])
        × (api.entries c'.request_list ≡ api.entries c.request_list)
  hears c fd req cb pid name t can readable type has_cb hid hp =
      let info = detail_info js t in
      hears_reply js C rb ring api lists c fd req (reply_text t)
        (record { cb = cb; ret = ok_code; rsp = detail_rsp info } ∷ []) can hid readable.reply_short
        (λ b.
          let w : MsgClient js C rb api = record (waiting_for js C rb api c req fd) { ring = b } in
          let arrives : Arrives js law C rb api w req.req_id (reply_text t ++ 0 ∷ [])
              (success_tree js (detail_tree js info)) req cb =
            record {
              parsed = readable.reply;
              waits = newest js C rb ring api lists req c.request_list;
              has_cb = has_cb;
            } in
          detail_reply-delivered js law C rb api w req.req_id (reply_text t ++ 0 ∷ []) req cb info
            arrives type (detail_info-Fits js law t hp))

  -- A client asks for a task by its pid, and is answered, where memory, the peers' writes and the
  -- buffers suffice, both sides hold nothing unread, and the two texts are read as they were
  -- printed. The client sends one frame; the server, given it, leaves the program's state as it
  -- was and sends one frame under the same id; the client, given that, calls the callback once,
  -- with 0 and the details of the first task of the pid, and waits for the requests it waited for
  -- before.
  pub query_task-answered :
      (c : MsgClient js C rb api) (g : Grant js C rb api) (alloc : Alloc)
      (s : MsgServer js rb Core U) (m : Memory) (core : Core) (pid : ℕ) (name : Option (List ℕ))
      (cb : C) (t : TaskObj) (node timer : ℕ)
      → ((n : ℕ) → alloc n ≡ true)
      → CanSend js C rb api c g (request_text pid name) node timer
      → CanServe js law rb ring U s m
          (frame (next_id js C rb api c) (request_text pid name ++ 0 ∷ []))
          (reply_text t)
      → CanHear js C rb ring api lists c (frame (next_id js C rb api c) (reply_text t ++ 0 ∷ []))
      → Readable pid name t
      → HasTask js law rb ring U core pid t
      → pid ≢ 0
      → pid < 2 ^ 31
      → let asked = frame (next_id js C rb api c) (request_text pid name ++ 0 ∷ []) in
        let answered = frame (next_id js C rb api c) (reply_text t ++ 0 ∷ []) in
        let call : Call js C = record {
          cb = cb;
          ret = ok_code;
          rsp = detail_rsp (detail_info js t);
        } in
        (c1 : MsgClient js C rb api) × (s1 : MsgServer js rb Core U) × (c2 : MsgClient js C rb api)
        × (send_req_query_single_task js C rb api c g alloc (pos pid) name (some cb)
            ≡ some (ok_code, c1))
        × (c1.client_fd.sent ≡ c.client_fd.sent ++ asked)
        × (Dispatch.recv_data js rb Core U s m asked core ≡ some (ok_code, s1, core))
        × (s1.client_fd.sent ≡ s.client_fd.sent ++ answered)
        × (Receive.recv_data js C rb api c1 true answered ≡ (ok_code, c2))
        × (c2.calls ≡ c.calls ++ call ∷ [])
        × (api.entries c2.request_list ≡ api.entries c.request_list)
  query_task-answered c g alloc s m core pid name cb t node timer memory can_send can_serve can_hear
        readable found n h =
      let id_bound : next_id js C rb api c < u32_mod = omega arith in
      let is_pid = wanted-pid pid [] t n found.hit in
      let req = request_for js C rb api c g EventType.query_task (some cb) node timer in
      let (fd, sent, wire) = asks c g alloc pid name (some cb) node timer memory can_send in
      let (s1, served, wire') =
        serves js law rb ring U s m core (next_id js C rb api c) pid name t can_serve
          readable.request found h id_bound readable.request_short
          (omega (arith, readable.reply_short)) in
      let (c2, heard, calls, left) =
        hears c fd req cb pid name t can_hear readable refl refl id_bound (omega (arith, is_pid)) in
      (waiting_for js C rb api c req fd, s1, c2, sent, wire, served, wire', heard, calls, left)
