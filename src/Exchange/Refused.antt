-- ===== src/Exchange/Refused.antt =====
-- A request that MsgServer::recvData of src/task_msg.cpp refuses, and the refusal at the client.
use task_monitor.Base.{
  ℕ, ◌+◌, ◌<◌, ◌≡◌, refl, sym, ap, ◌∙◌, List, [], ◌∷◌, ◌++◌, true, some, arith, pos, length,
  ok_code, u32_mod, append-nil,
}
use task_monitor.Socket.Delivery.{Progress, writes}
use task_monitor.Ring.{RingBuf, IsRing}
use task_monitor.Package.Frame.{frame, length-frame}
use task_monitor.Json.{Json, IsJson}
use task_monitor.Msg.{EventErr, err_code}
use task_monitor.Server.{MsgServer}
use task_monitor.Server.Handlers.{fail_tree, create_fail_msg}
use task_monitor.Server.Dispatch.{Memory, recv_data, parse_server_data, write_reply}
use task_monitor.Server.Receive.{recv_data-completes}
use task_monitor.Server.Replies.{write_reply-sent}
use task_monitor.ListApi.{ListApi, IsListApi}
use task_monitor.Socket.{Socket}
use task_monitor.Client.{MsgRequest, MsgClient, Call, node_of, null}
use task_monitor.Client.Receive
use task_monitor.Client.Sending.{waiting_for}
use task_monitor.Exchange.Completing.{Arrives, fail_reply-delivered}
use task_monitor.Exchange.Hearing.{length-closed, CanHear, newest, hears_reply}

module _ (js : Json) (law : IsJson js) (rb : RingBuf) (ring : IsRing rb) (W U : Type 0) where
  open js use {print}
  open ring use {contents}

  abbrev pub refusal : List ℕ
  refusal = print (fail_tree js (err_code EventErr.parse))

  -- A server that can send the message of a failure: it has memory, an empty buffer with room,
  -- and a peer that takes bytes.
  pub record CanRefuse (s : MsgServer js rb W U) (m : Memory) (bytes : List ℕ) : Type 0 where
    pub memory : (n : ℕ) → m.fail_alloc n ≡ true
    pub package_memory : m.malloc_ok ≡ true
    pub nothing_left : contents s.ring ≡ []
    pub room_left : (rb.write_data s.ring bytes).1 ≡ length bytes
    pub progress : Progress s.client_fd.answers
    pub enough : length refusal + 21 < writes s.client_fd.answers
    pub short : length refusal + 9 < u32_mod

  -- A request that the server refuses arrives whole, and the refusal goes out under its id.
  pub refuses :
      (s : MsgServer js rb W U) (m : Memory) (w : W) (req_id : ℕ) (text : List ℕ)
      → CanRefuse s m (frame req_id (text ++ 0 ∷ []))
      → ((b : rb.Buf)
          → let s1 : MsgServer js rb W U = record s { ring = b } in
            parse_server_data js rb W U s1 m req_id (text ++ 0 ∷ []) w
            ≡ write_reply js rb W U s1 req_id
                (create_fail_msg js m.fail_alloc (err_code EventErr.parse))
                w)
      → req_id < u32_mod
      → length text + 9 < u32_mod
      → (s' : MsgServer js rb W U) × (recv_data js rb W U s m (frame req_id (text ++ 0 ∷ [])) w
          ≡ some (ok_code, s', w))
        × (s'.client_fd.sent ≡ s.client_fd.sent ++ frame req_id (refusal ++ 0 ∷ []))
  unfolding create_fail_msg
  refuses s m w req_id text can refused hid short =
      let bytes = frame req_id (text ++ 0 ∷ []) in
      let len = length-closed text in
      let long = length-frame req_id (text ++ 0 ∷ []) in
      let (b, left, e) =
        recv_data-completes js rb ring W U s m bytes (text ++ 0 ∷ []) [] req_id w
          (ap (λ (l : List ℕ). l ++ bytes) can.nothing_left ∙ sym (append-nil bytes)) (omega arith)
          can.room_left can.package_memory hid (omega arith) (omega arith) in
      let s1 : MsgServer js rb W U = record s { ring = b } in
      let made : create_fail_msg js m.fail_alloc (err_code EventErr.parse) ≡ some refusal =
        rw (can.memory 0, can.memory 1) refl in
      let (fd, e', sent) =
        write_reply-sent js rb W U s1 req_id refusal w (omega (arith, can.short)) can.progress
          can.enough in
      (record s1 { client_fd = fd }, e ∙ refused b ∙ rw made e', sent)

  -- The refusal arrives at a client whose newest request it answers.
  pub hears_refusal :
      (C : Type 0) (api : ListApi (MsgRequest js C)) (lists : IsListApi (node_of js C) api)
      (c : MsgClient js C rb api) (fd : Socket) (req : MsgRequest js C) (cb : C)
      → CanHear js C rb ring api lists c (frame req.req_id (refusal ++ 0 ∷ []))
      → js.parse (refusal ++ 0 ∷ []) ≡ some (fail_tree js (err_code EventErr.parse))
      → req.cb ≡ some cb
      → req.req_id < u32_mod
      → length refusal + 9 < u32_mod
      → let call : Call js C = record {
        cb = cb;
        ret = pos (err_code EventErr.parse);
        rsp = null;
      } in
        (c' : MsgClient js C rb api) × (Receive.recv_data js C rb api
            (waiting_for js C rb api c req fd)
            true
            (frame req.req_id (refusal ++ 0 ∷ []))
          ≡ (ok_code, c'))
        × (c'.calls ≡ c.calls ++ call ∷ [])
        × (api.entries c'.request_list ≡ api.entries c.request_list)
  hears_refusal C api lists c fd req cb can parsed has_cb hid short =
      hears_reply js C rb ring api lists c fd req refusal
        (record { cb = cb; ret = pos (err_code EventErr.parse); rsp = null } ∷ []) can hid short
        (λ b.
          let w : MsgClient js C rb api = record (waiting_for js C rb api c req fd) { ring = b } in
          let arrives : Arrives js law C rb api w req.req_id (refusal ++ 0 ∷ [])
              (fail_tree js (err_code EventErr.parse)) req cb =
            record {
              parsed = parsed;
              waits = newest js C rb ring api lists req c.request_list;
              has_cb = has_cb;
            } in
          fail_reply-delivered js law C rb api w req.req_id (refusal ++ 0 ∷ []) req cb
            EventErr.parse arrives (λ e. cc))
