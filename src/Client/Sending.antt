-- ===== src/Client/Sending.antt =====
-- The sending of a request in src/task_msg.cpp where nothing fails: a frame on the wire, and a
-- request that waits.
use task_monitor.Base.{
  ℕ, ◌+◌, ◌%◌, ◌<◌, ◌≡◌, refl, List, [], ◌∷◌, ◌++◌, true, false, Option, some, arith, length,
  length-append, ok_code, pos, u32_mod, none, ◌∙◌, ap, ℤ, Option-cases, inl, inr,
}
use task_monitor.Socket.{Socket}
use task_monitor.Socket.Delivery.{Progress, writes}
use task_monitor.Ring.{RingBuf}
use task_monitor.Package.Frame.{frame}
use task_monitor.ListApi.{ListApi}
use task_monitor.Json.{Json}
use task_monitor.Msg.{EventType}
use task_monitor.Send.Wire.{send_frame-returns, send_frame-sent}
use task_monitor.Send.{send_frame}
use task_monitor.Client.{
  MsgRequest, MsgClient, Grant, send_request, get_next_req_id, req_node_create, wait_for,
  create_timer, start_timer, after_writes,
}
use task_monitor.Client.Requests.{send_tree, default_req_timeout}

module _ (js : Json) (C : Type 0) (rb : RingBuf) (api : ListApi (MsgRequest js C)) where
  open js use {Value, Double, double_eq, of_int, print}

  -- The id of the next request.
  abbrev pub next_id : MsgClient js C rb api → ℕ
  next_id c = (c.cur_req_id + 1) % u32_mod

  -- What a client has that can send, and what the system gives to the request.
  pub record CanSend (c : MsgClient js C rb api) (g : Grant js C rb api) (text : List ℕ)
      (node timer : ℕ) : Type 0 where
    pub node_given : g.node ≡ some node
    pub timer_given : g.timer ≡ some timer
    pub progress : Progress c.client_fd.answers
    pub enough : length text + 21 < writes c.client_fd.answers
    pub short : length text + 1 < u32_mod
    -- 3.0 is not 0.0
    pub timed : double_eq (default_req_timeout js C rb api) (of_int (pos 0)) ≡ false

  -- The request that then waits.
  abbrev pub request_for :
      MsgClient js C rb api → Grant js C rb api → EventType → Option C → ℕ → ℕ → MsgRequest js C
  request_for c g type cb node timer = record {
    node = node;
    req_id = next_id c;
    type = type;
    cb = cb;
    time_start = g.now;
    timeout = default_req_timeout js C rb api;
    timer = timer;
  }

  -- The client afterwards, with its connection as the writes left it.
  abbrev pub waiting_for : MsgClient js C rb api → MsgRequest js C → Socket → MsgClient js C rb api
  waiting_for c req fd = record c {
    client_fd = fd;
    request_list = api.list_add req c.request_list;
    cur_req_id = req.req_id;
    timers = c.timers ++ create_timer req.timer ∷ start_timer req.timer ∷ [];
  }

  pub send_tree-sends :
      (c : MsgClient js C rb api) (g : Grant js C rb api) (type : EventType) (root : Value)
      (cb : Option C) (node timer : ℕ)
      → CanSend c g (print root) node timer
      → (fd : Socket) × (send_tree js C rb api c g true type root cb
          ≡ some (ok_code, waiting_for c (request_for c g type cb node timer) fd))
        × (fd.sent ≡ c.client_fd.sent ++ frame (next_id c) (print root ++ 0 ∷ []))
  unfolding send_tree send_request get_next_req_id req_node_create wait_for
  send_tree-sends c g type root cb node timer can =
      let text = print root in
      let len : length (text ++ 0 ∷ []) ≡ length text + 1 = length-append text (0 ∷ []) in
      let size : (length text + 1) % u32_mod ≡ length (text ++ 0 ∷ []) = omega (arith, can.short) in
      let (fd, e, sent) =
        send_frame-returns c.client_fd (next_id c) (text ++ 0 ∷ []) can.progress
          (omega (arith, can.enough)) in
      (
        fd,
        rw (send_tree, send_request, size, e, can.timed, can.node_given, can.timer_given) refl,
        sent,
      )

  -- Only failed writes give a result other than theirs, and nothing else touches the connection.
  after_writes-fd :
      (c c' : MsgClient js C rb api) (ret : ℤ) (timeout : js.Double)
      (req : Option (MsgRequest js C))
      → after_writes js C rb api c ret timeout req ≡ (ok_code, c')
      → (ret ≡ ok_code) × (c'.client_fd ≡ c.client_fd)
  unfolding after_writes
  after_writes-fd c c' ret timeout none e = ground arith
  after_writes-fd c c' ret timeout (some r) e = ground arith

  -- A request that was sent with the result 0 is one frame more on the wire.
  pub send_request-sent :
      (c c' : MsgClient js C rb api) (g : Grant js C rb api) (type : EventType) (buf : List ℕ)
      (cb : Option C) (timeout : js.Double)
      → send_request js C rb api c g type buf (length buf) cb timeout ≡ some (ok_code, c')
      → c'.client_fd.sent ≡ c.client_fd.sent ++ frame (next_id c) buf
  unfolding send_request get_next_req_id
  send_request-sent c c' g type buf cb timeout e =
      let next = get_next_req_id js C rb api c in
      elim (Option-cases (send_frame c.client_fd next.0 buf (length buf))) [
        | inl blocked ↦ ground arith
        | inr ((ret, fd), ew) ↦
            let sent : MsgClient js C rb api = record (next.1) { client_fd = fd } in
            let req = req_node_create js C rb api g next.0 cb type timeout in
            let same : after_writes js C rb api sent ret timeout req ≡ (ok_code, c') =
              ground arith in
            let (zero_code, kept) = after_writes-fd sent c' ret timeout req same in
            let written : send_frame c.client_fd next.0 buf (length buf) ≡ some (ok_code, fd) =
              rw (← zero_code) ew in
            ap (λ (s : Socket). s.sent) kept
            ∙ send_frame-sent c.client_fd fd (next_id c) buf written
      ]
