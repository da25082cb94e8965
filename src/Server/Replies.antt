-- ===== src/Server/Replies.antt =====
-- One request, one reply: what MsgServer::parseServerData of src/task_msg.cpp writes.
use task_monitor.Base.{
  ℕ, ◌+◌, ◌%◌, ◌<◌, ◌≡◌, inl, inr, ◌∙◌, List, [], ◌∷◌, ◌++◌, true, false, some, arith, length,
  length-append, ok_code, fail_code, u32_mod, Option-cases,
}
use task_monitor.Socket.{Socket}
use task_monitor.Socket.Delivery.{Progress, writes}
use task_monitor.Ring.{RingBuf}
use task_monitor.Package.Frame.{frame}
use task_monitor.Json.{Json, codes}
use task_monitor.Send.Wire.{send_frame-returns}
use task_monitor.Server.{MsgServer}
use task_monitor.Server.Dispatch.{
  Memory, dispatch, reply_data, write_reply, answer, parse_server_data,
}

module _ (js : Json) (rb : RingBuf) (W U : Type 0) where
  -- With a numeric type, the call is the answer to that type.
  pub parse_server_data-answer :
      (s : MsgServer js rb W U) (m : Memory) (req_id : ℕ) (bytes : List ℕ) (w : W)
      (root type : js.Value)
      → js.parse bytes ≡ some root
      → js.get_object_item root (codes "type") ≡ some type
      → js.is_number type ≡ true
      → parse_server_data js rb W U s m req_id bytes w
        ≡ answer js rb W U s m req_id (js.valueint type) (js.get_object_item root (codes "data")) w
  unfolding parse_server_data
  parse_server_data-answer s m req_id bytes w root type ep et en = ground arith

  pub write_reply-sent :
      (s : MsgServer js rb W U) (req_id : ℕ) (text : List ℕ) (w : W)
      → length text + 1 < u32_mod
      → Progress s.client_fd.answers
      → length text + 21 < writes s.client_fd.answers
      → (fd : Socket) × (write_reply js rb W U s req_id (some text) w
          ≡ some (ok_code, record s { client_fd = fd }, w))
        × (fd.sent ≡ s.client_fd.sent ++ frame req_id (text ++ 0 ∷ []))
  unfolding write_reply
  write_reply-sent s req_id text w short pr many =
      let len : length (text ++ 0 ∷ []) ≡ length text + 1 = length-append text (0 ∷ []) in
      let size : (length text + 1) % u32_mod ≡ length (text ++ 0 ∷ []) = omega arith in
      let (fd, e, sent) = send_frame-returns s.client_fd req_id (text ++ 0 ∷ []) pr (omega arith) in
      (fd, ground arith, sent)

  -- A request with a numeric type is answered by exactly one frame, under its own request id, with
  -- the text of the reply and a NUL; the program's state is what the handler made of it, and
  -- the server keeps its ring buffer, callbacks and user data. Needed: the handler came to a text,
  -- or an error and the message of a failure could be made; the text fits a length field; and the
  -- peer takes a byte at each of enough writes.
  pub parse_server_data-answers :
      (s : MsgServer js rb W U) (m : Memory) (req_id : ℕ) (bytes text : List ℕ) (w : W)
      (root type : js.Value)
      → js.parse bytes ≡ some root
      → js.get_object_item root (codes "type") ≡ some type
      → js.is_number type ≡ true
      → let h =
          dispatch js rb W U s m.alloc
            (js.valueint type)
            (js.get_object_item root (codes "data"))
            w in
        reply_data js rb W U m.fail_alloc h.0 ≡ some (some text)
        → length text + 1 < u32_mod
        → Progress s.client_fd.answers
        → length text + 21 < writes s.client_fd.answers
        → (fd : Socket) × (parse_server_data js rb W U s m req_id bytes w
            ≡ some (ok_code, record s { client_fd = fd }, h.1))
          × (fd.sent ≡ s.client_fd.sent ++ frame req_id (text ++ 0 ∷ []))
  unfolding answer
  parse_server_data-answers s m req_id bytes text w root type ep et en er short pr many =
      let h =
        dispatch js rb W U s m.alloc (js.valueint type) (js.get_object_item root (codes "data"))
          w in
      let (fd, e, sent) = write_reply-sent s req_id text h.1 short pr many in
      (fd, parse_server_data-answer s m req_id bytes w root type ep et en ∙ rw (er, answer) e, sent)

  -- Text that is no JSON, or has no numeric type, ends in -1: nothing is written, nothing changes.
  parse_server_data-malformed :
      (s : MsgServer js rb W U) (m : Memory) (req_id : ℕ) (bytes : List ℕ) (w : W)
      → ((root type : js.Value)
          → js.parse bytes ≡ some root
          → js.get_object_item root (codes "type") ≡ some type
          → js.is_number type ≡ false)
      → parse_server_data js rb W U s m req_id bytes w ≡ some (fail_code, s, w)
  unfolding parse_server_data
  parse_server_data-malformed s m req_id bytes w h = elim (Option-cases (js.parse bytes)) [
    | inl e ↦ ground arith
    | inr (root, e) ↦ elim (Option-cases (js.get_object_item root (codes "type"))) [
      | inl e' ↦ ground arith
      | inr (type, e') ↦ ground (arith, h root type e e')
    ]
  ]
