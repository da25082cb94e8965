-- ===== src/Server/Unbuffered.antt =====
-- What MsgServer::parseServerData of src/task_msg.cpp has to do with the ring buffer: nothing.
use task_monitor.Base.{
  ℕ, ◌+◌, ◌%◌, ◌≡◌, refl, List, [], ◌∷◌, ◌++◌, Option, none, some, ℤ, length, u32_mod, Option-cases,
  inl, inr,
}
use task_monitor.Ring.{RingBuf}
use task_monitor.Json.{Json, Alloc, codes}
use task_monitor.Send.{send_frame}
use task_monitor.Server.{MsgServer}
use task_monitor.Server.Handlers.{
  process_heartbeat_req, process_query_all_req, process_query_single_task_req,
  process_task_action_req,
}
use task_monitor.Server.Dispatch.{
  Memory, dispatch, reply_data, write_reply, answer, parse_server_data, checked_type,
}

module _ (js : Json) (rb : RingBuf) (W U : Type 0) where
  abbrev pub Result : Type 0
  Result = Option (ℤ × MsgServer js rb W U × W)

  -- The result, with another ring buffer in the object.
  abbrev pub with_ring : rb.Buf → Result → Result
  with_ring b none = none
  with_ring b (some (ret, s, w)) = some (ret, record s { ring = b }, w)

  write_reply-ring :
      (s : MsgServer js rb W U) (b : rb.Buf) (req_id : ℕ) (reply : Option (List ℕ)) (w : W)
      → write_reply js rb W U (record s { ring = b }) req_id reply w
        ≡ with_ring b (write_reply js rb W U s req_id reply w)
  unfolding write_reply
  write_reply-ring s b req_id none w = refl
  write_reply-ring s b req_id (some text) w =
      elim (Option-cases
        (send_frame s.client_fd req_id (text ++ 0 ∷ []) ((length text + 1) % u32_mod))) [
          | inl e ↦ rw (write_reply, e) refl
          | inr ((ret, fd), e) ↦ rw (write_reply, e) refl
        ]

  dispatch-ring :
      (s : MsgServer js rb W U) (b : rb.Buf) (alloc : Alloc) (type : ℤ) (value : Option js.Value)
      (w : W)
      → dispatch js rb W U (record s { ring = b }) alloc type value w
        ≡ dispatch js rb W U s alloc type value w
  unfolding dispatch process_heartbeat_req process_query_all_req process_query_single_task_req
      process_task_action_req
  dispatch-ring s b alloc type value w = refl

  answer-ring :
      (s : MsgServer js rb W U) (b : rb.Buf) (m : Memory) (req_id : ℕ) (type : ℤ)
      (value : Option js.Value) (w : W)
      → answer js rb W U (record s { ring = b }) m req_id type value w
        ≡ with_ring b (answer js rb W U s m req_id type value w)
  unfolding answer
  answer-ring s b m req_id type value w =
      let h = dispatch js rb W U s m.alloc type value w in
      let same = dispatch-ring s b m.alloc type value w in
      elim (Option-cases (reply_data js rb W U m.fail_alloc h.0)) [
        | inl e ↦ rw (answer, same, e) refl
        | inr (reply, e) ↦ rw (answer, same, e) (write_reply-ring s b req_id reply h.1)
      ]

  -- The handling of a request neither reads nor changes the ring buffer.
  pub parse_server_data-ring :
      (s : MsgServer js rb W U) (b : rb.Buf) (m : Memory) (req_id : ℕ) (text : List ℕ) (w : W)
      → parse_server_data js rb W U (record s { ring = b }) m req_id text w
        ≡ with_ring b (parse_server_data js rb W U s m req_id text w)
  unfolding parse_server_data
  parse_server_data-ring s b m req_id text w = elim (Option-cases (js.parse text)) [
    | inl e ↦ rw (parse_server_data, e) refl
    | inr (root, e) ↦
        elim (Option-cases (checked_type js rb W U root (js.get_object_item root (codes "type")))) [
          | inl e' ↦ rw (parse_server_data, e, e') refl
          | inr (type, e') ↦
              rw (parse_server_data, e, e')
                (answer-ring s b m req_id type (js.get_object_item root (codes "data")) w)
        ]
  ]
