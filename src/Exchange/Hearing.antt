-- ===== src/Exchange/Hearing.antt =====
-- The reply to the newest request of a MsgClient of src/task_msg.cpp, as it arrives.
use task_monitor.Base.{
  ℕ, ◌+◌, ◌<◌, ◌≡◌, refl, sym, ap, ◌∙◌, List, [], ◌∷◌, ◌++◌, true, some, arith, length,
  length-append, ok_code, u32_mod, append-nil, ==_refl,
}
use task_monitor.Socket.{Socket}
use task_monitor.Ring.{RingBuf, IsRing}
use task_monitor.Package.Frame.{frame, length-frame}
use task_monitor.ListApi.{ListApi, IsListApi, delete}
use task_monitor.Json.{Json}
use task_monitor.Client.{MsgRequest, MsgClient, Call, node_of, ended, drop_request}
use task_monitor.Client.Receive.{find_request, parse_client_data, recv_data}
use task_monitor.Client.Sending.{waiting_for}
use task_monitor.Client.Delivery.{recv_data-completes_response}

-- One more than the text, which ends in a NUL.
pub length-closed : (text : List ℕ) → length (text ++ 0 ∷ []) ≡ length text + 1
length-closed text = length-append text (0 ∷ [])

module _ (js : Json) (C : Type 0) (rb : RingBuf) (ring : IsRing rb)
    (api : ListApi (MsgRequest js C)) (lists : IsListApi (node_of js C) api) where
  open ring use {contents}

  -- A client whose buffer is empty and takes the reply.
  pub record CanHear (c : MsgClient js C rb api) (bytes : List ℕ) : Type 0 where
    pub nothing_left : contents c.ring ≡ []
    pub room_left : (rb.write_data c.ring bytes).1 ≡ length bytes

  -- The newest request is found under its id.
  pub newest :
      (req : MsgRequest js C) (list : api.Head)
      → find_request js C req.req_id (api.entries (api.list_add req list)) ≡ some req
  unfolding find_request
  newest req list = rw (lists.entries_add req list, ==_refl req.req_id) refl

  removed :
      (req : MsgRequest js C) (list : api.Head)
      → api.entries (api.list_del req.node (api.list_add req list)) ≡ api.entries list
  unfolding delete
  removed req list =
      lists.entries_del req.node (api.list_add req list)
      ∙ rw (lists.entries_add req list, ==_refl req.node) refl

  -- What arrives whole is handled, and its request then no longer waits, while the others do.
  pub hears_reply :
      (c : MsgClient js C rb api) (fd : Socket) (req : MsgRequest js C) (text : List ℕ)
      (calls : List (Call js C))
      → CanHear c (frame req.req_id (text ++ 0 ∷ []))
      → req.req_id < u32_mod
      → length text + 9 < u32_mod
      → ((b : rb.Buf)
          → let w = record (waiting_for js C rb api c req fd) { ring = b } in
            parse_client_data js C rb api w req.req_id (text ++ 0 ∷ [])
            ≡ (ok_code, ended js C rb api w req calls))
      → (c' : MsgClient js C rb api) × (recv_data js C rb api
            (waiting_for js C rb api c req fd)
            true
            (frame req.req_id (text ++ 0 ∷ []))
          ≡ (ok_code, c'))
        × (c'.calls ≡ c.calls ++ calls)
        × (api.entries c'.request_list ≡ api.entries c.request_list)
  unfolding drop_request
  hears_reply c fd req text calls can hid short handled =
      let bytes = frame req.req_id (text ++ 0 ∷ []) in
      let len = length-closed text in
      let long = length-frame req.req_id (text ++ 0 ∷ []) in
      let w = waiting_for js C rb api c req fd in
      let (b, left, e) =
        recv_data-completes_response js C rb ring api w bytes (text ++ 0 ∷ []) [] req.req_id
          (ap (λ (l : List ℕ). l ++ bytes) can.nothing_left ∙ sym (append-nil bytes)) (omega arith)
          can.room_left hid (omega arith) (omega arith) in
      let w' : MsgClient js C rb api = record w { ring = b } in
      (ended js C rb api w' req calls, e ∙ handled b, refl, removed req c.request_list)
