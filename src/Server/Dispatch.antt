-- ===== src/Server/Dispatch.antt =====
-- MsgServer::parseServerData, procData and recvData of src/task_msg.cpp.
-- A result `none` stands for a call that does not return: a write that is interrupted for as long as
-- the answers last, or a read past the end of an array.
use task_monitor.Base.{
  ℕ, ◌+◌, ◌%◌, List, [], ◌∷◌, ◌++◌, Bool, Option, none, some, ◌==◌, if◌then◌else◌, length, ℤ, pos,
  negsuc, ok_code, fail_code, u32_mod,
}
use task_monitor.Ring.{RingBuf}
use task_monitor.Package.{get_available_package, payload}
use task_monitor.Json.{Json, Alloc, codes}
use task_monitor.Msg.{EventType, EventErr, err_code, is_succ}
use task_monitor.Send.{send_frame, ◌>>=◌}
use task_monitor.Server.{MsgServer}
use task_monitor.Server.Handlers.{
  Handled, replied, refused, fault, create_fail_msg, process_heartbeat_req, process_query_all_req,
  process_query_single_task_req, process_task_action_req,
}

-- The cases of the switch on `type->valueint`.
unfoldable pub event_of : ℤ → Option EventType
event_of (pos n) =
    if n == 0
    then some EventType.heartbeat
    else if n == 1
    then some EventType.query_all
    else if n == 2
    then some EventType.query_task
    else if n == 3
    then some EventType.task_action
    else none
event_of (negsuc n) = none

-- What memory gives to one request: its handler, the message of a failure, the package.
pub record Memory : Type 0 where
  pub alloc : Alloc
  pub fail_alloc : Alloc
  pub malloc_ok : Bool

module _ (js : Json) (rb : RingBuf) (W U : Type 0) where
  open js use {Value, is_number, get_object_item, valueint, parse}

  abbrev Server : Type 0
  Server = MsgServer js rb W U

  unfoldable pub handle : Server → Alloc → Option EventType → Option Value → W → Handled × W
  handle s alloc (some EventType.heartbeat) value w =
      process_heartbeat_req js rb W U s alloc value w
  handle s alloc (some EventType.query_all) value w = process_query_all_req js rb W U s alloc w
  handle s alloc (some EventType.query_task) value w =
      process_query_single_task_req js rb W U s alloc value w
  handle s alloc (some EventType.task_action) value w =
      process_task_action_req js rb W U s alloc value w
  handle s alloc _ value w = (refused EventErr.unknown_type, w)

  unfoldable pub dispatch : Server → Alloc → ℤ → Option Value → W → Handled × W
  unfolding handle event_of
  dispatch s alloc type value w = handle s alloc (event_of type) value w

  -- `replyData` after createFailMsg, if that was called. The outer `none` is a fault.
  unfoldable pub reply_data : Alloc → Handled → Option (Option (List ℕ))
  reply_data alloc (replied text) = some (some text)
  reply_data alloc (refused e) =
      if is_succ e then some none else some (create_fail_msg js alloc (err_code e))
  reply_data alloc fault = none

  -- `if(replyData)`: the text and its NUL, announced by `strlen(text) + 1`.
  unfoldable pub write_reply : Server → ℕ → Option (List ℕ) → W → Option (ℤ × Server × W)
  write_reply s req_id none w = some (ok_code, s, w)
  write_reply s req_id (some text) w = do
    (ret, fd) ← send_frame s.client_fd req_id (text ++ 0 ∷ []) ((length text + 1) % u32_mod)
    some (ret, record s { client_fd = fd }, w)

  unfoldable pub answer : Server → Memory → ℕ → ℤ → Option Value → W → Option (ℤ × Server × W)
  unfolding dispatch reply_data write_reply
  answer s m req_id type value w =
      let (handled, w') = dispatch s m.alloc type value w in
      reply_data m.fail_alloc handled >>= λ reply. write_reply s req_id reply w'

  -- `!type || type->type != cJSON_Number`
  abbrev pub checked_type : Value → Option Value → Option ℤ
  checked_type root none = none
  checked_type root (some type) = if is_number type then some (valueint type) else none

  unfoldable pub parse_server_data : Server → Memory → ℕ → List ℕ → W → Option (ℤ × Server × W)
  unfolding answer
  parse_server_data s m req_id text w = elim (parse text) [
    | none ↦ some (fail_code, s, w)
    | some root ↦ elim (checked_type root (get_object_item root (codes "type"))) [
      | none ↦ some (fail_code, s, w)
      | some type ↦ answer s m req_id type (get_object_item root (codes "data")) w
    ]
  ]

  unfoldable pub proc_data : Server → Memory → W → Option (ℤ × Server × W)
  unfolding parse_server_data
  proc_data s m w =
      let f = get_available_package rb m.malloc_ok s.ring in
      let s' = record s { ring = f.buf } in
      elim f.found [
        | none ↦ some (f.ret, s', w)
        | some p ↦ parse_server_data s' m p.req_id (payload p) w
      ]

  unfoldable pub recv_data : Server → Memory → List ℕ → W → Option (ℤ × Server × W)
  unfolding proc_data
  recv_data s m text w =
      let (ring, written) = rb.write_data s.ring text in
      let s' = record s { ring = ring } in
      if written == 0 then some (fail_code, s', w) else proc_data s' m w
