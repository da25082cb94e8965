-- ===== src/Server/Handlers.antt =====
-- MsgServer::processHeartbeatReq, processQueryAllReq, processQuerySingleTaskReq,
-- processTaskActionReq and createFailMsg of src/task_msg.cpp.
use task_monitor.Base.{
  ℕ, zero, suc, List, [], ◌∷◌, Bool, Option, none, some, if◌then◌else◌, pos, to_u32, take, ◌&&◌,
}
use task_monitor.Ring.{RingBuf}
use task_monitor.Json.{Json, Alloc, codes, add_number, add_string}
use task_monitor.Msg.{
  EventErr, HeartbeatReq, HeartbeatRsp, TaskSimpleInfo, TaskAllRsp, TaskSingleReq, TaskDetailInfo,
  TaskActionReq,
}
use task_monitor.Server.{MsgServer}

-- A parsed request, or the code of the early return.
pub data Checked (A : Type 0) : Type 0 where
  ok : A → Checked A
  err : EventErr → Checked A

infixl 5 ◌>>=◌
abbrev pub ◌>>=◌ : {A B : Type 0} → Checked A → (A → Checked B) → Checked B
ok a >>= f = f a
err e >>= f = err e

-- What a handler leaves behind: the text of the reply, or an error code. `fault`: it read past the
-- end of the array that the callback returned.
pub data Handled : Type 0 where
  replied : List ℕ → Handled
  refused : EventErr → Handled
  fault : Handled

-- strncpy(dst, src, sizeof(dst) - 1) into zeroed memory.
unfoldable pub strncpy : List ℕ → ℕ → List ℕ
strncpy src n = take n src

module _ (js : Json) where
  open js use {
    Value, of_int, is_object, is_number, is_string, get_object_item, valueint, valuedouble,
    valuestring, create_object, create_array, add_item_to_object, add_item_to_array, print,
  }

  -- `!data || data->type != cJSON_Object`
  abbrev pub checked_object : Option Value → Checked Value
  checked_object none = err EventErr.parse
  checked_object (some d) = if is_object d then ok d else err EventErr.parse

  -- `!item || item->type != cJSON_Number`
  abbrev pub checked_number : Option Value → Checked Value
  checked_number none = err EventErr.parse
  checked_number (some v) = if is_number v then ok v else err EventErr.parse

  abbrev pub checked_string : Option Value → Checked Value
  checked_string none = err EventErr.parse
  checked_string (some v) = if is_string v then ok v else err EventErr.parse

  -- cJSON_AddNumberToObject of a `uint32_t`.
  abbrev pub add_u32 : Value → List ℕ → ℕ → Value
  add_u32 o k n = add_number js o k (of_int (pos n))

  -- The tree of a failure.
  abbrev pub fail_tree : ℕ → Value
  fail_tree errcode = add_u32 create_object (codes "ret") errcode

  -- `none`: no message could be made, and the caller's pointer stays null.
  unfoldable pub create_fail_msg : Alloc → ℕ → Option (List ℕ)
  create_fail_msg alloc errcode =
      if alloc 0 && alloc 1 then some (print (fail_tree errcode)) else none

  -- The common end of the handlers: a root with "ret" 0 and the data, printed.
  abbrev pub success_tree : Value → Value
  success_tree d = add_item_to_object (add_u32 create_object (codes "ret") 0) (codes "data") d

  abbrev pub finish : Bool → Value → Handled
  finish print_ok root = if print_ok then replied (print root) else refused EventErr.mem

  -- Root and data object, filled and printed, where the memory is there.
  abbrev pub reply_with : Alloc → Value → Handled
  reply_with alloc d =
      if alloc 0
      then (if alloc 1 then finish (alloc 2) (success_tree d) else refused EventErr.mem)
      else refused EventErr.mem

  unfoldable pub parse_heartbeat_req : Option Value → Checked (HeartbeatReq js)
  parse_heartbeat_req item = do
    d ← checked_object item
    pid ← checked_number (get_object_item d (codes "pid"))
    heartbeat ← checked_number (get_object_item d (codes "hearbeat"))
    ok (record { pid = to_u32 (valueint pid); heartbeat = valuedouble heartbeat })

  abbrev pub heartbeat_tree : HeartbeatRsp js → Value
  heartbeat_tree rsp =
      add_number js (add_u32 create_object (codes "pid") rsp.pid) (codes "heartbeat") rsp.heatbeat

  unfoldable pub heartbeat_reply : Alloc → EventErr → Option (HeartbeatRsp js) → Handled
  heartbeat_reply alloc EventErr.succ none = refused EventErr.mem
  heartbeat_reply alloc EventErr.succ (some rsp) = reply_with alloc (heartbeat_tree rsp)
  heartbeat_reply alloc ret _ = refused ret

  abbrev pub simple_tree : TaskSimpleInfo → Value
  simple_tree info =
      add_string js
        (add_u32 (add_string js create_object (codes "name") info.name) (codes "pid") info.pid)
        (codes "status") info.status

  -- The loop over taskList[i], `left` rounds from the end; `n` counts the allocations made.
  unfoldable pub fill_array : Alloc → ℕ → ℕ → List TaskSimpleInfo → Value → Handled
  fill_array alloc n zero infos array = finish (alloc n) (success_tree array)
  fill_array alloc n (suc left) [] array = if alloc n then fault else refused EventErr.mem
  fill_array alloc n (suc left) (info ∷ infos) array =
      let rest = fill_array alloc (suc n) left infos (add_item_to_array array (simple_tree info)) in
      if alloc n then rest else refused EventErr.mem

  unfoldable pub query_all_reply : Alloc → EventErr → Option TaskAllRsp → Handled
  unfolding fill_array
  query_all_reply alloc EventErr.succ none = refused EventErr.mem
  query_all_reply alloc EventErr.succ (some rsp) =
      if alloc 0
      then (if alloc 1
          then fill_array alloc 2 rsp.count rsp.task_list create_array
          else refused EventErr.mem)
      else refused EventErr.mem
  query_all_reply alloc ret _ = refused ret

  -- By name only where there is no pid.
  abbrev pub single_by_name : Value → Checked TaskSingleReq
  single_by_name d = do
    name ← checked_string (get_object_item d (codes "name"))
    ok (record { pid = 0; name = strncpy (valuestring name) 31 })

  abbrev pub single_by : Value → Option Value → Checked TaskSingleReq
  single_by d none = single_by_name d
  single_by d (some pid) = do
    pid ← checked_number (some pid)
    ok (record { pid = to_u32 (valueint pid); name = [] })

  unfoldable pub parse_single_req : Option Value → Checked TaskSingleReq
  unfolding strncpy
  parse_single_req item = do d ← checked_object item; single_by d (get_object_item d (codes "pid"))

  abbrev pub detail_tree : TaskDetailInfo js → Value
  detail_tree info =
      let o = add_u32 create_object (codes "pid") info.pid in
      let o = add_string js o (codes "name") info.name in
      let o = add_string js o (codes "param") info.param in
      let o = add_string js o (codes "status") info.status in
      add_number js o (codes "heartbeat") info.heartbeat

  unfoldable pub single_reply : Alloc → EventErr → Option (TaskDetailInfo js) → Handled
  single_reply alloc EventErr.succ none = refused EventErr.mem
  single_reply alloc EventErr.succ (some info) = reply_with alloc (detail_tree info)
  single_reply alloc ret _ = refused ret

  unfoldable pub parse_action_req : Option Value → Checked TaskActionReq
  parse_action_req item = do
    d ← checked_object item
    pid ← checked_number (get_object_item d (codes "pid"))
    action ← checked_number (get_object_item d (codes "hearbeat"))
    ok (record { pid = to_u32 (valueint pid); name = []; action = valueint action })

  unfoldable pub action_reply : Alloc → EventErr → Handled
  action_reply alloc EventErr.succ =
      if alloc 0
      then finish (alloc 1) (add_u32 create_object (codes "ret") 0)
      else refused EventErr.mem
  action_reply alloc ret = refused ret

  module _ (rb : RingBuf) (W U : Type 0) where
    abbrev Server : Type 0
    Server = MsgServer js rb W U

    unfoldable pub process_heartbeat_req : Server → Alloc → Option Value → W → Handled × W
    unfolding parse_heartbeat_req heartbeat_reply
    process_heartbeat_req s alloc item w = elim (parse_heartbeat_req item) [
      | err e ↦ (refused e, w)
      | ok req ↦ elim s.event_cb.heartbeat [
        | none ↦ (refused EventErr.unprocess, w)
        | some cb ↦
            let (ret, rsp, w') = cb req s.user_data.heartbeat w in
            (heartbeat_reply alloc ret rsp, w')
      ]
    ]

    -- This handler looks at no data.
    unfoldable pub process_query_all_req : Server → Alloc → W → Handled × W
    unfolding query_all_reply
    process_query_all_req s alloc w = elim s.event_cb.query_all [
      | none ↦ (refused EventErr.unprocess, w)
      | some cb ↦
          let (ret, rsp, w') = cb tt s.user_data.query_all w in (query_all_reply alloc ret rsp, w')
    ]

    -- The user data is that of EVENT_TYPE_QUERY_ALL.
    unfoldable pub process_query_single_task_req : Server → Alloc → Option Value → W → Handled × W
    unfolding parse_single_req single_reply
    process_query_single_task_req s alloc item w = elim (parse_single_req item) [
      | err e ↦ (refused e, w)
      | ok req ↦ elim s.event_cb.query_task [
        | none ↦ (refused EventErr.unprocess, w)
        | some cb ↦
            let (ret, rsp, w') = cb req s.user_data.query_all w in (single_reply alloc ret rsp, w')
      ]
    ]

    -- So it is here.
    unfoldable pub process_task_action_req : Server → Alloc → Option Value → W → Handled × W
    unfolding parse_action_req action_reply
    process_task_action_req s alloc item w = elim (parse_action_req item) [
      | err e ↦ (refused e, w)
      | ok req ↦ elim s.event_cb.task_action [
        | none ↦ (refused EventErr.unprocess, w)
        | some cb ↦
            let (ret, _, w') = cb req s.user_data.query_all w in (action_reply alloc ret, w')
      ]
    ]
