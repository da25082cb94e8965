-- ===== src/Client/Responses.antt =====
-- MsgClient::processHeartbeatRsp, processQueryAllRsp, processQueryTaskRsp, processTaskActionRsp and
-- processRspData of src/task_msg.cpp: the result, and the calls of the request's callback.
use task_monitor.Base.{
  ℕ, zero, suc, List, [], ◌∷◌, Bool, Option, none, some, if◌then◌else◌, ℤ, ok_code, fail_code,
  is_zero, to_u32,
}
use task_monitor.Ring.{RingBuf}
use task_monitor.ListApi.{ListApi}
use task_monitor.Json.{Json, codes}
use task_monitor.Msg.{EventType, HeartbeatRsp, TaskSimpleInfo, TaskAllRsp, TaskDetailInfo}
use task_monitor.Send.{◌>>=◌}
use task_monitor.Server.Handlers.{strncpy}
use task_monitor.Client.{
  MsgRequest, RspData, null, heartbeat_rsp, all_rsp, detail_rsp, Call, call_of,
}

module _ (js : Json) where
  open js use {
    Value, is_object, is_number, is_string, is_raw, get_object_item, get_array_size, get_array_item,
    valueint, valuedouble, valuestring,
  }

  -- An item that is there and passes the test of its type.
  abbrev pub item_of : (Value → Bool) → Option Value → Option Value
  item_of test none = none
  item_of test (some v) = if test v then some v else none

  -- The heartbeat is read from the item "pid", whose type is not looked at.
  unfoldable pub parse_heartbeat_rsp : Option Value → Option (HeartbeatRsp js)
  parse_heartbeat_rsp item = do
    d ← item_of is_object item
    pid ← get_object_item d (codes "pid")
    heartbeat ← get_object_item d (codes "heatbeat")
    some (record { pid = to_u32 (valueint pid); heatbeat = valuedouble pid })

  -- The status is copied from the item "name".
  unfoldable pub parse_simple_info : Option Value → Option TaskSimpleInfo
  unfolding strncpy
  parse_simple_info item = do
    d ← item_of is_object item
    name ← item_of is_string (get_object_item d (codes "name"))
    pid ← item_of is_number (get_object_item d (codes "pid"))
    status ← item_of is_string (get_object_item d (codes "status"))
    some (record {
      name = strncpy (valuestring name) 31;
      pid = to_u32 (valueint pid);
      status = strncpy (valuestring name) 31;
    })

  -- The loop over the items, `left` rounds from the end.
  unfoldable pub parse_items : ℕ → ℕ → Value → Option (List TaskSimpleInfo)
  unfolding parse_simple_info
  parse_items i zero d = some []
  parse_items i (suc left) d = parse_simple_info (get_array_item d i) >>= λ info.
      parse_items (suc i) left d >>= λ infos. some (info ∷ infos)

  unfoldable pub parse_all_rsp : Option Value → Option TaskAllRsp
  unfolding parse_items
  parse_all_rsp item = do
    d ← item_of is_raw item
    infos ← parse_items 0 (get_array_size d) d
    some (record { count = get_array_size d; task_list = infos })

  unfoldable pub parse_detail_rsp : Option Value → Option (TaskDetailInfo js)
  unfolding strncpy
  parse_detail_rsp item = do
    d ← item_of is_object item
    pid ← item_of is_number (get_object_item d (codes "pid"))
    name ← item_of is_string (get_object_item d (codes "name"))
    param ← item_of is_string (get_object_item d (codes "param"))
    status ← item_of is_string (get_object_item d (codes "status"))
    heartbeat ← item_of is_number (get_object_item d (codes "heartBeat"))
    some (record {
      pid = to_u32 (valueint pid);
      name = strncpy (valuestring name) 31;
      param = strncpy (valuestring param) 127;
      status = strncpy (valuestring status) 31;
      heartbeat = valuedouble heartbeat;
    })

  module _ (C : Type 0) (rb : RingBuf) (api : ListApi (MsgRequest js C)) where
    abbrev calls : MsgRequest js C → ℤ → RspData js C → List (Call js C)
    calls = call_of js C rb api

    -- -1 where the data does not parse, and then there is no call.
    abbrev pub deliver {ℓ} :
        {R : Type ℓ} → MsgRequest js C → ℤ → (R → RspData js C) → Option R → ℤ × List (Call js C)
    deliver req ret wrap none = (fail_code, [])
    deliver req ret wrap (some rsp) = (ok_code, calls req ret (wrap rsp))

    unfoldable pub by_type : MsgRequest js C → ℤ → Option Value → EventType → ℤ × List (Call js C)
    by_type req ret value EventType.heartbeat =
        deliver req ret heartbeat_rsp (parse_heartbeat_rsp value)
    by_type req ret value EventType.query_all = deliver req ret all_rsp (parse_all_rsp value)
    by_type req ret value EventType.query_task = deliver req ret detail_rsp (parse_detail_rsp value)
    by_type req ret value EventType.task_action = (ok_code, calls req ret null)
    by_type req ret value EventType.max = (fail_code, [])

    unfoldable pub process_rsp_data : MsgRequest js C → ℤ → Option Value → ℤ × List (Call js C)
    unfolding by_type
    process_rsp_data req ret value = elim req.cb [
      | none ↦ (ok_code, [])
      | some cb ↦
          if is_zero ret then by_type req ret value req.type else (ok_code, calls req ret null)
    ]
