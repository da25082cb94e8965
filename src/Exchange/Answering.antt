-- ===== src/Exchange/Answering.antt =====
-- The replies that MsgServer prints, as MsgClient reads them.
use task_monitor.Base.{
  ℕ, ◌<◌, ◌≤◌, ◌^◌, ◌%◌, ◌≡◌, ◌∙◌, List, [], ◌∷◌, false, none, some, arith, pos, to_u32, length,
  take_all, u32_mod,
}
use task_monitor.Json.{Json, IsJson, codes, same_name}
use task_monitor.Msg.{HeartbeatRsp, TaskSimpleInfo, TaskDetailInfo}
use task_monitor.Server.Handlers.{success_tree, fail_tree, heartbeat_tree, detail_tree, simple_tree}
use task_monitor.Client.Responses.{parse_heartbeat_rsp, parse_all_rsp, parse_detail_rsp}
use task_monitor.Exchange.Fields.{get_field, object_field}

module _ (js : Json) (law : IsJson js) where
  open js use {
    Value, Double, of_int, number, text, get_object_item, valueint, create_object, create_array,
    add_item_to_array,
  }

  -- Whether "ret" of a reply is found, and what it says.
  pub ret_success :
      (d : Value)
      → get_object_item (success_tree js d) (codes "ret") ≡ some (number (of_int (pos 0)))
  unfolding same_name
  ret_success d =
      get_field js law (codes "ret")
        ((codes "ret", number (of_int (pos 0))) ∷ (codes "data", d) ∷ [])

  pub data_success : (d : Value) → get_object_item (success_tree js d) (codes "data") ≡ some d
  unfolding same_name
  data_success d =
      get_field js law (codes "data")
        ((codes "ret", number (of_int (pos 0))) ∷ (codes "data", d) ∷ [])

  pub ret_fail :
      (n : ℕ) → get_object_item (fail_tree js n) (codes "ret") ≡ some (number (of_int (pos n)))
  unfolding same_name
  ret_fail n = get_field js law (codes "ret") ((codes "ret", number (of_int (pos n))) ∷ [])

  pub parse_heartbeat_tree :
      (rsp : HeartbeatRsp js) → parse_heartbeat_rsp js (some (heartbeat_tree js rsp)) ≡ none
  unfolding parse_heartbeat_rsp same_name
  parse_heartbeat_tree rsp =
      let fs : List (List ℕ × Value) =
        (codes "pid", number (of_int (pos rsp.pid)))
        ∷ (codes "heartbeat", number rsp.heatbeat)
        ∷ [] in
      ground (
        arith,
        object_field js law fs,
        get_field js law (codes "pid") fs,
        get_field js law (codes "heatbeat") fs,
      )

  -- The array of a reply to a query of all tasks.
  abbrev pub push_all : Value → List TaskSimpleInfo → Value
  push_all a [] = a
  push_all a (info ∷ infos) = push_all (add_item_to_array a (simple_tree js info)) infos

  push_all-raw :
      (a : Value) (infos : List TaskSimpleInfo)
      → js.is_raw a ≡ false
      → js.is_raw (push_all a infos) ≡ false
  push_all-raw a [] h = h
  push_all-raw a (info ∷ infos) h =
      push_all-raw (add_item_to_array a (simple_tree js info)) infos (law.push_raw _ _ ∙ h)

  pub parse_array :
      (infos : List TaskSimpleInfo) → parse_all_rsp js (some (push_all create_array infos)) ≡ none
  unfolding parse_all_rsp
  parse_array infos = ground (arith, push_all-raw create_array infos law.array_not_raw)

  -- What fits the fields of taskDetailInfo_t.
  pub record Fits (info : TaskDetailInfo js) : Type 0 where
    pub pid : info.pid < 2 ^ 31
    pub name : length info.name ≤ 31
    pub param : length info.param ≤ 127
    pub status : length info.status ≤ 31

  -- The server writes "heartbeat" and the client asks for "heartBeat"; names are compared without
  -- regard to case.
  pub parse_detail_tree :
      (info : TaskDetailInfo js)
      → Fits info
      → parse_detail_rsp js (some (detail_tree js info)) ≡ some info
  unfolding parse_detail_rsp same_name to_u32
  parse_detail_tree info fits =
      let fs : List (List ℕ × Value) =
        (codes "pid", number (of_int (pos info.pid)))
        ∷ (codes "name", text info.name)
        ∷ (codes "param", text info.param)
        ∷ (codes "status", text info.status)
        ∷ (codes "heartbeat", number info.heartbeat)
        ∷ [] in
      let wrap : info.pid % u32_mod ≡ info.pid = omega (arith, fits.pid) in
      rw (
        object_field js law fs,
        get_field js law (codes "pid") fs,
        law.number_kind,
        get_field js law (codes "name") fs,
        law.text_kind,
        get_field js law (codes "param") fs,
        law.text_kind,
        get_field js law (codes "status") fs,
        law.text_kind,
        get_field js law (codes "heartBeat") fs,
        law.number_kind,
        law.valueint_lem info.pid fits.pid,
        wrap,
        law.valuestring_lem info.name,
        law.valuestring_lem info.param,
        law.valuestring_lem info.status,
        law.valuedouble_lem,
        take_all 31 info.name fits.name,
        take_all 127 info.param fits.param,
        take_all 31 info.status fits.status,
      )
