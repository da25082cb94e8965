-- ===== src/Exchange/Completing.antt =====
-- A reply of MsgServer that arrives at a MsgClient whose request waits: what becomes of the request
-- and of its callback.
use task_monitor.Base.{
  ℕ, ◌<◌, ◌^◌, ◌≡◌, ◌≢◌, ◌∙◌, List, [], ◌∷◌, Option, none, some, arith, pos, ok_code, fail_code,
}
use task_monitor.Ring.{RingBuf}
use task_monitor.ListApi.{ListApi}
use task_monitor.Json.{Json, IsJson, codes}
use task_monitor.Msg.{
  EventType, EventErr, err_code, err_code-lt, err_code-pos, HeartbeatRsp, TaskSimpleInfo,
  TaskDetailInfo,
}
use task_monitor.Server.Handlers.{success_tree, fail_tree, heartbeat_tree, detail_tree}
use task_monitor.Client.{MsgRequest, MsgClient, ended, null, detail_rsp}
use task_monitor.Client.Responses.{
  parse_heartbeat_rsp, parse_all_rsp, parse_detail_rsp, process_rsp_data,
}
use task_monitor.Client.Receive.{parse_client_data, respond, find_request}
use task_monitor.Exchange.Answering.{
  ret_success, data_success, ret_fail, parse_heartbeat_tree, parse_array, push_all, Fits,
  parse_detail_tree,
}

module _ (js : Json) (law : IsJson js) where
  open js use {
    Value, Double, of_int, number, text, get_object_item, valueint, create_object, create_array,
    add_item_to_array,
  }

  module _ (C : Type 0) (rb : RingBuf) (api : ListApi (MsgRequest js C)) where
    -- A response to a request that waits and has a callback.
    pub record Arrives (c : MsgClient js C rb api) (req_id : ℕ) (bytes : List ℕ) (root : Value)
        (req : MsgRequest js C) (cb : C) : Type 0 where
      pub parsed : js.parse bytes ≡ some root
      pub waits : find_request js C req_id (api.entries c.request_list) ≡ some req
      pub has_cb : req.cb ≡ some cb

    arrive :
        {c : MsgClient js C rb api} {req_id : ℕ} {bytes : List ℕ} {root : Value}
        {req : MsgRequest js C} {cb : C}
        → Arrives c req_id bytes root req cb
        → (n : ℕ) → n < 2 ^ 31
        → get_object_item root (codes "ret") ≡ some (number (of_int (pos n)))
        → let r = process_rsp_data js C rb api req (pos n) (get_object_item root (codes "data")) in
          parse_client_data js C rb api c req_id bytes ≡ (r.0, ended js C rb api c req r.1)
    unfolding parse_client_data respond
    arrive a n h e = ground (arith, a.parsed, a.waits, e, law.valueint_lem n h)

    rsp_heartbeat :
        (req : MsgRequest js C) (cb : C) (value : Option Value)
        → req.cb ≡ some cb
        → req.type ≡ EventType.heartbeat
        → parse_heartbeat_rsp js value ≡ none
        → process_rsp_data js C rb api req ok_code value ≡ (fail_code, [])
    unfolding process_rsp_data
    rsp_heartbeat req cb value h t e = ground arith

    rsp_all :
        (req : MsgRequest js C) (cb : C) (value : Option Value)
        → req.cb ≡ some cb
        → req.type ≡ EventType.query_all
        → parse_all_rsp js value ≡ none
        → process_rsp_data js C rb api req ok_code value ≡ (fail_code, [])
    unfolding process_rsp_data
    rsp_all req cb value h t e = ground arith

    rsp_detail :
        (req : MsgRequest js C) (cb : C) (value : Option Value) (info : TaskDetailInfo js)
        → req.cb ≡ some cb
        → req.type ≡ EventType.query_task
        → parse_detail_rsp js value ≡ some info
        → process_rsp_data js C rb api req ok_code value
          ≡ (ok_code, record { cb = cb; ret = ok_code; rsp = detail_rsp info } ∷ [])
    unfolding process_rsp_data
    rsp_detail req cb value info h t e = ground arith

    rsp_fail :
        (req : MsgRequest js C) (cb : C) (value : Option Value) (n : ℕ)
        → req.cb ≡ some cb
        → 0 < n
        → process_rsp_data js C rb api req (pos n) value
          ≡ (ok_code, record { cb = cb; ret = pos n; rsp = null } ∷ [])
    unfolding process_rsp_data
    rsp_fail req cb value n h p = ground arith

    -- The reply to a heartbeat is refused: the server writes "heartbeat" where the client looks for
    -- "heatbeat". The result is -1, the request is dropped, and its callback is never called.
    pub heartbeat_reply-refused :
        (c : MsgClient js C rb api) (req_id : ℕ) (bytes : List ℕ) (req : MsgRequest js C) (cb : C)
        (rsp : HeartbeatRsp js)
        → Arrives c req_id bytes (success_tree js (heartbeat_tree js rsp)) req cb
        → req.type ≡ EventType.heartbeat
        → parse_client_data js C rb api c req_id bytes ≡ (fail_code, ended js C rb api c req [])
    heartbeat_reply-refused c req_id bytes req cb rsp a t =
        let d = heartbeat_tree js rsp in
        arrive a 0 (omega arith) (ret_success js law d)
        ∙ rw (
          data_success js law d,
          rsp_heartbeat req cb (some d) a.has_cb t (parse_heartbeat_tree js law rsp),
        )

    -- So is the reply to a query of all tasks, whatever tasks it lists: the server makes an array
    -- and the client asks for raw text. The result is -1, and the callback is never called.
    pub query_all_reply-refused :
        (c : MsgClient js C rb api) (req_id : ℕ) (bytes : List ℕ) (req : MsgRequest js C) (cb : C)
        (infos : List TaskSimpleInfo)
        → Arrives c req_id bytes (success_tree js (push_all js law create_array infos)) req cb
        → req.type ≡ EventType.query_all
        → parse_client_data js C rb api c req_id bytes ≡ (fail_code, ended js C rb api c req [])
    query_all_reply-refused c req_id bytes req cb infos a t =
        let d = push_all js law create_array infos in
        arrive a 0 (omega arith) (ret_success js law d)
        ∙ rw (data_success js law d, rsp_all req cb (some d) a.has_cb t (parse_array js law infos))

    -- The reply to a query of one task arrives whole: the callback is called once, with 0 and the
    -- very details that the server was given, if they fit the fields of the structure.
    pub detail_reply-delivered :
        (c : MsgClient js C rb api) (req_id : ℕ) (bytes : List ℕ) (req : MsgRequest js C) (cb : C)
        (info : TaskDetailInfo js)
        → Arrives c req_id bytes (success_tree js (detail_tree js info)) req cb
        → req.type ≡ EventType.query_task
        → Fits js law info
        → parse_client_data js C rb api c req_id bytes ≡ (
          ok_code,
          ended js C rb api c req (record { cb = cb; ret = ok_code; rsp = detail_rsp info } ∷ []),
        )
    detail_reply-delivered c req_id bytes req cb info a t fits =
        let d = detail_tree js info in
        arrive a 0 (omega arith) (ret_success js law d)
        ∙ rw (
          data_success js law d,
          rsp_detail req cb (some d) info a.has_cb t (parse_detail_tree js law info fits),
        )

    -- A failure message reaches the callback of the request that it answers, of whatever type: the
    -- callback is called once, with the code of the error and no data.
    pub fail_reply-delivered :
        (c : MsgClient js C rb api) (req_id : ℕ) (bytes : List ℕ) (req : MsgRequest js C) (cb : C)
        (e : EventErr)
        → Arrives c req_id bytes (fail_tree js (err_code e)) req cb
        → e ≢ EventErr.succ
        → parse_client_data js C rb api c req_id bytes ≡ (
          ok_code,
          ended js C rb api c req (record { cb = cb; ret = pos (err_code e); rsp = null } ∷ []),
        )
    fail_reply-delivered c req_id bytes req cb e a h =
        let small : err_code e < 10 = err_code-lt e in
        arrive a (err_code e) (omega arith) (ret_fail js law (err_code e))
        ∙ rw (rsp_fail req cb _ (err_code e) a.has_cb (err_code-pos e h))
