-- ===== src/Exchange/Asking.antt =====
-- The requests that MsgClient builds, as MsgServer reads them.
use task_monitor.Base.{
  ℕ, ◌<◌, ◌^◌, ◌≡◌, ◌∙◌, List, [], ◌∷◌, Option, none, some, arith, ℤ, pos, to_u32, ◌%◌, u32_mod,
}
use task_monitor.Ring.{RingBuf}
use task_monitor.Json.{Json, IsJson, Alloc, codes, same_name}
use task_monitor.Msg.{EventErr, err_code, TaskSingleReq, TaskDetailInfo}
use task_monitor.Server.{MsgServer, Callback}
use task_monitor.Server.Handlers.{
  refused, ok, err, parse_heartbeat_req, parse_single_req, parse_action_req, create_fail_msg,
  single_reply, process_heartbeat_req, process_task_action_req, process_query_single_task_req,
}
use task_monitor.Server.Dispatch.{Memory, dispatch, answer, write_reply, parse_server_data}
use task_monitor.Server.Replies.{parse_server_data-answer}
use task_monitor.Client.Requests.{heartbeat_request, query_single_request, action_request}
use task_monitor.Exchange.Fields.{get_field, object_field, build}

module _ (js : Json) (law : IsJson js) where
  open js use {Value, Double, of_int, number, text, get_object_item, valueint, create_object}

  abbrev envelope : ℕ → Value → List (List ℕ × Value)
  envelope n d = (codes "type", number (of_int (pos n))) ∷ (codes "data", d) ∷ []

  envelope_type :
      (n : ℕ) (d : Value)
      → get_object_item (build js law create_object (envelope n d)) (codes "type")
        ≡ some (number (of_int (pos n)))
  unfolding same_name
  envelope_type n d = get_field js law (codes "type") (envelope n d)

  envelope_data :
      (n : ℕ) (d : Value)
      → get_object_item (build js law create_object (envelope n d)) (codes "data") ≡ some d
  unfolding same_name
  envelope_data n d = get_field js law (codes "data") (envelope n d)

  -- The data of the requests.
  heartbeat_data : ℤ → Double → List (List ℕ × Value)
  heartbeat_data pid heartbeat =
      (codes "pid", number (of_int pid)) ∷ (codes "heartbeat", number heartbeat) ∷ []

  action_data : ℤ → ℤ → List (List ℕ × Value)
  action_data pid action =
      (codes "pid", number (of_int pid)) ∷ (codes "action", number (of_int action)) ∷ []

  parse_heartbeat_data :
      (pid : ℤ) (heartbeat : Double)
      → parse_heartbeat_req js (some (build js law create_object (heartbeat_data pid heartbeat)))
        ≡ err EventErr.parse
  unfolding parse_heartbeat_req same_name heartbeat_data
  parse_heartbeat_data pid heartbeat =
      let fs = heartbeat_data pid heartbeat in
      ground (
        arith,
        object_field js law fs,
        get_field js law (codes "pid") fs,
        get_field js law (codes "hearbeat") fs,
        law.number_kind (of_int pid),
      )

  parse_action_data :
      (pid action : ℤ)
      → parse_action_req js (some (build js law create_object (action_data pid action)))
        ≡ err EventErr.parse
  unfolding parse_action_req same_name action_data
  parse_action_data pid action =
      let fs = action_data pid action in
      ground (
        arith,
        object_field js law fs,
        get_field js law (codes "pid") fs,
        get_field js law (codes "hearbeat") fs,
        law.number_kind (of_int pid),
      )

  parse_single_data :
      (pid : ℕ) (fs : List (List ℕ × Value))
      → pid < 2 ^ 31
      → parse_single_req js
          (some (build js law create_object ((codes "pid", number (of_int (pos pid))) ∷ fs)))
        ≡ ok (record { pid = pid; name = [] })
  unfolding parse_single_req same_name to_u32
  parse_single_data pid fs h =
      let fs' : List (List ℕ × Value) = (codes "pid", number (of_int (pos pid))) ∷ fs in
      let wrap : pid % u32_mod ≡ pid = omega arith in
      ground (
        arith,
        object_field js law fs',
        get_field js law (codes "pid") fs',
        wrap,
        law.number_kind (of_int (pos pid)),
        law.valueint_lem pid h,
      )

  -- What the request for one task says it is.
  pub single_request_type :
      (pid : ℤ) (name : Option (List ℕ))
      → get_object_item (query_single_request js pid name) (codes "type")
        ≡ some (number (of_int (pos 2)))
  unfolding query_single_request
  single_request_type pid none =
      envelope_type 2 (build js law create_object ((codes "pid", number (of_int pid)) ∷ []))
  single_request_type pid (some name) = envelope_type 2 (
      build js law create_object
        ((codes "pid", number (of_int pid)) ∷ (codes "name", text name) ∷ []))

  module _ (rb : RingBuf) (W U : Type 0) where
    -- The answer to a request of a type, once its envelope is opened.
    parse-envelope :
        (s : MsgServer js rb W U) (m : Memory) (req_id : ℕ) (bytes : List ℕ) (w : W) (n : ℕ)
        (d : Value)
        → n < 2 ^ 31
        → js.parse bytes ≡ some (build js law create_object (envelope n d))
        → parse_server_data js rb W U s m req_id bytes w
          ≡ answer js rb W U s m req_id (pos n) (some d) w
    parse-envelope s m req_id bytes w n d h e =
        parse_server_data-answer js rb W U s m req_id bytes w _ _ e (envelope_type n d)
          (law.number_kind _)
        ∙ rw (law.valueint_lem n h, envelope_data n d)

    answer_unparsed :
        (s : MsgServer js rb W U) (m : Memory) (req_id n : ℕ) (item : Option Value) (w : W)
        → dispatch js rb W U s m.alloc (pos n) item w ≡ (refused EventErr.parse, w)
        → answer js rb W U s m req_id (pos n) item w
          ≡ write_reply js rb W U s req_id
              (create_fail_msg js m.fail_alloc (err_code EventErr.parse))
              w
    unfolding answer
    answer_unparsed s m req_id n item w h = rw (h, answer)

    dispatch_heartbeat :
        (s : MsgServer js rb W U) (alloc : Alloc) (item : Option Value) (w : W) {e : EventErr}
        → parse_heartbeat_req js item ≡ err e
        → dispatch js rb W U s alloc (pos 0) item w ≡ (refused e, w)
    unfolding dispatch process_heartbeat_req
    dispatch_heartbeat s alloc item w h = ground arith

    dispatch_action :
        (s : MsgServer js rb W U) (alloc : Alloc) (item : Option Value) (w : W) {e : EventErr}
        → parse_action_req js item ≡ err e
        → dispatch js rb W U s alloc (pos 3) item w ≡ (refused e, w)
    unfolding dispatch process_task_action_req
    dispatch_action s alloc item w h = ground arith

    -- The heartbeat that MsgClient::sendReqHearbeat puts into its request is never found by the
    -- server: whatever callback is registered, it is not called, the state of the program stays,
    -- and the reply is the message of EVENT_ERROR_PARSE.
    pub heartbeat_request-refused :
        (s : MsgServer js rb W U) (m : Memory) (req_id : ℕ) (bytes : List ℕ) (w : W) (pid : ℤ)
        (heartbeat : Double)
        → js.parse bytes ≡ some (heartbeat_request js pid heartbeat)
        → parse_server_data js rb W U s m req_id bytes w
          ≡ write_reply js rb W U s req_id
              (create_fail_msg js m.fail_alloc (err_code EventErr.parse))
              w
    unfolding heartbeat_request heartbeat_data
    heartbeat_request-refused s m req_id bytes w pid heartbeat e =
        let d = build js law create_object (heartbeat_data pid heartbeat) in
        parse-envelope s m req_id bytes w 0 d (omega arith) e
        ∙ answer_unparsed s m req_id 0 (some d) w
            (dispatch_heartbeat s m.alloc (some d) w (parse_heartbeat_data pid heartbeat))

    -- Nor is the action that MsgClient::sendReqTaskAction puts into its request: no callback is
    -- called, no task is touched, and the reply is the message of EVENT_ERROR_PARSE.
    pub action_request-refused :
        (s : MsgServer js rb W U) (m : Memory) (req_id : ℕ) (bytes : List ℕ) (w : W)
        (pid action : ℤ)
        → js.parse bytes ≡ some (action_request js pid action)
        → parse_server_data js rb W U s m req_id bytes w
          ≡ write_reply js rb W U s req_id
              (create_fail_msg js m.fail_alloc (err_code EventErr.parse))
              w
    unfolding action_request action_data
    action_request-refused s m req_id bytes w pid action e =
        let d = build js law create_object (action_data pid action) in
        parse-envelope s m req_id bytes w 3 d (omega arith) e
        ∙ answer_unparsed s m req_id 3 (some d) w
            (dispatch_action s m.alloc (some d) w (parse_action_data pid action))

    dispatch_single :
        (s : MsgServer js rb W U) (alloc : Alloc) (item : Option Value) (w : W)
        (req : TaskSingleReq) {cb : Callback W U TaskSingleReq (TaskDetailInfo js)}
        → parse_single_req js item ≡ ok req
        → s.event_cb.query_task ≡ some cb
        → let r = cb req s.user_data.query_all w in
          dispatch js rb W U s alloc (pos 2) item w ≡ (single_reply js alloc r.0 r.1, r.2)
    unfolding dispatch process_query_single_task_req
    dispatch_single s alloc item w req h e = ground arith

    -- A query of one task reaches the callback with the pid and an empty name, whatever name was
    -- asked for: the request always has an item "pid", and the server reads the name only where
    -- there is none. A query by name alone, with pid 0, arrives without its name.
    pub single_request-loses_name :
        (s : MsgServer js rb W U) (alloc : Alloc) (w : W) (pid : ℕ) (name : Option (List ℕ))
        {cb : Callback W U TaskSingleReq (TaskDetailInfo js)}
        → pid < 2 ^ 31
        → s.event_cb.query_task ≡ some cb
        → let item = get_object_item (query_single_request js (pos pid) name) (codes "data") in
          let r = cb (record { pid = pid; name = [] }) s.user_data.query_all w in
          dispatch js rb W U s alloc (pos 2) item w ≡ (single_reply js alloc r.0 r.1, r.2)
    unfolding query_single_request
    single_request-loses_name s alloc w pid none h e =
        let d = build js law create_object ((codes "pid", number (of_int (pos pid))) ∷ []) in
        rw (envelope_data 2 d) (dispatch_single s alloc (some d) w _ (parse_single_data pid [] h) e)
    single_request-loses_name s alloc w pid (some name) h e =
        let fs : List (List ℕ × Value) = (codes "name", text name) ∷ [] in
        let d = build js law create_object ((codes "pid", number (of_int (pos pid))) ∷ fs) in
        rw (envelope_data 2 d) (dispatch_single s alloc (some d) w _ (parse_single_data pid fs h) e)
