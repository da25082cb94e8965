-- ===== src/Server/Proper.antt =====
-- What the handlers of MsgServer in src/task_msg.cpp can leave behind: a text, or an error other than
-- EVENT_SUCC.
use task_monitor.Base.{
  ℕ, zero, suc, ◌⊎◌, subst, ◌≡◌, refl, List, [], ◌∷◌, Bool, true, false, Option, none, some, arith,
  ℤ, Option-cases, Bool-cases, inl, inr,
}
use task_monitor.Ring.{RingBuf}
use task_monitor.Json.{Json, Alloc}
use task_monitor.Msg.{
  EventType, EventErr, is_succ, HeartbeatRsp, TaskSimpleInfo, TaskAllRsp, TaskDetailInfo,
}
use task_monitor.Server.{MsgServer}
use task_monitor.Server.Handlers.{
  Checked, ok, err, Handled, replied, refused, fault, finish, reply_with, success_tree, fill_array,
  heartbeat_reply, query_all_reply, single_reply, action_reply, parse_heartbeat_req,
  parse_single_req, parse_action_req, process_heartbeat_req, process_query_all_req,
  process_query_single_task_req, process_task_action_req,
}
use task_monitor.Server.Dispatch.{dispatch, handle, event_of}

abbrev pub Proper : Handled → Type 0
Proper (replied text) = Unit
Proper (refused e) = is_succ e ≡ false
Proper fault = Unit

abbrev ProperReq : {A : Type 0} → Checked A → Type 0
ProperReq (ok a) = Unit
ProperReq (err e) = is_succ e ≡ false

Checked-cases :
    {A : Type 0} (c : Checked A) → ((e : EventErr) × (c ≡ err e)) ⊎ ((a : A) × (c ≡ ok a))
Checked-cases (ok a) = inr (a, refl)
Checked-cases (err e) = inl (e, refl)

module _ (js : Json) where
  finish-Proper : (done : Bool) (root : js.Value) → Proper (finish js done root)
  finish-Proper true root = tt
  finish-Proper false root = refl

  reply_with-Proper : (alloc : Alloc) (d : js.Value) → Proper (reply_with js alloc d)
  reply_with-Proper alloc d = elim (Bool-cases (alloc 0)) [
    | inl a ↦ elim (Bool-cases (alloc 1)) [
      | inl b ↦ rw (a, b) (finish-Proper (alloc 2) (success_tree js d))
      | inr b ↦ rw (a, b) refl
    ]
    | inr a ↦ rw a refl
  ]

  fill_array-Proper :
      (alloc : Alloc) (n left : ℕ) (infos : List TaskSimpleInfo) (array : js.Value)
      → Proper (fill_array js alloc n left infos array)
  unfolding fill_array
  fill_array-Proper alloc n zero infos array = finish-Proper (alloc n) (success_tree js array)
  fill_array-Proper alloc n (suc left) [] array = elim (Bool-cases (alloc n)) [
    | inl a ↦ rw a tt
    | inr a ↦ rw a refl
  ]
  fill_array-Proper alloc n (suc left) (info ∷ infos) array = elim (Bool-cases (alloc n)) [
    | inl a ↦ rw a (fill_array-Proper alloc (suc n) left infos _)
    | inr a ↦ rw a refl
  ]

  heartbeat_reply-Proper :
      (alloc : Alloc) (ret : EventErr) (rsp : Option (HeartbeatRsp js))
      → Proper (heartbeat_reply js alloc ret rsp)
  unfolding heartbeat_reply
  heartbeat_reply-Proper alloc EventErr.succ none = refl
  heartbeat_reply-Proper alloc EventErr.succ (some rsp) = reply_with-Proper alloc _
  heartbeat_reply-Proper alloc _ rsp = refl

  query_all_reply-Proper :
      (alloc : Alloc) (ret : EventErr) (rsp : Option TaskAllRsp)
      → Proper (query_all_reply js alloc ret rsp)
  unfolding query_all_reply
  query_all_reply-Proper alloc EventErr.succ none = refl
  query_all_reply-Proper alloc EventErr.succ (some rsp) = elim (Bool-cases (alloc 0)) [
    | inl a ↦ elim (Bool-cases (alloc 1)) [
      | inl b ↦ rw (a, b) (fill_array-Proper alloc 2 rsp.count rsp.task_list js.create_array)
      | inr b ↦ rw (a, b) refl
    ]
    | inr a ↦ rw a refl
  ]
  query_all_reply-Proper alloc _ rsp = refl

  single_reply-Proper :
      (alloc : Alloc) (ret : EventErr) (rsp : Option (TaskDetailInfo js))
      → Proper (single_reply js alloc ret rsp)
  unfolding single_reply
  single_reply-Proper alloc EventErr.succ none = refl
  single_reply-Proper alloc EventErr.succ (some info) = reply_with-Proper alloc _
  single_reply-Proper alloc _ rsp = refl

  action_reply-Proper : (alloc : Alloc) (ret : EventErr) → Proper (action_reply js alloc ret)
  unfolding action_reply
  action_reply-Proper alloc EventErr.succ = elim (Bool-cases (alloc 0)) [
    | inl a ↦ rw a (finish-Proper (alloc 1) _)
    | inr a ↦ rw a refl
  ]
  action_reply-Proper alloc _ = refl

  parse_heartbeat_req-ProperReq : (item : Option js.Value) → ProperReq (parse_heartbeat_req js item)
  unfolding parse_heartbeat_req
  parse_heartbeat_req-ProperReq item = ground arith

  parse_single_req-ProperReq : (item : Option js.Value) → ProperReq (parse_single_req js item)
  unfolding parse_single_req
  parse_single_req-ProperReq item = ground arith

  parse_action_req-ProperReq : (item : Option js.Value) → ProperReq (parse_action_req js item)
  unfolding parse_action_req
  parse_action_req-ProperReq item = ground arith

  module _ (rb : RingBuf) (W U : Type 0) (s : MsgServer js rb W U) (alloc : Alloc)
      (value : Option js.Value) (w : W) where
    heartbeat-Proper : Proper (process_heartbeat_req js rb W U s alloc value w).0
    unfolding process_heartbeat_req
    heartbeat-Proper = elim (Checked-cases (parse_heartbeat_req js value)) [
      | inl (e, p) ↦
          rw (process_heartbeat_req, p) (subst ProperReq p (parse_heartbeat_req-ProperReq value))
      | inr (req, p) ↦ elim (Option-cases s.event_cb.heartbeat) [
        | inl q ↦ rw (process_heartbeat_req, p, process_heartbeat_req, q) refl
        | inr (cb, q) ↦
            rw (process_heartbeat_req, p, process_heartbeat_req, q)
              (heartbeat_reply-Proper alloc _ _)
      ]
    ]

    query_all-Proper : Proper (process_query_all_req js rb W U s alloc w).0
    unfolding process_query_all_req
    query_all-Proper = elim (Option-cases s.event_cb.query_all) [
      | inl q ↦ rw q refl
      | inr (cb, q) ↦ rw q (query_all_reply-Proper alloc _ _)
    ]

    query_task-Proper : Proper (process_query_single_task_req js rb W U s alloc value w).0
    unfolding process_query_single_task_req
    query_task-Proper = elim (Checked-cases (parse_single_req js value)) [
      | inl (e, p) ↦
          rw (process_query_single_task_req, p)
            (subst ProperReq p (parse_single_req-ProperReq value))
      | inr (req, p) ↦ elim (Option-cases s.event_cb.query_task) [
        | inl q ↦ rw (process_query_single_task_req, p, process_query_single_task_req, q) refl
        | inr (cb, q) ↦
            rw (process_query_single_task_req, p, process_query_single_task_req, q)
              (single_reply-Proper alloc _ _)
      ]
    ]

    task_action-Proper : Proper (process_task_action_req js rb W U s alloc value w).0
    unfolding process_task_action_req
    task_action-Proper = elim (Checked-cases (parse_action_req js value)) [
      | inl (e, p) ↦
          rw (process_task_action_req, p) (subst ProperReq p (parse_action_req-ProperReq value))
      | inr (req, p) ↦ elim (Option-cases s.event_cb.task_action) [
        | inl q ↦ rw (process_task_action_req, p, process_task_action_req, q) refl
        | inr (cb, q) ↦
            rw (process_task_action_req, p, process_task_action_req, q)
              (action_reply-Proper alloc _)
      ]
    ]

    handle-Proper : (t : Option EventType) → Proper (handle js rb W U s alloc t value w).0
    unfolding handle
    handle-Proper (some EventType.heartbeat) = heartbeat-Proper
    handle-Proper (some EventType.query_all) = query_all-Proper
    handle-Proper (some EventType.query_task) = query_task-Proper
    handle-Proper (some EventType.task_action) = task_action-Proper
    handle-Proper _ = refl

    -- Whatever type a request has.
    pub dispatch-Proper : (type : ℤ) → Proper (dispatch js rb W U s alloc type value w).0
    unfolding dispatch
    dispatch-Proper type = handle-Proper (event_of type)
