-- ===== src/Server/Registry.antt =====
-- Registration of callbacks, and the user data that they are handed.
use task_monitor.Base.{◌≡◌, ◌≢◌, ◌⊎◌, refl, Option, none, some, arith, ok_code, fail_code}
use task_monitor.Ring.{RingBuf}
use task_monitor.Json.{Json, Alloc}
use task_monitor.Msg.{EventType}
use task_monitor.Server.{MsgServer, EventCb, CallbackFor, cb_at, register_event_cb, set_cb, install}
use task_monitor.Server.Handlers.{process_query_single_task_req, process_task_action_req}

module _ (js : Json) (rb : RingBuf) (W U : Type 0) where
  register_event_cb-install :
      (t : EventType) (cb : CallbackFor js rb W U t) (u : U) (s : MsgServer js rb W U)
      → t ≢ EventType.max
      → register_event_cb js rb W U t cb u s ≡ install js rb W U t cb u s
  unfolding register_event_cb
  register_event_cb-install EventType.max cb u s h = absurd (h refl)
  register_event_cb-install _ cb u s h = refl

  cb_at-set_cb :
      (t : EventType) (cb : CallbackFor js rb W U t) (cbs : EventCb js rb W U)
      → t ≢ EventType.max
      → cb_at js rb W U t (set_cb js rb W U t cb cbs) ≡ some cb
  unfolding set_cb
  cb_at-set_cb EventType.max cb cbs h = absurd (h refl)
  cb_at-set_cb _ cb cbs h = refl

  cb_at-set_cb_ne :
      (t t' : EventType) (cb : CallbackFor js rb W U t) (cbs : EventCb js rb W U)
      → t' ≢ t
      → cb_at js rb W U t' (set_cb js rb W U t cb cbs) ≡ cb_at js rb W U t' cbs
  unfolding set_cb
  cb_at-set_cb_ne EventType.heartbeat EventType.heartbeat cb cbs h = absurd (h refl)
  cb_at-set_cb_ne EventType.query_all EventType.query_all cb cbs h = absurd (h refl)
  cb_at-set_cb_ne EventType.query_task EventType.query_task cb cbs h = absurd (h refl)
  cb_at-set_cb_ne EventType.task_action EventType.task_action cb cbs h = absurd (h refl)
  cb_at-set_cb_ne _ EventType.max cb cbs h = refl
  cb_at-set_cb_ne _ _ cb cbs h = refl

  -- A first registration is accepted: the callback stands at its type, every other type keeps what
  -- it had, and ring buffer and descriptor are untouched.
  pub register_first :
      (t : EventType) (cb : CallbackFor js rb W U t) (u : U) (s : MsgServer js rb W U)
      → t ≢ EventType.max
      → cb_at js rb W U t s.event_cb ≡ none
      → let r = register_event_cb js rb W U t cb u s in
        (r.0 ≡ ok_code)
        × (cb_at js rb W U t r.1.event_cb ≡ some cb)
        × ((t' : EventType)
            → t' ≢ t
            → cb_at js rb W U t' r.1.event_cb ≡ cb_at js rb W U t' s.event_cb)
        × (r.1.ring ≡ s.ring)
        × (r.1.client_fd ≡ s.client_fd)
  unfolding install
  register_first t cb u s h e =
      rw (register_event_cb-install t cb u s h, e, install)
        (
          refl,
          cb_at-set_cb t cb s.event_cb h,
          λ t' n. cb_at-set_cb_ne t t' cb s.event_cb n,
          refl,
          refl,
        )

  -- A type that has a callback keeps it, and so does all else; the call says -1. EVENT_TYPE_MAX is
  -- refused likewise.
  pub register_refused :
      (t : EventType) (cb : CallbackFor js rb W U t) (u : U) (s : MsgServer js rb W U)
      → (t ≡ EventType.max) ⊎ (cb_at js rb W U t s.event_cb ≢ none)
      → register_event_cb js rb W U t cb u s ≡ (fail_code, s)
  unfolding register_event_cb install
  register_refused EventType.heartbeat cb u s h = ground arith
  register_refused _ cb u s h = ground arith

  abbrev with_task_data : MsgServer js rb W U → U → U → MsgServer js rb W U
  with_task_data s u v = record s {
    user_data = record s.user_data { query_task = u; task_action = v };
  }

  -- The user data registered for EVENT_TYPE_QUERY_TASK and EVENT_TYPE_TASK_ACTION is never handed
  -- to a callback: whatever stands there, the two handlers give the same reply and state.
  task_data_unused :
      (s : MsgServer js rb W U) (u v : U) (alloc : Alloc) (item : Option js.Value) (w : W)
      → (process_query_single_task_req js rb W U (with_task_data s u v) alloc item w
          ≡ process_query_single_task_req js rb W U s alloc item w)
        × (process_task_action_req js rb W U (with_task_data s u v) alloc item w
            ≡ process_task_action_req js rb W U s alloc item w)
  unfolding process_query_single_task_req process_task_action_req
  task_data_unused s u v alloc item w = (refl, refl)
