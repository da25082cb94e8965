-- ===== src/Server.antt =====
-- class MsgServer of src/task_msg.cpp: the daemon's end of one connection. It reads requests from a
-- ring buffer, hands each to the callback of its event type, and writes one reply.
-- The `void *` of a callback's request and reply is typed by the event that it serves. `U` is the
-- type of the user data, `W` the state of the program that the callbacks change.
pub mod Handlers
pub mod Dispatch
pub mod Replies
pub mod Registry
pub mod Receive
pub mod Fragments
pub mod Unbuffered
pub mod Pipeline
pub mod Proper
pub mod Answered
use task_monitor.Base.{ℕ, Option, none, some, ℤ, ok_code, fail_code}
use task_monitor.Socket.{Socket}
use task_monitor.Ring.{RingBuf}
use task_monitor.Package.{socket_buf_size}
use task_monitor.Json.{Json}
use task_monitor.Msg.{
  EventType, EventErr, HeartbeatReq, HeartbeatRsp, TaskAllRsp, TaskSingleReq, TaskDetailInfo,
  TaskActionReq,
}

-- processEventCb: the code, the reply if one was made, and the state afterwards.
abbrev pub Callback : Type 0 → Type 0 → Type 0 → Type 0 → Type 0
Callback W U Q R = Q → U → W → EventErr × Option R × W

module _ (js : Json) (rb : RingBuf) (W U : Type 0) where
  -- mUserData, by event type.
  pub record UserData : Type 0 where
    pub heartbeat : U
    pub query_all : U
    pub query_task : U
    pub task_action : U

  -- mEventCb, by event type.
  pub record EventCb : Type 0 where
    pub heartbeat : Option (Callback W U (HeartbeatReq js) (HeartbeatRsp js))
    pub query_all : Option (Callback W U (Unit {0}) TaskAllRsp)
    pub query_task : Option (Callback W U TaskSingleReq (TaskDetailInfo js))
    pub task_action : Option (Callback W U TaskActionReq (Unit {0}))

  pub record MsgServer : Type 0 where
    pub ring : rb.Buf
    pub client_fd : Socket
    pub event_cb : EventCb
    pub user_data : UserData

  abbrev pub no_cb : EventCb
  no_cb = record { heartbeat = none; query_all = none; query_task = none; task_action = none }

  -- The constructor. `none` is its exception. It leaves mUserData as the memory was.
  unfoldable pub msg_server : Socket → UserData → Option MsgServer
  msg_server fd garbage = elim (rb.create socket_buf_size) [
    | none ↦ none
    | some ring ↦
        some (record { ring = ring; client_fd = fd; event_cb = no_cb; user_data = garbage })
  ]

  -- What registerEventCb is given: the type and a callback for it.
  abbrev pub CallbackFor : EventType → Type 0
  CallbackFor EventType.heartbeat = Callback W U (HeartbeatReq js) (HeartbeatRsp js)
  CallbackFor EventType.query_all = Callback W U (Unit {0}) TaskAllRsp
  CallbackFor EventType.query_task = Callback W U TaskSingleReq (TaskDetailInfo js)
  CallbackFor EventType.task_action = Callback W U TaskActionReq (Unit {0})
  CallbackFor EventType.max = Unit {0}

  -- `mEventCb[type]`
  abbrev pub cb_at : (t : EventType) → EventCb → Option (CallbackFor t)
  cb_at EventType.heartbeat cbs = cbs.heartbeat
  cb_at EventType.query_all cbs = cbs.query_all
  cb_at EventType.query_task cbs = cbs.query_task
  cb_at EventType.task_action cbs = cbs.task_action
  cb_at EventType.max cbs = none

  set_cb : (t : EventType) → CallbackFor t → EventCb → EventCb
  set_cb EventType.heartbeat cb cbs = record cbs { heartbeat = some cb }
  set_cb EventType.query_all cb cbs = record cbs { query_all = some cb }
  set_cb EventType.query_task cb cbs = record cbs { query_task = some cb }
  set_cb EventType.task_action cb cbs = record cbs { task_action = some cb }
  set_cb EventType.max cb cbs = cbs

  set_user : (t : EventType) → U → UserData → UserData
  set_user EventType.heartbeat u d = record d { heartbeat = u }
  set_user EventType.query_all u d = record d { query_all = u }
  set_user EventType.query_task u d = record d { query_task = u }
  set_user EventType.task_action u d = record d { task_action = u }
  set_user EventType.max u d = d

  install : (t : EventType) → CallbackFor t → U → MsgServer → ℤ × MsgServer
  unfolding set_cb set_user
  install t cb u s = elim (cb_at t s.event_cb) [
    | some old ↦ (fail_code, s)
    | none ↦ (
      ok_code,
      record s { event_cb = set_cb t cb s.event_cb; user_data = set_user t u s.user_data },
    )
  ]

  unfoldable pub register_event_cb : (t : EventType) → CallbackFor t → U → MsgServer → ℤ × MsgServer
  unfolding install
  register_event_cb EventType.max cb u s = (fail_code, s)
  register_event_cb t cb u s = install t cb u s
