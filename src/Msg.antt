-- ===== src/Msg.antt =====
-- The declarations of src/task_msg.h: event types, error codes, requests and replies.
use task_monitor.Base.{ℕ, ◌<◌, ◌≢◌, refl, List, Bool, true, false, arith, ℤ}
use task_monitor.Json.{Json}

-- event_type_e
pub data EventType : Type 0 where
  heartbeat query_all query_task task_action max : EventType

unfoldable pub event_code : EventType → ℕ
event_code EventType.heartbeat = 0
event_code EventType.query_all = 1
event_code EventType.query_task = 2
event_code EventType.task_action = 3
event_code EventType.max = 4

-- taskActionType_e
pub data TaskAction : Type 0 where
  none start stop restart max : TaskAction

unfoldable pub action_code : TaskAction → ℕ
action_code TaskAction.none = 0
action_code TaskAction.start = 1
action_code TaskAction.stop = 2
action_code TaskAction.restart = 3
action_code TaskAction.max = 4

-- event_err_code_e
pub data EventErr : Type 0 where
  succ fail timeout unknown_type system parse mem unprocess not_found max : EventErr

unfoldable pub err_code : EventErr → ℕ
err_code EventErr.succ = 0
err_code EventErr.fail = 1
err_code EventErr.timeout = 2
err_code EventErr.unknown_type = 3
err_code EventErr.system = 4
err_code EventErr.parse = 5
err_code EventErr.mem = 6
err_code EventErr.unprocess = 7
err_code EventErr.not_found = 8
err_code EventErr.max = 9

-- `errcode != EVENT_SUCC`, the other way round.
abbrev pub is_succ : EventErr → Bool
is_succ EventErr.succ = true
is_succ _ = false

pub err_code-lt : (e : EventErr) → err_code e < 10
unfolding err_code
err_code-lt EventErr.succ = omega arith
err_code-lt _ = omega arith

pub err_code-pos : (e : EventErr) → e ≢ EventErr.succ → 0 < err_code e
unfolding err_code
err_code-pos EventErr.succ h = absurd (h refl)
err_code-pos _ h = omega arith

module _ (js : Json) where
  open js use {Double}

  pub record HeartbeatReq : Type 0 where
    pub pid : ℕ
    pub heartbeat : Double

  pub record HeartbeatRsp : Type 0 where
    pub pid : ℕ
    pub heatbeat : Double

  pub record TaskDetailInfo : Type 0 where
    pub pid : ℕ
    pub name : List ℕ
    pub param : List ℕ
    pub status : List ℕ
    pub heartbeat : Double

pub record TaskSimpleInfo : Type 0 where
  pub name : List ℕ
  pub pid : ℕ
  pub status : List ℕ

-- `taskList` has `count` entries if the sender filled it right.
pub record TaskAllRsp : Type 0 where
  pub count : ℕ
  pub task_list : List TaskSimpleInfo

pub record TaskSingleReq : Type 0 where
  pub pid : ℕ
  pub name : List ℕ

pub record TaskActionReq : Type 0 where
  pub pid : ℕ
  pub name : List ℕ
  pub action : ℤ
