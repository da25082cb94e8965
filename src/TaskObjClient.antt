-- ===== src/TaskObjClient.antt =====
-- class TaskObjClient of src/TaskObjClient.cpp: the daemon's object for one connection, which owns
-- the descriptor and the MsgServer that reads from it.
-- `none` is an exception, or a read that is interrupted for as long as the answers last.
pub mod Closing
pub mod Summary
pub mod Serving
pub mod Reading
use task_monitor.Base.{
  ℕ, List, [], ◌∷◌, ◌++◌, Bool, true, false, Option, none, some, if◌then◌else◌, ℤ, ok_code,
  fail_code, is_zero,
}
use task_monitor.Socket.{Socket}
use task_monitor.Ring.{RingBuf}
use task_monitor.Json.{Json}
use task_monitor.Msg.{
  EventType, HeartbeatReq, HeartbeatRsp, TaskAllRsp, TaskSingleReq, TaskDetailInfo, TaskActionReq,
}
use task_monitor.Sys.{SysCall, set_nonblock, watch_io, destroy_io, close, is_positive}
use task_monitor.Server.{MsgServer, UserData, Callback, msg_server, register_event_cb}
use task_monitor.Server.Dispatch.{Memory}
use task_monitor.Server.Dispatch

-- What `read` answers.
pub data ReadAnswer : Type 0 where
  closed interrupted failed : ReadAnswer
  got : List ℕ → ReadAnswer

module _ (js : Json) (rb : RingBuf) (W U : Type 0) where
  abbrev Server : Type 0
  Server = MsgServer js rb W U

  pub record TaskObjClient : Type 0 where
    pub client_fd : ℤ
    pub pid : ℤ
    pub read_io : Option ℕ
    pub msg_server : Option Server
    pub is_available : Bool

  -- A method's object, and the calls that it made.
  abbrev pub Made : Type 0
  Made = TaskObjClient × List SysCall

  abbrev pub io_calls : Option ℕ → List SysCall
  io_calls none = []
  io_calls (some io) = destroy_io io ∷ []

  unfoldable pub stop_task_client : TaskObjClient → Made
  stop_task_client c =
      let stopped = record c { msg_server = none; read_io = none; is_available = false } in
      if is_positive c.client_fd
      then (record stopped { client_fd = fail_code }, io_calls c.read_io ++ close c.client_fd ∷ [])
      else (stopped, io_calls c.read_io)

  -- The callbacks of src/task_core.cpp.
  pub record Callbacks : Type 0 where
    pub heartbeat : Callback W U (HeartbeatReq js) (HeartbeatRsp js)
    pub query_all : Callback W U (Unit {0}) TaskAllRsp
    pub query_task : Callback W U TaskSingleReq (TaskDetailInfo js)
    pub task_action : Callback W U TaskActionReq (Unit {0})

  -- The four calls of registerEventCb, whose results are not looked at.
  unfoldable pub register_all : Callbacks → U → Server → Server
  unfolding register_event_cb
  register_all cbs self s =
      let s = (register_event_cb js rb W U EventType.heartbeat cbs.heartbeat self s).1 in
      let s = (register_event_cb js rb W U EventType.query_all cbs.query_all self s).1 in
      let s = (register_event_cb js rb W U EventType.query_task cbs.query_task self s).1 in
      (register_event_cb js rb W U EventType.task_action cbs.task_action self s).1

  -- `watch` is what libev_api_watchio_create returns, taken as an error code; the handle that it
  -- made is not kept. `peer` is the connection of the descriptor.
  unfoldable pub start_task_client :
      Callbacks → U → ℤ → Socket → UserData js rb W U → ℤ → TaskObjClient → Option (ℤ × Made)
  unfolding stop_task_client register_all
  start_task_client cbs self watch peer garbage fd c =
      let (stopped, calls) = stop_task_client c in
      let calls = calls ++ set_nonblock fd ∷ watch_io fd ∷ [] in
      if is_zero watch
      then elim (msg_server js rb W U peer garbage) [
        | none ↦ none
        | some s ↦ some (
          ok_code,
          (
            record stopped { msg_server = some (register_all cbs self s); is_available = true },
            calls,
          ),
        )
      ]
      else some (watch, (stopped, calls))

  -- The constructor, in memory that holds `raw`.
  unfoldable pub task_obj_client :
      TaskObjClient → Callbacks → U → ℤ → Socket → UserData js rb W U → ℤ → ℤ → Option Made
  unfolding start_task_client
  task_obj_client raw cbs self watch peer garbage fd pid =
      elim (start_task_client cbs self watch peer garbage fd
        (record raw { client_fd = fd; pid = pid })) [
          | none ↦ none
          | some (ret, made) ↦ if is_zero ret then some made else none
        ]

  -- The destructor
  unfoldable pub destroy : TaskObjClient → Made
  unfolding stop_task_client
  destroy c = stop_task_client c

  -- recvData, whose own result is always 0
  unfoldable pub recv_data : Memory → List ℕ → TaskObjClient → W → Option (Made × W)
  unfolding stop_task_client Dispatch.recv_data
  recv_data m buf c w = elim c.msg_server [
    | none ↦ some ((c, []), w)
    | some s ↦ elim (Dispatch.recv_data js rb W U s m buf w) [
      | none ↦ none
      | some (ret, s', w') ↦
          let c' = record c { msg_server = some s' } in
          if is_zero ret then some ((c', []), w') else some (stop_task_client c', w')
    ]
  ]

  -- taskReadIoCb
  unfoldable pub task_read_io_cb : List ReadAnswer → Memory → TaskObjClient → W → Option (Made × W)
  unfolding recv_data
  task_read_io_cb [] m c w = none
  task_read_io_cb (closed ∷ answers) m c w = some (stop_task_client c, w)
  task_read_io_cb (got buf ∷ answers) m c w = recv_data m buf c w
  task_read_io_cb (interrupted ∷ answers) m c w = task_read_io_cb answers m c w
  task_read_io_cb (failed ∷ answers) m c w = some (stop_task_client c, w)

  -- isClientAvailable
  abbrev pub is_client_available : TaskObjClient → Bool
  is_client_available c = c.is_available
