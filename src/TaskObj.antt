-- ===== src/TaskObj.antt =====
-- class TaskObj of src/TaskObj.cpp: one supervised process, with its timer and its client.
-- The record has the members that the .cpp file uses; mReadIo and mClientFd are not in the header.
pub mod Lifecycle
pub mod Clearing
use task_monitor.Base.{
  ℕ, List, [], ◌∷◌, ◌++◌, Bool, true, false, Option, none, some, if◌then◌else◌, ℤ, negsuc, ok_code,
  fail_code,
}
use task_monitor.NewClient.{NewClient, new_task_obj_client}
use task_monitor.Sys.{
  SysCall, fork_sh, kill, wait, start_timer, stop_timer, restart_timer, destroy_timer, destroy_io,
  close, delete_client, is_positive,
}

-- task_status_e
pub data TaskStatus : Type 0 where
  unknown running sleeping uninterrupt traced zombie max : TaskStatus

-- `mStatus == TASK_STATUS_U`
abbrev pub is_unknown : TaskStatus → Bool
is_unknown TaskStatus.unknown = true
is_unknown _ = false

-- `client` is the address of the TaskObjClient.
pub record TaskObj : Type 0 where
  pub name : List ℕ
  pub path : List ℕ
  pub param : List ℕ
  pub heartbeat : ℕ
  pub pid : ℤ
  pub timer : Option ℕ
  pub status : TaskStatus
  pub has_inst : Bool
  pub client : Option ℕ
  pub read_io : Option ℕ
  pub client_fd : ℤ

-- The getters
abbrev pub get_task_name : TaskObj → List ℕ
get_task_name t = t.name

abbrev pub get_task_pid : TaskObj → ℤ
get_task_pid t = t.pid

abbrev pub get_task_heartbeat : TaskObj → ℕ
get_task_heartbeat t = t.heartbeat

abbrev pub get_task_status : TaskObj → TaskStatus
get_task_status t = t.status

abbrev pub get_task_param : TaskObj → List ℕ
get_task_param t = t.param

abbrev pub get_task_path : TaskObj → List ℕ
get_task_path t = t.path

-- A method's result, the object, and the calls that it made.
abbrev pub Done : Type 0
Done = ℤ × TaskObj × List SysCall

abbrev pub timer_call : (ℕ → SysCall) → Option ℕ → List SysCall
timer_call call none = []
timer_call call (some h) = call h ∷ []

-- `child` is what `fork` returns in the parent: the child's pid, or -1 if there is none.
unfoldable pub start_task : ℤ → TaskObj → Done
start_task child t =
    if is_unknown t.status
    then (
      ok_code,
      record t { pid = child; status = TaskStatus.running },
      fork_sh child ∷ start_timer t.timer ∷ [],
    )
    else (fail_code, t, [])

-- The watch and the descriptor, where there is a watch.
abbrev pub stop_io : TaskObj → TaskObj × List SysCall
stop_io t = elim t.read_io [
  | none ↦ (t, [])
  | some io ↦
      if is_positive t.client_fd
      then (
        record t { read_io = none; client_fd = fail_code },
        destroy_io io ∷ close t.client_fd ∷ [],
      )
      else (record t { read_io = none }, destroy_io io ∷ [])
]

unfoldable pub stop_task : TaskObj → Done
stop_task t =
    if is_unknown t.status
    then (fail_code, t, [])
    else let (t', io) = stop_io t in
      (
        ok_code,
        record t' { status = TaskStatus.unknown },
        kill t.pid ∷ (io ++ (timer_call stop_timer t.timer ++ wait t.pid ∷ [])),
      )

unfoldable pub restart_task : ℤ → TaskObj → Done
unfolding stop_task start_task
restart_task child t =
    let (_, stopped, calls) = stop_task t in
    let (ret, started, calls') = start_task child stopped in (ret, started, calls ++ calls')

-- TaskTimeoutCb
unfoldable pub task_timeout_cb : ℤ → Option TaskObj → Option Done
unfolding restart_task
task_timeout_cb child none = none
task_timeout_cb child (some t) = some (restart_task child t)

unfoldable pub stop_task_client : TaskObj → Done
stop_task_client t = elim t.client [
  | none ↦ (ok_code, t, [])
  | some c ↦ (ok_code, record t { client = none }, delete_client c ∷ [])
]

-- `new TaskObjClient` for the descriptor; where its constructor throws, so does this.
unfoldable pub start_task_client : NewClient → ℤ → TaskObj → Option Done
unfolding stop_task_client new_task_obj_client
start_task_client made fd t =
    let (_, t', calls) = stop_task_client t in
    elim (new_task_obj_client made fd t.pid) [
      | none ↦ none
      | some (cli, calls') ↦
          some (ok_code, record t' { client = some made.address }, calls ++ calls')
    ]

-- clearTask, which the destructor is.
unfoldable pub clear_task : TaskObj → TaskObj × List SysCall
unfolding stop_task_client stop_task
clear_task t =
    let (_, t1, calls1) = stop_task_client t in
    let (_, t2, calls2) = if is_unknown t1.status then (ok_code, t1, []) else stop_task t1 in
    (
      record t2 { timer = none; has_inst = false; name = []; path = []; param = []; heartbeat = 0 },
      calls1 ++ (calls2 ++ timer_call destroy_timer t2.timer),
    )

-- The destructor.
abbrev pub destroy : TaskObj → TaskObj × List SysCall
destroy t = clear_task t

-- The constructor, in memory that holds `raw`: it sets no pid, status, client or descriptor. `none`
-- is its exception, where no timer can be made; what was built is cleared first.
unfoldable pub task_obj :
    TaskObj → Option ℕ → List ℕ → List ℕ → List ℕ → ℕ → Option TaskObj × List SysCall
unfolding clear_task
task_obj raw timer name path param heartbeat =
    let built : TaskObj = record raw {
      has_inst = true;
      name = name;
      path = path;
      param = param;
      heartbeat = heartbeat;
      timer = timer;
    } in
    elim timer [
      | none ↦ (none, (clear_task built).1)
      | some h ↦ (some (record built { read_io = none }), [])
    ]

-- refreshHeartBeat
unfoldable pub refresh_heart_beat : TaskObj → List SysCall
refresh_heart_beat t = restart_timer t.timer ∷ []
