-- ===== src/Core.antt =====
-- src/task_core.cpp: the daemon's list of tasks, the callbacks that serve the requests of clients,
-- and the list of the clients that belong to no task.
-- The objects that the lists point to stand in them by value. What `new`, `malloc`, `fork` and the
-- timer answer is an argument; `none` is an uncaught exception, an array overrun or a use of freed
-- memory.
pub mod Lookup
pub mod Queries
pub mod Actions
pub mod Events
pub mod Counting
pub mod Processes
pub mod Children
pub mod Clearing
pub mod Keeping
use task_monitor.Base.{
  ℕ, suc, zero, ◌+◌, ◌-◌, ◌%◌, List, [], ◌∷◌, ◌++◌, Bool, true, false, ◌||◌, Option, none, some,
  ◌==◌, ltb, if◌then◌else◌, length, ℤ, pos, negsuc, ok_code, fail_code, u32_mod, to_u32, bytes_eq,
}
use task_monitor.Json.{Json, codes}
use task_monitor.NewClient.{CliObj, NewClient, new_task_obj_client}
use task_monitor.Sys.{SysCall, start_timer}
pub use task_monitor.Sys.{pid_eq}
use task_monitor.Server.Handlers.{strncpy}
use task_monitor.Msg.{
  EventErr, HeartbeatReq, HeartbeatRsp, TaskAllRsp, TaskSimpleInfo, TaskSingleReq, TaskDetailInfo,
  TaskActionReq,
}
use task_monitor.TaskObj.{
  get_task_name, get_task_pid, get_task_heartbeat, get_task_status, get_task_param, TaskObj,
  TaskStatus, Done, start_task, stop_task, restart_task, start_task_client, task_obj,
  task_timeout_cb,
}

-- The static variables, and the calls made so far.
pub record Core : Type 0 where
  pub task_list : List TaskObj
  pub task_count : ℕ
  pub cli_list : List CliObj
  pub clilist_timer : Option ℕ
  pub sys : List SysCall

-- taskParm_t, its heartbeat as the constructor of TaskObj takes it
pub record TaskParm : Type 0 where
  pub name : List ℕ
  pub path : List ℕ
  pub param : List ℕ
  pub heartbeat : ℕ

-- getStatusStr
unfoldable pub get_status_str : TaskStatus → List ℕ
get_status_str TaskStatus.unknown = codes "unknown"
get_status_str TaskStatus.running = codes "running"
get_status_str TaskStatus.sleeping = codes "sleeping"
get_status_str TaskStatus.uninterrupt = codes "uninterrupt"
get_status_str TaskStatus.traced = codes "traced"
get_status_str TaskStatus.zombie = codes "zombie"
get_status_str TaskStatus.max = codes "unknown"

-- One entry of the reply to a query for all tasks.
unfoldable pub simple_info : TaskObj → TaskSimpleInfo
unfolding to_u32 strncpy get_status_str
simple_info t = record {
  name = strncpy (get_task_name t) 31;
  pid = to_u32 (get_task_pid t);
  status = strncpy (get_status_str (get_task_status t)) 31;
}

-- An entry as memset leaves it.
abbrev pub zero_info : TaskSimpleInfo
zero_info = record { name = []; pid = 0; status = [] }

-- The loop writes entry `i` of an array of `count` entries, and stops when the array is full.
unfoldable pub fill_infos : ℕ → ℕ → List TaskObj → Option (List TaskSimpleInfo)
unfolding simple_info
fill_infos count i [] = some []
fill_infos count i (t ∷ ts) =
    let rest = if suc i == count then some [] else fill_infos count (suc i) ts in
    if ltb i count
    then elim rest [ none ↦ none | some infos ↦ some (simple_info t ∷ infos) ]
    else none

-- The entries that were not written.
abbrev pub zeros : ℕ → List TaskSimpleInfo
zeros zero = []
zeros (suc n) = zero_info ∷ zeros n

-- processGetAllTask. `mem` says whether malloc succeeds.
unfoldable pub process_get_all_task : Bool → Core → Option (EventErr × Option TaskAllRsp)
unfolding fill_infos
process_get_all_task mem core =
    if mem
    then elim (fill_infos core.task_count 0 core.task_list) [
      | none ↦ none
      | some infos ↦ some (
        EventErr.succ,
        some (record {
          count = core.task_count;
          task_list = infos ++ zeros (core.task_count - length infos);
        }),
      )
    ]
    else some (EventErr.mem, none)

-- The test of the search: the pid if one is given, else the name.
unfoldable pub wanted : ℕ → List ℕ → TaskObj → Bool
unfolding to_u32 bytes_eq
wanted pid name t =
    if pid == 0 then bytes_eq (get_task_name t) name else to_u32 (get_task_pid t) == pid

-- The search of processGetSingleTask and processTaskAction: the task with what stands before and
-- after it.
abbrev pub Found : Type 0
Found = List TaskObj × TaskObj × List TaskObj

abbrev pub push_before : TaskObj → Option Found → Option Found
push_before t none = none
push_before t (some (before, u, after)) = some (t ∷ before, u, after)

unfoldable pub find_task : (TaskObj → Bool) → List TaskObj → Option Found
find_task p [] = none
find_task p (t ∷ ts) =
    let rest = push_before t (find_task p ts) in if p t then some ([], t, ts) else rest

module _ (js : Json) where
  open js use {of_int}

  -- processHeartbeat, given a task
  unfoldable pub process_heartbeat : Bool → TaskObj → EventErr × Option (HeartbeatRsp js)
  unfolding to_u32
  process_heartbeat mem t =
      if mem
      then (
        EventErr.succ,
        some (record {
          pid = to_u32 (get_task_pid t);
          heatbeat = of_int (pos (get_task_heartbeat t));
        }),
      )
      else (EventErr.mem, none)

  unfoldable pub detail_info : TaskObj → TaskDetailInfo js
  unfolding to_u32 strncpy get_status_str
  detail_info t = record {
    pid = to_u32 (get_task_pid t);
    name = strncpy (get_task_name t) 31;
    param = strncpy (get_task_param t) 127;
    status = strncpy (get_status_str (get_task_status t)) 31;
    heartbeat = of_int (pos 0);
  }

  -- processGetSingleTask
  unfoldable pub process_get_single_task :
      Bool → TaskSingleReq → Core → EventErr × Option (TaskDetailInfo js)
  unfolding find_task wanted detail_info
  process_get_single_task mem req core = elim (find_task (wanted req.pid req.name) core.task_list) [
    | none ↦ (EventErr.not_found, none)
    | some (before, t, after) ↦
        if mem then (EventErr.succ, some (detail_info t)) else (EventErr.mem, none)
  ]

-- The switch on the action, an `int` on the wire: a number that it does not name does nothing.
unfoldable pub act : ℤ → ℤ → TaskObj → Done
unfolding start_task stop_task restart_task
act child (pos (suc zero)) t = start_task child t
act child (pos (suc (suc zero))) t = stop_task t
act child (pos (suc (suc (suc zero)))) t = restart_task child t
act child _ t = (ok_code, t, [])

-- processTaskAction
unfoldable pub process_task_action : ℤ → TaskActionReq → Core → EventErr × Core
unfolding find_task wanted act
process_task_action child req core = elim (find_task (wanted req.pid req.name) core.task_list) [
  | none ↦ (EventErr.not_found, core)
  | some (before, t, after) ↦
      let (_, t', calls) = act child req.action t in
      (EventErr.succ, record core { task_list = before ++ t' ∷ after; sys = core.sys ++ calls })
]

-- recv_client_connect. The exception of a client's constructor is caught by nobody.
unfoldable pub recv_client_connect : NewClient → ℤ → ℤ → Core → Option (ℤ × Core)
unfolding find_task start_task_client new_task_obj_client
recv_client_connect made pid fd core =
    elim (find_task (λ t. pid_eq (get_task_pid t) pid) core.task_list) [
      | some (before, t, after) ↦ elim (start_task_client made fd t) [
        | none ↦ none
        | some (_, t', calls) ↦
            some
              (ok_code, record core { task_list = before ++ t' ∷ after; sys = core.sys ++ calls })
      ]
      | none ↦ elim (new_task_obj_client made fd pid) [
        | none ↦ none
        | some (cli, calls) ↦
            some (
              ok_code,
              record core { cli_list = core.cli_list ++ cli ∷ []; sys = core.sys ++ calls },
            )
      ]
    ]

-- What the system answers while a task is made: memory, a timer, a child.
pub record Fresh : Type 0 where
  pub raw : TaskObj
  pub timer : Option ℕ
  pub child : ℤ

-- task_param_cb
unfoldable pub task_param_cb : Fresh → TaskParm → Core → Option Core
unfolding task_obj start_task
task_param_cb fresh p core =
    elim (task_obj fresh.raw fresh.timer p.name p.path p.param p.heartbeat).0 [
      | none ↦ none
      | some t ↦
          let (_, t', calls) = start_task fresh.child t in
          some (record core {
            task_list = core.task_list ++ t' ∷ [];
            task_count = core.task_count + 1;
            sys = core.sys ++ calls;
          })
    ]

-- foreach_task with task_param_cb
unfoldable pub foreach_task : List (Fresh × TaskParm) → Core → Option Core
unfolding task_param_cb
foreach_task [] core = some core
foreach_task ((fresh, p) ∷ ps) core = elim (task_param_cb fresh p core) [
  | none ↦ none
  | some core' ↦ foreach_task ps core'
]

-- task_core_init, with the tasks of the configuration. The TaskServer that it makes has no state here.
unfoldable pub task_core_init : Option ℕ → List (Fresh × TaskParm) → Core → Option (ℤ × Core)
unfolding foreach_task
task_core_init none ps core = some (fail_code, core)
task_core_init (some h) ps core =
    elim (foreach_task ps
      (record core { clilist_timer = some h; sys = core.sys ++ start_timer (some h) ∷ [] })) [
        | none ↦ none
        | some core' ↦ some (ok_code, core')
      ]

-- cli_list_clear_timer_cb: it reads every object of the list, and deletes without erasing.
unfoldable pub clear_clients : List CliObj → Option (List CliObj)
clear_clients [] = some []
clear_clients (c ∷ cs) =
    let rest = clear_clients cs in
    if c.freed then none else elim rest [
      | none ↦ none
      | some cs' ↦ some ((if c.is_available then c else record c { freed = true }) ∷ cs')
    ]

unfoldable pub cli_list_clear_timer_cb : Core → Option Core
unfolding clear_clients
cli_list_clear_timer_cb core = elim (clear_clients core.cli_list) [
  | none ↦ none
  | some cs ↦ some (record core { cli_list = cs })
]
