-- ===== src/Tests/Tasks.antt =====
-- The daemon's tasks and their lists at concrete values.
use task_monitor.Base.{
  ◌≡◌, refl, List, [], ◌∷◌, ◌++◌, true, false, none, some, ◌+◌, length, map, pos, negsuc, ok_code,
  fail_code,
}
use task_monitor.Json.{codes}
use task_monitor.Sys.{
  SysCall, close, set_nonblock, watch_io, kill, wait, fork_sh, start_timer, stop_timer,
}
use task_monitor.Msg.{EventErr, TaskActionReq, TaskSingleReq}
use task_monitor.TaskObj.{TaskObj, TaskStatus, start_task, stop_task}
use task_monitor.TaskObj.Lifecycle.{
  Method, start, stop, restart, forks, waits, kills, failed_fork_kills_all,
}
use task_monitor.Core.{
  Core, Fresh, TaskParm, simple_info, detail_info, wanted, process_task_action,
  process_get_single_task, process_get_all_task, cli_list_clear_timer_cb, task_core_init,
}
use task_monitor.Core.Lookup.{any}
use task_monitor.Core.Queries.{IsWanted, NoneWanted, process_get_single_task-first}
use task_monitor.Core.Actions.{process_task_action-seen}
use task_monitor.Core.Events.{Event, action, tick, run_event, run_events}
use task_monitor.Core.Counting.{query_all-after_start}
use task_monitor.Core.Processes.{alives}
use task_monitor.Core.Children.{run_events-accounts}
use task_monitor.NewClient.{CliObj, new_task_obj_client}
use task_monitor.Core.Events.{connect}
use task_monitor.Core.{recv_client_connect}
use task_monitor.Core.Keeping.{all_new, run_events-none_cleared}
use task_monitor.Tests.Serving.{js}

abbrev pub idle_task : TaskObj
idle_task = record {
  name = codes "a";
  path = codes "/bin/a";
  param = [];
  heartbeat = 5;
  pid = pos 0;
  timer = some 1;
  status = TaskStatus.unknown;
  has_inst = true;
  client = none;
  read_io = none;
  client_fd = fail_code;
}

abbrev pub busy_task : TaskObj
busy_task = record idle_task {
  name = codes "b";
  pid = pos 42;
  status = TaskStatus.running;
  read_io = some 3;
  client_fd = pos 9;
}

abbrev methods : List Method
methods = stop ∷ start (pos 50) ∷ restart (pos 51) ∷ []

failed_fork_kills_all_example :
    let s = start_task (negsuc 0) idle_task in
    (s.0 ≡ ok_code)
    × (s.1.status ≡ TaskStatus.running)
    × ((rest : List SysCall) × ((stop_task s.1).2 ≡ kill (negsuc 0) ∷ rest))
failed_fork_kills_all_example = failed_fork_kills_all idle_task refl

abbrev cli : CliObj
cli = record { client_fd = fail_code; pid = pos 77; is_available = true; freed = false }

abbrev gone : CliObj
gone = record cli { is_available = false }

abbrev pub core : Core
core = record {
  task_list = idle_task ∷ busy_task ∷ [];
  task_count = 2;
  cli_list = cli ∷ gone ∷ [];
  clilist_timer = some 2;
  sys = [];
}

abbrev by_pid : TaskSingleReq
by_pid = record { pid = 42; name = codes "a" }

-- Two tasks; pid 42 is the second's, and the name that the request has as well is not looked at.
process_get_single_task-first_example :
    ((before : List TaskObj) (t : TaskObj) (after : List TaskObj)
      → core.task_list ≡ before ++ t ∷ after
      → NoneWanted by_pid.pid by_pid.name before
      → IsWanted by_pid.pid by_pid.name t
      → process_get_single_task js true by_pid core ≡ (EventErr.succ, some (detail_info js t)))
    × (NoneWanted by_pid.pid by_pid.name core.task_list
        → process_get_single_task js true by_pid core ≡ (EventErr.not_found, none))
process_get_single_task-first_example = process_get_single_task-first js by_pid core

abbrev stop_b : TaskActionReq
stop_b = record { pid = 0; name = codes "b"; action = pos 2 }

before_b : any (wanted 0 (codes "b")) (idle_task ∷ []) ≡ false
unfolding wanted
before_b = refl

at_b : wanted 0 (codes "b") busy_task ≡ true
unfolding wanted
at_b = refl

process_task_action-seen_example :
    let (ret, core') = process_task_action (pos 50) stop_b core in
    (t' : TaskObj) × (ret ≡ EventErr.succ)
    × (core'.task_list ≡ idle_task ∷ t' ∷ [])
    × (process_get_single_task js true (record { pid = 0; name = codes "b" }) core'
        ≡ (EventErr.succ, some (detail_info js t')))
    × (t'.status ≡ TaskStatus.unknown)
process_task_action-seen_example =
    process_task_action-seen js (pos 50) (pos 2) (codes "b") core (idle_task ∷ []) busy_task [] refl
      before_b at_b

abbrev pub empty_core : Core
empty_core = record {
  task_list = [];
  task_count = 0;
  cli_list = [];
  clilist_timer = none;
  sys = [];
}

abbrev configured : List (Fresh × TaskParm)
configured =
    (
      record { raw = idle_task; timer = some 7; child = pos 100 },
      record { name = codes "b"; path = codes "/bin/b"; param = []; heartbeat = 5 },
    )
    ∷ []

abbrev loaded_task : TaskObj
loaded_task = record idle_task {
  name = codes "b";
  path = codes "/bin/b";
  timer = some 7;
  pid = pos 100;
  status = TaskStatus.running;
}

abbrev loaded : Core
loaded = record {
  task_list = loaded_task ∷ [];
  task_count = 1;
  cli_list = [];
  clilist_timer = some 2;
  sys = start_timer (some 2) ∷ fork_sh (pos 100) ∷ start_timer (some 7) ∷ [];
}

loads : task_core_init (some 2) configured empty_core ≡ some (ok_code, loaded)
unfolding task_core_init
loads = refl

abbrev events : List Event
events = action (pos 101) stop_b ∷ tick ∷ []

abbrev later : Core
later = record loaded {
  task_list = record loaded_task { status = TaskStatus.unknown } ∷ [];
  sys = loaded.sys ++ kill (pos 100) ∷ stop_timer 7 ∷ wait (pos 100) ∷ [];
}

runs : run_events events loaded ≡ some later
unfolding run_events run_event process_task_action cli_list_clear_timer_cb
runs = refl

query_all-after_start_example :
    (length later.task_list ≡ length configured)
    × (process_get_all_task true later
        ≡ some (
          EventErr.succ,
          some (record {
            count = length later.task_list;
            task_list = map simple_info later.task_list;
          }),
        ))
query_all-after_start_example =
    query_all-after_start 2 configured empty_core loaded later events refl refl loads runs

run_events-accounts_example :
    (forks (pos 100) later.sys ≡ waits (pos 100) later.sys + alives (pos 100) later.task_list)
    × (kills (pos 100) later.sys ≡ waits (pos 100) later.sys)
run_events-accounts_example =
    run_events-accounts (pos 100) 2 configured empty_core loaded later events refl refl (refl, tt)
      loads runs

-- A client of no task connects, a task is stopped, and the timer ticks.
abbrev visits : List Event
visits =
    connect (record { address = 1; old_io = none; watch = pos 0; memory = true }) (pos 99) (pos 12)
    ∷ events

abbrev visited : Core
visited = record later {
  cli_list =
      record { client_fd = fail_code; pid = pos 99; is_available = true; freed = false } ∷ [];
  sys =
      loaded.sys
      ++ close (pos 12)
        ∷ set_nonblock (pos 12)
        ∷ watch_io (pos 12)
        ∷ kill (pos 100)
        ∷ stop_timer 7
        ∷ wait (pos 100)
        ∷ [];
}

visits_run : run_events visits loaded ≡ some visited
unfolding run_events run_event process_task_action cli_list_clear_timer_cb recv_client_connect
    new_task_obj_client
visits_run = refl

run_events-none_cleared_example :
    (all_new visited.cli_list ≡ true)
    × ((more : List CliObj) × (visited.cli_list ≡ [] ++ more))
    × (cli_list_clear_timer_cb visited ≡ some visited)
run_events-none_cleared_example = run_events-none_cleared visits loaded visited refl refl visits_run
