-- ===== src/Core/Events.antt =====
-- What may happen to the lists of src/task_core.cpp once they are loaded.
use task_monitor.Base.{
  ℕ, zero, suc, false, List, [], ◌∷◌, ◌++◌, Option, none, some, if◌then◌else◌, ℤ, fail_code,
}
use task_monitor.NewClient.{CliObj, NewClient}
use task_monitor.Sys.{SysCall, close, is_positive}
use task_monitor.Msg.{TaskActionReq}
use task_monitor.TaskObj.{TaskObj, task_timeout_cb}
use task_monitor.Core.{Core, process_task_action, recv_client_connect, cli_list_clear_timer_cb}

-- TaskObjClient::stopTaskClient on the n-th client of the list, which no longer has a watch: the
-- clients and the calls, or `none` if the object was deleted.
unfoldable pub stop_client : ℕ → List CliObj → Option (List CliObj × List SysCall)
stop_client n [] = some ([], [])
stop_client zero (c ∷ cs) =
    if c.freed
    then none
    else if is_positive c.client_fd
    then some
        (record c { client_fd = fail_code; is_available = false } ∷ cs, close c.client_fd ∷ [])
    else some (record c { is_available = false } ∷ cs, [])
stop_client (suc n) (c ∷ cs) = elim (stop_client n cs) [
  | none ↦ none
  | some (cs', calls) ↦ some (c ∷ cs', calls)
]

-- The end of the connection of the n-th client, as its read callback would notice it.
unfoldable pub client_gone : ℕ → Core → Option Core
unfolding stop_client
client_gone n core = elim (stop_client n core.cli_list) [
  | none ↦ none
  | some (cs, calls) ↦ some (record core { cli_list = cs; sys = core.sys ++ calls })
]

-- TaskTimeoutCb for the timer of the n-th task; a task that is not there has no timer.
unfoldable pub timeout_at : ℤ → ℕ → List TaskObj → List TaskObj × List SysCall
unfolding task_timeout_cb
timeout_at child n [] = ([], [])
timeout_at child zero (t ∷ ts) = elim (task_timeout_cb child (some t)) [
  | none ↦ (t ∷ ts, [])
  | some (_, t', calls) ↦ (t' ∷ ts, calls)
]
timeout_at child (suc n) (t ∷ ts) = let (ts', calls) = timeout_at child n ts in (t ∷ ts', calls)

unfoldable pub task_timeout : ℤ → ℕ → Core → Core
unfolding timeout_at
task_timeout child n core =
    let (ts, calls) = timeout_at child n core.task_list in
    record core { task_list = ts; sys = core.sys ++ calls }

-- What may happen to the lists after the start.
pub data Event : Type 0 where
  action : ℤ → TaskActionReq → Event
  connect : NewClient → ℤ → ℤ → Event
  tick : Event
  -- The end of the connection of the n-th client of cliList.
  hang_up : ℕ → Event
  -- The timer of the n-th task, which is started again as a child.
  timeout : ℤ → ℕ → Event

abbrev pub snd_or : Option (ℤ × Core) → Option Core
snd_or none = none
snd_or (some (ret, core)) = some core

unfoldable pub run_event : Event → Core → Option Core
run_event (action child req) core = some (process_task_action child req core).1
run_event (connect made pid fd) core = snd_or (recv_client_connect made pid fd core)
run_event tick core = cli_list_clear_timer_cb core
run_event (hang_up n) core = client_gone n core
run_event (timeout child n) core = some (task_timeout child n core)

unfoldable pub run_events : List Event → Core → Option Core
run_events [] core = some core
run_events (e ∷ es) core = elim (run_event e core) [
  | none ↦ none
  | some core' ↦ run_events es core'
]
