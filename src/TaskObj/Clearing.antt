-- ===== src/TaskObj/Clearing.antt =====
-- What is left of a task after TaskObj::clearTask, the destructor of src/TaskObj.cpp.
use task_monitor.Base.{[], if◌then◌else◌, ok_code, ℤ}
use task_monitor.TaskObj.{TaskObj, Done, is_unknown, stop_task}

module _ (p : ℤ) where
  -- stopTask, where the task is running.
  abbrev stopped : TaskObj → Done
  stopped t = if is_unknown t.status then (ok_code, t, []) else stop_task t
