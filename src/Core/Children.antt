-- ===== src/Core/Children.antt =====
-- The processes of all tasks of src/task_core.cpp, from the start on.
use task_monitor.Base.{
  ◌≡◌, refl, ◌∙◌, sym, ap, subst, ℕ, ◌+◌, List, [], ◌∷◌, true, Option, some, arith, ok_code, ℤ,
  ◌++◌, Option-cases, inl, inr,
}
use task_monitor.TaskObj.{TaskObj, is_unknown, task_obj, start_task}
use task_monitor.TaskObj.Lifecycle.{forks, waits, kills, alive, start_task-Balanced}
use task_monitor.Core.{Core, Fresh, TaskParm, task_param_cb, foreach_task, task_core_init}
use task_monitor.Core.Events.{Event, snd_or, run_events}
use task_monitor.Core.Counting.{started, task_core_init-loads}
use task_monitor.Core.Processes.{
  alives, alives-append, Goes-IsBalanced, IsBalanced, IfBalanced, run_events-IfBalanced,
}

-- The memory of each new task says that it does not run.
abbrev pub AllIdle : List (Fresh × TaskParm) → Type 0
AllIdle [] = Unit
AllIdle ((fresh, p) ∷ ps) = (is_unknown fresh.raw.status ≡ true) × AllIdle ps

module _ (p : ℤ) where
  task_obj-alive :
      (raw t : TaskObj) (timer : Option ℕ) (q : TaskParm)
      → is_unknown raw.status ≡ true
      → (task_obj raw timer q.name q.path q.param q.heartbeat).0 ≡ some t
      → alive p t ≡ 0
  unfolding task_obj
  task_obj-alive raw t timer q idle e = ground arith

  task_param_cb-IfBalanced :
      (fresh : Fresh) (q : TaskParm) (core : Core)
      → is_unknown fresh.raw.status ≡ true
      → IsBalanced p core
      → IfBalanced p (task_param_cb fresh q core)
  unfolding task_param_cb
  task_param_cb-IfBalanced fresh q core idle h =
      elim (Option-cases (task_obj fresh.raw fresh.timer q.name q.path q.param q.heartbeat).0) [
        | inl e ↦ rw (task_param_cb, e) tt
        | inr (t, e) ↦
            let none_yet = task_obj-alive fresh.raw t fresh.timer q idle e in
            let (b, k) = start_task-Balanced p fresh.child t in
            let r = start_task fresh.child t in
            let all = alives-append p core.task_list (r.1 ∷ []) in
            rw (task_param_cb, e)
              (Goes-IsBalanced p core core.cli_list (core.task_list ++ r.1 ∷ []) r.2
                (omega arith, k) h)
      ]

  foreach_task-IfBalanced :
      (ps : List (Fresh × TaskParm)) (core : Core)
      → AllIdle ps
      → IsBalanced p core
      → IfBalanced p (foreach_task ps core)
  unfolding foreach_task
  foreach_task-IfBalanced [] core idle h = h
  foreach_task-IfBalanced ((fresh, q) ∷ ps) core (idle, more) h =
      elim (Option-cases (task_param_cb fresh q core)) [
        | inl n ↦ rw (foreach_task, n) tt
        | inr (core', n) ↦
            rw (foreach_task, n)
              (foreach_task-IfBalanced ps core' more
                (subst (IfBalanced p) n (task_param_cb-IfBalanced fresh q core idle h)))
      ]

  -- From the start on the daemon accounts for every child by its pid. After a start from empty
  -- lists, where the memory of the new tasks says that they do not run, and after any later
  -- actions, connections, ends of connections, timeouts of tasks and ticks that the daemon survives,
  -- fork gave a pid, any pid, as many times as waitpid was called for it, and once more for each
  -- task that counts as running under it; and kill was called for it as often as waitpid.
  pub run_events-accounts :
      (h : ℕ) (ps : List (Fresh × TaskParm)) (start core core' : Core) (es : List Event)
      → start.task_list ≡ []
      → start.sys ≡ []
      → AllIdle ps
      → task_core_init (some h) ps start ≡ some (ok_code, core)
      → run_events es core ≡ some core'
      → (forks p core'.sys ≡ waits p core'.sys + alives p core'.task_list)
        × (kills p core'.sys ≡ waits p core'.sys)
  run_events-accounts h ps start core core' es empty no_calls idle init run =
      let first : IsBalanced p (started h start) = rw (empty, no_calls) (refl, refl) in
      let loaded : IsBalanced p core =
        subst (IfBalanced p) (sym (task_core_init-loads h ps start) ∙ ap snd_or init)
          (foreach_task-IfBalanced ps (started h start) idle first) in
      subst (IfBalanced p) run (run_events-IfBalanced p es core loaded)
