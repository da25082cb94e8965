-- ===== src/TaskObj/Lifecycle.antt =====
-- The processes of a task over any sequence of starts, stops and restarts of src/TaskObj.cpp.
use task_monitor.Base.{
  ℕ, ◌+◌, ◌≡◌, refl, ap, ◌∙◌, append_assoc, List, [], ◌∷◌, ◌++◌, true, false, Bool, arith, ℤ,
  negsuc, ok_code, if◌then◌else◌,
}
use task_monitor.Sys.{pid_eq, one_if, SysCall, fork_sh, kill, wait, stop_timer}
use task_monitor.TaskObj.{
  TaskObj, TaskStatus, Done, is_unknown, start_task, stop_task, restart_task, timer_call, stop_io,
}

-- How often the process of a pid was forked, killed and waited for.
module _ (p : ℤ) where
  abbrev pub forks : List SysCall → ℕ
  forks [] = 0
  forks (fork_sh q ∷ calls) = one_if (pid_eq q p) + forks calls
  forks (_ ∷ calls) = forks calls

  abbrev pub kills : List SysCall → ℕ
  kills [] = 0
  kills (kill q ∷ calls) = one_if (pid_eq q p) + kills calls
  kills (_ ∷ calls) = kills calls

  abbrev pub waits : List SysCall → ℕ
  waits [] = 0
  waits (wait q ∷ calls) = one_if (pid_eq q p) + waits calls
  waits (_ ∷ calls) = waits calls

  pub forks-append : (xs ys : List SysCall) → forks (xs ++ ys) ≡ forks xs + forks ys
  forks-append [] ys = omega arith
  forks-append (fork_sh q ∷ xs) ys = omega (arith, forks-append xs ys)
  forks-append (_ ∷ xs) ys = omega (arith, forks-append xs ys)

  pub kills-append : (xs ys : List SysCall) → kills (xs ++ ys) ≡ kills xs + kills ys
  kills-append [] ys = omega arith
  kills-append (kill q ∷ xs) ys = omega (arith, kills-append xs ys)
  kills-append (_ ∷ xs) ys = omega (arith, kills-append xs ys)

  pub waits-append : (xs ys : List SysCall) → waits (xs ++ ys) ≡ waits xs + waits ys
  waits-append [] ys = omega arith
  waits-append (wait q ∷ xs) ys = omega (arith, waits-append xs ys)
  waits-append (_ ∷ xs) ys = omega (arith, waits-append xs ys)

  -- Whether the task has the process, as its status and its pid tell.
  abbrev pub alive : TaskObj → ℕ
  alive t = if is_unknown t.status then 0 else one_if (pid_eq t.pid p)

-- A call of a method; the pid is what a fork in it returns.
pub data Method : Type 0 where
  start restart : ℤ → Method
  stop : Method

unfoldable pub run_method : Method → TaskObj → Done
run_method (start child) t = start_task child t
run_method (restart child) t = restart_task child t
run_method stop t = stop_task t

unfoldable pub run_methods : List Method → TaskObj → TaskObj × List SysCall
run_methods [] t = (t, [])
run_methods (m ∷ ms) t =
    let (_, t', calls) = run_method m t in
    let (t'', calls') = run_methods ms t' in (t'', calls ++ calls')

-- The children of the pid that were forked, with the one that the task had, are those waited for,
-- with the one that it has; each was killed before it was waited for.
module _ (p : ℤ) where
  abbrev pub Balanced : TaskObj → TaskObj × List SysCall → Type 0
  Balanced t (t', calls) =
      (forks p calls + alive p t ≡ waits p calls + alive p t') × (kills p calls ≡ waits p calls)

  pub start_task-Balanced :
      (child : ℤ) (t : TaskObj) → Balanced t ((start_task child t).1, (start_task child t).2)
  unfolding start_task
  start_task-Balanced child t = ground arith

  pub stop_task-Balanced : (t : TaskObj) → Balanced t ((stop_task t).1, (stop_task t).2)
  unfolding stop_task
  stop_task-Balanced t = ground arith

  joined-Balanced :
      (t t1 t2 : TaskObj) (xs ys : List SysCall)
      → Balanced t (t1, xs)
      → Balanced t1 (t2, ys)
      → Balanced t (t2, xs ++ ys)
  joined-Balanced t t1 t2 xs ys (a, b) (c, d) =
      let f = forks-append p xs ys in
      let k = kills-append p xs ys in let w = waits-append p xs ys in (omega arith, omega arith)

  pub restart_task-Balanced :
      (child : ℤ) (t : TaskObj) → Balanced t ((restart_task child t).1, (restart_task child t).2)
  unfolding restart_task
  restart_task-Balanced child t =
      let s = stop_task t in
      let u = start_task child s.1 in
      joined-Balanced t s.1 u.1 s.2 u.2 (stop_task-Balanced t) (start_task-Balanced child s.1)

  run_method-Balanced :
      (m : Method) (t : TaskObj) → Balanced t ((run_method m t).1, (run_method m t).2)
  unfolding run_method
  run_method-Balanced (start child) t = start_task-Balanced child t
  run_method-Balanced (restart child) t = restart_task-Balanced child t
  run_method-Balanced stop t = stop_task-Balanced t

  -- Over any sequence of starts, stops and restarts, the children of a pid that were forked, with
  -- the one that the task had at first, are those waited for and the one that it has at the end.
  run_methods-balance : (ms : List Method) (t : TaskObj) → Balanced t (run_methods ms t)
  unfolding run_methods
  run_methods-balance [] t = (refl, refl)
  run_methods-balance (m ∷ ms) t =
      let r = run_method m t in
      let rest = run_methods ms r.1 in
      joined-Balanced t r.1 rest.0 r.2 rest.1 (run_method-Balanced m t) (run_methods-balance ms r.1)

-- What a stop does between the kill and the wait.
abbrev between : TaskObj → List SysCall
between t = (stop_io t).1 ++ timer_call stop_timer t.timer

-- No process is forked, of whatever pid.
abbrev pub is_forkless : List SysCall → Bool
is_forkless [] = true
is_forkless (fork_sh q ∷ calls) = false
is_forkless (_ ∷ calls) = is_forkless calls

stop_task-calls :
    (t : TaskObj)
    → is_unknown t.status ≡ false
    → (stop_task t).2 ≡ kill t.pid ∷ (between t ++ wait t.pid ∷ [])
unfolding stop_task
stop_task-calls t h = rw (h, append_assoc)

start_task-runs :
    (child : ℤ) (t : TaskObj)
    → t.status ≡ TaskStatus.unknown
    → let s = start_task child t in
      (s.0 ≡ ok_code) × (s.1.status ≡ TaskStatus.running) × (s.1.pid ≡ child)
unfolding start_task
start_task-runs child t h = rw h (refl, refl, refl)

-- A fork that fails is not noticed: the start says 0 and the task counts as running with pid -1, so
-- that the next stop sends SIGKILL to pid -1, which is every process that may be signalled.
pub failed_fork_kills_all :
    (t : TaskObj)
    → t.status ≡ TaskStatus.unknown
    → let s = start_task (negsuc 0) t in
      (s.0 ≡ ok_code)
      × (s.1.status ≡ TaskStatus.running)
      × ((rest : List SysCall) × ((stop_task s.1).2 ≡ kill (negsuc 0) ∷ rest))
failed_fork_kills_all t h =
    let s = start_task (negsuc 0) t in
    let (ret, run, pid) = start_task-runs (negsuc 0) t h in
    let rest = between s.1 ++ wait s.1.pid ∷ [] in
    (ret, run, (rest, stop_task-calls s.1 (ap is_unknown run) ∙ ap (λ p. kill p ∷ rest) pid))
