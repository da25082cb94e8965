-- ===== src/Core/Processes.antt =====
-- The processes of all tasks of src/task_core.cpp, through all that happens to the lists.
use task_monitor.Base.{
  ◌≡◌, refl, ap, subst, ℕ, zero, suc, ◌+◌, List, [], ◌∷◌, ◌++◌, Option, none, some, arith, ℤ, pos,
  negsuc, Option-cases, inl, inr,
}
use task_monitor.NewClient.{CliObj, NewClient, new_task_obj_client}
use task_monitor.Sys.{SysCall}
use task_monitor.Msg.{TaskActionReq}
use task_monitor.TaskObj.{TaskObj, Done, start_task_client, stop_task_client, task_timeout_cb}
use task_monitor.TaskObj.Lifecycle.{
  forks, waits, kills, alive, forks-append, waits-append, kills-append, Balanced,
  start_task-Balanced, stop_task-Balanced, restart_task-Balanced,
}
use task_monitor.Core.{
  Core, find_task, wanted, act, process_task_action, recv_client_connect, cli_list_clear_timer_cb,
  clear_clients, pid_eq,
}
use task_monitor.Core.Events.{
  Event, action, connect, tick, hang_up, timeout, snd_or, run_event, run_events, client_gone,
  task_timeout, timeout_at, stop_client,
}
use task_monitor.Core.Lookup.{find_task-joins}

module _ (p : ℤ) where
  -- The tasks that have the process.
  abbrev pub alives : List TaskObj → ℕ
  alives [] = 0
  alives (t ∷ ts) = alive p t + alives ts

  pub alives-append : (ts us : List TaskObj) → alives (ts ++ us) ≡ alives ts + alives us
  alives-append [] us = omega arith
  alives-append (t ∷ ts) us = omega (arith, alives-append ts us)

  -- Every child of the pid that was forked was waited for, but those that the tasks have, and killed
  -- before.
  abbrev pub IsBalanced : Core → Type 0
  IsBalanced core =
      (forks p core.sys ≡ waits p core.sys + alives core.task_list)
      × (kills p core.sys ≡ waits p core.sys)

  abbrev pub IfBalanced : Option Core → Type 0
  IfBalanced none = Unit
  IfBalanced (some core) = IsBalanced core

  -- Calls that concern no process.
  abbrev pub IsQuiet : List SysCall → Type 0
  IsQuiet calls = (forks p calls ≡ 0) × (waits p calls ≡ 0) × (kills p calls ≡ 0)

  -- Lists of tasks before and after some calls.
  abbrev pub Goes : List TaskObj → List TaskObj × List SysCall → Type 0
  Goes ts (ts', calls) =
      (forks p calls + alives ts ≡ waits p calls + alives ts') × (kills p calls ≡ waits p calls)

  pub Goes-IsBalanced :
      (core : Core) (cs : List CliObj) (ts : List TaskObj) (calls : List SysCall)
      → Goes core.task_list (ts, calls)
      → IsBalanced core
      → (forks p (core.sys ++ calls) ≡ waits p (core.sys ++ calls) + alives ts)
        × (kills p (core.sys ++ calls) ≡ waits p (core.sys ++ calls))
  Goes-IsBalanced core cs ts calls (a, b) (c, d) =
      let f = forks-append p core.sys calls in
      let k = kills-append p core.sys calls in
      let w = waits-append p core.sys calls in (omega arith, omega arith)

  replaced-Goes :
      (ts before after : List TaskObj) (t t' : TaskObj) (calls : List SysCall)
      → before ++ t ∷ after ≡ ts
      → Balanced p t (t', calls)
      → Goes ts (before ++ t' ∷ after, calls)
  replaced-Goes ts before after t t' calls joined (b, k) =
      let all : alives (before ++ t ∷ after) ≡ alives ts = ap alives joined in
      let old = alives-append before (t ∷ after) in
      let new = alives-append before (t' ∷ after) in (omega arith, k)

  act-Balanced :
      (child action : ℤ) (t : TaskObj)
      → Balanced p t ((act child action t).1, (act child action t).2)
  unfolding act
  act-Balanced child (pos zero) t = (refl, refl)
  act-Balanced child (pos (suc zero)) t = start_task-Balanced p child t
  act-Balanced child (pos (suc (suc zero))) t = stop_task-Balanced p t
  act-Balanced child (pos (suc (suc (suc zero)))) t = restart_task-Balanced p child t
  act-Balanced child (pos (suc (suc (suc (suc n))))) t = (refl, refl)
  act-Balanced child (negsuc n) t = (refl, refl)

  process_task_action-IsBalanced :
      (child : ℤ) (req : TaskActionReq) (core : Core)
      → IsBalanced core
      → IsBalanced (process_task_action child req core).1
  unfolding process_task_action
  process_task_action-IsBalanced child req core h =
      elim (Option-cases (find_task (wanted req.pid req.name) core.task_list)) [
        | inl e ↦ rw (process_task_action, e) h
        | inr ((before, t, after), e) ↦
            let r = act child req.action t in
            rw (process_task_action, e)
              (Goes-IsBalanced core core.cli_list (before ++ r.1 ∷ after) r.2
                (replaced-Goes core.task_list before after t r.1 r.2
                  (find_task-joins (wanted req.pid req.name) core.task_list before t after e)
                  (act-Balanced child req.action t))
                h)
      ]

  -- What the constructor of a client calls.
  abbrev QuietClient : Option (CliObj × List SysCall) → Type 0
  QuietClient none = Unit
  QuietClient (some (cli, calls)) = IsQuiet calls

  new_task_obj_client-Quiet :
      (made : NewClient) (fd pid : ℤ) → QuietClient (new_task_obj_client made fd pid)
  unfolding new_task_obj_client
  new_task_obj_client-Quiet made fd pid = ground arith

  abbrev QuietStart : TaskObj → Option Done → Type 0
  QuietStart t none = Unit
  QuietStart t (some (ret, t', calls)) = Balanced p t (t', calls)

  stop_task_client-Quiet :
      (t : TaskObj) → IsQuiet (stop_task_client t).2 × (alive p (stop_task_client t).1 ≡ alive p t)
  unfolding stop_task_client
  stop_task_client-Quiet t = ground arith

  start_task_client-Quiet :
      (made : NewClient) (fd : ℤ) (t : TaskObj) → QuietStart t (start_task_client made fd t)
  unfolding start_task_client
  start_task_client-Quiet made fd t = elim (Option-cases (new_task_obj_client made fd t.pid)) [
    | inl e ↦ rw (start_task_client, e) tt
    | inr ((cli, calls), e) ↦
        let old = (stop_task_client t).2 in
        let ((f, w, k), same) = stop_task_client-Quiet t in
        let (f', w', k') = subst QuietClient e (new_task_obj_client-Quiet made fd t.pid) in
        let fs = forks-append p old calls in
        let ws = waits-append p old calls in
        let ks = kills-append p old calls in rw (start_task_client, e) (omega arith, omega arith)
  ]

  connect-IfBalanced :
      (made : NewClient) (pid fd : ℤ) (core : Core)
      → IsBalanced core
      → IfBalanced (snd_or (recv_client_connect made pid fd core))
  unfolding recv_client_connect
  connect-IfBalanced made pid fd core h =
      elim (Option-cases (find_task (λ t. pid_eq t.pid pid) core.task_list)) [
        | inl e ↦ elim (Option-cases (new_task_obj_client made fd pid)) [
          | inl n ↦ rw (recv_client_connect, e, n) tt
          | inr ((cli, calls), n) ↦
              let (f, w, k) = subst QuietClient n (new_task_obj_client-Quiet made fd pid) in
              rw (recv_client_connect, e, n)
                (Goes-IsBalanced core core.cli_list core.task_list calls (omega arith, omega arith)
                  h)
        ]
        | inr ((before, t, after), e) ↦ elim (Option-cases (start_task_client made fd t)) [
          | inl n ↦ rw (recv_client_connect, e, n) tt
          | inr ((ret, t', calls), n) ↦
              rw (recv_client_connect, e, n)
                (Goes-IsBalanced core core.cli_list (before ++ t' ∷ after) calls
                  (replaced-Goes core.task_list before after t t' calls
                    (find_task-joins (λ t. pid_eq t.pid pid) core.task_list before t after e)
                    (subst (QuietStart t) n (start_task_client-Quiet made fd t)))
                  h)
        ]
      ]

  timeout_at-Goes : (child : ℤ) (n : ℕ) (ts : List TaskObj) → Goes ts (timeout_at child n ts)
  unfolding timeout_at task_timeout_cb
  timeout_at-Goes child n [] = (refl, refl)
  timeout_at-Goes child zero (t ∷ ts) =
      let (b, k) = restart_task-Balanced p child t in (omega arith, k)
  timeout_at-Goes child (suc n) (t ∷ ts) =
      let (b, k) = timeout_at-Goes child n ts in (omega arith, k)

  task_timeout-IsBalanced :
      (child : ℤ) (n : ℕ) (core : Core) → IsBalanced core → IsBalanced (task_timeout child n core)
  unfolding task_timeout
  task_timeout-IsBalanced child n core h =
      let r = timeout_at child n core.task_list in
      Goes-IsBalanced core core.cli_list r.0 r.1 (timeout_at-Goes child n core.task_list) h

  abbrev QuietStop : Option (List CliObj × List SysCall) → Type 0
  QuietStop none = Unit
  QuietStop (some (cs, calls)) = IsQuiet calls

  stop_client-Quiet : (n : ℕ) (cs : List CliObj) → QuietStop (stop_client n cs)
  unfolding stop_client
  stop_client-Quiet n [] = (refl, refl, refl)
  stop_client-Quiet zero (c ∷ cs) = ground arith
  stop_client-Quiet (suc n) (c ∷ cs) = elim (Option-cases (stop_client n cs)) [
    | inl e ↦ rw (stop_client, e) tt
    | inr ((cs', calls), e) ↦ rw (stop_client, e) (subst QuietStop e (stop_client-Quiet n cs))
  ]

  client_gone-IfBalanced : (n : ℕ) (core : Core) → IsBalanced core → IfBalanced (client_gone n core)
  unfolding client_gone
  client_gone-IfBalanced n core h = elim (Option-cases (stop_client n core.cli_list)) [
    | inl e ↦ rw (client_gone, e) tt
    | inr ((cs, calls), e) ↦
        let (f, w, k) = subst QuietStop e (stop_client-Quiet n core.cli_list) in
        rw (client_gone, e)
          (Goes-IsBalanced core cs core.task_list calls (omega arith, omega arith) h)
  ]

  tick-IfBalanced : (core : Core) → IsBalanced core → IfBalanced (cli_list_clear_timer_cb core)
  unfolding cli_list_clear_timer_cb
  tick-IfBalanced core h = elim (Option-cases (clear_clients core.cli_list)) [
    | inl e ↦ rw (cli_list_clear_timer_cb, e) tt
    | inr (cs, e) ↦ rw (cli_list_clear_timer_cb, e) h
  ]

  run_event-IfBalanced : (e : Event) (core : Core) → IsBalanced core → IfBalanced (run_event e core)
  unfolding run_event
  run_event-IfBalanced (action child req) core h = process_task_action-IsBalanced child req core h
  run_event-IfBalanced (connect made pid fd) core h = connect-IfBalanced made pid fd core h
  run_event-IfBalanced tick core h = tick-IfBalanced core h
  run_event-IfBalanced (hang_up n) core h = client_gone-IfBalanced n core h
  run_event-IfBalanced (timeout child n) core h = task_timeout-IsBalanced child n core h

  pub run_events-IfBalanced :
      (es : List Event) (core : Core) → IsBalanced core → IfBalanced (run_events es core)
  unfolding run_events
  run_events-IfBalanced [] core h = h
  run_events-IfBalanced (e ∷ es) core h = elim (Option-cases (run_event e core)) [
    | inl n ↦ rw (run_events, n) tt
    | inr (core', n) ↦
        rw (run_events, n)
          (run_events-IfBalanced es core' (subst IfBalanced n (run_event-IfBalanced e core h)))
  ]
