-- ===== src/Core/Counting.antt =====
-- The counter of tasks in src/task_core.cpp, from the start and through all that happens later.
use task_monitor.Base.{
  ◌≡◌, refl, ◌∙◌, sym, ap, subst, ℕ, List, [], ◌∷◌, ◌++◌, Option, none, some, arith, ℤ, ◌+◌, suc,
  zero, length, length-append, Option-cases, inl, inr, true, ok_code, map,
}
use task_monitor.Msg.{EventErr, TaskActionReq}
use task_monitor.TaskObj.{TaskObj, task_obj, start_task, start_task_client, task_timeout_cb}
use task_monitor.Core.{
  Core, Fresh, TaskParm, find_task, wanted, act, process_task_action, recv_client_connect,
  task_param_cb, foreach_task, task_core_init, cli_list_clear_timer_cb, clear_clients,
  process_get_all_task, pid_eq, simple_info,
}
use task_monitor.Core.Events.{
  stop_client, client_gone, timeout_at, task_timeout, Event, action, connect, tick, hang_up,
  timeout, snd_or, run_event, run_events,
}
use task_monitor.NewClient.{NewClient, new_task_obj_client}
use task_monitor.Sys.{start_timer}
use task_monitor.Core.Lookup.{find_task-joins}
use task_monitor.Core.Queries.{process_get_all_task-lists}

-- The number of tasks and the counter, by what they were.
abbrev Same : Core → Core → Type 0
Same core core' =
    (length core'.task_list ≡ length core.task_list) × (core'.task_count ≡ core.task_count)

replaced :
    (before after ts : List TaskObj) (t t' : TaskObj)
    → before ++ t ∷ after ≡ ts
    → length (before ++ t' ∷ after) ≡ length ts
replaced before after ts t t' h =
    length-append before (t' ∷ after) ∙ sym (length-append before (t ∷ after)) ∙ ap length h

process_task_action-Same :
    (child : ℤ) (req : TaskActionReq) (core : Core)
    → Same core (process_task_action child req core).1
unfolding process_task_action
process_task_action-Same child req core =
    elim (Option-cases (find_task (wanted req.pid req.name) core.task_list)) [
      | inl e ↦ rw (process_task_action, e) (refl, refl)
      | inr ((before, t, after), e) ↦
          rw (process_task_action, e)
            (
              replaced before after core.task_list t (act child req.action t).1
                  (find_task-joins (wanted req.pid req.name) core.task_list before t after e),
              refl,
            )
    ]

-- A result, where there is one, keeps both.
abbrev IfSame : Core → Option Core → Type 0
IfSame core none = Unit
IfSame core (some core') = Same core core'

clear-Same : (core : Core) → IfSame core (cli_list_clear_timer_cb core)
unfolding cli_list_clear_timer_cb
clear-Same core = elim (Option-cases (clear_clients core.cli_list)) [
  | inl e ↦ rw (cli_list_clear_timer_cb, e) tt
  | inr (cs, e) ↦ rw (cli_list_clear_timer_cb, e) (refl, refl)
]

recv_client_connect-Same :
    (made : NewClient) (pid fd : ℤ) (core : Core)
    → IfSame core (snd_or (recv_client_connect made pid fd core))
unfolding recv_client_connect
recv_client_connect-Same made pid fd core =
    elim (Option-cases (find_task (λ t. pid_eq t.pid pid) core.task_list)) [
      | inl e ↦ elim (Option-cases (new_task_obj_client made fd pid)) [
        | inl n ↦ rw (recv_client_connect, e, n) tt
        | inr ((cli, calls), n) ↦ rw (recv_client_connect, e, n) (refl, refl)
      ]
      | inr ((before, t, after), e) ↦ elim (Option-cases (start_task_client made fd t)) [
        | inl n ↦ rw (recv_client_connect, e, n) tt
        | inr ((ret, t', calls), n) ↦
            let joined = find_task-joins (λ t. pid_eq t.pid pid) core.task_list before t after e in
            rw (recv_client_connect, e, n) (replaced before after core.task_list t t' joined, refl)
      ]
    ]

length-timeout_at :
    (child : ℤ) (n : ℕ) (ts : List TaskObj) → length (timeout_at child n ts).0 ≡ length ts
unfolding timeout_at task_timeout_cb
length-timeout_at child n [] = refl
length-timeout_at child zero (t ∷ ts) = refl
length-timeout_at child (suc n) (t ∷ ts) = ap suc (length-timeout_at child n ts)

task_timeout-Same : (child : ℤ) (n : ℕ) (core : Core) → Same core (task_timeout child n core)
unfolding task_timeout
task_timeout-Same child n core = (length-timeout_at child n core.task_list, refl)

client_gone-Same : (n : ℕ) (core : Core) → IfSame core (client_gone n core)
unfolding client_gone
client_gone-Same n core = elim (Option-cases (stop_client n core.cli_list)) [
  | inl e ↦ rw (client_gone, e) tt
  | inr ((cs, calls), e) ↦ rw (client_gone, e) (refl, refl)
]

run_event-Same : (e : Event) (core : Core) → IfSame core (run_event e core)
unfolding run_event
run_event-Same (action child req) core = process_task_action-Same child req core
run_event-Same (connect made pid fd) core = recv_client_connect-Same made pid fd core
run_event-Same tick core = clear-Same core
run_event-Same (hang_up n) core = client_gone-Same n core
run_event-Same (timeout child n) core = task_timeout-Same child n core

Same-trans : (a b : Core) → Same a b → (r : Option Core) → IfSame b r → IfSame a r
Same-trans a b h none k = tt
Same-trans a b (l, c) (some core) (l', c') = (l' ∙ l, c' ∙ c)

run_events-Same : (es : List Event) (core : Core) → IfSame core (run_events es core)
unfolding run_events
run_events-Same [] core = (refl, refl)
run_events-Same (e ∷ es) core = elim (Option-cases (run_event e core)) [
  | inl h ↦ rw (run_events, h) tt
  | inr (core', h) ↦
      rw (run_events, h)
        (Same-trans core core' (subst (IfSame core) h (run_event-Same e core)) (run_events es core')
          (run_events-Same es core'))
]

abbrev Loaded : ℕ → Core → Option Core → Type 0
Loaded n core none = Unit
Loaded n core (some core') =
    (length core'.task_list ≡ length core.task_list + n) × (core'.task_count ≡ core.task_count + n)

task_param_cb-Loaded :
    (fresh : Fresh) (p : TaskParm) (core : Core) → Loaded 1 core (task_param_cb fresh p core)
unfolding task_param_cb
task_param_cb-Loaded fresh p core =
    elim (Option-cases (task_obj fresh.raw fresh.timer p.name p.path p.param p.heartbeat).0) [
      | inl e ↦ rw (task_param_cb, e) tt
      | inr (t, e) ↦
          rw (task_param_cb, e)
            (length-append core.task_list ((start_task fresh.child t).1 ∷ []), refl)
    ]

Loaded-step :
    (n : ℕ) (a b : Core)
    → Loaded 1 a (some b)
    → (r : Option Core) → Loaded n b r
    → Loaded (suc n) a r
Loaded-step n a b h none k = tt
Loaded-step n a b (l, c) (some core) (l', c') = (omega arith, omega arith)

foreach_task-Loaded :
    (ps : List (Fresh × TaskParm)) (core : Core) → Loaded (length ps) core (foreach_task ps core)
unfolding foreach_task
foreach_task-Loaded [] core = (omega arith, omega arith)
foreach_task-Loaded ((fresh, p) ∷ ps) core = elim (Option-cases (task_param_cb fresh p core)) [
  | inl h ↦ rw (foreach_task, h) tt
  | inr (core', h) ↦
      rw (foreach_task, h)
        (Loaded-step (length ps) core core'
          (subst (Loaded 1 core) h (task_param_cb-Loaded fresh p core)) (foreach_task ps core')
          (foreach_task-Loaded ps core'))
]

-- What task_core_init loads its tasks into.
abbrev pub started : ℕ → Core → Core
started h core = record core { clilist_timer = some h; sys = core.sys ++ start_timer (some h) ∷ [] }

pub task_core_init-loads :
    (h : ℕ) (ps : List (Fresh × TaskParm)) (core : Core)
    → snd_or (task_core_init (some h) ps core) ≡ foreach_task ps (started h core)
unfolding task_core_init
task_core_init-loads h ps core = elim (Option-cases (foreach_task ps (started h core))) [
  | inl e ↦ rw (task_core_init, e) refl
  | inr (core', e) ↦ rw (task_core_init, e) refl
]

-- After a start from empty lists, and after any later actions, connections, ends of connections,
-- timeouts of tasks and ticks that the daemon survives, the daemon still has one task for each entry of the configuration, and a query
-- for all tasks is answered with each of them, in order, and with their number.
pub query_all-after_start :
    (h : ℕ) (ps : List (Fresh × TaskParm)) (start core core' : Core) (es : List Event)
    → start.task_list ≡ []
    → start.task_count ≡ 0
    → task_core_init (some h) ps start ≡ some (ok_code, core)
    → run_events es core ≡ some core'
    → (length core'.task_list ≡ length ps)
      × (process_get_all_task true core'
          ≡ some (
            EventErr.succ,
            some (record {
              count = length core'.task_list;
              task_list = map simple_info core'.task_list;
            }),
          ))
query_all-after_start h ps start core core' es empty zero_count init run =
    let (l, c) =
      subst (Loaded (length ps) (started h start))
        (sym (task_core_init-loads h ps start) ∙ ap snd_or init)
        (foreach_task-Loaded ps (started h start)) in
    let (l', c') = subst (IfSame core) run (run_events-Same es core) in
    let none_yet : length start.task_list ≡ 0 = ap length empty in
    (omega arith, process_get_all_task-lists core' (omega arith))
