-- ===== src/Core/Keeping.antt =====
-- The clients that belong to no task, in the list of src/task_core.cpp, over all that may happen.
use task_monitor.Base.{
  ◌≡◌, refl, ap, sym, ◌∙◌, subst, List, [], ◌∷◌, ◌++◌, Bool, true, false, ◌&&◌, not, Option, none,
  some, arith, ℤ, Option-cases, Bool-cases, inl, inr, append-nil, append_assoc, is_zero,
}
use task_monitor.Sys.{SysCall, is_positive}
use task_monitor.Msg.{TaskActionReq}
use task_monitor.NewClient.{CliObj, NewClient, new_task_obj_client}
use task_monitor.TaskObj.{start_task_client}
use task_monitor.Core.{
  Core, find_task, pid_eq, wanted, process_task_action, recv_client_connect,
  cli_list_clear_timer_cb, clear_clients,
}
use task_monitor.Core.Events.{
  Event, action, connect, tick, hang_up, timeout, task_timeout, snd_or, run_event, run_events,
}

-- A client as its constructor leaves it: available, not deleted, without a descriptor above 0.
abbrev pub is_new : CliObj → Bool
is_new c = (c.is_available && not c.freed) && not (is_positive c.client_fd)

abbrev pub all_new : List CliObj → Bool
all_new [] = true
all_new (c ∷ cs) = is_new c && all_new cs

-- No client is told that its connection has ended.
abbrev pub none_told : List Event → Bool
none_told [] = true
none_told (hang_up n ∷ es) = false
none_told (_ ∷ es) = none_told es

both : (a b : Bool) → (a && b) ≡ true → (a ≡ true) × (b ≡ true)
both a b h = ground arith

kept : (a b c : Bool) → ((a && not b) && c) ≡ true → (a ≡ true) × (b ≡ false)
kept a b c h = ground arith

all_new-add :
    (cs : List CliObj) (c : CliObj)
    → all_new cs ≡ true
    → is_new c ≡ true
    → all_new (cs ++ c ∷ []) ≡ true
all_new-add [] c h k = rw k refl
all_new-add (d ∷ cs) c h k =
    let (first, rest) = both (is_new d) (all_new cs) h in rw (first, all_new-add cs c rest k) refl

clear_clients-all_new : (cs : List CliObj) → all_new cs ≡ true → clear_clients cs ≡ some cs
unfolding clear_clients
clear_clients-all_new [] h = refl
clear_clients-all_new (c ∷ cs) h =
    let (first, rest) = both (is_new c) (all_new cs) h in
    let (there, whole) = kept c.is_available c.freed (not (is_positive c.client_fd)) first in
    simp (whole, clear_clients-all_new cs rest, there)

tick-all_new :
    (core : Core) → all_new core.cli_list ≡ true → cli_list_clear_timer_cb core ≡ some core
unfolding cli_list_clear_timer_cb
tick-all_new core h = rw (cli_list_clear_timer_cb, clear_clients-all_new core.cli_list h) refl

-- The list grew by new clients.
abbrev pub Grown : Core → Option Core → Type 0
Grown core none = Unit
Grown core (some core') =
    (all_new core'.cli_list ≡ true)
    × ((more : List CliObj) × (core'.cli_list ≡ core.cli_list ++ more))

same-Grown :
    (core core' : Core)
    → all_new core.cli_list ≡ true
    → core'.cli_list ≡ core.cli_list
    → Grown core (some core')
same-Grown core core' h e = (ap all_new e ∙ h, ([], e ∙ sym (append-nil core.cli_list)))

abbrev IsNewResult : Option (CliObj × List SysCall) → Type 0
IsNewResult none = Unit
IsNewResult (some (c, calls)) = is_new c ≡ true

new_task_obj_client-new :
    (made : NewClient) (fd pid : ℤ) → IsNewResult (new_task_obj_client made fd pid)
unfolding new_task_obj_client
new_task_obj_client-new made fd pid = elim (Bool-cases (is_zero made.watch)) [
  | inr z ↦ rw (new_task_obj_client, z) tt
  | inl z ↦ elim (Bool-cases made.memory) [
    | inr m ↦ rw (new_task_obj_client, z, m) tt
    | inl m ↦ elim (Bool-cases (is_positive fd)) [
      | inl p ↦ rw (new_task_obj_client, z, m, p) refl
      | inr p ↦ rw (new_task_obj_client, z, m, p) (rw p refl)
    ]
  ]
]

connect-Grown :
    (made : NewClient) (pid fd : ℤ) (core : Core)
    → all_new core.cli_list ≡ true
    → Grown core (snd_or (recv_client_connect made pid fd core))
unfolding recv_client_connect
connect-Grown made pid fd core h =
    elim (Option-cases (find_task (λ t. pid_eq t.pid pid) core.task_list)) [
      | inl e ↦ elim (Option-cases (new_task_obj_client made fd pid)) [
        | inl n ↦ rw (recv_client_connect, e, n) tt
        | inr ((cli, calls), n) ↦
            let fine = subst IsNewResult n (new_task_obj_client-new made fd pid) in
            rw (recv_client_connect, e, n) (all_new-add core.cli_list cli h fine, (cli ∷ [], refl))
      ]
      | inr ((before, t, after), e) ↦ elim (Option-cases (start_task_client made fd t)) [
        | inl n ↦ rw (recv_client_connect, e, n) tt
        | inr ((ret, t', calls), n) ↦
            rw (recv_client_connect, e, n)
              (same-Grown core
                (record core { task_list = before ++ t' ∷ after; sys = core.sys ++ calls }) h refl)
      ]
    ]

action-same :
    (child : ℤ) (req : TaskActionReq) (core : Core)
    → (process_task_action child req core).1.cli_list ≡ core.cli_list
unfolding process_task_action
action-same child req core =
    elim (Option-cases (find_task (wanted req.pid req.name) core.task_list)) [
      | inl e ↦ rw (process_task_action, e) refl
      | inr ((before, t, after), e) ↦ rw (process_task_action, e) refl
    ]

run_event-Grown :
    (e : Event) (es : List Event) (core : Core)
    → none_told (e ∷ es) ≡ true
    → all_new core.cli_list ≡ true
    → Grown core (run_event e core) × (none_told es ≡ true)
unfolding run_event task_timeout
run_event-Grown (action child req) es core n h =
    (same-Grown core (process_task_action child req core).1 h (action-same child req core), n)
run_event-Grown (connect made pid fd) es core n h = (connect-Grown made pid fd core h, n)
run_event-Grown tick es core n h =
    (rw (run_event, tick-all_new core h) (same-Grown core core h refl), n)
run_event-Grown (hang_up k) es core n h = absurd (ground arith)
run_event-Grown (timeout child k) es core n h =
    (same-Grown core (task_timeout child k core) h refl, n)

run_events-Grown :
    (es : List Event) (core : Core)
    → none_told es ≡ true
    → all_new core.cli_list ≡ true
    → Grown core (run_events es core)
unfolding run_events
run_events-Grown [] core n h = same-Grown core core h refl
run_events-Grown (e ∷ es) core n h =
    let (first, later) = run_event-Grown e es core n h in
    elim (Option-cases (run_event e core)) [
      | inl r ↦ rw (run_events, r) tt
      | inr (core1, r) ↦
          let (fine, (more, grown)) = subst (Grown core) r first in
          let rest = run_events-Grown es core1 later fine in
          elim (Option-cases (run_events es core1)) [
            | inl q ↦ rw (run_events, r, q) tt
            | inr (core2, q) ↦
                let (fine', (more', grown')) = subst (Grown core1) q rest in
                rw (run_events, r, q)
                  (
                    fine',
                    (
                      more ++ more',
                      grown' ∙ ap (λ cs. cs ++ more') grown ∙ append_assoc core.cli_list more more',
                    ),
                  )
          ]
    ]

-- As long as no client is told that its connection has ended, no client is ever taken out of the
-- list or deleted. If the clients of the list are as their constructor leaves them, then after any
-- actions, connections, timeouts of tasks and ticks that the daemon survives, they still stand in
-- the list, with new ones behind them that are as their constructor leaves them too, and one more
-- tick of the timer that clears the list changes nothing.
pub run_events-none_cleared :
    (es : List Event) (core core' : Core)
    → none_told es ≡ true
    → all_new core.cli_list ≡ true
    → run_events es core ≡ some core'
    → (all_new core'.cli_list ≡ true)
      × ((more : List CliObj) × (core'.cli_list ≡ core.cli_list ++ more))
      × (cli_list_clear_timer_cb core' ≡ some core')
run_events-none_cleared es core core' n h run =
    let (fine, (more, grown)) = subst (Grown core) run (run_events-Grown es core n h) in
    (fine, (more, grown), tick-all_new core' fine)
