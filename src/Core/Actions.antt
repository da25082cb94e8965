-- ===== src/Core/Actions.antt =====
-- processTaskAction of src/task_core.cpp, and what a query sees after it.
use task_monitor.Base.{
  ◌≡◌, refl, ◌∙◌, ap, List, ℕ, ◌∷◌, ◌++◌, true, false, some, arith, ℤ, pos, negsuc, if◌then◌else◌,
  Bool-cases, inl, inr, suc, zero, bytes_eq,
}
use task_monitor.Json.{Json}
use task_monitor.Msg.{EventErr, TaskActionReq}
use task_monitor.TaskObj.{TaskObj, TaskStatus, is_unknown, start_task, stop_task, restart_task}
use task_monitor.Core.{
  Core, process_task_action, process_get_single_task, find_task, wanted, act, detail_info,
}
use task_monitor.Core.Lookup.{any}
use task_monitor.Core.Queries.{found_at, finds_first}

is_unknown→eq : (s : TaskStatus) → is_unknown s ≡ true → s ≡ TaskStatus.unknown
is_unknown→eq TaskStatus.unknown h = refl
is_unknown→eq TaskStatus.running h = cc
is_unknown→eq TaskStatus.sleeping h = cc
is_unknown→eq TaskStatus.uninterrupt h = cc
is_unknown→eq TaskStatus.traced h = cc
is_unknown→eq TaskStatus.zombie h = cc
is_unknown→eq TaskStatus.max h = cc

start_task-name : (child : ℤ) (t : TaskObj) → (start_task child t).1.name ≡ t.name
unfolding start_task
start_task-name child t = ground arith

stop_task-name : (t : TaskObj) → (stop_task t).1.name ≡ t.name
unfolding stop_task
stop_task-name t = ground arith

stop_task-status : (t : TaskObj) → (stop_task t).1.status ≡ TaskStatus.unknown
unfolding stop_task
stop_task-status t = elim (Bool-cases (is_unknown t.status)) [
  | inl e ↦ simp e (is_unknown→eq t.status e)
  | inr e ↦ simp e
]

start_task-status :
    (child : ℤ) (t : TaskObj)
    → t.status ≡ TaskStatus.unknown
    → (start_task child t).1.status ≡ TaskStatus.running
unfolding start_task
start_task-status child t h = rw h refl

start_task-any :
    (child : ℤ) (t : TaskObj)
    → (start_task child t).1.status ≡ (if is_unknown t.status then TaskStatus.running else t.status)
unfolding start_task
start_task-any child t = elim (Bool-cases (is_unknown t.status)) [ inl e ↦ simp e | inr e ↦ simp e ]

-- The status that a task has after the action with this number.
abbrev pub status_after : ℤ → TaskStatus → TaskStatus
status_after (pos (suc zero)) s = if is_unknown s then TaskStatus.running else s
status_after (pos (suc (suc zero))) s = TaskStatus.unknown
status_after (pos (suc (suc (suc zero)))) s = TaskStatus.running
status_after _ s = s

act_lem :
    (child action : ℤ) (t : TaskObj)
    → let t' = (act child action t).1 in
      (t'.status ≡ status_after action t.status) × (t'.name ≡ t.name)
unfolding act restart_task
act_lem child (pos zero) t = (refl, refl)
act_lem child (pos (suc zero)) t = (start_task-any child t, start_task-name child t)
act_lem child (pos (suc (suc zero))) t = (stop_task-status t, stop_task-name t)
act_lem child (pos (suc (suc (suc zero)))) t =
    let u = (stop_task t).1 in
    (start_task-status child u (stop_task-status t), start_task-name child u ∙ stop_task-name t)
act_lem child (pos (suc (suc (suc (suc n))))) t = (refl, refl)
act_lem child (negsuc n) t = (refl, refl)

wanted-name : (name : List ℕ) (t u : TaskObj) → u.name ≡ t.name → wanted 0 name u ≡ wanted 0 name t
unfolding wanted
wanted-name name t u h = ap (λ n. bytes_eq n name) h

process_task_action-at :
    (child : ℤ) (req : TaskActionReq) (core : Core)
    → (before : List TaskObj) (t : TaskObj) (after : List TaskObj)
    → find_task (wanted req.pid req.name) core.task_list ≡ some (before, t, after)
    → process_task_action child req core ≡ (
      EventErr.succ,
      record core {
        task_list = before ++ (act child req.action t).1 ∷ after;
        sys = core.sys ++ (act child req.action t).2;
      },
    )
unfolding process_task_action act
process_task_action-at child req core before t after h = rw (process_task_action, h) refl

-- An action by name reaches the first task of that name and no other. Afterwards a query by the
-- same name finds that task with the status that the action leads to: running after a start of a
-- stopped task and after a restart, unknown after a stop, the same as before otherwise.
pub process_task_action-seen :
    (js : Json) (child action : ℤ) (name : List ℕ) (core : Core)
    → (before : List TaskObj) (t : TaskObj) (after : List TaskObj)
    → core.task_list ≡ before ++ t ∷ after
    → any (wanted 0 name) before ≡ false
    → wanted 0 name t ≡ true
    → let (ret, core') =
        process_task_action child (record { pid = 0; name = name; action = action }) core in
      (t' : TaskObj) × (ret ≡ EventErr.succ)
      × (core'.task_list ≡ before ++ t' ∷ after)
      × (process_get_single_task js true (record { pid = 0; name = name }) core'
          ≡ (EventErr.succ, some (detail_info js t')))
      × (t'.status ≡ status_after action t.status)
process_task_action-seen js child action name core before t after e h k =
    let t' = (act child action t).1 in
    let (status, same) = act_lem child action t in
    let req : TaskActionReq = record { pid = 0; name = name; action = action } in
    let core2 : Core = record core {
      task_list = before ++ t' ∷ after;
      sys = core.sys ++ (act child action t).2;
    } in
    let eq =
      process_task_action-at child req core before t after
        (found_at (wanted 0 name) core before t after e h k) in
    (
      t',
      ap (λ r. r.0) eq,
      ap (λ r. r.1.task_list) eq,
      ap (λ r. process_get_single_task js true (record { pid = 0; name = name }) r.1) eq
          ∙ finds_first js (record { pid = 0; name = name }) core2 before t' after refl h
              (wanted-name name t t' same ∙ k),
      status,
    )
