-- ===== src/Core/Queries.antt =====
-- What processGetAllTask and processGetSingleTask of src/task_core.cpp answer.
use task_monitor.Base.{
  ◌≡◌, refl, ◌∙◌, List, [], ◌∷◌, ◌++◌, Bool, true, false, none, some, ◌+◌, ◌-◌, ◌<◌, suc, zero,
  length, to_u32, bytes_eq_refl, bytes_eq→eq, Bool-cases, inl, inr, ℕ, length-map, arith, ◌==◌, map,
  append-nil, ap, lt→ltb,
}
use task_monitor.Json.{Json}
use task_monitor.Msg.{EventErr, TaskSingleReq}
use task_monitor.TaskObj.{TaskObj}
use task_monitor.Core.{
  Core, process_get_all_task, process_get_single_task, fill_infos, simple_info, zeros, wanted,
  detail_info, find_task,
}
use task_monitor.Core.Lookup.{any, find_task-at, find_task-none}

==→eq : (a b : ℕ) → (a == b) ≡ true → a ≡ b
==→eq a b h = ground arith

suc-nonzero : (n : ℕ) → (suc n == 0) ≡ false
suc-nonzero n = ground arith

eq→== : (a b : ℕ) → a ≡ b → (a == b) ≡ true
eq→== a b h = ground arith

lt→ne : (a b : ℕ) → a < b → (a == b) ≡ false
lt→ne a b h = ground arith

fill_infos-all :
    (count i : ℕ) (ts : List TaskObj)
    → i + length ts ≡ count
    → fill_infos count i ts ≡ some (map simple_info ts)
unfolding fill_infos
fill_infos-all count i [] h = refl
fill_infos-all count i (t ∷ []) h =
    rw (lt→ltb i count (omega arith), eq→== (suc i) count (omega arith)) refl
fill_infos-all count i (t ∷ u ∷ ts) h =
    rw
      (
        lt→ltb i count (omega arith),
        lt→ne (suc i) count (omega arith),
        fill_infos-all count (suc i) (u ∷ ts) (omega arith),
      )
      refl

zeros-none : (n : ℕ) → n ≡ 0 → zeros n ≡ []
zeros-none zero h = refl
zeros-none (suc n) h = absurd (omega arith)

-- Where the counter is the number of tasks, a query for all tasks answers with every task of the
-- list, in its order, and with their number; nothing is written past the end of the array.
pub process_get_all_task-lists :
    (core : Core)
    → core.task_count ≡ length core.task_list
    → process_get_all_task true core
      ≡ some (
        EventErr.succ,
        some (record { count = length core.task_list; task_list = map simple_info core.task_list }),
      )
unfolding process_get_all_task
process_get_all_task-lists core h =
    let ts = core.task_list in
    rw
      (
        fill_infos-all core.task_count 0 ts (omega arith),
        zeros-none (core.task_count - length (map simple_info ts))
            (omega (arith, length-map simple_info ts)),
        append-nil (map simple_info ts),
        h,
      )
      refl

pub found_at :
    (p : TaskObj → Bool) (core : Core) (before : List TaskObj) (t : TaskObj) (after : List TaskObj)
    → core.task_list ≡ before ++ t ∷ after
    → any p before ≡ false
    → p t ≡ true
    → find_task p core.task_list ≡ some (before, t, after)
found_at p core before t after e h k = ap (find_task p) e ∙ find_task-at p before t after h k

-- What a query asks for: the pid, if it is not 0, and else the name.
abbrev pub IsWanted : ℕ → List ℕ → TaskObj → Type 0
IsWanted zero name t = t.name ≡ name
IsWanted (suc pid) name t = to_u32 t.pid ≡ suc pid

abbrev pub NoneWanted : ℕ → List ℕ → List TaskObj → Type 0
NoneWanted pid name [] = Unit
NoneWanted pid name (t ∷ ts) = ¬ IsWanted pid name t × NoneWanted pid name ts

wanted-of : (pid : ℕ) (name : List ℕ) (t : TaskObj) → IsWanted pid name t → wanted pid name t ≡ true
unfolding wanted
wanted-of zero name t h = rw h (bytes_eq_refl name)
wanted-of (suc pid) name t h = rw (suc-nonzero pid) (eq→== (to_u32 t.pid) (suc pid) h)

of-wanted : (pid : ℕ) (name : List ℕ) (t : TaskObj) → wanted pid name t ≡ true → IsWanted pid name t
unfolding wanted
of-wanted zero name t h = bytes_eq→eq t.name name h
of-wanted (suc pid) name t h = ==→eq (to_u32 t.pid) (suc pid) (rw (wanted, suc-nonzero pid) at h)

not_wanted :
    (pid : ℕ) (name : List ℕ) (t : TaskObj) → ¬ IsWanted pid name t → wanted pid name t ≡ false
not_wanted pid name t h = elim (Bool-cases (wanted pid name t)) [
  | inl e ↦ absurd (h (of-wanted pid name t e))
  | inr e ↦ e
]

pub any-wanted :
    (pid : ℕ) (name : List ℕ) (ts : List TaskObj)
    → NoneWanted pid name ts
    → any (wanted pid name) ts ≡ false
any-wanted pid name [] h = refl
any-wanted pid name (t ∷ ts) (first, rest) =
    rw (not_wanted pid name t first) (any-wanted pid name ts rest)

module _ (js : Json) where
  pub finds_first :
      (req : TaskSingleReq) (core : Core) (before : List TaskObj) (t : TaskObj)
      (after : List TaskObj)
      → core.task_list ≡ before ++ t ∷ after
      → any (wanted req.pid req.name) before ≡ false
      → wanted req.pid req.name t ≡ true
      → process_get_single_task js true req core ≡ (EventErr.succ, some (detail_info js t))
  unfolding process_get_single_task
  finds_first req core before t after e h k =
      rw (process_get_single_task, found_at (wanted req.pid req.name) core before t after e h k)
        refl

  -- If there is memory, a query for one task is answered with the first task of the list whose pid,
  -- as 32 bits, is the one asked for, or, where the pid asked for is 0, whose name is; if no task
  -- has it the answer is NOT_FOUND.
  pub process_get_single_task-first :
      (req : TaskSingleReq) (core : Core)
      → ((before : List TaskObj) (t : TaskObj) (after : List TaskObj)
          → core.task_list ≡ before ++ t ∷ after
          → NoneWanted req.pid req.name before
          → IsWanted req.pid req.name t
          → process_get_single_task js true req core ≡ (EventErr.succ, some (detail_info js t)))
        × (NoneWanted req.pid req.name core.task_list
            → process_get_single_task js true req core ≡ (EventErr.not_found, none))
  unfolding process_get_single_task
  process_get_single_task-first req core = (
    λ before t after e h k.
        finds_first req core before t after e (any-wanted req.pid req.name before h)
          (wanted-of req.pid req.name t k),
    λ h.
        rw
          (
            process_get_single_task,
            find_task-none (wanted req.pid req.name) core.task_list
                (any-wanted req.pid req.name core.task_list h),
          )
          refl,
  )
