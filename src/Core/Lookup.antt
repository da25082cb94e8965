-- ===== src/Core/Lookup.antt =====
-- The search for a task in src/task_core.cpp, which the queries and the actions share.
use task_monitor.Base.{
  ◌≡◌, refl, List, [], ◌∷◌, ◌++◌, Bool, true, false, Option, none, some, ◌||◌, arith, Bool-cases,
  inl, inr, ap, subst,
}
use task_monitor.TaskObj.{TaskObj}
use task_monitor.Core.{Found, find_task, push_before}

abbrev pub any : (TaskObj → Bool) → List TaskObj → Bool
any p [] = false
any p (t ∷ ts) = p t || any p ts

pub find_task-at :
    (p : TaskObj → Bool) (before : List TaskObj) (t : TaskObj) (after : List TaskObj)
    → any p before ≡ false
    → p t ≡ true
    → find_task p (before ++ t ∷ after) ≡ some (before, t, after)
unfolding find_task
find_task-at p [] t after h k = rw k refl
find_task-at p (u ∷ before) t after h k = elim (Bool-cases (p u)) [
  | inl e ↦ absurd (ground (arith, h, e))
  | inr e ↦ rw (e, find_task-at p before t after (ground arith) k) refl
]

pub find_task-none :
    (p : TaskObj → Bool) (ts : List TaskObj) → any p ts ≡ false → find_task p ts ≡ none
unfolding find_task
find_task-none p [] h = refl
find_task-none p (t ∷ ts) h = elim (Bool-cases (p t)) [
  | inl e ↦ absurd (ground arith)
  | inr e ↦ rw (e, find_task-none p ts (ground arith)) refl
]

abbrev Joins : List TaskObj → Option Found → Type 0
Joins ts none = Unit
Joins ts (some (before, t, after)) = before ++ t ∷ after ≡ ts

push_before-Joins :
    (t : TaskObj) (ts : List TaskObj) (r : Option Found)
    → Joins ts r
    → Joins (t ∷ ts) (push_before t r)
push_before-Joins t ts none h = tt
push_before-Joins t ts (some f) h = ap (◌∷◌ t) h

find_task-Joins : (p : TaskObj → Bool) (ts : List TaskObj) → Joins ts (find_task p ts)
unfolding find_task
find_task-Joins p [] = tt
find_task-Joins p (t ∷ ts) = elim (Bool-cases (p t)) [
  | inl e ↦ rw e refl
  | inr e ↦ rw e (push_before-Joins t ts (find_task p ts) (find_task-Joins p ts))
]

-- What is found is a part of the list.
pub find_task-joins :
    (p : TaskObj → Bool) (ts before : List TaskObj) (t : TaskObj) (after : List TaskObj)
    → find_task p ts ≡ some (before, t, after)
    → before ++ t ∷ after ≡ ts
find_task-joins p ts before t after e = subst (Joins ts) e (find_task-Joins p ts)
