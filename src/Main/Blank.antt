-- ===== src/Main/Blank.antt =====
-- The tasks that task_core_init of src/task_core.cpp makes for entries without a name, a path and a
-- parameter.
use task_monitor.Base.{
  ℕ, ◌≡◌, refl, sym, subst, List, [], ◌∷◌, ◌++◌, Bool, true, ◌&&◌, Option, none, some, arith, ℤ,
  ok_code, Bool-cases, Option-cases, inl, inr, ◌+◌,
}
use task_monitor.Sys.{start_timer}
use task_monitor.TaskObj.{TaskObj, is_unknown, start_task, task_obj}
use task_monitor.Config.Loading.{is_blank}
use task_monitor.Core.{Core, Fresh, TaskParm, task_param_cb, foreach_task, task_core_init}

-- Whether a task has an empty name, path and parameter.
abbrev pub is_blank_task : TaskObj → Bool
is_blank_task t = (is_blank t.name && is_blank t.path) && is_blank t.param

abbrev pub all_blank : List TaskObj → Bool
all_blank [] = true
all_blank (t ∷ ts) = is_blank_task t && all_blank ts

both : (a b : Bool) → (a && b) ≡ true → (a ≡ true) × (b ≡ true)
both a b h = ground arith

all_blank-add :
    (ts : List TaskObj) (t : TaskObj)
    → all_blank ts ≡ true
    → is_blank_task t ≡ true
    → all_blank (ts ++ t ∷ []) ≡ true
all_blank-add [] t h k = rw k refl
all_blank-add (u ∷ ts) t h k =
    let (first, rest) = both (is_blank_task u) (all_blank ts) h in
    rw (first, all_blank-add ts t rest k) refl

start_task-blank :
    (child : ℤ) (t : TaskObj) → is_blank_task t ≡ true → is_blank_task (start_task child t).1 ≡ true
unfolding start_task
start_task-blank child t h = elim (Bool-cases (is_unknown t.status)) [
  | inl e ↦ rw e h
  | inr e ↦ rw e h
]

abbrev IsBlank : TaskParm → Type 0
IsBlank p = (p.name ≡ []) × (p.path ≡ []) × (p.param ≡ [])

abbrev pub AllBlank : List (Fresh × TaskParm) → Type 0
AllBlank [] = Unit
AllBlank ((fresh, p) ∷ ps) = IsBlank p × AllBlank ps

abbrev pub Blank : Option Core → Type 0
Blank none = Unit
Blank (some core) = all_blank core.task_list ≡ true

abbrev IfBlank : Option TaskObj → Type 0
IfBlank none = Unit
IfBlank (some t) = is_blank_task t ≡ true

task_obj-IfBlank :
    (raw : TaskObj) (timer : Option ℕ) (p : TaskParm)
    → IsBlank p
    → IfBlank (task_obj raw timer p.name p.path p.param p.heartbeat).0
unfolding task_obj
task_obj-IfBlank raw none p h = tt
task_obj-IfBlank raw (some timer) p (name, path, param) = rw (name, path, param) refl

task_param_cb-Blank :
    (fresh : Fresh) (p : TaskParm) (core : Core)
    → IsBlank p
    → all_blank core.task_list ≡ true
    → Blank (task_param_cb fresh p core)
unfolding task_param_cb
task_param_cb-Blank fresh p core h k =
    elim (Option-cases (task_obj fresh.raw fresh.timer p.name p.path p.param p.heartbeat).0) [
      | inl e ↦ rw (task_param_cb, e) tt
      | inr (t, e) ↦
          let blank = subst IfBlank e (task_obj-IfBlank fresh.raw fresh.timer p h) in
          rw (task_param_cb, e)
            (all_blank-add core.task_list (start_task fresh.child t).1 k
              (start_task-blank fresh.child t blank))
    ]

foreach_task-Blank :
    (ps : List (Fresh × TaskParm)) (core : Core)
    → AllBlank ps
    → all_blank core.task_list ≡ true
    → Blank (foreach_task ps core)
unfolding foreach_task
foreach_task-Blank [] core h k = k
foreach_task-Blank ((fresh, p) ∷ ps) core (hp, h) k =
    elim (Option-cases (task_param_cb fresh p core)) [
      | inl e ↦ rw (foreach_task, e) tt
      | inr (core', e) ↦
          rw (foreach_task, e)
            (foreach_task-Blank ps core' h (subst Blank e (task_param_cb-Blank fresh p core hp k)))
    ]

abbrev pub BlankResult : Option (ℤ × Core) → Type 0
BlankResult none = Unit
BlankResult (some (ret, core)) = all_blank core.task_list ≡ true

pub task_core_init-Blank :
    (timer : Option ℕ) (ps : List (Fresh × TaskParm)) (core : Core)
    → AllBlank ps
    → all_blank core.task_list ≡ true
    → BlankResult (task_core_init timer ps core)
unfolding task_core_init
task_core_init-Blank none ps core h k = k
task_core_init-Blank (some t) ps core h k =
    let first : Core = record core {
      clilist_timer = some t;
      sys = core.sys ++ start_timer (some t) ∷ [];
    } in
    let loaded = foreach_task-Blank ps first h k in
    elim (Option-cases (foreach_task ps first)) [
      | inl e ↦ rw (task_core_init, e) tt
      | inr (core', e) ↦ rw (task_core_init, e) (subst Blank e loaded)
    ]

pub is_blank-nil : (s : List ℕ) → is_blank s ≡ true → s ≡ []
is_blank-nil [] h = refl
is_blank-nil (c ∷ s) h = cc

pub nameless_parts :
    (name path param rest : Bool)
    → (((name && path) && param) && rest) ≡ true
    → (name ≡ true) × (path ≡ true) × (param ≡ true) × (rest ≡ true)
nameless_parts name path param rest h = ground arith

-- Each task gets its timer.
abbrev pub HasTimers : List (Fresh × TaskParm) → Type 0
HasTimers [] = Unit
HasTimers ((fresh, p) ∷ ps) = ((h : ℕ) × (fresh.timer ≡ some h)) × HasTimers ps

task_obj-made :
    (raw : TaskObj) (timer : Option ℕ) (p : TaskParm) (h : ℕ)
    → timer ≡ some h
    → (t : TaskObj) × ((task_obj raw timer p.name p.path p.param p.heartbeat).0 ≡ some t)
unfolding task_obj
task_obj-made raw timer p h e =
    subst (λ o. (t : TaskObj) × ((task_obj raw o p.name p.path p.param p.heartbeat).0 ≡ some t))
      (sym e) (_, refl)

task_param_cb-made :
    (fresh : Fresh) (p : TaskParm) (core : Core) (h : ℕ)
    → fresh.timer ≡ some h
    → (core' : Core) × (task_param_cb fresh p core ≡ some core')
unfolding task_param_cb
task_param_cb-made fresh p core h e =
    let (t, made) = task_obj-made fresh.raw fresh.timer p h e in
    let r = start_task fresh.child t in
    (
      record core {
        task_list = core.task_list ++ r.1 ∷ [];
        task_count = core.task_count + 1;
        sys = core.sys ++ r.2;
      },
      rw (task_param_cb, made) refl,
    )

foreach_task-made :
    (ps : List (Fresh × TaskParm)) (core : Core)
    → HasTimers ps
    → (core' : Core) × (foreach_task ps core ≡ some core')
unfolding foreach_task
foreach_task-made [] core h = (core, refl)
foreach_task-made ((fresh, p) ∷ ps) core ((t, e), h) =
    let (core1, made) = task_param_cb-made fresh p core t e in
    let (core2, rest) = foreach_task-made ps core1 h in (core2, rw (foreach_task, made) rest)

pub task_core_init-made :
    (h : ℕ) (ps : List (Fresh × TaskParm)) (core : Core)
    → HasTimers ps
    → (core' : Core) × (task_core_init (some h) ps core ≡ some (ok_code, core'))
unfolding task_core_init
task_core_init-made h ps core t =
    let (core', made) =
      foreach_task-made ps
        (record core { clilist_timer = some h; sys = core.sys ++ start_timer (some h) ∷ [] }) t in
    (core', rw (task_core_init, made) refl)
