-- ===== src/Debug.antt =====
-- src/task_debug.h: what stands in front of a line of the log.
use task_monitor.Base.{
  ℕ, ◌+◌, ◌*◌, ◌/◌, ◌≡◌, refl, List, [], ◌∷◌, ◌++◌, Bool, false, Option, none, some, ◌==◌,
  if◌then◌else◌, Bool-cases, inl, inr, arith, ◌||◌,
}

pub data Level : Type 0 where
  verbose debug info warn error fatal : Level

-- The value of the enumerator.
unfoldable pub level_code : Level → ℕ
level_code Level.verbose = 0
level_code Level.debug = 1
level_code Level.info = 2
level_code Level.warn = 3
level_code Level.error = 4
level_code Level.fatal = 5

-- strstr of "/", and the byte after it.
abbrev after_slash : List ℕ → Option (List ℕ)
after_slash [] = none
after_slash (c ∷ cs) = let rest = after_slash cs in if c == 47 then some cs else rest

-- getBaseName; `none` is NULL.
unfoldable pub get_base_name : Option (List ℕ) → Option (List ℕ)
get_base_name none = none
get_base_name (some str) = elim (after_slash str) [ none ↦ some str | some rest ↦ some rest ]

-- getCurMs, at what clock_gettime gives.
unfoldable pub get_cur_ms : ℕ → ℕ → ℕ
get_cur_ms sec nsec = sec * 1000 + nsec / 1000000

abbrev pub has_slash : List ℕ → Bool
has_slash [] = false
has_slash (c ∷ cs) = (c == 47) || has_slash cs

after_slash-first :
    (dir rest : List ℕ) → has_slash dir ≡ false → after_slash (dir ++ 47 ∷ rest) ≡ some rest
after_slash-first [] rest h = refl
after_slash-first (c ∷ dir) rest h = elim (Bool-cases (c == 47)) [
  | inl e ↦ absurd (ground arith)
  | inr e ↦ rw e (after_slash-first dir rest (ground arith))
]

-- Only the first directory of a path is taken off: what stays has all the others in it.
pub get_base_name-keeps_dirs :
    (dir rest : List ℕ)
    → has_slash dir ≡ false
    → get_base_name (some (dir ++ 47 ∷ rest)) ≡ some rest
unfolding get_base_name
get_base_name-keeps_dirs dir rest h = rw (get_base_name, after_slash-first dir rest h) refl
