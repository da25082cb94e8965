-- ===== src/Core/Clearing.antt =====
-- The timer of src/task_core.cpp that deletes the clients that are gone.
use task_monitor.Base.{
  ◌≡◌, refl, List, [], ◌∷◌, Bool, true, false, none, some, ◌||◌, not, arith, if◌then◌else◌,
  Bool-cases, inl, inr,
}
use task_monitor.Core.{Core, CliObj, clear_clients, cli_list_clear_timer_cb}

abbrev pub any_freed : List CliObj → Bool
any_freed [] = false
any_freed (c ∷ cs) = c.freed || any_freed cs

abbrev pub any_gone : List CliObj → Bool
any_gone [] = false
any_gone (c ∷ cs) = not c.is_available || any_gone cs

-- The list after a tick: the same objects, the unavailable ones freed.
abbrev pub swept : List CliObj → List CliObj
swept [] = []
swept (c ∷ cs) = (if c.is_available then c else record c { freed = true }) ∷ swept cs

pub clear_clients-swept :
    (cs : List CliObj) → any_freed cs ≡ false → clear_clients cs ≡ some (swept cs)
unfolding clear_clients
clear_clients-swept [] h = refl
clear_clients-swept (c ∷ cs) h = elim (Bool-cases c.freed) [
  | inl e ↦ absurd (ground arith)
  | inr e ↦ simp (e, clear_clients-swept cs (ground arith))
]

pub clear_clients-fault : (cs : List CliObj) → any_freed cs ≡ true → clear_clients cs ≡ none
unfolding clear_clients
clear_clients-fault [] h = absurd (ground arith)
clear_clients-fault (c ∷ cs) h = elim (Bool-cases c.freed) [
  | inl e ↦ rw e refl
  | inr e ↦ simp (e, clear_clients-fault cs (ground arith))
]

or_true : (b : Bool) → (b || true) ≡ true
or_true true = refl
or_true false = refl

pub swept-freed : (cs : List CliObj) → any_gone cs ≡ true → any_freed (swept cs) ≡ true
swept-freed [] h = absurd (ground arith)
swept-freed (c ∷ cs) h = elim (Bool-cases c.is_available) [
  | inl e ↦ simp (e, swept-freed cs (ground arith), or_true)
  | inr e ↦ rw e refl
]

-- Where no client of the list is freed yet, a tick of the timer is harmless: it frees the clients
-- that are not available, and leaves them in the list. Where there was such a client the next tick
-- uses freed memory.
pub cli_list_clear_timer_cb-twice :
    (core : Core)
    → any_freed core.cli_list ≡ false
    → any_gone core.cli_list ≡ true
    → (cli_list_clear_timer_cb core ≡ some (record core { cli_list = swept core.cli_list }))
      × (cli_list_clear_timer_cb (record core { cli_list = swept core.cli_list }) ≡ none)
unfolding cli_list_clear_timer_cb
cli_list_clear_timer_cb-twice core h k = (
  rw (cli_list_clear_timer_cb, clear_clients-swept core.cli_list h) refl,
  rw
      (
        cli_list_clear_timer_cb,
        clear_clients-fault (swept core.cli_list) (swept-freed core.cli_list k),
      )
      refl,
)
