-- ===== src/TaskCli/Options.antt =====
-- The reading of the options in `main` of src/task_cli.cpp.
use task_monitor.Base.{
  ℕ, zero, suc, ◌+◌, ◌<◌, ◌≡◌, refl, ◌⊎◌, inl, inr, List, Bool, false, none, arith, ℤ, Option-cases,
}
use task_monitor.Ring.{RingBuf}
use task_monitor.ListApi.{ListApi}
use task_monitor.Json.{Json, Alloc}
use task_monitor.Client.{MsgRequest, Grant}
use task_monitor.TaskCli.{
  CliCb, Answers, still_parsing, exit_with, main, MsgData, Opt, take_option, parse_options, is_end,
  running, exited, no_data,
}

module _ (atoi : List ℕ → ℤ) (getopt : ℕ → Opt) where
  -- After `rounds` rounds the loop runs on, or an option was refused on the way.
  abbrev pub Undone : ℕ → ℕ → MsgData → Type 0
  Undone rounds i d =
      let r = parse_options atoi getopt rounds i d in
      (r ≡ running)
      ⊎ ((j : ℕ) × (d' : MsgData) × (j < i + rounds)
          × (take_option atoi (getopt j) d' ≡ none)
          × (r ≡ exited 1))

  parse_options-never_done :
      ((i : ℕ) → is_end (getopt i) ≡ false) → (rounds i : ℕ) (d : MsgData) → Undone rounds i d
  unfolding parse_options
  parse_options-never_done h zero i d = inl refl
  parse_options-never_done h (suc rounds) i d =
      elim (Option-cases (take_option atoi (getopt i) d)) [
        | inl e ↦ inr (i, d, omega arith, e, rw (h i, e) refl)
        | inr (d', e) ↦ elim (parse_options-never_done h rounds (suc i) d') [
          | inl r ↦ inl (rw (h i, e) r)
          | inr (j, d2, b, r, q) ↦ inr (j, d2, omega (arith, b), r, rw (h i, e) q)
        ]
      ]

module _ (js : Json) (rb : RingBuf) (api : ListApi (MsgRequest js CliCb)) where
  -- getopt never returns 0: it returns an option's letter, '?' or -1. So the loop of `main` never
  -- comes to its end, whatever the options are: after any number of rounds the program is still in
  -- it, or it met an option that take_option refuses, and exited with 1. It never makes an event
  -- loop, and never connects.
  pub main-never_connects :
      (atoi : List ℕ → ℤ) (getopt : ℕ → Opt) (rounds : ℕ) (inst_ok : Bool) (a : Answers js rb api)
      (g : Grant js CliCb rb api) (alloc : Alloc) (pid : ℤ)
      → ((i : ℕ) → is_end (getopt i) ≡ false)
      → let end = main js rb api atoi getopt rounds inst_ok a g alloc pid in
        (end ≡ still_parsing)
        ⊎ ((j : ℕ) × (d : MsgData) × (j < rounds)
            × (take_option atoi (getopt j) d ≡ none)
            × (end ≡ exit_with 1))
  unfolding main
  main-never_connects atoi getopt rounds inst_ok a g alloc pid h =
      elim (parse_options-never_done atoi getopt h rounds 0 no_data) [
        | inl r ↦ inl (rw (main, r) refl)
        | inr (j, d, b, r, q) ↦ inr (j, d, omega (arith, b), r, rw (main, q) refl)
      ]
