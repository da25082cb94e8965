-- ===== src/Sys/Descriptors.antt =====
-- How often a list of calls opens and closes a descriptor.
use task_monitor.Base.{ℕ, ◌+◌, ◌≡◌, List, [], ◌∷◌, ◌++◌, arith, ℤ}
use task_monitor.Sys.{SysCall, open_socket, close, pid_eq, one_if}

module _ (d : ℤ) where
  abbrev pub closes : List SysCall → ℕ
  closes [] = 0
  closes (close fd ∷ calls) = one_if (pid_eq fd d) + closes calls
  closes (_ ∷ calls) = closes calls

  pub closes-append : (xs ys : List SysCall) → closes (xs ++ ys) ≡ closes xs + closes ys
  closes-append [] ys = omega arith
  closes-append (close fd ∷ xs) ys = omega (arith, closes-append xs ys)
  closes-append (_ ∷ xs) ys = omega (arith, closes-append xs ys)

  abbrev pub opens : List SysCall → ℕ
  opens [] = 0
  opens (open_socket fd ∷ calls) = one_if (pid_eq fd d) + opens calls
  opens (_ ∷ calls) = opens calls

  pub opens-append : (xs ys : List SysCall) → opens (xs ++ ys) ≡ opens xs + opens ys
  opens-append [] ys = omega arith
  opens-append (open_socket fd ∷ xs) ys = omega (arith, opens-append xs ys)
  opens-append (_ ∷ xs) ys = omega (arith, opens-append xs ys)

  pub ruleset descriptor_counts = (arith, opens-append, closes-append)
