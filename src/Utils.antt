-- ===== src/Utils.antt =====
-- getRandom of src/task_utils.cpp. `random` and RAND_MAX are the C library's: `rand` is what `random`
-- gave, and `rand_max` stands for RAND_MAX.
use task_monitor.Base.{ℕ, ◌-◌, ◌*◌, ◌/◌, ◌%◌, ◌^◌, ◌≤◌, ◌<◌, ◌≡◌, arith, u32_mod, refl}
use native.Mathlib.Nat.{mod-eq_of_lt}

-- `rand * max` is a product of an `int` and a `uint32_t`, which wraps around.
unfoldable pub get_random : ℕ → ℕ → ℕ → ℕ
get_random rand_max rand max = (rand * max) % u32_mod / rand_max

bounded : (n : ℕ) → n % u32_mod / (2 ^ 31 - 1) ≤ 2
bounded n = omega arith

-- Where RAND_MAX is 2^31 - 1 the result is never more than 2, whatever `max` is asked for. It is the
-- intended share of `max` if the product fits 32 bits.
get_random_bounds :
    (rand_max rand max : ℕ)
    → rand_max ≡ 2 ^ 31 - 1
    → (get_random rand_max rand max ≤ 2)
      × (rand * max < u32_mod → get_random rand_max rand max ≡ rand * max / rand_max)
unfolding get_random
get_random_bounds rand_max rand max h = (rw h (bounded (rand * max)), λ k. rw (mod-eq_of_lt k) refl)
