-- ===== src/Socket.antt =====
-- writeSocket of src/task_msg.cpp: the loop that hands a buffer to `write` until all of it is taken.
-- What the operating system answers is part of the state, so that every sequence of short writes,
-- interruptions and errors is covered.
pub mod Delivery
use task_monitor.Base.{
  ℕ, ◌+◌, ◌-◌, min, List, [], ◌∷◌, ◌++◌, Option, none, some, ◌==◌, if◌then◌else◌, length, take,
  drop, ℤ, ok_code, fail_code,
}

-- An answer of `write`: room for so many bytes of those offered, EAGAIN or EINTR, another error.
pub data WriteAnswer : Type 0 where
  room : ℕ → WriteAnswer
  again failed : WriteAnswer

-- A descriptor: the answers to come, and the bytes that it has taken.
pub record Socket : Type 0 where
  pub answers : List WriteAnswer
  pub sent : List ℕ

-- The loop at `write_n` bytes written. `none`: the answers ran out, and the loop still runs.
unfoldable pub write_loop : List WriteAnswer → List ℕ → ℕ → List ℕ → Option (ℤ × Socket)
write_loop [] sent write_n buf = none
write_loop (again ∷ answers) sent write_n buf = write_loop answers sent write_n buf
write_loop (failed ∷ answers) sent write_n buf =
    some (fail_code, record { answers = answers; sent = sent })
write_loop (room k ∷ answers) sent write_n buf =
    let ret = min k (length buf - write_n) in
    let sent' = sent ++ take ret (drop write_n buf) in
    let rest = write_loop answers sent' (write_n + ret) buf in
    if write_n + ret == length buf
    then some (ok_code, record { answers = answers; sent = sent' })
    else rest

unfoldable pub write_socket : Socket → List ℕ → Option (ℤ × Socket)
unfolding write_loop
write_socket fd buf = write_loop fd.answers fd.sent 0 buf
