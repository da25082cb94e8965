-- ===== src/Socket/Delivery.antt =====
-- What writeSocket of src/task_msg.cpp has written when it returns, and that it returns.
use task_monitor.Base.{
  ℕ, suc, ◌+◌, ◌-◌, ◌≤◌, ◌<◌, ◌≡◌, sym, ap, ◌∙◌, ◌⊎◌, inl, inr, min, List, [], ◌∷◌, ◌++◌, some,
  arith, ◌==◌, Bool-cases, length, take, drop, take-drop, take_all, append-nil, append_assoc, ℤ,
  ok_code, fail_code,
}
use task_monitor.Socket.{WriteAnswer, room, again, failed, Socket, write_loop, write_socket}

-- The bytes taken by a write of `buf` that returned: all of them, or a prefix and the error code.
abbrev pub Delivered : List ℕ → List ℕ → ℤ × Socket → Type 0
Delivered before buf (ret, after) =
    ((ret ≡ ok_code) × (after.sent ≡ before ++ buf))
    ⊎ ((n : ℕ) × (ret ≡ fail_code) × (n ≤ length buf) × (after.sent ≡ before ++ take n buf))

extend_prefix :
    (before buf : List ℕ) (n k : ℕ)
    → (before ++ take n buf) ++ take k (drop n buf) ≡ before ++ take (n + k) buf
extend_prefix before buf n k =
    append_assoc before (take n buf) _ ∙ ap (◌++◌ before) (sym (take-drop n k buf))

write_loop-Delivered :
    (before : List ℕ) (answers : List WriteAnswer) (sent : List ℕ) (n : ℕ) (buf : List ℕ)
    {r : ℤ × Socket}
    → n ≤ length buf
    → sent ≡ before ++ take n buf
    → write_loop answers sent n buf ≡ some r
    → Delivered before buf r
unfolding write_loop
write_loop-Delivered before [] sent n buf h e p = cc
write_loop-Delivered before (again ∷ answers) sent n buf h e p =
    write_loop-Delivered before answers sent n buf h e p
write_loop-Delivered before (failed ∷ answers) sent n buf h e p =
    inr (n, ground arith, h, ground arith)
write_loop-Delivered before (room k ∷ answers) sent n buf {r} h e p =
    let ret : ℕ = min k (length buf - n) in
    let sent' : List ℕ = sent ++ take ret (drop n buf) in
    let e' : sent' ≡ before ++ take (n + ret) buf = rw e (extend_prefix before buf n ret) in
    elim (Bool-cases (n + ret == length buf)) [
      | inl done ↦ inl (ground arith, ground (arith, e', take_all (n + ret) buf (ground arith)))
      | inr more ↦
          write_loop-Delivered before answers sent' (n + ret) buf {r = r} (omega arith) e'
            (ground arith)
    ]

-- When writeSocket returns, it returns 0 exactly with all of the buffer written, and otherwise -1
-- with a prefix of it written. Bytes that were sent before stay in place.
pub write_socket-Delivered :
    (fd : Socket) (buf : List ℕ) {r : ℤ × Socket}
    → write_socket fd buf ≡ some r
    → Delivered fd.sent buf r
unfolding write_socket
write_socket-Delivered fd buf p =
    write_loop-Delivered fd.sent fd.answers fd.sent 0 buf (omega arith) (sym (append-nil fd.sent)) p

-- Answers that let a write make progress, or interrupt it, but never fail it.
abbrev pub Progress : List WriteAnswer → Type 0
Progress [] = Unit {0}
Progress (room k ∷ answers) = (0 < k) × Progress answers
Progress (again ∷ answers) = Progress answers
Progress (failed ∷ answers) = ⊥

-- The answers that are no interruption.
abbrev pub writes : List WriteAnswer → ℕ
writes [] = 0
writes (room k ∷ answers) = suc (writes answers)
writes (again ∷ answers) = writes answers
writes (failed ∷ answers) = writes answers

-- The descriptor after a write that took all, with what is left of the answers.
abbrev Leaves : List WriteAnswer → ℕ → Socket → Type 0
Leaves answers left fd = Progress fd.answers × (writes answers ≤ writes fd.answers + suc left)

write_loop-returns :
    (answers : List WriteAnswer) (sent : List ℕ) (n : ℕ) (buf : List ℕ)
    → n ≤ length buf
    → Progress answers
    → length buf - n < writes answers
    → (fd : Socket) × (write_loop answers sent n buf ≡ some (ok_code, fd))
      × Leaves answers (length buf - n) fd
unfolding write_loop
write_loop-returns [] sent n buf h p w = absurd (omega arith)
write_loop-returns (again ∷ answers) sent n buf h p w = write_loop-returns answers sent n buf h p w
write_loop-returns (failed ∷ answers) sent n buf h p w = absurd p
write_loop-returns (room k ∷ answers) sent n buf h p w =
    let ret : ℕ = min k (length buf - n) in
    let sent' : List ℕ = sent ++ take ret (drop n buf) in
    elim (Bool-cases (n + ret == length buf)) [
      | inl done ↦ (record { answers = answers; sent = sent' }, ground arith, (p.1, omega arith))
      | inr more ↦
          let (fd, e, left) =
            write_loop-returns answers sent' (n + ret) buf (omega arith) p.1 (ground arith) in
          (fd, rw more e, (left.0, ground arith))
    ]

-- The loop ends, with code 0 and the whole buffer sent after what was sent before, once the system
-- has taken at least one byte at each of more writes than the buffer has bytes. The answers that it
-- leaves are again such, and at most one more than the buffer's bytes are gone.
pub write_socket-returns :
    (fd : Socket) (buf : List ℕ)
    → Progress fd.answers
    → length buf < writes fd.answers
    → (fd' : Socket) × (write_socket fd buf ≡ some (ok_code, fd'))
      × (fd'.sent ≡ fd.sent ++ buf)
      × Progress fd'.answers
      × (writes fd.answers ≤ writes fd'.answers + suc (length buf))
unfolding write_socket
write_socket-returns fd buf p w =
    let (fd', e, left) =
      write_loop-returns fd.answers fd.sent 0 buf (omega arith) p (omega arith) in
    (fd', e, ground (arith, write_socket-Delivered fd buf e), left.0, omega arith)
