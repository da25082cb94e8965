-- ===== src/Send/Wire.antt =====
-- What the three writes of a message leave on the wire.
use task_monitor.Base.{
  ℕ, ◌+◌, ◌<◌, ◌≤◌, length-take, ◌≡◌, refl, ap, ◌∙◌, inl, inr, List, ◌++◌, some, arith,
  Option-cases, length, take, append_assoc, take_all, ℤ, ok_code, ◌+ℤ◌,
}
use task_monitor.Socket.{Socket, write_socket}
use task_monitor.Socket.Delivery.{
  Progress, writes, Delivered, write_socket-Delivered, write_socket-returns,
}
use task_monitor.Package.{htonl}
use task_monitor.Package.Frame.{frame, length-htonl}
use task_monitor.Send.{send_frame}

-- The sum of three return codes of writeSocket is 0 only if each is.
sum_codes :
    (fd : Socket) (a b c : List ℕ) (x y z : ℤ × Socket) {ret : ℤ}
    → Delivered fd.sent a x
    → Delivered x.1.sent b y
    → Delivered y.1.sent c z
    → ret ≡ (x.0 +ℤ y.0) +ℤ z.0
    → ret ≡ ok_code
    → z.1.sent ≡ fd.sent ++ (a ++ (b ++ c))
unfolding ◌+ℤ◌
sum_codes fd a b c x y z (inl p) (inl q) (inl r) e h =
    r.1
    ∙ ap (λ (t : List ℕ). t ++ c) (q.1 ∙ ap (λ (t : List ℕ). t ++ b) p.1)
    ∙ append_assoc (fd.sent ++ a) b c
    ∙ append_assoc fd.sent a (b ++ c)
sum_codes fd a b c x y z (inl p) (inl q) (inr r) e h = ground arith
sum_codes fd a b c x y z (inl p) (inr q) (inl r) e h = ground arith
sum_codes fd a b c x y z (inl p) (inr q) (inr r) e h = ground arith
sum_codes fd a b c x y z (inr p) (inl q) (inl r) e h = ground arith
sum_codes fd a b c x y z (inr p) (inl q) (inr r) e h = ground arith
sum_codes fd a b c x y z (inr p) (inr q) (inl r) e h = ground arith
sum_codes fd a b c x y z (inr p) (inr q) (inr r) e h = ground arith

-- A message that was written is three writes that returned.
pub send_frame-parts :
    (fd : Socket) (req_id : ℕ) (buf : List ℕ) (len : ℕ) {r : ℤ × Socket}
    → send_frame fd req_id buf len ≡ some r
    → (x y z : ℤ × Socket) × (write_socket fd (htonl req_id) ≡ some x)
      × (write_socket x.1 (htonl len) ≡ some y)
      × (write_socket y.1 (take len buf) ≡ some z)
      × (r ≡ ((x.0 +ℤ y.0) +ℤ z.0, z.1))
unfolding send_frame
send_frame-parts fd req_id buf len {r} h = elim (Option-cases (write_socket fd (htonl req_id))) [
  | inl e ↦ ground arith
  | inr (x, ex) ↦ elim (Option-cases (write_socket x.1 (htonl len))) [
    | inl e ↦ ground arith
    | inr (y, ey) ↦ elim (Option-cases (write_socket y.1 (take len buf))) [
      | inl e ↦ ground arith
      | inr (z, ez) ↦ (x, y, z, ex, ey, ez, ground arith)
    ]
  ]
]

-- What is written is the bytes that the length counts.
pub send_frame-take :
    (fd : Socket) (req_id : ℕ) (buf : List ℕ) (len : ℕ)
    → len ≤ length buf
    → send_frame fd req_id buf len ≡ send_frame fd req_id (take len buf) (length (take len buf))
unfolding send_frame
send_frame-take fd req_id buf len h =
    let n : length (take len buf) ≡ len = omega (arith, length-take len buf) in
    rw (n, take_all len (take len buf) (omega arith)) refl

-- If the three writes add up to 0, the descriptor has taken exactly one frame more.
pub send_frame-sent :
    (fd fd' : Socket) (req_id : ℕ) (buf : List ℕ)
    → send_frame fd req_id buf (length buf) ≡ some (ok_code, fd')
    → fd'.sent ≡ fd.sent ++ frame req_id buf
send_frame-sent fd fd' req_id buf h =
    let (x, y, z, ex, ey, ez, e) = send_frame-parts fd req_id buf (length buf) h in
    let whole : take (length buf) buf ≡ buf = take_all (length buf) buf (omega arith) in
    let last : write_socket y.1 buf ≡ some z = rw whole at ez in
    ap (λ (r : ℤ × Socket). r.1.sent) e
    ∙ sum_codes fd (htonl req_id) (htonl (length buf)) buf x y z
        (write_socket-Delivered fd (htonl req_id) ex)
        (write_socket-Delivered x.1 (htonl (length buf)) ey) (write_socket-Delivered y.1 buf last)
        (ap (λ (r : ℤ × Socket). r.0) e) refl

-- A message is put on the wire whole, with result 0, if the system takes a byte at each of enough
-- writes.
pub send_frame-returns :
    (fd : Socket) (req_id : ℕ) (buf : List ℕ)
    → Progress fd.answers
    → length buf + 20 < writes fd.answers
    → (fd' : Socket) × (send_frame fd req_id buf (length buf) ≡ some (ok_code, fd'))
      × (fd'.sent ≡ fd.sent ++ frame req_id buf)
unfolding send_frame ◌+ℤ◌
send_frame-returns fd req_id buf p w =
    let four : length (htonl req_id) ≡ 4 = length-htonl req_id in
    let four' : length (htonl (length buf)) ≡ 4 = length-htonl (length buf) in
    let whole : take (length buf) buf ≡ buf = take_all (length buf) buf (omega arith) in
    let (fd1, e1, s1, p1, w1) = write_socket-returns fd (htonl req_id) p (omega arith) in
    let (fd2, e2, s2, p2, w2) = write_socket-returns fd1 (htonl (length buf)) p1 (omega arith) in
    let (fd3, e3, s3, p3, w3) = write_socket-returns fd2 buf p2 (omega arith) in
    let done : send_frame fd req_id buf (length buf) ≡ some (ok_code, fd3) =
      rw (e1, e2, whole, e3) in
    (fd3, done, send_frame-sent fd fd3 req_id buf done)
