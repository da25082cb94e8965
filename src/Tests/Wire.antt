-- ===== src/Tests/Wire.antt =====
-- The wire format at concrete bytes.
use task_monitor.Base.{
  ℕ, ◌+◌, ◌<◌, ◌≡◌, refl, List, [], ◌∷◌, ◌++◌, none, some, true, arith, pos, length, ok_code, ◌≤◌,
  zero, suc, ◌⊎◌,
}
use task_monitor.Socket.{Socket, WriteAnswer, room, again, failed, write_socket}
use task_monitor.Socket.Delivery.{
  Delivered, Progress, writes, write_socket-Delivered, write_socket-returns,
}
use task_monitor.Package.{Package, get_available_package, htonl, total_len}
use task_monitor.Package.Frame.{frame}
use task_monitor.Package.Fetch.{fetch_frame, fetch_outcome}
use task_monitor.Package.Overflow.{fetch_overflow}
use task_monitor.Tests.Instances.{byte_ring, byte_ring-IsRing}

-- A peer that takes seven bytes, is interrupted, takes one and fails.
abbrev shaky : Socket
shaky = record { answers = room 7 ∷ again ∷ room 1 ∷ failed ∷ []; sent = 9 ∷ [] }

abbrev steady_answers : ℕ → List WriteAnswer
steady_answers n = elim n [ zero ↦ [] | suc (n → rest) ↦ room 3 ∷ again ∷ rest ]

abbrev steady : Socket
steady = record { answers = steady_answers 40; sent = [] }

shaky_write :
    write_socket shaky (1 ∷ 2 ∷ 3 ∷ [])
    ≡ some (ok_code, record { answers = again ∷ room 1 ∷ failed ∷ []; sent = 9 ∷ 1 ∷ 2 ∷ 3 ∷ [] })
unfolding write_socket
shaky_write = refl

write_socket-Delivered_example :
    Delivered
      (9 ∷ [])
      (1 ∷ 2 ∷ 3 ∷ [])
      (ok_code, record { answers = again ∷ room 1 ∷ failed ∷ []; sent = 9 ∷ 1 ∷ 2 ∷ 3 ∷ [] })
write_socket-Delivered_example = write_socket-Delivered shaky (1 ∷ 2 ∷ 3 ∷ []) shaky_write

write_socket-returns_example :
    (fd' : Socket) × (write_socket steady (1 ∷ 2 ∷ []) ≡ some (ok_code, fd'))
    × (fd'.sent ≡ [] ++ 1 ∷ 2 ∷ [])
    × Progress fd'.answers
    × (writes steady.answers ≤ writes fd'.answers + 3)
write_socket-returns_example = write_socket-returns steady (1 ∷ 2 ∷ []) (omega arith) (omega arith)

abbrev two_frames : List ℕ
two_frames = frame 1 (65 ∷ 0 ∷ []) ++ frame 2 (66 ∷ 0 ∷ [])

fetch_frame_example :
    let r = get_available_package byte_ring true two_frames in
    (r.ret ≡ pos 1)
    × (r.found ≡ some (record { req_id = 1; len = 2; bytes = frame 1 (65 ∷ 0 ∷ []) }))
    × (r.buf ≡ frame 2 (66 ∷ 0 ∷ []))
fetch_frame_example =
    fetch_frame byte_ring byte_ring-IsRing two_frames 1 (65 ∷ 0 ∷ []) (frame 2 (66 ∷ 0 ∷ [])) refl
      (omega arith) (omega arith) (omega arith)

abbrev begun : List ℕ
begun = 0 ∷ 0 ∷ 0 ∷ 1 ∷ 0 ∷ 0 ∷ 0 ∷ 2 ∷ 65 ∷ []

fetch_overflow_example :
    let r = get_available_package byte_ring true (htonl 1 ++ (htonl 0xffff_fffc ++ 65 ∷ [])) in
    (p : Package) × (r.ret ≡ pos 1)
    × (r.found ≡ some p)
    × (p.len ≡ 0xffff_fffc)
    × (length p.bytes ≡ 4)
    × (length p.bytes < 8)
fetch_overflow_example =
    fetch_overflow byte_ring byte_ring-IsRing (htonl 1 ++ (htonl 0xffff_fffc ++ 65 ∷ [])) 1
      0xffff_fffc (65 ∷ []) refl (omega arith) (omega arith) (omega arith) (omega arith)

fetch_outcome_example :
    let r = get_available_package byte_ring true begun in
    ((r.ret ≡ ok_code) × (r.found ≡ none) × (r.buf ≡ begun))
    ⊎ ((p : Package) × (r.ret ≡ pos 1)
        × (r.found ≡ some p)
        × (begun ≡ p.bytes ++ r.buf)
        × (length p.bytes ≡ total_len byte_ring p.len))
fetch_outcome_example = fetch_outcome byte_ring byte_ring-IsRing true begun
