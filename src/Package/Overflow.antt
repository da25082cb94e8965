-- ===== src/Package/Overflow.antt =====
-- A length field near 2 ^ 32 makes `len + DATA_HEAD_LEN` of src/task_msg.cpp wrap around.
use task_monitor.Base.{
  ℕ, ◌+◌, ◌-◌, ◌≤◌, ◌<◌, ◌≡◌, refl, List, ◌++◌, some, true, arith, length, length-take, take, pos,
  u32_mod, ltb_ge,
}
use task_monitor.Ring.{RingBuf, IsRing}
use task_monitor.Package.{Package, get_available_package, htonl, total_len, data_head_len}
use task_monitor.Package.Fetch.{get_header, take_package_lem}

module _ (rb : RingBuf) (ring : IsRing rb) where
  open rb use {Buf}
  open ring use {contents}

  -- A header whose length is one of the eight largest is taken for a whole package at once, although
  -- the data is not there: the package says `len` and holds fewer bytes than a header.
  pub fetch_overflow :
      (b : Buf) (req_id len : ℕ) (tail : List ℕ)
      → contents b ≡ htonl req_id ++ (htonl len ++ tail)
      → req_id < u32_mod
      → len < u32_mod
      → u32_mod ≤ len + data_head_len
      → 0 < length tail
      → let r = get_available_package rb true b in
        (p : Package) × (r.ret ≡ pos 1)
        × (r.found ≡ some p)
        × (p.len ≡ len)
        × (length p.bytes ≡ len + data_head_len - u32_mod)
        × (length p.bytes < data_head_len)
  unfolding htonl
  fetch_overflow b req_id len tail e hid hlen big h =
      rw
        (
          get_header rb ring b req_id len tail e true hid hlen h,
          ltb_ge (8 + length tail) (total_len rb len) (omega arith),
        )
        (let n : ℕ = total_len rb len in
          let facts = take_package_lem rb ring b req_id len small in
          (
            record { req_id = req_id; len = len; bytes = take n (contents b) },
            facts.0,
            facts.1,
            refl,
            omega (arith, small, length-take n (contents b)),
            omega (arith, small, length-take n (contents b)),
          ))
    where
      small : total_len rb len ≤ length (contents b)
      small = rw e (omega arith)
