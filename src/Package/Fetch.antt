-- ===== src/Package/Fetch.antt =====
-- getAvailablePackage of src/task_msg.cpp against the frames: what it takes out of the buffer.
use task_monitor.Base.{
  ℕ, ◌+◌, ◌-◌, ◌≤◌, ◌<◌, ◌≡◌, refl, sym, ap, ◌∙◌, ◌⊎◌, inl, inr, List, [], ◌++◌, Bool, true, false,
  none, some, arith, ltb, leb, if◌then◌else◌, Bool-cases, length, take, drop, length-append,
  length-take, length-drop, lt→ltb, take_all, take-length, drop-length, take-append-drop, pos,
  ok_code, u32_mod, ==_refl, ltb_ge, leb_gt,
}
use task_monitor.Ring.{RingBuf, IsRing}
use task_monitor.Package.{
  Package, get_available_package, take_package, nothing, htonl, ntohl, total_len, data_head_len,
}
use task_monitor.Package.Frame.{frame, header_prefix, frame-append, length-frame, ntohl-htonl}

module _ (rb : RingBuf) (ring : IsRing rb) where
  open rb use {Buf, data_size, read_data_only, read_data}
  open ring use {contents}

  -- The bytes after a write that took all of a delivery.
  pub written_all :
      (b : Buf) (bytes : List ℕ)
      → (rb.write_data b bytes).1 ≡ length bytes
      → contents (rb.write_data b bytes).0 ≡ contents b ++ bytes
  written_all b bytes full =
      ring.write_data_lem b bytes
      ∙ rw full (ap (◌++◌ (contents b)) (take_all (length bytes) bytes (omega arith)))

  -- What the three reads of a buffer give that begins with a header.
  module _ (b : Buf) (req_id len : ℕ) (tail : List ℕ)
      (e : contents b ≡ htonl req_id ++ (htonl len ++ tail)) where
    pub size_header : data_size b ≡ 8 + length tail
    unfolding htonl
    size_header = ring.data_size_lem b ∙ rw e (omega arith)

    pub head_header : read_data_only b data_head_len ≡ htonl req_id ++ (htonl len ++ [])
    unfolding htonl
    head_header = ring.read_data_only_lem b 8 ∙ rw e refl

    pub req_id_header : req_id < u32_mod → ntohl (read_data_only b data_head_len) ≡ req_id
    req_id_header h = rw head_header (ntohl-htonl req_id _ h)

    pub len_header : len < u32_mod → ntohl (drop 4 (read_data_only b data_head_len)) ≡ len
    unfolding htonl
    len_header h = rw head_header (ntohl-htonl len [] h)

    -- The call, once the header has been read.
    pub get_header :
        (malloc_ok : Bool)
        → req_id < u32_mod
        → len < u32_mod
        → 0 < length tail
        → get_available_package rb malloc_ok b ≡ (
            if ltb (8 + length tail) (total_len rb len)
            then nothing rb b
            else if malloc_ok
            then take_package rb b req_id len
            else nothing rb b)
    unfolding get_available_package
    get_header malloc_ok hid hlen h =
        rw (
          size_header,
          req_id_header hid,
          len_header hlen,
          leb_gt (8 + length tail) 8 (omega arith),
        )

  -- A read of no more than is there hands it out whole.
  pub take_package_lem :
      (b : Buf) (req_id len : ℕ)
      → total_len rb len ≤ length (contents b)
      → let r = take_package rb b req_id len in
        (r.ret ≡ pos 1)
        × (r.found
            ≡ some (record {
              req_id = req_id;
              len = len;
              bytes = take (total_len rb len) (contents b);
            }))
        × (contents r.buf ≡ drop (total_len rb len) (contents b))
  unfolding take_package
  take_package_lem b req_id len h =
      let n : ℕ = total_len rb len in
      let e : length (read_data b n).1 ≡ n =
        rw (ring.read_data_bytes b n) (omega (arith, length-take n (contents b))) in
      rw (e, ==_refl n) (refl, rw (ring.read_data_bytes b n), ring.read_data_rest b n)

  -- A whole frame at the head of the buffer is handed out, and what follows it stays, if there is
  -- memory for it, its data is not empty, its id fits 32 bits, and so does its length with the header.
  pub fetch_frame :
      (b : Buf) (req_id : ℕ) (text rest : List ℕ)
      → contents b ≡ frame req_id text ++ rest
      → req_id < u32_mod
      → length text + data_head_len < u32_mod
      → 0 < length text
      → let r = get_available_package rb true b in
        (r.ret ≡ pos 1)
        × (r.found
            ≡ some (record { req_id = req_id; len = length text; bytes = frame req_id text }))
        × (contents r.buf ≡ rest)
  fetch_frame b req_id text rest e hid hlen pos_len =
      rw
        (
          get_header b req_id (length text) (text ++ rest) (e ∙ frame-append req_id text rest) true
              hid (omega arith) (omega (arith, length-append text rest)),
          ltb_ge (8 + length (text ++ rest)) (total_len rb (length text))
              (omega (arith, length-append text rest)),
        )
        (rw (← whole, ← after) (take_package_lem b req_id (length text) fits))
    where
      fits : total_len rb (length text) ≤ length (contents b)
      fits = rw e (omega (arith, length-append (frame req_id text) rest, length-frame req_id text))

      total : total_len rb (length text) ≡ length (frame req_id text)
      total = omega (arith, length-frame req_id text)

      whole : take (total_len rb (length text)) (contents b) ≡ frame req_id text
      whole = rw (e, total) (take-length (frame req_id text) rest)

      after : drop (total_len rb (length text)) (contents b) ≡ rest
      after = rw (e, total) (drop-length (frame req_id text) rest)

  -- While a part of a frame is missing, nothing is taken out.
  pub fetch_partial :
      (malloc_ok : Bool) (b : Buf) (req_id : ℕ) (text missing : List ℕ)
      → contents b ++ missing ≡ frame req_id text
      → req_id < u32_mod
      → length text + data_head_len < u32_mod
      → 0 < length missing
      → get_available_package rb malloc_ok b ≡ nothing rb b
  unfolding get_available_package
  fetch_partial malloc_ok b req_id text missing e hid hlen h =
      elim (Bool-cases (leb (data_size b) data_head_len)) [
        | inl short ↦ rw short
        | inr long ↦
            let size : 8 < length (contents b) = ground (arith, ring.data_size_lem b) in
            let tail : List ℕ = drop 8 (contents b) in
            let head : contents b ≡ htonl req_id ++ (htonl (length text) ++ tail) =
              header_prefix req_id text (contents b) missing e (omega arith) in
            let sizes : length (contents b) + length missing ≡ 8 + length text =
              sym (length-append (contents b) missing) ∙ ap length e ∙ length-frame req_id text in
            let rest : length tail ≡ length (contents b) - 8 = length-drop 8 (contents b) in
            rw (
              get_header b req_id (length text) tail head malloc_ok hid (omega arith) (omega arith),
              lt→ltb (8 + length tail) (total_len rb (length text)) (omega arith),
            )
      ]

  -- Every call returns 0 with no package and the buffer unchanged, or 1 with a package whose bytes
  -- are the head of the buffer, and what is behind them stays: -1 is never returned.
  pub fetch_outcome :
      (malloc_ok : Bool) (b : Buf)
      → let r = get_available_package rb malloc_ok b in
        ((r.ret ≡ ok_code) × (r.found ≡ none) × (r.buf ≡ b))
        ⊎ ((p : Package) × (r.ret ≡ pos 1)
            × (r.found ≡ some p)
            × (contents b ≡ p.bytes ++ contents r.buf)
            × (length p.bytes ≡ total_len rb p.len))
  unfolding get_available_package
  fetch_outcome false b = inl (ground arith)
  fetch_outcome true b =
      let head : List ℕ = read_data_only b data_head_len in
      let len : ℕ = ntohl (drop 4 head) in
      elim (Bool-cases (leb (data_size b) data_head_len)) [
        | inl short ↦ rw short (inl (refl, refl, refl))
        | inr long ↦ elim (Bool-cases (ltb (data_size b) (total_len rb len))) [
          | inl missing ↦ rw (long, missing) (inl (refl, refl, refl))
          | inr whole ↦
              let fits : total_len rb len ≤ length (contents b) =
                rw (← ring.data_size_lem b) (ground arith) in
              let (r, f, rest) = take_package_lem b (ntohl head) len fits in
              let bytes : List ℕ = take (total_len rb len) (contents b) in
              rw (long, whole)
                (inr (
                  record { req_id = ntohl head; len = len; bytes = bytes },
                  r,
                  f,
                  rw rest (sym (take-append-drop (total_len rb len) (contents b))),
                  omega (arith, length-take (total_len rb len) (contents b)),
                ))
        ]
      ]
