-- ===== src/Server/Receive.antt =====
-- MsgServer::recvData of src/task_msg.cpp: what one delivery of bytes makes the server do.
use task_monitor.Base.{
  ℕ, ◌+◌, ◌<◌, ◌≡◌, ap, ◌∙◌, List, ◌++◌, true, some, arith, length, ok_code, u32_mod,
}
use task_monitor.Ring.{RingBuf, IsRing}
use task_monitor.Package.{get_available_package, nothing, payload, data_head_len, Package}
use task_monitor.Package.Frame.{frame, payload-frame}
use task_monitor.Package.Fetch.{written_all, fetch_frame, fetch_partial}
use task_monitor.Json.{Json}
use task_monitor.Server.{MsgServer}
use task_monitor.Server.Dispatch.{Memory, parse_server_data, proc_data, recv_data}

module _ (js : Json) (rb : RingBuf) (ring : IsRing rb) (W U : Type 0) where
  open ring use {contents}

  not_empty :
      (s : MsgServer js rb W U) (m : Memory) (bytes : List ℕ) (w : W)
      → 0 < length bytes
      → (rb.write_data s.ring bytes).1 ≡ length bytes
      → recv_data js rb W U s m bytes w
        ≡ proc_data js rb W U (record s { ring = (rb.write_data s.ring bytes).0 }) m w
  unfolding recv_data
  not_empty s m bytes w h full = ground arith

  proc_data_found :
      (s : MsgServer js rb W U) (m : Memory) (w : W) {p : Package}
      → (get_available_package rb m.malloc_ok s.ring).found ≡ some p
      → proc_data js rb W U s m w
        ≡ parse_server_data js rb W U
            (record s { ring = (get_available_package rb m.malloc_ok s.ring).buf })
            m
            p.req_id
            (payload p)
            w
  unfolding proc_data
  proc_data_found s m w e = rw (e, proc_data)

  -- A delivery that completes a request hands exactly that request on, under its id, and leaves in
  -- the buffer whatever follows it: a second request that came with it, even a whole one, is not
  -- looked at.
  pub recv_data-completes :
      (s : MsgServer js rb W U) (m : Memory) (bytes text rest : List ℕ) (req_id : ℕ) (w : W)
      → contents s.ring ++ bytes ≡ frame req_id text ++ rest
      → 0 < length bytes
      → (rb.write_data s.ring bytes).1 ≡ length bytes
      → m.malloc_ok ≡ true
      → req_id < u32_mod
      → length text + data_head_len < u32_mod
      → 0 < length text
      → (b : rb.Buf) × (contents b ≡ rest)
        × (recv_data js rb W U s m bytes w
            ≡ parse_server_data js rb W U (record s { ring = b }) m req_id text w)
  recv_data-completes s m bytes text rest req_id w e h full ok hid hlen pos_len =
      let b = (rb.write_data s.ring bytes).0 in
      let (ret, found, left) =
        fetch_frame rb ring b req_id text rest (written_all rb ring s.ring bytes full ∙ e) hid hlen
          pos_len in
      let fetched = get_available_package rb m.malloc_ok b in
      let found' : fetched.found
          ≡ some (record { req_id = req_id; len = length text; bytes = frame req_id text }) =
        rw ok found in
      let left' : contents fetched.buf ≡ rest = rw ok left in
      (
        fetched.buf,
        left',
        not_empty s m bytes w h full
            ∙ proc_data_found (record s { ring = b }) m w found'
            ∙ rw (payload-frame req_id (length text) text),
      )

  -- While a part of the request is still missing, a delivery is kept: the call returns 0, nothing is
  -- written and no callback is called.
  pub recv_data-waits :
      (s : MsgServer js rb W U) (m : Memory) (bytes missing text : List ℕ) (req_id : ℕ) (w : W)
      → (contents s.ring ++ bytes) ++ missing ≡ frame req_id text
      → 0 < length bytes
      → 0 < length missing
      → (rb.write_data s.ring bytes).1 ≡ length bytes
      → req_id < u32_mod
      → length text + data_head_len < u32_mod
      → (b : rb.Buf) × (contents b ≡ contents s.ring ++ bytes)
        × (recv_data js rb W U s m bytes w ≡ some (ok_code, record s { ring = b }, w))
  unfolding proc_data
  recv_data-waits s m bytes missing text req_id w e h hm full hid hlen =
      let b = (rb.write_data s.ring bytes).0 in
      let all = written_all rb ring s.ring bytes full in
      let wait : get_available_package rb m.malloc_ok b ≡ nothing rb b =
        fetch_partial rb ring m.malloc_ok b req_id text missing
          (ap (λ (t : List ℕ). t ++ missing) all ∙ e) hid hlen hm in
      (b, all, not_empty s m bytes w h full ∙ rw (wait, proc_data, wait))
