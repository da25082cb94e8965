-- ===== src/Client/Delivery.antt =====
-- MsgClient::recvData of src/task_msg.cpp: what one delivery of bytes makes the client do.
use task_monitor.Base.{
  ℕ, ◌+◌, ◌<◌, ◌≡◌, refl, ap, ◌∙◌, List, ◌++◌, true, some, arith, length, u32_mod, ok_code,
}
use task_monitor.Ring.{RingBuf, IsRing}
use task_monitor.Package.{get_available_package, nothing, payload, data_head_len, Package}
use task_monitor.Package.Frame.{frame, payload-frame}
use task_monitor.Package.Fetch.{written_all, fetch_frame, fetch_partial}
use task_monitor.ListApi.{ListApi}
use task_monitor.Json.{Json}
use task_monitor.Client.{MsgRequest, MsgClient}
use task_monitor.Client.Receive.{parse_client_data, proc_data, recv_data}

module _ (js : Json) (C : Type 0) (rb : RingBuf) (ring : IsRing rb)
    (api : ListApi (MsgRequest js C)) where
  open ring use {contents}

  not_empty :
      (c : MsgClient js C rb api) (bytes : List ℕ)
      → 0 < length bytes
      → (rb.write_data c.ring bytes).1 ≡ length bytes
      → recv_data js C rb api c true bytes
        ≡ proc_data js C rb api (record c { ring = (rb.write_data c.ring bytes).0 }) true
  unfolding recv_data
  not_empty c bytes h full = ground arith

  proc_data_found :
      (c : MsgClient js C rb api) {p : Package}
      → (get_available_package rb true c.ring).found ≡ some p
      → proc_data js C rb api c true
        ≡ parse_client_data js C rb api
            (record c { ring = (get_available_package rb true c.ring).buf })
            p.req_id
            (payload p)
  unfolding proc_data
  proc_data_found c e = rw (e, proc_data)

  -- A delivery that completes a response hands it on, and leaves in the buffer what follows it.
  pub recv_data-completes_response :
      (c : MsgClient js C rb api) (bytes text rest : List ℕ) (req_id : ℕ)
      → contents c.ring ++ bytes ≡ frame req_id text ++ rest
      → 0 < length bytes
      → (rb.write_data c.ring bytes).1 ≡ length bytes
      → req_id < u32_mod
      → length text + data_head_len < u32_mod
      → 0 < length text
      → (b : rb.Buf) × (contents b ≡ rest)
        × (recv_data js C rb api c true bytes
            ≡ parse_client_data js C rb api (record c { ring = b }) req_id text)
  recv_data-completes_response c bytes text rest req_id e h full hid hlen pos_len =
      let b = (rb.write_data c.ring bytes).0 in
      let (ret, found, left) =
        fetch_frame rb ring b req_id text rest (written_all rb ring c.ring bytes full ∙ e) hid hlen
          pos_len in
      (
        (get_available_package rb true b).buf,
        left,
        not_empty c bytes h full
            ∙ proc_data_found (record c { ring = b }) found
            ∙ rw (payload-frame req_id (length text) text) refl,
      )

  -- While a part of the response is still missing, a delivery is kept: the call returns 0, and no
  -- request ends.
  pub recv_data-waits_response :
      (c : MsgClient js C rb api) (bytes missing text : List ℕ) (req_id : ℕ)
      → (contents c.ring ++ bytes) ++ missing ≡ frame req_id text
      → 0 < length bytes
      → 0 < length missing
      → (rb.write_data c.ring bytes).1 ≡ length bytes
      → req_id < u32_mod
      → length text + data_head_len < u32_mod
      → (b : rb.Buf) × (contents b ≡ contents c.ring ++ bytes)
        × (recv_data js C rb api c true bytes ≡ (ok_code, record c { ring = b }))
  unfolding proc_data
  recv_data-waits_response c bytes missing text req_id e h hm full hid hlen =
      let b = (rb.write_data c.ring bytes).0 in
      let all = written_all rb ring c.ring bytes full in
      let wait : get_available_package rb true b ≡ nothing rb b =
        fetch_partial rb ring true b req_id text missing (ap (λ (t : List ℕ). t ++ missing) all ∙ e)
          hid hlen hm in
      (b, all, not_empty c bytes h full ∙ rw (wait, proc_data, wait))
