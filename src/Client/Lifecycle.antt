-- ===== src/Client/Lifecycle.antt =====
-- Every sequence of events that a MsgClient of src/task_msg.cpp can see.
use task_monitor.Base.{
  ℕ, suc, ◌<◌, ◌≡◌, sym, subst, inl, inr, List, [], ◌++◌, Option, some, Bool, ◌==◌, ℤ, pos, u32_mod,
  Option-cases, Bool-cases,
}
use task_monitor.Ring.{RingBuf}
use task_monitor.Package.{get_available_package, payload}
use task_monitor.ListApi.{ListApi, IsListApi}
use task_monitor.Json.{Json, codes}
use task_monitor.Msg.{EventType}
use task_monitor.Client.{
  MsgRequest, node_of, MsgClient, Grant, call_of, null, send_request, msg_client_req_timer_cb,
}
use task_monitor.Client.Receive.{find_request, parse_client_data, proc_data, recv_data}
use task_monitor.Client.Pending.{
  Orderly, Inv, FreshNode, send_request-Inv, respond-Inv, drop_request-Inv,
}

module _ (js : Json) (C : Type 0) (rb : RingBuf) (api : ListApi (MsgRequest js C)) where
  abbrev Client : Type 0
  Client = MsgClient js C rb api

  module _ (list : IsListApi (node_of js C) api) where
    pub parse_client_data-Inv :
        (c : Client) (id : ℕ) (bytes : List ℕ)
        → Inv js C rb api list c
        → Inv js C rb api list (parse_client_data js C rb api c id bytes).1
    unfolding parse_client_data
    parse_client_data-Inv c id bytes v = elim (Option-cases (js.parse bytes)) [
      | inl e ↦ rw (e, parse_client_data) v
      | inr (root, e) ↦ elim (Option-cases (js.get_object_item root (codes "ret"))) [
        | inl e' ↦ rw (e, parse_client_data, e', parse_client_data) v
        | inr (ret, e') ↦
            rw (e, parse_client_data, e', parse_client_data)
              (respond-Inv js C rb api list c id (js.valueint ret)
                (js.get_object_item root (codes "data")) v)
      ]
    ]

    proc_data-Inv :
        (c : Client) (malloc_ok : Bool)
        → Inv js C rb api list c
        → Inv js C rb api list (proc_data js C rb api c malloc_ok).1
    unfolding proc_data
    proc_data-Inv c malloc_ok v =
        let f = get_available_package rb malloc_ok c.ring in
        elim (Option-cases f.found) [
          | inl e ↦ rw (e, proc_data) v
          | inr (p, e) ↦
              rw (e, proc_data)
                (parse_client_data-Inv (record c { ring = f.buf }) p.req_id (payload p) v)
        ]

    recv_data-Inv :
        (c : Client) (malloc_ok : Bool) (bytes : List ℕ)
        → Inv js C rb api list c
        → Inv js C rb api list (recv_data js C rb api c malloc_ok bytes).1
    unfolding recv_data
    recv_data-Inv c malloc_ok bytes v =
        let written = rb.write_data c.ring bytes in
        elim (Bool-cases (written.1 == 0)) [
          | inl nothing ↦ rw nothing v
          | inr some_bytes ↦
              rw some_bytes (proc_data-Inv (record c { ring = written.0 }) malloc_ok v)
        ]

    -- What can happen to a client: a request is sent, bytes arrive, a timer runs out.
    pub data Step (c : Client) : Client → Type 0 where
      sends :
          (g : Grant js C rb api) (type : EventType) (buf : List ℕ) (len : ℕ) (cb : Option C)
          (timeout : js.Double) (ret : ℤ) {c' : Client}
          → suc c.cur_req_id < u32_mod
          → FreshNode js C rb api list g c
          → send_request js C rb api c g type buf len cb timeout ≡ some (ret, c')
          → Step c c'
      receives :
          (malloc_ok : Bool) (bytes : List ℕ) {c' : Client}
          → (recv_data js C rb api c malloc_ok bytes).1 ≡ c'
          → Step c c'
      expires :
          (req : MsgRequest js C) {c' : Client}
          → find_request js C req.req_id (api.entries c.request_list) ≡ some req
          → msg_client_req_timer_cb js C rb api c req ≡ c'
          → Step c c'

    pub data Reach (c : Client) : Client → Type 0 where
      here : Reach c c
      next : {d e : Client} → Reach c d → Step d e → Reach c e

    timer-Inv :
        (c : Client) (req : MsgRequest js C)
        → Inv js C rb api list c
        → Inv js C rb api list (msg_client_req_timer_cb js C rb api c req)
    unfolding msg_client_req_timer_cb
    timer-Inv c req v =
        drop_request-Inv js C rb api list
          (record c { calls = c.calls ++ call_of js C rb api req (pos 2) null }) req v

    Step-Inv : {c d : Client} → Step c d → Inv js C rb api list c → Inv js C rb api list d
    Step-Inv {c} (sends g type buf len cb timeout ret room fresh e) v =
        send_request-Inv js C rb api list c g type buf len cb timeout v room fresh e
    Step-Inv {c} (receives malloc_ok bytes e) v =
        subst (Inv js C rb api list) e (recv_data-Inv c malloc_ok bytes v)
    Step-Inv {c} (expires req waits e) v = subst (Inv js C rb api list) e (timer-Inv c req v)

    -- From a client with no request, whatever is sent, received or timed out, in any order, the
    -- requests that wait have distinct ids and addresses, and no id above the last given out, as
    -- long as the 32-bit counter does not come round.
    pub Reach-Inv :
        (c d : Client) → api.entries c.request_list ≡ [] → Reach c d → Inv js C rb api list d
    Reach-Inv c d e here =
        subst (Orderly js C c.cur_req_id) (sym e) (record { ids = tt; nodes = tt })
    Reach-Inv c d e (next r s) = Step-Inv s (Reach-Inv c _ e r)
