-- ===== src/Client/Typed.antt =====
-- Over any life of a MsgClient of src/task_msg.cpp: the data that its callbacks are handed.
use task_monitor.Base.{
  ℕ, ◌≡◌, inl, inr, refl, subst, List, [], ◌∷◌, ◌++◌, Option, none, some, arith, Bool, ◌==◌, ℤ, pos,
  Option-cases, Bool-cases,
}
use task_monitor.Ring.{RingBuf}
use task_monitor.Package.{get_available_package, payload}
use task_monitor.ListApi.{ListApi, IsListApi}
use task_monitor.Json.{Json, codes}
use task_monitor.Msg.{EventType}
use task_monitor.Send.{send_frame}
use task_monitor.Client.{
  MsgRequest, node_of, MsgClient, Call, Grant, null, call_of, ended, send_request, req_node_create,
  after_writes, get_next_req_id, drop_request, create_timer, start_timer, msg_client_req_timer_cb,
}
use task_monitor.Client.Responses.{process_rsp_data}
use task_monitor.Client.Receive.{find_request, respond, parse_client_data, proc_data, recv_data}
use task_monitor.Client.Lifecycle.{sends, receives, expires, Reach, here, next}
use task_monitor.Client.Typing.{
  AllSuit, Meant, AllMeant, AllSuit-append, AllMeant-delete, AllMeant-find, call_of-AllSuit,
  process_rsp_data-AllSuit,
}

module _ (js : Json) (C : Type 0) (kind : C → EventType) (rb : RingBuf)
    (api : ListApi (MsgRequest js C)) (list : IsListApi (node_of js C) api) where
  abbrev Client : Type 0
  Client = MsgClient js C rb api

  -- The calls that were made, and the requests that wait.
  pub record Typed (c : Client) : Type 0 where
    pub made : AllSuit js C kind c.calls
    pub waits : AllMeant js C kind (api.entries c.request_list)

  ended-Typed :
      (c : Client) (r : MsgRequest js C) (calls : List (Call js C))
      → Typed c
      → AllSuit js C kind calls
      → Typed (ended js C rb api c r calls)
  unfolding drop_request
  ended-Typed c r calls v s = record {
    made = AllSuit-append js C kind c.calls calls v.made s;
    waits =
        rw list.entries_del (AllMeant-delete js C kind r.node (api.entries c.request_list) v.waits);
  }

  respond-Typed :
      (c : Client) (id : ℕ) (ret : ℤ) (value : Option js.Value)
      → Typed c
      → Typed (respond js C rb api c id ret value).1
  unfolding respond
  respond-Typed c id ret value v =
      elim (Option-cases (find_request js C id (api.entries c.request_list))) [
        | inl e ↦ rw (e, respond) v
        | inr (r, e) ↦
            let m = AllMeant-find js C kind id (api.entries c.request_list) r v.waits e in
            rw (e, respond)
              (ended-Typed c r (process_rsp_data js C rb api r ret value).1 v
                (process_rsp_data-AllSuit js C kind rb api r ret value m))
      ]

  parse_client_data-Typed :
      (c : Client) (id : ℕ) (bytes : List ℕ)
      → Typed c
      → Typed (parse_client_data js C rb api c id bytes).1
  unfolding parse_client_data
  parse_client_data-Typed c id bytes v = elim (Option-cases (js.parse bytes)) [
    | inl e ↦ rw (e, parse_client_data) v
    | inr (root, e) ↦ elim (Option-cases (js.get_object_item root (codes "ret"))) [
      | inl e' ↦ rw (e, parse_client_data, e', parse_client_data) v
      | inr (ret, e') ↦
          rw (e, parse_client_data, e', parse_client_data)
            (respond-Typed c id (js.valueint ret) (js.get_object_item root (codes "data")) v)
    ]
  ]

  proc_data-Typed :
      (c : Client) (malloc_ok : Bool) → Typed c → Typed (proc_data js C rb api c malloc_ok).1
  unfolding proc_data
  proc_data-Typed c malloc_ok v =
      let f = get_available_package rb malloc_ok c.ring in
      let v' : Typed (record c { ring = f.buf }) = record { made = v.made; waits = v.waits } in
      elim (Option-cases f.found) [
        | inl e ↦ rw (e, proc_data) v'
        | inr (p, e) ↦
            rw (e, proc_data)
              (parse_client_data-Typed (record c { ring = f.buf }) p.req_id (payload p) v')
      ]

  recv_data-Typed :
      (c : Client) (malloc_ok : Bool) (bytes : List ℕ)
      → Typed c
      → Typed (recv_data js C rb api c malloc_ok bytes).1
  unfolding recv_data
  recv_data-Typed c malloc_ok bytes v =
      let written = rb.write_data c.ring bytes in
      let v' : Typed (record c { ring = written.0 }) = record { made = v.made; waits = v.waits } in
      elim (Bool-cases (written.1 == 0)) [
        | inl nothing ↦ rw nothing v'
        | inr some_bytes ↦
            rw some_bytes (proc_data-Typed (record c { ring = written.0 }) malloc_ok v')
      ]

  timer-Typed :
      (c : Client) (r : MsgRequest js C)
      → Typed c
      → find_request js C r.req_id (api.entries c.request_list) ≡ some r
      → Typed (msg_client_req_timer_cb js C rb api c r)
  unfolding msg_client_req_timer_cb
  timer-Typed c r v e =
      let m = AllMeant-find js C kind r.req_id (api.entries c.request_list) r v.waits e in
      ended-Typed c r (call_of js C rb api r (pos 2) null) v
        (call_of-AllSuit js C kind rb api r (pos 2) null m (inl refl))

  after_writes-Typed :
      (c : Client) (ret : ℤ) (timeout : js.Double) (req : Option (MsgRequest js C))
      → Typed c
      → ((r : MsgRequest js C) → req ≡ some r → Meant js C kind r.type r.cb)
      → Typed (after_writes js C rb api c ret timeout req).1
  unfolding after_writes
  after_writes-Typed c ret timeout none v h = ground (arith, v)
  after_writes-Typed c ret timeout (some r) v h =
      let waits' : AllMeant js C kind (api.entries (api.list_add r c.request_list)) =
        rw list.entries_add (h r refl, v.waits) in
      let queued : Typed (record c {
        request_list = api.list_add r c.request_list;
        timers = c.timers ++ create_timer r.timer ∷ start_timer r.timer ∷ [];
      }) =
        record { made = v.made; waits = waits' } in
      ground (arith, v, queued)

  send_request-Typed :
      (c : Client) (g : Grant js C rb api) (type : EventType) (buf : List ℕ) (len : ℕ)
      (cb : Option C) (timeout : js.Double) {ret : ℤ} {c' : Client}
      → Typed c
      → Meant js C kind type cb
      → send_request js C rb api c g type buf len cb timeout ≡ some (ret, c')
      → Typed c'
  unfolding send_request get_next_req_id req_node_create
  send_request-Typed c g type buf len cb timeout {ret} {c'} v m e =
      let next = get_next_req_id js C rb api c in
      elim (Option-cases (send_frame c.client_fd next.0 buf len)) [
        | inl blocked ↦ ground arith
        | inr (written, ew) ↦
            let sent : Client = record (next.1) { client_fd = written.1 } in
            let v' : Typed sent = record { made = v.made; waits = v.waits } in
            let req = req_node_create js C rb api g next.0 cb type timeout in
            let kept : Typed (after_writes js C rb api sent written.0 timeout req).1 =
              after_writes-Typed sent written.0 timeout req v' λ r er.
                let same_type : type ≡ r.type = ground arith in
                let same_cb : cb ≡ r.cb = ground arith in
                subst (λ (x : EventType × Option C). Meant js C kind x.0 x.1)
                  (λ i. (same_type i, same_cb i)) m in
            let same : after_writes js C rb api sent written.0 timeout req ≡ (ret, c') =
              ground arith in
            subst (λ (x : ℤ × Client). Typed x.1) same kept
      ]

  -- Every request was sent with a callback of its own type, or with none.
  abbrev pub SentAsMeant : {c d : Client} → Reach js C rb api list c d → Type 0
  SentAsMeant here = Unit
  SentAsMeant (next r (sends g type buf len cb timeout ret room fresh e)) =
      Meant js C kind type cb × SentAsMeant r
  SentAsMeant (next r (receives malloc_ok bytes e)) = SentAsMeant r
  SentAsMeant (next r (expires req waits e)) = SentAsMeant r

  Reach-Typed : (c d : Client) (r : Reach js C rb api list c d) → Typed c → SentAsMeant r → Typed d
  Reach-Typed c d here v m = v
  Reach-Typed c d (next r (sends g type buf len cb timeout ret room fresh e)) v (m, ms) =
      send_request-Typed _ g type buf len cb timeout (Reach-Typed c _ r v ms) m e
  Reach-Typed c d (next r (receives malloc_ok bytes e)) v ms =
      subst Typed e (recv_data-Typed _ malloc_ok bytes (Reach-Typed c _ r v ms))
  Reach-Typed c d (next r (expires req waits e)) v ms =
      subst Typed e (timer-Typed _ req (Reach-Typed c _ r v ms) waits)

  -- The `void *` of a callback is what the callback takes it for. Over any sends, deliveries and
  -- timeouts of a client that starts with no request and no call: if every callback is given with a
  -- request of the type it is written for, then each call with the code 0 brings the structure of
  -- that type, a task action excepted, which brings none, and each call with another code brings
  -- none. No response of the server, whatever it says, makes a callback read another structure, or
  -- a null pointer at code 0. The 32-bit counter of request ids must not come round.
  pub Reach-AllSuit :
      (c d : Client) (r : Reach js C rb api list c d)
      → api.entries c.request_list ≡ []
      → c.calls ≡ []
      → SentAsMeant r
      → AllSuit js C kind d.calls
  Reach-AllSuit c d r none_waits none_called m =
      (Reach-Typed c d r (record { made = rw none_called tt; waits = rw none_waits tt }) m).made
