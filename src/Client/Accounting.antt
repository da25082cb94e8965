-- ===== src/Client/Accounting.antt =====
-- The callbacks that a MsgClient of src/task_msg.cpp calls, against those it was given.
use task_monitor.Base.{
  ℕ, ◌+◌, ◌≤◌, ◌≡◌, refl, ap, subst, inl, inr, List, [], ◌∷◌, ◌++◌, Option, none, some, arith, Bool,
  ◌==◌, if◌then◌else◌, ℤ, pos, Option-cases, Bool-cases,
}
use task_monitor.Ring.{RingBuf}
use task_monitor.Package.{get_available_package, payload}
use task_monitor.ListApi.{ListApi, IsListApi, delete}
use task_monitor.Json.{Json, codes}
use task_monitor.Msg.{EventType}
use task_monitor.Send.{send_frame}
use task_monitor.Client.{
  MsgRequest, node_of, MsgClient, Call, Grant, RspData, call_of, null, ended, send_request,
  req_node_create, after_writes, get_next_req_id, drop_request, msg_client_req_timer_cb,
}
use task_monitor.Client.Responses.{process_rsp_data}
use task_monitor.Client.Receive.{find_request, respond, parse_client_data, proc_data, recv_data}
use task_monitor.Client.Pending.{Distinct, Absent-find, Inv, waiting}

-- How many callbacks pass a test.
module _ {C : Type 0} (test : C → Bool) where
  abbrev pub one : C → ℕ
  one cb = if test cb then 1 else 0

  abbrev pub maybe : Option C → ℕ
  maybe none = 0
  maybe (some cb) = one cb

  -- Among the calls made, and among the requests that wait.
  abbrev pub called : {js : Json} → List (Call js C) → ℕ
  called [] = 0
  called (x ∷ xs) = one x.cb + called xs

  abbrev pub owed : {js : Json} → List (MsgRequest js C) → ℕ
  owed [] = 0
  owed (r ∷ rs) = maybe r.cb + owed rs

  called-append : {js : Json} (xs ys : List (Call js C)) → called (xs ++ ys) ≡ called xs + called ys
  called-append [] ys = omega arith
  called-append (x ∷ xs) ys = let rest = called-append xs ys in omega arith

  module _ (js : Json) where
    -- A request that is found and taken out no longer counts.
    owed-delete :
        (id : ℕ) (rs : List (MsgRequest js C)) (r : MsgRequest js C)
        → Distinct js C rs
        → find_request js C id rs ≡ some r
        → owed rs ≡ maybe r.cb + owed (delete (node_of js C) r.node rs)
    unfolding find_request delete
    owed-delete id [] r d e = cc
    owed-delete id (x ∷ rs) r d e = elim (Bool-cases (x.req_id == id)) [
      | inl hit ↦ ground arith
      | inr miss ↦
          let e' : find_request js C id rs ≡ some r = ground arith in
          let rest = owed-delete id rs r d.1 e' in
          ground (arith, Absent-find js C id x.node rs r d.0 e')
    ]

    module _ (rb : RingBuf) (api : ListApi (MsgRequest js C)) where
      called-call_of :
          (r : MsgRequest js C) (ret : ℤ) (rsp : RspData js C)
          → called (call_of js C rb api r ret rsp) ≡ maybe r.cb
      called-call_of r ret rsp = elim (Option-cases r.cb) [
        | inl e ↦ rw e refl
        | inr (cb, e) ↦ rw e (omega arith)
      ]

      -- A response calls no other callback than that of its request, and that once at most.
      called-process_rsp_data :
          (r : MsgRequest js C) (ret : ℤ) (value : Option js.Value)
          → called (process_rsp_data js C rb api r ret value).1 ≤ maybe r.cb
      unfolding process_rsp_data
      called-process_rsp_data r ret value = ground arith

      abbrev Client : Type 0
      Client = MsgClient js C rb api

      module _ (list : IsListApi (node_of js C) api) where
        -- The callbacks called, with those that may still be.
        abbrev pub total : Client → ℕ
        total c = called c.calls + owed (waiting js C rb api list c)

        ended-total :
            (c : Client) (id : ℕ) (r : MsgRequest js C) (calls : List (Call js C))
            → Inv js C rb api list c
            → find_request js C id (waiting js C rb api list c) ≡ some r
            → called calls ≤ maybe r.cb
            → total (ended js C rb api c r calls) ≤ total c
        unfolding drop_request
        ended-total c id r calls v e few =
            let left = owed-delete id (waiting js C rb api list c) r v.nodes e in
            let sum = called-append c.calls calls in
            let same = ap owed (list.entries_del r.node c.request_list) in omega arith

        respond-total :
            (c : Client) (id : ℕ) (ret : ℤ) (value : Option js.Value)
            → Inv js C rb api list c
            → total (respond js C rb api c id ret value).1 ≤ total c
        unfolding respond
        respond-total c id ret value v =
            elim (Option-cases (find_request js C id (waiting js C rb api list c))) [
              | inl e ↦ rw (e, respond) (omega arith)
              | inr (r, e) ↦
                  rw (e, respond)
                    (ended-total c id r (process_rsp_data js C rb api r ret value).1 v e
                      (called-process_rsp_data r ret value))
            ]

        parse_client_data-total :
            (c : Client) (id : ℕ) (bytes : List ℕ)
            → Inv js C rb api list c
            → total (parse_client_data js C rb api c id bytes).1 ≤ total c
        unfolding parse_client_data
        parse_client_data-total c id bytes v = elim (Option-cases (js.parse bytes)) [
          | inl e ↦ rw (e, parse_client_data) (omega arith)
          | inr (root, e) ↦ elim (Option-cases (js.get_object_item root (codes "ret"))) [
            | inl e' ↦ rw (e, parse_client_data, e', parse_client_data) (omega arith)
            | inr (ret, e') ↦
                rw (e, parse_client_data, e', parse_client_data)
                  (respond-total c id (js.valueint ret) (js.get_object_item root (codes "data")) v)
          ]
        ]

        proc_data-total :
            (c : Client) (malloc_ok : Bool)
            → Inv js C rb api list c
            → total (proc_data js C rb api c malloc_ok).1 ≤ total c
        unfolding proc_data
        proc_data-total c malloc_ok v =
            let f = get_available_package rb malloc_ok c.ring in
            elim (Option-cases f.found) [
              | inl e ↦ rw (e, proc_data) (omega arith)
              | inr (p, e) ↦
                  rw (e, proc_data)
                    (parse_client_data-total (record c { ring = f.buf }) p.req_id (payload p) v)
            ]

        pub recv_data-total :
            (c : Client) (malloc_ok : Bool) (bytes : List ℕ)
            → Inv js C rb api list c
            → total (recv_data js C rb api c malloc_ok bytes).1 ≤ total c
        unfolding recv_data
        recv_data-total c malloc_ok bytes v =
            let written = rb.write_data c.ring bytes in
            elim (Bool-cases (written.1 == 0)) [
              | inl nothing ↦ rw nothing (omega arith)
              | inr some_bytes ↦
                  rw some_bytes (proc_data-total (record c { ring = written.0 }) malloc_ok v)
            ]

        pub timer-total :
            (c : Client) (r : MsgRequest js C)
            → Inv js C rb api list c
            → find_request js C r.req_id (waiting js C rb api list c) ≡ some r
            → total (msg_client_req_timer_cb js C rb api c r) ≤ total c
        unfolding msg_client_req_timer_cb
        timer-total c r v e =
            let same = called-call_of r (pos 2) null in
            ended-total c r.req_id r (call_of js C rb api r (pos 2) null) v e (omega arith)

        after_writes-total :
            (c : Client) (ret : ℤ) (timeout : js.Double) (req : Option (MsgRequest js C))
            (cb : Option C)
            → ((r : MsgRequest js C) → req ≡ some r → r.cb ≡ cb)
            → total (after_writes js C rb api c ret timeout req).1 ≤ maybe cb + total c
        unfolding after_writes
        after_writes-total c ret timeout none cb h = ground arith
        after_writes-total c ret timeout (some r) cb h =
            let same = ap maybe (h r refl) in
            let queue = ap owed (list.entries_add r c.request_list) in ground arith

        pub send_request-total :
            (c : Client) (g : Grant js C rb api) (type : EventType) (buf : List ℕ) (len : ℕ)
            (cb : Option C) (timeout : js.Double) {ret : ℤ} {c' : Client}
            → send_request js C rb api c g type buf len cb timeout ≡ some (ret, c')
            → total c' ≤ maybe cb + total c
        unfolding send_request get_next_req_id req_node_create
        send_request-total c g type buf len cb timeout {ret} {c'} e =
            let next = get_next_req_id js C rb api c in
            elim (Option-cases (send_frame c.client_fd next.0 buf len)) [
              | inl blocked ↦ ground arith
              | inr (written, ew) ↦
                  let sent : Client = record (next.1) { client_fd = written.1 } in
                  let req = req_node_create js C rb api g next.0 cb type timeout in
                  let kept : total (after_writes js C rb api sent written.0 timeout req).1
                      ≤ maybe cb + total c =
                    after_writes-total sent written.0 timeout req cb λ r er. ground arith in
                  let same : after_writes js C rb api sent written.0 timeout req ≡ (ret, c') =
                    ground arith in
                  subst (λ (x : ℤ × Client). total x.1 ≤ maybe cb + total c) same kept
            ]
