-- ===== src/Client/Pending.antt =====
-- The requests that wait at a MsgClient of src/task_msg.cpp: their ids and addresses are distinct,
-- whatever is sent, received or timed out.
use task_monitor.Base.{
  ℕ, suc, ◌≤◌, ◌<◌, ◌≡◌, ◌≢◌, refl, sym, ◌∙◌, subst, inl, inr, List, [], ◌∷◌, ◌++◌, Option, none,
  some, arith, ◌==◌, ℤ, u32_mod, Option-cases, Bool-cases,
}
use task_monitor.Ring.{RingBuf}
use task_monitor.ListApi.{ListApi, IsListApi, delete}
use task_monitor.Json.{Json}
use task_monitor.Msg.{EventType}
use task_monitor.Send.{send_frame}
use task_monitor.Client.{
  MsgRequest, node_of, MsgClient, Grant, get_next_req_id, req_node_create, after_writes,
  send_request, drop_request,
}
use task_monitor.Client.Responses.{process_rsp_data}
use task_monitor.Client.Receive.{find_request, respond}

module _ (js : Json) (C : Type 0) where
  abbrev Request : Type 0
  Request = MsgRequest js C

  -- Ids fall along the list, from below a bound.
  abbrev pub Falling : ℕ → List Request → Type 0
  Falling n [] = Unit {0}
  Falling n (r ∷ rs) = (r.req_id < n) × Falling r.req_id rs

  -- No request of the list has this address.
  abbrev pub Absent : ℕ → List Request → Type 0
  Absent n [] = Unit {0}
  Absent n (r ∷ rs) = (r.node ≢ n) × Absent n rs

  abbrev pub Distinct : List Request → Type 0
  Distinct [] = Unit {0}
  Distinct (r ∷ rs) = Absent r.node rs × Distinct rs

  Falling-mono : {m n : ℕ} (rs : List Request) → m ≤ n → Falling m rs → Falling n rs
  Falling-mono [] h f = tt
  Falling-mono (r ∷ rs) h f = (omega arith, f.1)

  Falling-delete :
      (k n : ℕ) (rs : List Request) → Falling n rs → Falling n (delete (node_of js C) k rs)
  unfolding delete
  Falling-delete k n [] f = tt
  Falling-delete k n (r ∷ rs) f =
      ground (arith, Falling-delete k r.req_id rs f.1, Falling-mono {m = r.req_id} {n = n} rs)

  Absent-delete :
      (n k : ℕ) (rs : List Request) → Absent n rs → Absent n (delete (node_of js C) k rs)
  unfolding delete
  Absent-delete n k [] a = tt
  Absent-delete n k (r ∷ rs) a = ground (arith, Absent-delete n k rs a.1)

  Distinct-delete :
      (k : ℕ) (rs : List Request) → Distinct rs → Distinct (delete (node_of js C) k rs)
  unfolding delete
  Distinct-delete k [] d = tt
  Distinct-delete k (r ∷ rs) d =
      ground (arith, Distinct-delete k rs d.1, Absent-delete r.node k rs d.0)

  find_above :
      (id n : ℕ) (rs : List Request) → Falling n rs → n ≤ id → find_request js C id rs ≡ none
  unfolding find_request
  find_above id n [] f h = refl
  find_above id n (r ∷ rs) f h = ground (arith, find_above id r.req_id rs f.1)

  pub Absent-find :
      (id n : ℕ) (rs : List Request) (r : Request)
      → Absent n rs
      → find_request js C id rs ≡ some r
      → r.node ≢ n
  unfolding find_request
  Absent-find id n [] r a e = cc
  Absent-find id n (x ∷ rs) r a e = ground (arith, Absent-find id n rs r a.1)

  -- Once the found request is deleted, its id is not found again.
  pub find-delete :
      (id n : ℕ) (rs : List Request) (r : Request)
      → Falling n rs
      → Distinct rs
      → find_request js C id rs ≡ some r
      → find_request js C id (delete (node_of js C) r.node rs) ≡ none
  unfolding find_request delete
  find-delete id n [] r f d e = cc
  find-delete id n (x ∷ rs) r f d e = elim (Bool-cases (x.req_id == id)) [
    | inl hit ↦ ground (arith, find_above id x.req_id rs f.1)
    | inr miss ↦
        let e' : find_request js C id rs ≡ some r = ground arith in
        ground (arith, find-delete id x.req_id rs r f.1 d.1 e', Absent-find id x.node rs r d.0 e')
  ]

  -- What holds of the requests that wait, by the last id given out.
  pub record Orderly (cur : ℕ) (rs : List Request) : Type 0 where
    pub ids : Falling (suc cur) rs
    pub nodes : Distinct rs

  pub Orderly-delete :
      (k cur : ℕ) (rs : List Request) → Orderly cur rs → Orderly cur (delete (node_of js C) k rs)
  Orderly-delete k cur rs v = record {
    ids = Falling-delete k (suc cur) rs v.ids;
    nodes = Distinct-delete k rs v.nodes;
  }

  pub Orderly-cons :
      (cur : ℕ) (r : Request) (rs : List Request)
      → Orderly cur rs
      → r.req_id ≡ suc cur
      → Absent r.node rs
      → Orderly (suc cur) (r ∷ rs)
  Orderly-cons cur r rs v e a = record { ids = (omega arith, rw e v.ids); nodes = (a, v.nodes) }

  pub Orderly-suc : (cur : ℕ) (rs : List Request) → Orderly cur rs → Orderly (suc cur) rs
  Orderly-suc cur rs v = record {
    ids = Falling-mono {m = suc cur} {n = suc (suc cur)} rs (omega arith) v.ids;
    nodes = v.nodes;
  }

  module _ (rb : RingBuf) (api : ListApi Request) (list : IsListApi (node_of js C) api) where
    abbrev Client : Type 0
    Client = MsgClient js C rb api

    abbrev pub waiting : Client → List Request
    waiting c = api.entries c.request_list

    abbrev pub Inv : Client → Type 0
    Inv c = Orderly c.cur_req_id (waiting c)

    -- `malloc` gives no address that is in use.
    abbrev pub FreshNode : Grant js C rb api → Client → Type 0
    FreshNode g c = (n : ℕ) → g.node ≡ some n → Absent n (waiting c)

    pub drop_request-Inv :
        (c : Client) (req : Request) → Inv c → Inv (drop_request js C rb api c req)
    unfolding drop_request
    drop_request-Inv c req v =
        rw list.entries_del (Orderly-delete req.node c.cur_req_id (waiting c) v)

    req_node_create-fields :
        (g : Grant js C rb api) (id : ℕ) (cb : Option C) (type : EventType) (timeout : js.Double)
        (r : Request)
        → req_node_create js C rb api g id cb type timeout ≡ some r
        → (r.req_id ≡ id) × (g.node ≡ some r.node)
    unfolding req_node_create
    req_node_create-fields g id cb type timeout r e = ground arith

    after_writes-Inv :
        (c : Client) (cur : ℕ) (ret : ℤ) (timeout : js.Double) (req : Option Request)
        → c.cur_req_id ≡ suc cur
        → Orderly cur (waiting c)
        → ((r : Request) → req ≡ some r → (r.req_id ≡ suc cur) × Absent r.node (waiting c))
        → Inv (after_writes js C rb api c ret timeout req).1
    unfolding after_writes
    after_writes-Inv c cur ret timeout none e v new =
        let idle : Inv c =
          subst (λ (n : ℕ). Orderly n (waiting c)) (sym e) (Orderly-suc cur (waiting c) v) in
        ground (arith, idle)
    after_writes-Inv c cur ret timeout (some r) e v new =
        let idle : Inv c =
          subst (λ (n : ℕ). Orderly n (waiting c)) (sym e) (Orderly-suc cur (waiting c) v) in
        let (id, absent) = new r refl in
        let queued : Orderly c.cur_req_id (api.entries (api.list_add r c.request_list)) =
          rw list.entries_add (
            subst (λ (n : ℕ). Orderly n (r ∷ waiting c)) (sym e)
              (Orderly-cons cur r (waiting c) v id absent)) in
        ground (arith, idle, queued)

    -- Sending keeps the ids and addresses distinct, whatever the writes, the memory and the timer
    -- do, until the 32-bit counter comes round.
    pub send_request-Inv :
        (c : Client) (g : Grant js C rb api) (type : EventType) (buf : List ℕ) (len : ℕ)
        (cb : Option C) (timeout : js.Double) {ret : ℤ} {c' : Client}
        → Inv c
        → suc c.cur_req_id < u32_mod
        → FreshNode g c
        → send_request js C rb api c g type buf len cb timeout ≡ some (ret, c')
        → Inv c'
    unfolding send_request get_next_req_id
    send_request-Inv c g type buf len cb timeout {ret} {c'} v room fresh e =
        let next = get_next_req_id js C rb api c in
        let counted : next.0 ≡ suc c.cur_req_id = omega arith in
        elim (Option-cases (send_frame c.client_fd next.0 buf len)) [
          | inl blocked ↦ ground arith
          | inr (written, ew) ↦
              let sent : Client = record (next.1) { client_fd = written.1 } in
              let req = req_node_create js C rb api g next.0 cb type timeout in
              let kept : Inv (after_writes js C rb api sent written.0 timeout req).1 =
                after_writes-Inv sent c.cur_req_id written.0 timeout req counted v λ r er.
                  let (id, node) = req_node_create-fields g next.0 cb type timeout r er in
                  (id ∙ counted, fresh r.node node) in
              let same : after_writes js C rb api sent written.0 timeout req ≡ (ret, c') =
                ground arith in
              subst (λ (x : ℤ × Client). Inv x.1) same kept
        ]

    -- A response keeps them distinct, whether it finds its request or not.
    pub respond-Inv :
        (c : Client) (id : ℕ) (ret : ℤ) (value : Option js.Value)
        → Inv c
        → Inv (respond js C rb api c id ret value).1
    unfolding respond
    respond-Inv c id ret value v = elim (Option-cases (find_request js C id (waiting c))) [
      | inl e ↦ rw (e, respond) v
      | inr (r, e) ↦
          let calls = (process_rsp_data js C rb api r ret value).1 in
          rw (e, respond) (drop_request-Inv (record c { calls = c.calls ++ calls }) r v)
    ]
