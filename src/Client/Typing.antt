-- ===== src/Client/Typing.antt =====
-- The data that MsgClient of src/task_msg.cpp hands to the callbacks as a `void *`.
use task_monitor.Base.{
  ℕ, ◌≡◌, ◌⊎◌, inl, inr, refl, sym, ap, subst, List, [], ◌∷◌, ◌++◌, Option, none, some, arith, true,
  false, ◌==◌, ℤ, is_zero, Option-cases, Bool-cases,
}
use task_monitor.Ring.{RingBuf}
use task_monitor.ListApi.{ListApi, delete}
use task_monitor.Json.{Json}
use task_monitor.Msg.{EventType}
use task_monitor.Client.{
  MsgRequest, node_of, MsgClient, Call, RspData, null, heartbeat_rsp, all_rsp, detail_rsp, call_of,
}
use task_monitor.Client.Responses.{
  process_rsp_data, by_type, deliver, parse_heartbeat_rsp, parse_all_rsp, parse_detail_rsp,
}
use task_monitor.Client.Receive.{find_request}

-- `kind` is the type of request that a callback is written for.
module _ (js : Json) (C : Type 0) (kind : C → EventType) where
  -- At code 0 the data is the structure of the type; there is none for a task action. At any other
  -- code there is no data.
  abbrev pub Suits : EventType → ℤ → RspData js C → Type 0
  Suits type ret null = (is_zero ret ≡ false) ⊎ (type ≡ EventType.task_action)
  Suits type ret (heartbeat_rsp rsp) = (is_zero ret ≡ true) × (type ≡ EventType.heartbeat)
  Suits type ret (all_rsp rsp) = (is_zero ret ≡ true) × (type ≡ EventType.query_all)
  Suits type ret (detail_rsp rsp) = (is_zero ret ≡ true) × (type ≡ EventType.query_task)

  abbrev pub AllSuit : List (Call js C) → Type 0
  AllSuit [] = Unit
  AllSuit (x ∷ xs) = Suits (kind x.cb) x.ret x.rsp × AllSuit xs

  -- A callback is written for the type of the request that it goes with.
  abbrev pub Meant : EventType → Option C → Type 0
  Meant type none = Unit
  Meant type (some cb) = kind cb ≡ type

  abbrev pub AllMeant : List (MsgRequest js C) → Type 0
  AllMeant [] = Unit
  AllMeant (r ∷ rs) = Meant r.type r.cb × AllMeant rs

  pub AllSuit-append : (xs ys : List (Call js C)) → AllSuit xs → AllSuit ys → AllSuit (xs ++ ys)
  AllSuit-append [] ys a b = b
  AllSuit-append (x ∷ xs) ys (s, a) b = (s, AllSuit-append xs ys a b)

  pub AllMeant-delete :
      (n : ℕ) (rs : List (MsgRequest js C)) → AllMeant rs → AllMeant (delete (node_of js C) n rs)
  unfolding delete
  AllMeant-delete n [] a = tt
  AllMeant-delete n (r ∷ rs) (m, a) = let rest = AllMeant-delete n rs a in ground arith

  pub AllMeant-find :
      (id : ℕ) (rs : List (MsgRequest js C)) (r : MsgRequest js C)
      → AllMeant rs
      → find_request js C id rs ≡ some r
      → Meant r.type r.cb
  unfolding find_request
  AllMeant-find id [] r a e = cc
  AllMeant-find id (x ∷ rs) r (m, a) e = elim (Bool-cases (x.req_id == id)) [
    | inl hit ↦ let e' : some x ≡ some r = rw hit at e in ground arith
    | inr miss ↦
        let e' : find_request js C id rs ≡ some r = rw miss at e in AllMeant-find id rs r a e'
  ]

  module _ (rb : RingBuf) (api : ListApi (MsgRequest js C)) where
    abbrev Client : Type 0
    Client = MsgClient js C rb api

    pub call_of-AllSuit :
        (r : MsgRequest js C) (ret : ℤ) (rsp : RspData js C)
        → Meant r.type r.cb
        → Suits r.type ret rsp
        → AllSuit (call_of js C rb api r ret rsp)
    call_of-AllSuit r ret rsp m s = elim (Option-cases r.cb) [
      | inl e ↦ rw e tt
      | inr (cb, e) ↦
          let same : kind cb ≡ r.type = subst (Meant r.type) e m in
          rw e (subst (λ (t : EventType). Suits t ret rsp) (sym same) s, tt)
    ]

    deliver-AllSuit :
        {R : Type 0} (r : MsgRequest js C) (ret : ℤ) (wrap : R → RspData js C) (rsp : Option R)
        → Meant r.type r.cb
        → ((x : R) → Suits r.type ret (wrap x))
        → AllSuit (deliver js C rb api r ret wrap rsp).1
    deliver-AllSuit r ret wrap none m s = tt
    deliver-AllSuit r ret wrap (some x) m s = call_of-AllSuit r ret (wrap x) m (s x)

    -- A request of any type, with a callback.
    module _ (node id timer : ℕ) (cb : C) (start timeout : js.Double) where
      abbrev of_type : EventType → MsgRequest js C
      of_type type = record {
        node = node;
        req_id = id;
        type = type;
        cb = some cb;
        time_start = start;
        timeout = timeout;
        timer = timer;
      }

      at_zero :
          (type : EventType) (ret : ℤ) (value : Option js.Value)
          → kind cb ≡ type
          → is_zero ret ≡ true
          → AllSuit (by_type js C rb api (of_type type) ret value type).1
      unfolding by_type
      at_zero EventType.heartbeat ret value m z =
          deliver-AllSuit (of_type EventType.heartbeat) ret heartbeat_rsp
            (parse_heartbeat_rsp js value) m (λ x. (z, refl))
      at_zero EventType.query_all ret value m z =
          deliver-AllSuit (of_type EventType.query_all) ret all_rsp (parse_all_rsp js value) m
            (λ x. (z, refl))
      at_zero EventType.query_task ret value m z =
          deliver-AllSuit (of_type EventType.query_task) ret detail_rsp (parse_detail_rsp js value)
            m (λ x. (z, refl))
      at_zero EventType.task_action ret value m z =
          call_of-AllSuit (of_type EventType.task_action) ret null m (inr refl)
      at_zero EventType.max ret value m z = tt

      of_type-AllSuit :
          (type : EventType) (ret : ℤ) (value : Option js.Value)
          → kind cb ≡ type
          → AllSuit (process_rsp_data js C rb api (of_type type) ret value).1
      unfolding process_rsp_data
      of_type-AllSuit type ret value m = elim (Bool-cases (is_zero ret)) [
        | inl z ↦ rw z (at_zero type ret value m z)
        | inr z ↦ rw z (inl z, tt)
      ]

    pub process_rsp_data-AllSuit :
        (r : MsgRequest js C) (ret : ℤ) (value : Option js.Value)
        → Meant r.type r.cb
        → AllSuit (process_rsp_data js C rb api r ret value).1
    unfolding process_rsp_data
    process_rsp_data-AllSuit r ret value m = elim (Option-cases r.cb) [
      | inl e ↦ rw (process_rsp_data, e) tt
      | inr (cb, e) ↦
          let same : kind cb ≡ r.type = subst (Meant r.type) e m in
          let whole : of_type r.node r.req_id r.timer cb r.time_start r.timeout r.type ≡ r =
            ap (λ (x : Option C). record r { cb = x }) (sym e) in
          subst (λ (x : MsgRequest js C). AllSuit (process_rsp_data js C rb api x ret value).1)
            whole
            (of_type-AllSuit r.node r.req_id r.timer cb r.time_start r.timeout r.type ret value
              same)
    ]
