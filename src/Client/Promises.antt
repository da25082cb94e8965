-- ===== src/Client/Promises.antt =====
-- Over any life of a MsgClient of src/task_msg.cpp: what it does with the callbacks it is given.
use task_monitor.Base.{ℕ, ◌+◌, ◌≤◌, ◌≡◌, ap, subst, [], arith, Bool}
use task_monitor.Ring.{RingBuf}
use task_monitor.ListApi.{ListApi, IsListApi}
use task_monitor.Json.{Json}
use task_monitor.Client.{MsgRequest, node_of, MsgClient}
use task_monitor.Client.Pending.{Inv, waiting}
use task_monitor.Client.Lifecycle.{Step, sends, receives, expires, Reach, here, next, Reach-Inv}
use task_monitor.Client.Accounting.{
  maybe, called, owed, total, recv_data-total, timer-total, send_request-total,
}

module _ (js : Json) (C : Type 0) (rb : RingBuf) (api : ListApi (MsgRequest js C))
    (list : IsListApi (node_of js C) api) (test : C → Bool) where
  abbrev Client : Type 0
  Client = MsgClient js C rb api

  -- How many requests were sent with a callback that passes the test.
  abbrev pub given_by : {c d : Client} → Step js C rb api list c d → ℕ
  given_by (sends g type buf len cb timeout ret room fresh e) = maybe test cb
  given_by (receives malloc_ok bytes e) = 0
  given_by (expires req waits e) = 0

  abbrev pub given : {c d : Client} → Reach js C rb api list c d → ℕ
  given here = 0
  given (next r s) = given_by s + given r

  Step-total :
      {c d : Client} (s : Step js C rb api list c d)
      → Inv js C rb api list c
      → total test js rb api list d ≤ given_by s + total test js rb api list c
  Step-total {c} (sends g type buf len cb timeout ret room fresh e) v =
      send_request-total test js rb api list c g type buf len cb timeout e
  Step-total {c} (receives malloc_ok bytes e) v =
      subst (λ (d : Client). total test js rb api list d ≤ 0 + total test js rb api list c) e
        (let kept = recv_data-total test js rb api list c malloc_ok bytes v in omega arith)
  Step-total {c} (expires req waits e) v =
      subst (λ (d : Client). total test js rb api list d ≤ 0 + total test js rb api list c) e
        (let kept = timer-total test js rb api list c req v waits in omega arith)

  -- Over any sends, deliveries and timeouts, in any order, of a client that starts with no request
  -- and no call: of the callbacks that pass a test, any test, those called and those of the requests
  -- that still wait are together no more than those given with requests. No callback is called more
  -- often than it was given, and none that was not given; one whose request still waits has not
  -- been used up. The 32-bit counter of request ids must not come round.
  pub Reach-kept :
      (c d : Client) (r : Reach js C rb api list c d)
      → api.entries c.request_list ≡ []
      → c.calls ≡ []
      → called test d.calls + owed test (waiting js C rb api list d) ≤ given r
  Reach-kept c d here none_waits none_called =
      let a = ap (owed test) none_waits in let b = ap (called test) none_called in omega arith
  Reach-kept c d (next r s) none_waits none_called =
      let before = Reach-kept c _ r none_waits none_called in
      let step = Step-total s (Reach-Inv js C rb api list c _ none_waits r) in omega arith
