-- ===== src/Client/Once.antt =====
-- The life of the requests of a MsgClient of src/task_msg.cpp: no callback is called twice.
use task_monitor.Base.{
  ℕ, suc, ◌≡◌, refl, List, [], ◌∷◌, ◌++◌, Option, none, some, arith, ℤ, pos, ok_code,
}
use task_monitor.Ring.{RingBuf}
use task_monitor.ListApi.{ListApi, IsListApi}
use task_monitor.Json.{Json}
use task_monitor.Client.{
  MsgRequest, node_of, MsgClient, Call, call_of, ended, null, drop_request, msg_client_req_timer_cb,
}
use task_monitor.Client.Responses.{process_rsp_data}
use task_monitor.Client.Receive.{find_request, respond}
use task_monitor.Client.Pending.{Inv, find-delete}

module _ (js : Json) (C : Type 0) (rb : RingBuf) (api : ListApi (MsgRequest js C)) where
  abbrev Client : Type 0
  Client = MsgClient js C rb api

  -- A callback is called at most once for a response.
  abbrev pub AtMostOne : List (Call js C) → Type 0
  AtMostOne [] = Unit {0}
  AtMostOne (_ ∷ []) = Unit {0}
  AtMostOne (_ ∷ _ ∷ _) = ⊥

  pub process_rsp_data-AtMostOne :
      (req : MsgRequest js C) (ret : ℤ) (value : Option js.Value)
      → AtMostOne (process_rsp_data js C rb api req ret value).1
  unfolding process_rsp_data
  process_rsp_data-AtMostOne req ret value = ground arith

  -- The two ways of a response.
  pub respond_missing :
      (c : Client) (id : ℕ) (ret : ℤ) (value : Option js.Value)
      → find_request js C id (api.entries c.request_list) ≡ none
      → respond js C rb api c id ret value ≡ (ok_code, c)
  unfolding respond
  respond_missing c id ret value e = rw (e, respond)

  pub respond_found :
      (c : Client) (id : ℕ) (ret : ℤ) (value : Option js.Value) (req : MsgRequest js C)
      → find_request js C id (api.entries c.request_list) ≡ some req
      → let r = process_rsp_data js C rb api req ret value in
        respond js C rb api c id ret value ≡ (r.0, ended js C rb api c req r.1)
  unfolding respond
  respond_found c id ret value req e = rw (e, respond)

  module _ (list : IsListApi (node_of js C) api) where
    pub find-ended :
        (c : Client) (id : ℕ) (req : MsgRequest js C) (calls : List (Call js C))
        → Inv js C rb api list c
        → find_request js C id (api.entries c.request_list) ≡ some req
        → find_request js C id (api.entries (ended js C rb api c req calls).request_list) ≡ none
    unfolding drop_request
    find-ended c id req calls v e =
        rw (list.entries_del req.node c.request_list)
          (find-delete js C id (suc c.cur_req_id) (api.entries c.request_list) req v.ids v.nodes e)

    -- Under the invariant, a request that was answered is gone: its callback was called at most
    -- once by the answer, and a second response of the same id, whatever it says, is passed over
    -- with result 0 and changes nothing.
    pub respond-once :
        (c : Client) (id : ℕ) (ret ret' : ℤ) (value value' : Option js.Value)
        (req : MsgRequest js C)
        → Inv js C rb api list c
        → find_request js C id (api.entries c.request_list) ≡ some req
        → let c' = (respond js C rb api c id ret value).1 in
          ((new : List (Call js C)) × (c'.calls ≡ c.calls ++ new) × AtMostOne new)
          × (respond js C rb api c' id ret' value' ≡ (ok_code, c'))
    unfolding drop_request
    respond-once c id ret ret' value value' req v e =
        let new = (process_rsp_data js C rb api req ret value).1 in
        rw (respond_found c id ret value req e) (
          (new, refl, process_rsp_data-AtMostOne req ret value),
          respond_missing (ended js C rb api c req new) id ret' value'
              (find-ended c id req new v e),
        )

    -- A request that timed out is gone too: its callback, if it has one, was called once with
    -- EVENT_ERROR_TIMEOUT and no data, and a late response changes nothing.
    pub timeout_then_response :
        (c : Client) (id : ℕ) (ret : ℤ) (value : Option js.Value) (req : MsgRequest js C)
        → Inv js C rb api list c
        → find_request js C id (api.entries c.request_list) ≡ some req
        → let c' = msg_client_req_timer_cb js C rb api c req in
          (c'.calls ≡ c.calls ++ call_of js C rb api req (pos 2) null)
          × (respond js C rb api c' id ret value ≡ (ok_code, c'))
    unfolding msg_client_req_timer_cb
    timeout_then_response c id ret value req v e =
        let new = call_of js C rb api req (pos 2) null in
        (
          refl,
          respond_missing (ended js C rb api c req new) id ret value (find-ended c id req new v e),
        )
