-- ===== src/Client/Receive.antt =====
-- MsgClient::parseClientData, procData and recvData of src/task_msg.cpp.
use task_monitor.Base.{
  ℕ, List, [], ◌∷◌, Bool, Option, none, some, ◌==◌, if◌then◌else◌, ℤ, ok_code, fail_code,
}
use task_monitor.Ring.{RingBuf}
use task_monitor.Package.{get_available_package, payload}
use task_monitor.ListApi.{ListApi}
use task_monitor.Json.{Json, codes}
use task_monitor.Client.{MsgRequest, MsgClient, ended}
use task_monitor.Client.Responses.{process_rsp_data}

module _ (js : Json) (C : Type 0) where
  -- The first request of the id.
  unfoldable pub find_request : ℕ → List (MsgRequest js C) → Option (MsgRequest js C)
  find_request id [] = none
  find_request id (r ∷ rs) = if r.req_id == id then some r else find_request id rs

  module _ (rb : RingBuf) (api : ListApi (MsgRequest js C)) where
    open js use {Value, get_object_item, valueint, parse}

    abbrev Client : Type 0
    Client = MsgClient js C rb api

    complete : Client → MsgRequest js C → ℤ → Option Value → ℤ × Client
    complete c req ret value =
        let (result, calls) = process_rsp_data js C rb api req ret value in
        (result, ended js C rb api c req calls)

    -- A response to a request that waits ends it; any other is passed over.
    unfoldable pub respond : Client → ℕ → ℤ → Option Value → ℤ × Client
    unfolding complete
    respond c req_id ret value = elim (find_request req_id (api.entries c.request_list)) [
      | none ↦ (ok_code, c)
      | some req ↦ complete c req ret value
    ]

    unfoldable pub parse_client_data : Client → ℕ → List ℕ → ℤ × Client
    parse_client_data c req_id text = elim (parse text) [
      | none ↦ (fail_code, c)
      | some root ↦ elim (get_object_item root (codes "ret")) [
        | none ↦ (fail_code, c)
        | some ret ↦ respond c req_id (valueint ret) (get_object_item root (codes "data"))
      ]
    ]

    unfoldable pub proc_data : Client → Bool → ℤ × Client
    unfolding parse_client_data
    proc_data c malloc_ok =
        let f = get_available_package rb malloc_ok c.ring in
        let c' = record c { ring = f.buf } in
        elim f.found [ none ↦ (f.ret, c') | some p ↦ parse_client_data c' p.req_id (payload p) ]

    unfoldable pub recv_data : Client → Bool → List ℕ → ℤ × Client
    unfolding proc_data
    recv_data c malloc_ok text =
        let (ring, written) = rb.write_data c.ring text in
        let c' = record c { ring = ring } in
        if written == 0 then (fail_code, c') else proc_data c' malloc_ok
