-- ===== src/Client/Unbuffered.antt =====
-- What MsgClient::parseClientData of src/task_msg.cpp has to do with the ring buffer: nothing.
use task_monitor.Base.{ℕ, ◌≡◌, refl, List, Option, ℤ, Option-cases, inl, inr}
use task_monitor.Ring.{RingBuf}
use task_monitor.ListApi.{ListApi}
use task_monitor.Json.{Json, codes}
use task_monitor.Client.{MsgRequest, MsgClient, drop_request}
use task_monitor.Client.Receive.{find_request, respond, parse_client_data}

module _ (js : Json) (C : Type 0) (rb : RingBuf) (api : ListApi (MsgRequest js C)) where
  abbrev pub Result : Type 0
  Result = ℤ × MsgClient js C rb api

  -- The result, with another ring buffer in the object.
  abbrev pub with_ring : rb.Buf → Result → Result
  with_ring b (ret, c) = (ret, record c { ring = b })

  respond-ring :
      (c : MsgClient js C rb api) (b : rb.Buf) (req_id : ℕ) (ret : ℤ) (value : Option js.Value)
      → respond js C rb api (record c { ring = b }) req_id ret value
        ≡ with_ring b (respond js C rb api c req_id ret value)
  unfolding respond drop_request
  respond-ring c b req_id ret value =
      elim (Option-cases (find_request js C req_id (api.entries c.request_list))) [
        | inl e ↦ rw (respond, e) refl
        | inr (req, e) ↦ rw (respond, e) refl
      ]

  -- The handling of a response neither reads nor changes the ring buffer.
  pub parse_client_data-ring :
      (c : MsgClient js C rb api) (b : rb.Buf) (req_id : ℕ) (text : List ℕ)
      → parse_client_data js C rb api (record c { ring = b }) req_id text
        ≡ with_ring b (parse_client_data js C rb api c req_id text)
  unfolding parse_client_data
  parse_client_data-ring c b req_id text = elim (Option-cases (js.parse text)) [
    | inl e ↦ rw (parse_client_data, e) refl
    | inr (root, e) ↦ elim (Option-cases (js.get_object_item root (codes "ret"))) [
      | inl e' ↦ rw (parse_client_data, e, e') refl
      | inr (ret, e') ↦
          rw (parse_client_data, e, e')
            (respond-ring c b req_id (js.valueint ret) (js.get_object_item root (codes "data")))
    ]
  ]
