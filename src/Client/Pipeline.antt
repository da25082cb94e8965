-- ===== src/Client/Pipeline.antt =====
-- MsgClient::recvData of src/task_msg.cpp, called with any number of responses in any pieces.
use task_monitor.Base.{ℕ, ◌≤◌, ◌≡◌, refl, ap, ◌∙◌, List, [], true, some, length, take, drop, ℤ}
use task_monitor.Ring.{RingBuf, IsRing}
use task_monitor.Package.Receiver.{
  AllPieces, AllWithin, Message, frames, AllSound, all_of, handled, HasRoom, Receiver, IsReceiver,
  put_buf, handle_all, serve,
}
use task_monitor.Package.Pipeline.{serve-in_order, serve-all}
use task_monitor.ListApi.{ListApi}
use task_monitor.Json.{Json}
use task_monitor.Client.{MsgRequest, MsgClient}
use task_monitor.Client.Receive.{parse_client_data, recv_data}
use task_monitor.Client.Delivery.{recv_data-completes_response, recv_data-waits_response}
use task_monitor.Client.Unbuffered.{parse_client_data-ring}

module _ (js : Json) (C : Type 0) (rb : RingBuf) (ring : IsRing rb)
    (api : ListApi (MsgRequest js C)) where
  abbrev State : Type 0
  State = MsgClient js C rb api

  abbrev pub client_receiver : Receiver rb ring
  client_receiver = record {
    State = State;
    buf = λ (c : State). c.ring;
    with_buf = λ (b : rb.Buf) (c : State). record c { ring = b };
    recv = λ (bytes : List ℕ) (c : State). some ((recv_data js C rb api c true bytes).1);
    act_on =
        λ (p : Message) (c : State). some ((parse_client_data js C rb api c p.req_id p.text).1);
  }

  handle_with :
      (b : rb.Buf) (p : Message) (c : State)
      → (parse_client_data js C rb api (record c { ring = b }) p.req_id p.text).1
        ≡ record ((parse_client_data js C rb api c p.req_id p.text).1) { ring = b }
  handle_with b p c =
      ap (λ (r : ℤ × State). r.1) (parse_client_data-ring js C rb api c b p.req_id p.text)

  client_receiver-IsReceiver : IsReceiver rb ring client_receiver
  client_receiver-IsReceiver = record {
    buf_with = λ b c. refl;
    with_own = λ c. refl;
    with_twice = λ b b' c. refl;
    handle_with = λ b p c. ap some (handle_with b p c);
    completes = λ c bytes rest p sound e hp full.
        let (b, left, same) =
          recv_data-completes_response js C rb ring api c bytes p.text rest p.req_id e hp full
            sound.id_bound sound.text_bound sound.not_empty in
        (b, left, ap some (ap (λ (r : ℤ × State). r.1) same ∙ handle_with b p c));
    waits = λ c bytes missing p sound e hp hm full.
        let (b, left, same) =
          recv_data-waits_response js C rb ring api c bytes missing p.text p.req_id e hp hm full
            sound.id_bound sound.text_bound in
        (b, left, ap some (ap (λ (r : ℤ × State). r.1) same));
  }

  -- The client takes responses as a queue, too. Any responses, cut into any pieces, none of them
  -- empty, end the requests they answer in their order, each as if it had come alone, and the rest
  -- stays in the ring buffer: at most one for each delivery, so that a response that comes together
  -- with another waits for a further delivery. The responses must have some text each and numbers
  -- that fit their fields, malloc must give memory, and the ring buffer must be empty at first and
  -- have room for all of the responses.
  pub take_responses-in_order :
      (pieces : List (List ℕ)) (todo : List Message) (room : ℕ) (c : MsgClient js C rb api)
      → AllPieces pieces
      → AllSound todo
      → HasRoom rb ring room
      → length (frames todo) ≤ room
      → ring.contents c.ring ≡ []
      → all_of pieces ≡ frames todo
      → let h = handled 0 todo pieces in
        (b : rb.Buf) × (ring.contents b ≡ frames (drop h todo))
        × (serve rb ring client_receiver pieces c
            ≡ put_buf rb ring client_receiver b
                (handle_all rb ring client_receiver (take h todo) c))
        × (h ≤ length pieces)
        × (h ≤ length todo)
  take_responses-in_order pieces todo room c all sound hr fit empty e =
      serve-in_order rb ring client_receiver client_receiver-IsReceiver pieces todo room c all sound
        hr fit empty e

  -- With short pieces, no response is left over.
  pub take_responses-all :
      (pieces : List (List ℕ)) (todo : List Message) (room : ℕ) (c : MsgClient js C rb api)
      → AllPieces pieces
      → AllWithin 9 pieces
      → AllSound todo
      → HasRoom rb ring room
      → length (frames todo) ≤ room
      → ring.contents c.ring ≡ []
      → all_of pieces ≡ frames todo
      → (b : rb.Buf) × (ring.contents b ≡ [])
        × (serve rb ring client_receiver pieces c
            ≡ put_buf rb ring client_receiver b (handle_all rb ring client_receiver todo c))
  take_responses-all pieces todo room c all within sound hr fit empty e =
      serve-all rb ring client_receiver client_receiver-IsReceiver pieces todo room c all within
        sound hr fit empty e
