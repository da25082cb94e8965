-- ===== src/Server/Pipeline.antt =====
-- MsgServer::recvData of src/task_msg.cpp, called with any number of requests in any pieces.
use task_monitor.Base.{
  ℕ, ◌≤◌, ◌≡◌, refl, ap, ◌∙◌, List, [], true, Option, none, some, length, take, drop,
}
use task_monitor.Ring.{RingBuf, IsRing}
use task_monitor.Package.Receiver.{
  AllPieces, AllWithin, Message, frames, AllSound, all_of, handled, HasRoom, Receiver, IsReceiver,
  put_buf, handle_all, serve,
}
use task_monitor.Package.Pipeline.{serve-in_order, serve-all}
use task_monitor.Json.{Json}
use task_monitor.Server.{MsgServer}
use task_monitor.Server.Dispatch.{Memory, parse_server_data, recv_data}
use task_monitor.Server.Receive.{recv_data-completes, recv_data-waits}
use task_monitor.Server.Unbuffered.{Result, with_ring, parse_server_data-ring}

module _ (js : Json) (rb : RingBuf) (ring : IsRing rb) (W U : Type 0) (m : Memory) where
  abbrev State : Type 0
  State = MsgServer js rb W U × W

  -- The object and the program's state after a call.
  abbrev after : Result js rb W U → Option State
  after none = none
  after (some (ret, s, w)) = some (s, w)

  abbrev pub server_receiver : Receiver rb ring
  server_receiver = record {
    State = State;
    buf = λ ((s, w) : State). s.ring;
    with_buf = λ (b : rb.Buf) ((s, w) : State). (record s { ring = b }, w);
    recv = λ (bytes : List ℕ) ((s, w) : State). after (recv_data js rb W U s m bytes w);
    act_on =
        λ (p : Message) ((s, w) : State). after (parse_server_data js rb W U s m p.req_id p.text w);
  }

  after-with_ring :
      (b : rb.Buf) (result : Result js rb W U)
      → after (with_ring js rb W U b result) ≡ put_buf rb ring server_receiver b (after result)
  after-with_ring b none = refl
  after-with_ring b (some (ret, s, w)) = refl

  handle_with :
      (b : rb.Buf) (p : Message) (s : MsgServer js rb W U) (w : W)
      → after (parse_server_data js rb W U (record s { ring = b }) m p.req_id p.text w)
        ≡ put_buf rb ring server_receiver b
            (after (parse_server_data js rb W U s m p.req_id p.text w))
  handle_with b p s w =
      ap after (parse_server_data-ring js rb W U s b m p.req_id p.text w)
      ∙ after-with_ring b (parse_server_data js rb W U s m p.req_id p.text w)

  server_receiver-IsReceiver : m.malloc_ok ≡ true → IsReceiver rb ring server_receiver
  server_receiver-IsReceiver ok = record {
    buf_with = λ b (s, w). refl;
    with_own = λ (s, w). refl;
    with_twice = λ b b' (s, w). refl;
    handle_with = λ b p (s, w). handle_with b p s w;
    completes = λ (s, w) bytes rest p sound e hp full.
        let (b, left, same) =
          recv_data-completes js rb ring W U s m bytes p.text rest p.req_id w e hp full ok
            sound.id_bound sound.text_bound sound.not_empty in
        (b, left, ap after same ∙ handle_with b p s w);
    waits = λ (s, w) bytes missing p sound e hp hm full.
        let (b, left, same) =
          recv_data-waits js rb ring W U s m bytes missing p.text p.req_id w e hp hm full
            sound.id_bound sound.text_bound in
        (b, left, ap after same);
  }

  -- The server is a queue. Any requests, cut into any pieces, none of them empty, are handled in
  -- their order, each as if it had come alone, and the rest stays in the ring buffer; how many are
  -- handled, `handled` says of the lengths alone. It is at most one for each delivery: of requests
  -- that come together all but the first wait for further deliveries. The requests must have some
  -- text each and numbers that fit their fields, malloc must give memory, and the ring buffer must
  -- be empty at first and have room for all of the requests. Where a reply's write does not return,
  -- both sides are `none`.
  pub serve_requests-in_order :
      (pieces : List (List ℕ)) (todo : List Message) (room : ℕ) (s : MsgServer js rb W U) (w : W)
      → m.malloc_ok ≡ true
      → AllPieces pieces
      → AllSound todo
      → HasRoom rb ring room
      → length (frames todo) ≤ room
      → ring.contents s.ring ≡ []
      → all_of pieces ≡ frames todo
      → let h = handled 0 todo pieces in
        (b : rb.Buf) × (ring.contents b ≡ frames (drop h todo))
        × (serve rb ring server_receiver pieces (s, w)
            ≡ put_buf rb ring server_receiver b
                (handle_all rb ring server_receiver (take h todo) (s, w)))
        × (h ≤ length pieces)
        × (h ≤ length todo)
  serve_requests-in_order pieces todo room s w ok all sound hr fit empty e =
      serve-in_order rb ring server_receiver (server_receiver-IsReceiver ok) pieces todo room (s, w)
        all sound hr fit empty e

  -- With short pieces, no request is left over.
  pub serve_requests-all :
      (pieces : List (List ℕ)) (todo : List Message) (room : ℕ) (s : MsgServer js rb W U) (w : W)
      → m.malloc_ok ≡ true
      → AllPieces pieces
      → AllWithin 9 pieces
      → AllSound todo
      → HasRoom rb ring room
      → length (frames todo) ≤ room
      → ring.contents s.ring ≡ []
      → all_of pieces ≡ frames todo
      → (b : rb.Buf) × (ring.contents b ≡ [])
        × (serve rb ring server_receiver pieces (s, w)
            ≡ put_buf rb ring server_receiver b (handle_all rb ring server_receiver todo (s, w)))
  serve_requests-all pieces todo room s w ok all within sound hr fit empty e =
      serve-all rb ring server_receiver (server_receiver-IsReceiver ok) pieces todo room (s, w) all
        within sound hr fit empty e
