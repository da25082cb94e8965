-- ===== src/Exchange/Stream.antt =====
-- Any number of requests from a MsgClient to a MsgServer of src/task_msg.cpp, through a byte stream.
use task_monitor.Base.{
  ℕ, ◌+◌, ◌≤◌, ◌<◌, ◌≡◌, sym, ap, ◌∙◌, List, [], ◌∷◌, ◌++◌, true, Option, some, arith, length, take,
  drop, append_assoc, append-nil, drop-length, ok_code, u32_mod,
}
use task_monitor.Ring.{RingBuf, IsRing}
use task_monitor.Package.{data_head_len}
use task_monitor.Package.Frame.{frame}
use task_monitor.Package.Receiver.{
  AllPieces, Message, frames, AllSound, all_of, handled, AllWithin, HasRoom, put_buf, handle_all,
  serve,
}
use task_monitor.ListApi.{ListApi}
use task_monitor.Json.{Json}
use task_monitor.Msg.{EventType}
use task_monitor.Client.{MsgRequest, MsgClient, Grant, send_request}
use task_monitor.Client.Sending.{next_id, send_request-sent}
use task_monitor.Server.{MsgServer}
use task_monitor.Server.Dispatch.{Memory}
use task_monitor.Server.Pipeline.{server_receiver, serve_requests-in_order, serve_requests-all}

frames-snoc :
    (ms : List Message) (m : Message) → frames (ms ++ m ∷ []) ≡ frames ms ++ frame m.req_id m.text
frames-snoc [] m = append-nil (frame m.req_id m.text)
frames-snoc (x ∷ ms) m =
    ap (λ (t : List ℕ). frame x.req_id x.text ++ t) (frames-snoc ms m)
    ∙ sym (append_assoc (frame x.req_id x.text) (frames ms) (frame m.req_id m.text))

-- Texts that fit the length field.
abbrev pub AllShort : List Message → Type 0
AllShort [] = Unit
AllShort (m ∷ ms) = ((0 < length m.text) × (length m.text + data_head_len < u32_mod)) × AllShort ms

abbrev AllIds : List Message → Type 0
AllIds [] = Unit
AllIds (m ∷ ms) = (m.req_id < u32_mod) × AllIds ms

AllIds-snoc :
    (ms : List Message) (m : Message) → AllIds ms → m.req_id < u32_mod → AllIds (ms ++ m ∷ [])
AllIds-snoc [] m a h = (h, tt)
AllIds-snoc (x ∷ ms) m (b, a) h = (b, AllIds-snoc ms m a h)

AllSound-parts : (ms : List Message) → AllIds ms → AllShort ms → AllSound ms
AllSound-parts [] a s = tt
AllSound-parts (m ∷ ms) (b, a) ((pos_len, short), s) =
    (record { id_bound = b; text_bound = short; not_empty = pos_len }, AllSound-parts ms a s)

module _ (js : Json) (C : Type 0) (rb : RingBuf) (api : ListApi (MsgRequest js C)) where
  abbrev Client : Type 0
  Client = MsgClient js C rb api

  -- Requests sent one after the other, each with the result 0: what they put on the wire.
  pub data Sends (c : Client) : Client → List Message → Type 0 where
    none_sent : Sends c c []
    one_more_sent :
        {d e : Client} {ms : List Message} (g : Grant js C rb api) (type : EventType) (buf : List ℕ)
        (cb : Option C) (timeout : js.Double)
        → Sends c d ms
        → send_request js C rb api d g type buf (length buf) cb timeout ≡ some (ok_code, e)
        → Sends c e (ms ++ record { req_id = next_id js C rb api d; text = buf } ∷ [])

  Sends-sent :
      {c d : Client} {ms : List Message}
      → Sends c d ms
      → d.client_fd.sent ≡ c.client_fd.sent ++ frames ms
  Sends-sent {c} none_sent = sym (append-nil c.client_fd.sent)
  Sends-sent {c} (one_more_sent {d} {e} {ms} g type buf cb timeout before sent) =
      send_request-sent js C rb api d e g type buf cb timeout sent
      ∙ ap (λ (t : List ℕ). t ++ frame (next_id js C rb api d) buf) (Sends-sent before)
      ∙ append_assoc c.client_fd.sent (frames ms) (frame (next_id js C rb api d) buf)
      ∙ ap (λ (t : List ℕ). c.client_fd.sent ++ t)
          (sym (frames-snoc ms (record { req_id = next_id js C rb api d; text = buf })))

  Sends-AllIds : {c d : Client} {ms : List Message} → Sends c d ms → AllIds ms
  Sends-AllIds none_sent = tt
  Sends-AllIds (one_more_sent {d} {e} {ms} g type buf cb timeout before sent) =
      AllIds-snoc ms (record { req_id = next_id js C rb api d; text = buf }) (Sends-AllIds before)
        (omega arith)

  -- What was put on the wire since a client was in a state.
  Sends-frames :
      {c d : Client} {ms : List Message} {bytes : List ℕ}
      → Sends c d ms
      → d.client_fd.sent ≡ c.client_fd.sent ++ bytes
      → bytes ≡ frames ms
  Sends-frames {c} {d} {ms} {bytes} sent e =
      sym (drop-length c.client_fd.sent bytes)
      ∙ ap (drop (length c.client_fd.sent)) (sym e ∙ Sends-sent sent)
      ∙ drop-length c.client_fd.sent (frames ms)

  module _ (ring : IsRing rb) (W U : Type 0) (m : Memory) where
    -- A client and a server that are connected by a byte stream. The requests that the client sent
    -- since some time, each with the result 0, are handled by the server in the order in which they
    -- were sent, under the ids that they were given, each as if it had come alone, however the
    -- stream cuts them into pieces, none of them empty; those not yet handled are in the ring
    -- buffer. Their texts must not be empty and must fit the length field, malloc must give memory,
    -- and the ring buffer must be empty at first and have room for all of the requests.
    requests-in_order :
        (c d : Client) (ms : List Message) (pieces : List (List ℕ)) (room : ℕ)
        (s : MsgServer js rb W U) (w : W)
        → Sends c d ms
        → d.client_fd.sent ≡ c.client_fd.sent ++ all_of pieces
        → m.malloc_ok ≡ true
        → AllPieces pieces
        → AllShort ms
        → HasRoom rb ring room
        → length (frames ms) ≤ room
        → ring.contents s.ring ≡ []
        → let h = handled 0 ms pieces in
          let r = server_receiver js rb ring W U m in
          (b : rb.Buf) × (ring.contents b ≡ frames (drop h ms))
          × (serve rb ring r pieces (s, w)
              ≡ put_buf rb ring r b (handle_all rb ring r (take h ms) (s, w)))
          × (h ≤ length pieces)
          × (h ≤ length ms)
    requests-in_order c d ms pieces room s w sent stream ok all short hr fit empty =
        serve_requests-in_order js rb ring W U m pieces ms room s w ok all
          (AllSound-parts ms (Sends-AllIds sent) short) hr fit empty (Sends-frames sent stream)

    -- No request is left lying as long as no delivery completes two of them. If the client of
    -- requests-in_order sent its requests to a server, and no piece of the stream is longer than the
    -- nine bytes of the shortest request, then the server has handled every one of them, in order,
    -- when the last byte has arrived, and its ring buffer is empty. The other conditions are the same
    -- ones: results 0, pieces and texts that are not empty, texts that fit the length field, memory,
    -- a ring buffer that is empty at first and has room for all of the requests.
    pub requests-all_handled :
        (c d : Client) (ms : List Message) (pieces : List (List ℕ)) (room : ℕ)
        (s : MsgServer js rb W U) (w : W)
        → Sends c d ms
        → d.client_fd.sent ≡ c.client_fd.sent ++ all_of pieces
        → m.malloc_ok ≡ true
        → AllPieces pieces
        → AllWithin 9 pieces
        → AllShort ms
        → HasRoom rb ring room
        → length (frames ms) ≤ room
        → ring.contents s.ring ≡ []
        → let r = server_receiver js rb ring W U m in
          (b : rb.Buf) × (ring.contents b ≡ [])
          × (serve rb ring r pieces (s, w) ≡ put_buf rb ring r b (handle_all rb ring r ms (s, w)))
    requests-all_handled c d ms pieces room s w sent stream ok all within short hr fit empty =
        serve_requests-all js rb ring W U m pieces ms room s w ok all within
          (AllSound-parts ms (Sends-AllIds sent) short) hr fit empty (Sends-frames sent stream)
