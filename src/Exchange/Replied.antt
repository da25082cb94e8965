-- ===== src/Exchange/Replied.antt =====
-- Any number of requests from a MsgClient to a MsgServer of src/task_msg.cpp, and their replies.
use task_monitor.Base.{ℕ, ◌≤◌, ◌≡◌, ap, ◌∙◌, List, [], ◌++◌, true, some, length}
use task_monitor.Ring.{RingBuf, IsRing}
use task_monitor.Package.Receiver.{
  AllPieces, AllWithin, Message, frames, all_of, HasRoom, put_buf, serve,
}
use task_monitor.ListApi.{ListApi}
use task_monitor.Json.{Json}
use task_monitor.Client.{MsgRequest, MsgClient}
use task_monitor.Server.{MsgServer}
use task_monitor.Server.Dispatch.{Memory}
use task_monitor.Server.Answered.{FailMemory, Serves, ids, Serves-replies, Serves-handle_all}
use task_monitor.Server.Pipeline.{server_receiver}
use task_monitor.Exchange.Stream.{Sends, AllShort, requests-all_handled}

module _ (js : Json) (C : Type 0) (rb : RingBuf) (api : ListApi (MsgRequest js C))
    (ring : IsRing rb) (W U : Type 0) (m : Memory) where
  -- A client and a server that are connected by a byte stream: every request gets one reply. The
  -- client sent requests, each with the result 0, the stream cuts them into pieces of one to nine
  -- bytes, and the server would handle them one after the other, each with the result 0. Then the
  -- server that receives the pieces comes to the same state, with an empty ring buffer, and has
  -- written exactly one frame for each request, in the order of the requests and under their ids.
  -- Besides, the texts of the requests must not be empty and must fit the length field, malloc gives memory for the packages and for the message of a failure, and
  -- the ring buffer is empty at first and has room for all of the requests.
  pub requests-one_reply_each :
      (c d : MsgClient js C rb api) (ms : List Message) (pieces : List (List ℕ)) (room : ℕ)
      (s s' : MsgServer js rb W U) (w w' : W) (memory : FailMemory m)
      → Sends js C rb api c d ms
      → d.client_fd.sent ≡ c.client_fd.sent ++ all_of pieces
      → Serves js rb W U m memory s' w' s w ms
      → m.malloc_ok ≡ true
      → AllPieces pieces
      → AllWithin 9 pieces
      → AllShort ms
      → HasRoom rb ring room
      → length (frames ms) ≤ room
      → ring.contents s.ring ≡ []
      → (b : rb.Buf) × (replies : List Message) × (ring.contents b ≡ [])
        × (serve rb ring (server_receiver js rb ring W U m) pieces (s, w)
            ≡ some (record s' { ring = b }, w'))
        × (s'.client_fd.sent ≡ s.client_fd.sent ++ frames replies)
        × (ids replies ≡ ids ms)
  requests-one_reply_each c d ms pieces room s s' w w' memory sent stream serves ok all within texts
        hr fit empty =
      let r = server_receiver js rb ring W U m in
      let (b, none_left, run) =
        requests-all_handled js C rb api ring W U m c d ms pieces room s w sent stream ok all within
          texts hr fit empty in
      let (replies, written, same) = Serves-replies js rb W U m memory serves in
      (
        b,
        replies,
        none_left,
        run ∙ ap (put_buf rb ring r b) (Serves-handle_all js rb W U m memory ring serves),
        written,
        same,
      )
