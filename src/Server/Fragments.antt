-- ===== src/Server/Fragments.antt =====
-- MsgServer::recvData of src/task_msg.cpp, called with one request in any number of pieces.
use task_monitor.Base.{
  ℕ, ◌+◌, ◌<◌, ◌≡◌, sym, ap, ◌∙◌, List, [], ◌∷◌, ◌++◌, true, Option, arith, length, length-append,
  append_assoc, append-nil, u32_mod, ℤ,
}
use task_monitor.Ring.{RingBuf, IsRing}
use task_monitor.Package.{data_head_len}
use task_monitor.Package.Frame.{frame, length-frame}
use task_monitor.Package.Receiver.{AllPieces, no_piece, one_more, HasRoom}
use task_monitor.Json.{Json}
use task_monitor.Send.{◌>>=◌}
use task_monitor.Server.{MsgServer}
use task_monitor.Server.Dispatch.{Memory, parse_server_data, recv_data}
use task_monitor.Server.Receive.{recv_data-completes, recv_data-waits}

module _ (js : Json) (rb : RingBuf) (ring : IsRing rb) (W U : Type 0) where
  open ring use {contents}

  -- One call of recvData for each piece, and one for the last; the result is that of the last.
  abbrev pub deliver :
      MsgServer js rb W U
      → Memory
      → List (List ℕ)
      → List ℕ
      → W
      → Option (ℤ × MsgServer js rb W U × W)
  deliver s m [] last w = recv_data js rb W U s m last w
  deliver s m (piece ∷ pieces) last w =
      recv_data js rb W U s m piece w >>= λ (ret, s', w'). deliver s' m pieces last w'

  abbrev pub joined : List (List ℕ) → List ℕ → List ℕ
  joined [] last = last
  joined (piece ∷ pieces) last = piece ++ joined pieces last

  joined-pos :
      (pieces : List (List ℕ)) (last : List ℕ) → 0 < length last → 0 < length (joined pieces last)
  joined-pos [] last h = h
  joined-pos (piece ∷ pieces) last h =
      let rest = joined-pos pieces last h in
      let len = length-append piece (joined pieces last) in omega arith

  -- The state when the request is whole, and the buffer empty again.
  abbrev pub Handed :
      MsgServer js rb W U → Memory → ℕ → List ℕ → W → Option (ℤ × MsgServer js rb W U × W) → Type 0
  Handed s m req_id text w result =
      (b : rb.Buf) × (contents b ≡ [])
      × (result ≡ parse_server_data js rb W U (record s { ring = b }) m req_id text w)

  deliver-Handed :
      (s : MsgServer js rb W U) (m : Memory) (pieces : List (List ℕ)) (last text : List ℕ)
      (req_id : ℕ) (w : W)
      → AllPieces pieces
      → 0 < length last
      → HasRoom rb ring (8 + length text)
      → contents s.ring ++ joined pieces last ≡ frame req_id text
      → m.malloc_ok ≡ true
      → req_id < u32_mod
      → length text + data_head_len < u32_mod
      → 0 < length text
      → Handed s m req_id text w (deliver s m pieces last w)
  deliver-Handed s m [] last text req_id w no_piece hl room e ok hid short pos_len =
      let total = ap length e ∙ length-frame req_id text in
      let parts = length-append (contents s.ring) last in
      recv_data-completes js rb ring W U s m last text [] req_id w
        (e ∙ sym (append-nil (frame req_id text))) hl (room s.ring last (omega arith)) ok hid short
        pos_len
  deliver-Handed s m (piece ∷ pieces) last text req_id w (one_more hp more) hl room e ok hid short
        pos_len =
      let rest = joined pieces last in
      let e' = append_assoc (contents s.ring) piece rest ∙ e in
      let total = ap length e ∙ length-frame req_id text in
      let parts = length-append (contents s.ring) (piece ++ rest) in
      let parts' = length-append piece rest in
      let (b, left, kept) =
        recv_data-waits js rb ring W U s m piece rest text req_id w e' hp
          (joined-pos pieces last hl) (room s.ring piece (omega arith)) hid short in
      let (b', left', handed) =
        deliver-Handed (record s { ring = b }) m pieces last text req_id w more hl room
          (ap (λ (l : List ℕ). l ++ rest) left ∙ e') ok hid short pos_len in
      (b', left', rw kept handed)

  -- It does not matter how the bytes of a request are cut into deliveries: after the last of any
  -- pieces, none of them empty, the server does what it does when all of them come at once, which
  -- is to handle the request once, with an empty ring buffer. The ring buffer must have room for
  -- one frame, and the first pieces may have come before.
  pub deliver-same :
      (s : MsgServer js rb W U) (m : Memory) (pieces : List (List ℕ)) (last text : List ℕ)
      (req_id : ℕ) (w : W)
      → AllPieces pieces
      → 0 < length last
      → HasRoom rb ring (8 + length text)
      → contents s.ring ++ joined pieces last ≡ frame req_id text
      → m.malloc_ok ≡ true
      → req_id < u32_mod
      → length text + data_head_len < u32_mod
      → 0 < length text
      → Handed s m req_id text w (deliver s m pieces last w)
        × Handed s m req_id text w (recv_data js rb W U s m (joined pieces last) w)
  deliver-same s m pieces last text req_id w all hl room e ok hid short pos_len = (
    deliver-Handed s m pieces last text req_id w all hl room e ok hid short pos_len,
    deliver-Handed s m [] (joined pieces last) text req_id w no_piece (joined-pos pieces last hl)
        room e ok hid short pos_len,
  )
