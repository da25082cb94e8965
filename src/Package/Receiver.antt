-- ===== src/Package/Receiver.antt =====
-- What src/task_msg.cpp's two receivers, MsgServer::recvData and MsgClient::recvData, have in common:
-- bytes go into a ring buffer, and a call handles one package at most.
use task_monitor.Base.{
  ℕ, suc, ◌+◌, ◌-◌, ◌≤◌, ◌<◌, ◌≡◌, List, [], ◌∷◌, ◌++◌, Option, none, some, arith, length,
  length-append, leb, u32_mod, Bool-cases, inl, inr, if◌then◌else◌,
}
use task_monitor.Ring.{RingBuf, IsRing}
use task_monitor.Package.{data_head_len}
use task_monitor.Package.Frame.{frame, length-frame}
use task_monitor.Send.{◌>>=◌}

pub data AllPieces : List (List ℕ) → Type 0 where
  no_piece : AllPieces []
  one_more :
      {piece : List ℕ} {pieces : List (List ℕ)}
      → 0 < length piece
      → AllPieces pieces
      → AllPieces (piece ∷ pieces)

-- A package as it stands on the wire.
pub record Message : Type 0 where
  pub req_id : ℕ
  pub text : List ℕ

abbrev pub size : Message → ℕ
size r = 8 + length r.text

abbrev pub frames : List Message → List ℕ
frames [] = []
frames (r ∷ rs) = frame r.req_id r.text ++ frames rs

-- The numbers fit their fields, and there is some text.
pub record IsSound (r : Message) : Type 0 where
  pub id_bound : r.req_id < u32_mod
  pub text_bound : length r.text + data_head_len < u32_mod
  pub not_empty : 0 < length r.text

abbrev pub AllSound : List Message → Type 0
AllSound [] = Unit
AllSound (r ∷ rs) = IsSound r × AllSound rs

abbrev pub all_of : List (List ℕ) → List ℕ
all_of [] = []
all_of (p ∷ ps) = p ++ all_of ps

-- A queue: how many packages are handled, when `have` bytes of the first of `todo` are there and
-- the pieces arrive. A piece that completes the first lets it be handled, and no other.
abbrev pub handled : ℕ → List Message → List (List ℕ) → ℕ
handled have todo [] = 0
handled have [] (p ∷ ps) = 0
handled have (r ∷ todo) (p ∷ ps) =
    let next = handled (have + length p - size r) todo ps in
    let wait = handled (have + length p) (r ∷ todo) ps in
    if leb (size r) (have + length p) then suc next else wait

-- No more packages are handled than pieces arrive, nor more than there are.
pub handled_le :
    (have : ℕ) (todo : List Message) (pieces : List (List ℕ))
    → (handled have todo pieces ≤ length pieces) × (handled have todo pieces ≤ length todo)
handled_le have todo [] = (omega arith, omega arith)
handled_le have [] (p ∷ ps) = (omega arith, omega arith)
handled_le have (r ∷ todo) (p ∷ ps) = elim (Bool-cases (leb (size r) (have + length p))) [
  | inl e ↦
      let (a, b) = handled_le (have + length p - size r) todo ps in rw e (omega arith, omega arith)
  | inr e ↦
      let (a, b) = handled_le (have + length p) (r ∷ todo) ps in rw e (omega arith, omega arith)
]

-- No piece is longer than this.
abbrev pub AllWithin : ℕ → List (List ℕ) → Type 0
AllWithin n [] = Unit
AllWithin n (p ∷ ps) = (length p ≤ n) × AllWithin n ps

-- Fewer bytes are there than the first message has.
abbrev Short : ℕ → List Message → Type 0
Short have [] = have ≡ 0
Short have (r ∷ todo) = have < size r

pub Short-start : (todo : List Message) → Short 0 todo
Short-start [] = omega arith
Short-start (r ∷ todo) = omega arith

length-frames :
    (r : Message) (todo : List Message) → length (frames (r ∷ todo)) ≡ size r + length (frames todo)
length-frames r todo =
    let a = length-append (frame r.req_id r.text) (frames todo) in
    let b = length-frame r.req_id r.text in omega arith

-- What is left of a piece of nine bytes or less that completes a message completes no other.
next_Short :
    (left : ℕ) (rest : ℕ) (todo : List Message)
    → AllSound todo
    → left < 9
    → left + rest ≡ length (frames todo)
    → Short left todo
next_Short left rest [] sound h e = omega arith
next_Short left rest (r ∷ todo) (sound, sounds) h e = omega (arith, sound.not_empty)

-- If no piece is longer than the shortest message can be, all messages are handled once all of
-- their bytes are there.
pub handled_all :
    (have : ℕ) (todo : List Message) (pieces : List (List ℕ))
    → AllSound todo
    → AllWithin 9 pieces
    → Short have todo
    → have + length (all_of pieces) ≡ length (frames todo)
    → handled have todo pieces ≡ length todo
handled_all have [] [] sound within short e = omega arith
handled_all have [] (p ∷ ps) sound within short e = omega arith
handled_all have (r ∷ todo) [] (sound, sounds) within short e =
    let a = length-frames r todo in absurd (omega arith)
handled_all have (r ∷ todo) (p ∷ ps) (sound, sounds) (small, within) short e =
    let a = length-frames r todo in
    let b = length-append p (all_of ps) in
    elim (Bool-cases (leb (size r) (have + length p))) [
      | inl done ↦
          let big : size r ≤ have + length p = ground arith in
          let left = have + length p - size r in
          let e' : left + length (all_of ps) ≡ length (frames todo) = omega arith in
          let start = next_Short left (length (all_of ps)) todo sounds (omega arith) e' in
          let rest = handled_all left todo ps sounds within start e' in rw done (omega arith)
      | inr undone ↦
          let little : have + length p < size r = ground arith in
          let rest =
            handled_all (have + length p) (r ∷ todo) ps (sound, sounds) within little
              (omega arith) in
          rw undone rest
    ]

module _ (rb : RingBuf) (ring : IsRing rb) where
  open ring use {contents}

  -- A ring buffer that takes all of a write while no more than `room` bytes are in it.
  abbrev pub HasRoom : ℕ → Type 0
  HasRoom room =
      (b : rb.Buf) (bytes : List ℕ)
      → length (contents b) + length bytes ≤ room
      → (rb.write_data b bytes).1 ≡ length bytes

  -- A receiver: its state, which has a ring buffer, what it does with bytes, and with a package.
  pub record Receiver : Type 1 where
    pub State : Type 0
    pub buf : State → rb.Buf
    pub with_buf : rb.Buf → State → State
    pub recv : List ℕ → State → Option State
    pub act_on : Message → State → Option State

  module _ (r : Receiver) where
    open r use {State, buf, with_buf, recv, act_on}

    abbrev pub put_buf : rb.Buf → Option State → Option State
    put_buf b none = none
    put_buf b (some s) = some (with_buf b s)

    -- What the two receivers keep to.
    pub record IsReceiver : Type 0 where
      pub buf_with : (b : rb.Buf) (s : State) → buf (with_buf b s) ≡ b
      pub with_own : (s : State) → with_buf (buf s) s ≡ s
      pub with_twice : (b b' : rb.Buf) (s : State) → with_buf b' (with_buf b s) ≡ with_buf b' s
      -- The handling of a package has nothing to do with the ring buffer.
      pub handle_with :
          (b : rb.Buf) (p : Message) (s : State) → act_on p (with_buf b s) ≡ put_buf b (act_on p s)
      -- Bytes that complete a package let it be handled, and leave what follows it.
      pub completes :
          (s : State) (bytes rest : List ℕ) (p : Message)
          → IsSound p
          → contents (buf s) ++ bytes ≡ frame p.req_id p.text ++ rest
          → 0 < length bytes
          → (rb.write_data (buf s) bytes).1 ≡ length bytes
          → (b : rb.Buf) × (contents b ≡ rest) × (recv bytes s ≡ put_buf b (act_on p s))
      -- Bytes that do not are kept.
      pub waits :
          (s : State) (bytes missing : List ℕ) (p : Message)
          → IsSound p
          → (contents (buf s) ++ bytes) ++ missing ≡ frame p.req_id p.text
          → 0 < length bytes
          → 0 < length missing
          → (rb.write_data (buf s) bytes).1 ≡ length bytes
          → (b : rb.Buf) × (contents b ≡ contents (buf s) ++ bytes)
            × (recv bytes s ≡ some (with_buf b s))

    -- The packages handled one after the other, with no ring buffer in play.
    abbrev pub handle_all : List Message → State → Option State
    handle_all [] s = some s
    handle_all (p ∷ ps) s = act_on p s >>= handle_all ps

    -- One call for each piece.
    abbrev pub serve : List (List ℕ) → State → Option State
    serve [] s = some s
    serve (p ∷ ps) s = recv p s >>= serve ps
