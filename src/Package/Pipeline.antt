-- ===== src/Package/Pipeline.antt =====
-- A receiver of src/task_msg.cpp with any number of packages that arrive in any pieces.
use task_monitor.Base.{
  ℕ, suc, ◌+◌, ◌-◌, ◌≤◌, ◌<◌, ◌≡◌, refl, sym, ap, ◌∙◌, List, [], ◌∷◌, ◌++◌, Option, none, some,
  arith, length, take, take_all, drop, leb, length-append, length-drop, append_assoc, append-nil,
  Bool-cases, Option-cases, inl, inr, split_head, split_rest,
}
use task_monitor.Ring.{RingBuf, IsRing}
use task_monitor.Package.Frame.{frame, length-frame}
use task_monitor.Package.Receiver.{
  AllPieces, one_more, Message, size, frames, AllSound, all_of, handled, handled_le, handled_all,
  AllWithin, Short-start, HasRoom, Receiver, IsReceiver, put_buf, handle_all, serve,
}

-- Bytes that complete the first message, and bytes that do not.
module _ (c tail : List ℕ) (r : Message) (todo : List Message)
    (e : c ++ tail ≡ frames (r ∷ todo)) where
  whole :
      size r ≤ length c
      → (rest : List ℕ) × (c ≡ frame r.req_id r.text ++ rest)
        × (rest ++ tail ≡ frames todo)
        × (length rest ≡ length c - size r)
  whole h =
      let f = frame r.req_id r.text in
      let long = length-frame r.req_id r.text in
      (
        drop (length f) c,
        sym (split_head c tail f (frames todo) e (omega arith)),
        split_rest c tail f (frames todo) e (omega arith),
        length-drop (length f) c ∙ omega arith,
      )

  part :
      length c < size r
      → (missing : List ℕ) × (c ++ missing ≡ frame r.req_id r.text) × (0 < length missing)
  part h =
      let f = frame r.req_id r.text in
      let long = length-frame r.req_id r.text in
      let left = length-drop (length c) f in
      (drop (length c) f, split_head f (frames todo) c tail (sym e) (omega arith), omega arith)

-- The write of a piece finds room.
fits :
    (c p tail : List ℕ) (todo : List Message) (room : ℕ)
    → (c ++ p) ++ tail ≡ frames todo
    → length (frames todo) ≤ room
    → length c + length p ≤ room
fits c p tail todo room e h =
    let total = ap length e in
    let a = length-append (c ++ p) tail in let b = length-append c p in omega arith

regroup :
    (c p : List ℕ) (ps : List (List ℕ)) (later : List ℕ) {all : List ℕ}
    → c ++ ((p ++ all_of ps) ++ later) ≡ all
    → (c ++ p) ++ (all_of ps ++ later) ≡ all
regroup c p ps later e =
    append_assoc c p (all_of ps ++ later)
    ∙ ap (λ (l : List ℕ). c ++ l) (sym (append_assoc p (all_of ps) later))
    ∙ e

drop_past : (ms : List Message) → drop (length ms) ms ≡ []
drop_past [] = refl
drop_past (m ∷ ms) = drop_past ms

module _ (rb : RingBuf) (ring : IsRing rb) (r : Receiver rb ring) (law : IsReceiver rb ring r) where
  open ring use {contents}
  open r use {State, buf, with_buf, recv, act_on}

  abbrev put : rb.Buf → Option State → Option State
  put b result = put_buf rb ring r b result

  put-twice : (b b' : rb.Buf) (result : Option State) → put b' (put b result) ≡ put b' result
  put-twice b b' none = refl
  put-twice b b' (some s) = ap some (law.with_twice b b' s)

  handle_all-with :
      (b : rb.Buf) (todo : List Message) (s : State)
      → handle_all rb ring r todo (with_buf b s) ≡ put b (handle_all rb ring r todo s)
  handle_all-with b [] s = refl
  handle_all-with b (p ∷ ps) s =
      let same = law.handle_with b p s in
      elim (Option-cases (act_on p s)) [
        | inl e ↦ rw (same, e) refl
        | inr (s', e) ↦ rw (same, e) (handle_all-with b ps s')
      ]

  put-handle_all :
      (b b' : rb.Buf) (todo : List Message) (s : State)
      → put b' (handle_all rb ring r todo (with_buf b s)) ≡ put b' (handle_all rb ring r todo s)
  put-handle_all b b' todo s =
      ap (put b') (handle_all-with b todo s) ∙ put-twice b b' (handle_all rb ring r todo s)

  -- What a run over the pieces comes to, with `later` still to come: the first `h` messages handled,
  -- and the others kept.
  abbrev Served : List Message → List ℕ → ℕ → State → Option State → Type 0
  Served todo later h s result =
      (b : rb.Buf) × (contents b ++ later ≡ frames (drop h todo))
      × (result ≡ put b (handle_all rb ring r (take h todo) s))

  -- A piece that lets the first message be handled, and the pieces after it.
  handled_step :
      (p : List ℕ) (ps : List (List ℕ)) (first : Message) (todo : List Message) (later : List ℕ)
      (s : State) (b : rb.Buf) (n : ℕ)
      → recv p s ≡ put b (act_on first s)
      → ((s' : State) → Served todo later n (with_buf b s') (serve rb ring r ps (with_buf b s')))
      → Served (first ∷ todo) later (suc n) s (serve rb ring r (p ∷ ps) s)
  handled_step p ps first todo later s b n same next = elim (Option-cases (act_on first s)) [
    | inl none_left ↦ let (b', kept, run) = next s in rw (same, none_left) (b', kept, refl)
    | inr (s', e) ↦
        let (b', kept, run) = next s' in
        rw (same, e) (b', kept, run ∙ put-handle_all b b' (take n todo) s')
  ]

  -- A piece that is kept, and the pieces after it.
  waited_step :
      (p : List ℕ) (ps : List (List ℕ)) (todo : List Message) (later : List ℕ) (s : State)
      (b : rb.Buf) (n : ℕ)
      → recv p s ≡ some (with_buf b s)
      → Served todo later n (with_buf b s) (serve rb ring r ps (with_buf b s))
      → Served todo later n s (serve rb ring r (p ∷ ps) s)
  waited_step p ps todo later s b n same (b', kept, run) =
      rw same (b', kept, run ∙ put-handle_all b b' (take n todo) s)

  serve-Served :
      (pieces : List (List ℕ)) (todo : List Message) (later : List ℕ) (have room : ℕ) (s : State)
      → AllPieces pieces
      → AllSound todo
      → HasRoom rb ring room
      → length (frames todo) ≤ room
      → length (contents (buf s)) ≡ have
      → contents (buf s) ++ (all_of pieces ++ later) ≡ frames todo
      → Served todo later (handled have todo pieces) s (serve rb ring r pieces s)
  serve-Served [] todo later have room s all sound hr fit hv e =
      (buf s, e, ap some (sym (law.with_own s)))
  serve-Served (p ∷ ps) [] later have room s (one_more hp all) sound hr fit hv e =
      let total = ap length e in
      let a = length-append (contents (buf s)) ((p ++ all_of ps) ++ later) in
      let b = length-append (p ++ all_of ps) later in
      let c = length-append p (all_of ps) in absurd (omega arith)
  serve-Served (p ∷ ps) (first ∷ todo) later have room s (one_more hp all) (sound, sounds) hr fit hv
        e =
      let tail = all_of ps ++ later in
      let c = contents (buf s) ++ p in
      let e' = regroup (contents (buf s)) p ps later e in
      let len = length-append (contents (buf s)) p in
      let full = hr (buf s) p (fits (contents (buf s)) p tail (first ∷ todo) room e' fit) in
      elim (Bool-cases (leb (size first) (have + length p))) [
        | inl done ↦
            let big : size first ≤ have + length p = ground arith in
            let (rest, head, more, short) = whole c tail first todo e' (omega arith) in
            let (b, left, same) = law.completes s p rest first sound head hp full in
            let smaller = length-append (frame first.req_id first.text) (frames todo) in
            rw done (
              handled_step p ps first todo later s b
                (handled (have + length p - size first) todo ps) same
                (λ s'.
                  serve-Served ps todo later (have + length p - size first) room (with_buf b s') all
                    sounds hr (omega arith)
                    (ap length (ap contents (law.buf_with b s') ∙ left) ∙ short ∙ omega arith)
                    (ap (λ (l : List ℕ). l ++ tail) (ap contents (law.buf_with b s') ∙ left)
                      ∙ more)))
        | inr undone ↦
            let small : have + length p < size first = ground arith in
            let (missing, cut, pos_len) = part c tail first todo e' (omega arith) in
            let (b, left, same) = law.waits s p missing first sound cut hp pos_len full in
            let kept = ap contents (law.buf_with b s) ∙ left in
            rw undone (
              waited_step p ps (first ∷ todo) later s b
                (handled (have + length p) (first ∷ todo) ps) same
                (serve-Served ps (first ∷ todo) later (have + length p) room (with_buf b s) all
                  (sound, sounds) hr fit (ap length kept ∙ omega arith)
                  (ap (λ (l : List ℕ). l ++ tail) kept ∙ e')))
      ]

  -- A receiver is a queue, from an empty ring buffer on.
  pub serve-in_order :
      (pieces : List (List ℕ)) (todo : List Message) (room : ℕ) (s : State)
      → AllPieces pieces
      → AllSound todo
      → HasRoom rb ring room
      → length (frames todo) ≤ room
      → contents (buf s) ≡ []
      → all_of pieces ≡ frames todo
      → let h = handled 0 todo pieces in
        (b : rb.Buf) × (contents b ≡ frames (drop h todo))
        × (serve rb ring r pieces s ≡ put b (handle_all rb ring r (take h todo) s))
        × (h ≤ length pieces)
        × (h ≤ length todo)
  serve-in_order pieces todo room s all sound hr fit empty e =
      let start =
        ap (λ (l : List ℕ). l ++ (all_of pieces ++ [])) empty ∙ append-nil (all_of pieces) ∙ e in
      let (b, kept, same) =
        serve-Served pieces todo [] 0 room s all sound hr fit (ap length empty) start in
      let (few, fewer) = handled_le 0 todo pieces in
      (b, sym (append-nil (contents b)) ∙ kept, same, few, fewer)

  -- With pieces that are no longer than the shortest message, none is left over.
  pub serve-all :
      (pieces : List (List ℕ)) (todo : List Message) (room : ℕ) (s : State)
      → AllPieces pieces
      → AllWithin 9 pieces
      → AllSound todo
      → HasRoom rb ring room
      → length (frames todo) ≤ room
      → contents (buf s) ≡ []
      → all_of pieces ≡ frames todo
      → (b : rb.Buf) × (contents b ≡ [])
        × (serve rb ring r pieces s ≡ put b (handle_all rb ring r todo s))
  serve-all pieces todo room s all within sound hr fit empty e =
      let (b, kept, run, few, fewer) = serve-in_order pieces todo room s all sound hr fit empty e in
      let total = ap length e in
      let every : handled 0 todo pieces ≡ length todo =
        handled_all 0 todo pieces sound within (Short-start todo) (omega arith) in
      (
        b,
        kept ∙ ap (λ (n : ℕ). frames (drop n todo)) every ∙ ap frames (drop_past todo),
        run
            ∙ ap (λ (n : ℕ). put b (handle_all rb ring r (take n todo) s)) every
            ∙ ap (λ (l : List Message). put b (handle_all rb ring r l s))
                (take_all (length todo) todo (omega arith)),
      )
