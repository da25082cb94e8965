-- ===== src/Server/Answered.antt =====
-- Requests that MsgServer of src/task_msg.cpp handles with the result 0: what it has written then.
use task_monitor.Base.{
  ℕ, ◌+◌, ◌%◌, ◌≡◌, refl, sym, ap, ◌∙◌, List, [], ◌∷◌, ◌++◌, true, Option, none, some, arith,
  length, length-append, append_assoc, append-nil, ok_code, fail_code, u32_mod, take, Option-cases,
  inl, inr,
}
use task_monitor.Socket.{Socket}
use task_monitor.Ring.{RingBuf, IsRing}
use task_monitor.Package.Frame.{frame}
use task_monitor.Package.Receiver.{Message, frames, handle_all}
use task_monitor.Json.{Json, codes}
use task_monitor.Send.{send_frame}
use task_monitor.Send.Wire.{send_frame-sent, send_frame-take}
use task_monitor.Server.{MsgServer}
use task_monitor.Server.Handlers.{Handled, replied, refused, fault, create_fail_msg, fail_tree}
use task_monitor.Msg.{err_code}
use task_monitor.Server.Dispatch.{
  Memory, dispatch, reply_data, write_reply, answer, checked_type, parse_server_data,
}
use task_monitor.Server.Proper.{Proper, dispatch-Proper}
use task_monitor.Server.Pipeline.{server_receiver}

-- The message of a failure can be made.
abbrev pub FailMemory : Memory → Type 0
FailMemory m = (m.fail_alloc 0 ≡ true) × (m.fail_alloc 1 ≡ true)

abbrev pub ids : List Message → List ℕ
ids [] = []
ids (p ∷ ps) = p.req_id ∷ ids ps

module _ (js : Json) (rb : RingBuf) (W U : Type 0) (m : Memory) (memory : FailMemory m) where
  abbrev Server : Type 0
  Server = MsgServer js rb W U

  -- Every reply is there.
  reply_data-some :
      (h : Handled) (reply : Option (List ℕ))
      → Proper h
      → reply_data js rb W U m.fail_alloc h ≡ some reply
      → (text : List ℕ) × (reply ≡ some text)
  unfolding reply_data create_fail_msg
  reply_data-some (replied text) reply proper e = (text, ground arith)
  reply_data-some (refused code) reply proper e =
      let text = js.print (fail_tree js (err_code code)) in (text, ground arith)
  reply_data-some fault reply proper e = ground arith

  -- The bytes of a reply that its length field counts.
  abbrev counted : List ℕ → List ℕ
  counted text = take ((length text + 1) % u32_mod) (text ++ 0 ∷ [])

  send_frame-counted :
      (fd : Socket) (req_id : ℕ) (text : List ℕ)
      → send_frame fd req_id (text ++ 0 ∷ []) ((length text + 1) % u32_mod)
        ≡ send_frame fd req_id (counted text) (length (counted text))
  send_frame-counted fd req_id text =
      let len : length (text ++ 0 ∷ []) ≡ length text + 1 = length-append text (0 ∷ []) in
      send_frame-take fd req_id (text ++ 0 ∷ []) ((length text + 1) % u32_mod) (omega arith)

  write_reply-ok :
      (s s' : Server) (req_id : ℕ) (text : List ℕ) (w w' : W)
      → write_reply js rb W U s req_id (some text) w ≡ some (ok_code, s', w')
      → s'.client_fd.sent ≡ s.client_fd.sent ++ frame req_id (counted text)
  unfolding write_reply
  write_reply-ok s s' req_id text w w' e =
      let same_frame = send_frame-counted s.client_fd req_id text in
      elim (Option-cases (send_frame s.client_fd req_id (counted text) (length (counted text)))) [
        | inl blocked ↦
            let run : write_reply js rb W U s req_id (some text) w ≡ none =
              rw (write_reply, same_frame, blocked) refl in
            let clash = sym run ∙ e in absurd (ground arith)
        | inr ((ret, fd), ew) ↦
            let run : write_reply js rb W U s req_id (some text) w
                ≡ some (ret, record s { client_fd = fd }, w) =
              rw (write_reply, same_frame, ew) refl in
            let same : some (ret, record s { client_fd = fd }, w) ≡ some (ok_code, s', w') =
              sym run ∙ e in
            let zero_code : ret ≡ ok_code = ground (arith, same) in
            let kept : s'.client_fd ≡ fd = ground (arith, same) in
            let sent : send_frame s.client_fd req_id (counted text) (length (counted text))
                ≡ some (ok_code, fd) =
              rw (← zero_code) ew in
            ap (λ (x : Socket). x.sent) kept
            ∙ send_frame-sent s.client_fd fd req_id (counted text) sent
      ]

  -- A request that was handled with the result 0 was answered by one frame, under its id.
  pub parse_server_data-ok :
      (s s' : Server) (req_id : ℕ) (bytes : List ℕ) (w w' : W)
      → parse_server_data js rb W U s m req_id bytes w ≡ some (ok_code, s', w')
      → (text : List ℕ) × (s'.client_fd.sent ≡ s.client_fd.sent ++ frame req_id text)
  unfolding parse_server_data answer
  parse_server_data-ok s s' req_id bytes w w' e = elim (Option-cases (js.parse bytes)) [
    | inl p ↦
        let run : parse_server_data js rb W U s m req_id bytes w ≡ some (fail_code, s, w) =
          rw (parse_server_data, p) refl in
        let clash = sym run ∙ e in absurd (ground arith)
    | inr (root, p) ↦
        elim (Option-cases (checked_type js rb W U root (js.get_object_item root (codes "type")))) [
          | inl q ↦
              let run : parse_server_data js rb W U s m req_id bytes w ≡ some (fail_code, s, w) =
                rw (parse_server_data, p, q) refl in
              let clash = sym run ∙ e in absurd (ground arith)
          | inr (type, q) ↦
              let value = js.get_object_item root (codes "data") in
              let h = dispatch js rb W U s m.alloc type value w in
              elim (Option-cases (reply_data js rb W U m.fail_alloc h.0)) [
                | inl r ↦
                    let run : parse_server_data js rb W U s m req_id bytes w ≡ none =
                      rw (parse_server_data, p, q, answer, r) refl in
                    let clash = sym run ∙ e in absurd (ground arith)
                | inr (reply, r) ↦
                    let (text, is_text) =
                      reply_data-some h.0 reply (dispatch-Proper js rb W U s m.alloc value w type)
                        r in
                    let run : parse_server_data js rb W U s m req_id bytes w
                        ≡ write_reply js rb W U s req_id reply h.1 =
                      rw (parse_server_data, p, q, answer, r) refl in
                    let written =
                      ap (λ (x : Option (List ℕ)). write_reply js rb W U s req_id x h.1)
                        (sym is_text)
                      ∙ sym run
                      ∙ e in
                    (counted text, write_reply-ok s s' req_id text h.1 w' written)
              ]
        ]
  ]

  -- Requests that are handled one after the other, each with the result 0, up to a last state.
  pub data Serves (s' : Server) (w' : W) : Server → W → List Message → Type 0 where
    none_served : Serves s' w' s' w' []
    served :
        {s s1 : Server} {w w1 : W} (p : Message) {ps : List Message}
        → parse_server_data js rb W U s m p.req_id p.text w ≡ some (ok_code, s1, w1)
        → Serves s' w' s1 w1 ps
        → Serves s' w' s w (p ∷ ps)

  pub Serves-replies :
      {s' : Server} {w' : W} {s : Server} {w : W} {ms : List Message}
      → Serves s' w' s w ms
      → (replies : List Message) × (s'.client_fd.sent ≡ s.client_fd.sent ++ frames replies)
        × (ids replies ≡ ids ms)
  Serves-replies {s} none_served = ([], sym (append-nil s.client_fd.sent), refl)
  Serves-replies {s} (served {s1 = s1} {w = w} {w1 = w1} p e rest) =
      let (text, sent) = parse_server_data-ok s s1 p.req_id p.text w w1 e in
      let (replies, more, same) = Serves-replies rest in
      (
        record { req_id = p.req_id; text = text } ∷ replies,
        more
            ∙ ap (λ (t : List ℕ). t ++ frames replies) sent
            ∙ append_assoc s.client_fd.sent (frame p.req_id text) (frames replies),
        ap (◌∷◌ p.req_id) same,
      )

  pub Serves-handle_all :
      (ring : IsRing rb) {s' : Server} {w' : W} {s : Server} {w : W} {ms : List Message}
      → Serves s' w' s w ms
      → handle_all rb ring (server_receiver js rb ring W U m) ms (s, w) ≡ some (s', w')
  Serves-handle_all ring none_served = refl
  Serves-handle_all ring (served p e rest) = rw e (Serves-handle_all ring rest)
