-- ===== src/Client/Ending.antt =====
-- The responses of a byte stream that come to a MsgClient of src/task_msg.cpp, and the requests that
-- they end.
use task_monitor.Base.{
  ℕ, ◌≤◌, ◌≡◌, refl, sym, ap, ◌∙◌, subst, List, [], ◌∷◌, Option, none, some, arith, length, ℤ,
  Option-cases, inl, inr,
}
use task_monitor.Ring.{RingBuf, IsRing}
use task_monitor.Package.Receiver.{
  AllPieces, AllWithin, Message, AllSound, frames, all_of, HasRoom, put_buf, handle_all, serve,
}
use task_monitor.ListApi.{ListApi, IsListApi, delete}
use task_monitor.Json.{Json, codes}
use task_monitor.Client.{MsgRequest, node_of, MsgClient, drop_request}
use task_monitor.Client.Receive.{find_request, respond, parse_client_data}
use task_monitor.Client.Pending.{Inv}
use task_monitor.Client.Once.{respond_missing, respond_found, find-ended}
use task_monitor.Client.Lifecycle.{parse_client_data-Inv}
use task_monitor.Client.Pipeline.{client_receiver, take_responses-all}

module _ (js : Json) (C : Type 0) where
  -- No request that is taken out brings another of the id.
  find-delete_none :
      (id k : ℕ) (rs : List (MsgRequest js C))
      → find_request js C id rs ≡ none
      → find_request js C id (delete (node_of js C) k rs) ≡ none
  unfolding find_request delete
  find-delete_none id k [] e = refl
  find-delete_none id k (r ∷ rs) e = ground (arith, find-delete_none id k rs)

  module _ (rb : RingBuf) (api : ListApi (MsgRequest js C))
      (list : IsListApi (node_of js C) api) where
    abbrev Client : Type 0
    Client = MsgClient js C rb api

    -- No request of the id waits.
    abbrev pub Ended : ℕ → Client → Type 0
    Ended id c = find_request js C id (api.entries c.request_list) ≡ none

    abbrev pub AllEnded : List Message → Client → Type 0
    AllEnded [] c = Unit
    AllEnded (p ∷ ps) c = Ended p.req_id c × AllEnded ps c

    -- The text is a document that has a "ret".
    abbrev pub Readable : Message → Type 0
    Readable p =
        (root : js.Value) × (ret : js.Value) × (js.parse p.text ≡ some root)
        × (js.get_object_item root (codes "ret") ≡ some ret)

    abbrev pub AllReadable : List Message → Type 0
    AllReadable [] = Unit
    AllReadable (p ∷ ps) = Readable p × AllReadable ps

    respond-Ended :
        (c : Client) (id : ℕ) (ret : ℤ) (value : Option js.Value)
        → Inv js C rb api list c
        → Ended id (respond js C rb api c id ret value).1
    respond-Ended c id ret value v =
        elim (Option-cases (find_request js C id (api.entries c.request_list))) [
          | inl e ↦ rw (respond_missing js C rb api c id ret value e) e
          | inr (r, e) ↦
              rw (respond_found js C rb api c id ret value r e)
                (find-ended js C rb api list c id r _ v e)
        ]

    respond-keeps_Ended :
        (c : Client) (id other : ℕ) (ret : ℤ) (value : Option js.Value)
        → Ended other c
        → Ended other (respond js C rb api c id ret value).1
    unfolding drop_request
    respond-keeps_Ended c id other ret value h =
        elim (Option-cases (find_request js C id (api.entries c.request_list))) [
          | inl e ↦ rw (respond_missing js C rb api c id ret value e) h
          | inr (r, e) ↦
              rw (respond_found js C rb api c id ret value r e, list.entries_del)
                (find-delete_none other r.node (api.entries c.request_list) h)
        ]

    parse_client_data-respond :
        (c : Client) (p : Message) (root ret : js.Value)
        → js.parse p.text ≡ some root
        → js.get_object_item root (codes "ret") ≡ some ret
        → parse_client_data js C rb api c p.req_id p.text
          ≡ respond js C rb api c p.req_id
              (js.valueint ret)
              (js.get_object_item root (codes "data"))
    unfolding parse_client_data
    parse_client_data-respond c p root ret e e' = rw (parse_client_data, e, e') refl

    module _ (ring : IsRing rb) where
      -- After all responses the client has ended the request of each.
      abbrev Done : List Message → Client → Client → Type 0
      Done ps c c' =
          (handle_all rb ring (client_receiver js C rb ring api) ps c ≡ some c')
          × Inv js C rb api list c'
          × ((id : ℕ) → Ended id c → Ended id c')
          × AllEnded ps c'

      handle_all-Done :
          (ps : List Message) (c : Client)
          → Inv js C rb api list c
          → AllReadable ps
          → (c' : Client) × Done ps c c'
      handle_all-Done [] c v h = (c, (refl, v, λ id e. e, tt))
      handle_all-Done (p ∷ ps) c v ((root, ret, e, e'), h) =
          let c1 = (parse_client_data js C rb api c p.req_id p.text).1 in
          let value = js.get_object_item root (codes "data") in
          let same : c1 ≡ (respond js C rb api c p.req_id (js.valueint ret) value).1 =
            ap (λ (x : ℤ × Client). x.1) (parse_client_data-respond c p root ret e e') in
          let gone : Ended p.req_id c1 =
            subst (Ended p.req_id) (sym same)
              (respond-Ended c p.req_id (js.valueint ret) value v) in
          let (c', (run, v', keeps, all)) =
            handle_all-Done ps c1 (parse_client_data-Inv js C rb api list c p.req_id p.text v) h in
          (
            c',
            (
              run,
              v',
              λ id k. keeps id (
                  subst (Ended id) (sym same)
                    (respond-keeps_Ended c p.req_id id (js.valueint ret) value k)),
              (keeps p.req_id gone, all),
            ),
          )

      -- A stream of responses ends the requests that it answers, all of them. Any responses that can
      -- be read, cut into pieces of one to nine bytes, leave a client in which no request of their
      -- ids waits any more, and whose ring buffer is empty; the invariant of the requests is kept.
      -- The client starts with the invariant and an empty ring buffer that has room for all of the
      -- responses, each has some text and numbers that fit their fields, and malloc gives memory.
      pub responses-end_requests :
          (c : Client) (todo : List Message) (pieces : List (List ℕ)) (room : ℕ)
          → Inv js C rb api list c
          → AllReadable todo
          → AllPieces pieces
          → AllWithin 9 pieces
          → AllSound todo
          → HasRoom rb ring room
          → length (frames todo) ≤ room
          → ring.contents c.ring ≡ []
          → all_of pieces ≡ frames todo
          → (c' : Client) × (serve rb ring (client_receiver js C rb ring api) pieces c ≡ some c')
            × (ring.contents c'.ring ≡ [])
            × Inv js C rb api list c'
            × AllEnded todo c'
      responses-end_requests c todo pieces room v readable all within sound hr fit empty e =
          let (b, none_left, run) =
            take_responses-all js C rb ring api pieces todo room c all within sound hr fit empty
              e in
          let (c', (handled_them, v', keeps, gone)) = handle_all-Done todo c v readable in
          (
            record c' { ring = b },
            run ∙ ap (put_buf rb ring (client_receiver js C rb ring api) b) handled_them,
            none_left,
            v',
            still b c' todo gone,
          )
        where
          still :
              (b : rb.Buf) (c' : Client) (ps : List Message)
              → AllEnded ps c'
              → AllEnded ps (record c' { ring = b })
          still b c' [] h = tt
          still b c' (p ∷ ps) (g, h) = (g, still b c' ps h)
