-- ===== src/Exchange/Asked.antt =====
-- A query for one task, from the call in the client to the call of its callback: MsgClient and
-- MsgServer of src/task_msg.cpp with processGetSingleTask of src/task_core.cpp behind.
use task_monitor.Base.{
  ℕ, ◌+◌, ◌<◌, ◌^◌, ◌≡◌, ◌≢◌, refl, sym, ap, ◌∙◌, List, [], ◌∷◌, ◌++◌, true, false, Option, some,
  arith, length, length-take, pos, ok_code, u32_mod, to_u32, append-nil,
}
use task_monitor.Socket.Delivery.{Progress, writes}
use task_monitor.Ring.{RingBuf, IsRing}
use task_monitor.Package.Frame.{frame, length-frame}
use task_monitor.Json.{Json, IsJson, codes}
use task_monitor.Msg.{TaskSingleReq, TaskDetailInfo}
use task_monitor.Server.{MsgServer, Callback}
use task_monitor.Server.Handlers.{replied, single_reply, success_tree, detail_tree, strncpy}
use task_monitor.Server.Dispatch.{Memory, recv_data, dispatch, reply_data}
use task_monitor.Server.Receive.{recv_data-completes}
use task_monitor.Server.Replies.{parse_server_data-answers}
use task_monitor.TaskObj.{TaskObj}
use task_monitor.Core.{Core, wanted, detail_info, get_status_str, process_get_single_task}
use task_monitor.Core.Lookup.{any}
use task_monitor.Core.Queries.{finds_first}
use task_monitor.Client.Requests.{query_single_request}
use task_monitor.Exchange.Asking.{single_request-loses_name, single_request_type}
use task_monitor.Exchange.Answering.{Fits}
use task_monitor.Exchange.Hearing.{length-closed}

-- The data fits its structure: what getTaskName and the others gave was cut to the fields.
pub detail_info-Fits :
    (js : Json) (law : IsJson js) (t : TaskObj)
    → to_u32 t.pid < 2 ^ 31
    → Fits js law (detail_info js t)
unfolding detail_info strncpy
detail_info-Fits js law t h = record {
  pid = h;
  name = omega (arith, length-take 31 t.name);
  param = omega (arith, length-take 127 t.param);
  status = omega (arith, length-take 31 (get_status_str t.status));
}

pub wanted-pid :
    (pid : ℕ) (name : List ℕ) (t : TaskObj)
    → pid ≢ 0
    → wanted pid name t ≡ true
    → to_u32 t.pid ≡ pid
unfolding wanted
wanted-pid pid name t n h = ground arith

module _ (js : Json) (law : IsJson js) (rb : RingBuf) (ring : IsRing rb) (U : Type 0) where
  open js use {Value, print}
  open ring use {contents}

  -- processGetSingleTask as the callback of its event.
  abbrev pub single_cb : Callback Core U TaskSingleReq (TaskDetailInfo js)
  single_cb req u core =
      let (err, rsp) = process_get_single_task js true req core in (err, rsp, core)

  abbrev pub request_text : ℕ → Option (List ℕ) → List ℕ
  request_text pid name = print (query_single_request js (pos pid) name) ++ 0 ∷ []

  abbrev pub reply_text : TaskObj → List ℕ
  reply_text t = print (success_tree js (detail_tree js (detail_info js t))) ++ 0 ∷ []

  -- The tasks, with one that is the first of the pid.
  pub record HasTask (core : Core) (pid : ℕ) (t : TaskObj) : Type 0 where
    pub before : List TaskObj
    pub after : List TaskObj
    pub listed : core.task_list ≡ before ++ t ∷ after
    pub first : any (wanted pid []) before ≡ false
    pub hit : wanted pid [] t ≡ true

  -- A server that can answer: it has the callback, memory, an empty buffer with room, and a peer
  -- that takes bytes.
  pub record CanServe (s : MsgServer js rb Core U) (m : Memory) (bytes text : List ℕ) : Type 0 where
    pub registered : s.event_cb.query_task ≡ some single_cb
    pub memory : (n : ℕ) → m.alloc n ≡ true
    pub package_memory : m.malloc_ok ≡ true
    pub nothing_left : contents s.ring ≡ []
    pub room_left : (rb.write_data s.ring bytes).1 ≡ length bytes
    pub progress : Progress s.client_fd.answers
    pub enough : length text + 21 < writes s.client_fd.answers

  dispatched :
      (s : MsgServer js rb Core U) (m : Memory) (core : Core) (pid : ℕ) (name : Option (List ℕ))
      (t : TaskObj)
      → s.event_cb.query_task ≡ some single_cb
      → ((n : ℕ) → m.alloc n ≡ true)
      → pid < 2 ^ 31
      → HasTask core pid t
      → dispatch js rb Core U s m.alloc
          (js.valueint (js.number (js.of_int (pos 2))))
          (js.get_object_item (query_single_request js (pos pid) name) (codes "data"))
          core
        ≡ (replied (print (success_tree js (detail_tree js (detail_info js t)))), core)
  unfolding single_reply
  dispatched s m core pid name t e memory h found =
      let answered =
        finds_first js (record { pid = pid; name = [] }) core found.before t found.after
          found.listed found.first found.hit in
      rw (law.valueint_lem 2 (omega arith)) (
        single_request-loses_name js law rb Core U s m.alloc core pid name h e
        ∙ rw (answered, memory 0, memory 1, memory 2) refl)

  -- The whole request arrives, and its whole reply goes out under its id.
  pub serves :
      (s : MsgServer js rb Core U) (m : Memory) (core : Core) (req_id pid : ℕ)
      (name : Option (List ℕ)) (t : TaskObj)
      → let text = print (query_single_request js (pos pid) name) in
        let reply = print (success_tree js (detail_tree js (detail_info js t))) in
        CanServe s m (frame req_id (text ++ 0 ∷ [])) reply
        → js.parse (text ++ 0 ∷ []) ≡ some (query_single_request js (pos pid) name)
        → HasTask core pid t
        → pid < 2 ^ 31
        → req_id < u32_mod
        → length text + 9 < u32_mod
        → length reply + 1 < u32_mod
        → (s' : MsgServer js rb Core U) × (recv_data js rb Core U s m
              (frame req_id (text ++ 0 ∷ []))
              core
            ≡ some (ok_code, s', core))
          × (s'.client_fd.sent ≡ s.client_fd.sent ++ frame req_id (reply ++ 0 ∷ []))
  unfolding reply_data
  serves s m core req_id pid name t can parsed found hp hid short short' =
      let root = query_single_request js (pos pid) name in
      let text = print root in
      let reply = print (success_tree js (detail_tree js (detail_info js t))) in
      let bytes = frame req_id (text ++ 0 ∷ []) in
      let len = length-closed text in
      let long = length-frame req_id (text ++ 0 ∷ []) in
      let (b, left, e) =
        recv_data-completes js rb ring Core U s m bytes (text ++ 0 ∷ []) [] req_id core
          (ap (λ (l : List ℕ). l ++ bytes) can.nothing_left ∙ sym (append-nil bytes)) (omega arith)
          can.room_left can.package_memory hid (omega arith) (omega arith) in
      let s1 : MsgServer js rb Core U = record s { ring = b } in
      let h = dispatched s1 m core pid name t can.registered can.memory hp found in
      let (fd, e', sent) =
        parse_server_data-answers js rb Core U s1 m req_id (text ++ 0 ∷ []) reply core root
          (js.number (js.of_int (pos 2))) parsed (single_request_type js law (pos pid) name)
          (law.number_kind (js.of_int (pos 2))) (rw h refl) short' can.progress can.enough in
      (record s1 { client_fd = fd }, e ∙ e' ∙ rw h refl, sent)
