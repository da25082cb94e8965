-- ===== src/Client/Requests.antt =====
-- MsgClient::sendReqHearbeat, sendReqQueryAllTask, sendReqQuerySingleTask and sendReqTaskAction of
-- src/task_msg.cpp: the tree of each request, and its sending.
use task_monitor.Base.{
  ℕ, ◌+◌, ◌%◌, List, [], ◌∷◌, ◌++◌, Bool, Option, none, some, if◌then◌else◌, length, ℤ, pos,
  fail_code, u32_mod,
}
use task_monitor.Ring.{RingBuf}
use task_monitor.ListApi.{ListApi}
use task_monitor.Json.{Json, Alloc, codes, add_number, add_string}
use task_monitor.Msg.{EventType, event_code}
use task_monitor.Client.{MsgRequest, MsgClient, Grant, send_request}

module _ (js : Json) where
  open js use {Value, Double, of_int, create_object, add_item_to_object}

  abbrev typed : EventType → Value
  unfolding event_code
  typed type = add_number js create_object (codes "type") (of_int (pos (event_code type)))

  abbrev with_data : EventType → Value → Value
  unfolding event_code
  with_data type d = add_item_to_object (typed type) (codes "data") d

  unfoldable pub heartbeat_request : ℤ → Double → Value
  unfolding event_code
  heartbeat_request pid heartbeat = with_data EventType.heartbeat (
      add_number js (add_number js create_object (codes "pid") (of_int pid)) (codes "heartbeat")
        heartbeat)

  unfoldable pub query_all_request : Value
  unfolding event_code
  query_all_request = typed EventType.query_all

  abbrev add_name : Value → Option (List ℕ) → Value
  add_name o none = o
  add_name o (some name) = add_string js o (codes "name") name

  unfoldable pub query_single_request : ℤ → Option (List ℕ) → Value
  unfolding event_code
  query_single_request pid name =
      with_data EventType.query_task
        (add_name (add_number js create_object (codes "pid") (of_int pid)) name)

  -- The source names no `pid`; it is an argument here.
  unfoldable pub action_request : ℤ → ℤ → Value
  unfolding event_code
  action_request pid action = with_data EventType.task_action (
      add_number js (add_number js create_object (codes "pid") (of_int pid)) (codes "action")
        (of_int action))

  module _ (C : Type 0) (rb : RingBuf) (api : ListApi (MsgRequest js C)) where
    -- mDefaultReqTimeout
    abbrev pub default_req_timeout : Double
    default_req_timeout = of_int (pos 3)

    -- The end of each sender: print, send the text with its NUL, wait for the default time.
    unfoldable pub send_tree :
        MsgClient js C rb api
        → Grant js C rb api
        → Bool
        → EventType
        → Value
        → Option C
        → Option (ℤ × MsgClient js C rb api)
    send_tree c g print_ok type root cb =
        let text = js.print root in
        if print_ok
        then send_request js C rb api c g type (text ++ 0 ∷ []) ((length text + 1) % u32_mod) cb
            default_req_timeout
        else some (fail_code, c)

    -- Where a tree cannot be made, nothing is sent.
    abbrev if_made :
        Bool
        → MsgClient js C rb api
        → Option (ℤ × MsgClient js C rb api)
        → Option (ℤ × MsgClient js C rb api)
    if_made made c rest = if made then rest else some (fail_code, c)

    unfoldable pub send_req_hearbeat :
        MsgClient js C rb api
        → Grant js C rb api
        → Alloc
        → ℤ
        → Double
        → Option C
        → Option (ℤ × MsgClient js C rb api)
    unfolding send_tree heartbeat_request
    send_req_hearbeat c g alloc pid heartbeat cb = if_made (alloc 0) c (
        if_made (alloc 1) c
          (send_tree c g (alloc 2) EventType.heartbeat (heartbeat_request pid heartbeat) cb))

    unfoldable pub send_req_query_all_task :
        MsgClient js C rb api
        → Grant js C rb api
        → Alloc
        → Option C
        → Option (ℤ × MsgClient js C rb api)
    unfolding send_tree query_all_request
    send_req_query_all_task c g alloc cb =
        if_made (alloc 0) c (send_tree c g (alloc 1) EventType.query_all query_all_request cb)

    unfoldable pub send_req_query_single_task :
        MsgClient js C rb api
        → Grant js C rb api
        → Alloc
        → ℤ
        → Option (List ℕ)
        → Option C
        → Option (ℤ × MsgClient js C rb api)
    unfolding send_tree query_single_request
    send_req_query_single_task c g alloc pid name cb = if_made (alloc 0) c (
        if_made (alloc 1) c
          (send_tree c g (alloc 2) EventType.query_task (query_single_request pid name) cb))

    unfoldable pub send_req_task_action :
        MsgClient js C rb api
        → Grant js C rb api
        → Alloc
        → ℤ
        → ℤ
        → Option C
        → Option (ℤ × MsgClient js C rb api)
    unfolding send_tree action_request
    send_req_task_action c g alloc pid action cb = if_made (alloc 0) c (
        if_made (alloc 1) c
          (send_tree c g (alloc 2) EventType.task_action (action_request pid action) cb))
