-- ===== src/TaskClient.antt =====
-- src/task_client.cpp: the client library's one connection, with its heartbeat.
-- `C` is the type of the callbacks of requests; `heartbeat_cb` stands for heartbeat_req_cb in a
-- request. readSocket is read as one `read`. `none` is an exception, a write that does not return,
-- or a reading loop that is not left for as long as the answers last.
pub mod Reading
pub mod Beating
pub mod Connecting
pub mod Events
use task_monitor.Base.{
  ℕ, List, [], ◌∷◌, ◌++◌, Bool, Option, none, some, if◌then◌else◌, ℤ, pos, ok_code, fail_code,
  is_zero, is_neg, ◌&&◌, not,
}
use task_monitor.Socket.{Socket}
use task_monitor.Ring.{RingBuf}
use task_monitor.ListApi.{ListApi}
use task_monitor.Json.{Json, Alloc}
use task_monitor.Msg.{HeartbeatRsp}
use task_monitor.Sys.{
  SysCall, open_socket, connect, connect_later, set_nonblock, watch_io, destroy_io, close,
  stop_timer, restart_timer, is_positive,
}
use task_monitor.Client.{MsgRequest, MsgClient, Grant, msg_client}
use task_monitor.Client.Requests.{send_req_hearbeat}
use task_monitor.Client.Receive
use task_monitor.TaskObjClient.{ReadAnswer, closed, interrupted, failed, got}

module _ (js : Json) (C : Type 0) (rb : RingBuf) (api : ListApi (MsgRequest js C))
    (heartbeat_cb : C) where
  open js use {Double, of_int, double_eq, double_lt}

  abbrev Client : Type 0
  Client = MsgClient js C rb api

  -- The static variables. The timer exists before any connection is made.
  pub record TaskClient : Type 0 where
    pub client_fd : ℤ
    pub client_io : Option ℕ
    pub msg_client : Option Client
    pub heartbeat_timer : ℕ
    pub heartbeat_timeout : Double

  abbrev pub Made : Type 0
  Made = TaskClient × List SysCall

  -- heartbeat_req_cb: the variables, and the new period of the timer if it was changed.
  unfoldable pub heartbeat_req_cb : ℤ → HeartbeatRsp js → TaskClient → TaskClient × Option Double
  heartbeat_req_cb ret rsp g =
      if is_zero ret
        && double_lt (of_int (pos 1)) rsp.heatbeat
        && not (double_eq rsp.heatbeat g.heartbeat_timeout)
      then (record g { heartbeat_timeout = rsp.heatbeat }, some rsp.heatbeat)
      else (g, none)

  abbrev pub io_calls : Option ℕ → List SysCall
  io_calls none = []
  io_calls (some io) = destroy_io io ∷ []

  -- clear_global_data. With the client go its waiting requests.
  unfoldable pub clear_global_data : TaskClient → Made
  clear_global_data g =
      let cleared = record g { client_io = none; msg_client = none } in
      if is_positive g.client_fd
      then (
        record cleared { client_fd = fail_code },
        close g.client_fd ∷ (io_calls g.client_io ++ stop_timer g.heartbeat_timer ∷ []),
      )
      else (cleared, io_calls g.client_io ++ stop_timer g.heartbeat_timer ∷ [])

  -- What the system answers to one attempt to connect: `peer` is the connection, `garbage` the
  -- memory of the new client; the rest is for the heartbeat that is sent at once.
  pub record Answers : Type 0 where
    pub fd : ℤ
    pub connected : ℤ
    pub peer : Socket
    pub garbage : ℕ
    pub io : Option ℕ
    pub grant : Grant js C rb api
    pub alloc : Alloc
    pub my_pid : ℤ

  abbrev set_global_data : ℤ → ℕ → Client → TaskClient → TaskClient
  set_global_data fd io client g = record g {
    client_fd = fd;
    client_io = some io;
    msg_client = some client;
  }

  -- The client is there and watched: set_global_data, the first heartbeat, the timer.
  pub greet : Answers → ℕ → Client → TaskClient → List SysCall → Option (ℤ × Made)
  greet a io client g calls =
      elim (send_req_hearbeat js C rb api client a.grant a.alloc a.my_pid g.heartbeat_timeout
        (some heartbeat_cb)) [
          | none ↦ none
          | some (_, client') ↦ some (
            a.fd,
            (
              set_global_data a.fd io client' g,
              calls ++ restart_timer (some g.heartbeat_timer) ∷ [],
            ),
          )
        ]

  unfoldable pub connect_to_server : Answers → TaskClient → Option (ℤ × Made)
  unfolding clear_global_data greet
  connect_to_server a g =
      let (cleared, calls) = clear_global_data g in
      let tried = calls ++ open_socket a.fd ∷ connect a.fd ∷ [] in
      if is_neg a.fd
      then some (fail_code, (cleared, calls))
      else if is_zero a.connected
      then elim (msg_client js C rb api a.peer a.garbage) [
        | none ↦ none
        | some client ↦
            let watched = tried ++ set_nonblock a.fd ∷ watch_io a.fd ∷ [] in
            elim a.io [
              | none ↦ some (fail_code, (cleared, watched ++ close a.fd ∷ []))
              | some io ↦ greet a io client cleared watched
            ]
      ]
      else some (a.connected, (cleared, tried ++ close a.fd ∷ []))

  -- connect_server_event_cb
  unfoldable pub connect_server_event_cb : Answers → TaskClient → Option Made
  unfolding connect_to_server
  connect_server_event_cb a g = elim (connect_to_server a g) [
    | none ↦ none
    | some (fd, (g', calls)) ↦
        if is_neg fd then some (g', calls ++ connect_later ∷ []) else some (g', calls)
  ]

  -- heartbeat_timer_cb
  unfoldable pub heartbeat_timer_cb : Grant js C rb api → Alloc → ℤ → TaskClient → Option TaskClient
  heartbeat_timer_cb grant alloc my_pid g = elim g.msg_client [
    | none ↦ some g
    | some client ↦
        elim (send_req_hearbeat js C rb api client grant alloc my_pid g.heartbeat_timeout
          (some heartbeat_cb)) [
            | none ↦ none
            | some (_, client') ↦ some (record g { msg_client = some client' })
          ]
  ]

  -- The reading loop of client_readio_cb; `calls` are those made so far. After an error it reads on.
  unfoldable pub read_loop :
      List ReadAnswer → Bool → Client → List SysCall → Option (Client × List SysCall)
  unfolding Receive.recv_data
  read_loop [] malloc_ok client calls = none
  read_loop (got buf ∷ answers) malloc_ok client calls =
      let (ret, client') = Receive.recv_data js C rb api client malloc_ok buf in
      if is_zero ret then some (client', calls) else some (client', calls ++ connect_later ∷ [])
  read_loop (closed ∷ answers) malloc_ok client calls = some (client, calls ++ connect_later ∷ [])
  read_loop (interrupted ∷ answers) malloc_ok client calls =
      read_loop answers malloc_ok client calls
  read_loop (failed ∷ answers) malloc_ok client calls =
      read_loop answers malloc_ok client (calls ++ connect_later ∷ [])

  -- client_readio_cb: the client that it is given is the one of the connection.
  unfoldable pub client_readio_cb : List ReadAnswer → Bool → TaskClient → Option Made
  unfolding read_loop
  client_readio_cb answers malloc_ok g = elim g.msg_client [
    | none ↦ some (g, [])
    | some client ↦ elim (read_loop answers malloc_ok client []) [
      | none ↦ none
      | some (client', calls) ↦ some (record g { msg_client = some client' }, calls)
    ]
  ]

  -- thread_start_cb, up to the event loop: `inst_ok` and `timer` are what libev_api gives. The first
  -- delay of the timer is random, and left out.
  unfoldable pub thread_start_cb : Bool → Option ℕ → TaskClient → Option TaskClient
  thread_start_cb inst_ok timer g =
      if inst_ok
      then elim timer [
        | none ↦ none
        | some h ↦ some (record g { heartbeat_timer = h; heartbeat_timeout = of_int (pos 5) })
      ]
      else none

  -- inst_init_cb
  unfoldable pub inst_init_cb : Answers → TaskClient → Option Made
  unfolding connect_server_event_cb
  inst_init_cb a g = connect_server_event_cb a g

  -- task_client_init, where pthread_create returns `created`.
  unfoldable pub task_client_init : ℤ → ℤ
  task_client_init created = if is_zero created then ok_code else created
