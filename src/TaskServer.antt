-- ===== src/TaskServer.antt =====
-- class TaskServer of src/TaskServer.cpp: the listening socket, and the callback that accepts.
-- `getsockopt` is read as asking about the descriptor that was accepted.
pub mod Sockets
pub mod Accepting
use task_monitor.Base.{
  ℕ, List, [], ◌∷◌, ◌++◌, Bool, Option, none, some, if◌then◌else◌, ℤ, ok_code, fail_code, is_zero,
  is_neg,
}
use task_monitor.Sys.{
  SysCall, open_socket, accept, bind, listen, watch_io, destroy_io, close, is_positive,
}
use task_monitor.NewClient.{NewClient}
use task_monitor.Core.{Core, recv_client_connect}

pub record TaskServer : Type 0 where
  pub unix_path : List ℕ
  pub server_fd : ℤ
  pub client_count : ℕ
  pub server_io : Option ℕ

-- The constructor
abbrev pub task_server : List ℕ → TaskServer
task_server unix_path = record {
  unix_path = unix_path;
  server_fd = fail_code;
  client_count = 0;
  server_io = none;
}

-- What `socket`, `bind`, `listen` and libev_api_watchio_create answer to one start.
pub record Answers : Type 0 where
  pub fd : ℤ
  pub bound : ℤ
  pub listening : ℤ
  pub io : Option ℕ

abbrev pub Done : Type 0
Done = ℤ × TaskServer × List SysCall

unfoldable pub start_server : Answers → TaskServer → Done
start_server a s =
    if is_neg a.fd
    then (fail_code, s, [])
    else if is_neg a.bound
    then (fail_code, s, open_socket a.fd ∷ bind a.fd ∷ close a.fd ∷ [])
    else if is_zero a.listening
    then elim a.io [
      | none ↦ (
        fail_code,
        record s { server_io = none },
        open_socket a.fd ∷ bind a.fd ∷ listen a.fd ∷ watch_io a.fd ∷ close a.fd ∷ [],
      )
      | some io ↦ (
        ok_code,
        record s { server_io = some io; server_fd = a.fd },
        open_socket a.fd ∷ bind a.fd ∷ listen a.fd ∷ watch_io a.fd ∷ [],
      )
    ]
    else (fail_code, s, open_socket a.fd ∷ bind a.fd ∷ listen a.fd ∷ close a.fd ∷ [])

abbrev pub io_calls : Option ℕ → List SysCall
io_calls none = []
io_calls (some io) = destroy_io io ∷ []

unfoldable pub stop_server : TaskServer → Done
stop_server s =
    let stopped = record s { client_count = 0; server_io = none } in
    if is_positive s.server_fd
    then (
      ok_code,
      record stopped { server_fd = fail_code },
      io_calls s.server_io ++ close s.server_fd ∷ [],
    )
    else (ok_code, stopped, io_calls s.server_io)

unfoldable pub restart_server : Answers → TaskServer → Done
unfolding start_server stop_server
restart_server a s =
    let (_, stopped, calls) = stop_server s in
    let (ret, started, calls') = start_server a stopped in (ret, started, calls ++ calls')

-- The destructor
unfoldable pub destroy : TaskServer → TaskServer × List SysCall
unfolding stop_server
destroy s =
    let (_, stopped, calls) = stop_server s in
    (record stopped { unix_path = []; server_fd = fail_code; client_count = 0 }, calls)

-- serverReadIoCb, for a server: `fd` is what `accept` returns, `cred` the pid of the peer if
-- getsockopt succeeds, `made` what the system gives if a client is made. `none` is the exception of
-- its constructor.
unfoldable pub server_read_io_cb : ℤ → Option ℤ → NewClient → Core → Option Core
unfolding recv_client_connect
server_read_io_cb fd cred made core =
    let accepted = record core { sys = core.sys ++ accept fd ∷ [] } in
    if is_neg fd then some core else elim cred [
      | none ↦ some (record core { sys = core.sys ++ accept fd ∷ close fd ∷ [] })
      | some pid ↦ elim (recv_client_connect made pid fd accepted) [
        | none ↦ none
        | some (_, core') ↦ some core'
      ]
    ]
