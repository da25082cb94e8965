-- ===== src/NewClient.antt =====
-- `new TaskObjClient` of src/TaskObjClient.cpp, as far as src/TaskObj.cpp and src/task_core.cpp see
-- the object: its descriptor, its pid and whether it is available.
use task_monitor.Base.{
  ℕ, List, [], ◌∷◌, ◌++◌, Bool, true, false, Option, none, some, if◌then◌else◌, ℤ, fail_code,
  is_zero,
}
use task_monitor.Sys.{SysCall, set_nonblock, watch_io, destroy_io, close, is_positive}

-- A TaskObjClient in `cliList`, and whether its memory was given back.
pub record CliObj : Type 0 where
  pub client_fd : ℤ
  pub pid : ℤ
  pub is_available : Bool
  pub freed : Bool

-- What the system gives: the address of the object, what its memory holds as mReadIo, what
-- libev_api_watchio_create returns, and whether there is memory for it and for its MsgServer.
pub record NewClient : Type 0 where
  pub address : ℕ
  pub old_io : Option ℕ
  pub watch : ℤ
  pub memory : Bool

abbrev pub io_calls : Option ℕ → List SysCall
io_calls none = []
io_calls (some io) = destroy_io io ∷ []

-- The constructor: startTaskClient first stops the client, which closes the descriptor that was just
-- stored. `none` is its exception.
unfoldable pub new_task_obj_client : NewClient → ℤ → ℤ → Option (CliObj × List SysCall)
new_task_obj_client a fd pid =
    let kept = if is_positive fd then fail_code else fd in
    let closing =
      if is_positive fd then io_calls a.old_io ++ close fd ∷ [] else io_calls a.old_io in
    let cli : CliObj = record { client_fd = kept; pid = pid; is_available = true; freed = false } in
    if is_zero a.watch
    then if a.memory then some (cli, closing ++ set_nonblock fd ∷ watch_io fd ∷ []) else none
    else none
