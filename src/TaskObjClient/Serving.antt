-- ===== src/TaskObjClient/Serving.antt =====
-- What the constructor of TaskObjClient, src/TaskObjClient.cpp, makes of a new connection.
use task_monitor.Base.{◌≡◌, refl, [], ◌∷◌, true, false, none, some, ℤ, fail_code, is_zero}
use task_monitor.Ring.{RingBuf}
use task_monitor.Socket.{Socket}
use task_monitor.Json.{Json}
use task_monitor.Sys.{close, set_nonblock, watch_io, is_positive}
use task_monitor.Server.{MsgServer, UserData, msg_server}
use task_monitor.TaskObjClient.{
  TaskObjClient, Callbacks, stop_task_client, start_task_client, task_obj_client, register_all,
}

module _ (js : Json) (rb : RingBuf) (W U : Type 0) where
  -- The constructor, in memory where the watch is clear, given a connection for which a server can
  -- be made. If the watch of the descriptor has a handle, which is not 0, the constructor throws.
  -- Otherwise it ends with an available client that has closed the very descriptor before it was
  -- watched, and holds -1.
  pub task_obj_client-closes_fd :
      (raw : TaskObjClient js rb W U) (cbs : Callbacks js rb W U) (self : U) (watch : ℤ)
      (peer : Socket) (garbage : UserData js rb W U) (fd pid : ℤ) (s : MsgServer js rb W U)
      → raw.read_io ≡ none
      → is_positive fd ≡ true
      → msg_server js rb W U peer garbage ≡ some s
      → (is_zero watch ≡ false
          → task_obj_client js rb W U raw cbs self watch peer garbage fd pid ≡ none)
        × (is_zero watch ≡ true
            → task_obj_client js rb W U raw cbs self watch peer garbage fd pid
              ≡ some (
                record {
                  client_fd = fail_code;
                  pid = pid;
                  read_io = none;
                  msg_server = some (register_all js rb W U cbs self s);
                  is_available = true;
                },
                close fd ∷ set_nonblock fd ∷ watch_io fd ∷ [],
              ))
  unfolding task_obj_client start_task_client stop_task_client
  task_obj_client-closes_fd raw cbs self watch peer garbage fd pid s io h made = (
    λ z. rw (task_obj_client, start_task_client, stop_task_client, z, z) refl,
    λ z. rw (task_obj_client, start_task_client, stop_task_client, z, made, io, h) refl,
  )
