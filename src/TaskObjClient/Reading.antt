-- ===== src/TaskObjClient/Reading.antt =====
-- taskReadIoCb of src/TaskObjClient.cpp where a request is served.
use task_monitor.Base.{ℕ, ◌≡◌, refl, List, [], ◌∷◌, some, ok_code}
use task_monitor.Ring.{RingBuf}
use task_monitor.Json.{Json}
use task_monitor.Server.{MsgServer}
use task_monitor.Server.Dispatch.{Memory}
use task_monitor.Server.Dispatch
use task_monitor.TaskObjClient.{TaskObjClient, ReadAnswer, got, task_read_io_cb}
use task_monitor.TaskObjClient

module _ (js : Json) (rb : RingBuf) (W U : Type 0) where
  -- The daemon's connection hands what it reads to its server.
  pub task_read_io_cb-served :
      (conn : TaskObjClient js rb W U) (s s' : MsgServer js rb W U) (m : Memory) (w w' : W)
      (buf : List ℕ) (rest : List ReadAnswer)
      → conn.msg_server ≡ some s
      → Dispatch.recv_data js rb W U s m buf w ≡ some (ok_code, s', w')
      → task_read_io_cb js rb W U (got buf ∷ rest) m conn w
        ≡ some ((record conn { msg_server = some s' }, []), w')
  unfolding task_read_io_cb TaskObjClient.recv_data
  task_read_io_cb-served conn s s' m w w' buf rest e r =
      rw (task_read_io_cb, TaskObjClient.recv_data, e, r) refl
