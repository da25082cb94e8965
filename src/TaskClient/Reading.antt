-- ===== src/TaskClient/Reading.antt =====
-- The reading loop of client_readio_cb in src/task_client.cpp.
use task_monitor.Base.{
  ◌≡◌, refl, ◌∙◌, List, [], ◌∷◌, ◌++◌, Bool, true, false, none, some, append_assoc,
}
use task_monitor.Ring.{RingBuf}
use task_monitor.ListApi.{ListApi}
use task_monitor.Json.{Json}
use task_monitor.Sys.{SysCall, connect_later}
use task_monitor.Client.{MsgRequest, MsgClient}
use task_monitor.TaskObjClient.{ReadAnswer, closed, interrupted, failed, got}
use task_monitor.TaskClient.{TaskClient, read_loop, client_readio_cb}

-- Answers that bring nothing.
abbrev pub brings_nothing : List ReadAnswer → Bool
brings_nothing [] = true
brings_nothing (interrupted ∷ answers) = brings_nothing answers
brings_nothing (failed ∷ answers) = brings_nothing answers
brings_nothing (_ ∷ answers) = false

-- One call for each error among the answers, and one more.
abbrev pub retries : List ReadAnswer → List SysCall
retries [] = connect_later ∷ []
retries (failed ∷ answers) = connect_later ∷ retries answers
retries (_ ∷ answers) = retries answers

module _ (js : Json) (C : Type 0) (rb : RingBuf) (api : ListApi (MsgRequest js C))
    (heartbeat_cb : C) where
  read_loop-stuck :
      (answers : List ReadAnswer) (malloc_ok : Bool) (client : MsgClient js C rb api)
      (calls : List SysCall)
      → brings_nothing answers ≡ true
      → read_loop js C rb api heartbeat_cb answers malloc_ok client calls ≡ none
  unfolding read_loop
  read_loop-stuck [] malloc_ok client calls h = refl
  read_loop-stuck (interrupted ∷ answers) malloc_ok client calls h =
      read_loop-stuck answers malloc_ok client calls h
  read_loop-stuck (failed ∷ answers) malloc_ok client calls h =
      read_loop-stuck answers malloc_ok client (calls ++ connect_later ∷ []) h
  read_loop-stuck (closed ∷ answers) malloc_ok client calls h = cc
  read_loop-stuck (got buf ∷ answers) malloc_ok client calls h = cc

  read_loop-closed :
      (answers rest : List ReadAnswer) (malloc_ok : Bool) (client : MsgClient js C rb api)
      (calls : List SysCall)
      → brings_nothing answers ≡ true
      → read_loop js C rb api heartbeat_cb (answers ++ closed ∷ rest) malloc_ok client calls
        ≡ some (client, calls ++ retries answers)
  unfolding read_loop
  read_loop-closed [] rest malloc_ok client calls h = refl
  read_loop-closed (interrupted ∷ answers) rest malloc_ok client calls h =
      read_loop-closed answers rest malloc_ok client calls h
  read_loop-closed (failed ∷ answers) rest malloc_ok client calls h =
      read_loop-closed answers rest malloc_ok client (calls ++ connect_later ∷ []) h
      ∙ rw append_assoc refl
  read_loop-closed (closed ∷ answers) rest malloc_ok client calls h = cc
  read_loop-closed (got buf ∷ answers) rest malloc_ok client calls h = cc

  -- A read error does not end the callback. As long as reads give errors or interruptions it does
  -- not return, however many there are; when the connection is then closed it returns with nothing
  -- changed, and it has asked for a new connection once for every error and once more.
  pub client_readio_cb-retries :
      (answers rest : List ReadAnswer) (malloc_ok : Bool) (g : TaskClient js C rb api heartbeat_cb)
      (client : MsgClient js C rb api)
      → brings_nothing answers ≡ true
      → g.msg_client ≡ some client
      → (client_readio_cb js C rb api heartbeat_cb answers malloc_ok g ≡ none)
        × (client_readio_cb js C rb api heartbeat_cb (answers ++ closed ∷ rest) malloc_ok g
            ≡ some (g, retries answers))
  unfolding client_readio_cb
  client_readio_cb-retries answers rest malloc_ok g client h e = (
    rw (client_readio_cb, e, read_loop-stuck answers malloc_ok client [] h) refl,
    rw (client_readio_cb, e, read_loop-closed answers rest malloc_ok client [] h) refl,
  )
