-- ===== src/TaskObjClient/Summary.antt =====
-- The constructor of src/TaskObjClient.cpp against what src/TaskObj.cpp and src/task_core.cpp see
-- of it, NewClient.antt.
use task_monitor.Base.{
  ◌≡◌, refl, List, Bool, true, false, Option, none, some, ℤ, is_zero, Option-cases, Bool-cases, inl,
  inr,
}
use task_monitor.Socket.{Socket}
use task_monitor.Ring.{RingBuf}
use task_monitor.Json.{Json}
use task_monitor.Sys.{SysCall, is_positive}
use task_monitor.Server.{UserData, msg_server}
use task_monitor.NewClient.{CliObj, NewClient, new_task_obj_client}
use task_monitor.TaskObjClient.{TaskObjClient, Made, Callbacks, task_obj_client}

module _ (js : Json) (rb : RingBuf) (W U : Type 0) where
  abbrev seen : Option (Made js rb W U) → Option (CliObj × List SysCall)
  seen none = none
  seen (some (c, calls)) = some (
    record { client_fd = c.client_fd; pid = c.pid; is_available = c.is_available; freed = false },
    calls,
  )

  abbrev is_made : {A : Type 0} → Option A → Bool
  is_made none = false
  is_made (some a) = true

  -- A TaskObjClient is made exactly where the daemon's lists see one made, with the same descriptor,
  -- pid, availability and calls.
  pub task_obj_client-seen :
      (raw : TaskObjClient js rb W U) (cbs : Callbacks js rb W U) (self : U) (peer : Socket)
      (garbage : UserData js rb W U) (a : NewClient) (fd pid : ℤ)
      → a.old_io ≡ raw.read_io
      → a.memory ≡ is_made (msg_server js rb W U peer garbage)
      → seen (task_obj_client js rb W U raw cbs self a.watch peer garbage fd pid)
        ≡ new_task_obj_client a fd pid
  unfolding task_obj_client new_task_obj_client
  task_obj_client-seen raw cbs self peer garbage a fd pid io memory =
      elim (Option-cases (msg_server js rb W U peer garbage)) [
        | inl m ↦ elim (Bool-cases (is_zero a.watch)) [
          | inl z ↦ rw (task_obj_client, memory, m, z) refl
          | inr z ↦ rw (task_obj_client, z, z) refl
        ]
        | inr (s, m) ↦ elim (Bool-cases (is_zero a.watch)) [
          | inl z ↦ elim (Bool-cases (is_positive fd)) [
            | inl p ↦ rw (task_obj_client, memory, m, z, io, p) refl
            | inr p ↦ rw (task_obj_client, memory, m, z, io, p) refl
          ]
          | inr z ↦ rw (task_obj_client, z, z) refl
        ]
      ]
