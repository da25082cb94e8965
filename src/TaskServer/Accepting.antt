-- ===== src/TaskServer/Accepting.antt =====
-- What becomes of an accepted connection in src/TaskServer.cpp.
use task_monitor.Base.{
  ℕ, ◌≡◌, refl, List, [], ◌∷◌, ◌++◌, true, false, Option, none, some, arith, ℤ, is_neg,
  Option-cases, Bool-cases, is_zero, inl, inr, ◌∙◌, append_assoc, subst,
}
use task_monitor.Sys.{SysCall, accept, close, set_nonblock, watch_io, is_positive, pid_eq, one_if}
use task_monitor.Sys.Descriptors.{closes, closes-append}
use task_monitor.NewClient.{NewClient, CliObj, new_task_obj_client, io_calls}
use task_monitor.TaskObj.{TaskObj, Done, start_task_client, stop_task_client}
use task_monitor.Core.{Core, recv_client_connect, find_task}
use task_monitor.TaskServer.{server_read_io_cb}

positive-not_neg : (fd : ℤ) → is_positive fd ≡ true → is_neg fd ≡ false
positive-not_neg fd h = ground arith

module _ (fd : ℤ) (h : is_positive fd ≡ true) where
  -- Calls that close the connection once, and no other descriptor.
  abbrev pub ClosesIt : List SysCall → Type 0
  ClosesIt calls = (d : ℤ) → closes d calls ≡ one_if (pid_eq fd d)

  abbrev Made : Option (CliObj × List SysCall) → Type 0
  Made none = Unit
  Made (some (cli, calls)) = ClosesIt calls

  watched-closes :
      (io : Option ℕ)
      → ClosesIt ((io_calls io ++ close fd ∷ []) ++ set_nonblock fd ∷ watch_io fd ∷ [])
  watched-closes none d = omega arith
  watched-closes (some io) d = omega arith

  new_task_obj_client-Made : (made : NewClient) (pid : ℤ) → Made (new_task_obj_client made fd pid)
  unfolding new_task_obj_client
  new_task_obj_client-Made made pid = elim (Bool-cases (is_zero made.watch)) [
    | inr z ↦ rw (new_task_obj_client, z) tt
    | inl z ↦ elim (Bool-cases made.memory) [
      | inr m ↦ rw (new_task_obj_client, z, m) tt
      | inl m ↦ rw (new_task_obj_client, z, m, h) (λ d. watched-closes made.old_io d)
    ]
  ]

  -- What a connection adds to the calls.
  abbrev Adds : List SysCall → Option (ℤ × Core) → Type 0
  Adds before none = Unit
  Adds before (some (ret, core)) =
      (calls : List SysCall) × (core.sys ≡ before ++ calls) × ClosesIt calls

  abbrev Given : Option Done → Type 0
  Given none = Unit
  Given (some (ret, t, calls)) = ClosesIt calls

  stop_task_client-closes : (t : TaskObj) (d : ℤ) → closes d (stop_task_client t).2 ≡ 0
  unfolding stop_task_client
  stop_task_client-closes t d = ground arith

  start_task_client-Given : (made : NewClient) (t : TaskObj) → Given (start_task_client made fd t)
  unfolding start_task_client
  start_task_client-Given made t =
      let old = (stop_task_client t).2 in
      elim (Option-cases (new_task_obj_client made fd t.pid)) [
        | inl e ↦ rw (start_task_client, e) tt
        | inr ((cli, calls), e) ↦
            let once = subst Made e (new_task_obj_client-Made made t.pid) in
            rw (start_task_client, e)
              (λ d. omega (arith, closes-append d old calls, stop_task_client-closes t d, once d))
      ]

  recv_client_connect-Adds :
      (made : NewClient) (pid : ℤ) (core : Core)
      → Adds core.sys (recv_client_connect made pid fd core)
  unfolding recv_client_connect
  recv_client_connect-Adds made pid core =
      elim (Option-cases (find_task (λ t. pid_eq t.pid pid) core.task_list)) [
        | inl e ↦ elim (Option-cases (new_task_obj_client made fd pid)) [
          | inl n ↦ rw (recv_client_connect, e, n) tt
          | inr ((cli, calls), n) ↦
              rw (recv_client_connect, e, n)
                (calls, refl, subst Made n (new_task_obj_client-Made made pid))
        ]
        | inr ((before, t, after), e) ↦ elim (Option-cases (start_task_client made fd t)) [
          | inl n ↦ rw (recv_client_connect, e, n) tt
          | inr ((ret, t', calls), n) ↦
              rw (recv_client_connect, e, n)
                (calls, refl, subst Given n (start_task_client-Given made t))
        ]
      ]

  abbrev Closing : Core → Option Core → Type 0
  Closing core none = Unit
  Closing core (some core') =
      (calls : List SysCall) × (core'.sys ≡ core.sys ++ accept fd ∷ calls) × ClosesIt calls

  server_read_io_cb-Closing :
      (cred : Option ℤ) (made : NewClient) (core : Core)
      → Closing core (server_read_io_cb fd cred made core)
  unfolding server_read_io_cb
  server_read_io_cb-Closing none made core =
      rw (server_read_io_cb, positive-not_neg fd h) (close fd ∷ [], refl, λ d. omega arith)
  server_read_io_cb-Closing (some pid) made core =
      let start = record core { sys = core.sys ++ accept fd ∷ [] } in
      let n = positive-not_neg fd h in
      elim (Option-cases (recv_client_connect made pid fd start)) [
        | inl e ↦ rw (server_read_io_cb, n, e) tt
        | inr ((ret, core'), e) ↦
            let (calls, grown, once) =
              subst (Adds start.sys) e (recv_client_connect-Adds made pid start) in
            rw (server_read_io_cb, n, e)
              (calls, grown ∙ append_assoc core.sys (accept fd ∷ []) calls, once)
      ]

-- Every connection that the daemon accepts on a descriptor above 0 is closed again before the
-- callback returns, if the daemon survives the callback: its descriptor is closed once, and no other
-- descriptor is.
pub server_read_io_cb-closes :
    (fd : ℤ) (cred : Option ℤ) (made : NewClient) (core core' : Core)
    → is_positive fd ≡ true
    → server_read_io_cb fd cred made core ≡ some core'
    → (calls : List SysCall) × (core'.sys ≡ core.sys ++ accept fd ∷ calls)
      × ((d : ℤ) → closes d calls ≡ one_if (pid_eq fd d))
server_read_io_cb-closes fd cred made core core' h e =
    subst (Closing fd h core) e (server_read_io_cb-Closing fd h cred made core)
