-- ===== src/TaskClient/Connecting.antt =====
-- The descriptor, the watch and the client of src/task_client.cpp, through each of its functions.
use task_monitor.Base.{
  ℕ, ◌+◌, ◌≡◌, refl, subst, List, [], ◌∷◌, ◌++◌, Bool, true, false, Option, none, some, arith, not,
  ◌||◌, ℤ, is_neg, is_zero, Option-cases, Bool-cases, inl, inr,
}
use task_monitor.Ring.{RingBuf}
use task_monitor.ListApi.{ListApi}
use task_monitor.Json.{Json, Alloc}
use task_monitor.Sys.{
  SysCall, open_socket, connect, connect_later, set_nonblock, watch_io, close, is_positive, pid_eq,
  one_if,
}
use task_monitor.Sys.Descriptors.{opens, closes, descriptor_counts}
use task_monitor.Client.{MsgRequest, MsgClient, Grant, msg_client}
use task_monitor.Client.Requests.{send_req_hearbeat}
use task_monitor.Client.Receive
use task_monitor.TaskObjClient.{ReadAnswer, closed, interrupted, failed, got}
use task_monitor.TaskClient.{
  TaskClient, Made, Answers, greet, read_loop, client_readio_cb, clear_global_data,
  connect_to_server, connect_server_event_cb, heartbeat_timer_cb,
}

module _ (js : Json) (C : Type 0) (rb : RingBuf) (api : ListApi (MsgRequest js C))
    (heartbeat_cb : C) where
  abbrev pub Global : Type 0
  Global = TaskClient js C rb api heartbeat_cb

  abbrev pub is_watched : Global → Bool
  is_watched g = elim g.client_io [ none ↦ false | some io ↦ true ]

  abbrev pub has_client : Global → Bool
  has_client g = elim g.msg_client [ none ↦ false | some c ↦ true ]

  -- The watch and the client are there together, and with a descriptor above 0 they are there.
  abbrev pub IsWhole : Global → Type 0
  IsWhole g =
      (is_watched g ≡ has_client g) × ((not (is_positive g.client_fd) || is_watched g) ≡ true)

  abbrev pub held : ℤ → Global → ℕ
  held d g = one_if (pid_eq g.client_fd d)

module _ (js : Json) (C : Type 0) (rb : RingBuf) (api : ListApi (MsgRequest js C))
    (heartbeat_cb : C) (d : ℤ) (h : is_positive d ≡ true) where
  abbrev held_here : Global js C rb api heartbeat_cb → ℕ
  held_here g = held js C rb api heartbeat_cb d g

  abbrev Whole : Global js C rb api heartbeat_cb → Type 0
  Whole g = IsWhole js C rb api heartbeat_cb g

  -- What an operation does to a whole connection, and with the descriptor.
  abbrev pub Keeps : Global js C rb api heartbeat_cb → Made js C rb api heartbeat_cb → Type 0
  Keeps g (g', calls) = (opens d calls + held_here g ≡ closes d calls + held_here g') × Whole g'

  clear_global_data-Keeps :
      (g : Global js C rb api heartbeat_cb) → Keeps g (clear_global_data js C rb api heartbeat_cb g)
  unfolding clear_global_data
  clear_global_data-Keeps g = ground arith

  not_positive : (fd : ℤ) → is_positive fd ≡ false → one_if (pid_eq fd d) ≡ 0
  not_positive fd n = ground arith

  clear_global_data-positive :
      (g : Global js C rb api heartbeat_cb)
      → is_positive (clear_global_data js C rb api heartbeat_cb g).0.client_fd ≡ false
  unfolding clear_global_data
  clear_global_data-positive g = ground arith

  clear_global_data-held :
      (g : Global js C rb api heartbeat_cb)
      → held_here (clear_global_data js C rb api heartbeat_cb g).0 ≡ 0
  clear_global_data-held g =
      not_positive (clear_global_data js C rb api heartbeat_cb g).0.client_fd
        (clear_global_data-positive g)

  -- A result, where there is one.
  abbrev Tried :
      Global js C rb api heartbeat_cb → Option (ℤ × Made js C rb api heartbeat_cb) → Type 0
  Tried g none = Unit
  Tried g (some (ret, made)) = Keeps g made

  whole_new : (b : Bool) → (not b || true) ≡ true
  whole_new b = ground arith

  greet-Tried :
      (a : Answers js C rb api heartbeat_cb) (io : ℕ) (client : MsgClient js C rb api)
      (g0 g : Global js C rb api heartbeat_cb) (calls : List SysCall)
      → opens d calls + held_here g0 ≡ closes d calls + one_if (pid_eq a.fd d)
      → Tried g0 (greet js C rb api heartbeat_cb a io client g calls)
  unfolding greet
  greet-Tried a io client g0 g calls e =
      elim (Option-cases (
        send_req_hearbeat js C rb api client a.grant a.alloc a.my_pid g.heartbeat_timeout
          (some heartbeat_cb))) [
            | inl s ↦ rw (greet, s) tt
            | inr ((ret, client'), s) ↦
                rw (greet, s) (omega descriptor_counts, (refl, whole_new (is_positive a.fd)))
          ]

  -- A cleared connection, after calls that balance with the descriptor at hand.
  closing-Keeps :
      (g0 g : Global js C rb api heartbeat_cb) (calls : List SysCall) (fd : ℤ)
      → held_here g ≡ 0
      → Whole g
      → opens d calls + held_here g0 ≡ closes d calls + one_if (pid_eq fd d)
      → Keeps g0 (g, calls ++ close fd ∷ [])
  closing-Keeps g0 g calls fd none_held w e = (omega descriptor_counts, w)

  connect_to_server-Tried :
      (a : Answers js C rb api heartbeat_cb) (g : Global js C rb api heartbeat_cb)
      → Tried g (connect_to_server js C rb api heartbeat_cb a g)
  unfolding connect_to_server
  connect_to_server-Tried a g =
      let (cleared, calls) = clear_global_data js C rb api heartbeat_cb g in
      let (kept, whole) = clear_global_data-Keeps g in
      let none_held = clear_global_data-held g in
      let tried = calls ++ open_socket a.fd ∷ connect a.fd ∷ [] in
      let watched = tried ++ set_nonblock a.fd ∷ watch_io a.fd ∷ [] in
      elim (Bool-cases (is_neg a.fd)) [
        | inl n ↦ rw (connect_to_server, n) (kept, whole)
        | inr n ↦
            let open_one : opens d tried + held_here g ≡ closes d tried + one_if (pid_eq a.fd d) =
              omega descriptor_counts in
            let open_still : opens d watched + held_here g
                ≡ closes d watched + one_if (pid_eq a.fd d) =
              omega descriptor_counts in
            elim (Bool-cases (is_zero a.connected)) [
              | inr z ↦
                  rw (connect_to_server, n, z)
                    (closing-Keeps g cleared tried a.fd none_held whole open_one)
              | inl z ↦ elim (Option-cases (msg_client js C rb api a.peer a.garbage)) [
                | inl m ↦ rw (connect_to_server, n, z, m) tt
                | inr (client, m) ↦ elim (Option-cases a.io) [
                  | inl i ↦
                      rw (connect_to_server, n, z, m, i)
                        (closing-Keeps g cleared watched a.fd none_held whole open_still)
                  | inr (io, i) ↦
                      rw (connect_to_server, n, z, m, i)
                        (greet-Tried a io client g cleared watched open_still)
                ]
              ]
            ]
      ]

  abbrev pub Kept :
      Global js C rb api heartbeat_cb → Option (Made js C rb api heartbeat_cb) → Type 0
  Kept g none = Unit
  Kept g (some made) = Keeps g made

  pub connect_server_event_cb-Kept :
      (a : Answers js C rb api heartbeat_cb) (g : Global js C rb api heartbeat_cb)
      → Kept g (connect_server_event_cb js C rb api heartbeat_cb a g)
  unfolding connect_server_event_cb
  connect_server_event_cb-Kept a g =
      let tried = connect_to_server-Tried a g in
      elim (Option-cases (connect_to_server js C rb api heartbeat_cb a g)) [
        | inl e ↦ rw (connect_server_event_cb, e) tt
        | inr ((fd, (g', calls)), e) ↦
            let (kept, whole) = subst (Tried g) e tried in
            elim (Bool-cases (is_neg fd)) [
              | inl n ↦ rw (connect_server_event_cb, e, n) (omega descriptor_counts, whole)
              | inr n ↦ rw (connect_server_event_cb, e, n) (kept, whole)
            ]
      ]

  pub heartbeat_timer_cb-IsWhole :
      (grant : Grant js C rb api) (alloc : Alloc) (my_pid : ℤ)
      (g g' : Global js C rb api heartbeat_cb)
      → Whole g
      → heartbeat_timer_cb js C rb api heartbeat_cb grant alloc my_pid g ≡ some g'
      → Whole g' × (held_here g' ≡ held_here g)
  unfolding heartbeat_timer_cb
  heartbeat_timer_cb-IsWhole grant alloc my_pid g g' w e = ground arith

  -- The calls of the reading loop open and close nothing.
  abbrev Opens : List SysCall → Option (MsgClient js C rb api × List SysCall) → Type 0
  Opens calls none = Unit
  Opens calls (some (c, calls')) =
      (opens d calls' ≡ opens d calls) × (closes d calls' ≡ closes d calls)

  Opens-step :
      (calls : List SysCall) (r : Option (MsgClient js C rb api × List SysCall))
      → Opens (calls ++ connect_later ∷ []) r
      → Opens calls r
  Opens-step calls none h = tt
  Opens-step calls (some (c, calls')) h = omega descriptor_counts

  read_loop-Opens :
      (answers : List ReadAnswer) (malloc_ok : Bool) (client : MsgClient js C rb api)
      (calls : List SysCall)
      → Opens calls (read_loop js C rb api heartbeat_cb answers malloc_ok client calls)
  unfolding read_loop
  read_loop-Opens [] malloc_ok client calls = tt
  read_loop-Opens (got buf ∷ answers) malloc_ok client calls =
      elim (Bool-cases (is_zero (Receive.recv_data js C rb api client malloc_ok buf).0)) [
        | inl z ↦ rw (read_loop, z) (refl, refl)
        | inr z ↦ rw (read_loop, z) (omega descriptor_counts)
      ]
  read_loop-Opens (closed ∷ answers) malloc_ok client calls = omega descriptor_counts
  read_loop-Opens (interrupted ∷ answers) malloc_ok client calls =
      read_loop-Opens answers malloc_ok client calls
  read_loop-Opens (failed ∷ answers) malloc_ok client calls =
      Opens-step calls
        (read_loop js C rb api heartbeat_cb answers malloc_ok client (calls ++ connect_later ∷ []))
        (read_loop-Opens answers malloc_ok client (calls ++ connect_later ∷ []))

  pub client_readio_cb-Kept :
      (answers : List ReadAnswer) (malloc_ok : Bool) (g : Global js C rb api heartbeat_cb)
      → Whole g
      → Kept g (client_readio_cb js C rb api heartbeat_cb answers malloc_ok g)
  unfolding client_readio_cb
  client_readio_cb-Kept answers malloc_ok g w = elim (Option-cases g.msg_client) [
    | inl e ↦ rw (client_readio_cb, e) (refl, w)
    | inr (client, e) ↦
        let quiet = read_loop-Opens answers malloc_ok client [] in
        let there : Option (MsgClient js C rb api) → Type 0 =
          λ o. is_watched js C rb api heartbeat_cb g ≡ (elim o [ none ↦ false | some c ↦ true ]) in
        elim (Option-cases (read_loop js C rb api heartbeat_cb answers malloc_ok client [])) [
          | inl r ↦ rw (client_readio_cb, e, r) tt
          | inr ((client', calls), r) ↦
              let (o, c) = subst (Opens []) r quiet in
              rw (client_readio_cb, e, r) (omega arith, (subst there e w.0, w.1))
        ]
  ]
