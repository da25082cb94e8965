-- ===== src/TaskObjClient/Closing.antt =====
-- The descriptor of a TaskObjClient over its life, src/TaskObjClient.cpp.
use task_monitor.Base.{
  ℕ, ◌+◌, ◌≡◌, refl, subst, List, [], ◌∷◌, ◌++◌, Bool, true, false, Option, none, some, arith, ℤ,
  pos, fail_code, is_zero, Bool-cases, Option-cases, inl, inr,
}
use task_monitor.Ring.{RingBuf}
use task_monitor.Json.{Json}
use task_monitor.Sys.{SysCall, close, is_positive, pid_eq, one_if}
use task_monitor.Server.Dispatch.{Memory}
use task_monitor.Server.Dispatch
use task_monitor.Sys.Descriptors.{closes, closes-append}
use task_monitor.TaskObjClient.{
  TaskObjClient, Made, ReadAnswer, closed, interrupted, failed, got, Server, io_calls,
  stop_task_client, recv_data, task_read_io_cb,
}

module _ (js : Json) (rb : RingBuf) (W U : Type 0) where
  abbrev pub Client : Type 0
  Client = TaskObjClient js rb W U

  abbrev pub has_server : Client → Bool
  has_server c = elim c.msg_server [ none ↦ false | some s ↦ true ]

  -- It serves exactly while it is available, and holds no descriptor above 0 when it is not.
  abbrev pub IsLive : Client → Type 0
  IsLive c =
      (has_server c ≡ c.is_available) × (c.is_available ≡ false → is_positive c.client_fd ≡ false)

  -- Any number of calls of the read callback, then the calls of all of them.
  unfoldable pub run_reads :
      List (List ReadAnswer × Memory) → Client → W → Option (Made js rb W U × W)
  run_reads [] c w = some ((c, []), w)
  run_reads ((answers, m) ∷ rs) c w = elim (task_read_io_cb js rb W U answers m c w) [
    | none ↦ none
    | some ((c', calls), w') ↦ elim (run_reads rs c' w') [
      | none ↦ none
      | some ((c'', calls'), w'') ↦ some ((c'', calls ++ calls'), w'')
    ]
  ]

  -- Whether the client has a descriptor.
  abbrev pub held : ℤ → Client → ℕ
  held d c = one_if (pid_eq c.client_fd d)

module _ (js : Json) (rb : RingBuf) (W U : Type 0) (d : ℤ) (h : is_positive d ≡ true) where
  abbrev held_here : Client js rb W U → ℕ
  held_here c = held js rb W U d c

  abbrev Live : Client js rb W U → Type 0
  Live c = IsLive js rb W U c

  not_positive : (fd : ℤ) → is_positive fd ≡ false → one_if (pid_eq fd d) ≡ 0
  not_positive fd n = ground arith

  io_calls-closes : (io : Option ℕ) → closes d (io_calls js rb W U io) ≡ 0
  io_calls-closes none = refl
  io_calls-closes (some io) = refl

  -- What an operation does with the descriptor: it closes it once if the client no longer has it.
  abbrev pub Closing : Client js rb W U → Made js rb W U → Type 0
  Closing c (c', calls) = closes d calls + held_here c' ≡ held_here c

  stop_task_client-Closing : (c : Client js rb W U) → Closing c (stop_task_client js rb W U c)
  unfolding stop_task_client
  stop_task_client-Closing c = elim (Bool-cases (is_positive c.client_fd)) [
    | inl e ↦ rw e (
        omega (
          arith,
          closes-append d (io_calls js rb W U c.read_io) (close c.client_fd ∷ []),
          io_calls-closes c.read_io,
          not_positive fail_code refl,
        ))
    | inr e ↦ rw e (omega (arith, io_calls-closes c.read_io))
  ]

  stop_task_client-IsLive : (c : Client js rb W U) → Live (stop_task_client js rb W U c).0
  unfolding stop_task_client
  stop_task_client-IsLive c = elim (Bool-cases (is_positive c.client_fd)) [
    | inl e ↦ rw e (refl, λ n. refl)
    | inr e ↦ rw (e, e) (refl, λ n. refl)
  ]

  -- A step from a live client.
  abbrev pub Fine : Client js rb W U → Option (Made js rb W U × W) → Type 0
  Fine c none = Unit
  Fine c (some (made, w)) = Closing c made × Live made.0

  served :
      (c : Client js rb W U) (s : Server js rb W U)
      → Live c
      → c.msg_server ≡ some s
      → true ≡ c.is_available
  served c s live e =
      subst (λ o. (elim o [ none ↦ false | some s ↦ true ]) ≡ c.is_available) e live.0

  recv_data-Fine :
      (m : Memory) (buf : List ℕ) (c : Client js rb W U) (w : W)
      → Live c
      → Fine c (recv_data js rb W U m buf c w)
  unfolding recv_data
  recv_data-Fine m buf c w live = elim (Option-cases c.msg_server) [
    | inl e ↦ rw (recv_data, e) (omega arith, live)
    | inr (s, e) ↦ elim (Option-cases (Dispatch.recv_data js rb W U s m buf w)) [
      | inl f ↦ rw (recv_data, e, f) tt
      | inr ((ret, s', w'), f) ↦ elim (Bool-cases (is_zero ret)) [
        | inl z ↦ rw (recv_data, e, f, z) (omega arith, (served c s live e, live.1))
        | inr z ↦
            rw (recv_data, e, f, z)
              (
                stop_task_client-Closing (record c { msg_server = some s' }),
                stop_task_client-IsLive (record c { msg_server = some s' }),
              )
      ]
    ]
  ]

  task_read_io_cb-Fine :
      (answers : List ReadAnswer) (m : Memory) (c : Client js rb W U) (w : W)
      → Live c
      → Fine c (task_read_io_cb js rb W U answers m c w)
  unfolding task_read_io_cb
  task_read_io_cb-Fine [] m c w live = tt
  task_read_io_cb-Fine (closed ∷ answers) m c w live =
      (stop_task_client-Closing c, stop_task_client-IsLive c)
  task_read_io_cb-Fine (got buf ∷ answers) m c w live = recv_data-Fine m buf c w live
  task_read_io_cb-Fine (interrupted ∷ answers) m c w live = task_read_io_cb-Fine answers m c w live
  task_read_io_cb-Fine (failed ∷ answers) m c w live =
      (stop_task_client-Closing c, stop_task_client-IsLive c)

  run_reads-Fine :
      (rs : List (List ReadAnswer × Memory)) (c : Client js rb W U) (w : W)
      → Live c
      → Fine c (run_reads js rb W U rs c w)
  unfolding run_reads
  run_reads-Fine [] c w live = (omega arith, live)
  run_reads-Fine ((answers, m) ∷ rs) c w live =
      elim (Option-cases (task_read_io_cb js rb W U answers m c w)) [
        | inl e ↦ rw (run_reads, e) tt
        | inr (((c', calls), w'), e) ↦
            let step = subst (Fine c) e (task_read_io_cb-Fine answers m c w live) in
            let rest = run_reads-Fine rs c' w' step.1 in
            elim (Option-cases (run_reads js rb W U rs c' w')) [
              | inl f ↦ rw (run_reads, e, f) tt
              | inr (((c'', calls'), w''), f) ↦
                  let later = subst (Fine c') f rest in
                  rw (run_reads, e, f)
                    (omega (arith, closes-append d calls calls', step.0, later.0), later.1)
            ]
      ]

module _ (js : Json) (rb : RingBuf) (W U : Type 0) where
  -- However often a connection is read, and whatever the reads and the requests give, if its client
  -- is live: each descriptor above 0 is closed as often as the client held it and no longer does, so
  -- only the client's own is, and once. The client stays live: it has a server exactly while it is
  -- available, and holds no descriptor above 0 when it is not.
  pub run_reads-closes_once :
      (rs : List (List ReadAnswer × Memory)) (c c' : Client js rb W U) (calls : List SysCall)
      (w w' : W)
      → IsLive js rb W U c
      → run_reads js rb W U rs c w ≡ some ((c', calls), w')
      → ((d : ℤ) → is_positive d ≡ true → closes d calls + held js rb W U d c' ≡ held js rb W U d c)
        × IsLive js rb W U c'
  run_reads-closes_once rs c c' calls w w' live e = (
    λ d h. (subst (Fine js rb W U d h c) e (run_reads-Fine js rb W U d h rs c w live)).0,
    (subst (Fine js rb W U (pos 1) refl c) e (run_reads-Fine js rb W U (pos 1) refl rs c w live)).1,
  )
