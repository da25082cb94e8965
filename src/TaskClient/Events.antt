-- ===== src/TaskClient/Events.antt =====
-- The connection of src/task_client.cpp over any attempts to connect, reads and heartbeats.
use task_monitor.Base.{
  ◌+◌, ◌≡◌, refl, true, pos, subst, List, [], ◌∷◌, ◌++◌, Bool, Option, none, some, arith, ℤ,
  Option-cases, inl, inr,
}
use task_monitor.Ring.{RingBuf}
use task_monitor.ListApi.{ListApi}
use task_monitor.Json.{Json, Alloc}
use task_monitor.Sys.{SysCall, is_positive}
use task_monitor.Sys.Descriptors.{opens, closes, descriptor_counts}
use task_monitor.Client.{MsgRequest, Grant}
use task_monitor.TaskObjClient.{ReadAnswer}
use task_monitor.TaskClient.{
  TaskClient, Made, Answers, client_readio_cb, connect_server_event_cb, heartbeat_timer_cb,
}
use task_monitor.TaskClient.Connecting.{
  held, IsWhole, Kept, connect_server_event_cb-Kept, client_readio_cb-Kept,
  heartbeat_timer_cb-IsWhole,
}

module _ (js : Json) (C : Type 0) (rb : RingBuf) (api : ListApi (MsgRequest js C))
    (heartbeat_cb : C) where
  abbrev Global : Type 0
  Global = TaskClient js C rb api heartbeat_cb

  -- What may happen to the library: an attempt to connect, the heartbeat timer, something to read.
  pub data Event : Type 0 where
    connects : Answers js C rb api heartbeat_cb → Event
    beats : Grant js C rb api → Alloc → ℤ → Event
    reads : List ReadAnswer → Bool → Event

  abbrev with_none : Option Global → Option (Made js C rb api heartbeat_cb)
  with_none none = none
  with_none (some g) = some (g, [])

  unfoldable pub run_event : Event → Global → Option (Made js C rb api heartbeat_cb)
  run_event (connects a) g = connect_server_event_cb js C rb api heartbeat_cb a g
  run_event (beats grant alloc my_pid) g =
      with_none (heartbeat_timer_cb js C rb api heartbeat_cb grant alloc my_pid g)
  run_event (reads answers malloc_ok) g =
      client_readio_cb js C rb api heartbeat_cb answers malloc_ok g

  unfoldable pub run_events : List Event → Global → Option (Made js C rb api heartbeat_cb)
  run_events [] g = some (g, [])
  run_events (e ∷ es) g = elim (run_event e g) [
    | none ↦ none
    | some (g', calls) ↦ elim (run_events es g') [
      | none ↦ none
      | some (g'', calls') ↦ some (g'', calls ++ calls')
    ]
  ]

  module _ (d : ℤ) (h : is_positive d ≡ true) where
    run_event-Kept :
        (e : Event) (g : Global)
        → IsWhole js C rb api heartbeat_cb g
        → Kept js C rb api heartbeat_cb d h g (run_event e g)
    unfolding run_event
    run_event-Kept (connects a) g w = connect_server_event_cb-Kept js C rb api heartbeat_cb d h a g
    run_event-Kept (reads answers malloc_ok) g w =
        client_readio_cb-Kept js C rb api heartbeat_cb d h answers malloc_ok g w
    run_event-Kept (beats grant alloc my_pid) g w =
        elim (Option-cases (heartbeat_timer_cb js C rb api heartbeat_cb grant alloc my_pid g)) [
          | inl e ↦ rw (run_event, e) tt
          | inr (g', e) ↦
              let (w', same) =
                heartbeat_timer_cb-IsWhole js C rb api heartbeat_cb d h grant alloc my_pid g g' w
                  e in
              rw (run_event, e) (omega arith, w')
        ]

    run_events-Kept :
        (es : List Event) (g : Global)
        → IsWhole js C rb api heartbeat_cb g
        → Kept js C rb api heartbeat_cb d h g (run_events es g)
    unfolding run_events
    run_events-Kept [] g w = (omega arith, w)
    run_events-Kept (e ∷ es) g w =
        let first = run_event-Kept e g w in
        elim (Option-cases (run_event e g)) [
          | inl n ↦ rw (run_events, n) tt
          | inr ((g', calls), n) ↦
              let (kept, w') = subst (Kept js C rb api heartbeat_cb d h g) n first in
              let rest = run_events-Kept es g' w' in
              elim (Option-cases (run_events es g')) [
                | inl m ↦ rw (run_events, n, m) tt
                | inr ((g'', calls'), m) ↦
                    let (kept', w'') = subst (Kept js C rb api heartbeat_cb d h g') m rest in
                    rw (run_events, n, m) (omega descriptor_counts, w'')
              ]
        ]

  -- Over any attempts to connect, heartbeats and reads, whatever fails in them: for each descriptor
  -- above 0, how often it was opened, and once more if the library held it at first, is how often it
  -- was closed, and once more if the library holds it at the end. And if the watch and the client
  -- are there together at first, and are there if a descriptor above 0 is held, it is so at the end.
  pub run_events-keeps :
      (es : List Event) (g g' : Global) (calls : List SysCall)
      → IsWhole js C rb api heartbeat_cb g
      → run_events es g ≡ some (g', calls)
      → ((d : ℤ)
          → is_positive d ≡ true
          → opens d calls + held js C rb api heartbeat_cb d g
            ≡ closes d calls + held js C rb api heartbeat_cb d g')
        × IsWhole js C rb api heartbeat_cb g'
  run_events-keeps es g g' calls w e = (
    λ d h. (subst (Kept js C rb api heartbeat_cb d h g) e (run_events-Kept d h es g w)).0,
    (subst (Kept js C rb api heartbeat_cb (pos 1) refl g) e
        (run_events-Kept (pos 1) refl es g w)).1,
  )
