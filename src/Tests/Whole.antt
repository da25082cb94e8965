-- ===== src/Tests/Whole.antt =====
-- Both ends of the protocol at a concrete query and a concrete command.
use task_monitor.Base.{ℕ, refl, [], ◌∷◌, ◌++◌, none, some, arith, pos}
use task_monitor.Package.Frame.{frame}
use task_monitor.Json.{Json, codes}
use task_monitor.Server.{MsgServer}
use task_monitor.Core.{Core, wanted}
use task_monitor.Exchange.Asked.{single_cb, HasTask, CanServe}
use task_monitor.Tests.Instances.{
  Tree, num, str, obj, end, field, talk_json, talk_json-IsJson, byte_ring, byte_ring-IsRing,
}
use task_monitor.Tests.Serving.{steady_answers, memory}
use task_monitor.Tests.Tasks.{idle_task, busy_task, core}

-- The request for pid 42, and the reply with the task of that pid.
abbrev pub asked : Tree
asked = obj (
    field (codes "type") (num (pos 2)) (
      field (codes "data")
        (obj (field (codes "pid") (num (pos 42)) (field (codes "name") (str (codes "b")) end)))
        end))

abbrev pub answered : Tree
answered = obj (
    field (codes "ret") (num (pos 0)) (
      field (codes "data")
        (obj (
          field (codes "pid") (num (pos 42)) (
            field (codes "name") (str (codes "b")) (
              field (codes "param") (str []) (
                field (codes "status") (str (codes "running"))
                  (field (codes "heartbeat") (num (pos 0)) end))))))
        end))

abbrev pub js : Json
js = talk_json asked answered

abbrev pub server : MsgServer js byte_ring Core ℕ
server = record {
  ring = [];
  client_fd = record { answers = steady_answers 40; sent = [] };
  event_cb = record {
    heartbeat = none;
    query_all = none;
    query_task = some (single_cb js (talk_json-IsJson asked answered) byte_ring byte_ring-IsRing ℕ);
    task_action = none;
  };
  user_data = record { heartbeat = 0; query_all = 0; query_task = 0; task_action = 0 };
}

pub can_serve :
    CanServe js
      (talk_json-IsJson asked answered)
      byte_ring
      byte_ring-IsRing
      ℕ
      server
      memory
      (frame 4 (codes "q" ++ 0 ∷ []))
      (codes "a")
can_serve = record {
  registered = refl;
  memory = λ n. refl;
  package_memory = refl;
  nothing_left = refl;
  room_left = refl;
  progress = omega arith;
  enough = omega arith;
}

pub has_task :
    HasTask js (talk_json-IsJson asked answered) byte_ring byte_ring-IsRing ℕ core 42 busy_task
unfolding wanted
has_task = record { before = idle_task ∷ []; after = []; listed = refl; first = refl; hit = refl }
