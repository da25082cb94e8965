-- ===== src/Tests/Tool.antt =====
-- src/task_cli.cpp at concrete options.
use task_monitor.Base.{◌≡◌, ◌⊎◌, ◌<◌, refl, ℕ, zero, suc, List, [], true, false, none, some, pos, ℤ}
use task_monitor.Json.{codes}
use task_monitor.ListApi.{ListApi}
use task_monitor.Json.{Json}
use task_monitor.Client.{MsgRequest, node_of}
use task_monitor.TaskCli.{
  CliCb, Answers, main, still_parsing, exit_with, take_option, MsgData, Opt, is_end,
}
use task_monitor.TaskCli.Options.{main-never_connects}
use task_monitor.Tests.Instances.{obj, end, tree_json, byte_ring, plain_list}

-- -l -p 42
abbrev getopt : ℕ → Opt
getopt zero = Opt.list_opt
getopt (suc zero) = Opt.pid_opt (codes "42")
getopt _ = Opt.at_end

abbrev atoi : List ℕ → ℤ
atoi s = pos 42

never_zero : (i : ℕ) → is_end (getopt i) ≡ false
never_zero zero = refl
never_zero (suc zero) = refl
never_zero (suc (suc i)) = refl

abbrev js : Json
js = tree_json (obj end)

abbrev requests : ListApi (MsgRequest js CliCb)
requests = plain_list (node_of js CliCb)

abbrev answers : Answers js byte_ring requests
answers = record {
  fd = pos 7;
  connected = pos 0;
  peer = record { answers = []; sent = [] };
  garbage = 0;
  io_ok = true;
}

main-never_connects_example :
    let ending =
      main js byte_ring requests atoi getopt 5 true answers
        (record { node = some 1; timer = some 2; now = pos 0 })
        (λ n. true)
        (pos 0) in
    (ending ≡ still_parsing)
    ⊎ ((j : ℕ) × (d : MsgData) × (j < 5)
        × (take_option atoi (getopt j) d ≡ none)
        × (ending ≡ exit_with 1))
main-never_connects_example =
    main-never_connects js byte_ring requests atoi getopt 5 true answers
      (record { node = some 1; timer = some 2; now = pos 0 }) (λ n. true) (pos 0) never_zero
