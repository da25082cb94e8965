-- ===== src/Tests/Configuring.antt =====
-- src/task_config.cpp on a configuration with two tasks.
use task_monitor.Base.{◌≡◌, refl, ℕ, List, [], ◌∷◌, true, false, some, pos, Option, to_u32, arith}
use task_monitor.Json.{Json, codes, same_name}
use task_monitor.ListApi.{ListApi}
use task_monitor.Config.{
  TaskEntry, TaskConfig, entry_node, parse_config_file, task_config_init, new_entry, empty_config,
}
use task_monitor.Config.Loading.{
  Loads, read_config, parse_config_file-Loads, task_config_init-returns,
}
use task_monitor.Tests.Instances.{
  Tree, num, str, obj, arr, end, field, nil, cons, tree_json, plain_list, plain_list-IsListApi,
}

abbrev task : List ℕ → ℕ → Tree
task name heartbeat = obj (
    field (codes "name") (str name) (
      field (codes "path") (str (codes "/bin/x")) (
        field (codes "param") (str (codes "-v"))
          (field (codes "heartbeat") (num (pos heartbeat)) end))))

abbrev doc : Tree
doc = obj (
    field (codes "maxTasks") (num (pos 10)) (
      field (codes "queryInterval") (num (pos 2)) (
        field (codes "tasks") (arr (cons (task (codes "a") 5) (cons (task (codes "b") 7) nil)))
          end)))

abbrev pub js : Json
js = tree_json doc

abbrev pub api : ListApi (TaskEntry js)
api = plain_list (entry_node js)

abbrev pub memory : ℕ → Option ℕ
memory i = some i

abbrev old : TaskConfig js api
old = empty_config js api

abbrev pub tasks : List (TaskEntry js)
tasks = new_entry js 0 (pos 5) ∷ new_entry js 1 (pos 7) ∷ []

reads : read_config js api memory [] ≡ some (10, pos 2, tasks)
unfolding read_config same_name to_u32
reads = refl

parse_config_file-Loads_example :
    Loads js api (read_config js api memory []) old (parse_config_file js api memory [] old)
parse_config_file-Loads_example =
    parse_config_file-Loads js api (plain_list-IsListApi (entry_node js)) memory [] old refl

task_config_init-returns_example :
    task_config_init js api memory true (some (codes "{}")) ((1, false) ∷ (5, false) ∷ [])
    ≡ parse_config_file js api memory (codes "{}") old
task_config_init-returns_example =
    task_config_init-returns js api memory (codes "{}") ((1, false) ∷ (5, false) ∷ []) refl
      (omega arith) (omega arith)
