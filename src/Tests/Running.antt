-- ===== src/Tests/Running.antt =====
-- The daemon's start with a configuration of two tasks, and getRandom.
use task_monitor.Base.{
  ◌≡◌, refl, ℕ, ◌+◌, [], ◌∷◌, true, false, some, pos, arith, length, ok_code, ℤ, to_u32,
}
use task_monitor.Json.{codes, same_name}
use task_monitor.Config.{entry_node, new_entry}
use task_monitor.Config.Loading.{read_config}
use task_monitor.Core.{Core, Fresh}
use task_monitor.Main.{main, returned}
use task_monitor.Main.Blank.{all_blank}
use task_monitor.Main.Starting.{main-starts_blank}
use task_monitor.Tests.Instances.{plain_list-IsListApi}
use task_monitor.Tests.Configuring.{js, api, memory}
use task_monitor.Tests.Tasks.{idle_task, empty_core}

abbrev to_uint : ℤ → ℕ
to_uint z = to_u32 z

abbrev fresh : ℕ → Fresh
fresh i = record { raw = idle_task; timer = some i; child = pos (100 + i) }

reads_file :
    read_config js api memory (codes "{}")
    ≡ some (10, pos 2, new_entry js 0 (pos 5) ∷ new_entry js 1 (pos 7) ∷ [])
unfolding read_config same_name to_u32
reads_file = refl

main-starts_blank_example :
    (core : Core) × (main js api to_uint memory true
        (some (codes "{}"))
        ((1, false) ∷ (5, false) ∷ [])
        true
        (some 2)
        fresh
        empty_core
      ≡ some (returned ok_code, core))
    × (length core.task_list ≡ 2)
    × (all_blank core.task_list ≡ true)
main-starts_blank_example =
    main-starts_blank js api (plain_list-IsListApi (entry_node js)) to_uint memory (codes "{}")
      ((1, false) ∷ (5, false) ∷ []) 2 fresh empty_core 10 (pos 2)
      (new_entry js 0 (pos 5) ∷ new_entry js 1 (pos 7) ∷ []) refl (omega arith) (omega arith)
      reads_file ((0, refl), ((1, refl), tt)) refl refl
