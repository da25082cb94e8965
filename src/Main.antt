-- ===== src/Main.antt =====
-- src/task_main.cpp: the daemon's start, from the configuration file to the running tasks.
pub mod Blank
pub mod Starting
use task_monitor.Base.{
  ℕ, suc, List, [], ◌∷◌, Bool, Option, none, some, if◌then◌else◌, ℤ, ok_code, fail_code, is_zero,
}
use task_monitor.Json.{Json}
use task_monitor.ListApi.{ListApi}
use task_monitor.Config.{TaskEntry, TaskConfig, task_config_init}
use task_monitor.Core.{Core, Fresh, TaskParm, task_core_init}

module _ (js : Json) where
  open js use {Double}

  -- How `main` ends: without a value, or with one.
  pub data Ending : Type 0 where
    no_value : Ending
    returned : ℤ → Ending

  -- The argument of task_param_cb. `to_uint` is the conversion of a `double` to `uint32_t`.
  abbrev pub parm_of : (Double → ℕ) → TaskEntry js → TaskParm
  parm_of to_uint e = record {
    name = e.name;
    path = e.path;
    param = e.param;
    heartbeat = to_uint e.heartbeat;
  }

  -- Each configured task, with what the system answers while it is made.
  abbrev pub with_fresh :
      (ℕ → Fresh) → (Double → ℕ) → ℕ → List (TaskEntry js) → List (Fresh × TaskParm)
  with_fresh fresh to_uint i [] = []
  with_fresh fresh to_uint i (e ∷ es) =
      (fresh i, parm_of to_uint e) ∷ with_fresh fresh to_uint (suc i) es

  module _ (api : ListApi (TaskEntry js)) where
    -- inst_init_cb, in the loop that libev_api_inst_start runs: the result of task_core_init is not
    -- looked at.
    unfoldable pub inst_init_cb :
        (Double → ℕ) → Option ℕ → (ℕ → Fresh) → TaskConfig js api → Core → Option Core
    unfolding task_core_init
    inst_init_cb to_uint timer fresh cfg core =
        elim (task_core_init timer (with_fresh fresh to_uint 0 (api.entries cfg.list)) core) [
          | none ↦ none
          | some (ret, core') ↦ some core'
        ]

    -- `inst_ok` says whether libev_api_inst_create gives an instance.
    unfoldable pub main :
        (Double → ℕ)
        → (ℕ → Option ℕ)
        → Bool
        → Option (List ℕ)
        → List (ℕ × Bool)
        → Bool
        → Option ℕ
        → (ℕ → Fresh)
        → Core
        → Option (Ending × Core)
    unfolding task_config_init inst_init_cb
    main to_uint memory buf_ok file answers inst_ok timer fresh core =
        elim (task_config_init js api memory buf_ok file answers) [
          | none ↦ none
          | some (ret, cfg) ↦
              if is_zero ret
              then if inst_ok
                then elim (inst_init_cb to_uint timer fresh cfg core) [
                  | none ↦ none
                  | some core' ↦ some (returned ok_code, core')
                ]
                else some (returned fail_code, core)
              else some (no_value, core)
        ]
