-- ===== src/Main/Starting.antt =====
-- The tasks that src/task_main.cpp starts with.
use task_monitor.Base.{
  ℕ, suc, ◌≡◌, refl, ◌∙◌, ap, subst, List, [], ◌∷◌, Bool, true, Option, some, ok_code, length, ◌≤◌,
  ◌<◌, ◌+◌, u32_mod, ℤ, none,
}
use task_monitor.Json.{Json}
use task_monitor.ListApi.{ListApi, IsListApi}
use task_monitor.Config.{TaskEntry, TaskConfig, entry_node, parse_config_file, empty_config}
use task_monitor.Config.Loading.{
  is_nameless, is_blank, is_steady, Loads, read_config, parse_config_file-Loads,
  parse_config_file-Nameless, Nameless, task_config_init-returns,
}
use task_monitor.Core.{Core, Fresh}
use task_monitor.Core.Events.{run_events}
use task_monitor.Core.Counting.{query_all-after_start}
use task_monitor.Main.{returned, with_fresh, inst_init_cb, main}
use task_monitor.Main.Blank.{
  all_blank, AllBlank, BlankResult, HasTimers, is_blank-nil, nameless_parts, task_core_init-Blank,
  task_core_init-made,
}

runs_none : (core : Core) → run_events [] core ≡ some core
unfolding run_events
runs_none core = refl

module _ (js : Json) (api : ListApi (TaskEntry js)) where
  open js use {Double}

  with_fresh-AllBlank :
      (fresh : ℕ → Fresh) (to_uint : Double → ℕ) (i : ℕ) (es : List (TaskEntry js))
      → is_nameless js api es ≡ true
      → AllBlank (with_fresh js fresh to_uint i es)
  with_fresh-AllBlank fresh to_uint i [] h = tt
  with_fresh-AllBlank fresh to_uint i (e ∷ es) h =
      let (name, path, param, rest) =
        nameless_parts (is_blank e.name) (is_blank e.path) (is_blank e.param)
          (is_nameless js api es) h in
      (
        (is_blank-nil e.name name, is_blank-nil e.path path, is_blank-nil e.param param),
        with_fresh-AllBlank fresh to_uint (suc i) es rest,
      )

  length-with_fresh :
      (fresh : ℕ → Fresh) (to_uint : Double → ℕ) (i : ℕ) (es : List (TaskEntry js))
      → length (with_fresh js fresh to_uint i es) ≡ length es
  length-with_fresh fresh to_uint i [] = refl
  length-with_fresh fresh to_uint i (e ∷ es) = ap suc (length-with_fresh fresh to_uint (suc i) es)

  -- task_core_init with these entries, from empty lists.
  inst_init_cb-starts :
      (to_uint : Double → ℕ) (h : ℕ) (fresh : ℕ → Fresh) (cfg : TaskConfig js api) (start : Core)
      → let es = api.entries cfg.list in
        is_nameless js api es ≡ true
        → HasTimers (with_fresh js fresh to_uint 0 es)
        → start.task_list ≡ []
        → start.task_count ≡ 0
        → (core : Core) × (inst_init_cb js api to_uint (some h) fresh cfg start ≡ some core)
          × (length core.task_list ≡ length es)
          × (all_blank core.task_list ≡ true)
  unfolding inst_init_cb
  inst_init_cb-starts to_uint h fresh cfg start nameless timers none_yet zero_count =
      let es = api.entries cfg.list in
      let ps = with_fresh js fresh to_uint 0 es in
      let (core, made) = task_core_init-made h ps start timers in
      let counted =
        query_all-after_start h ps start core core [] none_yet zero_count made (runs_none core) in
      let still =
        task_core_init-Blank (some h) ps start (with_fresh-AllBlank fresh to_uint 0 es nameless)
          (rw none_yet refl) in
      (
        core,
        rw (inst_init_cb, made) refl,
        counted.0 ∙ length-with_fresh fresh to_uint 0 es,
        subst BlankResult made still,
      )

  -- What a text that is a configuration was loaded as.
  loaded_config :
      (max_tasks : ℕ) (intvl : Double) {es : List (TaskEntry js)}
      (r : Option (ℤ × TaskConfig js api))
      → Loads js api (some (max_tasks, intvl, es)) (empty_config js api) r
      → Nameless js api r
      → (cfg : TaskConfig js api) × (r ≡ some (ok_code, cfg))
        × (api.entries cfg.list ≡ es)
        × (is_nameless js api (api.entries cfg.list) ≡ true)
  loaded_config max_tasks intvl none loads nameless = absurd loads
  loaded_config max_tasks intvl (some (ret, cfg)) (ok, _, _, listed) nameless =
      (cfg, ap (λ z. some (z, cfg)) ok, listed, nameless)

  -- The daemon starts: if the file is shorter than 2^32 - 1 bytes, is read to its end and is a
  -- configuration, and each task gets a timer, `main` comes to 0, with one task for each item of the
  -- file. And each of the tasks has an empty name, an empty path and an empty parameter, whatever the
  -- file says.
  pub main-starts_blank :
      (lib : IsListApi (entry_node js) api) (to_uint : Double → ℕ) (memory : ℕ → Option ℕ)
      (file : List ℕ) (answers : List (ℕ × Bool)) (h : ℕ) (fresh : ℕ → Fresh) (start : Core)
      (max_tasks : ℕ) (intvl : Double) (es : List (TaskEntry js))
      → is_steady js api answers ≡ true
      → length file + 1 < u32_mod
      → length file ≤ length answers
      → read_config js api memory file ≡ some (max_tasks, intvl, es)
      → HasTimers (with_fresh js fresh to_uint 0 es)
      → start.task_list ≡ []
      → start.task_count ≡ 0
      → (core : Core) × (main js api to_uint memory true
            (some file)
            answers
            true
            (some h)
            fresh
            start
          ≡ some (returned ok_code, core))
        × (length core.task_list ≡ length es)
        × (all_blank core.task_list ≡ true)
  unfolding main
  main-starts_blank lib to_uint memory file answers h fresh start max_tasks intvl es steady short
        enough reads timers none_yet zero_count =
      let old = empty_config js api in
      let (cfg, parsed, all, nameless) =
        loaded_config max_tasks intvl (parse_config_file js api memory file old)
          (subst (λ o. Loads js api o old (parse_config_file js api memory file old)) reads
            (parse_config_file-Loads js api lib memory file old lib.entries_init))
          (parse_config_file-Nameless js api lib memory file) in
      let (core, inits, count, still) =
        inst_init_cb-starts to_uint h fresh cfg start nameless (rw all timers) none_yet
          zero_count in
      (
        core,
        rw
            (
              main,
              task_config_init-returns js api memory file answers steady short enough,
              parsed,
              inits,
            )
            refl,
        count ∙ ap length all,
        still,
      )
