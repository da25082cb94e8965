-- ===== src/Config/Loading.antt =====
-- What parse_config_file and task_config_init of src/task_config.cpp do to the configuration.
use task_monitor.Base.{
  ℕ, zero, suc, ◌≡◌, refl, ◌∙◌, ap, sym, subst, List, [], ◌∷◌, ◌++◌, Option, none, some, Bool, true,
  false, Option-cases, inl, inr, ℤ, ok_code, fail_code, length, append-nil, ◌≤◌, ◌<◌, ◌+◌, ◌-◌, min,
  arith, take_all, ltb, ◌==◌, Bool-cases, ◌&&◌, ◌||◌, ◌%◌, ◌^◌, leb, u32_mod, to_u32, if◌then◌else◌,
  not, ◌≢◌,
}
use task_monitor.Json.{Json, codes}
use task_monitor.ListApi.{ListApi, IsListApi}
use task_monitor.Config.{
  TaskEntry, TaskConfig, entry_node, parse_tasks, move_all, header_of, parse_config_file,
  finish_parse, set_global_config, read_loop, task_config_init, empty_config,
}
use task_monitor.Config.Parsing.{
  rev_onto, rev_onto-rev, has, task_heartbeat, read_entries, add_each, entries-add_each,
  move_all-adds, Follows, parse_tasks-Follows,
}

steady_head :
    (n : ℕ) (eof rest : Bool)
    → (((ltb 0 n && ltb n (2 ^ 31)) && not eof) && rest) ≡ true
    → (0 < n) × (n < 2 ^ 31) × (eof ≡ false) × (rest ≡ true)
steady_head n eof rest h = ground arith

given : (n : ℕ) → 0 < n → n < 2 ^ 31 → ((n == 0) || leb (2 ^ 31) n) ≡ false
given n h k = ground arith

fits : (room n : ℕ) → n ≤ room → ltb room n ≡ false
fits room n h = ground arith

==→eq : (m n : ℕ) → (m == n) ≡ true → m ≡ n
==→eq m n h = ground arith

==→ne : (m n : ℕ) → (m == n) ≡ false → m ≢ n
==→ne m n h = ground arith

abbrev pub is_blank : List ℕ → Bool
is_blank [] = true
is_blank (c ∷ cs) = false

module _ (js : Json) (api : ListApi (TaskEntry js)) where
  open js use {Value, Double}

  -- The limits and the tasks of a root: the first two items must be numbers.
  unfoldable pub config_items : Value → Option (ℕ × Double × Value)
  config_items root =
      if has js api js.is_number (codes "maxTasks") root
        && has js api js.is_number (codes "queryInterval") root
      then elim (js.get_object_item root (codes "maxTasks")) [
        | none ↦ none
        | some max_tasks ↦ elim (js.get_object_item root (codes "queryInterval")) [
          | none ↦ none
          | some intvl ↦ elim (js.get_object_item root (codes "tasks")) [
            | none ↦ none
            | some tasks ↦ some (to_u32 (js.valueint max_tasks), js.valuedouble intvl, tasks)
          ]
        ]
      ]
      else none

  header_of-items : (root : Value) → header_of js api root ≡ config_items root
  unfolding config_items
  header_of-items root = ground arith

  -- The configuration that a text stands for.
  unfoldable pub read_config : (ℕ → Option ℕ) → List ℕ → Option (ℕ × Double × List (TaskEntry js))
  unfolding read_entries config_items
  read_config memory buf = elim (js.parse buf) [
    | none ↦ none
    | some root ↦ elim (config_items root) [
      | none ↦ none
      | some (max_tasks, intvl, tasks) ↦
          elim (read_entries js api memory tasks 0 (js.get_array_size tasks)) [
            | none ↦ none
            | some es ↦ some (max_tasks, intvl, es)
          ]
    ]
  ]

  -- The code 0 and the configuration that was read; or -1 and the old configuration.
  abbrev pub Loads :
      Option (ℕ × Double × List (TaskEntry js))
      → TaskConfig js api
      → Option (ℤ × TaskConfig js api)
      → Type 0
  Loads read cfg none = ⊥
  Loads none cfg (some (ret, cfg')) =
      (ret ≡ fail_code)
      × (cfg'.max_tasks ≡ cfg.max_tasks)
      × (cfg'.query_intvl ≡ cfg.query_intvl)
      × (cfg'.list ≡ cfg.list)
  Loads (some (max_tasks, intvl, es)) cfg (some (ret, cfg')) =
      (ret ≡ ok_code)
      × (cfg'.max_tasks ≡ max_tasks)
      × (cfg'.query_intvl ≡ intvl)
      × (api.entries cfg'.list ≡ es)

  module _ (lib : IsListApi (entry_node js) api) where
    moved_entries :
        (es : List (TaskEntry js)) (to : api.Head)
        → let tmp = add_each js api es api.init_list_head in
          api.entries (move_all js api (api.entries tmp) tmp to).1 ≡ es ++ api.entries to
    moved_entries es to =
        let tmp = add_each js api es api.init_list_head in
        let back : api.entries tmp ≡ rev_onto es [] =
          entries-add_each js api lib es api.init_list_head ∙ ap (rev_onto es) lib.entries_init in
        ap api.entries (move_all-adds js api (api.entries tmp) tmp to)
        ∙ entries-add_each js api lib (api.entries tmp) to
        ∙ ap (λ xs. rev_onto xs (api.entries to)) back
        ∙ rev_onto-rev es [] (api.entries to)

    parsed-Loads :
        (max_tasks : ℕ) (intvl : Double) (cfg : TaskConfig js api)
        → api.entries cfg.list ≡ []
        → (es : List (TaskEntry js))
        → Loads
            (some (max_tasks, intvl, es))
            cfg
            (finish_parse js api max_tasks intvl (add_each js api es api.init_list_head, true) cfg)
    unfolding finish_parse set_global_config
    parsed-Loads max_tasks intvl cfg empty es =
        rw (finish_parse, set_global_config, empty)
          (refl, refl, refl, moved_entries es cfg.list ∙ ap (λ xs. es ++ xs) empty ∙ append-nil es)

    finish_parse-Loads :
        (max_tasks : ℕ) (intvl : Double) (r : api.Head × Bool) (cfg : TaskConfig js api)
        → api.entries cfg.list ≡ []
        → (o : Option (List (TaskEntry js))) → Follows js api api.init_list_head o r
        → Loads
            (elim o [ none ↦ none | some es ↦ some (max_tasks, intvl, es) ])
            cfg
            (finish_parse js api max_tasks intvl r cfg)
    unfolding finish_parse set_global_config
    finish_parse-Loads max_tasks intvl (tmp, ok) cfg empty none h = rw h (refl, refl, refl, refl)
    finish_parse-Loads max_tasks intvl r cfg empty (some es) h =
        subst
          (λ r. Loads (some (max_tasks, intvl, es)) cfg (finish_parse js api max_tasks intvl r cfg))
          (sym h) (parsed-Loads max_tasks intvl cfg empty es)

    -- Where no tasks were loaded before, a text is loaded with the code 0 if its root has the numbers
    -- "maxTasks" and "queryInterval" and an item "tasks", and each item of that has the strings
    -- "name", "path" and "param" and the number "heartbeat", and there is memory for each. The limits
    -- are then those of the text, and the tasks stand in the list in the order of the text, with
    -- their heartbeats, but their names, paths and parameters empty. Any other text, and a lack of
    -- memory, is refused with -1, and the configuration stays as it was.
    pub parse_config_file-Loads :
        (memory : ℕ → Option ℕ) (buf : List ℕ) (cfg : TaskConfig js api)
        → api.entries cfg.list ≡ []
        → Loads (read_config memory buf) cfg (parse_config_file js api memory buf cfg)
    unfolding parse_config_file read_config
    parse_config_file-Loads memory buf cfg empty = elim (Option-cases (js.parse buf)) [
      | inl e ↦ rw (read_config, parse_config_file, e) (refl, refl, refl, refl)
      | inr (root, e) ↦ elim (Option-cases (config_items root)) [
        | inl h ↦
            rw (read_config, parse_config_file, e, header_of-items root, h) (refl, refl, refl, refl)
        | inr ((max_tasks, intvl, tasks), h) ↦
            let size = js.get_array_size tasks in
            rw (read_config, parse_config_file, e, header_of-items root, h)
              (finish_parse-Loads max_tasks intvl
                (parse_tasks js api memory tasks 0 size api.init_list_head) cfg empty
                (read_entries js api memory tasks 0 size)
                (parse_tasks-Follows js api memory tasks 0 size api.init_list_head))
      ]
    ]

  -- Every read gives something, and less than 2 GB, before the end of the file.
  abbrev pub is_steady : List (ℕ × Bool) → Bool
  is_steady [] = true
  is_steady ((n, eof) ∷ answers) = ((ltb 0 n && ltb n (2 ^ 31)) && not eof) && is_steady answers

  read_loop-all :
      (answers : List (ℕ × Bool)) (filesize room read_len : ℕ)
      → is_steady answers ≡ true
      → filesize ≤ room
      → read_len ≤ filesize
      → filesize - read_len ≤ length answers
      → read_loop js api filesize room answers read_len ≡ some (some filesize)
  unfolding read_loop
  read_loop-all [] filesize room read_len s r h k = ground arith
  read_loop-all ((n, eof) ∷ answers) filesize room read_len s r h k =
      let ret = min n (filesize - read_len) in
      let (some_bytes, few, more, later) = steady_head n eof (is_steady answers) s in
      elim (Bool-cases (read_len == filesize)) [
        | inl e ↦ rw (read_loop, e) (ap (λ m. some (some m)) (==→eq read_len filesize e))
        | inr e ↦
            let ne = ==→ne read_len filesize e in
            rw
              (
                read_loop,
                e,
                fits room (read_len + ret) (omega arith),
                given ret (omega arith) (omega arith),
                more,
              )
              (read_loop-all answers filesize room (read_len + ret) later r (omega arith)
                (omega arith))
      ]

  small : (n : ℕ) → n + 1 < u32_mod → (n % u32_mod ≡ n) × (n ≤ (n % u32_mod + 1) % u32_mod)
  small n h = (omega arith, omega arith)

  -- A file of less than 2^32 - 1 bytes is read whole, if there is memory: once the system gives at
  -- least one byte and less than 2^31 at each read before the end of the file, and there are as many
  -- reads as the file has bytes, task_config_init does to its text what parse_config_file does.
  pub task_config_init-returns :
      (memory : ℕ → Option ℕ) (file : List ℕ) (answers : List (ℕ × Bool))
      → is_steady answers ≡ true
      → length file + 1 < u32_mod
      → length file ≤ length answers
      → task_config_init js api memory true (some file) answers
        ≡ parse_config_file js api memory file (empty_config js api)
  unfolding task_config_init
  task_config_init-returns memory file answers s short h =
      let (same, room) = small (length file) short in
      let filesize = length file % u32_mod in
      rw
        (
          task_config_init,
          read_loop-all answers filesize ((filesize + 1) % u32_mod) 0 s (omega (arith, room, same))
              (omega arith) (omega (arith, same)),
          take_all filesize file (omega (arith, same)),
        )
        refl

  -- Whether all entries have an empty name, path and parameter.
  abbrev pub is_nameless : List (TaskEntry js) → Bool
  is_nameless [] = true
  is_nameless (e ∷ es) =
      ((is_blank e.name && is_blank e.path) && is_blank e.param) && is_nameless es

  abbrev Blank : Option (List (TaskEntry js)) → Type 0
  Blank none = Unit
  Blank (some es) = is_nameless es ≡ true

  read_entries-Blank :
      (memory : ℕ → Option ℕ) (list : Value) (i left : ℕ)
      → Blank (read_entries js api memory list i left)
  unfolding read_entries
  read_entries-Blank memory list i zero = refl
  read_entries-Blank memory list i (suc left) = elim (Option-cases (memory i)) [
    | inl e ↦ rw (read_entries, e) tt
    | inr (node, e) ↦ elim (Option-cases (task_heartbeat js api (js.get_array_item list i))) [
      | inl p ↦ rw (read_entries, e, p) tt
      | inr (hb, p) ↦
          let rest = read_entries-Blank memory list (suc i) left in
          elim (Option-cases (read_entries js api memory list (suc i) left)) [
            | inl q ↦ rw (read_entries, e, p, q) tt
            | inr (es, q) ↦ rw (read_entries, e, p, q) (subst Blank q rest)
          ]
    ]
  ]

  abbrev BlankConfig : Option (ℕ × Double × List (TaskEntry js)) → Type 0
  BlankConfig none = Unit
  BlankConfig (some (max_tasks, intvl, es)) = is_nameless es ≡ true

  read_config-BlankConfig :
      (memory : ℕ → Option ℕ) (buf : List ℕ) → BlankConfig (read_config memory buf)
  unfolding read_config
  read_config-BlankConfig memory buf = elim (Option-cases (js.parse buf)) [
    | inl e ↦ rw (read_config, e) tt
    | inr (root, e) ↦ elim (Option-cases (config_items root)) [
      | inl h ↦ rw (read_config, e, h) tt
      | inr ((max_tasks, intvl, tasks), h) ↦
          let size = js.get_array_size tasks in
          let rest = read_entries-Blank memory tasks 0 size in
          elim (Option-cases (read_entries js api memory tasks 0 size)) [
            | inl q ↦ rw (read_config, e, h, q) tt
            | inr (es, q) ↦ rw (read_config, e, h, q) (subst Blank q rest)
          ]
    ]
  ]

  abbrev pub Nameless : Option (ℤ × TaskConfig js api) → Type 0
  Nameless none = Unit
  Nameless (some (ret, cfg)) = is_nameless (api.entries cfg.list) ≡ true

  loaded-Nameless :
      (o : Option (ℕ × Double × List (TaskEntry js))) (r : Option (ℤ × TaskConfig js api))
      → api.entries (empty_config js api).list ≡ []
      → BlankConfig o
      → Loads o (empty_config js api) r
      → Nameless r
  loaded-Nameless o none empty b h = tt
  loaded-Nameless none (some (ret, cfg)) empty b (_, _, _, same) = rw (same, empty) refl
  loaded-Nameless (some (max_tasks, intvl, es)) (some (ret, cfg)) empty b (_, _, _, listed) =
      ap is_nameless listed ∙ b

  -- Whatever text is parsed into the empty configuration, each task that is then in it has an empty
  -- name, an empty path and an empty parameter.
  pub parse_config_file-Nameless :
      (lib : IsListApi (entry_node js) api) (memory : ℕ → Option ℕ) (buf : List ℕ)
      → Nameless (parse_config_file js api memory buf (empty_config js api))
  parse_config_file-Nameless lib memory buf =
      loaded-Nameless (read_config memory buf)
        (parse_config_file js api memory buf (empty_config js api)) lib.entries_init
        (read_config-BlankConfig memory buf)
        (parse_config_file-Loads lib memory buf (empty_config js api) lib.entries_init)
