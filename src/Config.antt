-- ===== src/Config.antt =====
-- src/task_config.cpp: the configuration, read from a file of JSON text.
-- cJSON and list.h are parameters. `strncmp`, which stands where a copy is meant, changes nothing;
-- `it->string` is read as the item's string, `it->double` as its number.
pub mod Parsing
pub mod Loading
use task_monitor.Base.{
  ℕ, zero, suc, ◌+◌, ◌-◌, List, [], ◌∷◌, ◌++◌, Bool, true, false, Option, none, some, if◌then◌else◌,
  ◌==◌, ◌||◌, ◌%◌, ◌^◌, ltb, leb, u32_mod, min, length, take, drop, ℤ, ok_code, fail_code, to_u32,
}
use task_monitor.Json.{Json, codes}
use task_monitor.ListApi.{ListApi}

module _ (js : Json) where
  open js use {
    Value, Double, of_int, parse, is_number, is_string, valueint, valuedouble, get_object_item,
    get_array_size, get_array_item,
  }

  -- taskParm_t: `node` is its address.
  pub record TaskEntry : Type 0 where
    pub node : ℕ
    pub name : List ℕ
    pub path : List ℕ
    pub param : List ℕ
    pub heartbeat : Double

  abbrev pub entry_node : TaskEntry → ℕ
  entry_node e = e.node

  -- A field that must be there with its type.
  abbrev pub field_of : (Value → Bool) → Value → List ℕ → Option Value
  field_of kind v key = elim (get_object_item v key) [
    | none ↦ none
    | some it ↦ if kind it then some it else none
  ]

  infixl 5 ◌>>=◌
  abbrev pub ◌>>=◌ : {A B : Type 0} → Option A → (A → Option B) → Option B
  none >>= f = none
  some a >>= f = f a

  -- The body of the loop after list_add: the heartbeat of the item, if all its fields are right.
  unfoldable pub parse_entry : Option Value → Option Double
  parse_entry item = do
    v ← item
    name ← field_of is_string v (codes "name")
    path ← field_of is_string v (codes "path")
    param ← field_of is_string v (codes "param")
    heartbeat ← field_of is_number v (codes "heartbeat")
    some (valuedouble heartbeat)

  -- A new entry, as memset leaves its strings.
  abbrev pub new_entry : ℕ → Double → TaskEntry
  new_entry node heartbeat = record {
    node = node;
    name = [];
    path = [];
    param = [];
    heartbeat = heartbeat;
  }

  module _ (api : ListApi TaskEntry) where
    open api use {Head, init_list_head, list_add, list_del, entries}

    -- taskConfig_t, and the addresses that were given back.
    pub record TaskConfig : Type 0 where
      pub max_tasks : ℕ
      pub query_intvl : Double
      pub list : Head
      pub freed : List ℕ

    unfoldable pub free_all : List TaskEntry → List ℕ → List ℕ
    free_all [] freed = freed
    free_all (e ∷ es) freed = free_all es (freed ++ e.node ∷ [])

    -- The second loop of set_global_config, over the entries of the new list.
    unfoldable pub move_all : List TaskEntry → Head → Head → Head × Head
    move_all [] from to = (from, to)
    move_all (e ∷ es) from to = move_all es (list_del e.node from) (list_add e to)

    abbrev pub is_empty : List TaskEntry → Bool
    is_empty [] = true
    is_empty (e ∷ es) = false

    -- The old entries are freed, but stay linked in the list: adding to it then writes to freed
    -- memory, which is `none`.
    unfoldable pub set_global_config : ℕ → Double → Head → TaskConfig → Option TaskConfig
    unfolding free_all move_all
    set_global_config max_tasks intvl task_list cfg =
        if is_empty (entries cfg.list) || is_empty (entries task_list)
        then some (record {
          max_tasks = max_tasks;
          query_intvl = intvl;
          list = (move_all (entries task_list) task_list cfg.list).1;
          freed = free_all (entries cfg.list) cfg.freed;
        })
        else none

    -- The loop over the items from `i`, with `left` to go: the new list, and whether all went well.
    -- An entry whose item is wrong stays in the list, with what the fields had before. `memory` is
    -- the address of the entry for an item, if there is memory.
    unfoldable pub parse_tasks : (ℕ → Option ℕ) → Value → ℕ → ℕ → Head → Head × Bool
    unfolding parse_entry
    parse_tasks memory list i zero tmp = (tmp, true)
    parse_tasks memory list i (suc left) tmp = elim (memory i) [
      | none ↦ (tmp, false)
      | some node ↦ elim (parse_entry (get_array_item list i)) [
        | none ↦ (list_add (new_entry node (of_int (ℤ.pos 0))) tmp, false)
        | some heartbeat ↦
            parse_tasks memory list (suc i) left (list_add (new_entry node heartbeat) tmp)
      ]
    ]

    -- After the loop: the new configuration, or ERROR, which frees the entries.
    unfoldable pub finish_parse : ℕ → Double → Head × Bool → TaskConfig → Option (ℤ × TaskConfig)
    unfolding set_global_config
    finish_parse max_tasks intvl (tmp, true) cfg =
        elim (set_global_config max_tasks intvl tmp cfg) [
          | none ↦ none
          | some cfg' ↦ some (ok_code, cfg')
        ]
    finish_parse max_tasks intvl (tmp, false) cfg =
        some (fail_code, record cfg { freed = free_all (entries tmp) cfg.freed })

    -- The three items of the root.
    abbrev pub header_of : Value → Option (ℕ × Double × Value)
    header_of root = do
      max_tasks ← field_of is_number root (codes "maxTasks")
      intvl ← field_of is_number root (codes "queryInterval")
      tasks ← get_object_item root (codes "tasks")
      some (to_u32 (valueint max_tasks), valuedouble intvl, tasks)

    unfoldable pub parse_config_file :
        (ℕ → Option ℕ) → List ℕ → TaskConfig → Option (ℤ × TaskConfig)
    unfolding parse_tasks finish_parse
    parse_config_file memory buf cfg = elim (parse buf) [
      | none ↦ some (fail_code, cfg)
      | some root ↦ elim (header_of root) [
        | none ↦ some (fail_code, cfg)
        | some (max_tasks, intvl, tasks) ↦
            finish_parse max_tasks intvl
              (parse_tasks memory tasks 0 (get_array_size tasks) init_list_head) cfg
      ]
    ]

    -- The reading loop of task_config_init, at `read_len` bytes of `filesize`, into a buffer of
    -- `room` bytes. An answer has the number of bytes that fread can give, and whether the end of the
    -- file shows after it; the result of fread becomes an `int`. The outer `none`: the answers ran
    -- out, or the read wrote past the buffer; the inner: a read gave nothing, or a negative number.
    unfoldable pub read_loop : ℕ → ℕ → List (ℕ × Bool) → ℕ → Option (Option ℕ)
    read_loop filesize room [] read_len =
        if read_len == filesize then some (some read_len) else none
    read_loop filesize room ((n, eof) ∷ answers) read_len =
        let ret = min n (filesize - read_len) in
        let rest = read_loop filesize room answers (read_len + ret) in
        if read_len == filesize
        then some (some read_len)
        else if ltb room (read_len + ret)
        then none
        else if (ret == 0) || leb (2 ^ 31) ret
        then some none
        else if eof
        then some (some (read_len + ret))
        else rest

    abbrev pub empty_config : TaskConfig
    empty_config = record {
      max_tasks = 0;
      query_intvl = of_int (ℤ.pos 0);
      list = init_list_head;
      freed = [];
    }

    -- `file` is the text of the file, if it can be opened; `buf_ok` says whether there is memory. The
    -- size of the file, and that of the buffer, are taken as 32 bits.
    unfoldable pub task_config_init :
        (ℕ → Option ℕ) → Bool → Option (List ℕ) → List (ℕ × Bool) → Option (ℤ × TaskConfig)
    unfolding parse_config_file read_loop
    task_config_init memory buf_ok none answers = some (fail_code, empty_config)
    task_config_init memory buf_ok (some file) answers =
        let filesize = length file % u32_mod in
        if buf_ok
        then elim (read_loop filesize ((filesize + 1) % u32_mod) answers 0) [
          | none ↦ none
          | some none ↦ some (fail_code, empty_config)
          | some (some read_len) ↦ parse_config_file memory (take read_len file) empty_config
        ]
        else some (fail_code, empty_config)
