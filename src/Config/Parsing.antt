-- ===== src/Config/Parsing.antt =====
-- The two loops of src/task_config.cpp that build the list of tasks, against a reading of the items
-- in their order.
use task_monitor.Base.{
  ℕ, zero, suc, ◌≡◌, refl, ◌∙◌, ap, List, [], ◌∷◌, ◌++◌, Option, none, some, Bool, true, false,
  Option-cases, subst, ◌&&◌, arith, if◌then◌else◌, inl, inr,
}
use task_monitor.Json.{Json, codes}
use task_monitor.ListApi.{ListApi, IsListApi}
use task_monitor.Config.{TaskEntry, entry_node, parse_entry, new_entry, parse_tasks, move_all}

module _ {A : Type 0} where
  abbrev pub rev_onto : List A → List A → List A
  rev_onto [] ys = ys
  rev_onto (x ∷ xs) ys = rev_onto xs (x ∷ ys)

  pub rev_onto-rev : (xs acc ys : List A) → rev_onto (rev_onto xs acc) ys ≡ rev_onto acc (xs ++ ys)
  rev_onto-rev [] acc ys = refl
  rev_onto-rev (x ∷ xs) acc ys = rev_onto-rev xs (x ∷ acc) ys

module _ (js : Json) (api : ListApi (TaskEntry js)) where
  open js use {Value, Double}

  -- Whether an object has an item under the key, of that kind.
  abbrev pub has : (Value → Bool) → List ℕ → Value → Bool
  has kind key v = elim (js.get_object_item v key) [ none ↦ false | some it ↦ kind it ]

  -- The heartbeat of a task: the item must have three strings and the number.
  unfoldable pub task_heartbeat : Option Value → Option Double
  task_heartbeat none = none
  task_heartbeat (some v) =
      if (has js.is_string (codes "name") v && has js.is_string (codes "path") v)
        && has js.is_string (codes "param") v
      then elim (js.get_object_item v (codes "heartbeat")) [
        | none ↦ none
        | some it ↦ if js.is_number it then some (js.valuedouble it) else none
      ]
      else none

  pub parse_entry-task : (item : Option Value) → parse_entry js item ≡ task_heartbeat item
  unfolding parse_entry task_heartbeat
  parse_entry-task none = refl
  parse_entry-task (some v) = ground arith

  -- The entries of the items from `i` on, in their order, whose strings stay empty; there is none if
  -- one of them is wrong.
  unfoldable pub read_entries : (ℕ → Option ℕ) → Value → ℕ → ℕ → Option (List (TaskEntry js))
  unfolding task_heartbeat
  read_entries memory list i zero = some []
  read_entries memory list i (suc left) = elim (memory i) [
    | none ↦ none
    | some node ↦ elim (task_heartbeat (js.get_array_item list i)) [
      | none ↦ none
      | some heartbeat ↦ elim (read_entries memory list (suc i) left) [
        | none ↦ none
        | some es ↦
            some
              (record { node = node; name = []; path = []; param = []; heartbeat = heartbeat } ∷ es)
      ]
    ]
  ]

  abbrev pub add_each : List (TaskEntry js) → api.Head → api.Head
  add_each [] h = h
  add_each (e ∷ es) h = add_each es (api.list_add e h)

  pub entries-add_each :
      (lib : IsListApi (entry_node js) api) (es : List (TaskEntry js)) (h : api.Head)
      → api.entries (add_each es h) ≡ rev_onto es (api.entries h)
  entries-add_each lib [] h = refl
  entries-add_each lib (e ∷ es) h =
      entries-add_each lib es (api.list_add e h) ∙ ap (rev_onto es) (lib.entries_add e h)

  pub move_all-adds :
      (es : List (TaskEntry js)) (from to : api.Head)
      → (move_all js api es from to).1 ≡ add_each es to
  unfolding move_all
  move_all-adds [] from to = refl
  move_all-adds (e ∷ es) from to = move_all-adds es (api.list_del e.node from) (api.list_add e to)

  -- What the loop makes of the reading.
  abbrev pub Follows : api.Head → Option (List (TaskEntry js)) → api.Head × Bool → Type 0
  Follows tmp none r = r.1 ≡ false
  Follows tmp (some es) r = r ≡ (add_each es tmp, true)

  pub parse_tasks-Follows :
      (memory : ℕ → Option ℕ) (list : Value) (i left : ℕ) (tmp : api.Head)
      → Follows tmp (read_entries memory list i left) (parse_tasks js api memory list i left tmp)
  unfolding parse_tasks read_entries
  parse_tasks-Follows memory list i zero tmp = refl
  parse_tasks-Follows memory list i (suc left) tmp = elim (Option-cases (memory i)) [
    | inl e ↦ rw (read_entries, parse_tasks, e) refl
    | inr (node, e) ↦ elim (Option-cases (task_heartbeat (js.get_array_item list i))) [
      | inl p ↦
          rw (read_entries, parse_tasks, e, parse_entry-task (js.get_array_item list i), p) refl
      | inr (hb, p) ↦
          let tmp' = api.list_add (new_entry js node hb) tmp in
          let rest = parse_tasks-Follows memory list (suc i) left tmp' in
          let follows : Option (List (TaskEntry js)) → Type 0 =
            λ o. Follows tmp' o (parse_tasks js api memory list (suc i) left tmp') in
          elim (Option-cases (read_entries memory list (suc i) left)) [
            | inl q ↦
                rw (read_entries, parse_tasks, e, parse_entry-task (js.get_array_item list i), p, q)
                  (subst follows q rest)
            | inr (es, q) ↦
                rw (read_entries, parse_tasks, e, parse_entry-task (js.get_array_item list i), p, q)
                  (subst follows q rest)
          ]
    ]
  ]
