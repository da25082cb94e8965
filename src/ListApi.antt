-- ===== src/ListApi.antt =====
-- list.h, a library outside the repository: the intrusive lists of the sources. A node is known by
-- its address, which stands in the entry that holds it.
use task_monitor.Base.{ℕ, ◌≡◌, List, [], ◌∷◌, ◌==◌, if◌then◌else◌}

pub record ListApi (A : Type 0) : Type 1 where
  pub Head : Type 0
  -- INIT_LIST_HEAD
  pub init_list_head : Head
  -- list_add: in front.
  pub list_add : A → Head → Head
  -- list_del of the node at an address.
  pub list_del : ℕ → Head → Head
  -- list_for_each_entry and list_for_each_entry_safe, from the front.
  pub entries : Head → List A

module _ {A : Type 0} (node : A → ℕ) where
  -- A list without the first entry of an address.
  unfoldable pub delete : ℕ → List A → List A
  delete n [] = []
  delete n (x ∷ xs) = if node x == n then xs else x ∷ delete n xs

  pub record IsListApi (api : ListApi A) : Type 0 where
    pub entries_init : api.entries api.init_list_head ≡ []
    pub entries_add : (x : A) (h : api.Head) → api.entries (api.list_add x h) ≡ x ∷ api.entries h
    pub entries_del :
        (n : ℕ) (h : api.Head) → api.entries (api.list_del n h) ≡ delete n (api.entries h)
