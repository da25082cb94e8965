-- ===== src/Exchange/Fields.antt =====
-- Objects as lists of fields, in the order in which they were added.
use task_monitor.Base.{ℕ, ◌≡◌, refl, ◌∙◌, List, [], ◌∷◌, true, Option, none, some, if◌then◌else◌}
use task_monitor.Json.{Json, IsJson, same_name, first}

module _ (js : Json) (law : IsJson js) where
  open js use {Value, create_object, add_item_to_object, get_object_item, is_object}

  abbrev pub Field : Type 0
  Field = List ℕ × Value

  abbrev pub build : Value → List Field → Value
  build o [] = o
  build o ((k, v) ∷ fs) = build (add_item_to_object o k v) fs

  abbrev pub find_field : List ℕ → List Field → Option Value
  find_field j [] = none
  find_field j ((k, v) ∷ fs) = first (if same_name k j then some v else none) (find_field j fs)

  first_assoc : (a b c : Option Value) → first (first a b) c ≡ first a (first b c)
  first_assoc (some a) b c = refl
  first_assoc none b c = refl

  first_none : (a : Option Value) → first a none ≡ a
  first_none (some a) = refl
  first_none none = refl

  get-build :
      (j : List ℕ) (o : Value) (fs : List Field)
      → is_object o ≡ true
      → get_object_item (build o fs) j ≡ first (get_object_item o j) (find_field j fs)
  get-build j o [] h = rw first_none
  get-build j o ((k, v) ∷ fs) h =
      get-build j (add_item_to_object o k v) fs (rw law.add_kind h)
      ∙ rw (law.get_add o v k j h) (
          first_assoc (get_object_item o j) (if same_name k j then some v else none)
            (find_field j fs))

  -- A lookup in an object finds the first field of the name.
  pub get_field :
      (j : List ℕ) (fs : List Field) → get_object_item (build create_object fs) j ≡ find_field j fs
  get_field j fs = get-build j create_object fs law.object_kind ∙ rw law.get_empty

  build_kind : (o : Value) (fs : List Field) → is_object (build o fs) ≡ is_object o
  build_kind o [] = refl
  build_kind o ((k, v) ∷ fs) = build_kind (add_item_to_object o k v) fs ∙ law.add_kind o v k

  pub object_field : (fs : List Field) → is_object (build create_object fs) ≡ true
  object_field fs = build_kind create_object fs ∙ law.object_kind
