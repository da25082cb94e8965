-- ===== src/Json.antt =====
-- cJSON.h, a library outside the repository: what the sources call of it, and what the calls are
-- documented to do. Whether memory is there is asked of the caller's side, in `Alloc`.
use Prim.Native.String.{String}
use task_monitor.Base.{
  ℕ, ◌+◌, ◌^◌, ◌<◌, ◌≡◌, List, [], ◌∷◌, Bool, true, false, Option, none, some, leb, if◌then◌else◌,
  code, map, bytes_eq, ◌&&◌, ℤ, pos,
}

-- The code points of a literal.
abbrev pub codes : String → List ℕ
codes String.[] = []
codes (String.◌∷◌ c s) = code c ∷ codes s

-- Whether the n-th allocation of one run of a function gives memory.
abbrev pub Alloc : Type 0
Alloc = ℕ → Bool

-- cJSON_GetObjectItem compares names without regard to case.
abbrev lower : ℕ → ℕ
lower c = if leb 65 c && leb c 90 then c + 32 else c

unfoldable pub same_name : List ℕ → List ℕ → Bool
unfolding bytes_eq
same_name s t = bytes_eq (map lower s) (map lower t)

pub record Json : Type 1 where
  pub Value : Type 0
  -- C's `double`, with its comparisons.
  pub Double : Type 0
  pub of_int : ℤ → Double
  pub double_eq : Double → Double → Bool
  pub double_lt : Double → Double → Bool
  pub parse : List ℕ → Option Value
  pub print : Value → List ℕ
  pub create_object : Value
  pub create_array : Value
  pub number : Double → Value
  pub text : List ℕ → Value
  pub add_item_to_object : Value → List ℕ → Value → Value
  pub add_item_to_array : Value → Value → Value
  -- The tests of `->type`.
  pub is_object : Value → Bool
  pub is_number : Value → Bool
  pub is_string : Value → Bool
  pub is_raw : Value → Bool
  pub valueint : Value → ℤ
  pub valuedouble : Value → Double
  pub valuestring : Value → List ℕ
  pub get_object_item : Value → List ℕ → Option Value
  pub get_array_size : Value → ℕ
  pub get_array_item : Value → ℕ → Option Value

-- The first of two results that is there.
abbrev pub first {ℓ} : {A : Type ℓ} → Option A → Option A → Option A
first (some a) b = some a
first none b = b

pub record IsJson (js : Json) : Type 0 where
  pub object_kind : js.is_object js.create_object ≡ true
  pub add_kind :
      (o v : js.Value) (k : List ℕ) → js.is_object (js.add_item_to_object o k v) ≡ js.is_object o
  pub array_not_raw : js.is_raw js.create_array ≡ false
  pub push_raw : (a v : js.Value) → js.is_raw (js.add_item_to_array a v) ≡ js.is_raw a
  pub number_kind : (d : js.Double) → js.is_number (js.number d) ≡ true
  pub text_kind : (s : List ℕ) → js.is_string (js.text s) ≡ true
  pub valueint_lem : (n : ℕ) → n < 2 ^ 31 → js.valueint (js.number (js.of_int (pos n))) ≡ pos n
  pub valuedouble_lem : (d : js.Double) → js.valuedouble (js.number d) ≡ d
  pub valuestring_lem : (s : List ℕ) → js.valuestring (js.text s) ≡ s
  pub get_empty : (k : List ℕ) → js.get_object_item js.create_object k ≡ none
  -- A new item goes behind the others, and the first of the name is found.
  pub get_add :
      (o v : js.Value) (k j : List ℕ)
      → js.is_object o ≡ true
      → js.get_object_item (js.add_item_to_object o k v) j
        ≡ first (js.get_object_item o j) (if same_name k j then some v else none)

module _ (js : Json) where
  open js use {Value, Double, number, text, add_item_to_object}

  -- cJSON_AddNumberToObject, cJSON_AddStringToObject
  abbrev pub add_number : Value → List ℕ → Double → Value
  add_number o k d = add_item_to_object o k (number d)

  abbrev pub add_string : Value → List ℕ → List ℕ → Value
  add_string o k s = add_item_to_object o k (text s)
