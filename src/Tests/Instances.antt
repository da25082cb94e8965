-- ===== src/Tests/Instances.antt =====
-- The external libraries as concrete data: JSON trees, a ring buffer without bound, plain lists.
-- They show that what is assumed of the libraries can hold.
use task_monitor.Base.{
  ℕ, zero, suc, ◌≤◌, ◌≡◌, refl, List, [], ◌∷◌, ◌++◌, Bool, true, false, Option, none, some, arith,
  ◌==◌, if◌then◌else◌, length, take, drop, take_all, ℤ, pos, negsuc, is_neg,
}
use task_monitor.Ring.{RingBuf, IsRing}
use task_monitor.ListApi.{ListApi, IsListApi, delete}
use task_monitor.Json.{Json, IsJson, same_name, first, codes}

mutual
  pub data Tree : Type 0 where
    num : ℤ → Tree
    str : List ℕ → Tree
    arr : Items → Tree
    obj : Fields → Tree

  pub data Items : Type 0 where
    nil : Items
    cons : Tree → Items → Items

  pub data Fields : Type 0 where
    end : Fields
    field : List ℕ → Tree → Fields → Fields

abbrev push_field : Fields → List ℕ → Tree → Fields
push_field end k v = field k v end
push_field (field j w fs) k v = field j w (push_field fs k v)

abbrev push_item : Items → Tree → Items
push_item nil v = cons v nil
push_item (cons w is) v = cons w (push_item is v)

abbrev find : List ℕ → Fields → Option Tree
find j end = none
find j (field k v fs) = first (if same_name k j then some v else none) (find j fs)

abbrev get_item : Tree → List ℕ → Option Tree
get_item (obj fs) j = find j fs
get_item _ j = none

abbrev add_field : Tree → List ℕ → Tree → Tree
add_field (obj fs) k v = obj (push_field fs k v)
add_field t k v = t

abbrev add_item : Tree → Tree → Tree
add_item (arr is) v = arr (push_item is v)
add_item t v = t

abbrev is_obj : Tree → Bool
is_obj (obj fs) = true
is_obj _ = false

abbrev is_num : Tree → Bool
is_num (num d) = true
is_num _ = false

abbrev is_str : Tree → Bool
is_str (str s) = true
is_str _ = false

abbrev to_int : Tree → ℤ
to_int (num d) = d
to_int _ = pos 0

abbrev to_text : Tree → List ℕ
to_text (str s) = s
to_text _ = []

abbrev count : Items → ℕ
count nil = 0
count (cons v is) = suc (count is)

abbrev size_of : Tree → ℕ
size_of (arr is) = count is
size_of _ = 0

abbrev nth : Items → ℕ → Option Tree
nth nil i = none
nth (cons v is) zero = some v
nth (cons v is) (suc i) = nth is i

abbrev item_at : Tree → ℕ → Option Tree
item_at (arr is) i = nth is i
item_at _ i = none

abbrev same_int : ℤ → ℤ → Bool
same_int (pos a) (pos b) = a == b
same_int (negsuc a) (negsuc b) = a == b
same_int _ _ = false

-- Trees whose numbers are integers, with a reading and a printing of texts.
abbrev pub tree_json_of : (List ℕ → Option Tree) → (Tree → List ℕ) → Json
tree_json_of parse print = record {
  Value = Tree;
  Double = ℤ;
  of_int = λ z. z;
  double_eq = same_int;
  double_lt = λ a b. is_neg a;
  parse = parse;
  print = print;
  create_object = obj end;
  create_array = arr nil;
  number = num;
  text = str;
  add_item_to_object = add_field;
  add_item_to_array = add_item;
  is_object = is_obj;
  is_number = is_num;
  is_string = is_str;
  is_raw = λ t. false;
  valueint = to_int;
  valuedouble = to_int;
  valuestring = to_text;
  get_object_item = get_item;
  get_array_size = size_of;
  get_array_item = item_at;
}

-- Every text parses to `doc`, and every tree is printed alike.
abbrev pub tree_json : Tree → Json
tree_json doc = tree_json_of (λ bytes. some doc) (λ t. codes "{}")

-- A request that is printed as "q", and a reply, which has a "ret", as "a".
abbrev read_talk : Tree → Tree → List ℕ → Option Tree
read_talk asked answered [] = none
read_talk asked answered (c ∷ bytes) = if c == 113 then some asked else some answered

abbrev print_talk : Tree → List ℕ
print_talk t = elim (get_item t (codes "ret")) [ none ↦ codes "q" | some v ↦ codes "a" ]

abbrev pub talk_json : Tree → Tree → Json
talk_json asked answered = tree_json_of (read_talk asked answered) print_talk

add_field_kind : (o v : Tree) (k : List ℕ) → is_obj (add_field o k v) ≡ is_obj o
add_field_kind (obj fs) v k = refl
add_field_kind _ v k = refl

first_assoc : (a b c : Option Tree) → first a (first b c) ≡ first (first a b) c
first_assoc (some a) b c = refl
first_assoc none b c = refl

first_none : (a : Option Tree) → first a none ≡ a
first_none (some a) = refl
first_none none = refl

find-push_field :
    (j k : List ℕ) (v : Tree) (fs : Fields)
    → find j (push_field fs k v) ≡ first (find j fs) (if same_name k j then some v else none)
find-push_field j k v end = first_none (if same_name k j then some v else none)
find-push_field j k v (field i w fs) =
    let head = if same_name i j then some w else none in
    let last = if same_name k j then some v else none in
    first_step head (find j fs) last (find-push_field j k v fs)
  where
    first_step :
        (a b c : Option Tree) {d : Option Tree} → d ≡ first b c → first a d ≡ first (first a b) c
    first_step a b c e = rw e (first_assoc a b c)

get_add_field :
    (o v : Tree) (k j : List ℕ)
    → is_obj o ≡ true
    → get_item (add_field o k v) j ≡ first (get_item o j) (if same_name k j then some v else none)
get_add_field (obj fs) v k j h = find-push_field j k v fs
get_add_field (num d) v k j h = cc
get_add_field (str s) v k j h = cc
get_add_field (arr is) v k j h = cc

pub tree_json_of-IsJson :
    (parse : List ℕ → Option Tree) (print : Tree → List ℕ) → IsJson (tree_json_of parse print)
tree_json_of-IsJson parse print = record {
  object_kind = refl;
  add_kind = add_field_kind;
  array_not_raw = refl;
  push_raw = λ a v. refl;
  number_kind = λ d. refl;
  text_kind = λ s. refl;
  valueint_lem = λ n h. refl;
  valuedouble_lem = λ d. refl;
  valuestring_lem = λ s. refl;
  get_empty = λ k. refl;
  get_add = get_add_field;
}

pub tree_json-IsJson : (doc : Tree) → IsJson (tree_json doc)
tree_json-IsJson doc = tree_json_of-IsJson (λ bytes. some doc) (λ t. codes "{}")

pub talk_json-IsJson : (asked answered : Tree) → IsJson (talk_json asked answered)
talk_json-IsJson asked answered = tree_json_of-IsJson (read_talk asked answered) print_talk

abbrev pub byte_ring : RingBuf
byte_ring = record {
  Buf = List ℕ;
  create = λ n. some [];
  data_size = length;
  read_data_only = λ b n. take n b;
  read_data = λ b n. (drop n b, take n b);
  write_data = λ b d. (b ++ d, length d);
}

pub write_le : (d : List ℕ) → length d ≤ length d
write_le d = omega arith

pub write_all : (b d : List ℕ) → b ++ d ≡ b ++ take (length d) d
write_all b d = rw (take_all (length d) d (omega arith))

pub created : (b : List ℕ) → ◌≡◌ {A = Option (List ℕ)} (some []) (some b) → b ≡ []
created b e = cc

abbrev pub byte_ring-IsRing : IsRing byte_ring
byte_ring-IsRing = record {
  contents = λ b. b;
  data_size_lem = λ b. refl;
  read_data_only_lem = λ b n. refl;
  read_data_bytes = λ b n. refl;
  read_data_rest = λ b n. refl;
  write_data_le = λ b d. write_le d;
  write_data_lem = λ b d. write_all b d;
  create_lem = λ n b e. created b e;
}

module _ {A : Type 0} (node : A → ℕ) where
  abbrev pub plain_list : ListApi A
  plain_list = record {
    Head = List A;
    init_list_head = [];
    list_add = λ x h. x ∷ h;
    list_del = delete node;
    entries = λ h. h;
  }

  pub plain_list-IsListApi : IsListApi node plain_list
  plain_list-IsListApi = record {
    entries_init = refl;
    entries_add = λ x h. refl;
    entries_del = λ n h. refl;
  }
