-- ===== src/Json/Tree.antt =====
-- JSON values as trees: an instance of the JSON library with which the tests run the device code.
use qdmi_on_iqm.Base.{
  ℕ, Bool, true, false, Option, none, some, List, [], ◌∷◌, Bytes, length, bytes_eq, ◌==◌,
  if◌then◌else◌,
}
use qdmi_on_iqm.Json.{JsonLib}

mutual
  pub data Tree : Type 0 where
    null : Tree
    flag : Bool → Tree
    number : ℕ → Tree
    double : ℕ → Tree
    text : Bytes → Tree
    arr : Trees → Tree
    obj : Members → Tree

  pub data Trees : Type 0 where
    nil : Trees
    cons : Tree → Trees → Trees

  pub data Members : Type 0 where
    end : Members
    member : Bytes → Tree → Members → Members

abbrev tree_list : Trees → List Tree
tree_list nil = []
tree_list (cons t ts) = t ∷ tree_list ts

abbrev pub trees : List Tree → Trees
trees [] = nil
trees (t ∷ ts) = cons t (trees ts)

abbrev pub array_of : List Tree → Tree
array_of ts = arr (trees ts)

abbrev pub members : List (Bytes × Tree) → Members
members [] = end
members ((key, t) ∷ ts) = member key t (members ts)

abbrev pub object_of : List (Bytes × Tree) → Tree
object_of ts = obj (members ts)

abbrev member_list : Members → List (Bytes × Tree)
member_list end = []
member_list (member key t ts) = (key, t) ∷ member_list ts

abbrev pub find_member : Members → Bytes → Option Tree
unfolding bytes_eq
find_member end key = none
find_member (member k t ts) key = if bytes_eq k key then some t else find_member ts key

abbrev pub set_in : Members → Bytes → Tree → Members
unfolding bytes_eq
set_in end key t = member key t end
set_in (member k u ts) key t =
    let rest = member k u (set_in ts key t) in if bytes_eq k key then member k t ts else rest

abbrev find_in : Tree → Bytes → Option Tree
find_in (obj ts) key = find_member ts key
find_in _ key = none

abbrev pub list_of : Tree → List Tree
list_of (arr ts) = tree_list ts
list_of _ = []

abbrev items_of : Tree → List (Bytes × Tree)
items_of (obj ts) = member_list ts
items_of _ = []

abbrev pub size_of : Tree → ℕ
size_of null = 0
size_of (arr ts) = length (tree_list ts)
size_of (obj ts) = length (member_list ts)
size_of _ = 1

abbrev text_of : Tree → Option Bytes
text_of (text s) = some s
text_of _ = none

abbrev flag_of : Tree → Option Bool
flag_of (flag b) = some b
flag_of _ = none

abbrev number_of : Tree → Option ℕ
number_of (number n) = some n
number_of _ = none

abbrev double_of : Tree → Option ℕ
double_of (double n) = some n
double_of _ = none

abbrev or_default {ℓ} : {A : Type ℓ} → (Tree → Option A) → A → Option Tree → Option A
or_default read d none = some d
or_default read d (some t) = read t

abbrev pub is_arr : Tree → Bool
is_arr (arr ts) = true
is_arr _ = false

abbrev is_obj : Tree → Bool
is_obj (obj ts) = true
is_obj _ = false

abbrev is_text : Tree → Bool
is_text (text s) = true
is_text _ = false

abbrev is_flag : Tree → Bool
is_flag (flag b) = true
is_flag _ = false

abbrev is_nothing : Tree → Bool
is_nothing null = true
is_nothing _ = false

abbrev is_num : Tree → Bool
is_num (number n) = true
is_num _ = false

abbrev equals : Tree → ℕ → Bool
equals (number n) m = n == m
equals _ m = false

abbrev with_member : Tree → Bytes → Tree → Tree
with_member (obj ts) key t = obj (set_in ts key t)
with_member t key u = t

-- With the documents that the server sends for their texts.
abbrev pub tree : (Bytes → Option Tree) → JsonLib
tree parse = record {
  Json = Tree;
  parse = parse;
  is_object = is_obj;
  is_array = is_arr;
  is_string = is_text;
  is_boolean = is_flag;
  is_null = is_nothing;
  is_number_integer = is_num;
  is_number_unsigned = is_num;
  find = find_in;
  elements = list_of;
  items = items_of;
  get_string = text_of;
  get_bool = flag_of;
  get_unsigned = number_of;
  get_double = double_of;
  value_int64 = λ j key d. some d;
  value_string = λ j key d. or_default text_of d (find_in j key);
  value_bool = λ j key d. or_default flag_of d (find_in j key);
  size = size_of;
  equals_unsigned = equals;
  empty_object = obj end;
  set_member = with_member;
  array = array_of;
  of_string = text;
  of_unsigned = number;
  dump = λ j. none;
}
