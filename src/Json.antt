-- ===== src/Json.antt =====
-- The JSON library, nlohmann::json, which is not part of the repository: a type of values with the
-- operations that the device code calls. `none` stands for an exception where the C++ call may
-- throw, and for `end()` where it searches. The laws that a proof needs are hypotheses there.
pub mod Tree
use qdmi_on_iqm.Base.{get_elem?, ℕ, Bool, Option, none, some, List, [], Bytes, if◌then◌else◌}
use qdmi_on_iqm.Base.Int.{ℤ}

pub record JsonLib : Type 1 where
  pub Json : Type 0
  -- `none`: the text is no JSON, so a parse throws or gives a discarded value.
  pub parse : Bytes → Option Json
  pub is_object : Json → Bool
  pub is_array : Json → Bool
  pub is_string : Json → Bool
  pub is_boolean : Json → Bool
  pub is_null : Json → Bool
  pub is_number_integer : Json → Bool
  pub is_number_unsigned : Json → Bool
  -- `find`, `contains`, `at` and `[]` by a key: `none` where there is no such member.
  pub find : Json → Bytes → Option Json
  -- What a range-based `for` visits, and `items()`.
  pub elements : Json → List Json
  pub items : Json → List (Bytes × Json)
  -- `get<T>()`: `none` where it throws.
  pub get_string : Json → Option Bytes
  pub get_bool : Json → Option Bool
  pub get_unsigned : Json → Option ℕ
  -- A double by its bit pattern.
  pub get_double : Json → Option ℕ
  -- `value(key, int64_t{0})` and `value(key, "")` on a document: `none` where it throws.
  pub value_int64 : Json → Bytes → ℤ → Option ℤ
  pub value_string : Json → Bytes → Bytes → Option Bytes
  pub value_bool : Json → Bytes → Bool → Option Bool
  -- `size()`, which is also defined on a value that is no container, and `==` with a number.
  pub size : Json → ℕ
  pub equals_unsigned : Json → ℕ → Bool
  -- Construction: `json::object()`, `j[key] = value`, an array, a string and an unsigned number.
  -- `dump()` is `none` where it throws.
  pub empty_object : Json
  pub set_member : Json → Bytes → Json → Json
  pub array : List Json → Json
  pub of_string : Bytes → Json
  pub of_unsigned : ℕ → Json
  pub dump : Json → Option Bytes

module _ (lib : JsonLib) where
  -- `j.contains(key) && j[key].is_string()`, and the string.
  abbrev as_string : Option lib.Json → Option Bytes
  as_string none = none
  as_string (some j) = if lib.is_string j then lib.get_string j else none

  abbrev pub string_member : lib.Json → Bytes → Option Bytes
  string_member j key = as_string (lib.find j key)

  -- The elements of the member `key`, where it is an array; otherwise none.
  abbrev as_array : Option lib.Json → List lib.Json
  as_array none = []
  as_array (some j) = if lib.is_array j then lib.elements j else []

  abbrev pub array_member : lib.Json → Bytes → List lib.Json
  array_member j key = as_array (lib.find j key)

  -- `j.at(i)` by an index: `none` where the call throws.
  abbrev pub at_index : lib.Json → ℕ → Option lib.Json
  at_index j i = if lib.is_array j then get_elem? (lib.elements j) i else none
