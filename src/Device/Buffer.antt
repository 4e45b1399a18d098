-- ===== src/Device/Buffer.antt =====
-- The macros `ADD_SINGLE_VALUE_PROPERTY`, `ADD_STRING_PROPERTY` and `ADD_LIST_PROPERTY` behind their
-- test of the property: how a query answers through the caller's memory.
pub mod Protocol
pub mod Bounds
mod Tests
use qdmi_on_iqm.Base.{
  ℕ, zero, suc, ◌+◌, ◌-◌, ◌*◌, ◌/◌, ◌%◌, Option, none, some, List, [], ◌∷◌, ◌++◌, Bytes, length,
  drop, replicate, ltb, if◌then◌else◌,
}
use qdmi_on_iqm.Qdmi.{QdmiStatus, success, invalidargument}
use qdmi_on_iqm.Http.Number.{c_str}

-- The caller's arguments `size`, `value` and `size_ret`, with the memory behind the two pointers;
-- `none` is a null pointer. The memory at `value` holds at least `size` bytes.
pub record Out : Type 0 where
  pub size : ℕ
  pub value : Option Bytes
  pub size_ret : Option ℕ

-- The object representation of an unsigned integer of `width` bytes on a little-endian machine.
unfoldable pub le_bytes : ℕ → ℕ → Bytes
le_bytes zero n = []
le_bytes (suc width) n = n % 256 ∷ le_bytes width (n / 256)

-- `memcpy`, or an assignment through the pointer.
unfoldable pub overwrite : Bytes → Bytes → Bytes
overwrite payload memory = payload ++ drop (length payload) memory

-- `strncpy(value, text, size)` and then `value[size - 1] = '\0'`, where the text is shorter than
-- `size`: the rest of the `size` bytes is zero.
unfoldable pub copy_string : Bytes → ℕ → Bytes → Bytes
unfolding overwrite
copy_string text size memory = overwrite (text ++ replicate (size - length text) 0) memory

unfoldable pub store_size : ℕ → Out → Out
store_size n out = elim out.size_ret [ none ↦ out | some old ↦ record out { size_ret = some n } ]

-- The value with the given bytes; for a list, those of its elements.
plain_value : Bytes → Out → Option Bytes → QdmiStatus × Out
unfolding overwrite store_size
plain_value payload out none = (success, store_size (length payload) out)
plain_value payload out (some memory) =
    if ltb out.size (length payload) then (invalidargument, out) else (
      success,
      store_size (length payload) (record out { value = some (overwrite payload memory) }),
    )

unfoldable pub single_value : Bytes → Out → QdmiStatus × Out
unfolding plain_value
single_value payload out = plain_value payload out out.value

abbrev joined : List Bytes → Bytes
joined [] = []
joined (e ∷ es) = e ++ joined es

unfoldable pub list_value : List Bytes → Out → QdmiStatus × Out
unfolding plain_value
list_value elements out = plain_value (joined elements) out out.value

-- A string, by its text up to the first null.
string_bytes : Bytes → Out → Option Bytes → QdmiStatus × Out
unfolding copy_string store_size
string_bytes text out none = (success, store_size (length text + 1) out)
string_bytes text out (some memory) =
    if ltb out.size (length text + 1) then (invalidargument, out) else (
      success,
      store_size (length text + 1) (record out { value = some (copy_string text out.size memory) }),
    )

unfoldable pub string_value : Bytes → Out → QdmiStatus × Out
unfolding string_bytes c_str
string_value s out = string_bytes (c_str s) out out.value
