-- ===== src/Device/Results/Fields.antt =====
-- The fields of an outcome, as `IQM_QDMI_device_job_get_results_hist` brings them into the order of
-- the program. An outcome is a text of bits with a field for each measurement key.
pub mod Order
use qdmi_on_iqm.Base.{
  ℕ, ◌+◌, Bool, true, false, not, ◌&&◌, ◌||◌, Option, none, some, List, [], ◌∷◌, ◌++◌, Bytes,
  is_one_of, length, take, drop, all, reverse, and_then, ◌==◌, if◌then◌else◌,
}
use qdmi_on_iqm.Base.Dict.{lookup, emplace}

abbrev pub Layout : Type 0
Layout = List (Bytes × ℕ)

-- The names of a layout's fields.
abbrev pub names : Layout → List Bytes
names [] = []
names ((key, width) ∷ fields) = key ∷ names fields

-- The place of each key's field and the whole width, from `width` on, where the keys before are
-- `seen`. `offsets` is only searched, so the order of its entries does not count.
abbrev one_more : Bytes → ℕ → Option (List (Bytes × ℕ) × ℕ) → Option (List (Bytes × ℕ) × ℕ)
one_more key at none = none
one_more key at (some (offsets, width)) = some ((key, at) ∷ offsets, width)

-- A key that the layout does not have, or a second time, is refused.
abbrev place_key :
    Bytes
    → ℕ
    → Bool
    → Option ℕ
    → (ℕ → Option (List (Bytes × ℕ) × ℕ))
    → Option (List (Bytes × ℕ) × ℕ)
place_key key at seen none next = none
place_key key at true (some n) next = none
place_key key at false (some n) next = one_more key at (next n)

unfoldable pub offsets_from : Layout → List Bytes → ℕ → List Bytes → Option (List (Bytes × ℕ) × ℕ)
unfolding lookup is_one_of
offsets_from fields seen width [] = some ([], width)
offsets_from fields seen width (key ∷ keys) =
    place_key key width (is_one_of key seen) (lookup fields key)
      (λ n. offsets_from fields (key ∷ seen) (width + n) keys)

abbrev all_placed : Layout → Option (List (Bytes × ℕ) × ℕ) → Option (List (Bytes × ℕ) × ℕ)
all_placed fields none = none
all_placed fields (some (offsets, width)) =
    if not (length offsets == length fields) then none else some (offsets, width)

-- The offsets of all fields of a layout in an outcome with the given keys.
unfoldable pub offsets_of : Layout → List Bytes → Option (List (Bytes × ℕ) × ℕ)
unfolding offsets_from
offsets_of fields keys = all_placed fields (offsets_from fields [] 0 keys)

abbrev append_field : Option Bytes → Option Bytes → Option Bytes
append_field none rest = none
append_field (some bits) none = none
append_field (some bits) (some rest) = some (bits ++ rest)

abbrev pub field_at : Bytes → ℕ → Option ℕ → Option Bytes
field_at outcome width none = none
field_at outcome width (some at) = some (take width (drop at outcome))

-- The loop over the layout. `offsets.at` throws where there is no such key.
unfoldable pub gather_fields : Layout → List (Bytes × ℕ) → Bytes → Option Bytes
unfolding lookup
gather_fields [] offsets outcome = some []
gather_fields ((key, width) ∷ fields) offsets outcome =
    append_field (field_at outcome width (lookup offsets key))
      (gather_fields fields offsets outcome)

abbrev pub is_bit : ℕ → Bool
is_bit c = c == b'0' || c == b'1'

-- `std::ranges::reverse` of the text.
abbrev reversed : Option Bytes → Option Bytes
reversed none = none
reversed (some s) = some (reverse s)

-- One outcome; `none` stands for FATAL.
unfoldable pub normalized : Layout → List (Bytes × ℕ) → ℕ → Bytes → Option Bytes
unfolding gather_fields
normalized fields offsets width outcome =
    if not (length outcome == width) || not (all is_bit outcome)
    then none
    else reversed (gather_fields fields offsets outcome)

-- The loop over the counts, into the map built so far.
abbrev counted : ℕ → List (Bytes × ℕ) → Option Bytes → Option (List (Bytes × ℕ))
counted count counts none = none
counted count counts (some outcome) = some (emplace outcome count counts)

unfoldable pub normalize_counts :
    Layout → List (Bytes × ℕ) → ℕ → List (Bytes × ℕ) → List (Bytes × ℕ) → Option (List (Bytes × ℕ))
unfolding normalized emplace
normalize_counts fields offsets width [] counts = some counts
normalize_counts fields offsets width ((outcome, count) ∷ rest) counts =
    and_then (counted count counts (normalized fields offsets width outcome))
      (normalize_counts fields offsets width rest)
