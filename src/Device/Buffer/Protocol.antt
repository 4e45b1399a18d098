-- ===== src/Device/Buffer/Protocol.antt =====
-- The two calls of a query: the first asks for the size, the second takes the value.
use qdmi_on_iqm.Base.{
  ℕ, zero, suc, ◌+◌, ◌-◌, ◌≤◌, ◌≡◌, refl, none, some, List, [], ◌∷◌, ◌++◌, Bytes, length,
  length-append, drop, ltb, arith, false,
}
use mathlib.Core.List.{append-nil}
use qdmi_on_iqm.Qdmi.{success}
use qdmi_on_iqm.Http.Number.{c_str}
use qdmi_on_iqm.Device.Buffer.{
  Out, overwrite, copy_string, string_bytes, single_value, string_value,
}

abbrev pub ask : Out
ask = record { size = 0; value = none; size_ret = some 0 }

abbrev pub offer : ℕ → Bytes → Out
offer size memory = record { size = size; value = some memory; size_ret = none }

drop_all : {A : Type 0} (n : ℕ) (xs : List A) → length xs ≤ n → drop n xs ≡ []
drop_all zero [] h = refl
drop_all zero (x ∷ xs) h = absurd (omega arith)
drop_all (suc n) [] h = refl
drop_all (suc n) (x ∷ xs) h = drop_all n xs (omega arith)

pub overwrite_all :
    (payload memory : Bytes) → length memory ≤ length payload → overwrite payload memory ≡ payload
unfolding overwrite
overwrite_all payload memory h = rw (drop_all (length payload) memory h) (append-nil payload)

pub ltb_irrefl : (n : ℕ) → ltb n n ≡ false
ltb_irrefl n = ground arith

copy_string_all :
    (text memory : Bytes)
    → length memory ≡ length text + 1
    → copy_string text (length text + 1) memory ≡ text ++ 0 ∷ []
unfolding copy_string
copy_string_all text memory h =
    let one : length text + 1 - length text ≡ 1 = omega arith in
    rw one (overwrite_all (text ++ 0 ∷ []) memory (omega (arith, h, length-append text (0 ∷ []))))

pub single_value_fits :
    (payload memory : Bytes)
    → length memory ≡ length payload
    → single_value payload (offer (length payload) memory)
      ≡ (success, offer (length payload) payload)
unfolding single_value
single_value_fits payload memory h =
    rw (ltb_irrefl (length payload), overwrite_all payload memory (omega arith)) refl

string_bytes_fits :
    (text memory : Bytes)
    → length memory ≡ length text + 1
    → string_bytes text (offer (length text + 1) memory) (some memory)
      ≡ (success, offer (length text + 1) (text ++ 0 ∷ []))
unfolding string_bytes
string_bytes_fits text memory h =
    rw (ltb_irrefl (length text + 1), copy_string_all text memory h) refl

-- A query with a null value gives the size; with a value of that size it succeeds and the value
-- holds exactly the payload, or the text and one null.
pub two_calls :
    (payload text memory memory' : Bytes)
    → length memory ≡ length payload
    → length memory' ≡ length (c_str text) + 1
    → (single_value payload ask ≡ (success, record ask { size_ret = some (length payload) }))
      × (single_value payload (offer (length payload) memory)
          ≡ (success, offer (length payload) payload))
      × (string_value text ask
          ≡ (success, record ask { size_ret = some (length (c_str text) + 1) }))
      × (string_value text (offer (length (c_str text) + 1) memory')
          ≡ (success, offer (length (c_str text) + 1) (c_str text ++ 0 ∷ [])))
unfolding single_value string_value
two_calls payload text memory memory' h h' =
    (refl, single_value_fits payload memory h, refl, string_bytes_fits (c_str text) memory' h')
