-- ===== src/Base/Dict.antt =====
-- `std::map` with strings as keys: its entries in the order of their keys.
use qdmi_on_iqm.Base.{
  ◌≡◌, refl, arith, Bool, true, false, ◌||◌, ◌&&◌, Option, none, some, List, [], ◌∷◌, Bytes,
  bytes_eq, ltb, ◌==◌, if◌then◌else◌,
}

-- `operator<` of `std::string`: lexicographic, by unsigned bytes.
unfoldable pub bytes_lt : Bytes → Bytes → Bool
bytes_lt [] [] = false
bytes_lt [] (d ∷ t) = true
bytes_lt (c ∷ s) [] = false
bytes_lt (c ∷ s) (d ∷ t) = ltb c d || (c == d && bytes_lt s t)

module _ {ℓ} {A : Type ℓ} where
  -- The value of the first entry with the key.
  unfoldable pub lookup : List (Bytes × A) → Bytes → Option A
  unfolding bytes_eq
  lookup [] key = none
  lookup ((k, a) ∷ entries) key = if bytes_eq k key then some a else lookup entries key

  -- `emplace`: an entry that is there stays.
  unfoldable pub emplace : Bytes → A → List (Bytes × A) → List (Bytes × A)
  unfolding bytes_eq bytes_lt
  emplace key a [] = (key, a) ∷ []
  emplace key a ((k, b) ∷ entries) =
      let rest = (k, b) ∷ emplace key a entries in
      if bytes_eq k key
      then (k, b) ∷ entries
      else if bytes_lt key k
      then (key, a) ∷ (k, b) ∷ entries
      else rest

  -- `m[key] = a`.
  unfoldable pub assign : Bytes → A → List (Bytes × A) → List (Bytes × A)
  unfolding bytes_eq bytes_lt
  assign key a [] = (key, a) ∷ []
  assign key a ((k, b) ∷ entries) =
      let rest = (k, b) ∷ assign key a entries in
      if bytes_eq k key
      then (k, a) ∷ entries
      else if bytes_lt key k
      then (key, a) ∷ (k, b) ∷ entries
      else rest

pub bytes_eq→eq : (s t : Bytes) → bytes_eq s t ≡ true → s ≡ t
unfolding bytes_eq
bytes_eq→eq [] [] h = refl
bytes_eq→eq [] (y ∷ t) h = ground arith
bytes_eq→eq (x ∷ s) [] h = ground arith
bytes_eq→eq (x ∷ s) (y ∷ t) h = ground (arith, bytes_eq→eq s t)

pub bytes_eq_refl : (s : Bytes) → bytes_eq s s ≡ true
unfolding bytes_eq
bytes_eq_refl [] = refl
bytes_eq_refl (x ∷ s) = ground (arith, bytes_eq_refl s)

pub bytes_eq_comm : (s t : Bytes) → bytes_eq s t ≡ bytes_eq t s
unfolding bytes_eq
bytes_eq_comm [] [] = refl
bytes_eq_comm [] (y ∷ t) = refl
bytes_eq_comm (x ∷ s) [] = refl
bytes_eq_comm (x ∷ s) (y ∷ t) = ground (arith, bytes_eq_comm s t)
