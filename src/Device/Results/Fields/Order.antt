-- ===== src/Device/Results/Fields/Order.antt =====
-- A normalised outcome does not depend on the order in which the server lists the keys.
use qdmi_on_iqm.Base.{
  ℕ, suc, ◌+◌, ◌≡◌, refl, sym, ap, ◌∙◌, inl, inr, Bool, true, false, ◌||◌, ◌==◌, Bool-cases, some,
  List, [], ◌∷◌, ◌++◌, Bytes, bytes_eq, is_one_of, length, all, reverse, arith, length-append,
  take-length_append, drop-length_append,
}
use qdmi_on_iqm.Base.Dict.{lookup, bytes_eq→eq, bytes_eq_comm}
use qdmi_on_iqm.Device.Results.Fields.{
  names, Layout, offsets_from, field_at, gather_fields, is_bit, normalized,
}
use mathlib.Core.List.{Permᴰ, append_assoc}

-- An outcome, by the bits of each key, with the keys in some order.
abbrev pub gathered : (Bytes → Bytes) → List Bytes → Bytes
gathered f [] = []
gathered f (key ∷ keys) = f key ++ gathered f keys

-- The outcome of a reading: the last field of the program first, each with its last bit first.
abbrev pub outcome : Layout → (Bytes → Bytes) → Bytes
outcome fields f = reverse (gathered f (names fields))

-- Each field has its width.
abbrev pub HasWidths : (Bytes → Bytes) → Layout → Type 0
HasWidths f [] = Unit
HasWidths f ((key, width) ∷ fields) = (length (f key) ≡ width) × HasWidths f fields

-- No key occurs twice, nor among those already seen.
abbrev pub AreFresh : List Bytes → List Bytes → Type 0
AreFresh seen [] = Unit
AreFresh seen (key ∷ keys) = (is_one_of key seen ≡ false) × AreFresh (key ∷ seen) keys

abbrev pub AreIn : List Bytes → List Bytes → Type 0
AreIn all_keys [] = Unit
AreIn all_keys (key ∷ keys) = (is_one_of key all_keys ≡ true) × AreIn all_keys keys

or_swap : (a b c : Bool) → (a || (b || c)) ≡ (b || (a || c))
or_swap true true c = refl
or_swap true false c = refl
or_swap false b c = refl

or_right : (a b : Bool) → a ≡ false → (a || b) ≡ true → b ≡ true
or_right true b h k = ground arith
or_right false b h k = k

pub is_one_of-Permᴰ :
    {xs ys : List Bytes} (key : Bytes) → Permᴰ xs ys → is_one_of key xs ≡ is_one_of key ys
unfolding is_one_of
is_one_of-Permᴰ key Permᴰ.nil = refl
is_one_of-Permᴰ key (Permᴰ.cons e d) = rw (e, is_one_of-Permᴰ key d) refl
is_one_of-Permᴰ key (Permᴰ.swap {a' = a'} {b' = b'} {l = l} e₁ e₂) =
    rw (e₁, e₂) (or_swap (bytes_eq key b') (bytes_eq key a') (is_one_of key l))
is_one_of-Permᴰ key (Permᴰ.trans d₁ d₂) = is_one_of-Permᴰ key d₁ ∙ is_one_of-Permᴰ key d₂

pub length-Permᴰ : {xs ys : List Bytes} → Permᴰ xs ys → length xs ≡ length ys
length-Permᴰ Permᴰ.nil = refl
length-Permᴰ (Permᴰ.cons e d) = ap suc (length-Permᴰ d)
length-Permᴰ (Permᴰ.swap e₁ e₂) = refl
length-Permᴰ (Permᴰ.trans d₁ d₂) = length-Permᴰ d₁ ∙ length-Permᴰ d₂

pub lookup-width :
    (f : Bytes → Bytes) (fields : Layout) (key : Bytes)
    → HasWidths f fields
    → is_one_of key (names fields) ≡ true
    → lookup fields key ≡ some (length (f key))
unfolding lookup is_one_of
lookup-width f [] key widths known = ground arith
lookup-width f ((k, width) ∷ fields) key widths known = elim (Bool-cases (bytes_eq k key)) [
  | inl same ↦ rw same (ap some (sym widths.0 ∙ ap (λ x. length (f x)) (bytes_eq→eq k key same)))
  | inr other ↦ rw other (
      lookup-width f fields key widths.1
        (or_right (bytes_eq key k) _ (bytes_eq_comm key k ∙ other) known))
]

-- The places of the fields of an outcome, from `at` on.
abbrev pub places : (Bytes → Bytes) → ℕ → List Bytes → List (Bytes × ℕ)
places f at [] = []
places f at (key ∷ keys) = (key, at) ∷ places f (at + length (f key)) keys

pub offsets_from-places :
    (f : Bytes → Bytes) (fields : Layout) (seen keys : List Bytes) (at : ℕ)
    → HasWidths f fields
    → AreFresh seen keys
    → AreIn (names fields) keys
    → offsets_from fields seen at keys ≡ some (places f at keys, at + length (gathered f keys))
unfolding offsets_from
offsets_from-places f fields seen [] at widths fresh known = ap (λ n. some ([], n)) (omega arith)
offsets_from-places f fields seen (key ∷ keys) at widths fresh known =
    let rest =
      offsets_from-places f fields (key ∷ seen) keys (at + length (f key)) widths fresh.1 known.1 in
    let sum : at + length (f key) + length (gathered f keys)
        ≡ at + length (f key ++ gathered f keys) =
      omega (arith, length-append (f key) (gathered f keys)) in
    rw (lookup-width f fields key widths known.0, fresh.0, rest, sum) refl

-- Each field is found at its place, behind the text `front`.
field_at-places :
    (f : Bytes → Bytes) (front : Bytes) (keys : List Bytes) (key : Bytes)
    → is_one_of key keys ≡ true
    → field_at
        (front ++ gathered f keys)
        (length (f key))
        (lookup (places f (length front) keys) key)
      ≡ some (f key)
unfolding lookup is_one_of
field_at-places f front [] key known = ground arith
field_at-places f front (k ∷ keys) key known = elim (Bool-cases (bytes_eq k key)) [
  | inl same ↦
      rw (same, drop-length_append front (f k ++ gathered f keys), bytes_eq→eq k key same)
        (ap some (take-length_append (f key) (gathered f keys)))
  | inr other ↦
      let ih =
        field_at-places f (front ++ f k) keys key
          (or_right (bytes_eq key k) _ (bytes_eq_comm key k ∙ other) known) in
      rw (other, sym (length-append front (f k)), sym (append_assoc front (f k) (gathered f keys)))
        ih
]

gather_fields-places :
    (f : Bytes → Bytes) (fields : Layout) (keys : List Bytes)
    → HasWidths f fields
    → AreIn keys (names fields)
    → gather_fields fields (places f 0 keys) (gathered f keys) ≡ some (gathered f (names fields))
unfolding gather_fields
gather_fields-places f [] keys widths known = refl
gather_fields-places f ((key, width) ∷ fields) keys widths known =
    rw
      (
        sym widths.0,
        field_at-places f [] keys key known.0,
        gather_fields-places f fields keys widths.1 known.1,
      )
      refl

-- A reading of the fields: bits, and as many for each key as its field is wide.
unfoldable pub IsReading : Layout → (Bytes → Bytes) → Type 0
IsReading fields f = HasWidths f fields × ((key : Bytes) → all is_bit (f key) ≡ true)

pub IsReading-HasWidths :
    (fields : Layout) (f : Bytes → Bytes) → IsReading fields f → HasWidths f fields
unfolding IsReading
IsReading-HasWidths fields f reading = reading.0

all-append : (s t : Bytes) → all is_bit s ≡ true → all is_bit t ≡ true → all is_bit (s ++ t) ≡ true
all-append [] t hs ht = ht
all-append (c ∷ s) t hs ht = ground (arith, all-append s t)

all-gathered :
    (f : Bytes → Bytes) (keys : List Bytes)
    → ((key : Bytes) → all is_bit (f key) ≡ true)
    → all is_bit (gathered f keys) ≡ true
all-gathered f [] bits = refl
all-gathered f (key ∷ keys) bits =
    all-append (f key) (gathered f keys) (bits key) (all-gathered f keys bits)

pub normalized-gathered :
    (fields : Layout) (keys : List Bytes) (f : Bytes → Bytes)
    → AreIn keys (names fields)
    → IsReading fields f
    → normalized fields (places f 0 keys) (length (gathered f keys)) (gathered f keys)
      ≡ some (reverse (gathered f (names fields)))
unfolding normalized IsReading
normalized-gathered fields keys f known reading =
    let same : (length (gathered f keys) == length (gathered f keys)) ≡ true = ground arith in
    rw (same, all-gathered f keys reading.1, gather_fields-places f fields keys reading.0 known)
      refl

pub length-names : (fields : Layout) → length (names fields) ≡ length fields
length-names [] = refl
length-names ((key, width) ∷ fields) = ap suc (length-names fields)
