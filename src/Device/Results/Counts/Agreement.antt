-- ===== src/Device/Results/Counts/Agreement.antt =====
-- The histogram of a program does not depend on the order in which the server lists the keys.
use qdmi_on_iqm.Base.{
  ℕ, suc, ◌+◌, ◌≡◌, refl, sym, ap, ◌∙◌, Bool, true, false, ◌||◌, ◌==◌, some, List, [], ◌∷◌, Bytes,
  bytes_eq, is_one_of, length, All, map, arith,
}
use qdmi_on_iqm.Base.Dict.{emplace, bytes_eq_refl}
use qdmi_on_iqm.Device.Results.Fields.{Layout, names, offsets_of, normalize_counts}
use qdmi_on_iqm.Device.Results.Fields.Order.{
  outcome, length-names, gathered, HasWidths, AreFresh, AreIn, IsReading, places, is_one_of-Permᴰ,
  length-Permᴰ, lookup-width, offsets_from-places, normalized-gathered, IsReading-HasWidths,
}
use qdmi_on_iqm.Device.Results.Counts.{normalized_entry}
use qdmi_on_iqm.Base.{length-append}
use mathlib.Core.List.{Permᴰ}

AreIn-mono :
    (xs ys zs : List Bytes)
    → ((key : Bytes) → is_one_of key xs ≡ true → is_one_of key ys ≡ true)
    → AreIn xs zs
    → AreIn ys zs
AreIn-mono xs ys [] h known = tt
AreIn-mono xs ys (z ∷ zs) h known = (h z known.0, AreIn-mono xs ys zs h known.1)

or_true : (a b : Bool) → b ≡ true → (a || b) ≡ true
or_true true b h = refl
or_true false b h = h

pub AreIn-self : (keys : List Bytes) → AreIn keys keys
unfolding is_one_of
AreIn-self [] = tt
AreIn-self (key ∷ keys) =
    let here : is_one_of key (key ∷ keys) ≡ true = rw (bytes_eq_refl key) refl in
    (here, AreIn-mono keys (key ∷ keys) keys (λ k. or_true (bytes_eq k key) _) (AreIn-self keys))

pub AreIn-Permᴰ : {xs ys : List Bytes} → Permᴰ xs ys → AreIn ys xs × AreIn xs ys
AreIn-Permᴰ {xs} {ys} d = (
  AreIn-mono xs ys xs (λ key h. sym (is_one_of-Permᴰ key d) ∙ h) (AreIn-self xs),
  AreIn-mono ys xs ys (λ key h. is_one_of-Permᴰ key d ∙ h) (AreIn-self ys),
)

some_eq : {m n : ℕ} → some m ≡ some n → m ≡ n
some_eq h = cc

same_width :
    (f g : Bytes → Bytes) (fields : Layout) (key : Bytes)
    → HasWidths f fields
    → HasWidths g fields
    → is_one_of key (names fields) ≡ true
    → length (f key) ≡ length (g key)
same_width f g fields key wf wg known =
    some_eq (sym (lookup-width f fields key wf known) ∙ lookup-width g fields key wg known)

-- The places of the fields depend on their widths alone.
places_by_width :
    (f g : Bytes → Bytes) (fields : Layout) (keys : List Bytes) (at : ℕ)
    → HasWidths f fields
    → HasWidths g fields
    → AreIn (names fields) keys
    → places f at keys ≡ places g at keys
places_by_width f g fields [] at wf wg known = refl
places_by_width f g fields (key ∷ keys) at wf wg known =
    rw (same_width f g fields key wf wg known.0)
      (ap (◌∷◌ (key, at)) (places_by_width f g fields keys (at + length (g key)) wf wg known.1))

length_by_width :
    (f g : Bytes → Bytes) (fields : Layout) (keys : List Bytes)
    → HasWidths f fields
    → HasWidths g fields
    → AreIn (names fields) keys
    → length (gathered f keys) ≡ length (gathered g keys)
length_by_width f g fields [] wf wg known = refl
length_by_width f g fields (key ∷ keys) wf wg known = omega (
  arith,
  length-append (f key) (gathered f keys),
  length-append (g key) (gathered g keys),
  same_width f g fields key wf wg known.0,
  length_by_width f g fields keys wf wg known.1,
)

length-places :
    (f : Bytes → Bytes) (at : ℕ) (keys : List Bytes) → length (places f at keys) ≡ length keys
length-places f at [] = refl
length-places f at (key ∷ keys) = ap suc (length-places f (at + length (f key)) keys)

offsets_of-places :
    (f : Bytes → Bytes) (fields : Layout) (keys : List Bytes)
    → HasWidths f fields
    → AreFresh [] keys
    → Permᴰ keys (names fields)
    → offsets_of fields keys ≡ some (places f 0 keys, length (gathered f keys))
unfolding offsets_of
offsets_of-places f fields keys widths fresh d =
    let zero_plus : 0 + length (gathered f keys) ≡ length (gathered f keys) = omega arith in
    let many : (length (places f 0 keys) == length fields) ≡ true =
      ground (arith, length-places f 0 keys, length-Permᴰ d, length-names fields) in
    rw (offsets_from-places f fields [] keys 0 widths fresh (AreIn-Permᴰ d).0, many, zero_plus) refl

-- A count by the reading of the program's fields.
abbrev pub Reading : Type 0
Reading = (Bytes → Bytes) × ℕ

abbrev pub as_listed : List Bytes → Reading → Bytes × ℕ
as_listed keys (f, count) = (gathered f keys, count)

-- The histogram of the readings, by their outcomes.
abbrev pub histogram : Layout → List Reading → List (Bytes × ℕ) → List (Bytes × ℕ)
histogram fields [] counts = counts
histogram fields ((f, count) ∷ readings) counts =
    histogram fields readings (emplace (outcome fields f) count counts)

normalize_counts-histogram :
    (fields : Layout) (keys : List Bytes) (g : Bytes → Bytes) (readings : List Reading)
    (counts : List (Bytes × ℕ))
    → HasWidths g fields
    → Permᴰ keys (names fields)
    → All (λ (r : Reading). IsReading fields r.0) readings
    → normalize_counts fields
        (places g 0 keys)
        (length (gathered g keys))
        (map (as_listed keys) readings)
        counts
      ≡ some (histogram fields readings counts)
unfolding normalize_counts
normalize_counts-histogram fields keys g [] counts widths d good = refl
normalize_counts-histogram fields keys g ((f, count) ∷ readings) counts widths d good =
    let known = AreIn-Permᴰ d in
    let next =
      normalize_counts-histogram fields keys g readings (emplace (outcome fields f) count counts)
        widths d good.1 in
    let place =
      places_by_width f g fields keys 0 (IsReading-HasWidths fields f good.0) widths known.0 in
    let wide =
      length_by_width f g fields keys (IsReading-HasWidths fields f good.0) widths known.0 in
    let text = normalized-gathered fields keys f known.1 good.0 in
    rw (sym place, sym wide, text) next

-- Where the server lists a program's keys in any order, each once, and the outcomes follow that
-- order, with as many bits for each key as the program's field is wide, the entry that is kept has
-- the keys in the program's order and the histogram of the readings. `g` is any assignment of texts
-- of those widths to the keys, so that a key has one width.
pub normalized_entry-histogram :
    (fields : Layout) (keys : List Bytes) (g : Bytes → Bytes) (readings : List Reading)
    → HasWidths g fields
    → AreFresh [] keys
    → Permᴰ keys (names fields)
    → All (λ (r : Reading). IsReading fields r.0) readings
    → normalized_entry (some fields) (keys, map (as_listed keys) readings)
      ≡ some (names fields, histogram fields readings [])
unfolding normalized_entry
normalized_entry-histogram fields keys g readings widths fresh d good =
    rw
      (
        offsets_of-places g fields keys widths fresh d,
        normalize_counts-histogram fields keys g readings [] widths d good,
      )
      refl
