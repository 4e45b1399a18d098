-- ===== src/Device/Results/Shots/Agreement.antt =====
-- The text of a shot is the histogram's key of the same reading.
use qdmi_on_iqm.Base.{
  ℕ, zero, suc, ◌<◌, ◌≡◌, refl, sym, ap, ◌∙◌, Bool, true, false, Option, none, some, List, [], ◌∷◌,
  ◌++◌, Bytes, length, map, drop, All, replicate, reverse, both, get_or, is_empty, arith, ◌==◌,
}
use mathlib.Core.List.{append_assoc, append-nil}
use qdmi_on_iqm.Json.{JsonLib}
use qdmi_on_iqm.Device.Job.{ProgramResults}
use qdmi_on_iqm.Device.Results.Fields.{Layout, names}
use qdmi_on_iqm.Device.Results.Fields.Order.{gathered, HasWidths, outcome, length-names}
use qdmi_on_iqm.Device.Results.Shots.{
  read_bits, add_values, add_key, add_keys, program_shots, bit, differs, shots_number,
}

both-some :
    {A : Type 0} (x : Option A) (xs : Option (List A)) (ys : List A)
    → both x xs ≡ some ys
    → (y : A) × (rest : List A) × (x ≡ some y) × (xs ≡ some rest) × (ys ≡ y ∷ rest)
both-some none xs ys h = ground arith
both-some (some x) none ys h = ground arith
both-some (some x) (some xs) ys h = (x, xs, refl, refl, ground arith)

All-map :
    {A : Type 0} (P Q : A → Type 0) (xs : List A) → ((a : A) → P a → Q a) → All P xs → All Q xs
All-map P Q [] h all_P = tt
All-map P Q (x ∷ xs) h all_P = (h x all_P.0, All-map P Q xs h all_P.1)

drop-∷ :
    {A : Type 0} (i : ℕ) (whole : List A) (x d : A) (xs : List A)
    → drop i whole ≡ x ∷ xs
    → (get_or whole i d ≡ x) × (drop (suc i) whole ≡ xs)
drop-∷ zero [] x d xs h = ground arith
drop-∷ zero (y ∷ ys) x d xs h = (ground arith, ground arith)
drop-∷ (suc i) [] x d xs h = ground arith
drop-∷ (suc i) (y ∷ ys) x d xs h = drop-∷ i ys x d xs h

gathered-append :
    (f : Bytes → Bytes) (front back : List Bytes)
    → gathered f (front ++ back) ≡ gathered f front ++ gathered f back
gathered-append f [] back = refl
gathered-append f (key ∷ front) back =
    rw (gathered-append f front back)
      (sym (append_assoc (f key) (gathered f front) (gathered f back)))

-- The texts of the shots, by the keys read so far.
abbrev pub texts : List Bytes → List (Bytes → Bytes) → List Bytes
texts keys [] = []
texts keys (f ∷ shots) = gathered f keys ∷ texts keys shots

length-texts :
    (keys : List Bytes) (shots : List (Bytes → Bytes)) → length (texts keys shots) ≡ length shots
length-texts keys [] = refl
length-texts keys (f ∷ shots) = ap suc (length-texts keys shots)

texts-blank : (shots : List (Bytes → Bytes)) → replicate (length shots) [] ≡ texts [] shots
texts-blank [] = refl
texts-blank (f ∷ shots) = ap (◌∷◌ []) (texts-blank shots)

nonempty : {A : Type 0} (xs : List A) (n : ℕ) → length xs ≡ n → 0 < n → is_empty xs ≡ false
nonempty [] n h k = absurd (omega arith)
nonempty (x ∷ xs) n h k = refl

map-texts :
    (fields : Layout) (shots : List (Bytes → Bytes))
    → map reverse (texts (names fields) shots) ≡ map (outcome fields) shots
map-texts fields [] = refl
map-texts fields (f ∷ shots) = ap (◌∷◌ (outcome fields f)) (map-texts fields shots)

module _ (lib : JsonLib) where
  open lib use {Json, find, is_array, is_object, elements, size}

  -- A JSON value shows a text of bits.
  abbrev pub Shows : Json → Bytes → Type 0
  Shows j text = (is_array j ≡ true) × (read_bits lib (elements j) ≡ some text)

  -- The values of one key, a shot each.
  abbrev pub ShowAll : Bytes → List (Bytes → Bytes) → List Json → Type 0
  ShowAll key [] [] = Unit
  ShowAll key [] (j ∷ values) = ⊥
  ShowAll key (f ∷ shots) [] = ⊥
  ShowAll key (f ∷ shots) (j ∷ values) = Shows j (f key) × ShowAll key shots values

  -- The measurements of the shots, by the fields of the program.
  abbrev pub AreMeasured : Json → List (Bytes → Bytes) → Layout → Type 0
  AreMeasured j shots [] = Unit
  AreMeasured j shots ((key, width) ∷ fields) =
      (0 < width)
      × ((values : Json) × (find j key ≡ some values)
          × (is_array values ≡ true)
          × ShowAll key shots (elements values))
      × AreMeasured j shots fields

  length-read_bits :
      (bits : List Json) (text : Bytes) → read_bits lib bits ≡ some text → length bits ≡ length text
  unfolding read_bits
  length-read_bits [] text h = ground arith
  length-read_bits (j ∷ bits) text h =
      let (b, rest, here, next, same) = both-some (bit lib j) (read_bits lib bits) text h in
      rw same (ap suc (length-read_bits bits rest next))

  length-ShowAll :
      (key : Bytes) (shots : List (Bytes → Bytes)) (values : List Json)
      → ShowAll key shots values
      → length values ≡ length shots
  length-ShowAll key [] [] shown = refl
  length-ShowAll key [] (j ∷ values) shown = absurd shown
  length-ShowAll key (f ∷ shots) [] shown = absurd shown
  length-ShowAll key (f ∷ shots) (j ∷ values) shown =
      ap suc (length-ShowAll key shots values shown.1)

  add_values-shown :
      (key : Bytes) (front : List Bytes) (width : ℕ) (before : Option ℕ)
      (shots : List (Bytes → Bytes)) (values : List Json)
      → 0 < width
      → differs before width ≡ false
      → All (λ (f : Bytes → Bytes). length (f key) ≡ width) shots
      → ShowAll key shots values
      → add_values lib (some width) before (texts front shots) values
        ≡ some (texts (front ++ key ∷ []) shots)
  unfolding add_values
  add_values-shown key front width before [] values wide same widths shown = refl
  add_values-shown key front width before (f ∷ shots) [] wide same widths shown = absurd shown
  add_values-shown key front width before (f ∷ shots) (j ∷ values) wide same widths shown =
      let many = length-read_bits (elements j) (f key) shown.0.1 ∙ widths.0 in
      let next =
        add_values-shown key front width (some width) shots values wide (ground arith) widths.1
          shown.1 in
      let full : is_empty (elements j) ≡ false = nonempty (elements j) width many wide in
      let ended = append-nil (f key) in
      let here = gathered-append f front (key ∷ []) in
      rw (shown.0.0, full, many, same, shown.0.1, next, here, ended) (ground arith)

  add_key-shown :
      (key : Bytes) (front : List Bytes) (width : ℕ) (shots : List (Bytes → Bytes)) (values : Json)
      → 0 < width
      → All (λ (f : Bytes → Bytes). length (f key) ≡ width) shots
      → is_array values ≡ true
      → ShowAll key shots (elements values)
      → add_key lib (some width) (texts front shots) (some values)
        ≡ some (texts (front ++ key ∷ []) shots)
  unfolding add_key
  add_key-shown key front width shots values wide widths array shown =
      let many : (length (elements values) == length (texts front shots)) ≡ true =
        ground
          (arith, length-ShowAll key shots (elements values) shown, length-texts front shots) in
      rw (array, many)
        (add_values-shown key front width none shots (elements values) wide refl widths shown)

  add_keys-measured :
      (j : Json) (whole : Layout) (i : ℕ) (rest : Layout) (front : List Bytes)
      (shots : List (Bytes → Bytes))
      → drop i whole ≡ rest
      → All (λ (f : Bytes → Bytes). HasWidths f rest) shots
      → AreMeasured j shots rest
      → add_keys lib j (some whole) i (names rest) (texts front shots)
        ≡ some (texts (front ++ names rest) shots)
  unfolding add_keys
  add_keys-measured j whole i [] front shots at widths measured = rw (append-nil front) refl
  add_keys-measured j whole i ((key, width) ∷ rest) front shots at widths
        (wide, (values, found, array, shown), measured) =
      let place = drop-∷ i whole (key, width) ([], 0) rest at in
      let here_widths =
        All-map (λ f. HasWidths f ((key, width) ∷ rest)) (λ f. length (f key) ≡ width) shots
          (λ f h. h.0) widths in
      let rest_widths =
        All-map (λ f. HasWidths f ((key, width) ∷ rest)) (λ f. HasWidths f rest) shots (λ f h. h.1)
          widths in
      let here = add_key-shown key front width shots values wide here_widths array shown in
      let next =
        add_keys-measured j whole (suc i) rest (front ++ key ∷ []) shots place.1 rest_widths
          measured in
      rw (place.0, found, here, next)
        (ap (λ ks. some (texts ks shots)) (append_assoc front (key ∷ []) (names rest)))

  shots_number-measured :
      (retrieved : Bool) (n : ℕ) (j : Json) (key : Bytes) (width : ℕ) (fields : Layout)
      (shots : List (Bytes → Bytes))
      → ((values : Json) → is_array values ≡ true → size values ≡ length (elements values))
      → (retrieved ≡ false → n ≡ length shots)
      → AreMeasured j shots ((key, width) ∷ fields)
      → shots_number lib retrieved n j (names ((key, width) ∷ fields)) ≡ some (length shots)
  shots_number-measured false n j key width fields shots law number measured = ap some (number refl)
  shots_number-measured true n j key width fields shots law number
        (wide, (values, found, array, shown), measured) =
      rw found (ap some (law values array ∙ length-ShowAll key shots (elements values) shown))

  -- Where the fields of a program, of which there is at least one, are measured in a number of
  -- shots, each value an array of bits as wide as its field, and a job that is not retrieved asked
  -- for that many, the texts of the shots are the outcomes of their readings: the very texts that
  -- are the keys of the histogram of those readings. `size` of an array is to count its elements.
  pub program_shots-outcome :
      (retrieved : Bool) (n : ℕ) (r : ProgramResults) (j : Json) (key : Bytes) (width : ℕ)
      (fields : Layout) (shots : List (Bytes → Bytes))
      → ((values : Json) → is_array values ≡ true → size values ≡ length (elements values))
      → is_object j ≡ true
      → size j ≡ suc (length fields)
      → (retrieved ≡ false → n ≡ length shots)
      → All (λ (f : Bytes → Bytes). HasWidths f ((key, width) ∷ fields)) shots
      → AreMeasured j shots ((key, width) ∷ fields)
      → program_shots lib retrieved n
          (record r {
            output_layout = some ((key, width) ∷ fields);
            measurement_keys = some (names ((key, width) ∷ fields));
          })
          j
        ≡ some (map (outcome ((key, width) ∷ fields)) shots)
  unfolding program_shots
  program_shots-outcome retrieved n r j key width fields shots law object many number widths
        measured =
      let whole = (key, width) ∷ fields in
      let counted =
        shots_number-measured retrieved n j key width fields shots law number measured in
      let read = add_keys-measured j whole 0 whole [] shots refl widths measured in
      let as_many : (size j == suc (length (names fields))) ≡ true =
        ground (arith, length-names fields) in
      let some_fields : (size j == 0) ≡ false = ground arith in
      rw (object, as_many, some_fields, counted, texts-blank shots, read)
        (ap some (map-texts whole shots))
