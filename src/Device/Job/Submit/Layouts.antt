-- ===== src/Device/Job/Submit/Layouts.antt =====
-- The fields that `Set_output_layout` reads from the instructions of a circuit.
use qdmi_on_iqm.Base.{
  ℕ, ◌<◌, ◌≡◌, refl, Bool, true, false, not, ◌||◌, ◌&&◌, Option, none, some, List, [], ◌∷◌, ◌++◌,
  Bytes, codes, bytes_eq, is_one_of, is_empty, any, length, All, All-append, arith, if_intro,
}
use qdmi_on_iqm.Base.Dict.{bytes_eq_comm}
use qdmi_on_iqm.Json.{JsonLib}
use qdmi_on_iqm.Device.Job.Native.{text_of}
use qdmi_on_iqm.Device.Results.Fields.{names}
use qdmi_on_iqm.Device.Results.Fields.Order.{AreFresh}
use qdmi_on_iqm.Device.Job.Submit.{
  Layout, layout, refused, broken, and_then, add_field, add_instruction, output_layout_loop,
  instructions_layout, output_layout_of, is_text, member_of,
}

-- No key occurs twice, and each field has a bit.
abbrev pub AreFields : List (Bytes × ℕ) → Type 0
AreFields fields = AreFresh [] (names fields) × All (λ (f : Bytes × ℕ). 0 < f.1) fields

abbrev pub IsLayout : Layout → Type 0
IsLayout (layout fields) = AreFields fields
IsLayout refused = Unit
IsLayout broken = Unit

or_false : (a b : Bool) → (a || b) ≡ false → (a ≡ false) × (b ≡ false)
or_false true b h = ground arith
or_false false b h = (refl, h)

AreFresh-snoc :
    (seen : List Bytes) (fields : List (Bytes × ℕ)) (key : Bytes) (n : ℕ)
    → AreFresh seen (names fields)
    → is_one_of key seen ≡ false
    → any (λ (f : Bytes × ℕ). bytes_eq f.0 key) fields ≡ false
    → AreFresh seen (names (fields ++ (key, n) ∷ []))
unfolding is_one_of
AreFresh-snoc seen [] key n fresh before behind = (before, tt)
AreFresh-snoc seen ((k, m) ∷ fields) key n fresh before behind =
    let apart = or_false (bytes_eq k key) _ behind in
    let unseen : is_one_of key (k ∷ seen) ≡ false = rw (bytes_eq_comm key k, apart.0) before in
    (fresh.0, AreFresh-snoc (k ∷ seen) fields key n fresh.1 unseen apart.1)

length-nonempty : {A : Type 0} (xs : List A) → is_empty xs ≡ false → 0 < length xs
length-nonempty [] h = ground arith
length-nonempty (x ∷ xs) h = omega arith

and_then-IsLayout :
    (l : Layout) (next : List (Bytes × ℕ) → Layout)
    → IsLayout l
    → ((fields : List (Bytes × ℕ)) → AreFields fields → IsLayout (next fields))
    → IsLayout (and_then l next)
and_then-IsLayout (layout fields) next good h = h fields good
and_then-IsLayout refused next good h = tt
and_then-IsLayout broken next good h = tt

module _ (lib : JsonLib) where
  open lib use {Json, find, is_array, is_string, elements, get_string}

  add_field-IsLayout :
      (fields : List (Bytes × ℕ)) (key : Option Bytes) (locus : Option Json)
      → AreFields fields
      → IsLayout (add_field lib fields key locus)
  unfolding add_field is_one_of
  add_field-IsLayout fields none locus good = tt
  add_field-IsLayout fields (some key) none good = tt
  add_field-IsLayout fields (some key) (some locus) good =
      if_intro IsLayout
        (is_empty key
          || not (is_array locus)
          || is_empty (elements locus)
          || any (λ field. bytes_eq field.0 key) fields)
        (λ _. tt)
        (λ h.
          let nonempty : is_empty (elements locus) ≡ false = ground arith in
          let apart : any (λ (f : Bytes × ℕ). bytes_eq f.0 key) fields ≡ false = ground arith in
          (
            AreFresh-snoc [] fields key _ good.0 refl apart,
            All-append _ fields _ good.1 (length-nonempty (elements locus) nonempty, tt),
          ))

  add_instruction-IsLayout :
      (fields : List (Bytes × ℕ)) (j : Json) (name : Option Json)
      → AreFields fields
      → IsLayout (add_instruction lib fields j name)
  unfolding add_instruction
  add_instruction-IsLayout fields j none good = tt
  add_instruction-IsLayout fields j (some name) good =
      if_intro IsLayout (not (is_string name && is_text lib (get_string name) (codes "measure")))
        {x = layout fields} (λ _. good)
        (λ _.
          add_field-IsLayout fields
            (text_of lib (member_of lib (find j (codes "args")) (codes "key")))
            (find j (codes "locus")) good)

  loop-IsLayout :
      (js : List Json) (fields : List (Bytes × ℕ))
      → AreFields fields
      → IsLayout (output_layout_loop lib js fields)
  unfolding output_layout_loop
  loop-IsLayout [] fields good = good
  loop-IsLayout (j ∷ js) fields good =
      and_then-IsLayout (add_instruction lib fields j (find j (codes "name")))
        (output_layout_loop lib js) (add_instruction-IsLayout fields j _ good) (loop-IsLayout js)

  instructions-IsLayout :
      (instructions : Option Json) → IsLayout (instructions_layout lib instructions)
  unfolding instructions_layout
  instructions-IsLayout none = tt
  instructions-IsLayout (some j) =
      if_intro IsLayout (is_array j) (λ _. loop-IsLayout (elements j) [] (tt, tt)) (λ _. tt)

  -- The layout of a circuit has each key once and a bit for each key at least.
  pub output_layout_of-IsLayout : (circuit : Json) → IsLayout (output_layout_of lib circuit)
  unfolding output_layout_of
  output_layout_of-IsLayout circuit = instructions-IsLayout (find circuit (codes "instructions"))
