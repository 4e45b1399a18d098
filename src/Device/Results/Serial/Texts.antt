-- ===== src/Device/Results/Serial/Texts.antt =====
-- The size that is reported is the size of the text, and the text splits back into its parts.
use qdmi_on_iqm.Base.{
  ℕ, ◌+◌, ◌≡◌, ◌≤◌, refl, ap, ◌∙◌, true, false, not, Bool, ◌&&◌, none, some, List, [], ◌∷◌, ◌++◌,
  Bytes, length, length-append, leb, arith, all, ◌==◌, if◌then◌else◌, is_empty,
}
use qdmi_on_iqm.Qdmi.{QdmiStatus, success}
use qdmi_on_iqm.Device.Buffer.{Out, overwrite}
use qdmi_on_iqm.Device.Buffer.Protocol.{ask, offer, overwrite_all, ltb_irrefl}
use qdmi_on_iqm.Device.Results.Serial.{
  keys_size, keys_with_commas, end_with_null, shots_size_from, shots_size, shots_text, largest_size,
  write_keys, write_shots, write_result,
}

abbrev pub keys_of : List (Bytes × ℕ) → List Bytes
keys_of [] = []
keys_of ((key, count) ∷ counts) = key ∷ keys_of counts

-- The two loops write the same text.
end_with_null-append :
    (s : Bytes) (c : ℕ) (t : Bytes) → end_with_null (s ++ c ∷ t) ≡ s ++ end_with_null (c ∷ t)
unfolding end_with_null
end_with_null-append [] c t = refl
end_with_null-append (d ∷ []) c t = refl
end_with_null-append (d ∷ e ∷ s) c t = ap (◌∷◌ d) (end_with_null-append (e ∷ s) c t)

end_with_null-comma :
    (text : Bytes) → is_empty text ≡ false → end_with_null (b',' ∷ text) ≡ b',' ∷ end_with_null text
unfolding end_with_null
end_with_null-comma [] h = ground arith
end_with_null-comma (c ∷ text) h = refl

keys_with_commas-ne :
    (key : Bytes) (count : ℕ) (counts : List (Bytes × ℕ))
    → is_empty (keys_with_commas ((key, count) ∷ counts)) ≡ false
unfolding keys_with_commas
keys_with_commas-ne [] count counts = refl
keys_with_commas-ne (c ∷ key) count counts = refl

end_with_null-keys :
    (entry : Bytes × ℕ) (counts : List (Bytes × ℕ))
    → end_with_null (keys_with_commas (entry ∷ counts)) ≡ shots_text (keys_of (entry ∷ counts))
unfolding keys_with_commas shots_text end_with_null
end_with_null-keys (key, count) [] = end_with_null-append key b',' []
end_with_null-keys (key, count) ((key', count') ∷ counts) =
    end_with_null-append key b',' (keys_with_commas ((key', count') ∷ counts))
    ∙ ap (λ t. key ++ t)
        (end_with_null-comma _ (keys_with_commas-ne key' count' counts)
          ∙ ap (◌∷◌ b',') (end_with_null-keys (key', count') counts))

-- The length of the texts, each with the byte behind it.
abbrev pub total : List Bytes → ℕ
total [] = 0
total (s ∷ ss) = length s + 1 + total ss

length-shots_text : (s : Bytes) (ss : List Bytes) → length (shots_text (s ∷ ss)) ≡ total (s ∷ ss)
unfolding shots_text
length-shots_text s [] = omega (arith, length-append s (0 ∷ []))
length-shots_text s (t ∷ ss) =
    omega (arith, length-append s (b',' ∷ shots_text (t ∷ ss)), length-shots_text t ss)

keys_size-total :
    (n : ℕ) (counts : List (Bytes × ℕ))
    → keys_size (n + length counts) counts ≡ n + total (keys_of counts)
unfolding keys_size
keys_size-total n [] = omega arith
keys_size-total n ((key, count) ∷ counts) =
    let swap : n + length ((key, count) ∷ counts) + length key
        ≡ (n + length key + 1) + length counts =
      omega arith in
    rw (swap, keys_size-total (n + length key + 1) counts) (omega arith)

-- The sum of the sizes is found exactly where it is a `size_t`.
shots_size-total :
    (n : ℕ) (shots : List Bytes)
    → n ≤ largest_size
    → shots_size_from 1 n shots
      ≡ (if leb (n + total shots) largest_size then some (n + total shots) else none)
unfolding shots_size_from
shots_size-total n [] h = ground arith
shots_size-total n (shot ∷ shots) h = ground (arith, shots_size-total (n + (1 + length shot)) shots)

-- A reader of such a text: up to the null, the parts between commas.
abbrev prepend : ℕ → List Bytes → List Bytes
prepend c [] = []
prepend c (part ∷ parts) = (c ∷ part) ∷ parts

abbrev pub split : Bytes → List Bytes
split [] = [] ∷ []
split (c ∷ text) =
    let parts = split text in
    if c == 0 then [] ∷ [] else if c == b',' then [] ∷ parts else prepend c parts

abbrev pub is_plain : ℕ → Bool
is_plain c = not (c == 0) && not (c == b',')

abbrev pub ArePlain : List Bytes → Type 0
ArePlain [] = Unit
ArePlain (s ∷ ss) = (all is_plain s ≡ true) × ArePlain ss

split-append :
    (s : Bytes) (c : ℕ) (rest : Bytes) (parts : List Bytes)
    → all is_plain s ≡ true
    → split (c ∷ rest) ≡ [] ∷ parts
    → split (s ++ c ∷ rest) ≡ s ∷ parts
split-append [] c rest parts plain h = h
split-append (d ∷ s) c rest parts plain h = ground (arith, split-append s c rest parts)

split-shots_text :
    (s : Bytes) (ss : List Bytes) → ArePlain (s ∷ ss) → split (shots_text (s ∷ ss)) ≡ s ∷ ss
unfolding shots_text
split-shots_text s [] plain = split-append s 0 [] [] plain.0 refl
split-shots_text s (t ∷ ss) plain =
    split-append s b',' (shots_text (t ∷ ss)) (t ∷ ss) plain.0
      (ap (◌∷◌ []) (split-shots_text t ss plain.1))

shots_size_fits :
    (shot : Bytes) (shots : List Bytes)
    → total (shot ∷ shots) ≤ largest_size
    → shots_size (shot ∷ shots) ≡ some (total (shot ∷ shots))
unfolding shots_size shots_size_from
shots_size_fits shot shots h = ground (arith, shots_size-total (1 + (0 + length shot)) shots)

write_result_fits :
    (text memory : Bytes) (n : ℕ)
    → length text ≡ n
    → length memory ≡ n
    → (write_result n (overwrite text) ask ≡ (success, record ask { size_ret = some n }))
      × (write_result n (overwrite text) (offer n memory) ≡ (success, offer n text))
unfolding write_result
write_result_fits text memory n h k =
    (refl, rw (ltb_irrefl n, overwrite_all text memory (omega arith)) refl)

-- The two calls, first for the size and then for the text, with a text that splits into the parts.
pub IsReadBack : (Out → QdmiStatus × Out) → List Bytes → Bytes → Type 0
IsReadBack write parts memory =
    (text : Bytes) × (write ask ≡ (success, record ask { size_ret = some (total parts) }))
    × (write (offer (total parts) memory) ≡ (success, offer (total parts) text))
    × (split text ≡ parts)

keys_size-length :
    (counts : List (Bytes × ℕ)) → keys_size (length counts) counts ≡ total (keys_of counts)
keys_size-length counts =
    let from_zero : length counts ≡ 0 + length counts = omega arith in
    let to_total : 0 + total (keys_of counts) ≡ total (keys_of counts) = omega arith in
    ap (λ n. keys_size n counts) from_zero ∙ keys_size-total 0 counts ∙ to_total

keys-IsReadBack :
    (entry : Bytes × ℕ) (counts : List (Bytes × ℕ)) (memory : Bytes)
    → ArePlain (keys_of (entry ∷ counts))
    → length memory ≡ total (keys_of (entry ∷ counts))
    → IsReadBack (write_keys (entry ∷ counts)) (keys_of (entry ∷ counts)) memory
unfolding IsReadBack write_keys
keys-IsReadBack (key, count) counts memory plain room =
    let text = shots_text (keys_of ((key, count) ∷ counts)) in
    let fits =
      write_result_fits text memory (total (keys_of ((key, count) ∷ counts)))
        (length-shots_text key (keys_of counts)) room in
    let back = split-shots_text key (keys_of counts) plain in
    let size = keys_size-length ((key, count) ∷ counts) in
    let same = end_with_null-keys (key, count) counts in
    (text, rw size fits.0, rw (size, same) fits.1, back)

shots-IsReadBack :
    (shot : Bytes) (shots : List Bytes) (memory : Bytes)
    → ArePlain (shot ∷ shots)
    → total (shot ∷ shots) ≤ largest_size
    → length memory ≡ total (shot ∷ shots)
    → IsReadBack (write_shots (shot ∷ shots)) (shot ∷ shots) memory
unfolding IsReadBack write_shots
shots-IsReadBack shot shots memory plain small room =
    let text = shots_text (shot ∷ shots) in
    let fits =
      write_result_fits text memory (total (shot ∷ shots)) (length-shots_text shot shots) room in
    (
      text,
      rw (shots_size_fits shot shots small) fits.0,
      rw (shots_size_fits shot shots small) fits.1,
      split-shots_text shot shots plain,
    )

-- Keys and shots that hold no comma and no null are read back from the text that the two calls
-- give: it has exactly the size that the first call tells, and splits into them, in their order.
-- The whole text of the shots is to have a size that fits `size_t`.
pub results-IsReadBack :
    (entry : Bytes × ℕ) (counts : List (Bytes × ℕ)) (shot : Bytes) (shots : List Bytes)
    (memory memory' : Bytes)
    → ArePlain (keys_of (entry ∷ counts))
    → ArePlain (shot ∷ shots)
    → total (shot ∷ shots) ≤ largest_size
    → length memory ≡ total (keys_of (entry ∷ counts))
    → length memory' ≡ total (shot ∷ shots)
    → IsReadBack (write_keys (entry ∷ counts)) (keys_of (entry ∷ counts)) memory
      × IsReadBack (write_shots (shot ∷ shots)) (shot ∷ shots) memory'
results-IsReadBack entry counts shot shots memory memory' plain plain' small room room' = (
  keys-IsReadBack entry counts memory plain room,
  shots-IsReadBack shot shots memory' plain' small room',
)
