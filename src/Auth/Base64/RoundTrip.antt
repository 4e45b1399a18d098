-- ===== src/Auth/Base64/RoundTrip.antt =====
-- `Base64_decode` against the encoding of RFC 4648.
use qdmi_on_iqm.Base.{
  ℕ, zero, suc, ◌+◌, ◌-◌, ◌*◌, ◌/◌, ◌%◌, ◌^◌, ◌≤◌, ◌<◌, ◌≡◌, ◌≢◌, refl, ap, Bool, true, ◌&&◌, [],
  ◌∷◌, Bytes, length, take, ◌==◌, ltb, if◌then◌else◌, arith, All, ==_iff,
}
use mathlib.Core.List.{append-nil}
use qdmi_on_iqm.Auth.Base64.{sextet, emit, groups, padding, out_length, base64_decode}

-- The alphabets of sections 4 and 5, by the two characters in which they differ.
abbrev pub alphabet : ℕ → ℕ → ℕ → ℕ
alphabet plus slash x =
    if ltb x 26
    then x + b'A'
    else if ltb x 52
    then x - 26 + b'a'
    else if ltb x 62
    then x - 52 + b'0'
    else if x == 62
    then plus
    else slash

abbrev pub standard : ℕ → ℕ
standard = alphabet b'+' b'/'

abbrev pub url_safe : ℕ → ℕ
url_safe = alphabet b'-' b'_'

-- Every sextet is read back, and none is written as padding.
pub record IsAlphabet (letter : ℕ → ℕ) : Type 0 where
  pub reads : (x : ℕ) → x < 64 → sextet (letter x) ≡ x
  pub no_padding : (x : ℕ) → x < 64 → letter x ≢ b'='

-- Over a small range a table decides.
holds_up_to : (ℕ → Bool) → ℕ → Bool
holds_up_to test zero = true
holds_up_to test (suc bound) = holds_up_to test bound && test bound

holds_at :
    (test : ℕ → Bool) (k bound : ℕ) → k < bound → holds_up_to test bound ≡ true → test k ≡ true
unfolding holds_up_to
holds_at test k zero inside held = absurd (omega arith)
holds_at test k (suc bound) inside held = ground (arith, holds_at test k bound)

standard_reads : holds_up_to (λ x. sextet (standard x) == x) 64 ≡ true
unfolding holds_up_to sextet
standard_reads = refl

url_safe_reads : holds_up_to (λ x. sextet (url_safe x) == x) 64 ≡ true
unfolding holds_up_to sextet
url_safe_reads = refl

pub standard-IsAlphabet : IsAlphabet standard
standard-IsAlphabet = record {
  reads = λ x h. (==_iff _ x).0 (holds_at _ x 64 h standard_reads);
  no_padding = λ x h. ground arith;
}

pub url_safe-IsAlphabet : IsAlphabet url_safe
url_safe-IsAlphabet = record {
  reads = λ x h. (==_iff _ x).0 (holds_at _ x 64 h url_safe_reads);
  no_padding = λ x h. ground arith;
}

abbrev pub AreBytes : Bytes → Type 0
AreBytes = All (λ b. b < 256)

-- The encoding with its last group filled up by `fill`.
abbrev pub encode_with : (ℕ → ℕ) → Bytes → Bytes → Bytes → Bytes
encode_with letter one two [] = []
encode_with letter one two (a ∷ []) = letter (a / 4) ∷ letter (a % 4 * 16) ∷ two
encode_with letter one two (a ∷ b ∷ []) =
    letter (a / 4) ∷ letter (a % 4 * 16 + b / 16) ∷ letter (b % 16 * 4) ∷ one
encode_with letter one two (a ∷ b ∷ c ∷ rest) =
    letter (a / 4)
    ∷ letter (a % 4 * 16 + b / 16)
    ∷ letter (b % 16 * 4 + c / 64)
    ∷ letter (c % 64)
    ∷ encode_with letter one two rest

-- With padding, and without it as in a JWT.
abbrev pub encode : (ℕ → ℕ) → Bytes → Bytes
encode letter = encode_with letter (b'=' ∷ []) (b'=' ∷ b'=' ∷ [])

abbrev pub encode_unpadded : (ℕ → ℕ) → Bytes → Bytes
encode_unpadded letter = encode_with letter [] []

triple-bytes :
    (a b c : ℕ)
    → a < 256
    → b < 256
    → c < 256
    → (a / 4 * 2 ^ 18 % 2 ^ 32
          + (a % 4 * 16 + b / 16) * 2 ^ 12 % 2 ^ 32
          + (b % 16 * 4 + c / 64) * 2 ^ 6 % 2 ^ 32
          + c % 64)
        % 2 ^ 32
      ≡ a * 65_536 + b * 256 + c
triple-bytes a b c ha hb hc = omega arith

bytes-triple :
    (a b c : ℕ)
    → a < 256
    → b < 256
    → c < 256
    → let t = a * 65_536 + b * 256 + c in
      (t / 2 ^ 16 % 256 ≡ a) × (t / 2 ^ 8 % 256 ≡ b) × (t % 256 ≡ c)
bytes-triple a b c ha hb hc = omega arith

emit_bytes :
    (a b c : ℕ)
    → a < 256
    → b < 256
    → c < 256
    → emit (a / 4) (a % 4 * 16 + b / 16) (b % 16 * 4 + c / 64) (c % 64) ≡ a ∷ b ∷ c ∷ []
unfolding emit
emit_bytes a b c ha hb hc =
    let (first, second, third) = bytes-triple a b c ha hb hc in
    rw (triple-bytes a b c ha hb hc) (rw (first, second, third))

-- The decoder returns the bytes with which the loop's output begins, where their number is the
-- computed length.
decode_taken :
    (s xs : Bytes)
    → take (length xs) (groups s) ≡ xs
    → length xs ≤ length (groups s)
    → out_length s ≡ length xs
    → base64_decode s ≡ xs
unfolding base64_decode
decode_taken [] [] h le e = refl
decode_taken [] (x ∷ xs) h le e = absurd (unfold groups in omega arith)
decode_taken (c ∷ s) xs h le e =
    let full : length xs - length (groups (c ∷ s)) ≡ 0 = omega arith in
    rw (e, h, full) (append-nil xs)

bytes_eq3 :
    {x y z a b c : ℕ} → x ≡ a → y ≡ b → z ≡ c → ◌≡◌ {A = Bytes} (x ∷ y ∷ z ∷ []) (a ∷ b ∷ c ∷ [])
bytes_eq3 p q r = cc

emit_bytes_one : (a : ℕ) → a < 256 → emit (a / 4) (a % 4 * 16) 0 0 ≡ a ∷ 0 ∷ 0 ∷ []
unfolding emit
emit_bytes_one a h = bytes_eq3 (omega arith) (omega arith) (omega arith)

emit_bytes_two :
    (a b : ℕ)
    → a < 256
    → b < 256
    → emit (a / 4) (a % 4 * 16 + b / 16) (b % 16 * 4) 0 ≡ a ∷ b ∷ 0 ∷ []
unfolding emit
emit_bytes_two a b ha hb = bytes_eq3 (omega arith) (omega arith) (omega arith)

sextet_padding : sextet b'=' ≡ 0
unfolding sextet
sextet_padding = refl

module _ (letter : ℕ → ℕ) (law : IsAlphabet letter) where
  emit_letters :
      (a b c : ℕ)
      → a < 256
      → b < 256
      → c < 256
      → emit
          (sextet (letter (a / 4)))
          (sextet (letter (a % 4 * 16 + b / 16)))
          (sextet (letter (b % 16 * 4 + c / 64)))
          (sextet (letter (c % 64)))
        ≡ a ∷ b ∷ c ∷ []
  emit_letters a b c ha hb hc =
      rw
        (
          law.reads (a / 4) (omega arith),
          law.reads (a % 4 * 16 + b / 16) (omega arith),
          law.reads (b % 16 * 4 + c / 64) (omega arith),
          law.reads (c % 64) (omega arith),
        )
        (emit_bytes a b c ha hb hc)

  emit_one :
      (a : ℕ)
      → a < 256
      → emit (sextet (letter (a / 4))) (sextet (letter (a % 4 * 16))) (sextet b'=') (sextet b'=')
        ≡ a ∷ 0 ∷ 0 ∷ []
  emit_one a ha =
      rw (law.reads (a / 4) (omega arith), law.reads (a % 4 * 16) (omega arith), sextet_padding)
        (emit_bytes_one a ha)

  emit_two :
      (a b : ℕ)
      → a < 256
      → b < 256
      → emit
          (sextet (letter (a / 4)))
          (sextet (letter (a % 4 * 16 + b / 16)))
          (sextet (letter (b % 16 * 4)))
          (sextet b'=')
        ≡ a ∷ b ∷ 0 ∷ []
  emit_two a b ha hb =
      rw
        (
          law.reads (a / 4) (omega arith),
          law.reads (a % 4 * 16 + b / 16) (omega arith),
          law.reads (b % 16 * 4) (omega arith),
          sextet_padding,
        )
        (emit_bytes_two a b ha hb)

  -- What the loop writes begins with the bytes that were encoded.
  take-groups :
      (xs : Bytes)
      → AreBytes xs
      → (take (length xs) (groups (encode letter xs)) ≡ xs)
        × (length xs ≤ length (groups (encode letter xs)))
  unfolding groups
  take-groups [] h = (refl, omega arith)
  take-groups (a ∷ []) h = rw (emit_one a h.0) (refl, omega arith)
  take-groups (a ∷ b ∷ []) h = rw (emit_two a b h.0 h.1.0) (refl, omega arith)
  take-groups (a ∷ b ∷ c ∷ rest) h =
      let ih = take-groups rest h.1.1.1 in
      rw (emit_letters a b c h.0 h.1.0 h.1.1.0) (ap (λ t. a ∷ b ∷ c ∷ t) ih.0, omega (arith, ih.1))

  -- The length that the padding leaves is that of the bytes.
  length-encode :
      (xs : Bytes)
      → AreBytes xs
      → (length (encode letter xs) * 3 / 4 - padding (encode letter xs) ≡ length xs)
        × (padding (encode letter xs) ≤ length (encode letter xs) * 3 / 4)
        × (length (encode letter xs) % 4 ≡ 0)
  unfolding padding
  length-encode [] h = omega arith
  length-encode (a ∷ []) h = omega arith
  length-encode (a ∷ b ∷ []) h = ground (arith, law.no_padding (b % 16 * 4))
  length-encode (a ∷ b ∷ c ∷ []) h =
      ground (arith, law.no_padding (b % 16 * 4 + c / 64), law.no_padding (c % 64))
  length-encode (a ∷ b ∷ c ∷ d ∷ []) h = omega arith
  length-encode (a ∷ b ∷ c ∷ d ∷ e ∷ []) h = ground (arith, law.no_padding (e % 16 * 4))
  length-encode (a ∷ b ∷ c ∷ d ∷ e ∷ f ∷ rest) h =
      omega (arith, length-encode (d ∷ e ∷ f ∷ rest) h.1.1.1)

  out_length-encode :
      (xs : Bytes)
      → AreBytes xs
      → length (encode letter xs) * 3 < 2 ^ 64
      → out_length (encode letter xs) ≡ length xs
  unfolding out_length
  out_length-encode xs h small = omega (arith, length-encode xs h)

  -- The padded encoding of any bytes, over an alphabet that the table reads back, decodes to them,
  -- as long as three times the length of the encoding stays below 2 ^ 64.
  pub base64_decode-encode :
      (xs : Bytes)
      → AreBytes xs
      → length (encode letter xs) * 3 < 2 ^ 64
      → base64_decode (encode letter xs) ≡ xs
  base64_decode-encode xs h small =
      let taken = take-groups xs h in
      decode_taken (encode letter xs) xs taken.0 taken.1 (out_length-encode xs h small)
