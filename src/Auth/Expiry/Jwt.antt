-- ===== src/Auth/Expiry/Jwt.antt =====
-- The time left on a token whose body is the base64url encoding of a JSON document.
use qdmi_on_iqm.Base.{
  ℕ, ◌+◌, ◌-◌, ◌*◌, ◌/◌, ◌%◌, ◌^◌, ◌⊎◌, inl, inr, sym, ◌<◌, ◌≡◌, ◌≢◌, refl, ◌∙◌, ap, some, [], ◌∷◌,
  ◌++◌, Bytes, codes, length, length-append, arith, All,
}
use mathlib.Core.List.{append_assoc}
use qdmi_on_iqm.Base.Int.{pos}
use qdmi_on_iqm.Json.{JsonLib}
use qdmi_on_iqm.Auth.Base64.{base64_decode}
use qdmi_on_iqm.Auth.Base64.RoundTrip.{
  AreBytes, encode, encode_unpadded, base64_decode-encode, url_safe, url_safe-IsAlphabet,
}
use qdmi_on_iqm.Auth.Expiry.{split_dots, pad_body, time_left_seconds, parts_expiry}

pad_none : (s : Bytes) → length s % 4 ≡ 0 → pad_body s ≡ s
unfolding pad_body
pad_none s h = rw h

pad_one : (s : Bytes) → length s % 4 ≡ 3 → pad_body s ≡ s ++ b'=' ∷ []
unfolding pad_body
pad_one s h =
    let full : length (s ++ b'=' ∷ []) % 4 ≡ 0 = omega (arith, length-append s (b'=' ∷ [])) in
    rw (h, full)

pad_two : (s : Bytes) → length s % 4 ≡ 2 → pad_body s ≡ s ++ b'=' ∷ b'=' ∷ []
unfolding pad_body
pad_two s h =
    let more : length (s ++ b'=' ∷ []) % 4 ≡ 3 = omega (arith, length-append s (b'=' ∷ [])) in
    let full : length ((s ++ b'=' ∷ []) ++ b'=' ∷ []) % 4 ≡ 0 =
      omega (arith, length-append s (b'=' ∷ []), length-append (s ++ b'=' ∷ []) (b'=' ∷ [])) in
    rw (h, more, full) (append_assoc s (b'=' ∷ []) (b'=' ∷ []))

abbrev Tail : (ℕ → ℕ) → Bytes → Type 0
Tail letter xs =
    let short = encode_unpadded letter xs in
    ((length short % 4 ≡ 0) × (encode letter xs ≡ short))
    ⊎ ((length short % 4 ≡ 3) × (encode letter xs ≡ short ++ b'=' ∷ []))
    ⊎ ((length short % 4 ≡ 2) × (encode letter xs ≡ short ++ b'=' ∷ b'=' ∷ []))

Tail-of : (letter : ℕ → ℕ) (xs : Bytes) → Tail letter xs
Tail-of letter [] = inl (refl, refl)
Tail-of letter (a ∷ []) = inr (inr (refl, refl))
Tail-of letter (a ∷ b ∷ []) = inr (inl (refl, refl))
Tail-of letter (a ∷ b ∷ c ∷ rest) = elim (Tail-of letter rest) [
  | inl (n, e) ↦ inl (omega arith, rw e)
  | inr (inl (n, e)) ↦ inr (inl (omega arith, rw e))
  | inr (inr (n, e)) ↦ inr (inr (omega arith, rw e))
]

-- Filling up the encoding without padding gives the one with padding.
pub pad_body-encode :
    (letter : ℕ → ℕ) (xs : Bytes) → pad_body (encode_unpadded letter xs) ≡ encode letter xs
pad_body-encode letter xs = elim (Tail-of letter xs) [
  | inl (n, e) ↦ pad_none _ n ∙ sym e
  | inr (inl (n, e)) ↦ pad_one _ n ∙ sym e
  | inr (inr (n, e)) ↦ pad_two _ n ∙ sym e
]

abbrev pub NoDot : Bytes → Type 0
NoDot = All (λ c. c ≢ b'.')

split_dots-append : (p r : Bytes) → NoDot p → split_dots (p ++ b'.' ∷ r) ≡ p ∷ split_dots r
unfolding split_dots
split_dots-append [] r h = refl
split_dots-append (c ∷ p) r h = ground (arith, split_dots-append p r h.1)

split_dots_none : (p : Bytes) → NoDot p → split_dots p ≡ p ∷ []
unfolding split_dots
split_dots_none [] h = refl
split_dots_none (c ∷ p) h = ground (arith, split_dots_none p h.1)

url_safe-NoDot : (x : ℕ) → x < 64 → url_safe x ≢ b'.'
url_safe-NoDot x h = ground arith

encode-NoDot : (xs : Bytes) → AreBytes xs → NoDot (encode_unpadded url_safe xs)
encode-NoDot [] h = tt
encode-NoDot (a ∷ []) h =
    (url_safe-NoDot (a / 4) (omega arith), (url_safe-NoDot (a % 4 * 16) (omega arith), tt))
encode-NoDot (a ∷ b ∷ []) h = (
  url_safe-NoDot (a / 4) (omega arith),
  (
    url_safe-NoDot (a % 4 * 16 + b / 16) (omega arith),
    (url_safe-NoDot (b % 16 * 4) (omega arith), tt),
  ),
)
encode-NoDot (a ∷ b ∷ c ∷ rest) h = (
  url_safe-NoDot (a / 4) (omega arith),
  (
    url_safe-NoDot (a % 4 * 16 + b / 16) (omega arith),
    (
      url_safe-NoDot (b % 16 * 4 + c / 64) (omega arith),
      (url_safe-NoDot (c % 64) (omega arith), encode-NoDot rest h.1.1.1),
    ),
  ),
)

-- The token with the three parts `header`, the base64url encoding of `body` without padding, and
-- `signature`.
abbrev pub jwt : Bytes → Bytes → Bytes → Bytes
jwt header body signature = header ++ b'.' ∷ (encode_unpadded url_safe body ++ b'.' ∷ signature)

split_dots-jwt :
    (header body signature : Bytes)
    → NoDot header
    → AreBytes body
    → NoDot signature
    → split_dots (jwt header body signature)
      ≡ header ∷ encode_unpadded url_safe body ∷ signature ∷ []
split_dots-jwt header body signature hh hb hs =
    split_dots-append header _ hh
    ∙ ap (◌∷◌ header) (
        split_dots-append (encode_unpadded url_safe body) signature (encode-NoDot body hb)
        ∙ ap (◌∷◌ (encode_unpadded url_safe body)) (split_dots_none signature hs))

module _ (lib : JsonLib) where
  open lib use {Json, parse, value_int64}

  nonempty_token :
      (token : Bytes) (now : ℕ)
      → token ≢ []
      → time_left_seconds lib token now ≡ parts_expiry lib (split_dots token) now
  unfolding time_left_seconds
  nonempty_token [] now h = absurd (h refl)
  nonempty_token (c ∷ token) now h = refl

  jwt-ne-nil : (header body signature : Bytes) → jwt header body signature ≢ []
  jwt-ne-nil [] body signature e = cc
  jwt-ne-nil (c ∷ header) body signature e = cc

  decoded_body :
      (body : Bytes)
      → AreBytes body
      → length (encode url_safe body) * 3 < 2 ^ 64
      → base64_decode (pad_body (encode_unpadded url_safe body)) ≡ body
  decoded_body body h small =
      ap base64_decode (pad_body-encode url_safe body)
      ∙ base64_decode-encode url_safe url_safe-IsAlphabet body h small

  -- On a JWT whose body is a JSON document with the expiry time `expiry`, the time left is the
  -- difference between that and the current time, and 0 once it has passed, as long as three times
  -- the length of the body's padded encoding stays below 2 ^ 64.
  pub time_left_seconds-jwt :
      (header body signature : Bytes) (json : Json) (expiry now : ℕ)
      → NoDot header
      → AreBytes body
      → length (encode url_safe body) * 3 < 2 ^ 64
      → NoDot signature
      → parse body ≡ some json
      → value_int64 json (codes "exp") (pos 0) ≡ some (pos expiry)
      → time_left_seconds lib (jwt header body signature) now ≡ expiry - now
  time_left_seconds-jwt header body signature json expiry now hh hb small hs parsed stated =
      rw
        (
          nonempty_token (jwt header body signature) now (jwt-ne-nil header body signature),
          split_dots-jwt header body signature hh hb hs,
        )
        (unfold parts_expiry in rw (decoded_body body hb small, parsed, stated))
