-- ===== src/Http/Number/RoundTrip.antt =====
-- Reading back the decimal notation of a number, and what narrowing does to a long delay.
use qdmi_on_iqm.Base.{
  ℕ, zero, suc, ◌+◌, ◌/◌, ◌%◌, ◌^◌, ◌<◌, ◌≡◌, refl, ◌∙◌, true, false, some, [], ◌∷◌, Bytes, ltb,
  arith, All, Bool-cases, inl, inr, lt→ltb,
}
use qdmi_on_iqm.Base.Int.{pos}
use qdmi_on_iqm.Base.Decimal.{to_string, to_string_loop}
use qdmi_on_iqm.Http.Number.{
  c_str, skip_spaces, digits, starts_with_digit, convert, strip_sign, Conversion, strtol,
  parse_number, narrow_to_int, retry_after_seconds,
}

digits-to_string_loop :
    (rounds n : ℕ) (acc : Bytes)
    → n < rounds
    → digits 0 (to_string_loop rounds n acc) ≡ digits n acc
unfolding to_string_loop
digits-to_string_loop zero n acc h = absurd (omega arith)
digits-to_string_loop (suc rounds) n acc h = elim (Bool-cases (ltb n 10)) [
  | inl small ↦ rw small (unfold digits in ground arith)
  | inr large ↦
      rw large
        (digits-to_string_loop rounds (n / 10) _ (ground arith) ∙ unfold digits in ground arith)
]

starts-to_string_loop :
    (rounds n : ℕ) (acc : Bytes)
    → n < rounds
    → starts_with_digit (to_string_loop rounds n acc) ≡ true
unfolding to_string_loop starts_with_digit
starts-to_string_loop zero n acc h = absurd (omega arith)
starts-to_string_loop (suc rounds) n acc h =
    ground (arith, starts-to_string_loop rounds (n / 10) ((n % 10 + b'0') ∷ acc))

nonzero-to_string_loop :
    (rounds n : ℕ) (acc : Bytes)
    → All (λ c. 0 < c) acc
    → All (λ c. 0 < c) (to_string_loop rounds n acc)
unfolding to_string_loop
nonzero-to_string_loop zero n acc h = h
nonzero-to_string_loop (suc rounds) n acc h =
    ground (arith, nonzero-to_string_loop rounds (n / 10) ((n % 10 + b'0') ∷ acc))

c_str_nonzero : (s : Bytes) → All (λ c. 0 < c) s → c_str s ≡ s
unfolding c_str
c_str_nonzero [] h = refl
c_str_nonzero (c ∷ s) h = ground (arith, c_str_nonzero s h.1)

skip_spaces_digit : (s : Bytes) → starts_with_digit s ≡ true → skip_spaces s ≡ s
unfolding skip_spaces starts_with_digit
skip_spaces_digit [] h = refl
skip_spaces_digit (c ∷ s) h = ground arith

strip_sign_digit :
    (text s : Bytes) → starts_with_digit s ≡ true → strip_sign text s ≡ convert false text s
unfolding strip_sign starts_with_digit
strip_sign_digit text [] h = refl
strip_sign_digit text (c ∷ s) h = ground arith

abbrev exactly : ℕ → Conversion
exactly n = record { value = pos n; end = []; moved = true; out_of_range = false }

convert-digits :
    (text s : Bytes) (n : ℕ)
    → starts_with_digit s ≡ true
    → digits 0 s ≡ (n, [])
    → n < 2 ^ 63
    → convert false text s ≡ exactly n
unfolding convert
convert-digits text s n starts e h = rw (starts, e) (rw (lt→ltb n (2 ^ 63) h))

strtol-to_string : (n : ℕ) → n < 2 ^ 63 → strtol (c_str (to_string n)) ≡ exactly n
unfolding strtol to_string
strtol-to_string n h =
    let text = to_string_loop (suc n) n [] in
    let starts = starts-to_string_loop (suc n) n [] (omega arith) in
    rw
      (
        c_str_nonzero text (nonzero-to_string_loop (suc n) n [] tt),
        skip_spaces_digit text starts,
        strip_sign_digit text text starts,
      )
      (convert-digits text text n starts
        (digits-to_string_loop (suc n) n [] (omega arith) ∙ unfold digits in refl) h)

-- The decimal notation of a number below 2 ^ 63 is read back as that number.
pub parse_number-to_string : (n : ℕ) → n < 2 ^ 63 → parse_number (to_string n) ≡ some (pos n)
unfolding parse_number
parse_number-to_string n h = rw (strtol-to_string n h)

-- A Retry-After header with the decimal notation of a number below 2 ^ 63 gives that many seconds
-- below 2 ^ 31, and what is left of it in a 32-bit signed integer from there on.
pub retry_after_seconds-to_string :
    (n : ℕ) → n < 2 ^ 63 → retry_after_seconds (some (to_string n)) ≡ narrow_to_int n
unfolding retry_after_seconds
retry_after_seconds-to_string n h = rw (strtol-to_string n h)
