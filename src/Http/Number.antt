-- ===== src/Http/Number.antt =====
-- The decimal numbers of headers and environment variables: `strtol` and `strtoll` of the C
-- library at base 10 with 64-bit results, and the functions of http_client.cpp that call them.
pub mod RoundTrip
use qdmi_on_iqm.Base.{
  ℕ, zero, suc, ◌+◌, ◌-◌, ◌*◌, ◌%◌, ◌^◌, Bool, true, false, not, ◌&&◌, ◌||◌, Option, none, some, [],
  ◌∷◌, Bytes, ltb, leb, ◌==◌, if◌then◌else◌, is_empty,
}
use qdmi_on_iqm.Base.Int.{ℤ, pos, negsuc}

-- `std::string::c_str` read as a C string: the text up to its first null.
unfoldable pub c_str : Bytes → Bytes
c_str [] = []
c_str (c ∷ s) = if c == 0 then [] else c ∷ c_str s

abbrev is_space : ℕ → Bool
is_space c = c == 32 || leb 9 c && leb c 13

abbrev is_digit : ℕ → Bool
is_digit c = leb b'0' c && leb c b'9'

skip_spaces : Bytes → Bytes
skip_spaces [] = []
skip_spaces (c ∷ s) = if is_space c then skip_spaces s else c ∷ s

-- The value of the digits at the front, over the value `acc` of those before, and what follows.
digits : ℕ → Bytes → ℕ × Bytes
digits acc [] = (acc, [])
digits acc (c ∷ s) =
    let rest = digits (acc * 10 + (c - b'0')) s in if is_digit c then rest else (acc, c ∷ s)

starts_with_digit : Bytes → Bool
starts_with_digit [] = false
starts_with_digit (c ∷ s) = is_digit c

-- What a call leaves behind: the result, the text at `end`, whether `end` has moved, and whether
-- `errno` is ERANGE.
pub record Conversion : Type 0 where
  pub value : ℤ
  pub end : Bytes
  pub moved : Bool
  pub out_of_range : Bool

negate : ℕ → ℤ
negate zero = pos 0
negate (suc n) = negsuc n

convert : Bool → Bytes → Bytes → Conversion
unfolding digits starts_with_digit negate
convert negative text s =
    if starts_with_digit s
    then (let (n, rest) = digits 0 s in
        if negative
        then (if leb n (2 ^ 63)
            then record { value = negate n; end = rest; moved = true; out_of_range = false }
            else record {
              value = negsuc (2 ^ 63 - 1);
              end = rest;
              moved = true;
              out_of_range = true;
            })
        else if ltb n (2 ^ 63)
        then record { value = pos n; end = rest; moved = true; out_of_range = false }
        else record { value = pos (2 ^ 63 - 1); end = rest; moved = true; out_of_range = true })
    else record { value = pos 0; end = text; moved = false; out_of_range = false }

strip_sign : Bytes → Bytes → Conversion
unfolding convert
strip_sign text [] = convert false text []
strip_sign text (c ∷ s) =
    if c == b'-'
    then convert true text s
    else if c == b'+'
    then convert false text s
    else convert false text (c ∷ s)

unfoldable pub strtol : Bytes → Conversion
unfolding skip_spaces strip_sign
strtol text = strip_sign text (skip_spaces text)

-- `Parse_number`.
unfoldable pub parse_number : Bytes → Option ℤ
parse_number value =
    let parsed = strtol (c_str value) in
    if not parsed.moved || not (is_empty parsed.end) || parsed.out_of_range
    then none
    else some parsed.value

-- The conversion of a `long` that is not negative to `int`.
unfoldable pub narrow_to_int : ℕ → ℤ
narrow_to_int n =
    let word = n % 2 ^ 32 in if ltb word (2 ^ 31) then pos word else negsuc (2 ^ 32 - 1 - word)

abbrev pub default_rate_limit_retry_after_seconds : ℕ
default_rate_limit_retry_after_seconds = 30

-- The tests of `Retry_after_seconds` on what `strtol` leaves.
accept_delay : Conversion → ℤ
unfolding narrow_to_int
accept_delay parsed =
    if parsed.moved && is_empty parsed.end && not parsed.out_of_range
    then elim parsed.value [
      | pos seconds ↦ narrow_to_int seconds
      | negsuc _ ↦ pos default_rate_limit_retry_after_seconds
    ]
    else pos default_rate_limit_retry_after_seconds

-- `Retry_after_seconds`, of what the header lookup found.
unfoldable pub retry_after_seconds : Option Bytes → ℤ
unfolding accept_delay
retry_after_seconds none = pos default_rate_limit_retry_after_seconds
retry_after_seconds (some retry_after) = accept_delay (strtol (c_str retry_after))
