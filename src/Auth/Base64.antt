-- ===== src/Auth/Base64.antt =====
-- `Base64_decode`.
pub mod RoundTrip
use qdmi_on_iqm.Base.{
  ℕ, zero, suc, ◌+◌, ◌-◌, ◌*◌, ◌/◌, ◌%◌, ◌^◌, List, [], ◌∷◌, ◌++◌, Bytes, length, take, replicate,
  get_or, ◌==◌, if◌then◌else◌,
}

-- `static_cast<uint32_t>(-1)`.
abbrev miss : ℕ
miss = 2 ^ 32 - 1

-- `count` numbers from `first` on.
abbrev count_from : ℕ → ℕ → List ℕ
count_from zero first = []
count_from (suc count) first = first ∷ count_from count (first + 1)

-- `DECODE_TABLE`, cast to `uint32_t`: both alphabets, and a miss for every other byte.
decode_table : List ℕ
decode_table =
    replicate 43 miss
    ++ ((62 ∷ miss ∷ 62 ∷ miss ∷ 63 ∷ [])
        ++ (count_from 10 52
            ++ (replicate 7 miss
                ++ (count_from 26 0
                    ++ (replicate 4 miss
                        ++ ((63 ∷ miss ∷ []) ++ (count_from 26 26 ++ replicate 133 miss)))))))

unfoldable pub sextet : ℕ → ℕ
unfolding decode_table
sextet c = if c == b'=' then 0 else get_or decode_table c miss

-- The three bytes of a group; the shifts and the sum are those of `uint32_t`.
unfoldable pub emit : ℕ → ℕ → ℕ → ℕ → Bytes
emit a b c d =
    let triple = (a * 2 ^ 18 % 2 ^ 32 + b * 2 ^ 12 % 2 ^ 32 + c * 2 ^ 6 % 2 ^ 32 + d) % 2 ^ 32 in
    triple / 2 ^ 16 % 256 ∷ triple / 2 ^ 8 % 256 ∷ triple % 256 ∷ []

-- The groups of the loop. A sextet that is not there counts as zero.
unfoldable pub groups : Bytes → Bytes
groups [] = []
groups (a ∷ []) = emit (sextet a) 0 0 0
groups (a ∷ b ∷ []) = emit (sextet a) (sextet b) 0 0
groups (a ∷ b ∷ c ∷ []) = emit (sextet a) (sextet b) (sextet c) 0
groups (a ∷ b ∷ c ∷ d ∷ rest) = emit (sextet a) (sextet b) (sextet c) (sextet d) ++ groups rest

-- Padding characters among the last two.
padding : Bytes → ℕ
padding [] = 0
padding (y ∷ []) = if y == b'=' then 1 else 0
padding (x ∷ y ∷ []) = (if y == b'=' then 1 else 0) + (if x == b'=' then 1 else 0)
padding (x ∷ y ∷ z ∷ rest) = padding (y ∷ z ∷ rest)

-- `outlen`, with the product and the difference of `size_t`.
unfoldable pub out_length : Bytes → ℕ
unfolding padding
out_length encoded = (length encoded * 3 % 2 ^ 64 / 4 + 2 ^ 64 - padding encoded) % 2 ^ 64

-- The vector starts with zeros, and a write at its end or behind is skipped. Of the text `=`, for
-- which the code asks for a vector longer than any, there is no call: the caller fills a body up to
-- a multiple of four.
unfoldable pub base64_decode : Bytes → Bytes
base64_decode [] = []
base64_decode (c ∷ s) =
    let decoded = groups (c ∷ s) in
    let size = out_length (c ∷ s) in take size decoded ++ replicate (size - length decoded) 0
