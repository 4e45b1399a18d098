-- ===== src/Auth/Expiry.antt =====
-- `TokenManager::time_left_seconds`: the expiry that the body of a JWT states.
pub mod Jwt
use qdmi_on_iqm.Base.{
  ℕ, zero, suc, ◌-◌, ◌%◌, Option, none, some, List, [], ◌∷◌, ◌++◌, Bytes, codes, length, ◌==◌,
  if◌then◌else◌,
}
use qdmi_on_iqm.Base.Int.{ℤ, pos, negsuc}
use qdmi_on_iqm.Json.{JsonLib}
use qdmi_on_iqm.Auth.Base64.{base64_decode}

-- The loop over `find('.')` and `substr`: the parts between dots, the last one included.
abbrev extend_first : ℕ → List Bytes → List Bytes
extend_first c [] = (c ∷ []) ∷ []
extend_first c (part ∷ parts) = (c ∷ part) ∷ parts

unfoldable pub split_dots : Bytes → List Bytes
split_dots [] = [] ∷ []
split_dots (c ∷ s) = if c == b'.' then [] ∷ split_dots s else extend_first c (split_dots s)

-- `while (body.length() % 4 != 0) body += '='`. Three rounds reach a multiple of four.
pad_loop : ℕ → Bytes → Bytes
pad_loop zero body = body
pad_loop (suc rounds) body =
    let rest = pad_loop rounds (body ++ b'=' ∷ []) in if length body % 4 == 0 then body else rest

unfoldable pub pad_body : Bytes → Bytes
unfolding pad_loop
pad_body body = pad_loop 3 body

-- The current time is a number of seconds. The subtraction of `int64_t` overflows only for an
-- expiry time that lies below zero by nearly 2 ^ 63.
remaining_seconds : ℤ → ℕ → ℕ
remaining_seconds (pos expiry) now = expiry - now
remaining_seconds (negsuc n) now = 0

module _ (lib : JsonLib) where
  open lib use {Json, parse, value_int64}

  -- `json.value("exp", int64_t{0})` throws at a member of another type, and at no object.
  seconds_of : Option ℤ → ℕ → ℕ
  unfolding remaining_seconds
  seconds_of none now = 0
  seconds_of (some expiry) now = remaining_seconds expiry now

  body_expiry : Option Json → ℕ → ℕ
  unfolding seconds_of
  body_expiry none now = 0
  body_expiry (some json) now = seconds_of (value_int64 json (codes "exp") (pos 0)) now

  parts_expiry : List Bytes → ℕ → ℕ
  unfolding body_expiry
  parts_expiry (header ∷ body ∷ signature ∷ []) now =
      body_expiry (parse (base64_decode (pad_body body))) now
  parts_expiry _ now = 0

  unfoldable pub time_left_seconds : Bytes → ℕ → ℕ
  unfolding parts_expiry
  time_left_seconds [] now = 0
  time_left_seconds (c ∷ token) now = parts_expiry (split_dots (c ∷ token)) now
