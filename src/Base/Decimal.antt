-- ===== src/Base/Decimal.antt =====
-- `std::to_string` of an unsigned number.
use qdmi_on_iqm.Base.{ℕ, zero, suc, ◌+◌, ◌/◌, ◌%◌, [], ◌∷◌, Bytes, ltb, if◌then◌else◌}

-- Every round takes a digit, so one more round than the number is enough.
unfoldable pub to_string_loop : ℕ → ℕ → Bytes → Bytes
to_string_loop zero n acc = acc
to_string_loop (suc rounds) n acc =
    let rest = to_string_loop rounds (n / 10) ((n % 10 + b'0') ∷ acc) in
    if ltb n 10 then (n + b'0') ∷ acc else rest

unfoldable pub to_string : ℕ → Bytes
unfolding to_string_loop
to_string n = to_string_loop (suc n) n []
