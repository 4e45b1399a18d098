-- ===== src/Device/Buffer/Tests.antt =====
-- Runs of the queries' answers on concrete calls.
use qdmi_on_iqm.Base.{arith, refl, some, Bytes, [], ◌∷◌, ◌≡◌, codes}
use qdmi_on_iqm.Qdmi.{success}
use qdmi_on_iqm.Http.Number.{c_str}
use qdmi_on_iqm.Device.Buffer.{le_bytes, single_value, list_value, string_value}
use qdmi_on_iqm.Device.Buffer.Protocol.{two_calls, ask, offer}
use qdmi_on_iqm.Device.Buffer.Bounds.{query_in_bounds, Respects}

-- `QB1` and a size_t 20.
abbrev name : Bytes
name = codes "QB1"

abbrev twenty : Bytes
twenty = 20 ∷ 0 ∷ 0 ∷ 0 ∷ 0 ∷ 0 ∷ 0 ∷ 0 ∷ []

abbrev old : Bytes
old = 9 ∷ 9 ∷ 9 ∷ 9 ∷ 9 ∷ 9 ∷ 9 ∷ 9 ∷ []

le_bytes_20 : le_bytes 8 20 ≡ twenty
unfolding le_bytes
le_bytes_20 = refl

string_value_in_8 :
    string_value name (offer 8 old) ≡ (success, offer 8 (81 ∷ 66 ∷ 49 ∷ 0 ∷ 0 ∷ 0 ∷ 0 ∷ 0 ∷ []))
unfolding string_value
string_value_in_8 = refl

two_calls_example :
    (single_value twenty ask ≡ (success, record ask { size_ret = some 8 }))
    × (single_value twenty (offer 8 old) ≡ (success, offer 8 twenty))
    × (string_value name ask ≡ (success, record ask { size_ret = some 4 }))
    × (string_value name (offer 4 (7 ∷ 7 ∷ 7 ∷ 7 ∷ []))
        ≡ (success, offer 4 (81 ∷ 66 ∷ 49 ∷ 0 ∷ [])))
unfolding c_str
two_calls_example = two_calls twenty name old (7 ∷ 7 ∷ 7 ∷ 7 ∷ []) refl refl

query_in_bounds_example :
    Respects (offer 3 old) (single_value twenty (offer 3 old))
    × Respects (offer 3 old) (list_value (twenty ∷ twenty ∷ []) (offer 3 old))
    × Respects (offer 3 old) (string_value name (offer 3 old))
query_in_bounds_example =
    query_in_bounds twenty name (twenty ∷ twenty ∷ []) (offer 3 old) (omega arith)
