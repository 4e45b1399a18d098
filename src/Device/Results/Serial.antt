-- ===== src/Device/Results/Serial.antt =====
-- How results of a job are written to the caller's memory: the texts of
-- `IQM_QDMI_device_job_get_results_hist` and `IQM_QDMI_device_job_get_results_shots` with the sizes
-- that the two functions report before they write. The sizes of texts in memory are below 2^64.
pub mod Texts
use qdmi_on_iqm.Base.{
  ℕ, ◌+◌, ◌-◌, ◌*◌, ◌^◌, Option, none, some, List, [], ◌∷◌, ◌++◌, Bytes, length, ltb, is_empty,
  ◌||◌, if◌then◌else◌,
}
use qdmi_on_iqm.Qdmi.{QdmiStatus, success, fatal, invalidargument}
use qdmi_on_iqm.Device.Buffer.{Out, le_bytes, overwrite, store_size}

-- Unlike a property, the size is stored before the test of the caller's size.
written : ℕ → (Bytes → Bytes) → Out → Option Bytes → QdmiStatus × Out
unfolding store_size
written req_size fill out none = (success, store_size req_size out)
written req_size fill out (some memory) =
    if ltb out.size req_size
    then (invalidargument, store_size req_size out)
    else (success, store_size req_size (record out { value = some (fill memory) }))

unfoldable pub write_result : ℕ → (Bytes → Bytes) → Out → QdmiStatus × Out
unfolding written
write_result req_size fill out = written req_size fill out out.value

-- The sum over the keys, from the number of keys.
unfoldable pub keys_size : ℕ → List (Bytes × ℕ) → ℕ
keys_size total [] = total
keys_size total ((key, count) ∷ counts) = keys_size (total + length key) counts

-- The loop over the keys, each with a comma behind it.
unfoldable pub keys_with_commas : List (Bytes × ℕ) → Bytes
keys_with_commas [] = []
keys_with_commas ((key, count) ∷ counts) = key ++ b',' ∷ keys_with_commas counts

-- `*(data_ptr - 1) = '\0'`.
unfoldable pub end_with_null : Bytes → Bytes
end_with_null [] = []
end_with_null (c ∷ []) = 0 ∷ []
end_with_null (c ∷ d ∷ text) = c ∷ end_with_null (d ∷ text)

abbrev pub nothing : Bytes
nothing = 0 ∷ []

-- `QDMI_JOB_RESULT_HIST_KEYS`.
unfoldable pub write_keys : List (Bytes × ℕ) → Out → QdmiStatus × Out
unfolding write_result keys_size keys_with_commas end_with_null overwrite
write_keys counts out =
    if is_empty counts
    then write_result 1 (overwrite nothing) out
    else write_result (keys_size (length counts) counts)
        (overwrite (end_with_null (keys_with_commas counts))) out

unfoldable pub values_bytes : List (Bytes × ℕ) → Bytes
unfolding le_bytes
values_bytes [] = []
values_bytes ((key, count) ∷ counts) = le_bytes 8 count ++ values_bytes counts

-- `QDMI_JOB_RESULT_HIST_VALUES`.
unfoldable pub write_values : List (Bytes × ℕ) → Out → QdmiStatus × Out
unfolding write_result values_bytes overwrite
write_values counts out = write_result (length counts * 8) (overwrite (values_bytes counts)) out

abbrev pub largest_size : ℕ
largest_size = 2 ^ 64 - 1

-- The loop over the shots, from `req_size` on; `none` where the sum exceeds a `size_t`.
unfoldable pub shots_size_from : ℕ → ℕ → List Bytes → Option ℕ
shots_size_from separator req_size [] = some req_size
shots_size_from separator req_size (shot ∷ shots) =
    let rest = shots_size_from 1 (req_size + (separator + length shot)) shots in
    if ltb (largest_size - req_size) separator
      || ltb (largest_size - req_size - separator) (length shot)
    then none
    else rest

unfoldable pub shots_size : List Bytes → Option ℕ
unfolding shots_size_from
shots_size shots = shots_size_from 0 1 shots

-- The loop that writes: a comma behind each shot but the last, which has a null.
unfoldable pub shots_text : List Bytes → Bytes
shots_text [] = []
shots_text (shot ∷ []) = shot ++ 0 ∷ []
shots_text (shot ∷ next ∷ shots) = shot ++ b',' ∷ shots_text (next ∷ shots)

sized_shots : List Bytes → Out → Option ℕ → QdmiStatus × Out
unfolding write_result shots_text overwrite
sized_shots shots out none = (fatal, out)
sized_shots shots out (some req_size) = write_result req_size (overwrite (shots_text shots)) out

-- The end of `IQM_QDMI_device_job_get_results_shots`.
unfoldable pub write_shots : List Bytes → Out → QdmiStatus × Out
unfolding sized_shots shots_size write_result overwrite
write_shots shots out =
    if is_empty shots
    then write_result 1 (overwrite nothing) out
    else sized_shots shots out (shots_size shots)
