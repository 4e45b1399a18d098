-- ===== src/Device/Results/Tests.antt =====
-- Runs of the requests for results, against a server with one job of one program.
use qdmi_on_iqm.Base.{
  ℕ, suc, ◌≡◌, refl, true, false, none, some, Option, Bytes, List, [], ◌∷◌, ◌++◌, codes, bytes_eq,
  is_one_of, length, arith, replicate, if◌then◌else◌, ◌==◌, inl, map, all, if_intro,
}
use qdmi_on_iqm.Qdmi.{success, is_success, done}
use qdmi_on_iqm.Json.Tree.{
  null, double, is_arr, size_of, list_of, Tree, flag, number, text, arr, obj, array_of, object_of,
  tree,
}
use qdmi_on_iqm.ApiConfig.{url, get_job_artifact_measurement_counts}
use qdmi_on_iqm.Http.Budget.{Response, empty_budget}
use qdmi_on_iqm.Http.Retry.{Hooks}
use qdmi_on_iqm.Auth.Manager.{no_source}
use qdmi_on_iqm.Device.Online.{Host, Online}
use qdmi_on_iqm.Device.Buffer.Protocol.{offer}
use qdmi_on_iqm.Device.Job.{Job, new_job, no_results}
use mathlib.Core.List.{Permᴰ}
use qdmi_on_iqm.Device.Results.Fields.{names, is_bit}
use qdmi_on_iqm.Device.Results.Fields.Order.{IsReading, AreFresh, outcome}
use qdmi_on_iqm.Device.Results.Counts.{normalized_entry}
use qdmi_on_iqm.Device.Results.Counts.Agreement.{as_listed, histogram, normalized_entry-histogram}
use qdmi_on_iqm.Device.Results.Serial.{write_keys, write_shots}
use qdmi_on_iqm.Device.Results.Serial.Texts.{IsReadBack, keys_of, results-IsReadBack}
use qdmi_on_iqm.Device.Results.Shots.{
  shots_result, hist_keys, hist_values, read_bits, program_shots,
}
use qdmi_on_iqm.Device.Results.Shots.Agreement.{AreMeasured, program_shots-outcome}
use qdmi_on_iqm.Device.Results.Stages.{IsStaged}
use qdmi_on_iqm.Device.Results.Stored.{Stays}
use qdmi_on_iqm.Device.Results.Outcome.{IsResultCall}
use qdmi_on_iqm.Device.Results.Once.{get_results-IsResultCall, one_download}
use qdmi_on_iqm.Device.Results.{get_results}

abbrev counts_document : Tree
counts_document = array_of (
    object_of (
      (codes "counts", object_of ((codes "011", number 2) ∷ []))
      ∷ (codes "measurement_keys", array_of (text (codes "b") ∷ text (codes "a") ∷ []))
      ∷ [])
    ∷ [])

abbrev bits : List ℕ → Tree
bits ns = array_of (map number ns)

abbrev shots_document : Tree
shots_document = array_of (
    object_of (
      (codes "a", array_of (bits (1 ∷ []) ∷ bits (1 ∷ []) ∷ []))
      ∷ (codes "b", array_of (bits (0 ∷ 1 ∷ []) ∷ bits (0 ∷ 1 ∷ []) ∷ []))
      ∷ [])
    ∷ [])

abbrev parsed : Bytes → Option Tree
parsed (c ∷ rest) = if c == b'c' then some counts_document else some shots_document
parsed [] = none

abbrev answer : Bytes → Response
answer body = record {
  url = codes "u";
  status_code = 200;
  text = body;
  header = λ _. none;
  error = none;
}

abbrev counts_url : Bytes
counts_url = codes "https://iqm/api/v1/jobs/7/artifacts/measurement_counts"

-- The world is the number of requests.
abbrev server_hooks : Hooks ℕ
server_hooks = record {
  get =
      λ link token t w. (answer (if bytes_eq link counts_url then codes "c" else codes "m"), suc w);
  post = λ link token body t w. (answer [], suc w);
  sleep = λ d w. w;
  now = λ w. (w, w);
}

abbrev results_server : Host ℕ
results_server = record {
  lib = tree parsed;
  error_message = λ e. [];
  hooks = server_hooks;
  auth = record { read_file = λ path w. (none, w); time = λ w. w };
  env = λ name. none;
}

abbrev session : Online
session = record {
  server = codes "https://iqm";
  manager = record { token_source = no_source; token_source_value = none; access_token = none };
  request_timeout = 1_000;
  rate_limit = empty_budget;
  alias = codes "garnet";
  calibration_set_id = codes "default";
  supports_calibration_jobs = true;
}

abbrev fields : List (Bytes × ℕ)
fields = (codes "a", 1) ∷ (codes "b", 2) ∷ []

abbrev finished_job : Job Tree
finished_job = record (new_job (object_of [])) {
  job_id = codes "7";
  status = done;
  num_shots = 2;
  results = record no_results { output_layout = some fields } ∷ [];
}

-- The url of the counts, and the text of the histogram's key.
counts_at_url :
    url (codes "https://iqm") get_job_artifact_measurement_counts (codes "7" ∷ []) ≡ counts_url
unfolding url
counts_at_url = refl

keys_text :
    (get_results results_server 0 hist_keys (offer 4 (replicate 4 9)) finished_job session 0).0
    ≡ (success, offer 4 (codes "101" ++ 0 ∷ []))
unfolding get_results is_success bytes_eq is_one_of
keys_text = refl

shots_text_run :
    (get_results results_server 0 shots_result (offer 8 (replicate 8 9)) finished_job session 0).0
    ≡ (success, offer 8 (codes "101,101" ++ 0 ∷ []))
unfolding get_results is_success bytes_eq is_one_of
shots_text_run = refl

finished-IsStaged : IsStaged finished_job.results
finished-IsStaged = inl ((refl, refl), tt)

get_results-IsResultCall_example :
    IsResultCall results_server hist_keys finished_job
      (get_results results_server 0 hist_keys (offer 4 (replicate 4 9)) finished_job session 0)
get_results-IsResultCall_example =
    get_results-IsResultCall results_server 0 hist_keys (offer 4 (replicate 4 9)) finished_job
      session 0 finished-IsStaged

shots_succeed :
    (get_results results_server 0 shots_result (offer 8 (replicate 8 9)) finished_job session 0).0.0
    ≡ success
unfolding get_results is_success bytes_eq is_one_of
shots_succeed = refl

one_download_example :
    (let after =
        (get_results results_server 0 shots_result
          (offer 8 (replicate 8 9))
          finished_job
          session
          0).1 in
      Stays results_server after session 5
        (get_results results_server 0 hist_values (offer 8 (replicate 8 9)) after session 5))
one_download_example =
    one_download results_server 0 0 shots_result hist_values (offer 8 (replicate 8 9))
      (offer 8 (replicate 8 9)) finished_job session session 0 5 finished-IsStaged refl
      shots_succeed

-- `a` reads 1, and `b` reads 01.
abbrev reading : Bytes → Bytes
reading [] = []
reading (c ∷ rest) = if c == b'a' then codes "1" else codes "01"

reading-bits : (key : Bytes) → all is_bit (reading key) ≡ true
reading-bits [] = refl
reading-bits (c ∷ rest) = if_intro (λ s. all is_bit s ≡ true) (c == b'a') (λ _. refl) (λ _. refl)

reading-IsReading : IsReading fields reading
unfolding IsReading
reading-IsReading = ((refl, (refl, tt)), reading-bits)

listed-AreFresh : AreFresh [] (codes "b" ∷ codes "a" ∷ [])
unfolding is_one_of bytes_eq
listed-AreFresh = (refl, (refl, tt))

normalized_entry-histogram_example :
    normalized_entry
      (some fields)
      (codes "b" ∷ codes "a" ∷ [], map (as_listed (codes "b" ∷ codes "a" ∷ [])) ((reading, 2) ∷ []))
    ≡ some (names fields, histogram fields ((reading, 2) ∷ []) [])
normalized_entry-histogram_example =
    normalized_entry-histogram fields (codes "b" ∷ codes "a" ∷ []) reading ((reading, 2) ∷ [])
      (refl, (refl, tt)) listed-AreFresh (Permᴰ.swap refl refl) (reading-IsReading, tt)

size_counts : (values : Tree) → is_arr values ≡ true → size_of values ≡ length (list_of values)
size_counts (arr ts) h = refl
size_counts null h = ground arith
size_counts (flag b) h = ground arith
size_counts (number n) h = ground arith
size_counts (double n) h = ground arith
size_counts (text s) h = ground arith
size_counts (obj ts) h = ground arith

abbrev shots_of_program : Tree
shots_of_program = object_of (
    (codes "a", array_of (bits (1 ∷ []) ∷ bits (1 ∷ []) ∷ []))
    ∷ (codes "b", array_of (bits (0 ∷ 1 ∷ []) ∷ bits (0 ∷ 1 ∷ []) ∷ []))
    ∷ [])

measured : AreMeasured (tree parsed) shots_of_program (reading ∷ reading ∷ []) fields
unfolding read_bits bytes_eq
measured = (
  omega arith,
  (array_of (bits (1 ∷ []) ∷ bits (1 ∷ []) ∷ []), refl, refl, ((refl, refl), ((refl, refl), tt))),
  (
    omega arith,
    (
      array_of (bits (0 ∷ 1 ∷ []) ∷ bits (0 ∷ 1 ∷ []) ∷ []),
      refl,
      refl,
      ((refl, refl), ((refl, refl), tt)),
    ),
    tt,
  ),
)

program_shots-outcome_example :
    program_shots
      (tree parsed)
      false
      2
      (record no_results { output_layout = some fields; measurement_keys = some (names fields) })
      shots_of_program
    ≡ some (map (outcome fields) (reading ∷ reading ∷ []))
program_shots-outcome_example =
    program_shots-outcome (tree parsed) false 2 no_results shots_of_program (codes "a") 1
      ((codes "b", 2) ∷ []) (reading ∷ reading ∷ []) size_counts refl refl (λ _. refl)
      ((refl, (refl, tt)), ((refl, (refl, tt)), tt)) measured

results-IsReadBack_example :
    IsReadBack
      (write_keys ((codes "101", 2) ∷ []))
      (keys_of ((codes "101", 2) ∷ []))
      (replicate 4 9)
    × IsReadBack
        (write_shots (codes "101" ∷ codes "101" ∷ []))
        (codes "101" ∷ codes "101" ∷ [])
        (replicate 8 9)
results-IsReadBack_example =
    results-IsReadBack (codes "101", 2) [] (codes "101") (codes "101" ∷ []) (replicate 4 9)
      (replicate 8 9) (refl, tt) (refl, (refl, tt)) (omega arith) refl refl
