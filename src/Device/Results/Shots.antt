-- ===== src/Device/Results/Shots.antt =====
-- The shots of a job's programs: `IQM_QDMI_device_job_get_results_hist` on the counts that it has
-- fetched, and `IQM_QDMI_device_job_get_results_shots`, which calls it first.
pub mod Agreement
use qdmi_on_iqm.Base.{
  ℕ, suc, Bool, true, false, not, ◌&&◌, ◌||◌, Option, none, some, List, [], ◌∷◌, ◌++◌, Bytes,
  length, map, replicate, reverse, all, both, and_then, get_or, is_some, is_empty, ◌==◌,
  if◌then◌else◌,
}
use qdmi_on_iqm.Qdmi.{QdmiStatus, success, fatal, is_success}
use qdmi_on_iqm.Json.{JsonLib}
use qdmi_on_iqm.ApiConfig.{url, get_job_artifact_measurements}
use qdmi_on_iqm.Auth.Manager.{value, throws}
use qdmi_on_iqm.Device.Buffer.{Out}
use qdmi_on_iqm.Device.Job.{Job, ProgramResults, no_results}
use qdmi_on_iqm.Device.Results.Fields.{Layout}
use qdmi_on_iqm.Device.Results.Counts.{Fetched, fetch_counts}
use qdmi_on_iqm.Device.Results.Serial.{write_keys, write_values, write_shots}
use qdmi_on_iqm.Device.Online.{Host, Online, Reply, session_get, status_of, thrown}

-- The width that a layout gives to its field at an index.
abbrev width_at : Option Layout → ℕ → Option ℕ
width_at none i = none
width_at (some fields) i = some (get_or fields i ([], 0)).1

abbrev differs : Option ℕ → ℕ → Bool
differs none n = false
differs (some m) n = not (n == m)

abbrev extended : Bytes → Option Bytes → Option Bytes
extended shot none = none
extended shot (some bits) = some (shot ++ bits)

-- The keys of a program. They are there once the counts are, which are stored for all programs.
abbrev pub keys_of_program : ProgramResults → List Bytes
keys_of_program r = elim r.measurement_keys [ none ↦ [] | some keys ↦ keys ]

module _ (lib : JsonLib) where
  open lib use {Json, find, is_array, is_object, elements, size, is_number_integer, equals_unsigned}

  abbrev pub bit : Json → Option ℕ
  bit j =
      if not (is_number_integer j) || (not (equals_unsigned j 0) && not (equals_unsigned j 1))
      then none
      else some (if equals_unsigned j 0 then b'0' else b'1')

  unfoldable pub read_bits : List Json → Option Bytes
  read_bits [] = some []
  read_bits (j ∷ bits) = both (bit j) (read_bits bits)

  -- The loop over the shots for one key. `width` is that of the shot before.
  add_values : Option ℕ → Option ℕ → List Bytes → List Json → Option (List Bytes)
  unfolding read_bits
  add_values layout_width width [] values = some []
  add_values layout_width width (shot ∷ shots) [] = none
  add_values layout_width width (shot ∷ shots) (bits ∷ values) =
      let found = length (elements bits) in
      let rest = add_values layout_width (some found) shots values in
      if not (is_array bits)
        || is_empty (elements bits)
        || differs width found
        || differs layout_width found
      then none
      else both (extended shot (read_bits (elements bits))) rest

  add_key : Option ℕ → List Bytes → Option Json → Option (List Bytes)
  unfolding add_values
  add_key layout_width shots none = none
  add_key layout_width shots (some values) =
      if not (is_array values) || not (length (elements values) == length shots)
      then none
      else add_values layout_width none shots (elements values)

  -- The loop over the keys, from the index `i` on.
  add_keys : Json → Option Layout → ℕ → List Bytes → List Bytes → Option (List Bytes)
  unfolding add_key
  add_keys measurements layout i [] shots = some shots
  add_keys measurements layout i (key ∷ keys) shots =
      and_then (add_key (width_at layout i) shots (find measurements key))
        (add_keys measurements layout (suc i) keys)

  abbrev size_of : Option Json → Option ℕ
  size_of none = none
  size_of (some j) = some (size j)

  -- The number of shots of a program.
  abbrev pub shots_number : Bool → ℕ → Json → List Bytes → Option ℕ
  shots_number false num_shots measurements keys = some num_shots
  shots_number true num_shots measurements [] = none
  shots_number true num_shots measurements (key ∷ keys) = size_of (find measurements key)

  abbrev in_program_order : Option Layout → List Bytes → List Bytes
  in_program_order none shots = shots
  in_program_order (some fields) shots = map reverse shots

  -- One program; `none` stands for FATAL.
  unfoldable pub program_shots : Bool → ℕ → ProgramResults → Json → Option (List Bytes)
  unfolding add_keys
  program_shots retrieved num_shots r measurements =
      let keys = keys_of_program r in
      if not (is_object measurements)
        || size measurements == 0
        || not (size measurements == length keys)
      then none
      else and_then (shots_number retrieved num_shots measurements keys) λ n.
        and_then (add_keys measurements r.output_layout 0 keys (replicate n []))
          λ shots. some (in_program_order r.output_layout shots)

  unfoldable pub programs_shots :
      Bool → ℕ → List ProgramResults → List Json → Option (List (List Bytes))
  unfolding program_shots
  programs_shots retrieved num_shots [] artifact = some []
  programs_shots retrieved num_shots (r ∷ results) [] = none
  programs_shots retrieved num_shots (r ∷ results) (measurements ∷ artifact) =
      both (program_shots retrieved num_shots r measurements)
        (programs_shots retrieved num_shots results artifact)

  -- The whole artifact. It is empty where nothing is measured.
  unfoldable pub shots_artifact :
      Bool → ℕ → List ProgramResults → Option Json → Option (List (List Bytes))
  unfolding programs_shots
  shots_artifact retrieved num_shots results none = none
  shots_artifact retrieved num_shots results (some artifact) =
      let circuits = elements artifact in
      if not (is_array artifact)
        || (not (is_empty circuits) && not (length circuits == length results))
      then none
      else if is_empty circuits && not (all (λ r. is_empty (keys_of_program r)) results)
      then none
      else if is_empty circuits
      then some (replicate (length results) [])
      else programs_shots retrieved num_shots results circuits

-- The loop that commits the shots.
unfoldable pub commit_shots : List ProgramResults → List (List Bytes) → List ProgramResults
commit_shots results [] = results
commit_shots [] (shots ∷ all_shots) = []
commit_shots (r ∷ results) (shots ∷ all_shots) =
    record r { shots = some shots } ∷ commit_shots results all_shots

pub data JobResult : Type 0 where
  shots_result hist_keys hist_values custom1_result other_result invalid_result : JobResult

abbrev pub no_out : Out
no_out = record { size = 0; value = none; size_ret = none }

module _ {W : Type 0} (host : Host W) where
  open host use {lib}
  open host.lib use {Json, parse}

  abbrev pub ResultAnswer : Type 0
  ResultAnswer = (QdmiStatus × Out) × Job Json × Online × W

  unfoldable pub write_hist : JobResult → List (Bytes × ℕ) → Out → QdmiStatus × Out
  unfolding write_keys write_values
  write_hist hist_keys counts out = write_keys counts out
  write_hist _ counts out = write_values counts out

  unfoldable pub after_counts : ℕ → JobResult → Out → Fetched host → ResultAnswer
  unfolding write_hist
  after_counts index result out (status, job, s, w) =
      if is_success status
      then (write_hist result (get_or job.results index no_results).counts out, job, s, w)
      else ((status, out), job, s, w)

  -- `IQM_QDMI_device_job_get_results_hist`.
  unfoldable pub get_results_hist : ℕ → JobResult → Out → Job Json → Online → W → ResultAnswer
  unfolding after_counts fetch_counts
  get_results_hist index result out job s w =
      after_counts index result out (fetch_counts host index job s w)

  unfoldable pub store_shots : Job Json → Option (List (List Bytes)) → Online → W → Fetched host
  unfolding commit_shots
  store_shots job none s w = (fatal, job, s, w)
  store_shots job (some shots) s w =
      (success, record job { results = commit_shots job.results shots }, s, w)

  unfoldable pub after_shots_reply : Job Json → Reply host → Fetched host
  unfolding shots_artifact store_shots status_of thrown
  after_shots_reply job (throws e, s, w) = (thrown e, job, s, w)
  after_shots_reply job (value r, s, w) =
      if is_success (status_of host r)
      then store_shots job
          (shots_artifact lib job.retrieved job.num_shots job.results (parse r.text)) s w
      else (status_of host r, job, s, w)

  unfoldable pub download_shots : ResultAnswer → Fetched host
  unfolding after_shots_reply session_get url
  download_shots ((status, out), job, s, w) =
      if is_success status
      then after_shots_reply job
          (session_get host (url s.server get_job_artifact_measurements (job.job_id ∷ [])) s w)
      else (status, job, s, w)

  unfoldable pub fetch_shots : ℕ → Job Json → Online → W → Fetched host
  unfolding download_shots get_results_hist
  fetch_shots index job s w =
      if is_some (get_or job.results index no_results).shots
      then (success, job, s, w)
      else download_shots (get_results_hist index hist_keys no_out job s w)

  abbrev shots_of_program : ProgramResults → List Bytes
  shots_of_program r = elim r.shots [ none ↦ [] | some shots ↦ shots ]

  unfoldable pub after_shots : ℕ → Out → Fetched host → ResultAnswer
  unfolding write_shots
  after_shots index out (status, job, s, w) =
      if is_success status
      then (write_shots (shots_of_program (get_or job.results index no_results)) out, job, s, w)
      else ((status, out), job, s, w)

  -- `IQM_QDMI_device_job_get_results_shots`.
  unfoldable pub get_results_shots : ℕ → Out → Job Json → Online → W → ResultAnswer
  unfolding after_shots fetch_shots
  get_results_shots index out job s w = after_shots index out (fetch_shots index job s w)
