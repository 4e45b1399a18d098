-- ===== src/Device/Results/Counts.antt =====
-- The measurement counts of a job's programs: the artifact that
-- `IQM_QDMI_device_job_get_results_hist` downloads, checks and commits.
pub mod Agreement
use qdmi_on_iqm.Base.{
  ℕ, Bool, true, false, not, ◌&&◌, ◌||◌, Option, none, some, List, [], ◌∷◌, Bytes, codes, length,
  map, map?, both, and_then, get_or, is_some, ◌==◌, if◌then◌else◌,
}
use qdmi_on_iqm.Qdmi.{QdmiStatus, success, fatal, is_success}
use qdmi_on_iqm.Json.{JsonLib}
use qdmi_on_iqm.ApiConfig.{url, get_job_artifact_measurement_counts}
use qdmi_on_iqm.Http.Budget.{Response}
use qdmi_on_iqm.Auth.Manager.{AuthResult, value, throws}
use qdmi_on_iqm.Device.Job.{Job, ProgramResults, no_results}
use qdmi_on_iqm.Device.Results.Fields.{Layout, names, offsets_of, normalize_counts}
use qdmi_on_iqm.Device.Online.{Host, Online, Reply, session_get, status_of, thrown}

-- The measurement keys and the counts of one program.
abbrev pub Entry : Type 0
Entry = List Bytes × List (Bytes × ℕ)

abbrev renamed : Layout → Option (List (Bytes × ℕ)) → Option Entry
renamed fields none = none
renamed fields (some counts) = some (names fields, counts)

abbrev placed_entry : Layout → List (Bytes × ℕ) → Option (List (Bytes × ℕ) × ℕ) → Option Entry
placed_entry fields counts none = none
placed_entry fields counts (some (offsets, width)) =
    renamed fields (normalize_counts fields offsets width counts [])

-- One program's entry, normalised where its layout is known.
unfoldable pub normalized_entry : Option Layout → Entry → Option Entry
unfolding offsets_of normalize_counts
normalized_entry none entry = some entry
normalized_entry (some fields) (keys, counts) = placed_entry fields counts (offsets_of fields keys)

module _ (lib : JsonLib) where
  open lib use {Json, find, is_array, is_object, elements, items, get_string, get_unsigned}

  -- `get<std::vector<std::string>>()`.
  abbrev string_list : Option Json → Option (List Bytes)
  string_list none = none
  string_list (some j) = if is_array j then map? get_string (elements j) else none

  abbrev count_of : Bytes × Json → Option (Bytes × ℕ)
  count_of (key, j) = and_then (get_unsigned j) (λ n. some (key, n))

  -- `get<std::map<std::string, size_t>>()`; the members of an object come in the order of keys.
  abbrev count_map : Option Json → Option (List (Bytes × ℕ))
  count_map none = none
  count_map (some j) = if is_object j then map? count_of (items j) else none

  read_entry : Json → Option Entry
  read_entry circuit =
      and_then (string_list (find circuit (codes "measurement_keys")))
        λ keys. and_then (count_map (find circuit (codes "counts"))) λ counts. some (keys, counts)

  -- The loop over the artifact and the programs, which are equally many.
  unfoldable pub read_entries : List Json → List ProgramResults → Option (List Entry)
  unfolding read_entry normalized_entry
  read_entries [] results = some []
  read_entries (circuit ∷ circuits) [] = none
  read_entries (circuit ∷ circuits) (r ∷ results) =
      both (and_then (read_entry circuit) (normalized_entry r.output_layout))
        (read_entries circuits results)

  -- `none`: FATAL, or an exception that becomes FATAL.
  unfoldable pub counts_artifact : List ProgramResults → Option Json → Option (List Entry)
  unfolding read_entries
  counts_artifact results none = none
  counts_artifact results (some artifact) =
      if not (is_array artifact) || not (length (elements artifact) == length results)
      then none
      else read_entries (elements artifact) results

-- The loop that commits the artifact.
unfoldable pub commit_counts : List ProgramResults → List Entry → List ProgramResults
commit_counts results [] = results
commit_counts [] (entry ∷ entries) = []
commit_counts (r ∷ results) ((keys, counts) ∷ entries) =
    record r { measurement_keys = some keys; counts = counts } ∷ commit_counts results entries

module _ {W : Type 0} (host : Host W) where
  open host use {lib}
  open host.lib use {Json, parse}

  abbrev pub Fetched : Type 0
  Fetched = QdmiStatus × Job Json × Online × W

  unfoldable pub store_counts : Job Json → Option (List Entry) → Online → W → Fetched
  unfolding commit_counts
  store_counts job none s w = (fatal, job, s, w)
  store_counts job (some entries) s w =
      (success, record job { results = commit_counts job.results entries }, s, w)

  unfoldable pub after_counts_reply : Job Json → Reply host → Fetched
  unfolding counts_artifact store_counts status_of thrown
  after_counts_reply job (throws e, s, w) = (thrown e, job, s, w)
  after_counts_reply job (value r, s, w) =
      if is_success (status_of host r)
      then store_counts job (counts_artifact lib job.results (parse r.text)) s w
      else (status_of host r, job, s, w)

  -- The download, where the program at `index` has no counts yet.
  unfoldable pub fetch_counts : ℕ → Job Json → Online → W → Fetched
  unfolding after_counts_reply session_get url
  fetch_counts index job s w =
      if is_some (get_or job.results index no_results).measurement_keys
      then (success, job, s, w)
      else after_counts_reply job (
          session_get host (url s.server get_job_artifact_measurement_counts (job.job_id ∷ [])) s w)
