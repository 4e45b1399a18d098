-- ===== src/Device/Job/Submit.antt =====
-- `Set_output_layout`, `IQM_QDMI_device_job_submit` and its calibration counterpart.
pub mod Layouts
pub mod Kept
pub mod Once
use qdmi_on_iqm.Base.{
  ℕ, zero, suc, Bool, true, false, not, ◌&&◌, ◌||◌, Option, none, some, List, [], ◌∷◌, ◌++◌, Bytes,
  codes, bytes_eq, is_empty, any, if◌then◌else◌, ◌==◌, length,
}
use qdmi_on_iqm.Qdmi.{
  QdmiStatus, success, fatal, invalidargument, badstate, notsupported, JobStatus, created,
  submitted, failed, status_eq, is_success, ProgramFormat, iqmjson, qirbasestring, other_format,
  invalid_format, format_eq,
}
use qdmi_on_iqm.Json.{JsonLib}
use qdmi_on_iqm.ApiConfig.{url, submit_circuit_job, submit_calibration_job}
use qdmi_on_iqm.Http.Budget.{Response}
use qdmi_on_iqm.Auth.Manager.{AuthResult, value, throws}
use qdmi_on_iqm.Device.Job.{Job, ProgramResults}
use qdmi_on_iqm.Device.Job.Native.{text_at, text_of}
use qdmi_on_iqm.Device.Job.Remote.{Outcome, fails}
use qdmi_on_iqm.Device.Online.{Host, Online, Reply, session_post, status_of, thrown}

-- `Program_contents`: without one final null.
unfoldable pub program_contents : Bytes → Bytes
program_contents [] = []
program_contents (c ∷ []) = if c == 0 then [] else c ∷ []
program_contents (c ∷ d ∷ rest) = c ∷ program_contents (d ∷ rest)

-- The output positions, or how the code ends without them: `false` or an exception of the JSON
-- library.
pub data Layout : Type 0 where
  layout : List (Bytes × ℕ) → Layout
  refused broken : Layout

abbrev and_then : Layout → (List (Bytes × ℕ) → Layout) → Layout
and_then (layout fields) next = next fields
and_then refused next = refused
and_then broken next = broken

module _ (lib : JsonLib) where
  open lib use {Json, parse, is_array, is_string, find, elements, get_string}

  abbrev member_of : Option Json → Bytes → Option Json
  member_of none key = none
  member_of (some j) key = find j key

  abbrev is_text : Option Bytes → Bytes → Bool
  is_text none s = false
  is_text (some t) s = bytes_eq t s

  -- One measurement's field, after those before it.
  add_field : List (Bytes × ℕ) → Option Bytes → Option Json → Layout
  add_field fields none locus = broken
  add_field fields (some key) none = broken
  add_field fields (some key) (some locus) =
      if is_empty key
        || not (is_array locus)
        || is_empty (elements locus)
        || any (λ field. bytes_eq field.0 key) fields
      then refused
      else layout (fields ++ (key, length (elements locus)) ∷ [])

  add_instruction : List (Bytes × ℕ) → Json → Option Json → Layout
  unfolding add_field text_at
  add_instruction fields j none = broken
  add_instruction fields j (some name) =
      if not (is_string name && is_text (get_string name) (codes "measure"))
      then layout fields
      else add_field fields (text_of lib (member_of (find j (codes "args")) (codes "key")))
          (find j (codes "locus"))

  output_layout_loop : List Json → List (Bytes × ℕ) → Layout
  unfolding add_instruction
  output_layout_loop [] fields = layout fields
  output_layout_loop (j ∷ rest) fields =
      and_then (add_instruction fields j (find j (codes "name"))) (output_layout_loop rest)

  instructions_layout : Option Json → Layout
  unfolding output_layout_loop
  instructions_layout none = broken
  instructions_layout (some instructions) =
      if is_array instructions then output_layout_loop (elements instructions) [] else refused

  -- `Set_output_layout`, without the assignment at its end.
  unfoldable pub output_layout_of : Json → Layout
  unfolding instructions_layout
  output_layout_of circuit = instructions_layout (find circuit (codes "instructions"))

  -- The loop of `IQM_QDMI_device_job_submit_circuit`: the status where it stops early, the
  -- circuits, and the results with the layouts set so far. There is a result for each program.
  abbrev Built : Type 0
  Built = Option QdmiStatus × List Json × List ProgramResults

  abbrev built_more : Json → ProgramResults → Built → Built
  built_more circuit r (stop, circuits, results) = (stop, circuit ∷ circuits, r ∷ results)

  add_circuit : Json → Layout → ProgramResults → List ProgramResults → Built → Built
  add_circuit circuit (layout fields) r results rest =
      built_more circuit (record r { output_layout = some fields }) rest
  add_circuit circuit refused r results rest = (some invalidargument, [], r ∷ results)
  add_circuit circuit broken r results rest = (some fatal, [], r ∷ results)

  add_json : Option Json → ProgramResults → List ProgramResults → Built → Built
  unfolding add_circuit output_layout_of
  add_json none r results rest = (some fatal, [], r ∷ results)
  add_json (some circuit) r results rest =
      add_circuit circuit (output_layout_of circuit) r results rest

  build_circuits : ProgramFormat → List Bytes → List ProgramResults → Built
  unfolding program_contents add_json format_eq
  build_circuits format [] results = (none, [], results)
  build_circuits format (p ∷ programs) [] = (some fatal, [], [])
  build_circuits format (p ∷ programs) (r ∷ results) =
      let rest = build_circuits format programs results in
      if format_eq format iqmjson
      then add_json (parse (program_contents p)) r results rest
      else built_more (lib.of_string (program_contents p)) r rest

module _ {W : Type 0} (host : Host W) where
  open host use {lib}
  open host.lib use {Json, parse, set_member, array, of_string, of_unsigned, dump}

  store_id : Bool → Job Json → Option Bytes → Online → W → Outcome host
  store_id calibration job none s w = fails host fatal job s w
  store_id calibration job (some id) s w =
      fails host success (record job { job_id = id; calibration = calibration; status = submitted })
        s w

  store_submission : Bool → Job Json → Option Json → Online → W → Outcome host
  unfolding store_id text_at
  store_submission calibration job none s w = fails host fatal job s w
  store_submission calibration job (some j) s w =
      store_id calibration job (text_at lib j (codes "id")) s w

  -- From the request on: the token is obtained before the status becomes FAILED.
  after_submission_reply : Bool → Job Json → Reply host → Outcome host
  unfolding store_submission status_of
  after_submission_reply calibration job (throws e, s, w) = fails host (thrown e) job s w
  after_submission_reply calibration job (value r, s, w) =
      let sent = record job { status = failed } in
      if is_success (status_of host r)
      then store_submission calibration sent (parse r.text) s w
      else fails host fatal sent s w

  post_circuits : Job Json → Option Bytes → Online → W → Outcome host
  unfolding after_submission_reply session_post url
  post_circuits job none s w = fails host fatal job s w
  post_circuits job (some payload) s w =
      after_submission_reply job.calibration job
        (session_post host (url s.server submit_circuit_job (s.alias ∷ [])) payload s w)

  abbrev request_of : Job Json → List Json → Bytes → Json
  request_of job circuits calibration_set =
      set_member
        (set_member (set_member job.run_request_options (codes "circuits") (array circuits))
          (codes "calibration_set_id") (of_string calibration_set))
        (codes "shots") (of_unsigned job.num_shots)

  submit_built :
      Job Json → Option QdmiStatus × List Json × List ProgramResults → Online → W → Outcome host
  unfolding post_circuits
  submit_built job (some status, circuits, results) s w =
      fails host status (record job { results = results }) s w
  submit_built job (none, circuits, results) s w =
      post_circuits (record job { results = results })
        (dump (request_of job circuits s.calibration_set_id)) s w

  -- `IQM_QDMI_device_job_submit`; the session's pointer is not null.
  unfoldable pub job_submit : Job Json → Online → W → Outcome host
  unfolding build_circuits submit_built status_eq format_eq
  job_submit job s w =
      if not (status_eq job.status created)
      then fails host badstate job s w
      else if is_empty job.programs
      then fails host invalidargument job s w
      else if format_eq job.program_format iqmjson || format_eq job.program_format qirbasestring
      then submit_built job (build_circuits lib job.program_format job.programs job.results) s w
      else fails host invalidargument job s w

  submit_single : Job Json → List Bytes → Online → W → Outcome host
  unfolding after_submission_reply session_post url program_contents
  submit_single job [] s w = fails host invalidargument job s w
  submit_single job (p ∷ q ∷ programs) s w = fails host notsupported job s w
  submit_single job (p ∷ []) s w =
      after_submission_reply true job
        (session_post host (url s.server submit_calibration_job []) (program_contents p) s w)

  -- `IQM_QDMI_device_job_submit_calibration`; the session's pointer is not null.
  unfoldable pub job_submit_calibration : Job Json → Online → W → Outcome host
  unfolding submit_single status_eq
  job_submit_calibration job s w =
      if not (status_eq job.status created)
      then fails host badstate job s w
      else if not s.supports_calibration_jobs
      then fails host notsupported job s w
      else submit_single job job.programs s w
