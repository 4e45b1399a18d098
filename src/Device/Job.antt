-- ===== src/Device/Job.antt =====
-- The job handle of src/iqm_device.cpp and the calls on it that make no request. The handle is not
-- null: each call answers INVALIDARGUMENT for a null one before anything else.
pub mod Native
pub mod Remote
pub mod Wait
pub mod Submit
pub mod Query
pub mod Retrieve
pub mod Kept
pub mod Programs
mod Tests
use qdmi_on_iqm.Base.{
  both, ℕ, zero, suc, ◌+◌, ◌-◌, Bool, true, false, not, ◌&&◌, ◌||◌, Option, none, some, List, [],
  ◌∷◌, Bytes, codes, bytes_eq, get_or, length, take, replicate, any, is_empty, is_some, ltb, leb,
  ◌==◌, if◌then◌else◌,
}
use qdmi_on_iqm.Qdmi.{
  QdmiStatus, success, fatal, invalidargument, badstate, notsupported, outofrange, JobStatus,
  created, status_eq, ProgramFormat, iqmjson, qirbasestring, other_format, invalid_format,
  format_eq,
}
use qdmi_on_iqm.Json.{JsonLib, string_member}
use qdmi_on_iqm.Device.Buffer.{Out, list_value, single_value}
use qdmi_on_iqm.Device.Session.{from_bytes, empty_value}

-- `Program_results`; a `std::map` is a list of its entries.
pub record ProgramResults : Type 0 where
  pub output_layout : Option (List (Bytes × ℕ))
  pub counts : List (Bytes × ℕ)
  pub measurement_keys : Option (List Bytes)
  pub shots : Option (List Bytes)

abbrev pub no_results : ProgramResults
no_results = record { output_layout = none; counts = []; measurement_keys = none; shots = none }

-- `IQM_QDMI_Device_Job_impl_d` without the pointer to its session.
pub record Job (Json : Type 0) : Type 0 where
  pub job_id : Bytes
  pub retrieved : Bool
  pub calibration : Bool
  pub program_format : ProgramFormat
  pub programs : List Bytes
  pub format_known : Bool
  pub num_shots : ℕ
  pub run_request_options : Json
  pub results : List ProgramResults
  pub new_calibration_set_id : Bytes
  pub status : JobStatus
  pub queue_position : Option ℕ

-- The job that `IQM_QDMI_device_session_create_device_job` makes.
abbrev pub new_job : {Json : Type 0} → Json → Job Json
new_job options = record {
  job_id = [];
  retrieved = false;
  calibration = false;
  program_format = iqmjson;
  programs = [];
  format_known = true;
  num_shots = 1;
  run_request_options = options;
  results = [];
  new_calibration_set_id = [];
  status = created;
  queue_position = none;
}

pub data JobParameter : Type 0 where
  shotsnum job_custom1 other_job_parameter invalid_job_parameter : JobParameter

abbrev is_invalid_parameter : JobParameter → Bool
is_invalid_parameter invalid_job_parameter = true
is_invalid_parameter _ = false

abbrev is_invalid_format : ProgramFormat → Bool
is_invalid_format invalid_format = true
is_invalid_format _ = false

-- `text[size - 1] != '\0'`, or a null earlier.
unfoldable pub badly_terminated : Bytes → ℕ → Bool
badly_terminated text size =
    not (get_or text (size - 1) 0 == 0) || any (λ c. c == 0) (take (size - 1) text)

-- One program, with its terminator.
copied : Option Bytes → ℕ → Option Bytes
unfolding badly_terminated
copied none size = none
copied (some text) size =
    if size == 0 || badly_terminated text size then none else some (take size text)

-- The loop from `i` on, over two arrays of `count` entries.
copy_programs : List (Option Bytes) → List ℕ → ℕ → ℕ → Option (List Bytes)
unfolding copied
copy_programs programs sizes i zero = some []
copy_programs programs sizes i (suc left) =
    both (copied (get_or programs i none) (get_or sizes i 0))
      (copy_programs programs sizes (suc i) left)

module _ {Json : Type 0} where
  store_programs : Job Json → ProgramFormat → ℕ → Option (List Bytes) → QdmiStatus × Job Json
  store_programs job format count none = (invalidargument, job)
  store_programs job format count (some programs) = (
    success,
    record job {
      programs = programs;
      results = replicate count no_results;
      program_format = format;
    },
  )

  copy_into :
      Job Json
      → ProgramFormat
      → ℕ
      → Option (List ℕ)
      → Option (List (Option Bytes))
      → QdmiStatus × Job Json
  unfolding copy_programs store_programs
  copy_into job format count (some sizes) (some programs) =
      store_programs job format count (copy_programs programs sizes 0 count)
  copy_into job format count sizes _ = (success, job)

  -- `IQM_QDMI_device_job_set_programs`.
  unfoldable pub job_set_programs :
      ProgramFormat
      → ℕ
      → Option (List ℕ)
      → Option (List (Option Bytes))
      → Job Json
      → QdmiStatus × Job Json
  unfolding copy_into status_eq format_eq
  job_set_programs format count sizes programs job =
      if count == 0 || (is_some programs && not (is_some sizes))
      then (invalidargument, job)
      else if not (status_eq job.status created)
      then (badstate, job)
      else if is_invalid_format format
      then (invalidargument, job)
      else if not (format_eq format iqmjson) && not (format_eq format qirbasestring)
      then (notsupported, job)
      else copy_into job format count sizes programs

  -- `IQM_QDMI_device_job_get_program`.
  unfoldable pub job_get_program : Job Json → ℕ → Out → QdmiStatus × Out
  unfolding single_value
  job_get_program job index out =
      if is_empty job.results
      then (badstate, out)
      else if leb (length job.results) index
      then (outofrange, out)
      else if job.retrieved
      then (notsupported, out)
      else single_value (get_or job.programs index []) out

  -- `IQM_QDMI_device_job_get_program_status`, which never writes a status.
  unfoldable pub job_get_program_status : Job Json → ℕ → QdmiStatus
  job_get_program_status job index =
      if is_empty job.results
      then badstate
      else if leb (length job.results) index
      then outofrange
      else notsupported

module _ (lib : JsonLib) where
  open lib use {Json, parse, is_object, find}

  -- `options.contains("heralding_mode") && options.at("heralding_mode") == "zeros"`.
  abbrev is_text : Option Bytes → Bytes → Bool
  is_text none s = false
  is_text (some t) s = bytes_eq t s

  abbrev pub reserved_options : List Bytes
  reserved_options = codes "circuits" ∷ codes "shots" ∷ codes "calibration_set_id" ∷ []

  -- The options that are allowed, with the status otherwise.
  store_options : Job Json → Option Json → QdmiStatus × Job Json
  store_options job none = (invalidargument, job)
  store_options job (some options) =
      if not (is_object options) || any (λ key. is_some (find options key)) reserved_options
      then (invalidargument, job)
      else if is_text (string_member lib options (codes "heralding_mode")) (codes "zeros")
      then (notsupported, job)
      else (success, record job { run_request_options = options })

  -- `Set_run_request_options`.
  set_run_request_options : ℕ → Bytes → Job Json → QdmiStatus × Job Json
  unfolding badly_terminated store_options
  set_run_request_options size text job =
      if badly_terminated text size
      then (invalidargument, job)
      else store_options job (parse (take (size - 1) text))

  set_shots : ℕ → Bytes → Job Json → QdmiStatus × Job Json
  unfolding from_bytes
  set_shots size memory job =
      if not (size == 8)
      then (invalidargument, job)
      else if from_bytes (take 8 memory) == 0
      then (invalidargument, job)
      else (success, record job { num_shots = from_bytes (take 8 memory) })

  switch_job_parameter : JobParameter → ℕ → Option Bytes → Job Json → QdmiStatus × Job Json
  unfolding set_shots set_run_request_options
  switch_job_parameter shotsnum size none job = (success, job)
  switch_job_parameter shotsnum size (some memory) job = set_shots size memory job
  switch_job_parameter job_custom1 size none job = (success, job)
  switch_job_parameter job_custom1 size (some text) job = set_run_request_options size text job
  switch_job_parameter _ size value job = (notsupported, job)

  -- `IQM_QDMI_device_job_set_parameter`.
  unfoldable pub job_set_parameter :
      JobParameter → ℕ → Option Bytes → Job Json → QdmiStatus × Job Json
  unfolding switch_job_parameter status_eq
  job_set_parameter param size value job =
      if empty_value size value || is_invalid_parameter param
      then (invalidargument, job)
      else if not (status_eq job.status created)
      then (badstate, job)
      else switch_job_parameter param size value job
