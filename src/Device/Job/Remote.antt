-- ===== src/Device/Job/Remote.antt =====
-- The calls on a job that make a request: check, cancel and the two submissions.
pub mod Forward
pub mod Kept
pub mod Final
use qdmi_on_iqm.Base.{
  ℕ, zero, suc, ◌+◌, ◌-◌, Bool, true, false, not, ◌&&◌, ◌||◌, Option, none, some, List, [], ◌∷◌,
  Bytes, codes, bytes_eq, is_empty, is_some, any, if◌then◌else◌, ◌==◌, length,
}
use qdmi_on_iqm.Qdmi.{
  QdmiStatus, success, fatal, invalidargument, badstate, notsupported, JobStatus, created,
  submitted, queued, done, canceled, failed, status_eq, is_success,
}
use qdmi_on_iqm.Json.{JsonLib, string_member, array_member}
use qdmi_on_iqm.ApiConfig.{
  Endpoint, url, get_job_status, get_calibration_job_status, cancel_job, abort_calibration_job,
}
use qdmi_on_iqm.Http.Budget.{Response}
use qdmi_on_iqm.Auth.Manager.{AuthResult, value, throws}
use qdmi_on_iqm.Device.Job.{Job}
use qdmi_on_iqm.Device.Job.Native.{set_job_status}
use qdmi_on_iqm.Device.Online.{Host, Online, Reply, session_get, session_post, status_of, thrown}

-- `IQM_QDMI_device_job_done`.
unfoldable pub is_done : JobStatus → Bool
is_done done = true
is_done canceled = true
is_done failed = true
is_done _ = false

module _ {W : Type 0} (host : Host W) where
  open host.lib use {Json, parse, find, is_array, elements, get_unsigned, is_number_unsigned}

  -- What a call leaves: its status, what it wrote through the caller's pointer, and the state.
  pub record Outcome : Type 0 where
    pub answer : QdmiStatus
    pub told : Option JobStatus
    pub job : Job Json
    pub session : Online
    pub world : W

  abbrev pub fails : QdmiStatus → Job Json → Online → W → Outcome
  fails status job s w = record { answer = status; told = none; job = job; session = s; world = w }

  abbrev reported_unsigned : Option Json → Option ℕ
  reported_unsigned none = none
  reported_unsigned (some j) = if is_number_unsigned j then get_unsigned j else none

  -- The position, only of a job that is queued.
  abbrev queue_position_of : JobStatus → Json → Option ℕ
  queue_position_of queued j = reported_unsigned (find j (codes "queue_position"))
  queue_position_of _ j = none

  -- The rest of the check, from `Set_job_status` on.
  after_update : Job Json → Json → Option (QdmiStatus × Job Json) → Online → W → Outcome
  after_update old j none s w = fails fatal old s w
  after_update old j (some (status, job)) s w =
      if is_success status
      then record {
        answer = success;
        told = some job.status;
        job = record job { queue_position = queue_position_of job.status j };
        session = s;
        world = w;
      }
      else fails status job s w

  read_status : Job Json → Option Json → Online → W → Outcome
  unfolding after_update set_job_status
  read_status job none s w = fails fatal job s w
  read_status job (some j) s w = after_update job j (set_job_status host.lib job j) s w

  after_status_reply : Job Json → Reply host → Outcome
  unfolding read_status status_of
  after_status_reply job (throws e, s, w) = fails (thrown e) job s w
  after_status_reply job (value r, s, w) =
      if is_success (status_of host r)
      then read_status job (parse r.text) s w
      else fails (status_of host r) job s w

  abbrev status_endpoint : Bool → Endpoint
  status_endpoint true = get_calibration_job_status
  status_endpoint false = get_job_status

  -- `IQM_QDMI_device_job_check`, with the pointers not null.
  unfoldable pub job_check : Job Json → Online → W → Outcome
  unfolding after_status_reply session_get url is_done
  job_check job s w =
      if is_empty job.job_id || is_done job.status
      then record { answer = success; told = some job.status; job = job; session = s; world = w }
      else after_status_reply job
          (session_get host (url s.server (status_endpoint job.calibration) (job.job_id ∷ [])) s w)

  -- `Reports_illegal_job_status`.
  abbrev is_illegal : Option Bytes → Bool
  is_illegal none = false
  is_illegal (some code) = bytes_eq code (codes "illegal_job_status")

  reports_it : Json → Bool
  reports_it j = is_illegal (string_member host.lib j (codes "error_code"))

  in_errors : Json → Option Json → Bool
  unfolding reports_it
  in_errors j none = reports_it j
  in_errors j (some errors) =
      if is_array errors then any reports_it (elements errors) else reports_it j

  unfoldable pub reports_illegal_job_status : Option Json → Bool
  unfolding in_errors
  reports_illegal_job_status none = false
  reports_illegal_job_status (some j) = in_errors j (find j (codes "errors"))

  after_cancel_reply : Job Json → Reply host → Outcome
  unfolding reports_illegal_job_status status_of
  after_cancel_reply job (throws e, s, w) = fails (thrown e) job s w
  after_cancel_reply job (value r, s, w) =
      if is_success (status_of host r)
      then record {
        answer = success;
        told = none;
        job = record job { status = canceled };
        session = s;
        world = w;
      }
      else if reports_illegal_job_status (parse r.text)
      then fails invalidargument job s w
      else fails (status_of host r) job s w

  abbrev cancel_endpoint : Bool → Endpoint
  cancel_endpoint true = abort_calibration_job
  cancel_endpoint false = cancel_job

  -- `IQM_QDMI_device_job_cancel`, with the pointer not null.
  unfoldable pub job_cancel : Job Json → Online → W → Outcome
  unfolding after_cancel_reply session_post url status_eq
  job_cancel job s w =
      if status_eq job.status done || is_empty job.job_id
      then fails invalidargument job s w
      else after_cancel_reply job (
          session_post host (url s.server (cancel_endpoint job.calibration) (job.job_id ∷ [])) [] s
            w)
