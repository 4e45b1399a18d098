-- ===== src/Device/Job/Native.antt =====
-- `Set_job_status`: the server's names of a job's status.
pub mod Updates
use qdmi_on_iqm.Base.{
  Option, none, some, List, [], ◌∷◌, Bytes, codes, bytes_eq, is_one_of, if◌then◌else◌,
}
use qdmi_on_iqm.Qdmi.{
  QdmiStatus, success, fatal, JobStatus, created, submitted, queued, running, done, canceled,
  failed,
}
use qdmi_on_iqm.Json.{JsonLib}
use qdmi_on_iqm.Device.Job.{Job}

abbrev pub running_names : List Bytes
running_names =
    codes "validation_started"
    ∷ codes "validation_ended"
    ∷ codes "fetch_calibration_started"
    ∷ codes "fetch_calibration_ended"
    ∷ codes "compilation_started"
    ∷ codes "compilation_ended"
    ∷ codes "save_sweep_metadata_started"
    ∷ codes "save_sweep_metadata_ended"
    ∷ codes "pending execution"
    ∷ codes "pending_execution"
    ∷ codes "execution_started"
    ∷ codes "execution_ended"
    ∷ codes "post_processing_pending"
    ∷ codes "post_processing_started"
    ∷ codes "post_processing_ended"
    ∷ codes "running"
    ∷ codes "processing"
    ∷ codes "accepted"
    ∷ codes "pending compilation"
    ∷ codes "compiled"
    ∷ []

-- The chain of comparisons; `none` is an unknown name.
unfoldable pub native_job_status : Bytes → Option JobStatus
unfolding bytes_eq is_one_of
native_job_status name =
    if bytes_eq name (codes "received")
    then some submitted
    else if is_one_of name (codes "queued" ∷ codes "waiting" ∷ [])
    then some queued
    else if is_one_of name running_names
    then some running
    else if is_one_of name (codes "ready" ∷ codes "completed" ∷ [])
    then some done
    else if is_one_of name (codes "aborted" ∷ codes "cancelled" ∷ [])
    then some canceled
    else if bytes_eq name (codes "failed")
    then some failed
    else none

module _ (lib : JsonLib) where
  open lib use {Json, find, get_string}

  -- `j.at(key).get<std::string>()`: `none` where it throws.
  abbrev pub text_of : Option Json → Option Bytes
  text_of none = none
  text_of (some j) = get_string j

  unfoldable pub text_at : Json → Bytes → Option Bytes
  text_at j key = text_of (find j key)

  store_job_status : Job Json → Option JobStatus → QdmiStatus × Job Json
  store_job_status job none = (fatal, job)
  store_job_status job (some status) = (success, record job { status = status })

  named_job_status : Job Json → Option Bytes → Option (QdmiStatus × Job Json)
  unfolding native_job_status store_job_status
  named_job_status job none = none
  named_job_status job (some name) = some (store_job_status job (native_job_status name))

  -- `none` where the call throws.
  unfoldable pub set_job_status : Job Json → Json → Option (QdmiStatus × Job Json)
  unfolding named_job_status text_at
  set_job_status job response = named_job_status job (text_at response (codes "status"))
