-- ===== src/Device/Job/Native/Updates.antt =====
-- The three ways in which the server's status reaches a job.
use qdmi_on_iqm.Base.{◌≡◌, refl, ◌⊎◌, inl, inr, Option, none, some, Bytes}
use qdmi_on_iqm.Qdmi.{QdmiStatus, success, fatal, JobStatus}
use qdmi_on_iqm.Json.{JsonLib}
use qdmi_on_iqm.Device.Job.{Job}
use qdmi_on_iqm.Device.Job.Native.{
  native_job_status, store_job_status, named_job_status, set_job_status, text_at,
}

module _ (lib : JsonLib) where
  open lib use {Json}

  abbrev pub IsUpdate : Job Json → Option (QdmiStatus × Job Json) → Type 0
  IsUpdate job r =
      (r ≡ none)
      ⊎ ((r ≡ some (fatal, job))
          ⊎ ((status : JobStatus) × (r ≡ some (success, record job { status = status }))))

  store-IsUpdate :
      (job : Job Json) (status : Option JobStatus)
      → IsUpdate job (some (store_job_status lib job status))
  unfolding store_job_status
  store-IsUpdate job none = inr (inl refl)
  store-IsUpdate job (some status) = inr (inr (status, refl))

  named-IsUpdate :
      (job : Job Json) (name : Option Bytes) → IsUpdate job (named_job_status lib job name)
  unfolding named_job_status
  named-IsUpdate job none = inl refl
  named-IsUpdate job (some name) = store-IsUpdate job (native_job_status name)

  pub set_job_status-IsUpdate :
      (job : Job Json) (j : Json) → IsUpdate job (set_job_status lib job j)
  unfolding set_job_status
  set_job_status-IsUpdate job j = named-IsUpdate job (text_at lib j _)
