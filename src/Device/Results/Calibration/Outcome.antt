-- ===== src/Device/Results/Calibration/Outcome.antt =====
-- What a request for a result promises of the job: of a calibration.
use qdmi_on_iqm.Base.{
  refl, inl, inr, Bool, true, false, Option, none, some, Bytes, is_empty, if_intro,
}
use qdmi_on_iqm.Qdmi.{QdmiStatus, fatal, is_success}
use qdmi_on_iqm.Device.Buffer.{Out}
use qdmi_on_iqm.Device.Job.{Job}
use qdmi_on_iqm.Device.Results.Stages.{IsStaged}
use qdmi_on_iqm.Device.Results.Counts.{Fetched}
use qdmi_on_iqm.Device.Results.Shots.{custom1_result, no_out}
use qdmi_on_iqm.Device.Results.Calibration.{
  marked, store_new_id, after_success_flag, read_calibration, after_calibration_reply,
  after_calibration, fetch_calibration,
}
use qdmi_on_iqm.Auth.Manager.{value, throws}
use qdmi_on_iqm.Device.Online.{Host, Online, Reply, status_of}
use qdmi_on_iqm.Device.Results.Outcome.{IsResultCall}

module _ {W : Type 0} (host : Host W) where
  open host use {lib}
  open host.lib use {Json}

  -- Of the result of a calibration, in every case of its request.
  abbrev pub IsCalibrated : Job Json → Fetched host → Type 0
  IsCalibrated old f = IsResultCall host custom1_result old ((f.0, no_out), f.1, f.2, f.3)

  stored_id-IsCalibrated :
      (job : Job Json) (id : Option Bytes) (s : Online) (w : W)
      → IsStaged job.results
      → IsCalibrated job (store_new_id host job id s w)
  unfolding store_new_id IsResultCall
  stored_id-IsCalibrated job none s w staged = (refl, inl refl, refl, staged, λ _. tt)
  stored_id-IsCalibrated job (some id) s w staged = (refl, inl refl, refl, staged, λ _. tt)

  flag-IsCalibrated :
      (job : Job Json) (result : Json) (flag : Option Bool) (s : Online) (w : W)
      → IsStaged job.results
      → IsCalibrated job (after_success_flag host job result flag s w)
  unfolding after_success_flag IsResultCall
  flag-IsCalibrated job result none s w staged = (refl, inl refl, refl, staged, λ _. tt)
  flag-IsCalibrated job result (some false) s w staged = (refl, inr refl, refl, staged, λ _. tt)
  flag-IsCalibrated job result (some true) s w staged = stored_id-IsCalibrated job _ s w staged

  read-IsCalibrated :
      (job : Job Json) (result : Option Json) (s : Online) (w : W)
      → IsStaged job.results
      → IsCalibrated job (read_calibration host job result s w)
  unfolding read_calibration IsResultCall
  read-IsCalibrated job none s w staged = (refl, inl refl, refl, staged, λ _. tt)
  read-IsCalibrated job (some result) s w staged = flag-IsCalibrated job result _ s w staged

  marked-IsCalibrated :
      (job : Job Json) (status : QdmiStatus) (s : Online) (w : W)
      → IsStaged job.results
      → IsCalibrated job (status, marked host status job, s, w)
  unfolding IsResultCall
  marked-IsCalibrated job fatal s w staged = (refl, inr refl, refl, staged, λ _. tt)
  marked-IsCalibrated job _ s w staged = (refl, inl refl, refl, staged, λ _. tt)

  reply-IsCalibrated :
      (job : Job Json) (r : Reply host)
      → IsStaged job.results
      → IsCalibrated job (after_calibration_reply host job r)
  unfolding after_calibration_reply IsResultCall
  reply-IsCalibrated job (throws e, s, w) staged = (refl, inl refl, refl, staged, λ _. tt)
  reply-IsCalibrated job (value r, s, w) staged =
      if_intro (IsCalibrated job) (is_success (status_of host r))
        (λ _. read-IsCalibrated job _ s w staged)
        (λ _. marked-IsCalibrated job (status_of host r) s w staged)

  pub fetch-IsCalibrated :
      (job : Job Json) (s : Online) (w : W)
      → IsStaged job.results
      → IsCalibrated job (fetch_calibration host job s w)
  unfolding fetch_calibration IsResultCall
  fetch-IsCalibrated job s w staged =
      if_intro (IsCalibrated job) (is_empty job.new_calibration_set_id)
        (λ _. reply-IsCalibrated job _ staged) (λ _. (refl, inl refl, refl, staged, λ _. tt))

  answered-IsResultCall :
      (old : Job Json) (status : QdmiStatus) (answer : QdmiStatus × Out) (job : Job Json)
      (s : Online) (w : W)
      → IsCalibrated old (status, job, s, w)
      → IsResultCall host custom1_result old (answer, job, s, w)
  unfolding IsResultCall
  answered-IsResultCall old status answer job s w kept = (kept.0, kept.1, kept.2, kept.3, λ _. tt)

  pub calibration-IsResultCall :
      (out : Out) (old : Job Json) (f : Fetched host)
      → IsCalibrated old f
      → IsResultCall host custom1_result old (after_calibration host out f)
  unfolding after_calibration
  calibration-IsResultCall out old (status, job, s, w) kept =
      if_intro (IsResultCall host custom1_result old) (is_success status)
        (λ _. answered-IsResultCall old status _ job s w kept)
        (λ _. answered-IsResultCall old status _ job s w kept)
