-- ===== src/Device/Results/Calibration.antt =====
-- `IQM_QDMI_device_job_get_results_calibration_id`.
pub mod Outcome
use qdmi_on_iqm.Base.{
  ◌+◌, Bool, true, false, Option, none, some, [], ◌∷◌, Bytes, codes, length, is_empty, and_then,
  if◌then◌else◌,
}
use qdmi_on_iqm.Qdmi.{QdmiStatus, success, fatal, failed, is_success}
use qdmi_on_iqm.ApiConfig.{url, get_calibration_job_status}
use qdmi_on_iqm.Http.Budget.{Response}
use qdmi_on_iqm.Http.Number.{c_str}
use qdmi_on_iqm.Auth.Manager.{AuthResult, value, throws}
use qdmi_on_iqm.Device.Buffer.{Out, copy_string}
use qdmi_on_iqm.Device.Job.{Job}
use qdmi_on_iqm.Device.Results.Counts.{Fetched}
use qdmi_on_iqm.Device.Results.Serial.{write_result}
use qdmi_on_iqm.Device.Results.Shots.{ResultAnswer}
use qdmi_on_iqm.Device.Online.{Host, Online, Reply, session_get, status_of, thrown}

unfoldable pub write_id : Bytes → Out → QdmiStatus × Out
unfolding write_result copy_string c_str
write_id id out = write_result (length id + 1) (copy_string (c_str id) out.size) out

module _ {W : Type 0} (host : Host W) where
  open host use {lib}
  open host.lib use {Json, parse, find, get_string, value_bool}

  -- The job's status after an error status of the request.
  abbrev pub marked : QdmiStatus → Job Json → Job Json
  marked fatal job = record job { status = failed }
  marked _ job = job

  unfoldable pub store_new_id : Job Json → Option Bytes → Online → W → Fetched host
  store_new_id job none s w = (fatal, job, s, w)
  store_new_id job (some id) s w = (success, record job { new_calibration_set_id = id }, s, w)

  -- `calibration_result`, by its member `success`.
  unfoldable pub after_success_flag : Job Json → Json → Option Bool → Online → W → Fetched host
  unfolding store_new_id
  after_success_flag job result none s w = (fatal, job, s, w)
  after_success_flag job result (some false) s w = (fatal, record job { status = failed }, s, w)
  after_success_flag job result (some true) s w =
      store_new_id job (and_then (find result (codes "calibration_set_id")) get_string) s w

  unfoldable pub read_calibration : Job Json → Option Json → Online → W → Fetched host
  unfolding after_success_flag
  read_calibration job none s w = (fatal, job, s, w)
  read_calibration job (some result) s w =
      after_success_flag job result (value_bool result (codes "success") false) s w

  unfoldable pub after_calibration_reply : Job Json → Reply host → Fetched host
  unfolding read_calibration status_of thrown
  after_calibration_reply job (throws e, s, w) = (thrown e, job, s, w)
  after_calibration_reply job (value r, s, w) =
      if is_success (status_of host r)
      then read_calibration job (and_then (parse r.text) (λ j. find j (codes "result"))) s w
      else (status_of host r, marked (status_of host r) job, s, w)

  unfoldable pub fetch_calibration : Job Json → Online → W → Fetched host
  unfolding after_calibration_reply session_get url
  fetch_calibration job s w =
      if is_empty job.new_calibration_set_id
      then after_calibration_reply job
          (session_get host (url s.server get_calibration_job_status (job.job_id ∷ [])) s w)
      else (success, job, s, w)

  unfoldable pub after_calibration : Out → Fetched host → ResultAnswer host
  unfolding write_id
  after_calibration out (status, job, s, w) =
      if is_success status
      then (write_id job.new_calibration_set_id out, job, s, w)
      else ((status, out), job, s, w)

  unfoldable pub get_results_calibration_id : Out → Job Json → Online → W → ResultAnswer host
  unfolding after_calibration fetch_calibration
  get_results_calibration_id out job s w = after_calibration out (fetch_calibration job s w)
