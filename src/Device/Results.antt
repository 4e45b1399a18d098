-- ===== src/Device/Results.antt =====
-- `IQM_QDMI_device_job_get_results`, and the result of a calibration job.
pub mod Fields
pub mod Counts
pub mod Serial
pub mod Shots
pub mod Calibration
pub mod Stages
pub mod Kept
pub mod Stored
pub mod Outcome
pub mod Lifecycle
pub mod Once
mod Tests
use qdmi_on_iqm.Base.{ℕ, Bool, true, false, not, ◌||◌, length, leb, if◌then◌else◌}
use qdmi_on_iqm.Qdmi.{success, invalidargument, badstate, notsupported, outofrange, done, status_eq}
use qdmi_on_iqm.Device.Buffer.{Out}
use qdmi_on_iqm.Device.Job.{Job}
use qdmi_on_iqm.Device.Results.Shots.{
  JobResult, shots_result, hist_keys, hist_values, custom1_result, other_result, invalid_result,
  ResultAnswer, get_results_hist, get_results_shots,
}
use qdmi_on_iqm.Device.Results.Calibration.{get_results_calibration_id}
use qdmi_on_iqm.Device.Online.{Host, Online}
use qdmi_on_iqm.Device.Session.{empty_value}

abbrev pub is_invalid_result : JobResult → Bool
is_invalid_result invalid_result = true
is_invalid_result _ = false

module _ {W : Type 0} (host : Host W) where
  open host use {lib}

  abbrev pub only_done : Job lib.Json → Out → Online → W → ResultAnswer host → ResultAnswer host
  only_done job out s w answer =
      if not (status_eq job.status done) then ((badstate, out), job, s, w) else answer

  -- The `switch`.
  unfoldable pub switch_result : ℕ → JobResult → Out → Job lib.Json → Online → W → ResultAnswer host
  unfolding get_results_shots get_results_hist get_results_calibration_id
  switch_result index shots_result out job s w =
      only_done job out s w (get_results_shots host index out job s w)
  switch_result index hist_keys out job s w =
      only_done job out s w (get_results_hist host index hist_keys out job s w)
  switch_result index hist_values out job s w =
      only_done job out s w (get_results_hist host index hist_values out job s w)
  switch_result index custom1_result out job s w =
      only_done job out s w (get_results_calibration_id host out job s w)
  switch_result index _ out job s w = ((notsupported, out), job, s, w)

  unfoldable pub get_results : ℕ → JobResult → Out → Job lib.Json → Online → W → ResultAnswer host
  unfolding switch_result status_eq
  get_results index result out job s w =
      if empty_value out.size out.value || is_invalid_result result
      then ((invalidargument, out), job, s, w)
      else if leb (length job.results) index
      then ((outofrange, out), job, s, w)
      else switch_result index result out job s w
