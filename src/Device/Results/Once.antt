-- ===== src/Device/Results/Once.antt =====
-- `IQM_QDMI_device_job_get_results` as a whole: what it leaves of the job, and that one download
-- serves every later call.
use qdmi_on_iqm.Base.{
  ℕ, ◌<◌, ◌≡◌, refl, inr, Bool, true, false, not, ◌||◌, List, length, leb, arith, if_intro,
}
use qdmi_on_iqm.Qdmi.{success, done, status_eq, badstate, notsupported, invalidargument, outofrange}
use qdmi_on_iqm.Device.Buffer.{Out}
use qdmi_on_iqm.Device.Session.{empty_value}
use qdmi_on_iqm.Device.Job.{Job, ProgramResults}
use qdmi_on_iqm.Device.Results.Stages.{IsStaged}
use qdmi_on_iqm.Device.Results.Kept.{fetch_counts-IsFetch, fetch_shots-IsFetch}
use qdmi_on_iqm.Device.Results.Shots.{
  JobResult, shots_result, hist_keys, hist_values, custom1_result, other_result, invalid_result,
  ResultAnswer, get_results_hist, get_results_shots,
}
use qdmi_on_iqm.Device.Results.{get_results, switch_result, is_invalid_result, only_done}
use qdmi_on_iqm.Device.Results.Calibration.{get_results_calibration_id}
use qdmi_on_iqm.Device.Online.{Host, Online}
use qdmi_on_iqm.Device.Results.Stored.{IsStored, Stays, of_programs, get_results-Stays}
use qdmi_on_iqm.Device.Results.Outcome.{
  IsResultCall, refused-IsResultCall, hist-IsResultCall, shots-IsResultCall,
}
use qdmi_on_iqm.Device.Results.Calibration.Outcome.{fetch-IsCalibrated, calibration-IsResultCall}

-- What is stored for one result serves the other.
abbrev pub serves : JobResult → JobResult → Bool
serves shots_result result = of_programs result
serves result hist_keys = of_programs result
serves result hist_values = of_programs result
serves result _ = false

serves-IsStored :
    (first then_result : JobResult) (results : List ProgramResults)
    → serves first then_result ≡ true
    → IsStored first results
    → (of_programs then_result ≡ true) × IsStored then_result results
serves-IsStored shots_result shots_result results h stored = (refl, stored)
serves-IsStored shots_result hist_keys results h stored = (refl, inr stored)
serves-IsStored shots_result hist_values results h stored = (refl, inr stored)
serves-IsStored hist_keys hist_keys results h stored = (refl, stored)
serves-IsStored hist_keys hist_values results h stored = (refl, stored)
serves-IsStored hist_values hist_keys results h stored = (refl, stored)
serves-IsStored hist_values hist_values results h stored = (refl, stored)
serves-IsStored _ _ results h stored = ground arith

module _ {W : Type 0} (host : Host W) where
  open host use {lib}
  open host.lib use {Json}

  done_only :
      (result : JobResult) (out : Out) (job : Job Json) (s : Online) (w : W)
      (answer : ResultAnswer host)
      → IsStaged job.results
      → IsResultCall host result job answer
      → IsResultCall host result job (only_done host job out s w answer)
  done_only result out job s w answer staged kept =
      if_intro (IsResultCall host result job) (not (status_eq job.status done))
        (λ _. refused-IsResultCall host result job badstate out s w staged (λ h. ground arith))
        (λ _. kept)

  switch-IsResultCall :
      (index : ℕ) (result : JobResult) (out : Out) (job : Job Json) (s : Online) (w : W)
      → index < length job.results
      → IsStaged job.results
      → IsResultCall host result job (switch_result host index result out job s w)
  unfolding switch_result get_results_shots get_results_hist get_results_calibration_id
  switch-IsResultCall index shots_result out job s w h staged =
      done_only shots_result out job s w _ staged
        (shots-IsResultCall host index out job _ (fetch_shots-IsFetch host index job s w h staged))
  switch-IsResultCall index hist_keys out job s w h staged =
      done_only hist_keys out job s w _ staged (
        hist-IsResultCall host index hist_keys out job _
          (fetch_counts-IsFetch host index job s w h staged) refl)
  switch-IsResultCall index hist_values out job s w h staged =
      done_only hist_values out job s w _ staged (
        hist-IsResultCall host index hist_values out job _
          (fetch_counts-IsFetch host index job s w h staged) refl)
  switch-IsResultCall index custom1_result out job s w h staged =
      done_only custom1_result out job s w _ staged
        (calibration-IsResultCall host out job _ (fetch-IsCalibrated host job s w staged))
  switch-IsResultCall index other_result out job s w h staged =
      refused-IsResultCall host other_result job notsupported out s w staged (λ e. ground arith)
  switch-IsResultCall index invalid_result out job s w h staged =
      refused-IsResultCall host invalid_result job notsupported out s w staged (λ e. ground arith)

  -- Where the job's counts are there for all programs or for none, and its shots too and only with
  -- the counts, they are so after any request for a result; the job changes in nothing but its
  -- results, its status, which can only turn to failed, and its new calibration identifier; the
  -- number of programs stays; and a success means that the counts, or the shots, of all are there.
  pub get_results-IsResultCall :
      (index : ℕ) (result : JobResult) (out : Out) (job : Job Json) (s : Online) (w : W)
      → IsStaged job.results
      → IsResultCall host result job (get_results host index result out job s w)
  unfolding get_results
  get_results-IsResultCall index result out job s w staged =
      if_intro (IsResultCall host result job)
        (empty_value out.size out.value || is_invalid_result result)
        (λ _.
          refused-IsResultCall host result job invalidargument out s w staged (λ h. ground arith))
        (λ _.
          if_intro (IsResultCall host result job) (leb (length job.results) index)
            (λ _.
              refused-IsResultCall host result job outofrange out s w staged (λ h. ground arith))
            (λ inside. switch-IsResultCall index result out job s w (ground arith) staged))

  reached :
      (result : JobResult) (old : Job Json) (answer : ResultAnswer host)
      → IsResultCall host result old answer
      → answer.0.0 ≡ success
      → IsStored result answer.1.results
  unfolding IsResultCall
  reached result old answer kept good = kept.4 good

  -- After a successful request for the shots of a program, no request for shots or counts of any
  -- program of the job contacts the server again or changes the job; after one for the keys or the
  -- values of its histogram, none for keys or values does.
  pub one_download :
      (index index' : ℕ) (first later : JobResult) (out out' : Out) (job : Job Json) (s s' : Online)
      (w w' : W)
      → IsStaged job.results
      → serves first later ≡ true
      → (get_results host index first out job s w).0.0 ≡ success
      → (let after = (get_results host index first out job s w).1 in
          Stays host after s' w' (get_results host index' later out' after s' w'))
  one_download index index' first later out out' job s s' w w' staged covers good =
      let kept = get_results-IsResultCall index first out job s w staged in
      let after = (get_results host index first out job s w).1 in
      let stored =
        serves-IsStored first later after.results covers
          (reached first job (get_results host index first out job s w) kept good) in
      get_results-Stays host index' later out' after s' w' stored.0 stored.1
