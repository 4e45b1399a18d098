-- ===== src/Device/Results/Outcome.antt =====
-- What a request for a result promises of the job: of counts and shots.
use qdmi_on_iqm.Base.{ℕ, ◌≡◌, ◌≢◌, refl, ◌∙◌, ap, sym, ◌⊎◌, inl, true, Bytes, length, if_intro}
use qdmi_on_iqm.Qdmi.{QdmiStatus, success, failed, JobStatus, is_success}
use qdmi_on_iqm.Device.Buffer.{Out}
use qdmi_on_iqm.Device.Job.{Job}
use qdmi_on_iqm.Device.Results.Stages.{AllAre, IsCounted, IsStaged}
use qdmi_on_iqm.Device.Results.Counts.{Fetched}
use qdmi_on_iqm.Device.Results.Kept.{IsFetch}
use qdmi_on_iqm.Device.Job.Remote.Kept.{is_success-eq}
use qdmi_on_iqm.Device.Results.Shots.{
  JobResult, shots_result, ResultAnswer, after_counts, after_shots,
}
use qdmi_on_iqm.Device.Online.{Host, Online}
use qdmi_on_iqm.Device.Results.Stored.{IsStored}

module _ {W : Type 0} (host : Host W) where
  open host use {lib}
  open host.lib use {Json}

  -- What a request for a result promises of the job.
  unfoldable pub IsResultCall : JobResult → Job Json → ResultAnswer host → Type 0
  IsResultCall result old ((status, out), job, s, w) =
      (job ≡ record old {
        results = job.results;
        status = job.status;
        new_calibration_set_id = job.new_calibration_set_id;
      })
      × ((job.status ≡ old.status) ⊎ (job.status ≡ failed))
      × (length job.results ≡ length old.results)
      × IsStaged job.results
      × (status ≡ success → IsStored result job.results)

  pub refused-IsResultCall :
      (result : JobResult) (job : Job Json) (status : QdmiStatus) (out : Out) (s : Online) (w : W)
      → IsStaged job.results
      → status ≢ success
      → IsResultCall result job ((status, out), job, s, w)
  unfolding IsResultCall
  refused-IsResultCall result job status out s w staged bad =
      (refl, inl refl, refl, staged, λ good. absurd (bad good))

  -- A download that reaches what the result needs, and an answer that is no success without it.
  fetched-IsResultCall :
      (result : JobResult) (old : Job Json) (status : QdmiStatus) (answer : QdmiStatus × Out)
      (job : Job Json) (s : Online) (w : W)
      → IsFetch host (IsStored result) old (status, job, s, w)
      → (answer.0 ≡ success → status ≡ success)
      → IsResultCall result old (answer, job, s, w)
  unfolding IsResultCall IsFetch
  fetched-IsResultCall result old status answer job s w (same, many, staged, reached) only =
      let with = λ (st : JobStatus) (id : Bytes). record old {
        results = job.results;
        status = st;
        new_calibration_set_id = id;
      } in
      let same_status = ap (λ (j : Job Json). j.status) same in
      let same_id = ap (λ (j : Job Json). j.new_calibration_set_id) same in
      (
        same
            ∙ ap (λ st. with st old.new_calibration_set_id) (sym same_status)
            ∙ ap (with job.status) (sym same_id),
        inl same_status,
        many,
        staged,
        λ good. reached (only good),
      )

  pub hist-IsResultCall :
      (index : ℕ) (result : JobResult) (out : Out) (old : Job Json) (f : Fetched host)
      → IsFetch host IsCounted old f
      → (IsStored result ≡ IsCounted)
      → IsResultCall result old (after_counts host index result out f)
  unfolding after_counts
  hist-IsResultCall index result out old (status, job, s, w) fetched same =
      if_intro (IsResultCall result old) (is_success status)
        (λ good.
          fetched-IsResultCall result old status _ job s w (rw same fetched)
            (λ _. is_success-eq status good))
        (λ _. fetched-IsResultCall result old status _ job s w (rw same fetched) (λ good. good))

  pub shots-IsResultCall :
      (index : ℕ) (out : Out) (old : Job Json) (f : Fetched host)
      → IsFetch host (AllAre true true) old f
      → IsResultCall shots_result old (after_shots host index out f)
  unfolding after_shots
  shots-IsResultCall index out old (status, job, s, w) fetched =
      if_intro (IsResultCall shots_result old) (is_success status)
        (λ good.
          fetched-IsResultCall shots_result old status _ job s w fetched
            (λ _. is_success-eq status good))
        (λ _. fetched-IsResultCall shots_result old status _ job s w fetched (λ good. good))
