-- ===== src/Device/Results/Kept.antt =====
-- What a request for results leaves of the job.
use qdmi_on_iqm.Base.{
  ℕ, ◌<◌, ◌≡◌, ◌≢◌, refl, ◌∙◌, ap, inl, inr, true, false, Option, none, some, List, [], ◌∷◌, Bytes,
  length, get_or, is_some, arith, if_intro,
}
use qdmi_on_iqm.Qdmi.{QdmiStatus, success, fatal, is_success}
use qdmi_on_iqm.ApiConfig.{url, get_job_artifact_measurements}
use qdmi_on_iqm.Auth.Manager.{value, throws}
use qdmi_on_iqm.Device.Job.{Job, ProgramResults, no_results}
use qdmi_on_iqm.Device.Job.Remote.Kept.{thrown_fails, success_fails, is_success-eq}
use qdmi_on_iqm.Device.Results.Stages.{
  AllAre, IsCounted, IsStaged, IsCounted-at, uncounted_at, complete_at, commit_counts-AllAre,
  commit_shots_complete, counts_artifact-HasLength, shots_artifact-HasLength, HasLength,
}
use qdmi_on_iqm.Device.Results.Counts.{
  Entry, Fetched, fetch_counts, after_counts_reply, store_counts,
}
use qdmi_on_iqm.Device.Results.Shots.{
  ResultAnswer, hist_keys, no_out, get_results_hist, fetch_shots, download_shots, after_counts,
  after_shots_reply, store_shots, write_hist, commit_shots,
}
use qdmi_on_iqm.Device.Online.{Host, Online, Reply, session_get, status_of, thrown}

module _ {W : Type 0} (host : Host W) where
  open host use {lib}
  open host.lib use {Json, parse}

  -- What a download promises: the job changes in its results alone, of which there are as many as
  -- before and of all programs alike; on success they reach `Goal`.
  unfoldable pub IsFetch : (List ProgramResults → Type 0) → Job Json → Fetched host → Type 0
  IsFetch Goal old (status, job, s, w) =
      (job ≡ record old { results = job.results })
      × (length job.results ≡ length old.results)
      × IsStaged job.results
      × (status ≡ success → Goal job.results)

  failed-IsFetch :
      (Goal : List ProgramResults → Type 0) (job : Job Json) (status : QdmiStatus) (s : Online)
      (w : W)
      → IsStaged job.results
      → status ≢ success
      → IsFetch Goal job (status, job, s, w)
  unfolding IsFetch
  failed-IsFetch Goal job status s w staged bad = (refl, refl, staged, λ same. absurd (bad same))

  store_counts-IsFetch :
      (job : Job Json) (entries : Option (List Entry)) (s : Online) (w : W)
      → AllAre false false job.results
      → HasLength (length job.results) entries
      → IsFetch IsCounted job (store_counts host job entries s w)
  unfolding store_counts IsFetch
  store_counts-IsFetch job none s w are many =
      failed-IsFetch IsCounted job fatal s w (inl are) (λ h. ground arith)
  store_counts-IsFetch job (some entries) s w are many =
      let committed = commit_counts-AllAre false false job.results entries many are in
      (refl, committed.0, inr (inl committed.1), λ _. inl committed.1)

  after_counts_reply-IsFetch :
      (job : Job Json) (r : Reply host)
      → AllAre false false job.results
      → IsFetch IsCounted job (after_counts_reply host job r)
  unfolding after_counts_reply
  after_counts_reply-IsFetch job (throws e, s, w) are =
      failed-IsFetch IsCounted job (thrown e) s w (inl are) (thrown_fails e)
  after_counts_reply-IsFetch job (value r, s, w) are =
      if_intro (IsFetch IsCounted job) (is_success (status_of host r))
        (λ _.
          store_counts-IsFetch job _ s w are
            (counts_artifact-HasLength lib job.results (parse r.text)))
        (λ bad.
          failed-IsFetch IsCounted job (status_of host r) s w (inl are)
            (success_fails (status_of host r) bad))

  pub fetch_counts-IsFetch :
      (index : ℕ) (job : Job Json) (s : Online) (w : W)
      → index < length job.results
      → IsStaged job.results
      → IsFetch IsCounted job (fetch_counts host index job s w)
  unfolding fetch_counts IsFetch
  fetch_counts-IsFetch index job s w h staged =
      if_intro (IsFetch IsCounted job)
        (is_some (get_or job.results index no_results).measurement_keys)
        (λ found. (refl, refl, staged, λ _. IsCounted-at job.results index h staged found))
        (λ missing.
          after_counts_reply-IsFetch job _ (uncounted_at job.results index h staged missing))

  -- From a job with its counts, reached from `old`.
  store_shots-IsFetch :
      (old job : Job Json) (shots : Option (List (List Bytes))) (s : Online) (w : W)
      → job ≡ record old { results = job.results }
      → length job.results ≡ length old.results
      → IsCounted job.results
      → HasLength (length job.results) shots
      → IsFetch (AllAre true true) old (store_shots host job shots s w)
  unfolding store_shots IsFetch
  store_shots-IsFetch old job none s w same many are fits = (same, many, inr are, λ h. ground arith)
  store_shots-IsFetch old job (some shots) s w same many are fits =
      let committed = commit_shots_complete job.results shots fits are in
      (
        ap (λ (j : Job Json). record j { results = commit_shots job.results shots }) same,
        committed.0 ∙ many,
        inr (inr committed.1),
        λ _. committed.1,
      )

  after_shots_reply-IsFetch :
      (old job : Job Json) (r : Reply host)
      → job ≡ record old { results = job.results }
      → length job.results ≡ length old.results
      → IsCounted job.results
      → IsFetch (AllAre true true) old (after_shots_reply host job r)
  unfolding after_shots_reply IsFetch
  after_shots_reply-IsFetch old job (throws e, s, w) same many are =
      (same, many, inr are, λ h. absurd (thrown_fails e h))
  after_shots_reply-IsFetch old job (value r, s, w) same many are =
      if_intro (IsFetch (AllAre true true) old) (is_success (status_of host r))
        (λ _.
          store_shots-IsFetch old job _ s w same many are
            (shots_artifact-HasLength lib job.retrieved job.num_shots job.results (parse r.text)))
        (λ bad. (same, many, inr are, λ h. absurd (success_fails (status_of host r) bad h)))

  download_shots-IsFetch :
      (index : ℕ) (old : Job Json) (f : Fetched host)
      → IsFetch IsCounted old f
      → IsFetch
          (AllAre true true)
          old
          (download_shots host (after_counts host index hist_keys no_out f))
  unfolding download_shots after_counts IsFetch
  download_shots-IsFetch index old (status, job, s, w) (same, many, staged, reached) =
      let path = url s.server get_job_artifact_measurements (job.job_id ∷ []) in
      let P = λ (a : ResultAnswer host). IsFetch (AllAre true true) old (download_shots host a) in
      let written = write_hist host hist_keys (get_or job.results index no_results).counts no_out in
      if_intro P (is_success status)
        (λ good.
          if_intro (IsFetch (AllAre true true) old) (is_success written.0)
            (λ _.
              after_shots_reply-IsFetch old job (session_get host path s w) same many
                (reached (is_success-eq status good)))
            (λ bad. (same, many, staged, λ h. absurd (success_fails written.0 bad h))))
        (λ bad. rw bad (same, many, staged, λ h. absurd (success_fails status bad h)))

  pub fetch_shots-IsFetch :
      (index : ℕ) (job : Job Json) (s : Online) (w : W)
      → index < length job.results
      → IsStaged job.results
      → IsFetch (AllAre true true) job (fetch_shots host index job s w)
  unfolding fetch_shots IsFetch get_results_hist
  fetch_shots-IsFetch index job s w h staged =
      if_intro (IsFetch (AllAre true true) job)
        (is_some (get_or job.results index no_results).shots)
        (λ found. (refl, refl, staged, λ _. complete_at job.results index h staged found))
        (λ _.
          download_shots-IsFetch index job (fetch_counts host index job s w)
            (fetch_counts-IsFetch index job s w h staged))
