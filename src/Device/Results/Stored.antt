-- ===== src/Device/Results/Stored.antt =====
-- A result that is stored is answered from memory.
use qdmi_on_iqm.Base.{
  ℕ, ◌<◌, ◌≡◌, refl, Bool, true, false, not, ◌||◌, List, length, get_or, is_some, leb, arith,
  if_intro,
}
use qdmi_on_iqm.Qdmi.{done, is_success, status_eq}
use qdmi_on_iqm.Device.Buffer.{Out}
use qdmi_on_iqm.Device.Session.{empty_value}
use qdmi_on_iqm.Device.Job.{Job, ProgramResults, no_results}
use qdmi_on_iqm.Device.Results.Stages.{AllAre, AllAre-at, IsCounted, counts_at}
use qdmi_on_iqm.Device.Results.Counts.{fetch_counts}
use qdmi_on_iqm.Device.Results.Shots.{
  JobResult, shots_result, hist_keys, hist_values, custom1_result, other_result, invalid_result,
  ResultAnswer, get_results_hist, get_results_shots, fetch_shots,
}
use qdmi_on_iqm.Device.Results.{get_results, switch_result, is_invalid_result}
use qdmi_on_iqm.Device.Online.{Host, Online}

abbrev pub of_programs : JobResult → Bool
of_programs shots_result = true
of_programs hist_keys = true
of_programs hist_values = true
of_programs _ = false

-- What a result needs to have stored. That of a calibration is not among the programs'.
abbrev pub IsStored : JobResult → List ProgramResults → Type 0
IsStored shots_result results = AllAre true true results
IsStored hist_keys results = IsCounted results
IsStored hist_values results = IsCounted results
IsStored _ results = Unit

module _ {W : Type 0} (host : Host W) where
  open host use {lib}
  open host.lib use {Json}

  -- No request is made and nothing changes.
  abbrev pub Stays : Job Json → Online → W → ResultAnswer host → Type 0
  Stays job s w answer = (answer.1 ≡ job) × (answer.2 ≡ s) × (answer.3 ≡ w)

  hist-Stays :
      (index : ℕ) (result : JobResult) (out : Out) (job : Job Json) (s : Online) (w : W)
      → is_some (get_or job.results index no_results).measurement_keys ≡ true
      → Stays job s w (get_results_hist host index result out job s w)
  unfolding get_results_hist fetch_counts is_success
  hist-Stays index result out job s w stored = rw stored (refl, refl, refl)

  shots-Stays :
      (index : ℕ) (out : Out) (job : Job Json) (s : Online) (w : W)
      → is_some (get_or job.results index no_results).shots ≡ true
      → Stays job s w (get_results_shots host index out job s w)
  unfolding get_results_shots fetch_shots is_success
  shots-Stays index out job s w stored = rw stored (refl, refl, refl)

  stored-Stays :
      (index : ℕ) (result : JobResult) (out : Out) (job : Job Json) (s : Online) (w : W)
      → index < length job.results
      → of_programs result ≡ true
      → IsStored result job.results
      → Stays job s w (switch_result host index result out job s w)
  unfolding switch_result
  stored-Stays index shots_result out job s w h kind stored =
      if_intro (Stays job s w) (not (status_eq job.status done)) (λ _. (refl, refl, refl))
        (λ _. shots-Stays index out job s w (AllAre-at true true job.results index h stored).1)
  stored-Stays index hist_keys out job s w h kind stored =
      if_intro (Stays job s w) (not (status_eq job.status done)) (λ _. (refl, refl, refl))
        (λ _. hist-Stays index hist_keys out job s w (counts_at job.results index h stored))
  stored-Stays index hist_values out job s w h kind stored =
      if_intro (Stays job s w) (not (status_eq job.status done)) (λ _. (refl, refl, refl))
        (λ _. hist-Stays index hist_values out job s w (counts_at job.results index h stored))
  stored-Stays index custom1_result out job s w h kind stored = ground arith
  stored-Stays index other_result out job s w h kind stored = ground arith
  stored-Stays index invalid_result out job s w h kind stored = ground arith

  pub get_results-Stays :
      (index : ℕ) (result : JobResult) (out : Out) (job : Job Json) (s : Online) (w : W)
      → of_programs result ≡ true
      → IsStored result job.results
      → Stays job s w (get_results host index result out job s w)
  unfolding get_results
  get_results-Stays index result out job s w kind stored =
      if_intro (Stays job s w) (empty_value out.size out.value || is_invalid_result result)
        (λ _. (refl, refl, refl))
        (λ _.
          if_intro (Stays job s w) (leb (length job.results) index) (λ _. (refl, refl, refl))
            (λ inside. stored-Stays index result out job s w (ground arith) kind stored))
