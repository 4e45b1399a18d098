-- ===== src/Device/Job/Wait/Kept.antt =====
-- A wait changes a job by its checks alone.
use qdmi_on_iqm.Base.{
  ℕ, zero, suc, ◌≡◌, ◌∙◌, refl, ◌-◌, ◌/◌, not, Option, none, some, List, is_empty, ltb, if_intro,
}
use qdmi_on_iqm.Base.Int.{pos}
use qdmi_on_iqm.Qdmi.{is_success}
use qdmi_on_iqm.Device.Job.{Job, ProgramResults}
use qdmi_on_iqm.Device.Job.Kept.{job_check-results}
use qdmi_on_iqm.Device.Job.Remote.{is_done, Outcome, job_check}
use qdmi_on_iqm.Device.Job.Wait.{
  Waited, second, ends_wait, longer, wait_timed, wait_untimed, job_wait,
}
use qdmi_on_iqm.Device.Online.{Host, Online}

module _ {W : Type 0} (host : Host W) where
  open host use {lib, hooks}

  -- Where the wait returns, the job has these results.
  abbrev pub Keeps : List ProgramResults → Option (Waited host) → Type 0
  Keeps results none = Unit
  Keeps results (some (status, job, s, w)) = job.results ≡ results

  ends_wait-Keeps :
      (results : List ProgramResults) (o : Outcome host) (again : Option (Waited host))
      → o.job.results ≡ results
      → Keeps results again
      → Keeps results (ends_wait host o again)
  ends_wait-Keeps results o again same next =
      if_intro (Keeps results) (not (is_success o.answer)) (λ _. same)
        (λ _. if_intro (Keeps results) (is_done o.job.status) (λ _. same) (λ _. next))

  wait_timed-Keeps :
      (results : List ProgramResults) (fuel start limit pause : ℕ) (job : Job lib.Json) (s : Online)
      (w : W)
      → job.results ≡ results
      → Keeps results (wait_timed host fuel start limit pause job s w)
  unfolding wait_timed
  wait_timed-Keeps results zero start limit pause job s w same = tt
  wait_timed-Keeps results (suc fuel) start limit pause job s w same =
      let (time, w₁) = hooks.now w in
      let o = job_check host job s w₁ in
      let kept = job_check-results host job s w₁ ∙ same in
      if_intro (Keeps results) (ltb ((time - start) / second) limit)
        (λ _. ends_wait-Keeps results o _ kept (
          wait_timed-Keeps results fuel start limit (longer host pause) o.job o.session
            (hooks.sleep (pos pause) o.world) kept))
        (λ _. same)

  wait_untimed-Keeps :
      (results : List ProgramResults) (fuel pause : ℕ) (job : Job lib.Json) (s : Online) (w : W)
      → job.results ≡ results
      → Keeps results (wait_untimed host fuel pause job s w)
  unfolding wait_untimed
  wait_untimed-Keeps results zero pause job s w same = tt
  wait_untimed-Keeps results (suc fuel) pause job s w same =
      let o = job_check host job s w in
      let kept = job_check-results host job s w ∙ same in
      if_intro (Keeps results) (is_done job.status) (λ _. same)
        (λ _. ends_wait-Keeps results o _ kept (
          wait_untimed-Keeps results fuel (longer host pause) o.job o.session
            (hooks.sleep (pos pause) o.world) kept))

  pub job_wait-Keeps :
      (fuel limit : ℕ) (job : Job lib.Json) (s : Online) (w : W)
      → Keeps job.results (job_wait host fuel limit job s w)
  unfolding job_wait
  job_wait-Keeps fuel limit job s w =
      let (start, w') = hooks.now w in
      if_intro (Keeps job.results) (is_empty job.job_id) (λ _. refl)
        (λ _.
          if_intro (Keeps job.results) (ltb 0 limit)
            (λ _. wait_timed-Keeps job.results fuel start limit 1 job s w' refl)
            (λ _. wait_untimed-Keeps job.results fuel 1 job s w refl))
