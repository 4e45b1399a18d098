-- ===== src/Device/Job/Remote/Final.antt =====
-- Sequences of calls on one job, and the jobs that none of them changes.
use qdmi_on_iqm.Base.{
  ℕ, ◌≡◌, refl, ◌||◌, ◌&&◌, Bool, true, false, not, Option, List, [], ◌∷◌, Bytes, arith, if_intro,
  is_empty, ◌∙◌, ap, sym, is_some, ◌==◌,
}
use qdmi_on_iqm.Qdmi.{QdmiStatus, JobStatus, done, created, ProgramFormat, status_eq}
use qdmi_on_iqm.Device.Job.{
  Job, JobParameter, job_set_parameter, job_set_programs, is_invalid_parameter,
}
use qdmi_on_iqm.Device.Session.{empty_value}
use qdmi_on_iqm.Device.Job.Remote.{Outcome, is_done, job_check, job_cancel}
use qdmi_on_iqm.Device.Online.{Host, Online}

pub data Call : Type 0 where
  set_parameter : JobParameter → ℕ → Option Bytes → Call
  set_programs : ProgramFormat → ℕ → Option (List ℕ) → Option (List (Option Bytes)) → Call
  check cancel : Call

not_created :
    {A : Type 0} (status : JobStatus) → status ≡ done → not (status_eq status created) ≡ false → A
unfolding status_eq
not_created status h late =
    let clash : true ≡ false = ap (λ x. not (status_eq x created)) (sym h) ∙ late in
    absurd (ground arith)

not_done :
    {A : Type 0} (b : Bool) (status : JobStatus) → status ≡ done → (b || is_done status) ≡ false → A
unfolding is_done
not_done true status h open_ = absurd (ground arith)
not_done false status h open_ =
    let clash : true ≡ false = ap is_done (sym h) ∙ open_ in absurd (ground arith)

module _ {W : Type 0} (host : Host W) where
  open host use {lib}

  abbrev left_by : Outcome host → Job lib.Json × Online × W
  left_by o = (o.job, o.session, o.world)

  -- What one call leaves of the job, its session and the world.
  unfoldable pub call_job : Call → Job lib.Json → Online → W → Job lib.Json × Online × W
  unfolding job_set_parameter job_set_programs job_check job_cancel
  call_job (set_parameter param size value) job s w =
      ((job_set_parameter lib param size value job).1, s, w)
  call_job (set_programs format count sizes programs) job s w =
      ((job_set_programs format count sizes programs job).1, s, w)
  call_job check job s w = left_by (job_check host job s w)
  call_job cancel job s w = left_by (job_cancel host job s w)

  unfoldable pub call_all : List Call → Job lib.Json → Online → W → Job lib.Json × Online × W
  unfolding call_job
  call_all [] job s w = (job, s, w)
  call_all (c ∷ calls) job s w =
      let (job', s', w') = call_job c job s w in call_all calls job' s' w'

  set_parameter-done :
      (param : JobParameter) (size : ℕ) (value : Option Bytes) (job : Job lib.Json)
      → job.status ≡ done
      → (job_set_parameter lib param size value job).1 ≡ job
  unfolding job_set_parameter
  set_parameter-done param size value job h =
      if_intro (λ (r : QdmiStatus × Job lib.Json). r.1 ≡ job)
        (empty_value size value || is_invalid_parameter param) (λ _. refl)
        (λ _.
          if_intro (λ (r : QdmiStatus × Job lib.Json). r.1 ≡ job)
            (not (status_eq job.status created)) (λ _. refl) (not_created job.status h))

  set_programs-done :
      (format : ProgramFormat) (count : ℕ) (sizes : Option (List ℕ))
      (programs : Option (List (Option Bytes))) (job : Job lib.Json)
      → job.status ≡ done
      → (job_set_programs format count sizes programs job).1 ≡ job
  unfolding job_set_programs
  set_programs-done format count sizes programs job h =
      if_intro (λ (r : QdmiStatus × Job lib.Json). r.1 ≡ job)
        (count == 0 || (is_some programs && not (is_some sizes))) (λ _. refl)
        (λ _.
          if_intro (λ (r : QdmiStatus × Job lib.Json). r.1 ≡ job)
            (not (status_eq job.status created)) (λ _. refl) (not_created job.status h))

  call_job-done :
      (c : Call) (job : Job lib.Json) (s : Online) (w : W)
      → job.status ≡ done
      → call_job c job s w ≡ (job, s, w)
  unfolding call_job job_check job_cancel status_eq
  call_job-done (set_parameter param size value) job s w h =
      rw (set_parameter-done param size value job h) refl
  call_job-done (set_programs format count sizes programs) job s w h =
      rw (set_programs-done format count sizes programs job h) refl
  call_job-done check job s w h =
      if_intro (λ (o : Outcome host). left_by o ≡ (job, s, w))
        (is_empty job.job_id || is_done job.status) (λ _. refl)
        (not_done (is_empty job.job_id) job.status h)
  call_job-done cancel job s w h = rw h refl

  -- On a job that is done, no sequence of set_parameter, set_programs, check and cancel calls changes
  -- the job or its session, and none makes a request.
  pub done_is_final :
      (calls : List Call) (job : Job lib.Json) (s : Online) (w : W)
      → job.status ≡ done
      → call_all calls job s w ≡ (job, s, w)
  unfolding call_all
  done_is_final [] job s w h = refl
  done_is_final (c ∷ calls) job s w h =
      rw (call_job-done c job s w h) (done_is_final calls job s w h)
