-- ===== src/Device/Results/Lifecycle.antt =====
-- The jobs that a client can hold: each comes from a call that makes a job, by calls on it.
mod Tests
use qdmi_on_iqm.Base.{
  ℕ, zero, suc, ◌≡◌, refl, sym, inl, inr, Bool, false, true, Option, none, some, List, [], ◌∷◌,
  Bytes, replicate, is_some, All,
}
use mathlib.Core.Path.{subst}
use qdmi_on_iqm.Qdmi.{QdmiStatus, success, ProgramFormat}
use qdmi_on_iqm.Device.Buffer.{Out}
use qdmi_on_iqm.Device.Job.{
  Job, ProgramResults, new_job, no_results, JobParameter, job_set_programs, job_set_parameter,
}
use qdmi_on_iqm.Device.Job.Kept.{
  job_set_programs-Leaves, job_set_parameter-results, job_check-results, job_cancel-results,
}
use qdmi_on_iqm.Device.Job.Remote.{Outcome, job_check, job_cancel}
use qdmi_on_iqm.Device.Job.Retrieve.{retrieve_device_job_by_id}
use qdmi_on_iqm.Device.Job.Retrieve.Payload.{IsUnread, ReadsZero}
use qdmi_on_iqm.Device.Job.Retrieve.Outcome.{IsRetrieval, retrieve_device_job_by_id-IsRetrieval}
use qdmi_on_iqm.Device.Job.Submit.{job_submit, job_submit_calibration}
use qdmi_on_iqm.Device.Job.Submit.Kept.{job_submit-LeavesAll, job_submit_calibration-LeavesAll}
use qdmi_on_iqm.Device.Job.Wait.{job_wait}
use qdmi_on_iqm.Device.Job.Wait.Kept.{Keeps, job_wait-Keeps}
use qdmi_on_iqm.Device.Results.{get_results}
use qdmi_on_iqm.Device.Results.Outcome.{IsResultCall}
use qdmi_on_iqm.Device.Results.Shots.{JobResult, ResultAnswer}
use qdmi_on_iqm.Device.Results.Stages.{AllAre, IsStaged}
use qdmi_on_iqm.Device.Results.Once.{get_results-IsResultCall}
use qdmi_on_iqm.Device.Online.{Host, Online}

module _ {W : Type 0} (host : Host W) where
  open host use {lib}
  open host.lib use {Json, empty_object}

  -- The calls of the device interface that make a job or are made on one, with any arguments, in
  -- any state of the session and of the world.
  pub data IsReachable : Job Json → Type 0 where
    created : IsReachable (new_job empty_object)
    retrieved :
        (id : Bytes) (s s' : Online) (w w' : W) {job : Job Json}
        → retrieve_device_job_by_id host true id s w ≡ ((success, some job), s', w')
        → IsReachable job
    given_programs :
        (format : ProgramFormat) (count : ℕ) (sizes : Option (List ℕ))
        (programs : Option (List (Option Bytes))) {job : Job Json}
        → IsReachable job
        → IsReachable (job_set_programs format count sizes programs job).1
    given_parameter :
        (param : JobParameter) (size : ℕ) (value : Option Bytes) {job : Job Json}
        → IsReachable job
        → IsReachable (job_set_parameter lib param size value job).1
    submitted_circuits :
        (s : Online) (w : W) {job : Job Json}
        → IsReachable job
        → IsReachable (job_submit host job s w).job
    submitted_calibration :
        (s : Online) (w : W) {job : Job Json}
        → IsReachable job
        → IsReachable (job_submit_calibration host job s w).job
    checked :
        (s : Online) (w : W) {job : Job Json}
        → IsReachable job
        → IsReachable (job_check host job s w).job
    cancellation :
        (s : Online) (w : W) {job : Job Json}
        → IsReachable job
        → IsReachable (job_cancel host job s w).job
    waited :
        (fuel limit : ℕ) (status : QdmiStatus) (s s' : Online) (w w' : W) {job job' : Job Json}
        → job_wait host fuel limit job s w ≡ some (status, job', s', w')
        → IsReachable job
        → IsReachable job'
    asked :
        (index : ℕ) (result : JobResult) (out : Out) (s : Online) (w : W) {job : Job Json}
        → IsReachable job
        → IsReachable (get_results host index result out job s w).1

  unread_none : (results : List ProgramResults) → All IsUnread results → AllAre false false results
  unread_none [] h = tt
  unread_none (r ∷ results) h = ((h.0.0, h.0.1), unread_none results h.1)

  retrieved-IsUnread :
      (id : Bytes) (job : Job Json) (s : Online) (w : W)
      → IsRetrieval host id ((success, some job), s, w)
      → All IsUnread job.results
  unfolding IsRetrieval
  retrieved-IsUnread id job s w kept = kept.1.4

  fresh_none : (count : ℕ) → AllAre false false (replicate count no_results)
  fresh_none zero = tt
  fresh_none (suc count) = ((refl, refl), fresh_none count)

  result-IsStaged :
      (result : JobResult) (old : Job Json) (answer : ResultAnswer host)
      → IsResultCall host result old answer
      → IsStaged answer.1.results
  unfolding IsResultCall
  result-IsStaged result old answer kept = kept.3

  -- A change of the results that keeps what is stored for each program.
  each_IsStaged :
      (old new : List ProgramResults)
      → ((counted complete : Bool) → AllAre counted complete old → AllAre counted complete new)
      → IsStaged old
      → IsStaged new
  each_IsStaged old new keeps (inl are) = inl (keeps false false are)
  each_IsStaged old new keeps (inr (inl are)) = inr (inl (keeps true false are))
  each_IsStaged old new keeps (inr (inr are)) = inr (inr (keeps true true are))

  abbrev Stores : Bool → Bool → ProgramResults → Type 0
  Stores counted complete r = (is_some r.measurement_keys ≡ counted) × (is_some r.shots ≡ complete)

  -- Of each job that a client can hold, the counts are there for all programs or for none, and its
  -- shots too and only with the counts. The JSON library reads an unsigned number that differs from
  -- zero as another number than zero.
  pub reachable-IsStaged :
      (law : ReadsZero lib) (job : Job Json) → IsReachable job → IsStaged job.results
  reachable-IsStaged law job created = inl tt
  reachable-IsStaged law job (retrieved id s s' w w' e) =
      let kept = retrieve_device_job_by_id-IsRetrieval host law true id s w in
      inl (
        unread_none job.results
          (retrieved-IsUnread id job s' w' (subst (IsRetrieval host id) e kept)))
  reachable-IsStaged law job (given_programs format count sizes programs {job = old} h) =
      job_set_programs-Leaves IsStaged format count sizes programs old
        (reachable-IsStaged law old h) (inl (fresh_none count))
  reachable-IsStaged law job (given_parameter param size value {job = old} h) =
      subst IsStaged (sym (job_set_parameter-results lib param size value old))
        (reachable-IsStaged law old h)
  reachable-IsStaged law job (submitted_circuits s w {job = old} h) =
      each_IsStaged old.results _
        (λ c d. job_submit-LeavesAll host (Stores c d) (λ r fields k. k) old s w)
        (reachable-IsStaged law old h)
  reachable-IsStaged law job (submitted_calibration s w {job = old} h) =
      each_IsStaged old.results _
        (λ c d. job_submit_calibration-LeavesAll host (Stores c d) (λ r fields k. k) old s w)
        (reachable-IsStaged law old h)
  reachable-IsStaged law job (checked s w {job = old} h) =
      subst IsStaged (sym (job_check-results host old s w)) (reachable-IsStaged law old h)
  reachable-IsStaged law job (cancellation s w {job = old} h) =
      subst IsStaged (sym (job_cancel-results host old s w)) (reachable-IsStaged law old h)
  reachable-IsStaged law job (waited fuel limit status s s' w w' {job = old} e h) =
      let same = subst (Keeps host old.results) e (job_wait-Keeps host fuel limit old s w) in
      subst IsStaged (sym same) (reachable-IsStaged law old h)
  reachable-IsStaged law job (asked index result out s w {job = old} h) =
      result-IsStaged result old _
        (get_results-IsResultCall host index result out old s w (reachable-IsStaged law old h))
