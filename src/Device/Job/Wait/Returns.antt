-- ===== src/Device/Job/Wait/Returns.antt =====
-- Waiting with a timeout ends, and success means that the job has.
use qdmi_on_iqm.Base.{
  ℕ, zero, suc, ◌+◌, ◌-◌, ◌*◌, ◌/◌, ◌≤◌, ◌<◌, ◌≡◌, true, false, not, Option, none, some, Bytes,
  arith, if_intro, is_empty, ltb, ap, sym, ◌∙◌,
}
use qdmi_on_iqm.Base.Int.{pos}
use qdmi_on_iqm.Qdmi.{QdmiStatus, success, is_success}
use qdmi_on_iqm.Http.Retry.Forward.{NeverRewinds}
use qdmi_on_iqm.Device.Job.{Job}
use qdmi_on_iqm.Device.Job.Remote.{is_done, Outcome, job_check}
use qdmi_on_iqm.Device.Job.Remote.Forward.{job_check_goes_on}
use qdmi_on_iqm.Device.Job.Wait.{second, Waited, ends_wait, longer, wait_timed, job_wait}
use qdmi_on_iqm.Device.Online.{Host, Online}

not_success :
    {A : Type 0} (status : QdmiStatus) → not (is_success status) ≡ true → status ≡ success → A
unfolding is_success
not_success status failed same =
    let clash : false ≡ true = ap (λ x. not (is_success x)) (sym same) ∙ failed in
    absurd (ground arith)

-- A clock that has reached the limit.
too_late :
    (start now limit : ℕ)
    → start + limit * second ≤ now
    → ltb ((now - start) / second) limit ≡ true
    → ⊥
too_late start now limit late early = ground arith

module _ {W : Type 0} (host : Host W) where
  open host use {lib}

  -- The wait returns, with success only where the job is done.
  pub Returns : Option (Waited host) → Type 0
  Returns none = ⊥
  Returns (some (status, job, s, w)) = status ≡ success → is_done job.status ≡ true

  ends_wait-Returns :
      (o : Outcome host) (again : Option (Waited host))
      → Returns again
      → Returns (ends_wait host o again)
  unfolding Returns is_success
  ends_wait-Returns o again h =
      if_intro Returns (not (is_success o.answer)) (λ failed same. not_success o.answer failed same)
        (λ _. if_intro Returns (is_done o.job.status) (λ finished _. finished) (λ _. h))

module _ {W : Type 0} (host : Host W) (time : W → ℕ) (law : NeverRewinds host.hooks time)
    (reads : (path : Bytes) (w : W) → time w ≤ time (host.auth.read_file path w).1) where
  open host use {lib, hooks}

  wait_timed-Returns :
      (left start limit pause : ℕ) (job : Job lib.Json) (s : Online) (w : W)
      → 0 < pause
      → start + limit * second ≤ time w + left * second
      → Returns host (wait_timed host (suc left) start limit pause job s w)
  unfolding wait_timed Returns
  wait_timed-Returns zero start limit pause job s w positive near =
      if_intro (Returns host) (ltb (((hooks.now w).0 - start) / second) limit)
        (λ early.
          absurd
            (too_late start (hooks.now w).0 limit (omega (arith, law.now_reads w, near)) early))
        (λ late same. ground arith)
  wait_timed-Returns (suc left) start limit pause job s w positive near =
      let o = job_check host job s (hooks.now w).1 in
      if_intro (Returns host) (ltb (((hooks.now w).0 - start) / second) limit)
        (λ early. ends_wait-Returns host o _ (
          wait_timed-Returns left start limit (longer host pause) o.job o.session
            (hooks.sleep (pos pause) o.world) (omega arith)
            (omega (
              arith,
              near,
              law.now_stays w,
              job_check_goes_on host time law reads job s (hooks.now w).1,
              law.sleep_lasts pause o.world,
            ))))
        (λ late same. ground arith)

  -- Over a clock that never goes back and that sleeping moves on, a wait with a timeout of `limit`
  -- seconds returns after at most `limit + 1` checks, and where it answers success the job is done,
  -- canceled or failed.
  pub job_wait-Returns :
      (limit : ℕ) (job : Job lib.Json) (s : Online) (w : W)
      → 0 < limit
      → Returns host (job_wait host (suc limit) limit job s w)
  unfolding job_wait Returns
  job_wait-Returns limit job s w positive =
      if_intro (Returns host) (is_empty job.job_id) (λ _ same. ground arith)
        (λ _.
          if_intro (Returns host) (ltb 0 limit)
            (λ _.
              wait_timed-Returns limit (hooks.now w).0 limit 1 job s (hooks.now w).1 (omega arith)
                (omega (arith, law.now_reads w, law.now_stays w)))
            (λ late. absurd (ground arith)))
