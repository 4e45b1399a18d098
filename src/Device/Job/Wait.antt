-- ===== src/Device/Job/Wait.antt =====
-- `IQM_QDMI_device_job_wait`: the two loops of checks with growing pauses between them.
pub mod Kept
pub mod Returns
use qdmi_on_iqm.Base.{
  ℕ, zero, suc, ◌-◌, ◌*◌, ◌/◌, min, not, Option, none, some, Bytes, ltb, is_empty, if◌then◌else◌,
  ◌==◌,
}
use qdmi_on_iqm.Base.Int.{pos}
use qdmi_on_iqm.Qdmi.{QdmiStatus, success, timeout, invalidargument, is_success}
use qdmi_on_iqm.Device.Job.{Job}
use qdmi_on_iqm.Device.Job.Remote.{is_done, Outcome, job_check}
use qdmi_on_iqm.Device.Online.{Host, Online}

abbrev pub second : ℕ
second = 1_000_000_000

abbrev max_sleep_duration : ℕ
max_sleep_duration = 60

module _ {W : Type 0} (host : Host W) where
  open host use {lib, hooks}

  abbrev pub Waited : Type 0
  Waited = QdmiStatus × Job lib.Json × Online × W

  -- After a check: an error or a job that is done ends the loop.
  abbrev pub ends_wait : Outcome host → Option Waited → Option Waited
  ends_wait o again =
      if not (is_success o.answer)
      then some (o.answer, o.job, o.session, o.world)
      else if is_done o.job.status
      then some (success, o.job, o.session, o.world)
      else again

  abbrev pub longer : ℕ → ℕ
  longer pause = min (pause * 2) max_sleep_duration

  -- The loop with a timeout in seconds; `none` where the fuel runs out.
  unfoldable pub wait_timed : ℕ → ℕ → ℕ → ℕ → Job lib.Json → Online → W → Option Waited
  unfolding job_check is_done
  wait_timed zero start limit pause job s w = none
  wait_timed (suc fuel) start limit pause job s w =
      let (time, w₁) = hooks.now w in
      let o = job_check host job s w₁ in
      let again =
        wait_timed fuel start limit (longer pause) o.job o.session
          (hooks.sleep (pos pause) o.world) in
      if ltb ((time - start) / second) limit then ends_wait o again else some (timeout, job, s, w₁)

  -- The loop without one.
  unfoldable pub wait_untimed : ℕ → ℕ → Job lib.Json → Online → W → Option Waited
  unfolding job_check is_done
  wait_untimed zero pause job s w = none
  wait_untimed (suc fuel) pause job s w =
      let o = job_check host job s w in
      let again =
        wait_untimed fuel (longer pause) o.job o.session (hooks.sleep (pos pause) o.world) in
      if is_done job.status then some (success, job, s, w) else ends_wait o again

  -- `fuel` bounds the checks that the loop makes.
  unfoldable pub job_wait : ℕ → ℕ → Job lib.Json → Online → W → Option Waited
  unfolding wait_timed wait_untimed
  job_wait fuel limit job s w =
      let (start, w') = hooks.now w in
      if is_empty job.job_id
      then some (invalidargument, job, s, w)
      else if ltb 0 limit
      then wait_timed fuel start limit 1 job s w'
      else wait_untimed fuel 1 job s w
