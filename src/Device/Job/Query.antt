-- ===== src/Device/Job/Query.antt =====
-- `IQM_QDMI_device_job_query_property`.
pub mod Answers
use qdmi_on_iqm.Base.{
  ℕ, Bool, true, false, ◌&&◌, ◌||◌, not, Option, none, some, Bytes, is_empty, length, if◌then◌else◌,
  ◌==◌,
}
use qdmi_on_iqm.Qdmi.{
  QdmiStatus, success, invalidargument, badstate, notsupported, JobStatus, queued, status_eq,
  is_success, ProgramFormat,
}
use qdmi_on_iqm.Device.Buffer.{Out, le_bytes, single_value, string_value}
use qdmi_on_iqm.Device.Job.{Job}
use qdmi_on_iqm.Device.Job.Remote.{Outcome, job_check}
use qdmi_on_iqm.Device.Online.{Host, Online}
use qdmi_on_iqm.Device.Session.{empty_value}

pub data JobProperty : Type 0 where
  id_property queueposition programsnum programformat shotsnum_property : JobProperty
  custom1_property other_property invalid_property : JobProperty

abbrev is_invalid_property : JobProperty → Bool
is_invalid_property invalid_property = true
is_invalid_property _ = false

abbrev number_of : ℕ → Out → QdmiStatus × Out
number_of n out = single_value (le_bytes 8 n) out

abbrev is_queued : Option JobStatus → Bool
is_queued none = false
is_queued (some status) = status_eq status queued

-- The number of a format is an `int` of the QDMI headers.
module _ {W : Type 0} (host : Host W) (format_number : ProgramFormat → ℕ) where
  open host use {lib}

  -- The queue position, as the check has left it.
  position_value : Option ℕ → Out → QdmiStatus × Out
  unfolding le_bytes single_value
  position_value none out = (notsupported, out)
  position_value (some position) out = number_of position out

  queue_position_value : Outcome host → Out → QdmiStatus × Out
  unfolding position_value status_eq is_success
  queue_position_value o out =
      if not (is_success o.answer)
      then (o.answer, out)
      else if not (is_queued o.told)
      then (badstate, out)
      else position_value o.job.queue_position out

  -- The other properties, which make no request.
  stored_value : JobProperty → Job lib.Json → Bytes → Out → QdmiStatus × Out
  unfolding le_bytes single_value string_value
  stored_value id_property job calibration_set out = string_value job.job_id out
  stored_value programsnum job calibration_set out =
      if is_empty job.results then (badstate, out) else number_of (length job.results) out
  stored_value programformat job calibration_set out =
      if is_empty job.results
      then (badstate, out)
      else if job.calibration || not job.format_known
      then (notsupported, out)
      else single_value (le_bytes 4 (format_number job.program_format)) out
  stored_value shotsnum_property job calibration_set out =
      if job.calibration then (notsupported, out) else number_of job.num_shots out
  stored_value custom1_property job calibration_set out =
      if job.retrieved then (notsupported, out) else string_value calibration_set out
  stored_value _ job calibration_set out = (notsupported, out)

  abbrev pub Answer : Type 0
  Answer = (QdmiStatus × Out) × Job lib.Json × Online × W

  switch_property : JobProperty → Out → Job lib.Json → Online → W → Answer
  unfolding job_check queue_position_value stored_value
  switch_property queueposition out job s w =
      let o = job_check host job s w in (queue_position_value o out, o.job, o.session, o.world)
  switch_property prop out job s w = (stored_value prop job s.calibration_set_id out, job, s, w)

  unfoldable pub job_query_property : JobProperty → Out → Job lib.Json → Online → W → Answer
  unfolding switch_property
  job_query_property prop out job s w =
      if empty_value out.size out.value || is_invalid_property prop
      then ((invalidargument, out), job, s, w)
      else switch_property prop out job s w
