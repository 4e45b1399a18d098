-- ===== src/Device/Job/Query/Answers.antt =====
-- What a query of a job's property writes and changes.
use qdmi_on_iqm.Base.{
  ℕ, ◌≡◌, ◌≢◌, refl, ◌||◌, not, Option, none, some, Bytes, is_empty, length, if_intro,
}
use qdmi_on_iqm.Qdmi.{invalidargument, badstate, notsupported, is_success, ProgramFormat}
use qdmi_on_iqm.Device.Buffer.{Out, le_bytes}
use qdmi_on_iqm.Device.Buffer.Bounds.{
  HasRoom, Respects, Respects-error, single_value-Respects, string_value-Respects,
}
use qdmi_on_iqm.Device.Job.{Job}
use qdmi_on_iqm.Device.Job.Query.{
  JobProperty, id_property, queueposition, programsnum, programformat, shotsnum_property,
  custom1_property, other_property, invalid_property, is_invalid_property, is_queued,
  position_value, queue_position_value, stored_value, switch_property, job_query_property, Answer,
}
use qdmi_on_iqm.Device.Job.Remote.{Outcome, job_check}
use qdmi_on_iqm.Device.Online.{Host, Online}
use qdmi_on_iqm.Device.Session.{empty_value}

module _ {W : Type 0} (host : Host W) (format_number : ProgramFormat → ℕ) where
  open host use {lib}

  position_value-Respects :
      (position : Option ℕ) (out : Out)
      → HasRoom out.size out.value
      → Respects out (position_value host format_number position out)
  unfolding position_value
  position_value-Respects none out room = Respects-error notsupported out
  position_value-Respects (some n) out room = single_value-Respects (le_bytes 8 n) out room

  queue_position_value-Respects :
      (o : Outcome host) (out : Out)
      → HasRoom out.size out.value
      → Respects out (queue_position_value host format_number o out)
  unfolding queue_position_value
  queue_position_value-Respects o out room =
      if_intro (Respects out) (not (is_success o.answer)) (λ _. Respects-error o.answer out)
        λ _.
          if_intro (Respects out) (not (is_queued o.told)) (λ _. Respects-error badstate out)
            (λ _. position_value-Respects o.job.queue_position out room)

  stored_value-Respects :
      (prop : JobProperty) (job : Job lib.Json) (set : Bytes) (out : Out)
      → HasRoom out.size out.value
      → Respects out (stored_value host format_number prop job set out)
  unfolding stored_value
  stored_value-Respects id_property job set out room = string_value-Respects job.job_id out room
  stored_value-Respects programsnum job set out room =
      if_intro (Respects out) (is_empty job.results) (λ _. Respects-error badstate out)
        (λ _. single_value-Respects (le_bytes 8 (length job.results)) out room)
  stored_value-Respects programformat job set out room =
      if_intro (Respects out) (is_empty job.results) (λ _. Respects-error badstate out)
        λ _.
          if_intro (Respects out) (job.calibration || not job.format_known)
            (λ _. Respects-error notsupported out)
            (λ _. single_value-Respects (le_bytes 4 (format_number job.program_format)) out room)
  stored_value-Respects shotsnum_property job set out room =
      if_intro (Respects out) job.calibration (λ _. Respects-error notsupported out)
        (λ _. single_value-Respects (le_bytes 8 job.num_shots) out room)
  stored_value-Respects custom1_property job set out room =
      if_intro (Respects out) job.retrieved (λ _. Respects-error notsupported out)
        (λ _. string_value-Respects set out room)
  stored_value-Respects queueposition job set out room = Respects-error notsupported out
  stored_value-Respects other_property job set out room = Respects-error notsupported out
  stored_value-Respects invalid_property job set out room = Respects-error notsupported out

  -- The memory is respected, and only the queue position may change the job.
  pub IsAnswer : JobProperty → Out → Job lib.Json → Online → W → Answer host format_number → Type 0
  IsAnswer prop out job s w (answer, job', s', w') =
      Respects out answer × (prop ≢ queueposition → (job' ≡ job) × (s' ≡ s) × (w' ≡ w))

  switch_property-IsAnswer :
      (prop : JobProperty) (out : Out) (job : Job lib.Json) (s : Online) (w : W)
      → HasRoom out.size out.value
      → IsAnswer prop out job s w (switch_property host format_number prop out job s w)
  unfolding switch_property IsAnswer
  switch_property-IsAnswer queueposition out job s w room =
      (queue_position_value-Respects (job_check host job s w) out room, λ h. absurd (h refl))
  switch_property-IsAnswer id_property out job s w room =
      (stored_value-Respects id_property job s.calibration_set_id out room, λ h. (refl, refl, refl))
  switch_property-IsAnswer programsnum out job s w room =
      (stored_value-Respects programsnum job s.calibration_set_id out room, λ h. (refl, refl, refl))
  switch_property-IsAnswer programformat out job s w room = (
    stored_value-Respects programformat job s.calibration_set_id out room,
    λ h. (refl, refl, refl),
  )
  switch_property-IsAnswer shotsnum_property out job s w room = (
    stored_value-Respects shotsnum_property job s.calibration_set_id out room,
    λ h. (refl, refl, refl),
  )
  switch_property-IsAnswer custom1_property out job s w room = (
    stored_value-Respects custom1_property job s.calibration_set_id out room,
    λ h. (refl, refl, refl),
  )
  switch_property-IsAnswer other_property out job s w room = (
    stored_value-Respects other_property job s.calibration_set_id out room,
    λ h. (refl, refl, refl),
  )
  switch_property-IsAnswer invalid_property out job s w room = (
    stored_value-Respects invalid_property job s.calibration_set_id out room,
    λ h. (refl, refl, refl),
  )

  -- Where the memory holds the promised size, a query of any property writes no further than that
  -- size, and nothing on an error; and a query of another property than the queue position leaves
  -- the job, its session and the world as they were.
  pub job_query_property-IsAnswer :
      (prop : JobProperty) (out : Out) (job : Job lib.Json) (s : Online) (w : W)
      → HasRoom out.size out.value
      → IsAnswer prop out job s w (job_query_property host format_number prop out job s w)
  unfolding job_query_property IsAnswer
  job_query_property-IsAnswer prop out job s w room =
      if_intro (IsAnswer prop out job s w)
        (empty_value out.size out.value || is_invalid_property prop)
        (λ _. (Respects-error invalidargument out, λ h. (refl, refl, refl)))
        (λ _. switch_property-IsAnswer prop out job s w room)
