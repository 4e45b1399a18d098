-- ===== src/Device/Job/Submit/Once.antt =====
-- What a submission leaves of the job, on every path.
use qdmi_on_iqm.Base.{
  ◌≡◌, ◌≢◌, refl, ◌⊎◌, inl, inr, ◌||◌, Bool, true, not, Option, none, some, List, [], ◌∷◌, Bytes,
  arith, if_intro, is_empty, codes, ap,
}
use qdmi_on_iqm.Qdmi.{
  QdmiStatus, success, fatal, invalidargument, badstate, notsupported, ProgramFormat, created,
  submitted, failed, status_eq, is_success, format_eq, iqmjson, qirbasestring,
}
use qdmi_on_iqm.Json.{JsonLib}
use qdmi_on_iqm.ApiConfig.{url, submit_circuit_job, submit_calibration_job}
use qdmi_on_iqm.Auth.Manager.{value, throws}
use qdmi_on_iqm.Device.Job.{Job, ProgramResults}
use qdmi_on_iqm.Device.Job.Native.{text_at}
use qdmi_on_iqm.Device.Job.Remote.{Outcome, fails}
use qdmi_on_iqm.Device.Job.Remote.Kept.{thrown_fails}
use qdmi_on_iqm.Device.Job.Submit.{
  store_id, store_submission, after_submission_reply, post_circuits, submit_built, submit_single,
  request_of, job_submit, job_submit_calibration, Layout, layout, refused, broken, add_circuit,
  add_json, output_layout_of, build_circuits, program_contents,
}
use qdmi_on_iqm.Device.Online.{Host, Online, Reply, session_post, status_of, thrown}

module _ (lib : JsonLib) where
  open lib use {Json, parse, of_string}

  -- The building of the circuits never stops with success.
  abbrev StopsWithError : Option QdmiStatus × List Json × List ProgramResults → Type 0
  StopsWithError built = built.0 ≢ some success

  add_circuit-StopsWithError :
      (circuit : Json) (fields : Layout) (r : ProgramResults) (results : List ProgramResults)
      (rest : Option QdmiStatus × List Json × List ProgramResults)
      → StopsWithError rest
      → StopsWithError (add_circuit lib circuit fields r results rest)
  unfolding add_circuit
  add_circuit-StopsWithError circuit (layout fields) r results rest h = h
  add_circuit-StopsWithError circuit refused r results rest h = λ e. ground arith
  add_circuit-StopsWithError circuit broken r results rest h = λ e. ground arith

  add_json-StopsWithError :
      (circuit : Option Json) (r : ProgramResults) (results : List ProgramResults)
      (rest : Option QdmiStatus × List Json × List ProgramResults)
      → StopsWithError rest
      → StopsWithError (add_json lib circuit r results rest)
  unfolding add_json
  add_json-StopsWithError none r results rest h = λ e. ground arith
  add_json-StopsWithError (some circuit) r results rest h =
      add_circuit-StopsWithError circuit (output_layout_of lib circuit) r results rest h

  build_circuits-StopsWithError :
      (format : ProgramFormat) (programs : List Bytes) (results : List ProgramResults)
      → StopsWithError (build_circuits lib format programs results)
  unfolding build_circuits
  build_circuits-StopsWithError format [] results = λ e. ground arith
  build_circuits-StopsWithError format (p ∷ programs) [] = λ e. ground arith
  build_circuits-StopsWithError format (p ∷ programs) (r ∷ results) =
      let rest = build_circuits lib format programs results in
      let ih = build_circuits-StopsWithError format programs results in
      if_intro StopsWithError (format_eq format iqmjson)
        (λ _. add_json-StopsWithError (parse (program_contents p)) r results rest ih) (λ _. ih)

module _ {W : Type 0} (host : Host W) where
  open host use {lib}
  open host.lib use {Json, parse, dump}

  -- Success, with the job submitted; or an error, with the job's identifier kept and its status
  -- either kept or failed.
  pub IsSubmission : Job Json → Outcome host → Type 0
  IsSubmission old o =
      ((o.answer ≡ success) × (o.job.status ≡ submitted))
      ⊎ ((o.answer ≢ success)
          × (o.job.job_id ≡ old.job_id)
          × ((o.job.status ≡ old.status) ⊎ (o.job.status ≡ failed)))

  -- A job that differs from an earlier one neither in identifier nor in status, but by a failure.
  abbrev IsLater : Job Json → Job Json → Type 0
  IsLater old job = (job.job_id ≡ old.job_id) × ((job.status ≡ old.status) ⊎ (job.status ≡ failed))

  refused-IsSubmission :
      (old job : Job Json) (status : QdmiStatus) (s : Online) (w : W)
      → status ≢ success
      → IsLater old job
      → IsSubmission old (fails host status job s w)
  unfolding IsSubmission
  refused-IsSubmission old job status s w h later = inr (h, later.0, later.1)

  store_id-IsSubmission :
      (old job : Job Json) (calibration : Bool) (id : Option Bytes) (s : Online) (w : W)
      → IsLater old job
      → IsSubmission old (store_id host calibration job id s w)
  unfolding store_id IsSubmission
  store_id-IsSubmission old job calibration none s w later =
      refused-IsSubmission old job fatal s w (λ h. ground arith) later
  store_id-IsSubmission old job calibration (some id) s w later = inl (refl, refl)

  store_submission-IsSubmission :
      (old job : Job Json) (calibration : Bool) (j : Option Json) (s : Online) (w : W)
      → IsLater old job
      → IsSubmission old (store_submission host calibration job j s w)
  unfolding store_submission
  store_submission-IsSubmission old job calibration none s w later =
      refused-IsSubmission old job fatal s w (λ h. ground arith) later
  store_submission-IsSubmission old job calibration (some j) s w later =
      store_id-IsSubmission old job calibration (text_at lib j (codes "id")) s w later

  reply-IsSubmission :
      (old job : Job Json) (calibration : Bool) (r : Reply host)
      → IsLater old job
      → IsSubmission old (after_submission_reply host calibration job r)
  unfolding after_submission_reply
  reply-IsSubmission old job calibration (throws e, s, w) later =
      refused-IsSubmission old job (thrown e) s w (thrown_fails e) later
  reply-IsSubmission old job calibration (value r, s, w) later =
      let sent = record job { status = failed } in
      if_intro (IsSubmission old) (is_success (status_of host r))
        (λ _.
          store_submission-IsSubmission old sent calibration (parse r.text) s w (later.0, inr refl))
        (λ _. refused-IsSubmission old sent fatal s w (λ h. ground arith) (later.0, inr refl))

  post_circuits-IsSubmission :
      (old job : Job Json) (payload : Option Bytes) (s : Online) (w : W)
      → IsLater old job
      → IsSubmission old (post_circuits host job payload s w)
  unfolding post_circuits
  post_circuits-IsSubmission old job none s w later =
      refused-IsSubmission old job fatal s w (λ h. ground arith) later
  post_circuits-IsSubmission old job (some payload) s w later =
      reply-IsSubmission old job job.calibration
        (session_post host (url s.server submit_circuit_job (s.alias ∷ [])) payload s w) later

  submit_built-IsSubmission :
      (job : Job Json) (built : Option QdmiStatus × List Json × List ProgramResults) (s : Online)
      (w : W)
      → built.0 ≢ some success
      → IsSubmission job (submit_built host job built s w)
  unfolding submit_built
  submit_built-IsSubmission job (some status, circuits, results) s w h =
      refused-IsSubmission job (record job { results = results }) status s w
        (λ same. h (ap some same)) (refl, inl refl)
  submit_built-IsSubmission job (none, circuits, results) s w h =
      post_circuits-IsSubmission job (record job { results = results })
        (dump (request_of host job circuits s.calibration_set_id)) s w (refl, inl refl)

  submit_single-IsSubmission :
      (job : Job Json) (programs : List Bytes) (s : Online) (w : W)
      → IsSubmission job (submit_single host job programs s w)
  unfolding submit_single
  submit_single-IsSubmission job [] s w =
      refused-IsSubmission job job invalidargument s w (λ h. ground arith) (refl, inl refl)
  submit_single-IsSubmission job (p ∷ q ∷ programs) s w =
      refused-IsSubmission job job notsupported s w (λ h. ground arith) (refl, inl refl)
  submit_single-IsSubmission job (p ∷ []) s w =
      reply-IsSubmission job job true
        (session_post host (url s.server submit_calibration_job []) (program_contents p) s w)
        (refl, inl refl)

  job_submit-IsSubmission :
      (job : Job Json) (s : Online) (w : W) → IsSubmission job (job_submit host job s w)
  unfolding job_submit
  job_submit-IsSubmission job s w =
      if_intro (IsSubmission job) (not (status_eq job.status created))
        (λ _. refused-IsSubmission job job badstate s w (λ h. ground arith) (refl, inl refl))
        λ _.
          if_intro (IsSubmission job) (is_empty job.programs)
            (λ _.
              refused-IsSubmission job job invalidargument s w (λ h. ground arith) (refl, inl refl))
            λ _.
              if_intro (IsSubmission job)
                (format_eq job.program_format iqmjson || format_eq job.program_format qirbasestring)
                (λ _.
                  submit_built-IsSubmission job _ s w
                    (build_circuits-StopsWithError lib job.program_format job.programs job.results))
                (λ _.
                  refused-IsSubmission job job invalidargument s w (λ h. ground arith)
                    (refl, inl refl))

  job_submit_calibration-IsSubmission :
      (job : Job Json) (s : Online) (w : W) → IsSubmission job (job_submit_calibration host job s w)
  unfolding job_submit_calibration
  job_submit_calibration-IsSubmission job s w =
      if_intro (IsSubmission job) (not (status_eq job.status created))
        (λ _. refused-IsSubmission job job badstate s w (λ h. ground arith) (refl, inl refl))
        λ _.
          if_intro (IsSubmission job) (not s.supports_calibration_jobs)
            (λ _.
              refused-IsSubmission job job notsupported s w (λ h. ground arith) (refl, inl refl))
            (λ _. submit_single-IsSubmission job job.programs s w)

  -- A submission of circuits or of a calibration either answers success and leaves the job
  -- submitted, or answers an error, keeps the job's identifier, and leaves its status as it was or
  -- failed.
  pub submit-IsSubmission :
      (job : Job Json) (s : Online) (w : W)
      → IsSubmission job (job_submit host job s w)
        × IsSubmission job (job_submit_calibration host job s w)
  submit-IsSubmission job s w =
      (job_submit-IsSubmission job s w, job_submit_calibration-IsSubmission job s w)
