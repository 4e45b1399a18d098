-- ===== src/Device/Job/Kept.antt =====
-- The results of a job whose programs and parameters are set, or that is checked or canceled.
use qdmi_on_iqm.Base.{
  ℕ, ◌-◌, ◌≡◌, refl, codes, ap, inl, inr, ◌||◌, ◌&&◌, Bool-cases, not, Option, none, some, List,
  Bytes, is_some, replicate, take, any, if_intro, ◌==◌,
}
use qdmi_on_iqm.Qdmi.{
  QdmiStatus, invalidargument, badstate, notsupported, success, created, status_eq, is_success,
  ProgramFormat, iqmjson, qirbasestring, format_eq,
}
use qdmi_on_iqm.Json.{JsonLib, string_member}
use qdmi_on_iqm.Device.Session.{from_bytes, empty_value}
use qdmi_on_iqm.Device.Job.{
  Job, ProgramResults, no_results, JobParameter, shotsnum, job_custom1, copy_programs,
  store_programs, copy_into, job_set_programs, is_invalid_format, badly_terminated, store_options,
  set_run_request_options, set_shots, switch_job_parameter, job_set_parameter, reserved_options,
  is_text, is_invalid_parameter,
}
use qdmi_on_iqm.Device.Job.Remote.{job_check, job_cancel}
use qdmi_on_iqm.Device.Job.Remote.Kept.{
  IsCheck, job_check-IsCheck, IsCancel, job_cancel-IsCancel, success_fails, is_success-eq,
}
use qdmi_on_iqm.Device.Online.{Host, Online}

module _ {Json : Type 0} (P : List ProgramResults → Type 0) where
  abbrev Leaves : QdmiStatus × Job Json → Type 0
  Leaves r = P r.1.results

  store_programs-Leaves :
      (job : Job Json) (format : ProgramFormat) (count : ℕ) (programs : Option (List Bytes))
      → P job.results
      → P (replicate count no_results)
      → Leaves (store_programs job format count programs)
  unfolding store_programs
  store_programs-Leaves job format count none h fresh = h
  store_programs-Leaves job format count (some programs) h fresh = fresh

  copy_into-Leaves :
      (job : Job Json) (format : ProgramFormat) (count : ℕ) (sizes : Option (List ℕ))
      (programs : Option (List (Option Bytes)))
      → P job.results
      → P (replicate count no_results)
      → Leaves (copy_into job format count sizes programs)
  unfolding copy_into
  copy_into-Leaves job format count none programs h fresh = h
  copy_into-Leaves job format count (some sizes) none h fresh = h
  copy_into-Leaves job format count (some sizes) (some programs) h fresh =
      store_programs-Leaves job format count (copy_programs programs sizes 0 count) h fresh

  pub job_set_programs-Leaves :
      (format : ProgramFormat) (count : ℕ) (sizes : Option (List ℕ))
      (programs : Option (List (Option Bytes))) (job : Job Json)
      → P job.results
      → P (replicate count no_results)
      → P (job_set_programs format count sizes programs job).1.results
  unfolding job_set_programs
  job_set_programs-Leaves format count sizes programs job h fresh =
      if_intro Leaves (count == 0 || (is_some programs && not (is_some sizes))) (λ _. h)
        (λ _.
          if_intro Leaves (not (status_eq job.status created)) (λ _. h)
            (λ _.
              if_intro Leaves (is_invalid_format format) (λ _. h)
                (λ _.
                  if_intro Leaves
                    (not (format_eq format iqmjson) && not (format_eq format qirbasestring))
                    (λ _. h) (λ _. copy_into-Leaves job format count sizes programs h fresh))))

module _ (lib : JsonLib) where
  open lib use {Json, parse, is_object, find}

  abbrev Same : Job Json → QdmiStatus × Job Json → Type 0
  Same old r = r.1.results ≡ old.results

  store_options-Same :
      (job : Job Json) (options : Option Json) → Same job (store_options lib job options)
  unfolding store_options
  store_options-Same job none = refl
  store_options-Same job (some options) =
      if_intro (Same job)
        (not (is_object options) || any (λ key. is_some (find options key)) (reserved_options lib))
        {x = (invalidargument, job)} (λ _. refl)
        (λ _.
          if_intro (Same job)
            (is_text lib (string_member lib options (codes "heralding_mode")) (codes "zeros"))
            {x = (notsupported, job)} {y = (success, record job { run_request_options = options })}
            (λ _. refl) (λ _. refl))

  run_options-Same :
      (size : ℕ) (text : Bytes) (job : Job Json)
      → Same job (set_run_request_options lib size text job)
  unfolding set_run_request_options
  run_options-Same size text job =
      if_intro (Same job) (badly_terminated text size) {x = (invalidargument, job)} (λ _. refl)
        (λ _. store_options-Same job (parse (take (size - 1) text)))

  set_shots-Same :
      (size : ℕ) (memory : Bytes) (job : Job Json) → Same job (set_shots lib size memory job)
  unfolding set_shots
  set_shots-Same size memory job =
      if_intro (Same job) (not (size == 8)) {x = (invalidargument, job)} (λ _. refl)
        (λ _.
          if_intro (Same job) (from_bytes (take 8 memory) == 0) {x = (invalidargument, job)}
            {y = (success, record job { num_shots = from_bytes (take 8 memory) })} (λ _. refl)
            (λ _. refl))

  switch-Same :
      (param : JobParameter) (size : ℕ) (value : Option Bytes) (job : Job Json)
      → Same job (switch_job_parameter lib param size value job)
  unfolding switch_job_parameter
  switch-Same shotsnum size none job = refl
  switch-Same shotsnum size (some memory) job = set_shots-Same size memory job
  switch-Same job_custom1 size none job = refl
  switch-Same job_custom1 size (some text) job = run_options-Same size text job
  switch-Same _ size value job = refl

  pub job_set_parameter-results :
      (param : JobParameter) (size : ℕ) (value : Option Bytes) (job : Job Json)
      → (job_set_parameter lib param size value job).1.results ≡ job.results
  unfolding job_set_parameter
  job_set_parameter-results param size value job =
      if_intro (Same job) (empty_value size value || is_invalid_parameter param)
        {x = (invalidargument, job)} (λ _. refl)
        (λ _.
          if_intro (Same job) (not (status_eq job.status created)) {x = (badstate, job)} (λ _. refl)
            (λ _. switch-Same param size value job))

module _ {W : Type 0} (host : Host W) where
  open host.lib use {Json}

  pub job_check-results :
      (job : Job Json) (s : Online) (w : W) → (job_check host job s w).job.results ≡ job.results
  unfolding IsCheck
  job_check-results job s w =
      let o = job_check host job s w in
      let kept = job_check-IsCheck host job s w in
      elim (Bool-cases (is_success o.answer)) [
        | inl good ↦ ap (λ (j : Job Json). j.results) (kept.1 (is_success-eq o.answer good)).1
        | inr bad ↦ ap (λ (j : Job Json). j.results) (kept.0 (success_fails o.answer bad)).0
      ]

  pub job_cancel-results :
      (job : Job Json) (s : Online) (w : W) → (job_cancel host job s w).job.results ≡ job.results
  unfolding IsCancel
  job_cancel-results job s w =
      let o = job_cancel host job s w in
      let kept = job_cancel-IsCancel host job s w in
      elim (Bool-cases (is_success o.answer)) [
        | inl good ↦ ap (λ (j : Job Json). j.results) (kept.1 (is_success-eq o.answer good))
        | inr bad ↦ ap (λ (j : Job Json). j.results) (kept.0 (success_fails o.answer bad))
      ]
