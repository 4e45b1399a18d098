-- ===== src/Device/Job/Submit/Kept.antt =====
-- A submission sets the output fields of a job's programs and no other part of their results.
use qdmi_on_iqm.Base.{
  ℕ, Bool, true, codes, not, ◌||◌, Option, none, some, List, [], ◌∷◌, Bytes, is_empty, All,
  if_intro,
}
use qdmi_on_iqm.Qdmi.{
  QdmiStatus, created, failed, status_eq, is_success, ProgramFormat, iqmjson, qirbasestring,
  format_eq,
}
use qdmi_on_iqm.Json.{JsonLib}
use qdmi_on_iqm.ApiConfig.{url, submit_circuit_job, submit_calibration_job}
use qdmi_on_iqm.Auth.Manager.{value, throws}
use qdmi_on_iqm.Device.Job.{Job, ProgramResults}
use qdmi_on_iqm.Device.Job.Native.{text_at}
use qdmi_on_iqm.Device.Job.Remote.{Outcome}
use qdmi_on_iqm.Device.Job.Submit.{
  store_id, store_submission, after_submission_reply, post_circuits, request_of, submit_built,
  submit_single, job_submit, job_submit_calibration, Layout, layout, refused, broken, add_circuit,
  add_json, output_layout_of, build_circuits, program_contents,
}
use qdmi_on_iqm.Device.Online.{Host, Online, Reply, session_post, status_of}

-- A property of a program's results that its output fields do not count for.
abbrev pub Forgets : (ProgramResults → Type 0) → Type 0
Forgets P =
    (r : ProgramResults) (fields : List (Bytes × ℕ))
    → P r
    → P (record r { output_layout = some fields })

module _ (lib : JsonLib) (P : ProgramResults → Type 0) (forgets : Forgets P) where
  open lib use {Json, parse, of_string}

  abbrev BuiltAll : Option QdmiStatus × List Json × List ProgramResults → Type 0
  BuiltAll built = All P built.2

  add_circuit-BuiltAll :
      (circuit : Json) (fields : Layout) (r : ProgramResults) (results : List ProgramResults)
      (rest : Option QdmiStatus × List Json × List ProgramResults)
      → P r
      → All P results
      → BuiltAll rest
      → BuiltAll (add_circuit lib circuit fields r results rest)
  unfolding add_circuit
  add_circuit-BuiltAll circuit (layout fields) r results rest h hs ih = (forgets r fields h, ih)
  add_circuit-BuiltAll circuit refused r results rest h hs ih = (h, hs)
  add_circuit-BuiltAll circuit broken r results rest h hs ih = (h, hs)

  add_json-BuiltAll :
      (circuit : Option Json) (r : ProgramResults) (results : List ProgramResults)
      (rest : Option QdmiStatus × List Json × List ProgramResults)
      → P r
      → All P results
      → BuiltAll rest
      → BuiltAll (add_json lib circuit r results rest)
  unfolding add_json
  add_json-BuiltAll none r results rest h hs ih = (h, hs)
  add_json-BuiltAll (some circuit) r results rest h hs ih =
      add_circuit-BuiltAll circuit (output_layout_of lib circuit) r results rest h hs ih

  build_circuits-BuiltAll :
      (format : ProgramFormat) (programs : List Bytes) (results : List ProgramResults)
      → All P results
      → BuiltAll (build_circuits lib format programs results)
  unfolding build_circuits
  build_circuits-BuiltAll format [] results hs = hs
  build_circuits-BuiltAll format (p ∷ programs) [] hs = tt
  build_circuits-BuiltAll format (p ∷ programs) (r ∷ results) hs =
      let rest = build_circuits lib format programs results in
      let ih = build_circuits-BuiltAll format programs results hs.1 in
      if_intro BuiltAll (format_eq format iqmjson)
        (λ _. add_json-BuiltAll (parse (program_contents p)) r results rest hs.0 hs.1 ih)
        (λ _. (hs.0, ih))

module _ {W : Type 0} (host : Host W) (P : ProgramResults → Type 0) (forgets : Forgets P) where
  open host use {lib}
  open host.lib use {Json, parse, dump}

  abbrev pub LeavesAll : Outcome host → Type 0
  LeavesAll o = All P o.job.results

  store_id-LeavesAll :
      (calibration : Bool) (job : Job Json) (id : Option Bytes) (s : Online) (w : W)
      → All P job.results
      → LeavesAll (store_id host calibration job id s w)
  unfolding store_id
  store_id-LeavesAll calibration job none s w h = h
  store_id-LeavesAll calibration job (some id) s w h = h

  store_submission-LeavesAll :
      (calibration : Bool) (job : Job Json) (j : Option Json) (s : Online) (w : W)
      → All P job.results
      → LeavesAll (store_submission host calibration job j s w)
  unfolding store_submission
  store_submission-LeavesAll calibration job none s w h = h
  store_submission-LeavesAll calibration job (some j) s w h =
      store_id-LeavesAll calibration job (text_at lib j (codes "id")) s w h

  reply-LeavesAll :
      (calibration : Bool) (job : Job Json) (r : Reply host)
      → All P job.results
      → LeavesAll (after_submission_reply host calibration job r)
  unfolding after_submission_reply
  reply-LeavesAll calibration job (throws e, s, w) h = h
  reply-LeavesAll calibration job (value r, s, w) h =
      if_intro LeavesAll (is_success (status_of host r))
        (λ _.
          store_submission-LeavesAll calibration (record job { status = failed }) (parse r.text) s w
            h)
        (λ _. h)

  post_circuits-LeavesAll :
      (job : Job Json) (payload : Option Bytes) (s : Online) (w : W)
      → All P job.results
      → LeavesAll (post_circuits host job payload s w)
  unfolding post_circuits
  post_circuits-LeavesAll job none s w h = h
  post_circuits-LeavesAll job (some payload) s w h =
      reply-LeavesAll job.calibration job
        (session_post host (url s.server submit_circuit_job (s.alias ∷ [])) payload s w) h

  submit_built-LeavesAll :
      (job : Job Json) (built : Option QdmiStatus × List Json × List ProgramResults) (s : Online)
      (w : W)
      → All P built.2
      → LeavesAll (submit_built host job built s w)
  unfolding submit_built
  submit_built-LeavesAll job (some status, circuits, results) s w h = h
  submit_built-LeavesAll job (none, circuits, results) s w h =
      post_circuits-LeavesAll (record job { results = results })
        (dump (request_of host job circuits s.calibration_set_id)) s w h

  pub job_submit-LeavesAll :
      (job : Job Json) (s : Online) (w : W)
      → All P job.results
      → LeavesAll (job_submit host job s w)
  unfolding job_submit
  job_submit-LeavesAll job s w h =
      if_intro LeavesAll (not (status_eq job.status created)) (λ _. h)
        (λ _.
          if_intro LeavesAll (is_empty job.programs) (λ _. h)
            (λ _.
              if_intro LeavesAll
                (format_eq job.program_format iqmjson || format_eq job.program_format qirbasestring)
                (λ _. submit_built-LeavesAll job _ s w (
                  build_circuits-BuiltAll lib P forgets job.program_format job.programs job.results
                    h))
                (λ _. h)))

  submit_single-LeavesAll :
      (job : Job Json) (programs : List Bytes) (s : Online) (w : W)
      → All P job.results
      → LeavesAll (submit_single host job programs s w)
  unfolding submit_single
  submit_single-LeavesAll job [] s w h = h
  submit_single-LeavesAll job (p ∷ q ∷ programs) s w h = h
  submit_single-LeavesAll job (p ∷ []) s w h =
      reply-LeavesAll true job
        (session_post host (url s.server submit_calibration_job []) (program_contents p) s w) h

  pub job_submit_calibration-LeavesAll :
      (job : Job Json) (s : Online) (w : W)
      → All P job.results
      → LeavesAll (job_submit_calibration host job s w)
  unfolding job_submit_calibration
  job_submit_calibration-LeavesAll job s w h =
      if_intro LeavesAll (not (status_eq job.status created)) (λ _. h)
        (λ _.
          if_intro LeavesAll (not s.supports_calibration_jobs) (λ _. h)
            (λ _. submit_single-LeavesAll job job.programs s w h))
