-- ===== src/ApiConfig/Format.antt =====
-- `format_url` against a reference description of a template: the fixed texts that its
-- placeholders separate.
use qdmi_on_iqm.Base.{
  ◌+◌, ◌≡◌, refl, ap, ◌∙◌, ◌≢◌, none, some, List, [], ◌∷◌, ◌++◌, Bytes, codes, drop, All,
  All-append, arith, length, take-length_append,
}
use mathlib.Core.List.{append_assoc}
use qdmi_on_iqm.ApiConfig.{
  Endpoint, submit_circuit_job, get_job_status, get_job_payload,
  get_job_artifact_measurement_counts, get_job_artifact_measurements, cancel_job,
  get_quantum_computers, get_quantum_computer_health, get_queue_availability,
  get_static_quantum_architecture, get_dynamic_quantum_architecture,
  get_calibration_set_quality_metrics, cocos_health, submit_calibration_job,
  get_calibration_job_status, abort_calibration_job, get_url, find_placeholder, format_url,
  join_paths, url,
}

abbrev pub NoPercent : Bytes → Type 0
NoPercent = All (λ c. c ≢ b'%')

-- Every argument but the last is free of `%`.
abbrev pub Clean : List Bytes → Type 0
Clean [] = Unit
Clean (a ∷ []) = Unit
Clean (a ∷ b ∷ args) = NoPercent a × Clean (b ∷ args)

-- The template with the fixed texts `pre` and `ts`.
abbrev pub render : Bytes → List Bytes → Bytes
render pre [] = pre
render pre (t ∷ ts) = pre ++ b'%' ∷ b's' ∷ render t ts

-- The same with the arguments in place of the placeholders, in order. Arguments that are left over
-- are dropped, and placeholders that are left over stay.
abbrev pub fill : Bytes → List Bytes → List Bytes → Bytes
fill pre ts [] = render pre ts
fill pre [] (a ∷ args) = pre
fill pre (t ∷ ts) (a ∷ args) = pre ++ (a ++ fill t ts args)

find_placeholder-append :
    (pre rest : Bytes)
    → NoPercent pre
    → find_placeholder (pre ++ b'%' ∷ b's' ∷ rest) ≡ some (length pre)
unfolding find_placeholder
find_placeholder-append [] rest h = refl
find_placeholder-append (c ∷ []) rest h = ground arith
find_placeholder-append (c ∷ d ∷ pre) rest h =
    ground (arith, find_placeholder-append (d ∷ pre) rest h.1)

find_placeholder-none : (pre : Bytes) → NoPercent pre → find_placeholder pre ≡ none
unfolding find_placeholder
find_placeholder-none [] h = refl
find_placeholder-none (c ∷ []) h = refl
find_placeholder-none (c ∷ d ∷ pre) h = ground (arith, find_placeholder-none (d ∷ pre) h.1)

drop_placeholder : (pre rest : Bytes) → drop (length pre + 2) (pre ++ b'%' ∷ b's' ∷ rest) ≡ rest
drop_placeholder [] rest = refl
drop_placeholder (c ∷ pre) rest = ground (arith, drop_placeholder pre rest)

pub format_url_step :
    (pre a rest : Bytes) (args : List Bytes)
    → NoPercent pre
    → format_url (pre ++ b'%' ∷ b's' ∷ rest) (a ∷ args) ≡ format_url (pre ++ (a ++ rest)) args
unfolding format_url
format_url_step pre a rest args h =
    rw (find_placeholder-append pre rest h, format_url)
      (rw (take-length_append pre (b'%' ∷ b's' ∷ rest), drop_placeholder pre rest))

format_url_extra :
    (pre a : Bytes) (args : List Bytes) → NoPercent pre → format_url pre (a ∷ args) ≡ pre
unfolding format_url
format_url_extra pre a args h = rw (find_placeholder-none pre h, format_url)

-- The formatter works from the left, over a part that is already formatted.
format_url-append :
    (acc pre : Bytes) (ts args : List Bytes)
    → NoPercent acc
    → NoPercent pre
    → All NoPercent ts
    → Clean args
    → format_url (acc ++ render pre ts) args ≡ acc ++ fill pre ts args
format_url-append acc pre ts [] ha hp hts hargs = unfold format_url in refl
format_url-append acc pre [] (a ∷ args) ha hp hts hargs =
    format_url_extra (acc ++ pre) a args (All-append _ acc pre ha hp)
format_url-append acc pre (t ∷ ts) (a ∷ []) ha hp hts hargs =
    rw (← append_assoc acc pre (b'%' ∷ b's' ∷ render t ts)) (
      format_url_step (acc ++ pre) a (render t ts) [] (All-append _ acc pre ha hp)
      ∙ unfold format_url in append_assoc acc pre (a ++ render t ts))
format_url-append acc pre (t ∷ ts) (a ∷ b ∷ args) ha hp hts hargs =
    let front = All-append (λ c. c ≢ b'%') acc pre ha hp in
    let step = format_url_step (acc ++ pre) a (render t ts) (b ∷ args) front in
    let rest =
      format_url-append ((acc ++ pre) ++ a) t ts (b ∷ args)
        (All-append (λ c. c ≢ b'%') (acc ++ pre) a front hargs.0) hts.0 hts.1 hargs.1 in
    (simp append_assoc at step) ∙ (simp append_assoc at rest)

-- The fixed texts of each endpoint's path, as the IQM Server API names them.
abbrev pub shape : Endpoint → Bytes × List Bytes
shape submit_circuit_job = (codes "api/v1/jobs/", codes "/circuit" ∷ [])
shape get_job_status = (codes "api/v1/jobs/", [] ∷ [])
shape get_job_payload = (codes "api/v1/jobs/", codes "/payload" ∷ [])
shape get_job_artifact_measurement_counts =
    (codes "api/v1/jobs/", codes "/artifacts/measurement_counts" ∷ [])
shape get_job_artifact_measurements = (codes "api/v1/jobs/", codes "/artifacts/measurements" ∷ [])
shape cancel_job = (codes "api/v1/jobs/", codes "/cancel" ∷ [])
shape get_quantum_computers = (codes "api/v1/quantum-computers", [])
shape get_quantum_computer_health = (codes "api/v1/quantum-computers/", codes "/health" ∷ [])
shape get_queue_availability = (codes "api/v1/quantum-computers/", codes "/queue-availability" ∷ [])
shape get_static_quantum_architecture =
    (codes "api/v1/quantum-computers/", codes "/artifacts/static-quantum-architectures" ∷ [])
shape get_dynamic_quantum_architecture =
    (codes "api/v1/calibration-sets/", codes "/" ∷ codes "/dynamic-quantum-architecture" ∷ [])
shape get_calibration_set_quality_metrics =
    (codes "api/v1/calibration-sets/", codes "/" ∷ codes "/metrics" ∷ [])
shape cocos_health = (codes "cocos/health", [])
shape submit_calibration_job = (codes "cocos/api/v4/calibration/runs", [])
shape get_calibration_job_status = (codes "cocos/api/v4/calibration/runs/", codes "/status" ∷ [])
shape abort_calibration_job = (codes "cocos/api/v4/calibration/runs/", codes "/abort" ∷ [])

get_url-shape : (e : Endpoint) → get_url e ≡ render (shape e).0 (shape e).1
unfolding get_url
get_url-shape submit_circuit_job = refl
get_url-shape _ = refl

shape-NoPercent : (e : Endpoint) → NoPercent (shape e).0 × All NoPercent (shape e).1
shape-NoPercent submit_circuit_job = omega arith
shape-NoPercent _ = omega arith

-- For arguments of which all but the last are free of `%`, the URL of an endpoint is the server
-- URL joined with the endpoint's fixed texts and the arguments between them, in order.
pub url-fill :
    (server : Bytes) (e : Endpoint) (args : List Bytes)
    → Clean args
    → url server e args ≡ join_paths server (fill (shape e).0 (shape e).1 args)
unfolding url
url-fill server e args h =
    let free = shape-NoPercent e in
    ap (join_paths server)
      (rw get_url-shape (format_url-append [] (shape e).0 (shape e).1 args tt free.0 free.1 h))

-- Where the first argument holds `%s`, after a text free of `%`, the second argument replaces that
-- instead of the endpoint's second placeholder.
pub format_url_misplaced :
    (pre a b mid post : Bytes)
    → NoPercent pre
    → NoPercent a
    → format_url (pre ++ b'%' ∷ b's' ∷ post) ((a ++ b'%' ∷ b's' ∷ mid) ∷ b ∷ [])
      ≡ pre ++ (a ++ (b ++ (mid ++ post)))
format_url_misplaced pre a b mid post hp ha =
    let first = format_url_step pre (a ++ b'%' ∷ b's' ∷ mid) post (b ∷ []) hp in
    let second =
      format_url_step (pre ++ a) b (mid ++ post) [] (All-append (λ c. c ≢ b'%') pre a hp ha) in
    (simp append_assoc at first) ∙ (simp append_assoc at second) ∙ (unfold format_url in refl)
