-- ===== src/Device/Results/Lifecycle/Tests.antt =====
-- A job that is retrieved from a server and checked.
use qdmi_on_iqm.Base.{
  ℕ, zero, suc, ◌≡◌, refl, true, none, some, Option, Bytes, [], ◌∷◌, codes, bytes_eq, is_one_of,
  ◌==◌, if◌then◌else◌, arith,
}
use qdmi_on_iqm.Qdmi.{success, is_success, done}
use qdmi_on_iqm.Json.Tree.{
  null, flag, number, double, text, arr, obj, Tree, array_of, object_of, tree,
}
use qdmi_on_iqm.Http.Budget.{Response, empty_budget}
use qdmi_on_iqm.Http.Retry.{Hooks}
use qdmi_on_iqm.Auth.Manager.{no_source}
use qdmi_on_iqm.Device.Online.{Host, Online}
use qdmi_on_iqm.Device.Job.{Job, new_job, no_results}
use qdmi_on_iqm.Device.Job.Remote.{job_check}
use qdmi_on_iqm.Device.Job.Retrieve.{retrieve_device_job_by_id}
use qdmi_on_iqm.Device.Job.Retrieve.Payload.{ReadsZero}
use qdmi_on_iqm.Device.Job.Retrieve.Outcome.{IsRetrieval, retrieve_device_job_by_id-IsRetrieval}
use qdmi_on_iqm.Device.Results.Lifecycle.{IsReachable, retrieved, checked, reachable-IsStaged}
use qdmi_on_iqm.Device.Results.Stages.{IsStaged}

abbrev status_document : Tree
status_document = object_of ((codes "status", text (codes "completed")) ∷ [])

abbrev circuit : Tree
circuit = object_of (
    (
      codes "instructions",
      array_of (
          object_of (
            (codes "name", text (codes "measure"))
            ∷ (codes "args", object_of ((codes "key", text (codes "a")) ∷ []))
            ∷ (codes "locus", array_of (text (codes "QB1") ∷ text (codes "QB2") ∷ []))
            ∷ [])
          ∷ []),
    )
    ∷ [])

abbrev payload_document : Tree
payload_document =
    object_of ((codes "circuits", array_of (circuit ∷ [])) ∷ (codes "shots", number 100) ∷ [])

abbrev parsed : Bytes → Option Tree
parsed (c ∷ rest) = if c == b's' then some status_document else some payload_document
parsed [] = none

abbrev answer : Bytes → Response
answer body = record {
  url = codes "u";
  status_code = 200;
  text = body;
  header = λ _. none;
  error = none;
}

-- The world is the number of requests. The second one is answered with the payload.
abbrev job_hooks : Hooks ℕ
job_hooks = record {
  get = λ link token t w. (answer (if w == 1 then codes "p" else codes "s"), suc w);
  post = λ link token body t w. (answer [], suc w);
  sleep = λ d w. w;
  now = λ w. (w, w);
}

abbrev job_server : Host ℕ
job_server = record {
  lib = tree parsed;
  error_message = λ e. [];
  hooks = job_hooks;
  auth = record { read_file = λ path w. (none, w); time = λ w. w };
  env = λ name. none;
}

abbrev session : Online
session = record {
  server = codes "https://iqm";
  manager = record { token_source = no_source; token_source_value = none; access_token = none };
  request_timeout = 1_000;
  rate_limit = empty_budget;
  alias = codes "garnet";
  calibration_set_id = codes "default";
  supports_calibration_jobs = true;
}

abbrev known_job : Job Tree
known_job = record (new_job (object_of [])) {
  job_id = codes "7";
  retrieved = true;
  status = done;
  num_shots = 100;
  results = record no_results { output_layout = some ((codes "a", 2) ∷ []) } ∷ [];
}

tree-ReadsZero : ReadsZero (tree parsed)
tree-ReadsZero null h e = ground arith
tree-ReadsZero (flag b) h e = ground arith
tree-ReadsZero (number zero) h e = refl
tree-ReadsZero (number (suc n)) h e = ground arith
tree-ReadsZero (double n) h e = ground arith
tree-ReadsZero (text s) h e = ground arith
tree-ReadsZero (arr ts) h e = ground arith
tree-ReadsZero (obj ts) h e = ground arith

retrieval :
    (let answered = retrieve_device_job_by_id job_server true (codes "7") session 0 in
      answered ≡ ((success, some known_job), answered.1, answered.2))
unfolding retrieve_device_job_by_id is_success bytes_eq is_one_of
retrieval = refl

retrieve_device_job_by_id-IsRetrieval_example :
    IsRetrieval job_server
      (codes "7")
      (retrieve_device_job_by_id job_server true (codes "7") session 0)
retrieve_device_job_by_id-IsRetrieval_example =
    retrieve_device_job_by_id-IsRetrieval job_server tree-ReadsZero true (codes "7") session 0

known-IsReachable : IsReachable job_server known_job
known-IsReachable =
    let answered = retrieve_device_job_by_id job_server true (codes "7") session 0 in
    retrieved (codes "7") session answered.1 0 answered.2 retrieval

reachable-IsStaged_example : IsStaged (job_check job_server known_job session 2).job.results
reachable-IsStaged_example =
    reachable-IsStaged job_server tree-ReadsZero (job_check job_server known_job session 2).job
      (checked session 2 known-IsReachable)
