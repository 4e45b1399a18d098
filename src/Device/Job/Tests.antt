-- ===== src/Device/Job/Tests.antt =====
-- Runs of the calls on a job, against a server that answers each request at once.
use qdmi_on_iqm.Base.{
  ℕ, ◌+◌, ◌*◌, ◌/◌, ◌≡◌, refl, true, false, ltb, none, some, Bytes, List, [], ◌∷◌, ◌++◌, codes,
  arith, replicate, if◌then◌else◌,
}
use qdmi_on_iqm.Base.Int.{ℤ, pos, negsuc}
use qdmi_on_iqm.Qdmi.{success, is_success, submitted, done, qirbasestring}
use qdmi_on_iqm.Json.{JsonLib}
use qdmi_on_iqm.Http.Budget.{Response, empty_budget}
use qdmi_on_iqm.Http.Retry.{Hooks}
use qdmi_on_iqm.Http.Retry.Forward.{NeverRewinds}
use qdmi_on_iqm.Auth.Manager.{no_source}
use qdmi_on_iqm.Device.Online.{Host, Online}
use qdmi_on_iqm.Device.Job.{Job, new_job, job_set_programs, job_get_program, shotsnum}
use qdmi_on_iqm.Device.Job.Programs.{set_programs_read_back, supported}
use qdmi_on_iqm.Device.Buffer.Protocol.{offer}
use qdmi_on_iqm.Device.Job.Remote.{job_check, job_cancel}
use qdmi_on_iqm.Device.Job.Remote.Kept.{IsCheck, IsCancel, job_check-IsCheck, job_cancel-IsCancel}
use qdmi_on_iqm.Device.Job.Remote.Final.{
  Call, check, cancel, set_parameter, call_all, done_is_final,
}
use qdmi_on_iqm.Device.Buffer.{Out}
use qdmi_on_iqm.Device.Job.Query.{job_query_property, id_property}
use qdmi_on_iqm.Device.Job.Query.Answers.{IsAnswer, job_query_property-IsAnswer}
use qdmi_on_iqm.Device.Job.Submit.{job_submit, job_submit_calibration}
use qdmi_on_iqm.Device.Job.Submit.Once.{IsSubmission, submit-IsSubmission}
use qdmi_on_iqm.Device.Job.Wait.{job_wait}
use qdmi_on_iqm.Device.Job.Wait.Returns.{Returns, job_wait-Returns}

-- Every text is a document with itself under each key.
abbrev plain : JsonLib
plain = record {
  Json = Bytes;
  parse = λ text. some text;
  is_object = λ j. true;
  is_array = λ j. false;
  is_string = λ j. true;
  is_boolean = λ j. false;
  is_null = λ j. false;
  is_number_integer = λ j. false;
  is_number_unsigned = λ j. false;
  find = λ j key. some j;
  elements = λ j. [];
  items = λ j. [];
  get_string = λ j. some j;
  get_bool = λ j. none;
  get_unsigned = λ j. none;
  get_double = λ j. none;
  value_int64 = λ j key d. some d;
  value_string = λ j key d. some j;
  value_bool = λ j key d. some d;
  size = λ j. 0;
  equals_unsigned = λ j n. false;
  empty_object = [];
  set_member = λ j key member. j ++ member;
  array = λ members. [];
  of_string = λ s. s;
  of_unsigned = λ n. [];
  dump = λ j. some j;
}

abbrev second : ℕ
second = 1_000_000_000

-- The world is the clock: a job is queued for the first four seconds and then ready.
abbrev answer : Bytes → Response
answer text = record {
  url = codes "u";
  status_code = 200;
  text = text;
  header = λ _. none;
  error = none;
}

abbrev pass : ℤ → ℕ → ℕ
pass (pos d) w = w + d * second
pass (negsuc d) w = w

abbrev clock : Hooks ℕ
clock = record {
  get = λ url token t w. (answer (if ltb w (4 * second) then codes "queued" else codes "ready"), w);
  post = λ url token body t w. (answer (codes "job-7"), w);
  sleep = pass;
  now = λ w. (w, w);
}

abbrev server : Host ℕ
server = record {
  lib = plain;
  error_message = λ e. [];
  hooks = clock;
  auth = record { read_file = λ path w. (none, w); time = λ w. w / second };
  env = λ name. none;
}

abbrev session : Online
session = record {
  server = codes "https://iqm";
  manager = record { token_source = no_source; token_source_value = none; access_token = none };
  request_timeout = 1_000;
  rate_limit = empty_budget;
  alias = codes "garnet";
  calibration_set_id = codes "default";
  supports_calibration_jobs = true;
}

abbrev sent : Job Bytes
sent = record (new_job []) { job_id = codes "job-7"; status = submitted }

abbrev finished : Job Bytes
finished = record sent { status = done }

abbrev ready_to_send : Job Bytes
ready_to_send =
    (job_set_programs qirbasestring 1 (some (4 ∷ [])) (some (some (codes "qir" ++ 0 ∷ []) ∷ []))
      (new_job [])).1

job_wait-sent : job_wait server 9 8 sent session 0 ≡ some (success, finished, session, 7 * second)
unfolding job_wait is_success
job_wait-sent = refl

job_submit_sent : (job_submit server ready_to_send session 0).job.job_id ≡ codes "job-7"
unfolding job_submit job_set_programs is_success
job_submit_sent = refl

clock-NeverRewinds : NeverRewinds clock (λ w. w)
clock-NeverRewinds = record {
  now_reads = λ w. refl;
  now_stays = λ w. refl;
  sleep_lasts = λ d w. omega arith;
  sleep_negative = λ d w. omega arith;
  get_goes_on = λ url token t w. omega arith;
}

job_wait-Returns_example : Returns server (job_wait server 6 5 sent session 0)
job_wait-Returns_example =
    job_wait-Returns server (λ w. w) clock-NeverRewinds (λ path w. omega arith) 5 sent session 0
      (omega arith)

job_check-IsCheck_example : IsCheck server sent (job_check server sent session 0)
job_check-IsCheck_example = job_check-IsCheck server sent session 0

job_cancel-IsCancel_example : IsCancel server sent (job_cancel server sent session 0)
job_cancel-IsCancel_example = job_cancel-IsCancel server sent session 0

abbrev calls : List Call
calls = cancel ∷ check ∷ set_parameter shotsnum 8 none ∷ []

done_is_final_example : call_all server calls finished session 0 ≡ (finished, session, 0)
done_is_final_example = done_is_final server calls finished session 0 refl

submit-IsSubmission_example :
    IsSubmission server ready_to_send (job_submit server ready_to_send session 0)
    × IsSubmission server ready_to_send (job_submit_calibration server ready_to_send session 0)
submit-IsSubmission_example = submit-IsSubmission server ready_to_send session 0

abbrev blank : Job Bytes
blank = new_job []

set_programs_read_back_example :
    (let given =
        job_set_programs qirbasestring 2
          (some (4 ∷ 3 ∷ []))
          (some (some (codes "qir" ++ 0 ∷ []) ∷ some (codes "ok" ++ 0 ∷ []) ∷ []))
          blank in
      (given.0 ≡ success)
      × (job_get_program given.1 1 (offer 3 (7 ∷ 7 ∷ 7 ∷ []))
          ≡ (success, offer 3 (codes "ok" ++ 0 ∷ []))))
set_programs_read_back_example =
    set_programs_read_back (codes "qir" ∷ codes "ok" ∷ []) qirbasestring blank 1 (7 ∷ 7 ∷ 7 ∷ [])
      (refl, (refl, tt)) supported refl refl (omega arith) refl

abbrev room_for_name : Out
room_for_name = offer 8 (replicate 8 7)

query_id :
    (job_query_property server (λ f. 0) id_property room_for_name sent session 0).0
    ≡ (success, offer 8 (codes "job-7" ++ 0 ∷ 0 ∷ 0 ∷ []))
unfolding job_query_property
query_id = refl

job_query_property-IsAnswer_example :
    IsAnswer server
      (λ f. 0)
      id_property
      room_for_name
      sent
      session
      0
      (job_query_property server (λ f. 0) id_property room_for_name sent session 0)
job_query_property-IsAnswer_example =
    job_query_property-IsAnswer server (λ f. 0) id_property room_for_name sent session 0
      (omega arith)
