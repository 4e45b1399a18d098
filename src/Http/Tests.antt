-- ===== src/Http/Tests.antt =====
-- Runs of the client against a scripted transport with a virtual clock, and instances of its
-- theorems.
use qdmi_on_iqm.Base.{
  ℕ, ◌+◌, ◌*◌, ◌≤◌, ◌<◌, ◌≡◌, refl, ◌↔◌, ◌⊎◌, true, false, Option, none, some, List, [], ◌∷◌, Bytes,
  codes, bytes_eq, if◌then◌else◌, arith, All,
}
use qdmi_on_iqm.Base.Int.{ℤ, pos, negsuc}
use qdmi_on_iqm.Base.Decimal.{to_string}
use qdmi_on_iqm.Qdmi.{permissiondenied}
use qdmi_on_iqm.Json.{JsonLib}
use qdmi_on_iqm.Http.Number.{strtol, c_str, parse_number, retry_after_seconds, narrow_to_int}
use qdmi_on_iqm.Http.Number.RoundTrip.{parse_number-to_string}
use qdmi_on_iqm.Http.Budget.{
  RateLimitBudget, Response, TransportError, other_error, Environment, empty_budget,
  record_rate_limit, rate_limit_wait_seconds, threshold_percent,
}
use qdmi_on_iqm.Http.Budget.Quota.{
  record_rate_limit_reported, record_rate_limit_cases, rate_limit_wait_window, IsReport,
  at_least_zero,
}
use qdmi_on_iqm.Http.Retry.{
  Hooks, failure, http_get, http_post, retry_loop, remaining_timeout, update_budget,
}
use qdmi_on_iqm.Http.Retry.Bounds.{attempts, Fits, logged, request_bounded, NeverGoesBack}
use qdmi_on_iqm.Http.Retry.Deadline.{KeepsTime, request_deadline}
use qdmi_on_iqm.Http.Retry.Overflow.{retry_after_overflow}
use qdmi_on_iqm.Http.Response.{log_as_error, handle_response}
use qdmi_on_iqm.Http.Response.Classification.{Classified, handle_response-Classified}
use qdmi_on_iqm.Http.Response.Confidential.{shown, body_not_shown}

-- The time and the answers that are still to come.
abbrev World : Type 0
World = ℕ × List Response

abbrev answer : List Response → ℕ → Response × World
answer [] time = (failure [] (other_error 7), (time, []))
answer (r ∷ rest) time = (r, (time, rest))

abbrev pass : ℤ → World → World
pass (pos d) w = (w.0 + d * 1_000_000_000, w.1)
pass (negsuc d) w = w

abbrev hooks : Hooks World
hooks = record {
  get = λ url token t w. answer w.1 w.0;
  post = λ url token body t w. answer w.1 w.0;
  sleep = pass;
  now = λ w. (w.0, w);
}

abbrev no_env : Environment
no_env key = none

abbrev quota_header : Bytes → Option Bytes
quota_header key =
    if bytes_eq key (codes "RateLimit-Limit")
    then some (to_string 100)
    else if bytes_eq key (codes "RateLimit-Remaining")
    then some (to_string 4)
    else if bytes_eq key (codes "Retry-After")
    then some (codes "3")
    else none

abbrev reply : ℕ → Bytes → Response
reply code text = record {
  url = codes "u";
  status_code = code;
  text = text;
  header = quota_header;
  error = none;
}

abbrev script : List Response
script = reply 429 [] ∷ reply 200 (codes "{}") ∷ []

-- One retry, three seconds after the first attempt; the second answer states the quota.
get_retries : http_get hooks no_env (codes "u") none 60_000 (some empty_budget) (5, script) ≡ (
  reply 200 (codes "{}"),
  some (record { remaining = 4; limit = 100; observed_at = 3_000_000_005 }),
  (3_000_000_005, []),
)
unfolding http_get bytes_eq to_string record_rate_limit parse_number strtol retry_after_seconds
    c_str narrow_to_int
get_retries = refl

pass_goes_on : (d : ℤ) (w : World) → w.0 ≤ (pass d w).0
pass_goes_on (pos d) w = omega arith
pass_goes_on (negsuc d) w = omega arith

answer_goes_on : (rs : List Response) (time : ℕ) → time ≤ (answer rs time).1.0
answer_goes_on [] time = omega arith
answer_goes_on (r ∷ rs) time = omega arith

hooks-NeverGoesBack : NeverGoesBack hooks (λ w. w.0)
hooks-NeverGoesBack = record {
  now_reads = λ w. refl;
  now_goes_on = λ w. omega arith;
  sleep_goes_on = pass_goes_on;
  get_goes_on = λ url token t w. answer_goes_on w.1 w.0;
  post_goes_on = λ url token body t w. answer_goes_on w.1 w.0;
}

request_bounded_example :
    let got = (http_get (logged hooks) no_env (codes "u") none 60_000 none ([], (5, script))).2.0 in
    let posted =
      (http_post (logged hooks) no_env (codes "u") none [] 60_000 none ([], (5, script))).2.0 in
    ((attempts got ≤ 11) × All (Fits 60_000) got)
    × ((attempts posted ≤ 11) × All (Fits 60_000) posted)
request_bounded_example =
    request_bounded hooks (λ w. w.0) hooks-NeverGoesBack no_env (codes "u") none [] 60_000 none
      (5, script)

answer_stays : (rs : List Response) (time t : ℕ) → (answer rs time).1.0 ≤ time + t * 1_000_000
answer_stays [] time t = omega arith
answer_stays (r ∷ rs) time t = omega arith

hooks-KeepsTime : KeepsTime hooks (λ w. w.0)
hooks-KeepsTime = record {
  now_reads = λ w. refl;
  now_stays = λ w. refl;
  sleep_lasts = λ d w. refl;
  sleep_negative = λ d w. refl;
  get_ends = λ url token t w. answer_stays w.1 w.0 t;
  post_ends = λ url token body t w. answer_stays w.1 w.0 t;
}

request_deadline_example :
    ((http_get hooks no_env (codes "u") none 60_000 none (5, script)).2.0 < 60_001_000_005)
    × ((http_post hooks no_env (codes "u") none [] 60_000 none (5, script)).2.0 < 60_001_000_005)
request_deadline_example =
    request_deadline hooks (λ w. w.0) hooks-KeepsTime no_env (codes "u") none [] 60_000 none
      (5, script)

abbrev patient_header : Bytes → Option Bytes
patient_header key =
    if bytes_eq key (codes "Retry-After") then some (to_string 3_000_000_000) else none

abbrev patient : Response
patient = record (reply 429 []) { header = patient_header }

abbrev send : ℕ → World → Response × World
send t w = (patient, w)

-- 3000000000 - 2 ^ 32 is -1294967296.
retry_after_overflow_example :
    retry_loop hooks (codes "u") send 0 1_000 2 none (5, [])
    ≡ retry_loop hooks (codes "u") send 0 1_000 1 none (hooks.sleep (negsuc 1_294_967_295) (5, []))
unfolding remaining_timeout update_budget bytes_eq
retry_after_overflow_example =
    retry_after_overflow hooks (codes "u") send 0 1_000 0 3_000_000_000 none (5, []) (omega arith)
      (omega arith) (omega arith) refl refl refl

parse_number-to_string_example : parse_number (to_string 120) ≡ some (pos 120)
parse_number-to_string_example = parse_number-to_string 120 (omega arith)

record_rate_limit_reported_example :
    record_rate_limit hooks.now empty_budget (reply 204 []) (5, [])
    ≡ (record { remaining = 4; limit = 100; observed_at = 5 }, (5, []))
unfolding bytes_eq
record_rate_limit_reported_example =
    record_rate_limit_reported hooks.now empty_budget (reply 204 []) (5, []) 100 4 (omega arith)
      (omega arith) (omega arith) (omega arith) (omega arith) refl refl

record_rate_limit_cases_example :
    ((limit : ℕ) × (left : ℤ) × IsReport (reply 404 []) limit left
      × (record_rate_limit hooks.now empty_budget (reply 404 []) (5, [])
          ≡ (record { remaining = at_least_zero left; limit = limit; observed_at = 5 }, (5, []))))
    ⊎ (¬ ((limit : ℕ) × (left : ℤ) × IsReport (reply 404 []) limit left)
        × (record_rate_limit hooks.now empty_budget (reply 404 []) (5, [])
            ≡ (empty_budget, (5, []))))
record_rate_limit_cases_example =
    record_rate_limit_cases hooks.now empty_budget (reply 404 []) (5, [])

abbrev low : RateLimitBudget
low = record { remaining = 4; limit = 100; observed_at = 2_000_000_000 }

rate_limit_wait_window_example :
    let wait = (rate_limit_wait_seconds hooks.now no_env low (5_500_000_000, [])).0 in
    ((0 < wait) ↔ ((4 < 1 * threshold_percent no_env) × (5_500_000_000 < 12_000_000_000)))
    × (wait ≤ 10)
    × ((wait ≡ 0)
        ⊎ ((12_000_000_000 ≤ 5_500_000_000 + wait * 1_000_000_000)
            × (5_500_000_000 + wait * 1_000_000_000 < 13_000_000_000)))
rate_limit_wait_window_example =
    rate_limit_wait_window hooks.now no_env low (5_500_000_000, []) (omega arith) (omega arith)

-- A JSON library that takes every text for no JSON.
abbrev no_json : JsonLib
no_json = record {
  Json = Unit {0};
  parse = λ text. none;
  is_object = λ j. false;
  is_array = λ j. false;
  is_string = λ j. false;
  is_boolean = λ j. false;
  is_null = λ j. true;
  is_number_integer = λ j. false;
  is_number_unsigned = λ j. false;
  find = λ j key. none;
  elements = λ j. [];
  items = λ j. [];
  get_string = λ j. none;
  get_bool = λ j. none;
  get_unsigned = λ j. none;
  get_double = λ j. none;
  value_int64 = λ j key d. some d;
  value_string = λ j key d. some d;
  value_bool = λ j key d. some d;
  size = λ j. 0;
  equals_unsigned = λ j n. false;
  empty_object = tt;
  set_member = λ j key member. j;
  array = λ members. tt;
  of_string = λ s. tt;
  of_unsigned = λ n. tt;
  dump = λ j. some [];
}

abbrev error_message : TransportError → Bytes
error_message e = codes "refused"

handle_response-Classified_example : Classified no_json error_message permissiondenied none 403
unfolding handle_response
handle_response-Classified_example =
    handle_response-Classified no_json error_message (reply 403 (codes "no")) log_as_error

body_not_shown_example :
    shown (handle_response no_json error_message (reply 500 (codes "secret")) log_as_error).1
    ≡ shown (handle_response no_json error_message (reply 500 (codes "public")) log_as_error).1
body_not_shown_example =
    body_not_shown no_json error_message (reply 500 []) (codes "secret") (codes "public")
      log_as_error refl refl refl
