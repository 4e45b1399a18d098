-- ===== src/Http/Budget.antt =====
-- The rate-limit quota that a session last saw: `Rate_limit_budget`, `Threshold_percent`,
-- `Record_rate_limit` and `Rate_limit_wait_seconds`. A time is a number of nanoseconds.
pub mod Quota
use qdmi_on_iqm.Base.{
  ℕ, ◌+◌, ◌-◌, ◌*◌, ◌/◌, ◌%◌, ◌^◌, ◌||◌, Option, none, some, [], ◌∷◌, Bytes, codes, ltb, leb,
  if◌then◌else◌,
}
use qdmi_on_iqm.Base.Int.{ℤ, pos, negsuc}
use qdmi_on_iqm.Http.Number.{parse_number}

-- `remaining` and `limit` are `int64_t`; the code never stores a negative value in them.
pub record RateLimitBudget : Type 0 where
  pub remaining : ℕ
  pub limit : ℕ
  pub observed_at : ℕ

abbrev pub empty_budget : RateLimitBudget
empty_budget = record { remaining = 0; limit = 0; observed_at = 0 }

-- What the code reads of `cpr::Response`. The header map is given by its lookup, and `error` by its
-- code where there is one.
pub data TransportError : Type 0 where
  operation_timedout unknown_error : TransportError
  other_error : ℕ → TransportError

pub record Response : Type 0 where
  pub url : Bytes
  pub status_code : ℕ
  pub text : Bytes
  pub header : Bytes → Option Bytes
  pub error : Option TransportError

-- The process environment, as `std::getenv` reads it.
abbrev pub Environment : Type 0
Environment = Bytes → Option Bytes

abbrev pub default_rate_limit_threshold_percent : ℕ
default_rate_limit_threshold_percent = 10

abbrev pub rate_limit_window_seconds : ℕ
rate_limit_window_seconds = 10

abbrev rate_limit_threshold_variable : Bytes
rate_limit_threshold_variable = codes "IQM_RATE_LIMIT_THRESHOLD_PERCENT"

abbrev second : ℕ
second = 1_000_000_000

accept_percent : Option ℤ → ℕ
accept_percent none = default_rate_limit_threshold_percent
accept_percent (some (negsuc n)) = default_rate_limit_threshold_percent
accept_percent (some (pos percent)) =
    if ltb 100 percent then default_rate_limit_threshold_percent else percent

configured_percent : Option Bytes → ℕ
unfolding parse_number accept_percent
configured_percent none = default_rate_limit_threshold_percent
configured_percent (some []) = default_rate_limit_threshold_percent
configured_percent (some (c ∷ s)) = accept_percent (parse_number (c ∷ s))

pub threshold_percent : Environment → ℕ
unfolding configured_percent
threshold_percent env = configured_percent (env rate_limit_threshold_variable)

-- The quota that the two headers state, where both are there, both are numbers and the limit is
-- positive. A negative count is an exhausted quota.
reported_numbers : Option ℤ → Option ℤ → Option (ℕ × ℕ)
reported_numbers (some (pos limit)) (some (pos remaining)) =
    if ltb 0 limit then some (limit, remaining) else none
reported_numbers (some (pos limit)) (some (negsuc n)) =
    if ltb 0 limit then some (limit, 0) else none
reported_numbers _ _ = none

reported_headers : Option Bytes → Option Bytes → Option (ℕ × ℕ)
unfolding parse_number reported_numbers
reported_headers (some limit) (some remaining) =
    reported_numbers (parse_number limit) (parse_number remaining)
reported_headers _ _ = none

reported : Response → Option (ℕ × ℕ)
unfolding reported_headers
reported r =
    if ltb r.status_code 200 || leb 300 r.status_code
    then none
    else reported_headers (r.header (codes "RateLimit-Limit"))
        (r.header (codes "RateLimit-Remaining"))

-- The count of whole seconds, rounded up, as an `int`: `ahead` of now, or `behind` it. One of the
-- two is zero. A result below zero is given as zero.
narrowed_wait : ℕ → ℕ → ℕ
narrowed_wait ahead behind =
    let bits = (ahead % 2 ^ 32 + 2 ^ 32 - behind % 2 ^ 32) % 2 ^ 32 in
    if ltb bits (2 ^ 31) then bits else 0

-- `Record_rate_limit`, with the clock read where the code reads it.
module _ {W : Type 0} (now : W → ℕ × W) where
  store_quota : RateLimitBudget → Option (ℕ × ℕ) → W → RateLimitBudget × W
  store_quota budget none w = (budget, w)
  store_quota budget (some (limit, remaining)) w =
      let (time, w') = now w in
      (record { remaining = remaining; limit = limit; observed_at = time }, w')

  unfoldable pub record_rate_limit : RateLimitBudget → Response → W → RateLimitBudget × W
  unfolding reported store_quota
  record_rate_limit budget r w = store_quota budget (reported r) w

  -- `Rate_limit_wait_seconds`. The code's result is zero or less where this is zero: it only
  -- compares the result with zero.
  unfoldable pub rate_limit_wait_seconds : Environment → RateLimitBudget → W → ℕ × W
  unfolding threshold_percent narrowed_wait
  rate_limit_wait_seconds env budget w =
      if leb (budget.limit / 100 * threshold_percent env) budget.remaining
      then (0, w)
      else let (time, w') = now w in
        let replenished_at = budget.observed_at + rate_limit_window_seconds * second in
        (
          narrowed_wait ((replenished_at - time + (second - 1)) / second)
              ((time - replenished_at) / second),
          w',
        )
