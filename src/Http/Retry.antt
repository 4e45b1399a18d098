-- ===== src/Http/Retry.antt =====
-- `Hooks`, `Perform_with_retries`, `Get` and `Post`. The world `W` is whatever the hooks act on:
-- the network, the clock and the passing of time.
pub mod Rule
pub mod Bounds
pub mod Deadline
pub mod Forward
pub mod Overflow
use qdmi_on_iqm.Base.{
  ℕ, zero, suc, ◌+◌, ◌-◌, ◌*◌, ◌/◌, Bool, true, not, ◌&&◌, ◌||◌, Option, none, some, List, [], ◌∷◌,
  Bytes, codes, ltb, leb, ◌==◌, if◌then◌else◌, is_some,
}
use qdmi_on_iqm.Base.Int.{ℤ, pos, negsuc}
use qdmi_on_iqm.Http.Number.{retry_after_seconds}
use qdmi_on_iqm.Http.Budget.{
  RateLimitBudget, Response, TransportError, operation_timedout, unknown_error, Environment,
  record_rate_limit, rate_limit_wait_seconds,
}

-- Timeouts are milliseconds, delays seconds and times nanoseconds.
pub record Hooks (W : Type 0) : Type 0 where
  pub get : Bytes → Option Bytes → ℕ → W → Response × W
  pub post : Bytes → Option Bytes → Bytes → ℕ → W → Response × W
  pub sleep : ℤ → W → W
  pub now : W → ℕ × W

abbrev pub rate_limit_retry_count : ℕ
rate_limit_retry_count = 10

abbrev pub failure : Bytes → TransportError → Response
failure url e = record { url = url; status_code = 0; text = []; header = λ _. none; error = some e }

-- The negation of `retry_delay >= retry_budget`, in milliseconds.
pub delay_fits : ℤ → ℕ → Bool
delay_fits (pos seconds) left = ltb (seconds * 1000) left
delay_fits (negsuc _) left = true

module _ {W : Type 0} (hooks : Hooks W) where
  -- The lambda `remaining_timeout`. The elapsed time is signed, and `duration_cast` rounds towards
  -- zero: a clock that has gone back adds to the timeout. One of the two differences is zero.
  unfoldable pub remaining_timeout : ℕ → ℕ → W → ℕ × W
  remaining_timeout start timeout w =
      let (time, w') = hooks.now w in
      (timeout + (start - time) / 1_000_000 - (time - start) / 1_000_000, w')

  unfoldable pub update_budget : Option RateLimitBudget → Response → W → Option RateLimitBudget × W
  unfolding record_rate_limit
  update_budget none r w = (none, w)
  update_budget (some budget) r w =
      let (budget', w') = record_rate_limit hooks.now budget r w in (some budget', w')

  -- The rounds that are left: `attempt` is `rate_limit_retry_count + 1 - rounds`.
  pub retry_loop :
      Bytes
      → (ℕ → W → Response × W)
      → ℕ
      → ℕ
      → ℕ
      → Option RateLimitBudget
      → W
      → Response × Option RateLimitBudget × W
  unfolding remaining_timeout update_budget delay_fits
  retry_loop url attempt start timeout zero budget w = (failure url unknown_error, budget, w)
  retry_loop url attempt start timeout (suc rounds) budget w =
      let (remaining, w₁) = remaining_timeout start timeout w in
      let (response, w₂) = attempt remaining w₁ in
      let (budget', w₃) = update_budget budget response w₂ in
      let delay = retry_after_seconds (response.header (codes "Retry-After")) in
      let (left, w₄) = remaining_timeout start timeout w₃ in
      let again = retry_loop url attempt start timeout rounds budget' (hooks.sleep delay w₄) in
      if remaining == 0
      then (failure url operation_timedout, budget, w₁)
      else if is_some response.error
      then (response, budget, w₂)
      else if not (response.status_code == 429) || rounds == 0
      then (response, budget', w₃)
      else if delay_fits delay left
      then again
      else (response, budget', w₄)

  -- The wait before the first attempt, where the quota runs low and the timeout can spare it.
  pub hold_back : Environment → ℕ → Option RateLimitBudget → W → W
  unfolding rate_limit_wait_seconds
  hold_back env timeout none w = w
  hold_back env timeout (some budget) w =
      let (wait, w') = rate_limit_wait_seconds hooks.now env budget w in
      if ltb 0 wait && ltb (wait * 1000) timeout then hooks.sleep (pos wait) w' else w'

  pub perform_with_retries :
      Environment
      → Bytes
      → ℕ
      → Option RateLimitBudget
      → (ℕ → W → Response × W)
      → W
      → Response × Option RateLimitBudget × W
  unfolding retry_loop hold_back
  perform_with_retries env url timeout budget attempt w =
      let (start, w') = hooks.now w in
      retry_loop url attempt start timeout (rate_limit_retry_count + 1) budget
        (hold_back env timeout budget w')

  unfoldable pub http_get :
      Environment
      → Bytes
      → Option Bytes
      → ℕ
      → Option RateLimitBudget
      → W
      → Response × Option RateLimitBudget × W
  unfolding perform_with_retries
  http_get env url token timeout budget w =
      perform_with_retries env url timeout budget (hooks.get url token) w

  unfoldable pub http_post :
      Environment
      → Bytes
      → Option Bytes
      → Bytes
      → ℕ
      → Option RateLimitBudget
      → W
      → Response × Option RateLimitBudget × W
  unfolding perform_with_retries
  http_post env url token body timeout budget w =
      perform_with_retries env url timeout budget (hooks.post url token body) w
