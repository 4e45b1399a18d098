-- ===== src/Http/Retry/Forward.antt =====
-- A request never turns the clock back.
use qdmi_on_iqm.Base.{
  ℕ, ◌+◌, ◌*◌, ◌≤◌, ◌≡◌, ◌&&◌, Option, none, some, Bytes, arith, if_intro, if◌then◌else◌, ltb,
}
use qdmi_on_iqm.Base.Int.{ℤ, pos, negsuc}
use qdmi_on_iqm.Http.Budget.{RateLimitBudget, Response, Environment, rate_limit_wait_seconds}
use qdmi_on_iqm.Http.Retry.{Hooks, remaining_timeout, hold_back, perform_with_retries, http_get}
use qdmi_on_iqm.Http.Retry.Rule.{Round, retry_loop_rule}

-- `now` reads the clock, a sleep lasts at least as long as it is told, and the transport does not
-- turn the clock back.
pub record NeverRewinds {W : Type 0} (hooks : Hooks W) (time : W → ℕ) : Type 0 where
  pub now_reads : (w : W) → (hooks.now w).0 ≡ time w
  pub now_stays : (w : W) → time (hooks.now w).1 ≡ time w
  pub sleep_lasts : (d : ℕ) (w : W) → time w + d * 1_000_000_000 ≤ time (hooks.sleep (pos d) w)
  pub sleep_negative : (d : ℕ) (w : W) → time w ≤ time (hooks.sleep (negsuc d) w)
  pub get_goes_on :
      (url : Bytes) (token : Option Bytes) (t : ℕ) (w : W)
      → time w ≤ time (hooks.get url token t w).1

module _ {W : Type 0} (hooks : Hooks W) (time : W → ℕ) (law : NeverRewinds hooks time) where
  sleep_goes_on : (d : ℤ) (w : W) → time w ≤ time (hooks.sleep d w)
  sleep_goes_on (pos d) w = omega (arith, law.sleep_lasts d w)
  sleep_goes_on (negsuc d) w = law.sleep_negative d w

  round_goes_on :
      (attempt : ℕ → W → Response × W)
      → ((t : ℕ) (w : W) → time w ≤ time (attempt t w).1)
      → (start timeout earlier : ℕ) → Round hooks attempt start timeout (λ n w. earlier ≤ time w)
  unfolding remaining_timeout
  round_goes_on attempt goes_on start timeout earlier = record {
    spend = λ n w h. h;
    clock = λ n w h. omega (arith, law.now_stays w);
    try = λ n w h positive. omega (
      arith,
      law.now_stays w,
      goes_on (remaining_timeout hooks start timeout w).0 (hooks.now w).1,
    );
    rest = λ n w r h fits. omega (arith, law.now_stays w, sleep_goes_on _ (hooks.now w).1);
  }

  time-wait :
      (env : Environment) (budget : RateLimitBudget) (w : W)
      → time w ≤ time (rate_limit_wait_seconds hooks.now env budget w).1
  unfolding rate_limit_wait_seconds
  time-wait env budget w = ground (arith, law.now_stays w)

  pause_goes_on :
      (wait timeout earlier : ℕ) (w : W)
      → earlier ≤ time w
      → earlier
        ≤ time (if ltb 0 wait && ltb (wait * 1000) timeout then hooks.sleep (pos wait) w else w)
  pause_goes_on wait timeout earlier w h =
      if_intro (λ v. earlier ≤ time v) (ltb 0 wait && ltb (wait * 1000) timeout)
        (λ _. omega (arith, law.sleep_lasts wait w)) (λ _. h)

  hold_back_goes_on :
      (env : Environment) (timeout : ℕ) (budget : Option RateLimitBudget) (w : W)
      → time w ≤ time (hold_back hooks env timeout budget w)
  unfolding hold_back
  hold_back_goes_on env timeout none w = omega arith
  hold_back_goes_on env timeout (some budget) w =
      pause_goes_on (rate_limit_wait_seconds hooks.now env budget w).0 timeout (time w)
        (rate_limit_wait_seconds hooks.now env budget w).1 (time-wait env budget w)

  pub http_get_goes_on :
      (env : Environment) (url : Bytes) (token : Option Bytes) (timeout : ℕ)
      (budget : Option RateLimitBudget) (w : W)
      → time w ≤ time (http_get hooks env url token timeout budget w).2
  unfolding http_get perform_with_retries
  http_get_goes_on env url token timeout budget w =
      retry_loop_rule hooks url (hooks.get url token) (hooks.now w).0 timeout
        (λ n v. time w ≤ time v)
        (round_goes_on (hooks.get url token) (law.get_goes_on url token) (hooks.now w).0 timeout
          (time w))
        11 budget (hold_back hooks env timeout budget (hooks.now w).1)
        (omega (arith, law.now_stays w, hold_back_goes_on env timeout budget (hooks.now w).1))
