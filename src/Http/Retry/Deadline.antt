-- ===== src/Http/Retry/Deadline.antt =====
-- A request keeps its deadline, over a clock that only sleeping and the transport move.
use qdmi_on_iqm.Base.{
  ℕ, ◌+◌, ◌-◌, ◌*◌, ◌/◌, ◌≤◌, ◌<◌, ◌≡◌, ◌&&◌, Option, none, some, Bytes, true, ltb, if◌then◌else◌,
  if_intro, arith, ◌∙◌,
}
use qdmi_on_iqm.Base.Int.{ℤ, pos, negsuc}
use qdmi_on_iqm.Http.Budget.{RateLimitBudget, Response, Environment, rate_limit_wait_seconds}
use qdmi_on_iqm.Http.Retry.Rule.{Round, retry_loop_rule}
use qdmi_on_iqm.Http.Retry.{
  Hooks, delay_fits, remaining_timeout, hold_back, perform_with_retries, http_get, http_post,
}

-- What the request relies on: `now` reads the clock and does not move it, a sleep lasts as long as
-- it is told and not at all for a negative delay, and the transport gives up at its timeout.
pub record KeepsTime {W : Type 0} (hooks : Hooks W) (time : W → ℕ) : Type 0 where
  pub now_reads : (w : W) → (hooks.now w).0 ≡ time w
  pub now_stays : (w : W) → time (hooks.now w).1 ≡ time w
  pub sleep_lasts : (d : ℕ) (w : W) → time (hooks.sleep (pos d) w) ≡ time w + d * 1_000_000_000
  pub sleep_negative : (d : ℕ) (w : W) → time (hooks.sleep (negsuc d) w) ≡ time w
  pub get_ends :
      (url : Bytes) (token : Option Bytes) (t : ℕ) (w : W)
      → time (hooks.get url token t w).1 ≤ time w + t * 1_000_000
  pub post_ends :
      (url : Bytes) (token : Option Bytes) (body : Bytes) (t : ℕ) (w : W)
      → time (hooks.post url token body t w).1 ≤ time w + t * 1_000_000

abbrev IsBefore : {W : Type 0} → (W → ℕ) → ℕ → ℕ → ℕ → W → Type 0
IsBefore time start timeout n w = time w < start + (timeout + 1) * 1_000_000

module _ {W : Type 0} (hooks : Hooks W) (time : W → ℕ) (law : KeepsTime hooks time) where
  sleep-IsBefore :
      (d : ℤ) (start timeout left n : ℕ) (w : W)
      → IsBefore time start timeout n w
      → left ≡ timeout + (start - time w) / 1_000_000 - (time w - start) / 1_000_000
      → delay_fits d left ≡ true
      → IsBefore time start timeout n (hooks.sleep d w)
  unfolding delay_fits
  sleep-IsBefore (pos d) start timeout left n w h e fits = ground (arith, law.sleep_lasts d w)
  sleep-IsBefore (negsuc d) start timeout left n w h e fits = omega (arith, law.sleep_negative d w)

  module _ (attempt : ℕ → W → Response × W)
      (ends : (t : ℕ) (w : W) → time (attempt t w).1 ≤ time w + t * 1_000_000) where
    round-IsBefore :
        (start timeout : ℕ) → Round hooks attempt start timeout (IsBefore time start timeout)
    unfolding remaining_timeout
    round-IsBefore start timeout = record {
      spend = λ n w h. h;
      clock = λ n w h. omega (arith, law.now_stays w);
      try = λ n w h positive. omega (
        arith,
        law.now_reads w,
        law.now_stays w,
        ends (remaining_timeout hooks start timeout w).0 (hooks.now w).1,
      );
      rest = λ n w r h fits.
          sleep-IsBefore _ start timeout _ n (hooks.now w).1 (omega (arith, law.now_stays w))
            (omega (arith, law.now_stays w, law.now_reads w)) fits;
    }

    wait-IsBefore :
        (start timeout wait : ℕ) (w : W)
        → time w ≡ start
        → IsBefore time start timeout 11
            (if ltb 0 wait && ltb (wait * 1000) timeout then hooks.sleep (pos wait) w else w)
    wait-IsBefore start timeout wait w h =
        if_intro (IsBefore time start timeout 11) (ltb 0 wait && ltb (wait * 1000) timeout)
          (λ fits. ground (arith, law.sleep_lasts wait w)) (λ _. omega arith)

    time-wait :
        (env : Environment) (budget : RateLimitBudget) (w : W)
        → time (rate_limit_wait_seconds hooks.now env budget w).1 ≡ time w
    unfolding rate_limit_wait_seconds
    time-wait env budget w = ground (arith, law.now_stays w)

    hold_back-IsBefore :
        (env : Environment) (start timeout : ℕ) (budget : Option RateLimitBudget) (w : W)
        → time w ≡ start
        → IsBefore time start timeout 11 (hold_back hooks env timeout budget w)
    unfolding hold_back
    hold_back-IsBefore env start timeout none w h = omega arith
    hold_back-IsBefore env start timeout (some budget) w h =
        wait-IsBefore start timeout (rate_limit_wait_seconds hooks.now env budget w).0
          (rate_limit_wait_seconds hooks.now env budget w).1 (time-wait env budget w ∙ h)

    perform-IsBefore :
        (env : Environment) (url : Bytes) (timeout : ℕ) (budget : Option RateLimitBudget) (w : W)
        → time (perform_with_retries hooks env url timeout budget attempt w).2
          < time w + (timeout + 1) * 1_000_000
    unfolding perform_with_retries
    perform-IsBefore env url timeout budget w =
        let start = (hooks.now w).0 in
        let ended =
          retry_loop_rule hooks url attempt start timeout (IsBefore time start timeout)
            (round-IsBefore start timeout) 11 budget
            (hold_back hooks env timeout budget (hooks.now w).1)
            (hold_back-IsBefore env start timeout budget (hooks.now w).1
              (omega (arith, law.now_stays w, law.now_reads w))) in
        omega (arith, law.now_reads w, ended)

  -- Where the clock, the sleeper and the transport keep time, a GET or POST with its throttling,
  -- its retries and their delays ends less than a millisecond after its timeout.
  pub request_deadline :
      (env : Environment) (url : Bytes) (token : Option Bytes) (body : Bytes) (timeout : ℕ)
      (budget : Option RateLimitBudget) (w : W)
      → (time (http_get hooks env url token timeout budget w).2
          < time w + (timeout + 1) * 1_000_000)
        × (time (http_post hooks env url token body timeout budget w).2
            < time w + (timeout + 1) * 1_000_000)
  unfolding http_get http_post
  request_deadline env url token body timeout budget w = (
    perform-IsBefore (hooks.get url token) (law.get_ends url token) env url timeout budget w,
    perform-IsBefore (hooks.post url token body) (law.post_ends url token body) env url timeout
        budget w,
  )
