-- ===== src/Http/Retry/Bounds.antt =====
-- What a request does to the transport and the sleeper, by a log of its calls of the hooks.
use qdmi_on_iqm.Base.{
  ℕ, suc, ◌+◌, ◌*◌, ◌≤◌, ◌<◌, ◌≡◌, refl, Option, List, [], ◌∷◌, Bytes, arith, All, true, none, some,
  ◌∙◌, ◌&&◌, ltb, if◌then◌else◌, if_intro,
}
use qdmi_on_iqm.Base.Int.{ℤ, pos, negsuc}
use qdmi_on_iqm.Http.Budget.{RateLimitBudget, Response, Environment, rate_limit_wait_seconds}
use qdmi_on_iqm.Http.Retry.Rule.{Round, retry_loop_rule}
use qdmi_on_iqm.Http.Retry.{
  Hooks, delay_fits, remaining_timeout, hold_back, perform_with_retries, http_get, http_post,
}

pub data Event : Type 0 where
  attempted : ℕ → Event
  slept : ℤ → Event

abbrev pub log_attempt :
    {W : Type 0} → (ℕ → W → Response × W) → ℕ → List Event × W → Response × (List Event × W)
log_attempt attempt t w = let (r, w') = attempt t w.1 in (r, (attempted t ∷ w.0, w'))

-- The hooks with a log of their calls, the last one first.
abbrev pub logged : {W : Type 0} → Hooks W → Hooks (List Event × W)
logged hooks = record {
  get = λ url token. log_attempt (hooks.get url token);
  post = λ url token body. log_attempt (hooks.post url token body);
  sleep = λ d w. (slept d ∷ w.0, hooks.sleep d w.1);
  now = λ w. let (t, w') = hooks.now w.1 in (t, (w.0, w'));
}

abbrev pub attempts : List Event → ℕ
attempts [] = 0
attempts (attempted t ∷ log) = suc (attempts log)
attempts (slept d ∷ log) = attempts log

-- An attempt has a timeout that is positive and within the request's; a wait is shorter than the
-- request's timeout.
abbrev pub Fits : ℕ → Event → Type 0
Fits timeout (attempted t) = (0 < t) × (t ≤ timeout)
Fits timeout (slept (pos d)) = d * 1000 < timeout
Fits timeout (slept (negsuc d)) = Unit

delay_fits-Fits :
    (d : ℤ) (left timeout : ℕ) → left ≤ timeout → delay_fits d left ≡ true → Fits timeout (slept d)
unfolding delay_fits
delay_fits-Fits (pos d) left timeout le h = ground arith
delay_fits-Fits (negsuc d) left timeout le h = tt

-- The clock does not go back, whoever reads it and whatever happens meanwhile: `now` tells the time
-- of the world, and no hook lowers it.
pub record NeverGoesBack {W : Type 0} (hooks : Hooks W) (time : W → ℕ) : Type 0 where
  pub now_reads : (w : W) → (hooks.now w).0 ≡ time w
  pub now_goes_on : (w : W) → time w ≤ time (hooks.now w).1
  pub sleep_goes_on : (d : ℤ) (w : W) → time w ≤ time (hooks.sleep d w)
  pub get_goes_on :
      (url : Bytes) (token : Option Bytes) (t : ℕ) (w : W)
      → time w ≤ time (hooks.get url token t w).1
  pub post_goes_on :
      (url : Bytes) (token : Option Bytes) (body : Bytes) (t : ℕ) (w : W)
      → time w ≤ time (hooks.post url token body t w).1

-- The log holds as many attempts as were spent of `total`, each of its events fits, and the clock is
-- not before the start.
abbrev IsWithin : {W : Type 0} → (W → ℕ) → ℕ → ℕ → ℕ → ℕ → List Event × W → Type 0
IsWithin time start total timeout n w =
    (attempts w.0 + n ≤ total) × All (Fits timeout) w.0 × (start ≤ time w.1)

module _ {W : Type 0} (hooks : Hooks W) (time : W → ℕ) (law : NeverGoesBack hooks time) where
  module _ (attempt : ℕ → W → Response × W)
      (goes_on : (t : ℕ) (w : W) → time w ≤ time (attempt t w).1) (start timeout total : ℕ) where
    remaining-le :
        (w : List Event × W)
        → start ≤ time w.1
        → (remaining_timeout (logged hooks) start timeout w).0 ≤ timeout
    unfolding remaining_timeout
    remaining-le w h = omega (arith, law.now_reads w.1)

    round-IsWithin :
        Round (logged hooks) (log_attempt attempt) start timeout (IsWithin time start total timeout)
    unfolding remaining_timeout
    round-IsWithin = record {
      spend = λ n w h. (omega arith, h.1, h.2);
      clock = λ n w h. (h.0, h.1, omega (arith, law.now_goes_on w.1));
      try = λ n w h pos. (
        omega arith,
        ((pos, remaining-le w h.2), h.1),
        omega (arith, law.now_goes_on w.1, goes_on _ (hooks.now w.1).1),
      );
      rest = λ n w r h fits. (
        h.0,
        (delay_fits-Fits _ _ timeout (remaining-le w h.2) fits, h.1),
        omega (arith, law.now_goes_on w.1, law.sleep_goes_on _ (hooks.now w.1).1),
      );
    }

  log-wait :
      (env : Environment) (budget : RateLimitBudget) (w : List Event × W)
      → (rate_limit_wait_seconds (logged hooks).now env budget w).1.0 ≡ w.0
  unfolding rate_limit_wait_seconds
  log-wait env budget w = ground arith

  time-wait :
      (env : Environment) (budget : RateLimitBudget) (w : List Event × W)
      → time w.1 ≤ time (rate_limit_wait_seconds (logged hooks).now env budget w).1.1
  unfolding rate_limit_wait_seconds
  time-wait env budget w = ground (arith, law.now_goes_on w.1)

  sleep-IsWithin :
      (start timeout wait : ℕ) (w : List Event × W)
      → w.0 ≡ []
      → start ≤ time w.1
      → IsWithin time start 11 timeout 11
          (if ltb 0 wait && ltb (wait * 1000) timeout then (logged hooks).sleep (pos wait) w else w)
  sleep-IsWithin start timeout wait w h le =
      if_intro (IsWithin time start 11 timeout 11) (ltb 0 wait && ltb (wait * 1000) timeout)
        (λ fits. ground (arith, law.sleep_goes_on (pos wait) w.1)) (λ _. rw h (omega arith, tt, le))

  hold_back-IsWithin :
      (env : Environment) (start timeout : ℕ) (budget : Option RateLimitBudget) (w : List Event × W)
      → w.0 ≡ []
      → start ≤ time w.1
      → IsWithin time start 11 timeout 11 (hold_back (logged hooks) env timeout budget w)
  unfolding hold_back
  hold_back-IsWithin env start timeout none w h le = rw h (omega arith, tt, le)
  hold_back-IsWithin env start timeout (some budget) w h le =
      sleep-IsWithin start timeout (rate_limit_wait_seconds (logged hooks).now env budget w).0
        (rate_limit_wait_seconds (logged hooks).now env budget w).1 (log-wait env budget w ∙ h)
        (omega (arith, time-wait env budget w))

  perform-IsWithin :
      (env : Environment) (url : Bytes) (timeout : ℕ) (budget : Option RateLimitBudget)
      (attempt : ℕ → W → Response × W) (w : W)
      → ((t : ℕ) (w : W) → time w ≤ time (attempt t w).1)
      → IsWithin time
          (hooks.now w).0
          11
          timeout
          0
          (perform_with_retries
            (logged hooks)
            env
            url
            timeout
            budget
            (log_attempt attempt)
            ([], w)).2
  unfolding perform_with_retries
  perform-IsWithin env url timeout budget attempt w goes_on =
      let start = (hooks.now w).0 in
      retry_loop_rule (logged hooks) url (log_attempt attempt) start timeout
        (IsWithin time start 11 timeout) (round-IsWithin attempt goes_on start timeout 11) 11 budget
        _
        (hold_back-IsWithin env start timeout budget ([], (hooks.now w).1) refl
          (omega (arith, law.now_reads w, law.now_goes_on w)))

  -- Where the clock never goes back, whatever else the transport and the sleeper do, a GET or POST
  -- makes at most eleven attempts, gives each a timeout that is positive and at most the request's,
  -- and never starts a wait of its own that is as long as the request's timeout.
  pub request_bounded :
      (env : Environment) (url : Bytes) (token : Option Bytes) (body : Bytes) (timeout : ℕ)
      (budget : Option RateLimitBudget) (w : W)
      → let got = (http_get (logged hooks) env url token timeout budget ([], w)).2.0 in
        let posted = (http_post (logged hooks) env url token body timeout budget ([], w)).2.0 in
        ((attempts got ≤ 11) × All (Fits timeout) got)
        × ((attempts posted ≤ 11) × All (Fits timeout) posted)
  unfolding http_get http_post
  request_bounded env url token body timeout budget w =
      let got =
        perform-IsWithin env url timeout budget (hooks.get url token) w
          (law.get_goes_on url token) in
      let posted =
        perform-IsWithin env url timeout budget (hooks.post url token body) w
          (law.post_goes_on url token body) in
      ((omega arith, got.1), (omega arith, posted.1))
