-- ===== src/Http/Retry/Overflow.antt =====
-- A Retry-After value that does not fit an `int`.
use qdmi_on_iqm.Base.{
  ℕ, suc, ◌-◌, ◌^◌, ◌≤◌, ◌<◌, ◌≡◌, ap, ◌∙◌, if_intro, ◌==◌, Option, none, some, Bytes, codes, true,
  false, not, ◌||◌, is_some, arith,
}
use qdmi_on_iqm.Base.Decimal.{to_string}
use qdmi_on_iqm.Base.Int.{ℤ, pos, negsuc}
use qdmi_on_iqm.Http.Budget.{RateLimitBudget, Response, TransportError}
use qdmi_on_iqm.Http.Number.{narrow_to_int, retry_after_seconds}
use qdmi_on_iqm.Http.Number.RoundTrip.{retry_after_seconds-to_string}
use qdmi_on_iqm.Http.Retry.{Hooks, delay_fits, remaining_timeout, update_budget, retry_loop}

narrow-negative : (n : ℕ) → 2 ^ 31 ≤ n → n < 2 ^ 32 → narrow_to_int n ≡ negsuc (2 ^ 32 - n - 1)
unfolding narrow_to_int
narrow-negative n lo hi = ground arith

asked_delay :
    (header : Option Bytes) (n : ℕ)
    → 2 ^ 31 ≤ n
    → n < 2 ^ 32
    → header ≡ some (to_string n)
    → retry_after_seconds header ≡ negsuc (2 ^ 32 - n - 1)
asked_delay header n lo hi asked =
    ap retry_after_seconds asked
    ∙ retry_after_seconds-to_string n (omega arith)
    ∙ narrow-negative n lo hi

no_error : (e : Option TransportError) → e ≡ none → is_some e ≡ true → ⊥
no_error none h failed = ground arith
no_error (some e) h failed = ground arith

negative_fits : (d : ℤ) (left m : ℕ) → d ≡ negsuc m → delay_fits d left ≡ false → ⊥
unfolding delay_fits
negative_fits (pos k) left m h late = ground arith
negative_fits (negsuc k) left m h late = ground arith

module _ {W : Type 0} (hooks : Hooks W) where
  -- The answer to an attempt with the time that is left.
  abbrev pub answered : (ℕ → W → Response × W) → ℕ → ℕ → W → Response × W
  answered attempt start timeout w =
      let (remaining, w') = remaining_timeout hooks start timeout w in attempt remaining w'

  -- Where time is left for an attempt that is not the last one, and the server answers it with HTTP
  -- 429 and asks for a wait of n seconds, at least 2 ^ 31 and less than 2 ^ 32, the request goes on
  -- to its next round after a call of the sleeper with n - 2 ^ 32 seconds, a negative number,
  -- whatever time is left then: it does not give the answer back for want of time.
  pub retry_after_overflow :
      (url : Bytes) (attempt : ℕ → W → Response × W) (start timeout rounds n : ℕ)
      (budget : Option RateLimitBudget) (w : W)
      → 2 ^ 31 ≤ n
      → n < 2 ^ 32
      → 0 < (remaining_timeout hooks start timeout w).0
      → (answered attempt start timeout w).0.error ≡ none
      → (answered attempt start timeout w).0.status_code ≡ 429
      → (answered attempt start timeout w).0.header (codes "Retry-After") ≡ some (to_string n)
      → let (response, w') = answered attempt start timeout w in
        let (budget', w₂) = update_budget hooks budget response w' in
        retry_loop hooks url attempt start timeout (suc (suc rounds)) budget w
        ≡ retry_loop hooks url attempt start timeout
            (suc rounds)
            budget'
            (hooks.sleep (negsuc (2 ^ 32 - n - 1)) (remaining_timeout hooks start timeout w₂).1)
  unfolding retry_loop
  retry_after_overflow url attempt start timeout rounds n budget w lo hi left fine limited asked =
      let first = remaining_timeout hooks start timeout w in
      let sent = attempt first.0 first.1 in
      let updated = update_budget hooks budget sent.0 sent.1 in
      let next = remaining_timeout hooks start timeout updated.1 in
      let delay = retry_after_seconds (sent.0.header (codes "Retry-After")) in
      let again = λ (d : ℤ).
        retry_loop hooks url attempt start timeout (suc rounds) updated.0 (hooks.sleep d next.1) in
      let long = asked_delay (sent.0.header (codes "Retry-After")) n lo hi asked in
      let P = λ (r : Response × Option RateLimitBudget × W). r ≡ again (negsuc (2 ^ 32 - n - 1)) in
      if_intro P (first.0 == 0) (λ out. absurd (ground arith))
        (λ _.
          if_intro P (is_some sent.0.error) (λ failed. absurd (no_error sent.0.error fine failed))
            (λ _.
              if_intro P (not (sent.0.status_code == 429) || suc rounds == 0)
                (λ other. absurd (ground arith))
                (λ _.
                  if_intro P (delay_fits delay next.0) (λ _. ap again long)
                    (λ late. absurd (negative_fits delay next.0 _ long late)))))
