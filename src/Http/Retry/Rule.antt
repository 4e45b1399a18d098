-- ===== src/Http/Retry/Rule.antt =====
-- One rule for every invariant of the retry loop, in the number of rounds that are left.
use qdmi_on_iqm.Base.{
  ℕ, zero, suc, ◌<◌, ◌≡◌, ◌==◌, Option, none, some, Bytes, codes, true, false, not, ◌||◌, is_some,
  arith, if_intro,
}
use qdmi_on_iqm.Http.Number.{retry_after_seconds}
use qdmi_on_iqm.Http.Budget.{RateLimitBudget, Response}
use qdmi_on_iqm.Http.Retry.{Hooks, delay_fits, remaining_timeout, update_budget, retry_loop}

-- What the pieces of a round do to a family of predicates on the world.
pub record Round {W : Type 0} (hooks : Hooks W) (attempt : ℕ → W → Response × W) (start timeout : ℕ)
    (P : ℕ → W → Type 0) : Type 0 where
  pub spend : (n : ℕ) (w : W) → P (suc n) w → P n w
  pub clock : (n : ℕ) (w : W) → P n w → P n (hooks.now w).1
  pub try :
      (n : ℕ) (w : W)
      → P (suc n) w
      → 0 < (remaining_timeout hooks start timeout w).0
      → P n
          (attempt
            (remaining_timeout hooks start timeout w).0
            (remaining_timeout hooks start timeout w).1).1
  pub rest :
      (n : ℕ) (w : W) (response : Response)
      → P n w
      → delay_fits
          (retry_after_seconds (response.header (codes "Retry-After")))
          (remaining_timeout hooks start timeout w).0
        ≡ true
      → P n (
          hooks.sleep
            (retry_after_seconds (response.header (codes "Retry-After")))
            (remaining_timeout hooks start timeout w).1)

positive : (n : ℕ) → (n == 0) ≡ false → 0 < n
positive n h = ground arith

module _ {W : Type 0} (hooks : Hooks W) (url : Bytes) (attempt : ℕ → W → Response × W)
    (start timeout : ℕ) (P : ℕ → W → Type 0) (round : Round hooks attempt start timeout P) where
  to_zero : (n : ℕ) (w : W) → P n w → P 0 w
  to_zero zero w h = h
  to_zero (suc n) w h = to_zero n w (round.spend n w h)

  remaining-P : (n : ℕ) (w : W) → P n w → P n (remaining_timeout hooks start timeout w).1
  unfolding remaining_timeout
  remaining-P n w h = round.clock n w h

  update-P :
      (n : ℕ) (budget : Option RateLimitBudget) (r : Response) (w : W)
      → P n w
      → P n (update_budget hooks budget r w).1
  unfolding update_budget
  update-P n none r w h = h
  update-P n (some budget) r w h = ground (arith, round.clock n w)

  -- Over any predicate on the outcome that the world decides: the unifier sees a plain application.
  loop_induction :
      (Q : Response × Option RateLimitBudget × W → Type 0)
      → ((r : Response) (b : Option RateLimitBudget) (w : W) → P 0 w → Q (r, b, w))
      → (rounds : ℕ) (budget : Option RateLimitBudget) (w : W) → P rounds w
      → Q (retry_loop hooks url attempt start timeout rounds budget w)
  unfolding retry_loop
  loop_induction Q q zero budget w h = q _ _ w h
  loop_induction Q q (suc rounds) budget w h =
      let first = remaining_timeout hooks start timeout w in
      let sent = attempt first.0 first.1 in
      let updated = update_budget hooks budget sent.0 sent.1 in
      let delay = retry_after_seconds (sent.0.header (codes "Retry-After")) in
      let left = remaining_timeout hooks start timeout updated.1 in
      if_intro Q (first.0 == 0)
        (λ _. q _ _ _ (to_zero (suc rounds) _ (remaining-P (suc rounds) w h)))
        λ time.
          let tried = round.try rounds w h (positive first.0 time) in
          let recorded = update-P rounds budget sent.0 sent.1 tried in
          if_intro Q (is_some sent.0.error) (λ _. q _ _ _ (to_zero rounds sent.1 tried))
            λ _.
              if_intro Q (not (sent.0.status_code == 429) || rounds == 0)
                (λ _. q _ _ _ (to_zero rounds updated.1 recorded))
                λ _.
                  if_intro Q (delay_fits delay left.0)
                    (λ fits.
                      loop_induction Q q rounds updated.0 _
                        (round.rest rounds updated.1 sent.0 recorded fits))
                    (λ _. q _ _ _ (to_zero rounds _ (remaining-P rounds updated.1 recorded)))

  pub retry_loop_rule :
      (rounds : ℕ) (budget : Option RateLimitBudget) (w : W)
      → P rounds w
      → P 0 (retry_loop hooks url attempt start timeout rounds budget w).2
  retry_loop_rule = loop_induction (λ r. P 0 r.2) (λ r b w h. h)
