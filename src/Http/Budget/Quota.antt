-- ===== src/Http/Budget/Quota.antt =====
-- What the recorded quota can be, and how long it makes a request wait.
use qdmi_on_iqm.Base.{
  ℕ, zero, suc, ◌+◌, ◌-◌, ◌*◌, ◌/◌, ◌^◌, ◌↔◌, ◌≤◌, ◌<◌, ◌≡◌, refl, sym, ◌∙◌, ◌⊎◌, inl, inr, ◌||◌,
  Bool-cases, Option, none, some, Bytes, codes, ltb, leb, arith,
}
use qdmi_on_iqm.Base.Int.{ℤ, pos, negsuc}
use qdmi_on_iqm.Http.Number.{parse_number}
use qdmi_on_iqm.Base.Decimal.{to_string}
use qdmi_on_iqm.Http.Number.RoundTrip.{parse_number-to_string}
use qdmi_on_iqm.Http.Budget.{
  RateLimitBudget, Response, Environment, configured_percent, threshold_percent, record_rate_limit,
  rate_limit_wait_seconds, narrowed_wait, reported, reported_headers, reported_numbers,
}

configured_percent-le : (o : Option Bytes) → configured_percent o ≤ 100
unfolding configured_percent
configured_percent-le o = ground arith

threshold_percent-le : (env : Environment) → threshold_percent env ≤ 100
unfolding threshold_percent
threshold_percent-le env = configured_percent-le (env (codes "IQM_RATE_LIMIT_THRESHOLD_PERCENT"))

-- A 2xx response whose two headers are numbers, the first one positive.
abbrev pub IsReport : Response → ℕ → ℤ → Type 0
IsReport r limit left =
    (200 ≤ r.status_code)
    × (r.status_code < 300)
    × (0 < limit)
    × ((a : Bytes) × (r.header (codes "RateLimit-Limit") ≡ some a)
        × (parse_number a ≡ some (pos limit)))
    × ((b : Bytes) × (r.header (codes "RateLimit-Remaining") ≡ some b)
        × (parse_number b ≡ some left))

abbrev pub at_least_zero : ℤ → ℕ
at_least_zero (pos n) = n
at_least_zero (negsuc n) = 0

reported-IsReport :
    (r : Response) (limit : ℕ) (left : ℤ)
    → IsReport r limit left
    → reported r ≡ some (limit, at_least_zero left)
unfolding reported
reported-IsReport r limit (pos n) (lo, hi, positive, (a, ha, pa), (b, hb, pb)) =
    rw (ha, hb) (unfold reported_headers in rw (pa, pb) (unfold reported_numbers in ground arith))
reported-IsReport r limit (negsuc n) (lo, hi, positive, (a, ha, pa), (b, hb, pb)) =
    rw (ha, hb) (unfold reported_headers in rw (pa, pb) (unfold reported_numbers in ground arith))

number_cases :
    (x y : Option ℤ)
    → ((limit : ℕ) × (left : ℤ) × (x ≡ some (pos limit)) × (0 < limit) × (y ≡ some left))
      ⊎ (reported_numbers x y ≡ none)
unfolding reported_numbers
number_cases none y = inr refl
number_cases (some (negsuc n)) y = inr refl
number_cases (some (pos limit)) none = inr refl
number_cases (some (pos zero)) (some (pos n)) = inr refl
number_cases (some (pos zero)) (some (negsuc n)) = inr refl
number_cases (some (pos (suc limit))) (some left) = inl (suc limit, left, refl, omega arith, refl)

header_cases :
    (x y : Option Bytes)
    → ((limit : ℕ) × (left : ℤ) × (0 < limit)
        × ((a : Bytes) × (x ≡ some a) × (parse_number a ≡ some (pos limit)))
        × ((b : Bytes) × (y ≡ some b) × (parse_number b ≡ some left)))
      ⊎ (reported_headers x y ≡ none)
unfolding reported_headers
header_cases none y = inr refl
header_cases (some a) none = inr refl
header_cases (some a) (some b) = elim (number_cases (parse_number a) (parse_number b)) [
  | inl (limit, left, pa, positive, pb) ↦ inl (limit, left, positive, (a, refl, pa), (b, refl, pb))
  | inr e ↦ inr e
]

IsReport-or_none :
    (r : Response) → ((limit : ℕ) × (left : ℤ) × IsReport r limit left) ⊎ (reported r ≡ none)
unfolding reported
IsReport-or_none r = elim (Bool-cases (ltb r.status_code 200 || leb 300 r.status_code)) [
  | inl outside ↦ inr (rw outside refl)
  | inr inside ↦
      elim (header_cases (r.header (codes "RateLimit-Limit"))
        (r.header (codes "RateLimit-Remaining"))) [
          | inl (limit, left, positive, a, b) ↦
              inl (limit, left, (ground arith, ground arith, positive, a, b))
          | inr e ↦ inr (rw inside e)
        ]
]

-- Within the window and up to 2 ^ 31 seconds behind, narrowing to an `int` keeps the value.
narrowed_wait-window :
    (observed time : ℕ)
    → observed ≤ time
    → time < observed + 2 ^ 31 * 1_000_000_000
    → narrowed_wait
        ((observed + 10 * 1_000_000_000 - time + (1_000_000_000 - 1)) / 1_000_000_000)
        ((time - (observed + 10 * 1_000_000_000)) / 1_000_000_000)
      ≡ (observed + 10 * 1_000_000_000 - time + (1_000_000_000 - 1)) / 1_000_000_000
unfolding narrowed_wait
narrowed_wait-window observed time h recent = ground arith

module _ {W : Type 0} (now : W → ℕ × W) where
  -- A response that reports decimal numbers for a positive limit and what remains of it, with a
  -- 2xx code, replaces the quota by these numbers and the time at which it was read.
  pub record_rate_limit_reported :
      (budget : RateLimitBudget) (r : Response) (w : W) (limit remaining : ℕ)
      → 200 ≤ r.status_code
      → r.status_code < 300
      → 0 < limit
      → limit < 2 ^ 63
      → remaining < 2 ^ 63
      → r.header (codes "RateLimit-Limit") ≡ some (to_string limit)
      → r.header (codes "RateLimit-Remaining") ≡ some (to_string remaining)
      → record_rate_limit now budget r w
        ≡ (record { remaining = remaining; limit = limit; observed_at = (now w).0 }, (now w).1)
  unfolding record_rate_limit
  record_rate_limit_reported budget r w limit remaining lo hi positive l m hl hr =
      rw (hl, hr, parse_number-to_string limit l, parse_number-to_string remaining m) (ground arith)

  -- A 2xx response in which both headers are numbers and the limit is positive replaces the quota by
  -- these numbers, with 0 for a negative remaining one, and the time at which it was read; and any
  -- other response leaves the quota and the clock alone.
  pub record_rate_limit_cases :
      (budget : RateLimitBudget) (r : Response) (w : W)
      → ((limit : ℕ) × (left : ℤ) × IsReport r limit left
          × (record_rate_limit now budget r w ≡ (
            record { remaining = at_least_zero left; limit = limit; observed_at = (now w).0 },
            (now w).1,
          )))
        ⊎ (¬ ((limit : ℕ) × (left : ℤ) × IsReport r limit left)
            × (record_rate_limit now budget r w ≡ (budget, w)))
  unfolding record_rate_limit
  record_rate_limit_cases budget r w = elim (IsReport-or_none r) [
    | inl (limit, left, report) ↦
        inl (limit, left, report, rw (reported-IsReport r limit left report) refl)
    | inr e ↦ inr (
      λ (limit, left, report).
          let clash = sym (reported-IsReport r limit left report) ∙ e in ground arith,
      rw e refl,
    )
  ]

  -- With the clock not behind the reading, and the reading less than 2 ^ 31 seconds old, the number
  -- of seconds to hold back is positive exactly if what remains is below the threshold and the
  -- window is still open; it is then the time until the window has closed, rounded up to a second,
  -- and never above ten.
  pub rate_limit_wait_window :
      (env : Environment) (budget : RateLimitBudget) (w : W)
      → budget.observed_at ≤ (now w).0
      → (now w).0 < budget.observed_at + 2 ^ 31 * 1_000_000_000
      → let wait = (rate_limit_wait_seconds now env budget w).0 in
        let end = budget.observed_at + 10_000_000_000 in
        ((0 < wait)
          ↔ ((budget.remaining < budget.limit / 100 * threshold_percent env) × ((now w).0 < end)))
        × (wait ≤ 10)
        × ((wait ≡ 0)
            ⊎ ((end ≤ (now w).0 + wait * 1_000_000_000)
                × ((now w).0 + wait * 1_000_000_000 < end + 1_000_000_000)))
  unfolding rate_limit_wait_seconds
  rate_limit_wait_window env budget w h recent =
      rw (narrowed_wait-window budget.observed_at (now w).0 h recent)
        ((λ x. ground arith, λ x. ground arith), ground arith, ground arith)
