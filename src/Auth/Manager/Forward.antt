-- ===== src/Auth/Manager/Forward.antt =====
-- Obtaining a token never turns the clock back.
use qdmi_on_iqm.Base.{ℕ, zero, suc, ◌≤◌, Option, none, some, Bytes, arith, if_intro}
use qdmi_on_iqm.Json.{JsonLib}
use qdmi_on_iqm.Auth.Manager.{
  AuthHost, TokenManager, TokenSource, no_source, external_token, tokens_file, AuthResult, value,
  throws, authentication, configuration, store_token, still_valid, read_access_token_from_file,
  fetch, cached_or_fetched, one_try, or_again, get_bearer_token,
}

module _ {W : Type 0} (lib : JsonLib) (host : AuthHost W) (time : W → ℕ)
    (read_goes_on : (path : Bytes) (w : W) → time w ≤ time (host.read_file path w).1) where
  abbrev Later : ℕ → AuthResult (Option Bytes) × TokenManager × W → Type 0
  Later earlier o = earlier ≤ time o.2

  store_token-Later :
      (earlier : ℕ) (manager : TokenManager) (r : AuthResult Bytes) (w : W)
      → earlier ≤ time w
      → Later earlier (store_token lib host manager (r, w))
  unfolding store_token
  store_token-Later earlier manager (value t) w h = h
  store_token-Later earlier manager (throws e) w h = h

  fetch-Later :
      (source : TokenSource) (text : Option Bytes) (manager : TokenManager) (w : W)
      → Later (time w) (fetch lib host source text manager w)
  unfolding fetch
  fetch-Later no_source text manager w = omega arith
  fetch-Later external_token none manager w = omega arith
  fetch-Later external_token (some t) manager w =
      store_token-Later (time w) manager (value t) w (omega arith)
  fetch-Later tokens_file none manager w = omega arith
  fetch-Later tokens_file (some path) manager w =
      store_token-Later (time w) manager (read_access_token_from_file lib host path w).0 _
        (read_goes_on path w)

  cached_or_fetched-Later :
      (manager : TokenManager) (w : W) → Later (time w) (cached_or_fetched lib host manager w)
  unfolding cached_or_fetched
  cached_or_fetched-Later manager w =
      if_intro (Later (time w)) (still_valid lib host manager.access_token (host.time w))
        (λ _. omega arith)
        (λ _. fetch-Later manager.token_source manager.token_source_value manager w)

  one_try-Later :
      (manager : TokenManager) (source : TokenSource) (w : W)
      → Later (time w) (one_try lib host manager source w)
  unfolding one_try
  one_try-Later manager no_source w = omega arith
  one_try-Later manager external_token w = cached_or_fetched-Later manager w
  one_try-Later manager tokens_file w = cached_or_fetched-Later manager w

  or_again-Later :
      (earlier : ℕ) (r : AuthResult (Option Bytes)) (manager : TokenManager) (w : W)
      (again : TokenManager → W → AuthResult (Option Bytes) × TokenManager × W)
      → earlier ≤ time w
      → ((manager : TokenManager) (w : W) → Later (time w) (again manager w))
      → Later earlier (or_again lib host (r, manager, w) again)
  unfolding or_again
  or_again-Later earlier (value t) manager w again h next = h
  or_again-Later earlier (throws configuration) manager w again h next = h
  or_again-Later earlier (throws authentication) manager w again h next =
      omega (arith, h, next manager w)

  pub get_bearer_token_goes_on :
      (retries : ℕ) (manager : TokenManager) (w : W)
      → time w ≤ time (get_bearer_token lib host retries manager w).2
  unfolding get_bearer_token
  get_bearer_token_goes_on zero manager w = one_try-Later manager manager.token_source w
  get_bearer_token_goes_on (suc retries) manager w =
      or_again-Later (time w) (one_try lib host manager manager.token_source w).0
        (one_try lib host manager manager.token_source w).1
        (one_try lib host manager manager.token_source w).2 (get_bearer_token lib host retries)
        (one_try-Later manager manager.token_source w) (get_bearer_token_goes_on retries)
