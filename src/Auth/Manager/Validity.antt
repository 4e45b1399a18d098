-- ===== src/Auth/Manager/Validity.antt =====
-- A token from a file is sent only while it has time left, and the file is read a bounded number
-- of times.
use qdmi_on_iqm.Base.{
  ℕ, zero, suc, ◌+◌, ◌≤◌, ◌<◌, ◌≡◌, Option, none, some, Bytes, arith, true, if_intro, sym,
}
use mathlib.Core.Path.{subst}
use qdmi_on_iqm.Json.{JsonLib}
use qdmi_on_iqm.Auth.Expiry.{time_left_seconds}
use qdmi_on_iqm.Auth.Manager.{
  AuthHost, TokenManager, TokenSource, no_source, external_token, tokens_file, AuthResult, value,
  throws, authentication, configuration, valid_token, stored_token, store_token, still_valid,
  token_in, fetch, cached_or_fetched, one_try, or_again, get_bearer_token,
}

module _ {W : Type 0} (lib : JsonLib) (host : AuthHost W) where
  open lib use {parse}

  -- What an outcome promises: a token that has time left, and after an error the same source.
  abbrev Promises : AuthResult (Option Bytes) × TokenManager × W → Type 0
  Promises (value none, manager, w) = Unit
  Promises (value (some token), manager, w) = 0 < time_left_seconds lib token (host.time w)
  Promises (throws e, manager, w) = manager.token_source ≡ tokens_file

  abbrev Valid : AuthResult Bytes → ℕ → Type 0
  Valid (value token) now = 0 < time_left_seconds lib token now
  Valid (throws e) now = Unit

  valid_token-Valid : (o : Option Bytes) (now : ℕ) → Valid (valid_token lib host o now) now
  unfolding valid_token
  valid_token-Valid none now = tt
  valid_token-Valid (some token) now = ground arith

  token_in-Valid : (text : Option Bytes) (now : ℕ) → Valid (token_in lib host text now) now
  unfolding token_in
  token_in-Valid none now = tt
  token_in-Valid (some text) now = valid_token-Valid (stored_token lib host (parse text)) now

  store_token-Promises :
      (manager : TokenManager) (r : AuthResult Bytes) (w : W)
      → manager.token_source ≡ tokens_file
      → Valid r (host.time w)
      → Promises (store_token lib host manager (r, w))
  unfolding store_token
  store_token-Promises manager (value token) w h v = v
  store_token-Promises manager (throws e) w h v = h

  fetch-Promises :
      (text : Option Bytes) (manager : TokenManager) (w : W)
      → manager.token_source ≡ tokens_file
      → Promises (fetch lib host tokens_file text manager w)
  unfolding fetch
  fetch-Promises none manager w h = h
  fetch-Promises (some path) manager w h =
      store_token-Promises manager _ _ h (token_in-Valid (host.read_file path w).0 _)

  still_valid-Promises :
      (cached : Option Bytes) (manager : TokenManager) (w : W)
      → still_valid lib host cached (host.time w) ≡ true
      → Promises (value cached, manager, w)
  unfolding still_valid
  still_valid-Promises none manager w h = tt
  still_valid-Promises (some token) manager w h = ground arith

  cached-Promises :
      (manager : TokenManager) (w : W)
      → manager.token_source ≡ tokens_file
      → Promises (cached_or_fetched lib host manager w)
  unfolding cached_or_fetched
  cached-Promises manager w h =
      if_intro Promises (still_valid lib host manager.access_token (host.time w))
        (still_valid-Promises manager.access_token manager w)
        λ _.
          subst (λ s. Promises (fetch lib host s manager.token_source_value manager w)) (sym h)
            (fetch-Promises manager.token_source_value manager w h)

  one_try-Promises :
      (manager : TokenManager) (w : W)
      → manager.token_source ≡ tokens_file
      → Promises (one_try lib host manager tokens_file w)
  unfolding one_try
  one_try-Promises manager w h = cached-Promises manager w h

  first-Promises :
      (manager : TokenManager) (w : W)
      → manager.token_source ≡ tokens_file
      → Promises (one_try lib host manager manager.token_source w)
  first-Promises manager w h =
      subst (λ s. Promises (one_try lib host manager s w)) (sym h) (one_try-Promises manager w h)

  or_again-Promises :
      (outcome : AuthResult (Option Bytes) × TokenManager × W)
      (again : TokenManager → W → AuthResult (Option Bytes) × TokenManager × W)
      → Promises outcome
      → ((manager : TokenManager) (w : W)
          → manager.token_source ≡ tokens_file
          → Promises (again manager w))
      → Promises (or_again lib host outcome again)
  unfolding or_again
  or_again-Promises (value token, manager, w) again p next = p
  or_again-Promises (throws configuration, manager, w) again p next = p
  or_again-Promises (throws authentication, manager, w) again p next = next manager w p

  pub get_bearer_token-Promises :
      (retries : ℕ) (manager : TokenManager) (w : W)
      → manager.token_source ≡ tokens_file
      → Promises (get_bearer_token lib host retries manager w)
  unfolding get_bearer_token
  get_bearer_token-Promises zero manager w h = first-Promises manager w h
  get_bearer_token-Promises (suc retries) manager w h =
      or_again-Promises _ _ (first-Promises manager w h) (get_bearer_token-Promises retries)

  -- A token that a manager with a tokens file returns has time left when it is returned.
  pub get_bearer_token_valid :
      (retries : ℕ) (manager : TokenManager) (w : W) {token : Bytes} {after : TokenManager} {w' : W}
      → manager.token_source ≡ tokens_file
      → get_bearer_token lib host retries manager w ≡ (value (some token), after, w')
      → 0 < time_left_seconds lib token (host.time w')
  get_bearer_token_valid retries manager w h e =
      subst Promises e (get_bearer_token-Promises retries manager w h)

-- The host with a count of the files that were read.
abbrev pub counted : {W : Type 0} → AuthHost W → AuthHost (ℕ × W)
counted host = record {
  read_file = λ path w. let (text, w') = host.read_file path w.1 in (text, (w.0 + 1, w'));
  time = λ w. host.time w.1;
}

module _ {W : Type 0} (lib : JsonLib) (host : AuthHost W) where
  abbrev Reads : ℕ → AuthResult (Option Bytes) × TokenManager × (ℕ × W) → Type 0
  Reads n outcome = outcome.2.0 ≤ n

  store_token-Reads :
      (manager : TokenManager) (r : AuthResult Bytes) (w : ℕ × W)
      → Reads w.0 (store_token lib (counted host) manager (r, w))
  unfolding store_token
  store_token-Reads manager (value token) w = omega arith
  store_token-Reads manager (throws e) w = omega arith

  fetch-Reads :
      (source : TokenSource) (text : Option Bytes) (manager : TokenManager) (w : ℕ × W)
      → Reads (w.0 + 1) (fetch lib (counted host) source text manager w)
  unfolding fetch
  fetch-Reads no_source text manager w = omega arith
  fetch-Reads external_token none manager w = omega arith
  fetch-Reads external_token (some token) manager w = omega arith
  fetch-Reads tokens_file none manager w = omega arith
  fetch-Reads tokens_file (some path) manager w = store_token-Reads manager _ _

  cached-Reads :
      (manager : TokenManager) (w : ℕ × W)
      → Reads (w.0 + 1) (cached_or_fetched lib (counted host) manager w)
  unfolding cached_or_fetched
  cached-Reads manager w =
      if_intro (Reads (w.0 + 1))
        (still_valid lib (counted host) manager.access_token ((counted host).time w))
        (λ _. omega arith)
        (λ _. fetch-Reads manager.token_source manager.token_source_value manager w)

  one_try-Reads :
      (manager : TokenManager) (source : TokenSource) (w : ℕ × W)
      → Reads (w.0 + 1) (one_try lib (counted host) manager source w)
  unfolding one_try
  one_try-Reads manager no_source w = omega arith
  one_try-Reads manager external_token w = cached-Reads manager w
  one_try-Reads manager tokens_file w = cached-Reads manager w

  or_again-Reads :
      (n : ℕ) (outcome : AuthResult (Option Bytes) × TokenManager × (ℕ × W))
      (again : TokenManager → ℕ × W → AuthResult (Option Bytes) × TokenManager × (ℕ × W))
      → ((manager : TokenManager) (w : ℕ × W) → Reads (w.0 + n) (again manager w))
      → Reads (outcome.2.0 + n) (or_again lib (counted host) outcome again)
  unfolding or_again
  or_again-Reads n (value token, manager, w) again next = omega arith
  or_again-Reads n (throws configuration, manager, w) again next = omega arith
  or_again-Reads n (throws authentication, manager, w) again next = next manager w

  -- `get_bearer_token` with some number of retries reads at most one file more than that.
  pub get_bearer_token_reads :
      (retries : ℕ) (manager : TokenManager) (w : ℕ × W)
      → (get_bearer_token lib (counted host) retries manager w).2.0 ≤ w.0 + (retries + 1)
  unfolding get_bearer_token
  get_bearer_token_reads zero manager w =
      omega (arith, one_try-Reads manager manager.token_source w)
  get_bearer_token_reads (suc retries) manager w = omega (
    arith,
    one_try-Reads manager manager.token_source w,
    or_again-Reads (retries + 1) (one_try lib (counted host) manager manager.token_source w)
        (get_bearer_token lib (counted host) retries) (get_bearer_token_reads retries),
  )
