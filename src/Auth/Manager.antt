-- ===== src/Auth/Manager.antt =====
-- `TokenManager`: its constructor, the reading of a tokens file and `get_bearer_token`. The file
-- system and the clock are a host over a world `W`.
pub mod Source
pub mod Validity
pub mod Forward
use qdmi_on_iqm.Base.{
  ℕ, zero, suc, Bool, true, false, Option, none, some, [], ◌∷◌, Bytes, codes, ltb, leb, is_some,
  if◌then◌else◌,
}
use qdmi_on_iqm.Json.{JsonLib}
use qdmi_on_iqm.Auth.Expiry.{time_left_seconds}

-- `read_file` is the whole text, where the file can be opened.
pub record AuthHost (W : Type 0) : Type 0 where
  pub read_file : Bytes → W → Option Bytes × W
  pub time : W → ℕ

pub data TokenSource : Type 0 where
  no_source external_token tokens_file : TokenSource

pub record TokenManager : Type 0 where
  pub token_source : TokenSource
  pub token_source_value : Option Bytes
  pub access_token : Option Bytes

abbrev pub refresh_margin_seconds : ℕ
refresh_margin_seconds = 60

-- `ClientAuthenticationError` and `ClientConfigurationError`.
pub data AuthError : Type 0 where
  authentication configuration : AuthError

pub data AuthResult {ℓ} (A : Type ℓ) : Type ℓ where
  value : A → AuthResult A
  throws : AuthError → AuthResult A

abbrev sourced : TokenSource → Option Bytes → TokenManager
sourced source text = record {
  token_source = source;
  token_source_value = text;
  access_token = none;
}

-- `auth_parameters` by its two possible keys.
from_parameters : Option Bytes → Option Bytes → AuthResult TokenManager
from_parameters none none = value (sourced no_source none)
from_parameters (some token) none = value (sourced external_token (some token))
from_parameters none (some file) = value (sourced tokens_file (some file))
from_parameters (some token) (some file) = throws configuration

-- The constructor. `Get_env_var` is the environment itself: an empty value counts as set.
unfoldable pub new_token_manager :
    (Bytes → Option Bytes) → Option Bytes → Option Bytes → AuthResult TokenManager
unfolding from_parameters
new_token_manager env none none =
    from_parameters (env (codes "IQM_TOKEN")) (env (codes "IQM_TOKENS_FILE"))
new_token_manager env token file = from_parameters token file

module _ {W : Type 0} (lib : JsonLib) (host : AuthHost W) where
  open lib use {Json, parse, value_string}

  -- The token in the text of the file, where it has time left at `now`. Every exception on the way
  -- becomes a `ClientAuthenticationError`.
  valid_token : Option Bytes → ℕ → AuthResult Bytes
  valid_token none now = throws authentication
  valid_token (some token) now =
      if leb (time_left_seconds lib token now) 0 then throws authentication else value token

  stored_token : Option Json → Option Bytes
  stored_token none = none
  stored_token (some json) = value_string json (codes "access_token") []

  token_in : Option Bytes → ℕ → AuthResult Bytes
  unfolding valid_token stored_token
  token_in none now = throws authentication
  token_in (some text) now = valid_token (stored_token (parse text)) now

  read_access_token_from_file : Bytes → W → AuthResult Bytes × W
  unfolding token_in
  read_access_token_from_file path w =
      let (text, w') = host.read_file path w in (token_in text (host.time w'), w')

  abbrev Outcome : Type 0
  Outcome = AuthResult (Option Bytes) × TokenManager × W

  -- After the `switch`: the new token is stored, and a missing one is an authentication error.
  store_token : TokenManager → AuthResult Bytes × W → Outcome
  store_token manager (throws e, w) = (throws e, manager, w)
  store_token manager (value token, w) =
      (value (some token), record manager { access_token = some token }, w)

  -- The body of the `try`.
  fetch : TokenSource → Option Bytes → TokenManager → W → Outcome
  unfolding read_access_token_from_file store_token
  fetch no_source text manager w = (value none, manager, w)
  fetch external_token none manager w =
      (throws authentication, record manager { access_token = none }, w)
  fetch external_token (some token) manager w = store_token manager (value token, w)
  fetch tokens_file none manager w = (throws authentication, manager, w)
  fetch tokens_file (some path) manager w = store_token manager (read_access_token_from_file path w)

  still_valid : Option Bytes → ℕ → Bool
  still_valid none now = false
  still_valid (some token) now = ltb refresh_margin_seconds (time_left_seconds lib token now)

  cached_or_fetched : TokenManager → W → Outcome
  unfolding still_valid fetch
  cached_or_fetched manager w =
      if still_valid manager.access_token (host.time w)
      then (value manager.access_token, manager, w)
      else fetch manager.token_source manager.token_source_value manager w

  one_try : TokenManager → TokenSource → W → Outcome
  unfolding cached_or_fetched
  one_try manager no_source w = (value none, manager, w)
  one_try manager external_token w = cached_or_fetched manager w
  one_try manager tokens_file w = cached_or_fetched manager w

  -- The `catch`: only a `ClientAuthenticationError` is tried again.
  or_again : Outcome → (TokenManager → W → Outcome) → Outcome
  or_again (value token, manager, w) again = (value token, manager, w)
  or_again (throws configuration, manager, w) again = (throws configuration, manager, w)
  or_again (throws authentication, manager, w) again = again manager w

  -- `get_bearer_token(retries)`.
  unfoldable pub get_bearer_token : ℕ → TokenManager → W → Outcome
  unfolding one_try or_again
  get_bearer_token zero manager w = one_try manager manager.token_source w
  get_bearer_token (suc retries) manager w =
      or_again (one_try manager manager.token_source w) (get_bearer_token retries)
