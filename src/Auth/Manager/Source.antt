-- ===== src/Auth/Manager/Source.antt =====
-- Where the token comes from.
use qdmi_on_iqm.Base.{
  ℕ, zero, suc, ◌≡◌, refl, ◌↔◌, ◌⊎◌, inl, inr, true, Option, none, some, Bytes, codes, is_some,
  arith,
}
use qdmi_on_iqm.Json.{JsonLib}
use qdmi_on_iqm.Auth.Manager.{
  AuthHost, TokenManager, value, throws, configuration, from_parameters, new_token_manager,
  get_bearer_token,
}

abbrev pub Conflict : Option Bytes → Option Bytes → Option Bytes → Option Bytes → Type 0
Conflict token file env_token env_file =
    ((is_some token ≡ true) × (is_some file ≡ true))
    ⊎ ((token ≡ none) × (file ≡ none) × (is_some env_token ≡ true) × (is_some env_file ≡ true))

from_environment :
    (a b : Option Bytes) → (from_parameters a b ≡ throws configuration) ↔ Conflict none none a b
unfolding from_parameters
from_environment none none = (λ h. ground arith, λ h. ground arith)
from_environment none (some b) = (λ h. ground arith, λ h. ground arith)
from_environment (some a) none = (λ h. ground arith, λ h. ground arith)
from_environment (some a) (some b) = (λ h. inr (refl, refl, refl, refl), λ h. refl)

-- The constructor throws a configuration error exactly if a token and a tokens file are both given,
-- or, where neither is given, both environment variables are set; and unless neither is given, it
-- makes the same of the two under any other environment.
pub new_token_manager-Conflict :
    (env other : Bytes → Option Bytes) (token file : Option Bytes)
    → ((new_token_manager env token file ≡ throws configuration)
        ↔ Conflict token file (env (codes "IQM_TOKEN")) (env (codes "IQM_TOKENS_FILE")))
      × ((new_token_manager env token file ≡ new_token_manager other token file)
          ⊎ ((token ≡ none) × (file ≡ none)))
unfolding new_token_manager
new_token_manager-Conflict env other none none =
    (from_environment (env (codes "IQM_TOKEN")) (env (codes "IQM_TOKENS_FILE")), inr (refl, refl))
new_token_manager-Conflict env other none (some f) =
    ((λ h. ground arith, λ h. ground arith), inl refl)
new_token_manager-Conflict env other (some t) none =
    ((λ h. ground arith, λ h. ground arith), inl refl)
new_token_manager-Conflict env other (some t) (some f) =
    ((λ h. inl (refl, refl), λ h. refl), inl refl)

module _ {W : Type 0} (lib : JsonLib) (host : AuthHost W) where
  -- A manager that was given a token sends that token, whatever the environment, with any number of
  -- retries, and without a read of a file.
  pub get_bearer_token_external :
      (env : Bytes → Option Bytes) (token : Bytes) (manager : TokenManager) (retries : ℕ) (w : W)
      → new_token_manager env (some token) none ≡ value manager
      → get_bearer_token lib host retries manager w
        ≡ (value (some token), record manager { access_token = some token }, w)
  unfolding new_token_manager get_bearer_token
  get_bearer_token_external env token manager zero w h = ground arith
  get_bearer_token_external env token manager (suc n) w h = ground arith
