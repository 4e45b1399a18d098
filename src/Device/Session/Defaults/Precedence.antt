-- ===== src/Device/Session/Defaults/Precedence.antt =====
-- Settings that a session already has take precedence over the environment.
use qdmi_on_iqm.Base.{
  ◌≡◌, refl, Bool, true, false, ◌||◌, Option, none, some, [], ◌∷◌, Bytes, codes, is_empty, is_some,
  if◌then◌else◌, if_intro, ◌∙◌, Bool-cases, inl, inr, ap, arith,
}
use qdmi_on_iqm.Http.Budget.{Environment}
use qdmi_on_iqm.Device.Session.{Session}
use qdmi_on_iqm.Device.Session.Defaults.{
  nonempty_env_var, or_else, default_base_url, default_id, default_alias,
  apply_environment_session_defaults,
}

abbrev pub url_default : Environment → Option Bytes
url_default env =
    or_else (nonempty_env_var env (codes "IQM_SERVER_URL"))
      (nonempty_env_var env (codes "IQM_BASE_URL"))

abbrev pub alias_default : Environment → Option Bytes
alias_default env =
    or_else (nonempty_env_var env (codes "IQM_QUANTUM_COMPUTER"))
      (nonempty_env_var env (codes "IQM_QC_ALIAS"))

abbrev pub text_or : Option Bytes → Bytes → Bytes
text_or none d = d
text_or (some s) d = s

abbrev pub is_named : Session → Bool
is_named s = is_some s.quantum_computer_id || is_some s.quantum_computer_alias

-- The session with each default in place of a setting that is missing.
unfoldable pub defaulted : Environment → Session → Session
defaulted env s = record s {
  base_url = if is_empty s.base_url then text_or (url_default env) [] else s.base_url;
  quantum_computer_id =
      if is_named s then s.quantum_computer_id else nonempty_env_var env (codes "IQM_QC_ID");
  quantum_computer_alias = if is_named s then s.quantum_computer_alias else alias_default env;
}

empty_or : (b : Bytes) → b ≡ (if is_empty b then [] else b)
empty_or [] = refl
empty_or (c ∷ b) = refl

if_url :
    (s : Session) (url : Bytes) (b : Bool)
    → (if b then record s { base_url = url } else s)
      ≡ record s { base_url = if b then url else s.base_url }
if_url s url true = refl
if_url s url false = refl

default_base_url_lem :
    (s : Session) (url : Option Bytes)
    → default_base_url s url
      ≡ record s { base_url = if is_empty s.base_url then text_or url [] else s.base_url }
unfolding default_base_url
default_base_url_lem s none = ap (λ b. record s { base_url = b }) (empty_or s.base_url)
default_base_url_lem s (some url) = if_url s url (is_empty s.base_url)

default_id_lem :
    (s : Session) (id : Option Bytes)
    → s.quantum_computer_id ≡ none
    → default_id s id ≡ record s { quantum_computer_id = id }
unfolding default_id
default_id_lem s none h = ap (λ o. record s { quantum_computer_id = o }) h
default_id_lem s (some id) h = refl

default_alias_lem :
    (s : Session) (alias : Option Bytes)
    → s.quantum_computer_alias ≡ none
    → default_alias s alias ≡ record s { quantum_computer_alias = alias }
unfolding default_alias
default_alias_lem s none h = ap (λ o. record s { quantum_computer_alias = o }) h
default_alias_lem s (some alias) h = refl

both_none : (a b : Option Bytes) → (is_some a || is_some b) ≡ false → (a ≡ none) × (b ≡ none)
both_none none none h = (refl, refl)
both_none none (some y) h = absurd (ground arith)
both_none (some x) b h = absurd (ground arith)

-- Each default from the environment is used exactly where the session has no setting of its own:
-- the server's URL where it is empty, and the quantum computer's identifier and alias where
-- neither is set; nothing else of the session changes.
pub environment_yields :
    (env : Environment) (s : Session) → apply_environment_session_defaults env s ≡ defaulted env s
unfolding apply_environment_session_defaults defaulted
environment_yields env s = elim (Bool-cases (is_named s)) [
  | inl named ↦ rw (named, default_base_url_lem s (url_default env)) refl
  | inr free ↦
      let (no_id, no_alias) = both_none s.quantum_computer_id s.quantum_computer_alias free in
      let based : Session = record s {
        base_url = if is_empty s.base_url then text_or (url_default env) [] else s.base_url;
      } in
      let id = nonempty_env_var env (codes "IQM_QC_ID") in
      rw (free, default_base_url_lem s (url_default env), default_id_lem based id no_id)
        (default_alias_lem (record based { quantum_computer_id = id }) (alias_default env) no_alias)
]

-- The defaults leave the requested calibration set.
abbrev SameRequest : Session → Session → Type 0
SameRequest old new = new.requested_calibration_set_id ≡ old.requested_calibration_set_id

base_url-SameRequest : (s : Session) (url : Option Bytes) → SameRequest s (default_base_url s url)
unfolding default_base_url
base_url-SameRequest s none = refl
base_url-SameRequest s (some url) =
    if_intro (SameRequest s) (is_empty s.base_url) (λ _. refl) (λ _. refl)

id-SameRequest : (s : Session) (id : Option Bytes) → SameRequest s (default_id s id)
unfolding default_id
id-SameRequest s none = refl
id-SameRequest s (some id) = refl

alias-SameRequest : (s : Session) (alias : Option Bytes) → SameRequest s (default_alias s alias)
unfolding default_alias
alias-SameRequest s none = refl
alias-SameRequest s (some alias) = refl

pub defaults-SameRequest :
    (env : Environment) (s : Session)
    → (apply_environment_session_defaults env s).requested_calibration_set_id
      ≡ s.requested_calibration_set_id
unfolding apply_environment_session_defaults
defaults-SameRequest env s =
    let base = default_base_url s (url_default env) in
    let id = nonempty_env_var env (codes "IQM_QC_ID") in
    let located = base_url-SameRequest s (url_default env) in
    if_intro (SameRequest s) (is_some s.quantum_computer_id || is_some s.quantum_computer_alias)
      (λ _. located)
      (λ _.
        alias-SameRequest (default_id base id) (alias_default env)
        ∙ id-SameRequest base id
        ∙ located)
