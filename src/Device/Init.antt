-- ===== src/Device/Init.antt =====
-- `IQM_QDMI_device_session_init`: a copy of the session's settings is initialised, and takes the
-- place of the session where everything succeeds. Its requests go through `Online`.
pub mod Steps
pub mod Static
pub mod Gates
pub mod Metrics
pub mod Valid
pub mod Kept
pub mod Progress
pub mod Complete
mod Tests
use qdmi_on_iqm.Base.{
  ℕ, Bool, true, false, not, Option, none, some, List, [], ◌∷◌, Bytes, codes, is_empty, and_then,
  map, if◌then◌else◌,
}
use qdmi_on_iqm.Qdmi.{QdmiStatus, success, fatal, badstate, is_success}
use qdmi_on_iqm.ApiConfig.{
  url, get_quantum_computers, get_static_quantum_architecture, get_dynamic_quantum_architecture,
  get_calibration_set_quality_metrics, cocos_health,
}
use qdmi_on_iqm.Http.Budget.{Response, empty_budget, RateLimitBudget}
use qdmi_on_iqm.Http.Retry.{http_get}
use qdmi_on_iqm.Http.Response.{handle_response, log_as_debug}
use qdmi_on_iqm.Auth.Manager.{
  AuthResult, value, throws, TokenManager, new_token_manager, get_bearer_token,
}
use qdmi_on_iqm.Device.Description.{Description, Operation, Doubles, no_description}
use qdmi_on_iqm.Device.Session.{Session, initialized, new_session, is_allocated}
use qdmi_on_iqm.Device.Session.Defaults.{apply_environment_session_defaults}
use qdmi_on_iqm.Device.Online.{Host, Online, Reply, with_token, session_get, status_of, thrown}
use qdmi_on_iqm.Device.Init.Steps.{Step, Loaded, loaded, refused, ◌>>=◌, pure, refuse, or_fatal}
use qdmi_on_iqm.Device.Init.Static.{Choice, choose_computer, static_architecture}
use qdmi_on_iqm.Device.Init.Gates.{read_dynamic_architecture}
use qdmi_on_iqm.Device.Init.Metrics.{read_observations, with_metrics}

-- The copy, while it is initialised, with the alias of its quantum computer in `online`.
pub record Draft : Type 0 where
  pub online : Online
  pub quantum_computer_id : Option Bytes
  pub requested : Option Bytes
  pub description : Description

module _ {W : Type 0} (host : Host W) where
  open host use {lib, hooks, auth, env}
  open host.lib use {Json, parse, find, elements}

  unfoldable pub after_token :
      Draft → AuthResult (Option Bytes) × TokenManager × W → Loaded (Option Bytes × Draft) × W
  unfolding thrown
  after_token d (throws e, manager, w) = (refused (thrown e), w)
  after_token d (value token, manager, w) =
      (loaded (token, record d { online = record d.online { manager = manager } }), w)

  unfoldable pub bearer : Draft → Step W (Option Bytes × Draft)
  unfolding after_token get_bearer_token
  bearer d w = after_token d (get_bearer_token lib auth 1 d.online.manager w)

  unfoldable pub after_reply : Draft → Reply host → Loaded (Option Json × Draft) × W
  unfolding status_of thrown
  after_reply d (throws e, s, w) = (refused (thrown e), w)
  after_reply d (value r, s, w) =
      if is_success (status_of host r)
      then (loaded (parse r.text, record d { online = s }), w)
      else (refused (status_of host r), w)

  -- A request with a token that is at hand, its status and its document.
  unfoldable pub fetch : Option Bytes → Bytes → Draft → Step W (Option Json × Draft)
  unfolding after_reply with_token http_get
  fetch token link d w = after_reply d (
      with_token host (value token)
        (λ token. http_get hooks env link token d.online.request_timeout) d.online w)

  abbrev pub chosen : Choice → Draft → Draft
  chosen (id, alias) d = record d {
    quantum_computer_id = some id;
    online = record d.online { alias = alias };
  }

  -- `Process_static_quantum_architecture`; `alias` is the alias that is set before.
  unfoldable pub process_static_quantum_architecture : Option Bytes → Draft → Step W Draft
  unfolding bearer fetch choose_computer static_architecture url
  process_static_quantum_architecture alias d₀ = do
    (token, d₁) ← bearer d₀
    (list, d₂) ← fetch token (url d₁.online.server get_quantum_computers []) d₁
    choice ← or_fatal (choose_computer lib d₂.quantum_computer_id alias list)
    let d₃ = chosen choice d₂
    (architecture, d₄) ←
        fetch token (url d₃.online.server get_static_quantum_architecture (d₃.online.alias ∷ [])) d₃
    description ← or_fatal (static_architecture lib architecture)
    pure (record d₄ { description = description })

  abbrev pub with_operations : Bytes × List Operation → Draft → Draft
  with_operations (id, operations) d = record d {
    online = record d.online { calibration_set_id = id };
    description = record d.description { operations = operations };
  }

  -- `Process_calibrated_gates`.
  unfoldable pub process_calibrated_gates : Draft → Step W Draft
  unfolding bearer fetch read_dynamic_architecture url
  process_calibrated_gates d₀ = do
    (token, d₁) ← bearer d₀
    (response, d₂) ←
        fetch token
          (url d₁.online.server get_dynamic_quantum_architecture
            (d₁.online.alias ∷ d₁.online.calibration_set_id ∷ []))
          d₁
    gates ←
        or_fatal
          (and_then response (read_dynamic_architecture lib d₂.requested d₂.description.sites_map))
    pure (with_operations gates d₂)

  -- `Process_calibration_metrics`.
  unfoldable pub process_calibration_metrics : Doubles → Draft → Step W Draft
  unfolding bearer fetch read_observations with_metrics url
  process_calibration_metrics doubles d₀ = do
    (token, d₁) ← bearer d₀
    (response, d₂) ←
        fetch token
          (url d₁.online.server get_calibration_set_quality_metrics
            (d₁.online.alias ∷ d₁.online.calibration_set_id ∷ []))
          d₁
    observations ← or_fatal (and_then response λ j. find j (codes "observations"))
    metrics ← or_fatal (read_observations lib (elements observations) [])
    pure (record d₂ { description = with_metrics doubles metrics d₂.description })

  -- The state of the copy at the first request.
  abbrev pub draft_of : Session → TokenManager → Draft
  draft_of s manager = record {
    online = record {
      server = s.base_url;
      manager = manager;
      request_timeout = s.request_timeout;
      rate_limit = s.rate_limit;
      alias = [];
      calibration_set_id = [];
      supports_calibration_jobs = false;
    };
    quantum_computer_id = s.quantum_computer_id;
    requested = s.requested_calibration_set_id;
    description = no_description;
  }

  -- The session with what its initialisation has found.
  abbrev pub finished : Session → Draft → Session
  finished s d = record s {
    token_manager = some d.online.manager;
    api_config = some d.online.server;
    rate_limit = d.online.rate_limit;
    session_status = initialized;
    quantum_computer_id = d.quantum_computer_id;
    quantum_computer_alias = some d.online.alias;
    calibration_set_id = d.online.calibration_set_id;
    supports_calibration_jobs = d.online.supports_calibration_jobs;
    description = d.description;
  }

  unfoldable pub supported : Draft → Reply host → Loaded Draft × W
  unfolding thrown handle_response is_success
  supported d (throws e, s, w) = (refused (thrown e), w)
  supported d (value r, s, w) = (
    loaded (record d {
      online = record s {
        supports_calibration_jobs =
            is_success (handle_response lib host.error_message r log_as_debug).0;
      };
    }),
    w,
  )

  -- The optional check of the COCOS health.
  unfoldable pub check_calibration_jobs : Draft → Step W Draft
  unfolding supported session_get url
  check_calibration_jobs d w =
      supported d (session_get host (url d.online.server cocos_health []) d.online w)

  abbrev pub requested_or_default : Option Bytes → Bytes
  requested_or_default none = codes "default"
  requested_or_default (some id) = id

  -- From the static architecture on.
  unfoldable pub load_description : Doubles → Option Bytes → Draft → Step W Draft
  unfolding process_static_quantum_architecture process_calibrated_gates process_calibration_metrics
      check_calibration_jobs
  load_description doubles alias d₀ = do
    d₁ ← process_static_quantum_architecture alias d₀
    d₂ ← process_calibrated_gates (record d₁ {
      online = record d₁.online { calibration_set_id = requested_or_default d₁.requested };
    })
    d₃ ← process_calibration_metrics doubles d₂
    check_calibration_jobs d₃

  unfoldable pub with_manager : Doubles → Session → AuthResult TokenManager → Step W Session
  unfolding load_description thrown
  with_manager doubles s (throws e) = refuse (thrown e)
  with_manager doubles s (value manager) = do
    d ← load_description doubles s.quantum_computer_alias (draft_of s manager)
    pure (finished s d)

  -- `Initialize_device_session` with the settings after the defaults.
  unfoldable pub initialize_with_defaults : Doubles → Session → Step W Session
  unfolding with_manager new_token_manager
  initialize_with_defaults doubles s =
      if is_empty s.base_url
      then refuse fatal
      else with_manager doubles s (new_token_manager env s.token_text s.tokens_file)

  unfoldable pub initialize_device_session : Doubles → Session → Step W Session
  unfolding initialize_with_defaults apply_environment_session_defaults
  initialize_device_session doubles s =
      initialize_with_defaults doubles (apply_environment_session_defaults env s)

  -- The settings that the copy takes over.
  abbrev pub settings_of : Session → Session
  settings_of s = record new_session {
    base_url = s.base_url;
    token_text = s.token_text;
    tokens_file = s.tokens_file;
    request_timeout = s.request_timeout;
    quantum_computer_id = s.quantum_computer_id;
    quantum_computer_alias = s.quantum_computer_alias;
    requested_calibration_set_id = s.requested_calibration_set_id;
  }

  abbrev pub committed : Session → Loaded Session × W → QdmiStatus × Session × W
  committed s (loaded initialized_session, w) = (success, initialized_session, w)
  committed s (refused status, w) = (status, s, w)

  -- On a handle that is not null.
  unfoldable pub session_init : Doubles → Session → W → QdmiStatus × Session × W
  unfolding initialize_device_session
  session_init doubles s w =
      if not (is_allocated s.session_status)
      then (badstate, s, w)
      else committed s (initialize_device_session doubles (settings_of s) w)
