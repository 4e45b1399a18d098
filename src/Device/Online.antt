-- ===== src/Device/Online.antt =====
-- Requests in the name of an initialised session, as the device code makes them.
use qdmi_on_iqm.Base.{ℕ, Bool, Option, none, some, Bytes}
use qdmi_on_iqm.Qdmi.{QdmiStatus, permissiondenied, fatal}
use qdmi_on_iqm.Json.{JsonLib}
use qdmi_on_iqm.Http.Budget.{RateLimitBudget, Response, TransportError, Environment}
use qdmi_on_iqm.Http.Retry.{Hooks, http_get, http_post}
use qdmi_on_iqm.Http.Response.{handle_response, log_as_error}
use qdmi_on_iqm.Auth.Manager.{
  AuthHost, AuthError, authentication, configuration, AuthResult, value, throws, TokenManager,
  get_bearer_token,
}

-- What the device code calls that is not in the repository, over a world `W`.
pub record Host (W : Type 0) : Type 1 where
  pub lib : JsonLib
  pub error_message : TransportError → Bytes
  pub hooks : Hooks W
  pub auth : AuthHost W
  pub env : Environment

-- The fields of an initialised session that requests and jobs use, where `api_config_`,
-- `token_manager_` and the alias are there.
pub record Online : Type 0 where
  pub server : Bytes
  pub manager : TokenManager
  pub request_timeout : ℕ
  pub rate_limit : RateLimitBudget
  pub alias : Bytes
  pub calibration_set_id : Bytes
  pub supports_calibration_jobs : Bool

abbrev pub kept_budget : Option RateLimitBudget → Online → Online
kept_budget none s = s
kept_budget (some budget) s = record s { rate_limit = budget }

-- The `catch` blocks of the entry points.
unfoldable pub thrown : AuthError → QdmiStatus
thrown authentication = permissiondenied
thrown configuration = fatal

module _ {W : Type 0} (host : Host W) where
  abbrev pub Reply : Type 0
  Reply = AuthResult Response × Online × W

  unfoldable pub with_token :
      AuthResult (Option Bytes)
      → (Option Bytes → Option RateLimitBudget → W → Response × Option RateLimitBudget × W)
      → Online
      → W
      → Reply
  with_token (throws e) send s w = (throws e, s, w)
  with_token (value token) send s w =
      let (response, budget, w') = send token (some s.rate_limit) w in
      (value response, kept_budget budget s, w')

  unfoldable pub session_get : Bytes → Online → W → Reply
  unfolding get_bearer_token http_get with_token
  session_get url s w =
      let (token, manager, w') = get_bearer_token host.lib host.auth 1 s.manager w in
      with_token token (λ token. http_get host.hooks host.env url token s.request_timeout)
        (record s { manager = manager }) w'

  unfoldable pub session_post : Bytes → Bytes → Online → W → Reply
  unfolding get_bearer_token http_post with_token
  session_post url body s w =
      let (token, manager, w') = get_bearer_token host.lib host.auth 1 s.manager w in
      with_token token (λ token. http_post host.hooks host.env url token body s.request_timeout)
        (record s { manager = manager }) w'

  unfoldable pub status_of : Response → QdmiStatus
  unfolding handle_response
  status_of r = (handle_response host.lib host.error_message r log_as_error).0
