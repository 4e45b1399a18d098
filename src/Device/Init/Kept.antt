-- ===== src/Device/Init/Kept.antt =====
-- What the requests of an initialisation leave as it is.
use qdmi_on_iqm.Base.{◌≡◌, refl, Option, none, some, Bytes, if_intro}
use qdmi_on_iqm.Qdmi.{is_success}
use qdmi_on_iqm.Http.Budget.{Response, RateLimitBudget}
use qdmi_on_iqm.Http.Retry.{http_get}
use qdmi_on_iqm.Auth.Manager.{AuthResult, value, throws, TokenManager, get_bearer_token}
use qdmi_on_iqm.Device.Job.Remote.Kept.{thrown_fails, success_fails}
use qdmi_on_iqm.Device.Online.{Host, Online, Reply, kept_budget, with_token, session_get, status_of}
use qdmi_on_iqm.Device.Init.Steps.{Yields}
use qdmi_on_iqm.Device.Init.{Draft, after_token, bearer, after_reply, fetch}

abbrev pub KeptOnline : Online → Online → Type 0
KeptOnline old new =
    (new.server ≡ old.server)
    × (new.alias ≡ old.alias)
    × (new.calibration_set_id ≡ old.calibration_set_id)

abbrev pub KeptDraft : Draft → Draft → Type 0
KeptDraft old new =
    KeptOnline old.online new.online
    × (new.quantum_computer_id ≡ old.quantum_computer_id)
    × (new.requested ≡ old.requested)
    × (new.description ≡ old.description)

kept_budget-KeptOnline :
    (budget : Option RateLimitBudget) (s : Online) → KeptOnline s (kept_budget budget s)
kept_budget-KeptOnline none s = (refl, refl, refl)
kept_budget-KeptOnline (some budget) s = (refl, refl, refl)

module _ {W : Type 0} (host : Host W) where
  open host use {lib, hooks, auth, env}
  open host.lib use {Json, parse}

  with_token-KeptOnline :
      (token : AuthResult (Option Bytes))
      (send : Option Bytes → Option RateLimitBudget → W → Response × Option RateLimitBudget × W)
      (s : Online) (w : W)
      → KeptOnline s (with_token host token send s w).1
  unfolding with_token
  with_token-KeptOnline (throws e) send s w = (refl, refl, refl)
  with_token-KeptOnline (value token) send s w = kept_budget-KeptOnline _ s

  pub session_get-KeptOnline :
      (link : Bytes) (s : Online) (w : W) → KeptOnline s (session_get host link s w).1
  unfolding session_get
  session_get-KeptOnline link s w =
      let (token, manager, w') = get_bearer_token lib auth 1 s.manager w in
      with_token-KeptOnline token (λ token. http_get hooks env link token s.request_timeout)
        (record s { manager = manager }) w'

  after_token-KeptDraft :
      (d : Draft) (r : AuthResult (Option Bytes) × TokenManager × W)
      → Yields (λ (a : Option Bytes × Draft). KeptDraft d a.1) (after_token host d r)
  unfolding after_token
  after_token-KeptDraft d (throws e, manager, w) = thrown_fails e
  after_token-KeptDraft d (value token, manager, w) = ((refl, refl, refl), refl, refl, refl)

  pub bearer-KeptDraft :
      (d : Draft) (w : W) → Yields (λ (a : Option Bytes × Draft). KeptDraft d a.1) (bearer host d w)
  unfolding bearer
  bearer-KeptDraft d w = after_token-KeptDraft d (get_bearer_token lib auth 1 d.online.manager w)

  after_reply-KeptDraft :
      (d : Draft) (r : Reply host)
      → KeptOnline d.online r.1
      → Yields (λ (a : Option Json × Draft). KeptDraft d a.1) (after_reply host d r)
  unfolding after_reply
  after_reply-KeptDraft d (throws e, s, w) kept = thrown_fails e
  after_reply-KeptDraft d (value r, s, w) kept =
      if_intro (Yields (λ (a : Option Json × Draft). KeptDraft d a.1))
        (is_success (status_of host r)) (λ _. (kept, refl, refl, refl))
        (λ bad. success_fails (status_of host r) bad)

  pub fetch-KeptDraft :
      (token : Option Bytes) (link : Bytes) (d : Draft) (w : W)
      → Yields (λ (a : Option Json × Draft). KeptDraft d a.1) (fetch host token link d w)
  unfolding fetch
  fetch-KeptDraft token link d w =
      let send = λ (token : Option Bytes). http_get hooks env link token d.online.request_timeout in
      after_reply-KeptDraft d (with_token host (value token) send d.online w)
        (with_token-KeptOnline (value token) send d.online w)
