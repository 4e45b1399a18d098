-- ===== src/Device/Job/Remote/Forward.antt =====
-- Checking a job never turns the clock back.
use qdmi_on_iqm.Base.{
  ℕ, ◌≤◌, ◌≡◌, ◌||◌, Option, none, some, [], ◌∷◌, Bytes, arith, if_intro, is_empty, refl,
}
use qdmi_on_iqm.Qdmi.{QdmiStatus, is_success}
use qdmi_on_iqm.ApiConfig.{url}
use qdmi_on_iqm.Http.Budget.{Response}
use qdmi_on_iqm.Http.Retry.{http_get}
use qdmi_on_iqm.Http.Retry.Forward.{NeverRewinds, http_get_goes_on}
use qdmi_on_iqm.Auth.Manager.{AuthResult, value, throws, get_bearer_token}
use qdmi_on_iqm.Auth.Manager.Forward.{get_bearer_token_goes_on}
use qdmi_on_iqm.Device.Job.{Job}
use qdmi_on_iqm.Device.Job.Native.{set_job_status}
use qdmi_on_iqm.Device.Job.Remote.{
  Outcome, is_done, after_update, read_status, after_status_reply, job_check, status_endpoint,
}
use qdmi_on_iqm.Device.Online.{Host, Online, Reply, session_get, with_token, status_of}

module _ {W : Type 0} (host : Host W) (time : W → ℕ) (law : NeverRewinds host.hooks time)
    (reads : (path : Bytes) (w : W) → time w ≤ time (host.auth.read_file path w).1) where
  open host.lib use {Json, parse}

  with_token_goes_on :
      (token : AuthResult (Option Bytes)) (url : Bytes) (timeout : ℕ) (s : Online) (w : W)
      → time w
        ≤ time (with_token host token (λ t. http_get host.hooks host.env url t timeout) s w).2
  unfolding with_token
  with_token_goes_on (throws e) url timeout s w = omega arith
  with_token_goes_on (value t) url timeout s w =
      http_get_goes_on host.hooks time law host.env url t timeout (some s.rate_limit) w

  session_get_goes_on :
      (url : Bytes) (s : Online) (w : W) → time w ≤ time (session_get host url s w).2
  unfolding session_get
  session_get_goes_on url s w =
      let (token, manager, w') = get_bearer_token host.lib host.auth 1 s.manager w in
      omega (
        arith,
        get_bearer_token_goes_on host.lib host.auth time reads 1 s.manager w,
        with_token_goes_on token url s.request_timeout (record s { manager = manager }) w',
      )

  after_update-world :
      (old : Job Json) (j : Json) (u : Option (QdmiStatus × Job Json)) (s : Online) (w : W)
      → (after_update host old j u s w).world ≡ w
  unfolding after_update
  after_update-world old j none s w = refl
  after_update-world old j (some (status, job)) s w =
      if_intro (λ (o : Outcome host). o.world ≡ w) (is_success status) (λ _. refl) (λ _. refl)

  read_status-world :
      (job : Job Json) (j : Option Json) (s : Online) (w : W)
      → (read_status host job j s w).world ≡ w
  unfolding read_status
  read_status-world job none s w = refl
  read_status-world job (some j) s w = after_update-world job j (set_job_status host.lib job j) s w

  after_status_reply-world :
      (job : Job Json) (r : AuthResult Response) (s : Online) (w : W)
      → (after_status_reply host job (r, s, w)).world ≡ w
  unfolding after_status_reply
  after_status_reply-world job (throws e) s w = refl
  after_status_reply-world job (value r) s w =
      if_intro (λ (o : Outcome host). o.world ≡ w) (is_success (status_of host r))
        (λ _. read_status-world job (parse r.text) s w) (λ _. refl)

  reply_goes_on :
      (earlier : ℕ) (job : Job Json) (r : Reply host)
      → earlier ≤ time r.2
      → earlier ≤ time (after_status_reply host job r).world
  reply_goes_on earlier job (r, s, w) h = rw (after_status_reply-world job r s w) h

  pub job_check_goes_on :
      (job : Job Json) (s : Online) (w : W) → time w ≤ time (job_check host job s w).world
  unfolding job_check
  job_check_goes_on job s w =
      let path = url s.server (status_endpoint host job.calibration) (job.job_id ∷ []) in
      if_intro (λ (o : Outcome host). time w ≤ time o.world)
        (is_empty job.job_id || is_done job.status) (λ _. omega arith)
        (λ _. reply_goes_on (time w) job (session_get host path s w) (session_get_goes_on path s w))
