-- ===== src/Device/Job/Remote/Kept.antt =====
-- What a check or a cancellation leaves of the job, whatever the server answers.
use qdmi_on_iqm.Base.{
  ◌≡◌, ◌≢◌, refl, inl, inr, ◌||◌, true, false, Option, none, some, [], ◌∷◌, arith, if_intro,
  is_empty, ap, sym, ◌∙◌,
}
use qdmi_on_iqm.Qdmi.{
  QdmiStatus, success, fatal, invalidargument, done, canceled, is_success, status_eq,
}
use qdmi_on_iqm.ApiConfig.{url}
use qdmi_on_iqm.Auth.Manager.{value, throws, AuthError, authentication, configuration}
use qdmi_on_iqm.Device.Job.{Job}
use qdmi_on_iqm.Device.Job.Native.Updates.{IsUpdate, set_job_status-IsUpdate}
use qdmi_on_iqm.Device.Job.Remote.{
  Outcome, is_done, after_update, read_status, after_status_reply, job_check, status_endpoint,
  fails, job_cancel, after_cancel_reply, cancel_endpoint, reports_illegal_job_status,
}
use qdmi_on_iqm.Device.Online.{Host, Online, Reply, session_get, session_post, status_of, thrown}

pub thrown_fails : (e : AuthError) → thrown e ≢ success
unfolding thrown
thrown_fails authentication = λ h. ground arith
thrown_fails configuration = λ h. ground arith

pub success_fails : (status : QdmiStatus) → is_success status ≡ false → status ≢ success
unfolding is_success
success_fails status h =
    λ same. let clash : true ≡ false = ap is_success (sym same) ∙ h in ground arith

pub is_success-eq : (status : QdmiStatus) → is_success status ≡ true → status ≡ success
unfolding is_success
is_success-eq success h = refl
is_success-eq _ h = ground arith

module _ {W : Type 0} (host : Host W) where
  open host.lib use {Json, parse}

  -- What a check promises of the job that it was called on.
  unfoldable pub IsCheck : Job Json → Outcome host → Type 0
  IsCheck old o =
      (o.answer ≢ success → (o.job ≡ old) × (o.told ≡ none))
      × (o.answer ≡ success
          → (o.told ≡ some o.job.status)
            × (o.job ≡ record old { status = o.job.status; queue_position = o.job.queue_position }))

  failed-IsCheck :
      (job : Job Json) (status : QdmiStatus) (s : Online) (w : W)
      → status ≢ success
      → IsCheck job (fails host status job s w)
  unfolding IsCheck
  failed-IsCheck job status s w h = (λ _. (refl, refl), λ same. absurd (h same))

  after_update-IsCheck :
      (job : Job Json) (j : Json) (u : Option (QdmiStatus × Job Json)) (s : Online) (w : W)
      → IsUpdate host.lib job u
      → IsCheck job (after_update host job j u s w)
  unfolding after_update IsCheck is_success
  after_update-IsCheck job j u s w (inl e) = rw e (failed-IsCheck job fatal s w (λ h. ground arith))
  after_update-IsCheck job j u s w (inr (inl e)) =
      rw e (failed-IsCheck job fatal s w (λ h. ground arith))
  after_update-IsCheck job j u s w (inr (inr (status, e))) =
      rw e ((λ h. absurd (h refl)), (λ h. (refl, refl)))

  read_status-IsCheck :
      (job : Job Json) (j : Option Json) (s : Online) (w : W)
      → IsCheck job (read_status host job j s w)
  unfolding read_status
  read_status-IsCheck job none s w = failed-IsCheck job fatal s w (λ h. ground arith)
  read_status-IsCheck job (some j) s w =
      after_update-IsCheck job j _ s w (set_job_status-IsUpdate host.lib job j)

  reply-IsCheck : (job : Job Json) (r : Reply host) → IsCheck job (after_status_reply host job r)
  unfolding after_status_reply
  reply-IsCheck job (throws e, s, w) = failed-IsCheck job (thrown e) s w (thrown_fails e)
  reply-IsCheck job (value r, s, w) =
      if_intro (IsCheck job) (is_success (status_of host r))
        (λ _. read_status-IsCheck job (parse r.text) s w)
        (λ no. failed-IsCheck job (status_of host r) s w (success_fails (status_of host r) no))

  -- A check that does not answer success keeps the whole job and tells no status; one that does
  -- tells the job's new status, and changes nothing of the job but its status and queue position.
  pub job_check-IsCheck :
      (job : Job Json) (s : Online) (w : W) → IsCheck job (job_check host job s w)
  unfolding job_check IsCheck
  job_check-IsCheck job s w =
      let path = url s.server (status_endpoint host job.calibration) (job.job_id ∷ []) in
      if_intro (IsCheck job) (is_empty job.job_id || is_done job.status)
        (λ _. ((λ h. absurd (h refl)), (λ h. (refl, refl))))
        (λ _. reply-IsCheck job (session_get host path s w))

  -- What a cancellation promises of the job that it was called on.
  unfoldable pub IsCancel : Job Json → Outcome host → Type 0
  IsCancel old o =
      (o.answer ≢ success → o.job ≡ old)
      × (o.answer ≡ success → o.job ≡ record old { status = canceled })

  failed-IsCancel :
      (job : Job Json) (status : QdmiStatus) (s : Online) (w : W)
      → status ≢ success
      → IsCancel job (fails host status job s w)
  unfolding IsCancel
  failed-IsCancel job status s w h = (λ _. refl, λ same. absurd (h same))

  reply-IsCancel : (job : Job Json) (r : Reply host) → IsCancel job (after_cancel_reply host job r)
  unfolding after_cancel_reply IsCancel
  reply-IsCancel job (throws e, s, w) = failed-IsCancel job (thrown e) s w (thrown_fails e)
  reply-IsCancel job (value r, s, w) =
      if_intro (IsCancel job) (is_success (status_of host r))
        (λ _. ((λ h. absurd (h refl)), (λ h. refl)))
        (λ no.
          if_intro (IsCancel job) (reports_illegal_job_status host (parse r.text))
            (λ _. failed-IsCancel job invalidargument s w (λ h. ground arith))
            (λ _. failed-IsCancel job (status_of host r) s w (success_fails (status_of host r) no)))

  -- A cancellation that does not answer success keeps the whole job; one that does sets the job's
  -- status to canceled and changes nothing else of it.
  pub job_cancel-IsCancel :
      (job : Job Json) (s : Online) (w : W) → IsCancel job (job_cancel host job s w)
  unfolding job_cancel
  job_cancel-IsCancel job s w =
      let path = url s.server (cancel_endpoint host job.calibration) (job.job_id ∷ []) in
      if_intro (IsCancel job) (status_eq job.status done || is_empty job.job_id)
        (λ _. failed-IsCancel job invalidargument s w (λ h. ground arith))
        (λ _. reply-IsCancel job (session_post host path [] s w))
