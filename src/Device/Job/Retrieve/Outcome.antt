-- ===== src/Device/Job/Retrieve/Outcome.antt =====
-- The handle of a job that the server knows.
use qdmi_on_iqm.Base.{
  ◌≡◌, refl, inl, inr, Bool, true, false, not, Option, none, some, [], ◌∷◌, Bytes, codes, is_empty,
  arith, if_intro,
}
use qdmi_on_iqm.Qdmi.{QdmiStatus, is_success}
use qdmi_on_iqm.ApiConfig.{url, get_job_status, get_job_payload}
use qdmi_on_iqm.Auth.Manager.{value, throws}
use qdmi_on_iqm.Device.Job.{Job}
use qdmi_on_iqm.Device.Job.Native.Updates.{IsUpdate, set_job_status-IsUpdate}
use qdmi_on_iqm.Device.Job.Remote.Kept.{thrown_fails, success_fails}
use qdmi_on_iqm.Device.Job.Retrieve.{
  is_circuit, remote_job, Retrieved, after_payload_reply, with_job_status, of_kind, read_job,
  after_job_reply, retrieve_device_job_by_id,
}
use qdmi_on_iqm.Device.Online.{Host, Online, Reply, session_get, status_of}
use qdmi_on_iqm.Device.Job.Retrieve.Payload.{ReadsZero, Yields, read_payload-Yields}

module _ {W : Type 0} (host : Host W) where
  open host use {lib}

  -- What the call answers and gives.
  unfoldable pub IsRetrieval : Bytes → Retrieved host → Type 0
  IsRetrieval id (answer, s, w) = Yields lib id answer

module _ {W : Type 0} (host : Host W) (law : ReadsZero host.lib) where
  open host use {lib}
  open host.lib use {Json, parse, value_string}

  payload_reply-IsRetrieval :
      (id : Bytes) (job : Job Json) (r : Reply host)
      → job.job_id ≡ id
      → job.retrieved ≡ true
      → IsRetrieval host id (after_payload_reply host job r)
  unfolding IsRetrieval after_payload_reply
  payload_reply-IsRetrieval id job (throws e, s, w) same mine = thrown_fails e
  payload_reply-IsRetrieval id job (value r, s, w) same mine =
      if_intro (IsRetrieval host id) (is_success (status_of host r))
        (λ _. read_payload-Yields lib id job (parse r.text) law same mine)
        (λ bad. success_fails (status_of host r) bad)

  with_job_status-IsRetrieval :
      (id : Bytes) (job : Job Json) (u : Option (QdmiStatus × Job Json)) (s : Online) (w : W)
      → job.job_id ≡ id
      → job.retrieved ≡ true
      → IsUpdate lib job u
      → IsRetrieval host id (with_job_status host u s w)
  unfolding IsRetrieval with_job_status is_success
  with_job_status-IsRetrieval id job u s w same mine (inl e) = rw e (λ h. ground arith)
  with_job_status-IsRetrieval id job u s w same mine (inr (inl e)) = rw e (λ h. ground arith)
  with_job_status-IsRetrieval id job u s w same mine (inr (inr (status, e))) = rw e (
      payload_reply-IsRetrieval id (record job { status = status })
        (session_get host (url s.server get_job_payload (job.job_id ∷ [])) s w) same mine)

  of_kind-IsRetrieval :
      (id : Bytes) (j : Json) (kind : Option Bool) (s : Online) (w : W)
      → IsRetrieval host id (of_kind host id j kind s w)
  unfolding IsRetrieval of_kind
  of_kind-IsRetrieval id j none s w = λ h. ground arith
  of_kind-IsRetrieval id j (some false) s w = λ h. ground arith
  of_kind-IsRetrieval id j (some true) s w =
      with_job_status-IsRetrieval id (remote_job lib id) _ s w refl refl
        (set_job_status-IsUpdate lib (remote_job lib id) j)

  read_job-IsRetrieval :
      (id : Bytes) (j : Option Json) (s : Online) (w : W)
      → IsRetrieval host id (read_job host id j s w)
  unfolding IsRetrieval read_job
  read_job-IsRetrieval id none s w = λ h. ground arith
  read_job-IsRetrieval id (some j) s w =
      of_kind-IsRetrieval id j (is_circuit lib (value_string j (codes "type") (codes "circuit"))) s
        w

  job_reply-IsRetrieval :
      (id : Bytes) (r : Reply host) → IsRetrieval host id (after_job_reply host id r)
  unfolding IsRetrieval after_job_reply
  job_reply-IsRetrieval id (throws e, s, w) = thrown_fails e
  job_reply-IsRetrieval id (value r, s, w) =
      if_intro (IsRetrieval host id) (is_success (status_of host r))
        (λ _. read_job-IsRetrieval id (parse r.text) s w)
        (λ bad. success_fails (status_of host r) bad)

  -- A call that answers success gives a handle, and no other does. The handle is marked as
  -- retrieved and has the requested identifier, at least one program and at least one shot; no
  -- counts and no shots are stored for any program; and where a program's output fields are known,
  -- no key occurs in them twice and each field has a bit. The JSON library reads an unsigned number
  -- that differs from zero as another number than zero.
  pub retrieve_device_job_by_id-IsRetrieval :
      (initialized : Bool) (id : Bytes) (s : Online) (w : W)
      → IsRetrieval host id (retrieve_device_job_by_id host initialized id s w)
  unfolding IsRetrieval retrieve_device_job_by_id
  retrieve_device_job_by_id-IsRetrieval initialized id s w =
      if_intro (IsRetrieval host id) (is_empty id) (λ _. λ h. ground arith)
        (λ _.
          if_intro (IsRetrieval host id) (not initialized) (λ _. λ h. ground arith)
            (λ _.
              job_reply-IsRetrieval id
                (session_get host (url s.server get_job_status (id ∷ [])) s w)))
