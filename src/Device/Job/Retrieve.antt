-- ===== src/Device/Job/Retrieve.antt =====
-- `IQM_QDMI_device_session_retrieve_device_job_by_id`, with the pointers not null.
pub mod Payload
pub mod Outcome
use qdmi_on_iqm.Base.{
  ℕ, Bool, true, false, not, ◌||◌, Option, none, some, List, [], ◌∷◌, Bytes, codes, bytes_eq, all,
  both, is_empty, if◌then◌else◌,
}
use qdmi_on_iqm.Qdmi.{
  QdmiStatus, success, fatal, invalidargument, badstate, notsupported, is_success,
}
use qdmi_on_iqm.Json.{JsonLib}
use qdmi_on_iqm.ApiConfig.{url, get_job_status, get_job_payload}
use qdmi_on_iqm.Auth.Manager.{value, throws}
use qdmi_on_iqm.Device.Job.{Job, ProgramResults, new_job, no_results}
use qdmi_on_iqm.Device.Job.Native.{set_job_status}
use qdmi_on_iqm.Device.Job.Submit.{Layout, layout, refused, broken, output_layout_of}
use qdmi_on_iqm.Device.Online.{Host, Online, Reply, session_get, status_of, thrown}

module _ (lib : JsonLib) where
  open lib use {
    Json, find, is_array, is_object, is_string, is_number_unsigned, elements, get_unsigned,
    equals_unsigned, value_string, empty_object,
  }

  -- The results of one circuit; `none` is FATAL, also for an exception.
  abbrev with_layout : Layout → Option ProgramResults
  with_layout (layout fields) = some (record no_results { output_layout = some fields })
  with_layout refused = none
  with_layout broken = none

  retrieved_results : List Json → Option (List ProgramResults)
  unfolding output_layout_of
  retrieved_results [] = some []
  retrieved_results (circuit ∷ circuits) =
      both
        (if is_object circuit then with_layout (output_layout_of lib circuit) else some no_results)
        (retrieved_results circuits)

  -- The number of shots of the payload.
  abbrev retrieved_shots : Option Json → Option ℕ
  retrieved_shots none = none
  retrieved_shots (some shots) =
      if not (is_number_unsigned shots) || equals_unsigned shots 0 then none else get_unsigned shots

  abbrev with_payload :
      Job Json → Bool → Option (List ProgramResults) → Option ℕ → QdmiStatus × Option (Job Json)
  with_payload job known (some results) (some shots) =
      (success, some (record job { format_known = known; results = results; num_shots = shots }))
  with_payload job known _ _ = (fatal, none)

  read_circuits : Job Json → Json → Json → QdmiStatus × Option (Job Json)
  unfolding retrieved_results
  read_circuits job payload circuits =
      if not (is_array circuits)
        || is_empty (elements circuits)
        || not (all (λ c. is_object c || is_string c) (elements circuits))
      then (notsupported, none)
      else with_payload job (all is_object (elements circuits))
          (retrieved_results (elements circuits)) (retrieved_shots (find payload (codes "shots")))

  at_circuits : Job Json → Json → Option Json → QdmiStatus × Option (Job Json)
  unfolding read_circuits
  at_circuits job payload none = (fatal, none)
  at_circuits job payload (some circuits) = read_circuits job payload circuits

  unfoldable pub read_payload : Job Json → Option Json → QdmiStatus × Option (Job Json)
  unfolding at_circuits
  read_payload job none = (fatal, none)
  read_payload job (some payload) = at_circuits job payload (find payload (codes "circuits"))

  -- Whether the server's document is of a circuit job.
  abbrev pub is_circuit : Option Bytes → Option Bool
  unfolding bytes_eq
  is_circuit none = none
  is_circuit (some kind) = some (bytes_eq kind (codes "circuit"))

  -- The handle before its status is set.
  abbrev pub remote_job : Bytes → Job Json
  remote_job id = record (new_job empty_object) { job_id = id; retrieved = true }

module _ {W : Type 0} (host : Host W) where
  open host use {lib}
  open host.lib use {Json, parse, value_string}

  abbrev pub Retrieved : Type 0
  Retrieved = (QdmiStatus × Option (Job Json)) × Online × W

  after_payload_reply : Job Json → Reply host → Retrieved
  unfolding read_payload status_of thrown
  after_payload_reply job (throws e, s, w) = ((thrown e, none), s, w)
  after_payload_reply job (value r, s, w) =
      if is_success (status_of host r)
      then (read_payload lib job (parse r.text), s, w)
      else ((status_of host r, none), s, w)

  with_job_status : Option (QdmiStatus × Job Json) → Online → W → Retrieved
  unfolding after_payload_reply session_get url
  with_job_status none s w = ((fatal, none), s, w)
  with_job_status (some (status, job)) s w =
      if is_success status
      then after_payload_reply job
          (session_get host (url s.server get_job_payload (job.job_id ∷ [])) s w)
      else ((status, none), s, w)

  of_kind : Bytes → Json → Option Bool → Online → W → Retrieved
  unfolding with_job_status set_job_status
  of_kind id j none s w = ((fatal, none), s, w)
  of_kind id j (some false) s w = ((notsupported, none), s, w)
  of_kind id j (some true) s w = with_job_status (set_job_status lib (remote_job lib id) j) s w

  read_job : Bytes → Option Json → Online → W → Retrieved
  unfolding of_kind bytes_eq
  read_job id none s w = ((fatal, none), s, w)
  read_job id (some j) s w =
      of_kind id j (is_circuit lib (value_string j (codes "type") (codes "circuit"))) s w

  after_job_reply : Bytes → Reply host → Retrieved
  unfolding read_job status_of thrown
  after_job_reply id (throws e, s, w) = ((thrown e, none), s, w)
  after_job_reply id (value r, s, w) =
      if is_success (status_of host r)
      then read_job id (parse r.text) s w
      else ((status_of host r, none), s, w)

  -- `initialized` says whether the session is.
  unfoldable pub retrieve_device_job_by_id : Bool → Bytes → Online → W → Retrieved
  unfolding after_job_reply session_get url
  retrieve_device_job_by_id initialized id s w =
      if is_empty id
      then ((invalidargument, none), s, w)
      else if not initialized
      then ((badstate, none), s, w)
      else after_job_reply id (session_get host (url s.server get_job_status (id ∷ [])) s w)
