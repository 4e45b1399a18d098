-- ===== src/Device/Query.antt =====
-- `IQM_QDMI_device_session_query_device_property` and the queries of sites and operations. A pointer
-- to a site or an operation is an index of the description, or null; its bytes and the numbers of
-- the QDMI enumerations are parameters.
pub mod Operation
use qdmi_on_iqm.Base.{
  ℕ, suc, Bool, true, false, not, ◌&&◌, ◌||◌, Option, none, some, List, [], ◌∷◌, ◌++◌, Bytes, codes,
  map, length, get_or, ltb, if◌then◌else◌,
}
use qdmi_on_iqm.Qdmi.{QdmiStatus, invalidargument, badstate, notsupported}
use qdmi_on_iqm.Auth.Manager.{AuthError, AuthResult, value, throws, TokenManager, no_source}
use qdmi_on_iqm.Device.Buffer.{Out, le_bytes, single_value, string_value, list_value}
use qdmi_on_iqm.Device.Description.{Site, Description}
use qdmi_on_iqm.Device.Online.{Host, Online, thrown}
use qdmi_on_iqm.Device.Session.{Session, empty_value, is_allocated}
use qdmi_on_iqm.Device.Status.{DeviceStatus, StatusAnswer, get_device_status, get_queue_length}

pub data DeviceProperty : Type 0 where
  name_property version libraryversion status queuelength qubitsnum sites_property : DeviceProperty
  operations_property couplingmap durationunit durationscalefactor : DeviceProperty
  supportedprogramformats custom1_property other_property invalid_property : DeviceProperty

-- What the code takes from the QDMI headers, the build and the memory.
pub record Numbers : Type 0 where
  pub site_address : ℕ → ℕ
  pub operation_address : ℕ → ℕ
  pub device_version : Bytes
  pub library_version : Bytes
  pub status_number : DeviceStatus → ℕ
  pub qirbasestring_number : ℕ
  pub iqmjson_number : ℕ

abbrev is_invalid_property : DeviceProperty → Bool
is_invalid_property invalid_property = true
is_invalid_property _ = false

-- A double of 1.0.
abbrev one : ℕ
one = 0x3FF0_0000_0000_0000

abbrev some_text : Option Bytes → Bytes
some_text none = []
some_text (some s) = s

abbrev manager_of : Option TokenManager → TokenManager
manager_of none = record {
  token_source = no_source;
  token_source_value = none;
  access_token = none;
}
manager_of (some manager) = manager

-- An initialised session, for its requests: its token manager and its API configuration are there.
abbrev pub online_of : Session → Online
online_of s = record {
  server = some_text s.api_config;
  manager = manager_of s.token_manager;
  request_timeout = s.request_timeout;
  rate_limit = s.rate_limit;
  alias = some_text s.quantum_computer_alias;
  calibration_set_id = s.calibration_set_id;
  supports_calibration_jobs = s.supports_calibration_jobs;
}

abbrev pub after_request : Session → Online → Session
after_request s online = record s {
  token_manager = some online.manager;
  rate_limit = online.rate_limit;
}

-- The indices of a list, from `i` on.
abbrev indices {ℓ} : {A : Type ℓ} → ℕ → List A → List ℕ
indices i [] = []
indices i (x ∷ xs) = i ∷ indices (suc i) xs

abbrev pub bytes_of_sites : Numbers → List ℕ → List Bytes
unfolding le_bytes
bytes_of_sites numbers [] = []
bytes_of_sites numbers (i ∷ is) = le_bytes 8 (numbers.site_address i) ∷ bytes_of_sites numbers is

abbrev bytes_of_operations : Numbers → List ℕ → List Bytes
unfolding le_bytes
bytes_of_operations numbers [] = []
bytes_of_operations numbers (i ∷ is) =
    le_bytes 8 (numbers.operation_address i) ∷ bytes_of_operations numbers is

abbrev bytes_of_pairs : Numbers → List (ℕ × ℕ) → List Bytes
unfolding le_bytes
bytes_of_pairs numbers [] = []
bytes_of_pairs numbers ((a, b) ∷ pairs) =
    (le_bytes 8 (numbers.site_address a) ++ le_bytes 8 (numbers.site_address b))
    ∷ bytes_of_pairs numbers pairs

abbrev known_alias : Option Bytes → Out → QdmiStatus × Out
unfolding string_value
known_alias none out = (badstate, out)
known_alias (some alias) out = string_value alias out

module _ {W : Type 0} (host : Host W) (numbers : Numbers) where
  abbrev pub QueryAnswer : Type 0
  QueryAnswer = (QdmiStatus × Out) × Session × W

  -- The properties that make no request.
  stored_property : DeviceProperty → Session → Out → QdmiStatus × Out
  unfolding le_bytes single_value string_value list_value
  stored_property name_property s out = known_alias s.quantum_computer_alias out
  stored_property version s out = string_value numbers.device_version out
  stored_property libraryversion s out = string_value numbers.library_version out
  stored_property qubitsnum s out = single_value (le_bytes 8 s.description.num_qubits) out
  stored_property sites_property s out =
      list_value (bytes_of_sites numbers (indices 0 s.description.sites)) out
  stored_property operations_property s out =
      list_value (bytes_of_operations numbers (indices 0 s.description.operations)) out
  stored_property couplingmap s out =
      list_value (bytes_of_pairs numbers s.description.connectivity) out
  stored_property durationunit s out = string_value (codes "us") out
  stored_property durationscalefactor s out = single_value (le_bytes 8 one) out
  stored_property supportedprogramformats s out =
      list_value (le_bytes 4 numbers.qirbasestring_number ∷ le_bytes 4 numbers.iqmjson_number ∷ [])
        out
  stored_property custom1_property s out = string_value s.calibration_set_id out
  stored_property _ s out = (notsupported, out)

  status_value : Out → AuthResult DeviceStatus → QdmiStatus × Out
  unfolding le_bytes single_value thrown
  status_value out (throws e) = (thrown e, out)
  status_value out (value found) = single_value (le_bytes 4 (numbers.status_number found)) out

  length_value : Out → AuthResult (Option ℕ) → QdmiStatus × Out
  unfolding le_bytes single_value thrown
  length_value out (throws e) = (thrown e, out)
  length_value out (value none) = (notsupported, out)
  length_value out (value (some n)) = single_value (le_bytes 8 n) out

  switch_device_property : DeviceProperty → Session → Out → W → QueryAnswer
  unfolding stored_property status_value length_value get_device_status get_queue_length
  switch_device_property status s out w =
      let (answer, online, w') = get_device_status host s.quantum_computer_id (online_of s) w in
      (status_value out answer, after_request s online, w')
  switch_device_property queuelength s out w =
      let (answer, online, w') = get_queue_length host s.quantum_computer_id (online_of s) w in
      (length_value out answer, after_request s online, w')
  switch_device_property prop s out w = (stored_property prop s out, s, w)

  unfoldable pub query_device_property : DeviceProperty → Session → Out → W → QueryAnswer
  unfolding switch_device_property
  query_device_property prop s out w =
      if empty_value out.size out.value || is_invalid_property prop
      then ((invalidargument, out), s, w)
      else if is_allocated s.session_status
      then ((badstate, out), s, w)
      else switch_device_property prop s out w

pub data SiteProperty : Type 0 where
  index_property t1 t2 site_name other_site_property invalid_site_property : SiteProperty

abbrev is_invalid_site_property : SiteProperty → Bool
is_invalid_site_property invalid_site_property = true
is_invalid_site_property _ = false

abbrev time_value : ℕ → Out → QdmiStatus × Out
unfolding le_bytes single_value
time_value time out = if ltb 0 time then single_value (le_bytes 8 time) out else (notsupported, out)

site_value : SiteProperty → Site → Out → QdmiStatus × Out
unfolding le_bytes single_value string_value
site_value index_property site out = single_value (le_bytes 8 site.id) out
site_value t1 site out = time_value site.t1 out
site_value t2 site out = time_value site.t2 out
site_value site_name site out = string_value site.name out
site_value _ site out = (notsupported, out)

-- `IQM_QDMI_device_session_query_site_property`, where the session is not null.
unfoldable pub query_site_property : SiteProperty → Option Site → Out → QdmiStatus × Out
unfolding site_value
query_site_property prop none out = (invalidargument, out)
query_site_property prop (some site) out =
    if empty_value out.size out.value || is_invalid_site_property prop
    then (invalidargument, out)
    else site_value prop site out
