-- ===== src/Device/Status.antt =====
-- `Get_device_status` and the probes of the server behind it. `id` is the session's quantum computer.
pub mod Replies
pub mod Idle
mod Tests
use qdmi_on_iqm.Base.{
  ℕ, Bool, true, false, not, Option, none, some, [], ◌∷◌, Bytes, codes, is_empty, leb,
  if◌then◌else◌,
}
use qdmi_on_iqm.Qdmi.{QdmiStatus, success, notfound}
use qdmi_on_iqm.Json.{JsonLib}
use qdmi_on_iqm.ApiConfig.{Endpoint, url, get_quantum_computer_health, get_queue_availability}
use qdmi_on_iqm.Http.Budget.{Response}
use qdmi_on_iqm.Http.Response.{handle_response, log_as_debug}
use qdmi_on_iqm.Auth.Manager.{AuthError, AuthResult, value, throws}
use qdmi_on_iqm.Device.Online.{Host, Online, Reply, session_get}

pub data DeviceStatus : Type 0 where
  idle busy maintenance : DeviceStatus

-- `PROBE_OUTCOME` with what the probe found. An exception leaves the entry point.
pub data Probe (A : Type 0) : Type 0 where
  answered : A → Probe A
  unsupported unavailable : Probe A
  raised : AuthError → Probe A

-- `Queue_availability`.
pub record QueueAvailability : Type 0 where
  pub queue_length : Option ℕ
  pub is_available : Option Bool

abbrev pub queue_busy_threshold : ℕ
queue_busy_threshold = 1

module _ (lib : JsonLib) where
  open lib use {
    Json, find, is_object, is_array, is_boolean, is_number_unsigned, elements, get_bool,
    get_unsigned,
  }

  -- The body of a response, where it is an object.
  abbrev object_body : Option Json → Probe Json
  object_body none = unavailable
  object_body (some j) = if is_object j then answered j else unavailable

  -- The `switch` over the status.
  unfoldable pub classified : QdmiStatus → Option Json → Probe Json
  classified success body = object_body body
  classified notfound body = unsupported
  classified _ body = unavailable

  abbrev flag : Option Bool → Probe Bool
  flag none = unavailable
  flag (some b) = answered b

  abbrev boolean : Option Json → Probe Bool
  boolean none = unavailable
  boolean (some j) = if is_boolean j then flag (get_bool j) else unavailable

  -- The member `healthy`.
  unfoldable pub health_of : Probe Json → Probe Bool
  health_of (answered j) = boolean (find j (codes "healthy"))
  health_of unsupported = unsupported
  health_of unavailable = unavailable
  health_of (raised e) = raised e

  abbrev length_of : Option Json → Option ℕ
  length_of none = none
  length_of (some j) = if is_number_unsigned j then get_unsigned j else none

  abbrev nonempty_windows : Option Json → Option Bool
  nonempty_windows none = none
  nonempty_windows (some j) = if is_array j then some (not (is_empty (elements j))) else none

  unfoldable pub availability_of : Probe Json → Probe QueueAvailability
  availability_of (answered j) = answered (record {
    queue_length = length_of (find j (codes "queue_length"));
    is_available = nonempty_windows (find j (codes "available"));
  })
  availability_of unsupported = unsupported
  availability_of unavailable = unavailable
  availability_of (raised e) = raised e

module _ {W : Type 0} (host : Host W) where
  open host use {lib, error_message}
  open host.lib use {Json, parse}

  abbrev pub Probed : Type 0 → Type 0
  Probed A = Probe A × Online × W

  unfoldable pub after_probe : Reply host → Probed Json
  unfolding classified handle_response
  after_probe (throws e, s, w) = (raised e, s, w)
  after_probe (value r, s, w) =
      (classified lib (handle_response lib error_message r log_as_debug).0 (parse r.text), s, w)

  unfoldable pub probe_quantum_computer : Option Bytes → Endpoint → Online → W → Probed Json
  unfolding after_probe session_get url
  probe_quantum_computer none endpoint s w = (unsupported, s, w)
  probe_quantum_computer (some id) endpoint s w =
      after_probe (session_get host (url s.server endpoint (id ∷ [])) s w)

  unfoldable pub get_device_health : Option Bytes → Online → W → Probed Bool
  unfolding probe_quantum_computer health_of
  get_device_health id s w =
      let (answer, s', w') = probe_quantum_computer id get_quantum_computer_health s w in
      (health_of lib answer, s', w')

  unfoldable pub get_queue_availability_of : Option Bytes → Online → W → Probed QueueAvailability
  unfolding probe_quantum_computer availability_of
  get_queue_availability_of id s w =
      let (answer, s', w') = probe_quantum_computer id get_queue_availability s w in
      (availability_of lib answer, s', w')

  -- `Get_queue_length`; the error is that of an exception.
  abbrev queue_length_in : Probe QueueAvailability → AuthResult (Option ℕ)
  queue_length_in (answered a) = value a.queue_length
  queue_length_in (raised e) = throws e
  queue_length_in _ = value none

  unfoldable pub get_queue_length : Option Bytes → Online → W → AuthResult (Option ℕ) × Online × W
  unfolding get_queue_availability_of
  get_queue_length id s w =
      let (answer, s', w') = get_queue_availability_of id s w in (queue_length_in answer, s', w')

  abbrev pub length_or_busy : Option ℕ → ℕ
  length_or_busy none = queue_busy_threshold
  length_or_busy (some n) = n

  abbrev pub by_length : QueueAvailability → DeviceStatus
  by_length a = if leb queue_busy_threshold (length_or_busy a.queue_length) then busy else idle

  abbrev pub by_availability : QueueAvailability → Option Bool → DeviceStatus
  by_availability a (some false) = maintenance
  by_availability a _ = by_length a

  unfoldable pub status_by_queue : Probe QueueAvailability → AuthResult DeviceStatus
  status_by_queue unavailable = value busy
  status_by_queue unsupported = value idle
  status_by_queue (raised e) = throws e
  status_by_queue (answered a) = value (by_availability a a.is_available)

  abbrev pub StatusAnswer : Type 0
  StatusAnswer = AuthResult DeviceStatus × Online × W

  unfoldable pub queue_status : Option Bytes → Online → W → StatusAnswer
  unfolding get_queue_availability_of status_by_queue
  queue_status id s w =
      let (answer, s', w') = get_queue_availability_of id s w in (status_by_queue answer, s', w')

  unfoldable pub status_by_health : Option Bytes → Probed Bool → StatusAnswer
  unfolding queue_status
  status_by_health id (answered false, s, w) = (value maintenance, s, w)
  status_by_health id (unavailable, s, w) = (value busy, s, w)
  status_by_health id (raised e, s, w) = (throws e, s, w)
  status_by_health id (answered true, s, w) = queue_status id s w
  status_by_health id (unsupported, s, w) = queue_status id s w

  unfoldable pub get_device_status : Option Bytes → Online → W → StatusAnswer
  unfolding status_by_health get_device_health
  get_device_status id s w = status_by_health id (get_device_health id s w)
