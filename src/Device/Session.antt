-- ===== src/Device/Session.antt =====
-- The session handle of src/iqm_device.cpp: its state and what is set before it is initialised.
pub mod Valid
mod Guards
pub mod Defaults
mod Tests
use qdmi_on_iqm.Base.{
  ℕ, zero, suc, ◌+◌, ◌-◌, ◌*◌, ◌^◌, Bool, true, false, not, ◌&&◌, ◌||◌, Option, none, some, List,
  [], ◌∷◌, Bytes, get_or, take, ltb, leb, ◌==◌, if◌then◌else◌,
}
use qdmi_on_iqm.Qdmi.{QdmiStatus, success, invalidargument, badstate, notsupported}
use qdmi_on_iqm.Http.Budget.{RateLimitBudget, empty_budget}
use qdmi_on_iqm.Auth.Manager.{TokenManager}
use qdmi_on_iqm.Device.Description.{Description, no_description}

pub data SessionStatus : Type 0 where
  allocated initialized : SessionStatus

-- `invalid_parameter` is a value outside the enumeration, `other_parameter` one that the device
-- does not name.
pub data SessionParameter : Type 0 where
  baseurl token authfile custom1 custom2 custom3 custom4 : SessionParameter
  other_parameter invalid_parameter : SessionParameter

-- `IQM_QDMI_Device_Session_impl_d`. `api_config` is the server URL that the object holds; a null
-- pointer is `none`. The connection pool belongs to the network.
pub record Session : Type 0 where
  pub base_url : Bytes
  pub token_text : Option Bytes
  pub tokens_file : Option Bytes
  pub token_manager : Option TokenManager
  pub api_config : Option Bytes
  pub request_timeout : ℕ
  pub rate_limit : RateLimitBudget
  pub session_status : SessionStatus
  pub quantum_computer_id : Option Bytes
  pub quantum_computer_alias : Option Bytes
  pub requested_calibration_set_id : Option Bytes
  pub calibration_set_id : Bytes
  pub supports_calibration_jobs : Bool
  pub description : Description

-- `IQM_QDMI_device_session_alloc`.
abbrev pub new_session : Session
new_session = record {
  base_url = [];
  token_text = none;
  tokens_file = none;
  token_manager = none;
  api_config = none;
  request_timeout = 3_600_000;
  rate_limit = empty_budget;
  session_status = allocated;
  quantum_computer_id = none;
  quantum_computer_alias = none;
  requested_calibration_set_id = none;
  calibration_set_id = [];
  supports_calibration_jobs = false;
  description = no_description;
}

abbrev pub is_allocated : SessionStatus → Bool
is_allocated allocated = true
is_allocated initialized = false

-- A little-endian unsigned integer.
unfoldable pub from_bytes : Bytes → ℕ
from_bytes [] = 0
from_bytes (b ∷ bytes) = b + 256 * from_bytes bytes

-- A character of a canonical UUID at its position.
unfoldable pub uuid_character : ℕ → ℕ → Bool
uuid_character index c =
    if index == 8 || index == 13 || index == 18 || index == 23
    then c == b'-'
    else (leb b'0' c && leb c b'9') || (leb b'a' c && leb c b'f')

-- The loop over the identifier, from `index` on.
pub canonical : ℕ → Bytes → Bool
unfolding uuid_character
canonical index [] = true
canonical index (c ∷ id) = uuid_character index c && canonical (suc index) id

set_calibration : Session → ℕ → Bytes → QdmiStatus × Session
unfolding canonical
set_calibration s size memory =
    if not (size == 37) || not (get_or memory 36 0 == 0) || not (canonical 0 (take 36 memory))
    then (invalidargument, s)
    else (success, record s { requested_calibration_set_id = some (take 36 memory) })

set_timeout : Session → ℕ → Bytes → QdmiStatus × Session
unfolding from_bytes
set_timeout s size memory =
    let milliseconds = from_bytes (take 8 memory) in
    if not (size == 8) || milliseconds == 0 || ltb (2 ^ 63 - 1) milliseconds
    then (invalidargument, s)
    else (success, record s { request_timeout = milliseconds })

-- The `switch`, where there is a value; a string is taken without its last byte.
set_value : Session → SessionParameter → ℕ → Bytes → QdmiStatus × Session
unfolding set_calibration set_timeout
set_value s baseurl size memory = (success, record s { base_url = take (size - 1) memory })
set_value s token size memory = (success, record s { token_text = some (take (size - 1) memory) })
set_value s authfile size memory =
    (success, record s { tokens_file = some (take (size - 1) memory) })
set_value s custom1 size memory =
    (success, record s { quantum_computer_id = some (take (size - 1) memory) })
set_value s custom2 size memory =
    (success, record s { quantum_computer_alias = some (take (size - 1) memory) })
set_value s custom3 size memory = set_timeout s size memory
set_value s custom4 size memory = set_calibration s size memory
set_value s _ size memory = (notsupported, s)

-- The `switch`, where the value is a null pointer.
without_value : Session → SessionParameter → QdmiStatus × Session
without_value s other_parameter = (notsupported, s)
without_value s invalid_parameter = (notsupported, s)
without_value s _ = (success, s)

switch_parameter : Session → SessionParameter → ℕ → Option Bytes → QdmiStatus × Session
unfolding set_value without_value
switch_parameter s param size none = without_value s param
switch_parameter s param size (some memory) = set_value s param size memory

abbrev is_invalid : SessionParameter → Bool
is_invalid invalid_parameter = true
is_invalid _ = false

-- `value != nullptr && size == 0`.
abbrev pub empty_value : ℕ → Option Bytes → Bool
empty_value size none = false
empty_value size (some memory) = size == 0

-- `IQM_QDMI_device_session_set_parameter` on a handle that is not null. The memory at `value` holds
-- `size` bytes.
unfoldable pub session_set_parameter :
    SessionParameter → ℕ → Option Bytes → Session → QdmiStatus × Session
unfolding switch_parameter
session_set_parameter param size value s =
    if empty_value size value || is_invalid param
    then (invalidargument, s)
    else if not (is_allocated s.session_status)
    then (badstate, s)
    else switch_parameter s param size value

-- The calls that an application makes before initialisation, in order.
pub record Setting : Type 0 where
  pub param : SessionParameter
  pub size : ℕ
  pub value : Option Bytes

unfoldable pub set_all : List Setting → Session → Session
unfolding session_set_parameter
set_all [] s = s
set_all (call ∷ calls) s = set_all calls (session_set_parameter call.param call.size call.value s).1
