-- ===== src/Device/Session/Tests.antt =====
-- Runs of the session's settings on concrete values.
use qdmi_on_iqm.Base.{
  none, refl, arith, ◌≡◌, ◌++◌, some, Bytes, List, [], ◌∷◌, codes, replicate, bytes_eq,
  if◌then◌else◌,
}
use qdmi_on_iqm.Device.Session.{
  Session, initialized, custom1, custom3, custom4, new_session, Setting, set_all,
  session_set_parameter,
}
use qdmi_on_iqm.Device.Session.Valid.{set_all-IsConfigured, IsConfigured}
use qdmi_on_iqm.Http.Budget.{Environment}
use qdmi_on_iqm.Device.Session.Defaults.{apply_environment_session_defaults}
use qdmi_on_iqm.Device.Session.Defaults.Precedence.{environment_yields, defaulted}
use qdmi_on_iqm.Device.Session.Guards.{set_parameter_guarded, IsAtomic, IsEarly}

abbrev uuid : Bytes
uuid = codes "0b0e2f5c-90a4-4a52-8f43-1c2d3e4f5a6b"

-- A UUID, a timeout of 500 milliseconds, one of zero and a path in place of a UUID.
abbrev calls : List Setting
calls =
    record { param = custom4; size = 37; value = some (uuid ++ 0 ∷ []) }
    ∷ record { param = custom3; size = 8; value = some (244 ∷ 1 ∷ replicate 6 0) }
    ∷ record { param = custom3; size = 8; value = some (replicate 8 0) }
    ∷ record { param = custom4; size = 37; value = some (replicate 36 b'/' ++ 0 ∷ []) }
    ∷ []

set_all-calls :
    set_all calls new_session
    ≡ record new_session { requested_calibration_set_id = some uuid; request_timeout = 500 }
unfolding set_all
set_all-calls = refl

set_all-IsConfigured_example : IsConfigured (set_all calls new_session)
set_all-IsConfigured_example =
    set_all-IsConfigured calls (omega arith, (omega arith, (omega arith, (omega arith, tt))))

abbrev started : Session
started = record new_session { session_status = initialized }

set_parameter_guarded_example :
    IsAtomic started (session_set_parameter custom1 4 (some (codes "q20" ++ 0 ∷ [])) started)
    × IsEarly started (session_set_parameter custom1 4 (some (codes "q20" ++ 0 ∷ [])) started)
set_parameter_guarded_example =
    set_parameter_guarded custom1 4 (some (codes "q20" ++ 0 ∷ [])) started

-- The environment of a job scheduler that exports an empty variable.
abbrev env : Environment
env name =
    if bytes_eq name (codes "IQM_SERVER_URL")
    then some []
    else if bytes_eq name (codes "IQM_BASE_URL")
    then some (codes "https://iqm")
    else if bytes_eq name (codes "IQM_QC_ALIAS")
    then some (codes "garnet")
    else none

defaults_of_new_session : apply_environment_session_defaults env new_session ≡ record new_session {
  base_url = codes "https://iqm";
  quantum_computer_alias = some (codes "garnet");
}
unfolding apply_environment_session_defaults bytes_eq
defaults_of_new_session = refl

environment_yields_example : apply_environment_session_defaults env started ≡ defaulted env started
environment_yields_example = environment_yields env started
