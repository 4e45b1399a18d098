-- ===== src/ApiConfig.antt =====
-- include/iqm_api_config.hpp and src/internal/iqm_api_config.cpp: the endpoint table and the
-- construction of request URLs. Numeric arguments do not occur in the repository's calls, so an
-- argument is a string.
mod Format
mod Paths
mod Tests
use qdmi_on_iqm.Base.{
  ℕ, ◌+◌, Bool, true, false, ◌&&◌, Option, none, some, List, [], ◌∷◌, ◌++◌, Bytes, codes, take,
  drop, ◌==◌, if◌then◌else◌,
}

pub data Endpoint : Type 0 where
  submit_circuit_job get_job_status get_job_payload : Endpoint
  get_job_artifact_measurement_counts get_job_artifact_measurements cancel_job : Endpoint
  get_quantum_computers get_quantum_computer_health get_queue_availability : Endpoint
  get_static_quantum_architecture get_dynamic_quantum_architecture : Endpoint
  get_calibration_set_quality_metrics : Endpoint
  cocos_health submit_calibration_job get_calibration_job_status : Endpoint
  abort_calibration_job : Endpoint

-- `URLS.at(endpoint)`: the table has an entry for every enumerator.
pub get_url : Endpoint → Bytes
get_url submit_circuit_job = codes "api/v1/jobs/%s/circuit"
get_url get_job_status = codes "api/v1/jobs/%s"
get_url get_job_payload = codes "api/v1/jobs/%s/payload"
get_url get_job_artifact_measurement_counts = codes "api/v1/jobs/%s/artifacts/measurement_counts"
get_url get_job_artifact_measurements = codes "api/v1/jobs/%s/artifacts/measurements"
get_url cancel_job = codes "api/v1/jobs/%s/cancel"
get_url get_quantum_computers = codes "api/v1/quantum-computers"
get_url get_quantum_computer_health = codes "api/v1/quantum-computers/%s/health"
get_url get_queue_availability = codes "api/v1/quantum-computers/%s/queue-availability"
get_url get_static_quantum_architecture =
    codes "api/v1/quantum-computers/%s/artifacts/static-quantum-architectures"
get_url get_dynamic_quantum_architecture =
    codes "api/v1/calibration-sets/%s/%s/dynamic-quantum-architecture"
get_url get_calibration_set_quality_metrics = codes "api/v1/calibration-sets/%s/%s/metrics"
get_url cocos_health = codes "cocos/health"
get_url submit_calibration_job = codes "cocos/api/v4/calibration/runs"
get_url get_calibration_job_status = codes "cocos/api/v4/calibration/runs/%s/status"
get_url abort_calibration_job = codes "cocos/api/v4/calibration/runs/%s/abort"

abbrev one_later : Option ℕ → Option ℕ
one_later none = none
one_later (some i) = some (i + 1)

-- `std::string::find("%s")`.
find_placeholder : Bytes → Option ℕ
find_placeholder [] = none
find_placeholder (c ∷ []) = none
find_placeholder (c ∷ d ∷ rest) =
    if c == b'%' && d == b's' then some 0 else one_later (find_placeholder (d ∷ rest))

pub format_url : Bytes → List Bytes → Bytes
format_url url [] = url
format_url url (arg ∷ args) = elim (find_placeholder url) [
  | none ↦ url
  | some at ↦ format_url (take at url ++ (arg ++ drop (at + 2) url)) args
]

-- `std::string::back` and `front`, at a string that is not empty.
pub ends_with_slash : Bytes → Bool
ends_with_slash [] = false
ends_with_slash (c ∷ []) = c == b'/'
ends_with_slash (c ∷ d ∷ rest) = ends_with_slash (d ∷ rest)

pub strip_leading_slash : Bytes → Bytes
strip_leading_slash [] = []
strip_leading_slash (c ∷ path) = if c == b'/' then path else c ∷ path

pub join_paths : Bytes → Bytes → Bytes
unfolding ends_with_slash strip_leading_slash
join_paths [] path = path
join_paths (c ∷ rest) path =
    let base = c ∷ rest in
    (if ends_with_slash base then base else base ++ b'/' ∷ []) ++ strip_leading_slash path

-- `APIConfig::url` of a configuration with the server URL `server`.
unfoldable pub url : Bytes → Endpoint → List Bytes → Bytes
unfolding get_url find_placeholder format_url join_paths
url server endpoint args = join_paths server (format_url (get_url endpoint) args)
