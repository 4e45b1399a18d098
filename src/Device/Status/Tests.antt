-- ===== src/Device/Status/Tests.antt =====
-- A run of the probes, against a server whose quantum computer is healthy and has an empty queue.
use qdmi_on_iqm.Base.{ℕ, suc, ◌≡◌, ◌↔◌, refl, true, some, none, [], ◌∷◌, codes, bytes_eq}
use qdmi_on_iqm.Json.Tree.{Tree, flag, number, object_of, tree}
use qdmi_on_iqm.Http.Budget.{empty_budget}
use qdmi_on_iqm.Auth.Manager.{no_source, value}
use qdmi_on_iqm.Device.Online.{Host, Online, session_get}
use qdmi_on_iqm.Device.Status.{get_device_status, idle}
use qdmi_on_iqm.Device.Status.Replies.{SaysHealthy, SaysFree, ReplySays}
use qdmi_on_iqm.Device.Status.Idle.{get_device_status-idle}
use qdmi_on_iqm.ApiConfig.{url, get_quantum_computer_health, get_queue_availability}

abbrev healthy_and_empty : Tree
healthy_and_empty = object_of ((codes "healthy", flag true) ∷ (codes "queue_length", number 0) ∷ [])

-- The world counts the requests.
abbrev status_server : Host ℕ
status_server = record {
  lib = tree (λ body. some healthy_and_empty);
  error_message = λ e. [];
  hooks = record {
    get = λ link token t w. (
      record { url = link; status_code = 200; text = []; header = λ name. none; error = none },
      suc w,
    );
    post = λ link token body t w. (
      record { url = link; status_code = 500; text = []; header = λ name. none; error = none },
      w,
    );
    sleep = λ d w. w;
    now = λ w. (w, w);
  };
  auth = record { read_file = λ path w. (none, w); time = λ w. w };
  env = λ name. none;
}

abbrev online : Online
online = record {
  server = codes "https://iqm";
  manager = record { token_source = no_source; token_source_value = none; access_token = none };
  request_timeout = 1_000;
  rate_limit = empty_budget;
  alias = codes "garnet";
  calibration_set_id = codes "default";
  supports_calibration_jobs = true;
}

empty_queue_is_idle : (get_device_status status_server (some (codes "qc")) online 0).0 ≡ value idle
unfolding get_device_status bytes_eq
empty_queue_is_idle = refl

get_device_status-idle_example :
    (let health =
        session_get status_server
          (url (codes "https://iqm") get_quantum_computer_health (codes "qc" ∷ []))
          online
          0 in
      let queue =
        session_get status_server
          (url health.1.server get_queue_availability (codes "qc" ∷ []))
          health.1
          health.2 in
      (((get_device_status status_server (some (codes "qc")) online 0).0 ≡ value idle) ↔ (
        ReplySays status_server (SaysHealthy status_server.lib) health
        × ReplySays status_server (SaysFree status_server.lib) queue))
      × ((get_device_status status_server none online 0).0 ≡ value idle))
get_device_status-idle_example = get_device_status-idle status_server (codes "qc") online 0
