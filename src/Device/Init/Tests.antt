-- ===== src/Device/Init/Tests.antt =====
-- Runs of the initialisation, against a server with two qubits and a resonator.
use qdmi_on_iqm.Base.{
  ℕ, suc, ◌≡◌, refl, true, false, none, some, Option, Bytes, List, [], ◌∷◌, codes, ◌==◌,
  if◌then◌else◌,
}
use qdmi_on_iqm.Qdmi.{success, is_success}
use qdmi_on_iqm.Json.Tree.{Tree, text, double, array_of, object_of, tree}
use qdmi_on_iqm.Device.Online.{Host}
use qdmi_on_iqm.Device.Description.{Doubles}
use qdmi_on_iqm.Device.Session.{Session, new_session}
use qdmi_on_iqm.Device.Session.Defaults.{apply_environment_session_defaults}
use qdmi_on_iqm.Device.Init.{session_init, settings_of}
use qdmi_on_iqm.Device.Init.Complete.{IsTransaction, IsInitialized, session_init-IsTransaction}

abbrev texts : List Bytes → List Tree
texts [] = []
texts (s ∷ ss) = text s ∷ texts ss

abbrev pair : Bytes → Bytes → Tree
pair a b = array_of (text a ∷ text b ∷ [])

abbrev computers : Tree
computers = object_of (
    (
      codes "quantum_computers",
      array_of (
          object_of ((codes "id", text (codes "1")) ∷ (codes "alias", text (codes "g")) ∷ []) ∷ []),
    )
    ∷ [])

abbrev architecture : Tree
architecture = array_of (
    object_of (
      (codes "qubits", array_of (texts (codes "A" ∷ codes "B" ∷ [])))
      ∷ (codes "computational_resonators", array_of (texts (codes "R" ∷ [])))
      ∷ (codes "connectivity", array_of (pair (codes "A") (codes "R") ∷ []))
      ∷ [])
    ∷ [])

abbrev loci_of : List Tree → Tree
loci_of loci = object_of (
    (codes "default_implementation", text (codes "d"))
    ∷ (
      codes "implementations",
      object_of ((codes "d", object_of ((codes "loci", array_of loci) ∷ [])) ∷ []),
    )
    ∷ [])

abbrev gates : Tree
gates = object_of (
    (codes "calibration_set_id", text (codes "c9"))
    ∷ (
      codes "gates",
      object_of (
          (codes "cc_prx", text [])
          ∷ (codes "move", loci_of (pair (codes "A") (codes "R") ∷ []))
          ∷ (codes "prx", loci_of (array_of (texts (codes "B" ∷ [])) ∷ []))
          ∷ []),
    )
    ∷ [])

abbrev metrics : Tree
metrics = object_of (
    (
      codes "observations",
      array_of (
          object_of (
            (codes "dut_field", text (codes "characterization.model.B.t1_time"))
            ∷ (codes "value", double 25)
            ∷ [])
          ∷ []),
    )
    ∷ [])

-- The world counts the requests, and the server answers them in turn.
abbrev document : Bytes → Option Tree
document [] = none
document (c ∷ rest) =
    if c == 0
    then some computers
    else if c == 1
    then some architecture
    else if c == 2
    then some gates
    else if c == 3
    then some metrics
    else none

abbrev init_server : Host ℕ
init_server = record {
  lib = tree document;
  error_message = λ e. [];
  hooks = record {
    get = λ link token t w. (
      record { url = link; status_code = 200; text = w ∷ []; header = λ name. none; error = none },
      suc w,
    );
    post = λ link token body t w. (
      record { url = link; status_code = 500; text = []; header = λ name. none; error = none },
      suc w,
    );
    sleep = λ d w. w;
    now = λ w. (w, w);
  };
  auth = record { read_file = λ path w. (none, w); time = λ w. w };
  env = λ name. none;
}

-- Numbers in place of doubles.
abbrev numbers : Doubles
numbers = record {
  multiply = λ a b. a;
  is_finite = λ a. true;
  less = λ a b. false;
  to_unsigned = λ a. a;
}

abbrev configured : Session
configured = record new_session { base_url = codes "https://iqm" }

session_init-runs : (session_init init_server numbers configured 0).0 ≡ success
unfolding session_init is_success
session_init-runs = refl

couplings :
    (session_init init_server numbers configured 0).1.description.connectivity
    ≡ (0, 2) ∷ (2, 0) ∷ []
unfolding session_init is_success
couplings = refl

session_init-IsTransaction_example :
    IsTransaction configured
      (λ new.
        IsInitialized
          (apply_environment_session_defaults init_server.env (settings_of init_server configured))
          new
        × (new.requested_calibration_set_id ≡ configured.requested_calibration_set_id))
      (session_init init_server numbers configured 0)
session_init-IsTransaction_example = session_init-IsTransaction init_server numbers configured 0
