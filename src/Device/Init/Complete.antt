-- ===== src/Device/Init/Complete.antt =====
-- `IQM_QDMI_device_session_init` is a transaction, and a session that it completes is well described.
use qdmi_on_iqm.Base.{
  ◌≡◌, ◌≢◌, refl, ◌∙◌, ap, true, false, not, some, is_empty, is_some, arith, if_intro,
}
use qdmi_on_iqm.Qdmi.{QdmiStatus, success}
use qdmi_on_iqm.Auth.Manager.{AuthResult, value, throws, TokenManager, new_token_manager}
use qdmi_on_iqm.Device.Description.{Doubles}
use qdmi_on_iqm.Device.Job.Remote.Kept.{thrown_fails}
use qdmi_on_iqm.Device.Online.{Host}
use qdmi_on_iqm.Device.Session.{Session, initialized, is_allocated}
use qdmi_on_iqm.Device.Session.Defaults.{apply_environment_session_defaults}
use qdmi_on_iqm.Device.Session.Defaults.Precedence.{defaults-SameRequest}
use qdmi_on_iqm.Device.Init.Steps.{Loaded, loaded, refused, Step, Yields, Yields-bind, Yields-mono}
use qdmi_on_iqm.Device.Init.Valid.{IsValid}
use qdmi_on_iqm.Device.Init.Valid.Operations.{IsResolved}
use qdmi_on_iqm.Device.Init.{
  load_description, draft_of, with_manager, initialize_with_defaults, initialize_device_session,
  settings_of, committed, session_init,
}
use qdmi_on_iqm.Device.Init.Progress.{IsComplete, load_description-IsComplete}

-- What initialisation promises of a session, from the session with its defaults.
unfoldable pub IsInitialized : Session → Session → Type 0
IsInitialized old new =
    (new.session_status ≡ initialized)
    × (new.base_url ≡ old.base_url)
    × (new.requested_calibration_set_id ≡ old.requested_calibration_set_id)
    × (is_empty new.base_url ≡ false)
    × (new.api_config ≡ some new.base_url)
    × (is_some new.token_manager ≡ true)
    × (is_some new.quantum_computer_id ≡ true)
    × (is_some new.quantum_computer_alias ≡ true)
    × IsResolved new.requested_calibration_set_id new.calibration_set_id
    × IsValid new.description

-- A transaction on a session: without success nothing of it changes; with success its new value
-- is as `P` says.
abbrev pub IsTransaction :
    {W : Type 0} → Session → (Session → Type 0) → QdmiStatus × Session × W → Type 0
IsTransaction s P r = (r.0 ≢ success → r.1 ≡ s) × (r.0 ≡ success → P r.1)

module _ {W : Type 0} (host : Host W) where
  open host use {lib, env}
  open host.lib use {Json, find, elements}

  with_manager-IsInitialized :
      (doubles : Doubles) (s : Session) (manager : AuthResult TokenManager) (w : W)
      → is_empty s.base_url ≡ false
      → Yields (IsInitialized s) (with_manager host doubles s manager w)
  unfolding with_manager IsInitialized
  with_manager-IsInitialized doubles s (throws e) w located = thrown_fails e
  with_manager-IsInitialized doubles s (value manager) w located =
      let d₀ = draft_of host s manager in
      Yields-bind (IsComplete host d₀) (IsInitialized s)
        (load_description host doubles s.quantum_computer_alias d₀ w) _
        (load_description-IsComplete host doubles s.quantum_computer_alias d₀ w)
        λ d (server, requested, known, resolved, valid) w₁.
          (refl, refl, refl, located, ap some server, refl, known, refl, resolved, valid)

  initialize_with_defaults-IsInitialized :
      (doubles : Doubles) (s : Session) (w : W)
      → Yields (IsInitialized s) (initialize_with_defaults host doubles s w)
  unfolding initialize_with_defaults
  initialize_with_defaults-IsInitialized doubles s w =
      if_intro (λ (step : Step W Session). Yields (IsInitialized s) (step w)) (is_empty s.base_url)
        (λ _. λ h. ground arith)
        (λ located.
          with_manager-IsInitialized doubles s (new_token_manager env s.token_text s.tokens_file) w
            located)

  committed-IsTransaction :
      (s : Session) (r : Loaded Session × W) (P : Session → Type 0)
      → Yields P r
      → ((committed host s r).0 ≢ success → (committed host s r).1 ≡ s)
        × ((committed host s r).0 ≡ success → P (committed host s r).1)
  committed-IsTransaction s (loaded new, w) P good = (λ h. absurd (h refl), λ _. good)
  committed-IsTransaction s (refused status, w) P bad = (λ _. refl, λ h. absurd (bad h))

  -- Where the initialisation of a session does not answer success, the session is as before. Where
  -- it does, the session is initialised on the server of its settings, with the environment's
  -- defaults; it has a quantum computer; its calibration set has a name, and is the requested one
  -- where one is requested; its sites are numbered, as many as its qubits at least; its couplings
  -- are between sites and go both ways; and each operation has at least one locus, all loci of the
  -- same size, which is not zero, and of sites of the session.
  pub session_init-IsTransaction :
      (doubles : Doubles) (s : Session) (w : W)
      → IsTransaction s
          (λ new.
            IsInitialized (apply_environment_session_defaults env (settings_of host s)) new
            × (new.requested_calibration_set_id ≡ s.requested_calibration_set_id))
          (session_init host doubles s w)
  unfolding session_init initialize_device_session IsInitialized
  session_init-IsTransaction doubles s w =
      let start = apply_environment_session_defaults env (settings_of host s) in
      let P = λ (new : Session).
        IsInitialized start new
        × (new.requested_calibration_set_id ≡ s.requested_calibration_set_id) in
      if_intro (IsTransaction s P) (not (is_allocated s.session_status))
        (λ _. (λ _. refl, λ h. ground arith))
        (λ _. committed-IsTransaction s _ P (
          Yields-mono (IsInitialized start) P (initialize_with_defaults host doubles start w)
            (initialize_with_defaults-IsInitialized doubles start w)
            (λ new good. (good, good.2 ∙ defaults-SameRequest env (settings_of host s)))))
