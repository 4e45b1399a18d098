-- ===== src/Device/Init/Progress.antt =====
-- What holds of the copy of a session while it is initialised, step by step.
use qdmi_on_iqm.Base.{
  ◌≡◌, refl, sym, ◌∙◌, ap, true, Option, none, some, List, [], ◌∷◌, Bytes, codes, length, is_some,
  and_then, arith,
}
use mathlib.Core.Path.{subst}
use qdmi_on_iqm.ApiConfig.{
  url, cocos_health, get_quantum_computers, get_static_quantum_architecture,
  get_dynamic_quantum_architecture, get_calibration_set_quality_metrics,
}
use qdmi_on_iqm.Auth.Manager.{value, throws}
use qdmi_on_iqm.Device.Description.{Operation, Doubles}
use qdmi_on_iqm.Device.Job.Remote.Kept.{thrown_fails}
use qdmi_on_iqm.Device.Online.{Host, Reply, session_get}
use qdmi_on_iqm.Device.Init.Steps.{
  Step, Yields, Yields-bind, Yields-mono, Yields-or_fatal, or_fatal, go_on, ◌>>=◌, pure,
}
use qdmi_on_iqm.Device.Init.Static.{Choice, choose_computer, static_architecture}
use qdmi_on_iqm.Device.Init.Gates.{read_dynamic_architecture}
use qdmi_on_iqm.Device.Init.Metrics.{read_observations}
use qdmi_on_iqm.Device.Init.Valid.{
  Holds, Holds-and_then, Holds-any, IsValid, IsStatic, static_architecture-IsStatic,
}
use qdmi_on_iqm.Device.Init.Valid.Operations.{
  IsResolved, IsDynamic, read_dynamic_architecture-IsDynamic, with_metrics-IsValid,
}
use qdmi_on_iqm.Device.Init.Kept.{
  KeptOnline, KeptDraft, bearer-KeptDraft, fetch-KeptDraft, session_get-KeptOnline,
}
use qdmi_on_iqm.Device.Init.{
  Draft, bearer, fetch, chosen, with_operations, process_static_quantum_architecture,
  process_calibrated_gates, process_calibration_metrics, supported, check_calibration_jobs,
  load_description, requested_or_default,
}

some_eq : {A : Type 0} {a b : A} → some a ≡ some b → a ≡ b
some_eq h = cc

Holds-some : {A : Type 0} (P : A → Type 0) (o : Option A) (a : A) → Holds P o → o ≡ some a → P a
Holds-some P none a h same = ground arith
Holds-some P (some b) a h same = subst P (some_eq same) h

-- What stays the same of a draft from the choice of the quantum computer on.
abbrev SameChoice : Draft → Draft → Type 0
SameChoice old new =
    (new.online.server ≡ old.online.server)
    × (new.requested ≡ old.requested)
    × (new.quantum_computer_id ≡ old.quantum_computer_id)

module _ {W : Type 0} (host : Host W) where
  open host use {lib, env}
  open host.lib use {Json, find, elements}

  abbrev IsLocated : Draft → Draft → Type 0
  IsLocated old new =
      (new.online.server ≡ old.online.server)
      × (new.requested ≡ old.requested)
      × (is_some new.quantum_computer_id ≡ true)
      × IsStatic new.description

  -- The end of the static architecture, where the quantum computer is chosen.
  architecture-IsLocated :
      (token : Option Bytes) (d₀ d₃ : Draft)
      → (d₃.online.server ≡ d₀.online.server) × (d₃.requested ≡ d₀.requested)
      → is_some d₃.quantum_computer_id ≡ true
      → (w : W)
      → Yields (IsLocated d₀) (
          go_on
            (fetch host token
              (url d₃.online.server get_static_quantum_architecture (d₃.online.alias ∷ []))
              d₃
              w)
            (λ (architecture, d₄).
              or_fatal (static_architecture lib architecture) >>= λ description.
              pure (record d₄ { description = description })))
  architecture-IsLocated token d₀ d₃ same known w =
      let link = url d₃.online.server get_static_quantum_architecture (d₃.online.alias ∷ []) in
      Yields-bind (λ (a : Option Json × Draft). KeptDraft d₃ a.1) (IsLocated d₀)
        (fetch host token link d₃ w) _ (fetch-KeptDraft host token link d₃ w)
        λ (architecture, d₄) kept w₁.
          let found = static_architecture lib architecture in
          Yields-bind IsStatic (IsLocated d₀) (or_fatal found w₁) _
            (Yields-or_fatal IsStatic found w₁
              (λ d. Holds-some IsStatic found d (static_architecture-IsStatic lib architecture)))
            λ description static w₂.
              (kept.0.0 ∙ same.0, kept.2 ∙ same.1, ap is_some kept.1 ∙ known, static)

  static-IsLocated :
      (alias : Option Bytes) (d₀ : Draft) (w : W)
      → Yields (IsLocated d₀) (process_static_quantum_architecture host alias d₀ w)
  unfolding process_static_quantum_architecture
  static-IsLocated alias d₀ w =
      Yields-bind (λ (a : Option Bytes × Draft). KeptDraft d₀ a.1) (IsLocated d₀) (bearer host d₀ w)
        _ (bearer-KeptDraft host d₀ w)
        λ (token, d₁) kept₁ w₁.
          let list_url = url d₁.online.server get_quantum_computers [] in
          Yields-bind (λ (a : Option Json × Draft). KeptDraft d₁ a.1) (IsLocated d₀)
            (fetch host token list_url d₁ w₁) _ (fetch-KeptDraft host token list_url d₁ w₁)
            λ (list, d₂) kept₂ w₂.
              let choices = choose_computer lib d₂.quantum_computer_id alias list in
              Yields-bind (λ (c : Choice). Unit) (IsLocated d₀) (or_fatal choices w₂) _
                (Yields-or_fatal (λ (c : Choice). Unit) choices w₂ (λ c _. tt))
                λ choice _ w₃.
                  architecture-IsLocated token d₀ (chosen host choice d₂)
                    (kept₂.0.0 ∙ kept₁.0.0, kept₂.2 ∙ kept₁.2) refl w₃

  -- A session with its sites and operations, and the calibration set that it asked for.
  abbrev IsCalibrated : Draft → Draft → Type 0
  IsCalibrated old new =
      SameChoice old new
      × IsResolved old.requested new.online.calibration_set_id
      × IsValid new.description

  with_operations-IsCalibrated :
      (d₀ d₂ : Draft) (gates : Bytes × List Operation)
      → SameChoice d₀ d₂
      → IsStatic d₂.description
      → IsDynamic (length d₂.description.sites) d₂.requested gates
      → IsCalibrated d₀ (with_operations host gates d₂)
  unfolding IsStatic
  with_operations-IsCalibrated d₀ d₂ (id, operations) same static dynamic = (
    same,
    subst (λ r. IsResolved r id) same.1 dynamic.0,
    record {
      qubits = static.0.qubits;
      indexed = static.0.indexed;
      coupled = static.0.coupled;
      symmetric = static.0.symmetric;
      described_loci = dynamic.1;
    },
  )

  kept_trans : (d₀ d₁ d₂ : Draft) → KeptDraft d₀ d₁ → KeptDraft d₁ d₂ → KeptDraft d₀ d₂
  kept_trans d₀ d₁ d₂ k l =
      ((l.0.0 ∙ k.0.0, l.0.1 ∙ k.0.1, l.0.2 ∙ k.0.2), l.1 ∙ k.1, l.2 ∙ k.2, l.3 ∙ k.3)

  -- A token, a request with it, and what follows.
  asked :
      (Q : Draft → Type 0) (d₀ : Draft) (w : W) (link : Draft → Bytes)
      (next : Option Json × Draft → Step W Draft)
      → ((r : Option Json × Draft) → KeptDraft d₀ r.1 → (w : W) → Yields Q (next r w))
      → Yields Q (
          go_on
            (bearer host d₀ w)
            (λ (token, d₁) w₁. go_on (fetch host token (link d₁) d₁ w₁) next))
  asked Q d₀ w link next h =
      Yields-bind (λ (a : Option Bytes × Draft). KeptDraft d₀ a.1) Q (bearer host d₀ w) _
        (bearer-KeptDraft host d₀ w)
        λ (token, d₁) kept₁ w₁.
          Yields-bind (λ (a : Option Json × Draft). KeptDraft d₁ a.1) Q
            (fetch host token (link d₁) d₁ w₁) next (fetch-KeptDraft host token (link d₁) d₁ w₁)
            (λ r kept₂ w₂. h r (kept_trans d₀ d₁ r.1 kept₁ kept₂) w₂)

  gates-IsCalibrated :
      (d₀ : Draft) (w : W)
      → IsStatic d₀.description
      → Yields (IsCalibrated d₀) (process_calibrated_gates host d₀ w)
  unfolding process_calibrated_gates IsStatic
  gates-IsCalibrated d₀ w static =
      asked (IsCalibrated d₀) d₀ w
        (λ d.
          url d.online.server get_dynamic_quantum_architecture
            (d.online.alias ∷ d.online.calibration_set_id ∷ []))
        _
        λ (response, d₂) kept w₂.
          let static₂ = subst IsStatic (sym kept.3) static in
          let n = length d₂.description.sites in
          let sites = d₂.description.sites_map in
          let read = read_dynamic_architecture lib d₂.requested sites in
          let found = and_then response read in
          let dynamic =
            Holds-and_then (λ _. Unit) (IsDynamic n d₂.requested) response read (Holds-any response)
              (λ j _. read_dynamic_architecture-IsDynamic lib n sites static₂.1 d₂.requested j) in
          Yields-bind (IsDynamic n d₂.requested) (IsCalibrated d₀) (or_fatal found w₂) _
            (Yields-or_fatal (IsDynamic n d₂.requested) found w₂
              (λ g. Holds-some (IsDynamic n d₂.requested) found g dynamic))
            (λ gates good w₃.
              with_operations-IsCalibrated d₀ d₂ gates (kept.0.0, kept.2, kept.1) static₂ good)

  metrics-IsCalibrated :
      (doubles : Doubles) (d₀ d : Draft) (w : W)
      → IsCalibrated d₀ d
      → Yields (IsCalibrated d₀) (process_calibration_metrics host doubles d w)
  unfolding process_calibration_metrics
  metrics-IsCalibrated doubles d₀ d w good =
      asked (IsCalibrated d₀) d w
        (λ d₁.
          url d₁.online.server get_calibration_set_quality_metrics
            (d₁.online.alias ∷ d₁.online.calibration_set_id ∷ []))
        _
        λ (response, d₂) kept w₂.
          let found = and_then response λ j. find j (codes "observations") in
          Yields-bind (λ _. Unit) (IsCalibrated d₀) (or_fatal found w₂) _
            (Yields-or_fatal (λ _. Unit) found w₂ (λ _ _. tt))
            λ observations _ w₃.
              let read = read_observations lib (elements observations) [] in
              Yields-bind (λ _. Unit) (IsCalibrated d₀) (or_fatal read w₃) _
                (Yields-or_fatal (λ _. Unit) read w₃ (λ _ _. tt))
                λ metrics _ w₄. (
                  (kept.0.0 ∙ good.0.0, kept.2 ∙ good.0.1, kept.1 ∙ good.0.2),
                  subst (IsResolved d₀.requested) (sym kept.0.2) good.1,
                  with_metrics-IsValid doubles metrics d₂.description
                      (subst IsValid (sym kept.3) good.2),
                )

  supported-IsCalibrated :
      (d₀ d : Draft) (r : Reply host)
      → KeptOnline d.online r.1
      → IsCalibrated d₀ d
      → Yields (IsCalibrated d₀) (supported host d r)
  unfolding supported
  supported-IsCalibrated d₀ d (throws e, s, w) kept good = thrown_fails e
  supported-IsCalibrated d₀ d (value r, s, w) kept good = (
    (kept.0 ∙ good.0.0, good.0.1, good.0.2),
    subst (IsResolved d₀.requested) (sym kept.2) good.1,
    good.2,
  )

  -- The draft before its calibration set is resolved.
  abbrev asking : Draft → Draft
  asking d = record d {
    online = record d.online { calibration_set_id = requested_or_default host d.requested };
  }

  check-IsCalibrated :
      (d₀ d : Draft) (w : W)
      → IsCalibrated d₀ d
      → Yields (IsCalibrated d₀) (check_calibration_jobs host d w)
  unfolding check_calibration_jobs
  check-IsCalibrated d₀ d w good =
      let link = url d.online.server cocos_health [] in
      supported-IsCalibrated d₀ d (session_get host link d.online w)
        (session_get-KeptOnline host link d.online w) good

  -- A draft that is complete, for the settings that it started from.
  abbrev pub IsComplete : Draft → Draft → Type 0
  IsComplete d₀ d =
      (d.online.server ≡ d₀.online.server)
      × (d.requested ≡ d₀.requested)
      × (is_some d.quantum_computer_id ≡ true)
      × IsResolved d₀.requested d.online.calibration_set_id
      × IsValid d.description

  pub load_description-IsComplete :
      (doubles : Doubles) (alias : Option Bytes) (d₀ : Draft) (w : W)
      → Yields (IsComplete d₀) (load_description host doubles alias d₀ w)
  unfolding load_description
  load_description-IsComplete doubles alias d₀ w =
      Yields-bind (IsLocated d₀) (IsComplete d₀)
        (process_static_quantum_architecture host alias d₀ w) _ (static-IsLocated alias d₀ w)
        λ d₁ located w₁.
          let start = asking d₁ in
          Yields-bind (IsCalibrated start) (IsComplete d₀) (process_calibrated_gates host start w₁)
            _ (gates-IsCalibrated start w₁ located.3)
            λ d₂ good₂ w₂.
              Yields-bind (IsCalibrated start) (IsComplete d₀)
                (process_calibration_metrics host doubles d₂ w₂) _
                (metrics-IsCalibrated doubles start d₂ w₂ good₂)
                λ d₃ good₃ w₃.
                  Yields-mono (IsCalibrated start) (IsComplete d₀)
                    (check_calibration_jobs host d₃ w₃) (check-IsCalibrated start d₃ w₃ good₃)
                    (λ d good. (
                      good.0.0 ∙ located.0,
                      good.0.1 ∙ located.1,
                      ap is_some good.0.2 ∙ located.2,
                      subst (λ r. IsResolved r d.online.calibration_set_id) located.1 good.1,
                      good.2,
                    ))
