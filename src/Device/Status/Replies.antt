-- ===== src/Device/Status/Replies.antt =====
-- What the server's replies to the two probes say, by their status codes and documents.
use qdmi_on_iqm.Base.{
  ℕ, ◌≤◌, ◌<◌, ◌≡◌, ◌≢◌, ◌↔◌, ◌⊎◌, refl, sym, inl, inr, Bool, true, false, not, Option, none, some,
  List, [], ◌∷◌, Bytes, codes, is_empty, arith, if◌then◌else◌,
}
use mathlib.Core.Path.{subst}
use qdmi_on_iqm.Qdmi.{QdmiStatus, success, notfound}
use qdmi_on_iqm.Json.{JsonLib}
use qdmi_on_iqm.Http.Budget.{Response, TransportError}
use qdmi_on_iqm.Http.Response.{handle_response, log_as_debug}
use qdmi_on_iqm.Http.Response.Classification.{Classified, handle_response-Classified}
use qdmi_on_iqm.Auth.Manager.{value, throws}
use qdmi_on_iqm.Device.Online.{Host, Reply}
use qdmi_on_iqm.Device.Status.{
  Probe, answered, unsupported, unavailable, raised, QueueAvailability, object_body, classified,
  flag, boolean, health_of, length_of, nonempty_windows, availability_of, after_probe,
}

-- Nothing speaks against a submission: the computer does not report itself unhealthy.
abbrev pub IsSound : Probe Bool → Type 0
IsSound (answered true) = Unit
IsSound unsupported = Unit
IsSound _ = ⊥

abbrev pub IsOpen : Option Bool → Type 0
IsOpen (some false) = ⊥
IsOpen _ = Unit

-- There is no queue, or it is empty and its availability does not exclude it.
abbrev pub IsFree : Probe QueueAvailability → Type 0
IsFree unsupported = Unit
IsFree (answered a) = (a.queue_length ≡ some 0) × IsOpen a.is_available
IsFree _ = ⊥

pub iff_trans : {A B C : Type 0} → A ↔ B → B ↔ C → A ↔ C
iff_trans f g = (λ a. g.0 (f.0 a), λ c. f.1 (g.1 c))

pub iff_both : {A B C D : Type 0} → A ↔ C → B ↔ D → (A × B) ↔ (C × D)
iff_both f g = (λ h. (f.0 h.0, g.0 h.1), λ h. (f.1 h.0, g.1 h.1))

iff_if :
    {A : Type 0} (Q : A → Type 0) (b : Bool) {x y : A}
    → ¬ Q y
    → Q (if b then x else y) ↔ ((b ≡ true) × Q x)
iff_if Q true never = (λ h. (refl, h), λ h. h.1)
iff_if Q false never = (λ h. absurd (never h), λ h. absurd (ground arith))

-- A value that is there with a property.
abbrev pub Holds : {A : Type 0} → Option A → (A → Type 0) → Type 0
Holds {A} o R = (a : A) × (o ≡ some a) × R a

some_eq : {A : Type 0} {a b : A} → some a ≡ some b → a ≡ b
some_eq h = cc

Holds-some : {A : Type 0} (R : A → Type 0) (a : A) → R a ↔ Holds (some a) R
Holds-some R a = (λ h. (a, refl, h), λ h. subst R (sym (some_eq h.1)) h.2)

Holds-none : {A : Type 0} (R : A → Type 0) → Holds none R → ⊥
Holds-none R h = let same = h.1 in ground arith

-- A response of a server that does not have the endpoint.
abbrev pub IsMissing : Response → Type 0
IsMissing r = (r.error ≡ none) × (r.status_code ≡ 404)

abbrev pub IsOk : Response → Type 0
IsOk r = (r.error ≡ none) × (200 ≤ r.status_code) × (r.status_code < 300)

module _ (lib : JsonLib) where
  open lib use {
    Json, parse, find, is_object, is_boolean, is_array, is_number_unsigned, get_bool, get_unsigned,
    elements,
  }

  -- The document says that the quantum computer is healthy.
  abbrev pub SaysHealthy : Json → Type 0
  SaysHealthy j =
      Holds (find j (codes "healthy")) (λ b. (is_boolean b ≡ true) × (get_bool b ≡ some true))

  -- The document says that the queue is empty, and has no list of windows that is empty.
  abbrev pub SaysFree : Json → Type 0
  SaysFree j =
      Holds (find j (codes "queue_length"))
        (λ n. (is_number_unsigned n ≡ true) × (get_unsigned n ≡ some 0))
      × ¬ Holds (find j (codes "available")) (λ a. (is_array a ≡ true) × (elements a ≡ []))

  -- The server has no such endpoint, or answers with an object of which `P` holds.
  abbrev pub Says : (Json → Type 0) → Response → Option Json → Type 0
  Says P r body = IsMissing r ⊎ (IsOk r × Holds body (λ j. (is_object j ≡ true) × P j))

  abbrev pub Expects : (Json → Type 0) → Probe Json → Type 0
  Expects P (answered j) = P j
  Expects P unsupported = Unit
  Expects P _ = ⊥

  object_body-Holds :
      (P : Json → Type 0) (body : Option Json)
      → Expects P (object_body lib body) ↔ Holds body (λ j. (is_object j ≡ true) × P j)
  object_body-Holds P none = (λ h. absurd h, λ h. Holds-none (λ j. (is_object j ≡ true) × P j) h)
  object_body-Holds P (some j) =
      iff_trans (iff_if (Expects P) (is_object j) (λ h. h))
        (Holds-some (λ j. (is_object j ≡ true) × P j) j)

  not_missing : {A : Type 0} (r : Response) → IsOk r → IsMissing r → A
  not_missing r ok missing = absurd (omega (arith, missing.1, ok.1, ok.2))

  ok_says : (r : Response) {A : Type 0} → IsOk r → (IsMissing r ⊎ (IsOk r × A)) → A
  ok_says r ok (inl missing) = not_missing r ok missing
  ok_says r ok (inr said) = said.1

  other_status :
      (P : Json → Type 0) (error_message : TransportError → Bytes) (status : QdmiStatus)
      (r : Response) (body : Option Json)
      → Classified lib error_message status r.error r.status_code
      → status ≢ success
      → status ≢ notfound
      → Says P r body
      → ⊥
  other_status P error_message status r body c bad known (inl missing) = known (c.2.1 missing)
  other_status P error_message status r body c bad known (inr (ok, said)) = bad (c.0.1 ok)

  classified-Says :
      (P : Json → Type 0) (error_message : TransportError → Bytes) (status : QdmiStatus)
      (r : Response) (body : Option Json)
      → Classified lib error_message status r.error r.status_code
      → Expects P (classified lib status body) ↔ Says P r body
  unfolding classified
  classified-Says P error_message success r body c =
      let ok = c.0.0 refl in
      let holds = object_body-Holds P body in
      (λ h. inr (ok, holds.0 h), λ h. holds.1 (ok_says r ok h))
  classified-Says P error_message notfound r body c = (λ h. inl (c.2.0 refl), λ h. tt)
  classified-Says P error_message status r body c = (
    λ h. absurd h,
    λ h.
        absurd
          (other_status P error_message status r body c (λ e. ground arith) (λ e. ground arith) h),
  )

  flag-IsSound : (o : Option Bool) → IsSound (flag lib o) ↔ (o ≡ some true)
  flag-IsSound none = (λ h. absurd h, λ h. absurd (ground arith))
  flag-IsSound (some true) = (λ h. refl, λ h. tt)
  flag-IsSound (some false) = (λ h. absurd h, λ h. absurd (ground arith))

  boolean-IsSound :
      (o : Option Json)
      → IsSound (boolean lib o) ↔ Holds o (λ b. (is_boolean b ≡ true) × (get_bool b ≡ some true))
  boolean-IsSound none = (
    λ h. absurd h,
    λ h. absurd (Holds-none (λ b. (is_boolean b ≡ true) × (get_bool b ≡ some true)) h),
  )
  boolean-IsSound (some b) = iff_trans (iff_if IsSound (is_boolean b) (λ h. h)) (
      iff_trans (iff_both (λ h. h, λ h. h) (flag-IsSound (get_bool b)))
        (Holds-some (λ b. (is_boolean b ≡ true) × (get_bool b ≡ some true)) b))

  length_of-Holds :
      (o : Option Json)
      → (length_of lib o ≡ some 0)
        ↔ Holds o (λ n. (is_number_unsigned n ≡ true) × (get_unsigned n ≡ some 0))
  length_of-Holds none = (
    λ h. absurd (ground arith),
    λ h. absurd (Holds-none (λ n. (is_number_unsigned n ≡ true) × (get_unsigned n ≡ some 0)) h),
  )
  length_of-Holds (some n) =
      iff_trans (iff_if (λ (m : Option ℕ). m ≡ some 0) (is_number_unsigned n) (λ h. ground arith))
        (Holds-some (λ n. (is_number_unsigned n ≡ true) × (get_unsigned n ≡ some 0)) n)

  windows-IsOpen :
      (b : Bool) (windows : List Json)
      → IsOpen (if b then some (not (is_empty windows)) else none) ↔ ¬ ((b ≡ true) × (windows ≡ []))
  windows-IsOpen false windows = (λ h k. absurd (ground arith), λ h. tt)
  windows-IsOpen true [] = (λ h k. h, λ h. h (refl, refl))
  windows-IsOpen true (x ∷ windows) = (λ h k. absurd (ground arith), λ h. tt)

  available-IsOpen :
      (o : Option Json)
      → IsOpen (nonempty_windows lib o) ↔ ¬ Holds o (λ a. (is_array a ≡ true) × (elements a ≡ []))
  available-IsOpen none = (λ h k. Holds-none _ k, λ h. tt)
  available-IsOpen (some a) =
      let there = Holds-some (λ a. (is_array a ≡ true) × (elements a ≡ [])) a in
      let windows = windows-IsOpen (is_array a) (elements a) in
      (λ h k. windows.0 h (there.1 k), λ h. windows.1 (λ k. h (there.0 k)))

  pub health_of-Expects : (p : Probe Json) → IsSound (health_of lib p) ↔ Expects SaysHealthy p
  unfolding health_of
  health_of-Expects (answered j) = boolean-IsSound (find j (codes "healthy"))
  health_of-Expects unsupported = (λ h. h, λ h. h)
  health_of-Expects unavailable = (λ h. h, λ h. h)
  health_of-Expects (raised e) = (λ h. h, λ h. h)

  pub availability_of-Expects :
      (p : Probe Json) → IsFree (availability_of lib p) ↔ Expects SaysFree p
  unfolding availability_of
  availability_of-Expects (answered j) =
      iff_both (length_of-Holds (find j (codes "queue_length")))
        (available-IsOpen (find j (codes "available")))
  availability_of-Expects unsupported = (λ h. h, λ h. h)
  availability_of-Expects unavailable = (λ h. h, λ h. h)
  availability_of-Expects (raised e) = (λ h. h, λ h. h)

module _ {W : Type 0} (host : Host W) where
  open host use {lib, error_message}
  open host.lib use {Json, parse}

  -- What a reply says; an exception says nothing.
  unfoldable pub ReplySays : (Json → Type 0) → Reply host → Type 0
  ReplySays P (throws e, s, w) = ⊥
  ReplySays P (value r, s, w) = Says lib P r (parse r.text)

  pub after_probe-ReplySays :
      (P : Json → Type 0) (r : Reply host) → Expects lib P (after_probe host r).0 ↔ ReplySays P r
  unfolding after_probe ReplySays
  after_probe-ReplySays P (throws e, s, w) = (λ h. h, λ h. h)
  after_probe-ReplySays P (value r, s, w) =
      classified-Says lib P error_message (handle_response lib error_message r log_as_debug).0 r
        (parse r.text) (handle_response-Classified lib error_message r log_as_debug)

  pub after_probe-state :
      (r : Reply host) → ((after_probe host r).1 ≡ r.1) × ((after_probe host r).2 ≡ r.2)
  unfolding after_probe
  after_probe-state (throws e, s, w) = (refl, refl)
  after_probe-state (value r, s, w) = (refl, refl)
