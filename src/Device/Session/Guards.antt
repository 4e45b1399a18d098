-- ===== src/Device/Session/Guards.antt =====
-- Which calls of set_parameter change a session.
use qdmi_on_iqm.Base.{
  ℕ, ◌-◌, arith, ◌≡◌, ◌≢◌, refl, false, ◌||◌, not, ◌==◌, Option, none, some, Bytes, take, get_or,
  if_intro, ltb, ◌^◌,
}
use qdmi_on_iqm.Qdmi.{QdmiStatus, success}
use qdmi_on_iqm.Device.Session.{
  Session, SessionStatus, allocated, initialized, SessionParameter, baseurl, token, authfile,
  custom1, custom2, custom3, custom4, other_parameter, invalid_parameter, from_bytes, canonical,
  set_calibration, set_timeout, set_value, without_value, switch_parameter, session_set_parameter,
  empty_value, is_invalid, is_allocated,
}

-- A call that does not succeed leaves the session as it was.
pub IsAtomic : Session → QdmiStatus × Session → Type 0
IsAtomic before (status, after) = status ≢ success → after ≡ before

-- A call answers success only on a session that is allocated.
pub IsEarly : Session → QdmiStatus × Session → Type 0
IsEarly before (status, after) = status ≡ success → before.session_status ≡ allocated

set_calibration-IsAtomic :
    (s : Session) (size : ℕ) (memory : Bytes) → IsAtomic s (set_calibration s size memory)
unfolding set_calibration IsAtomic
set_calibration-IsAtomic s size memory =
    if_intro (IsAtomic s)
      (not (size == 37) || not (get_or memory 36 0 == 0) || not (canonical 0 (take 36 memory)))
      (λ no h. refl) (λ ok h. absurd (h refl))

set_timeout-IsAtomic :
    (s : Session) (size : ℕ) (memory : Bytes) → IsAtomic s (set_timeout s size memory)
unfolding set_timeout IsAtomic
set_timeout-IsAtomic s size memory =
    if_intro (IsAtomic s)
      (not (size == 8)
        || from_bytes (take 8 memory) == 0
        || ltb (2 ^ 63 - 1) (from_bytes (take 8 memory)))
      (λ no h. refl) (λ ok h. absurd (h refl))

set_value-IsAtomic :
    (s : Session) (param : SessionParameter) (size : ℕ) (memory : Bytes)
    → IsAtomic s (set_value s param size memory)
unfolding set_value IsAtomic
set_value-IsAtomic s baseurl size memory = λ h. absurd (h refl)
set_value-IsAtomic s token size memory = λ h. absurd (h refl)
set_value-IsAtomic s authfile size memory = λ h. absurd (h refl)
set_value-IsAtomic s custom1 size memory = λ h. absurd (h refl)
set_value-IsAtomic s custom2 size memory = λ h. absurd (h refl)
set_value-IsAtomic s custom3 size memory = set_timeout-IsAtomic s size memory
set_value-IsAtomic s custom4 size memory = set_calibration-IsAtomic s size memory
set_value-IsAtomic s other_parameter size memory = λ h. refl
set_value-IsAtomic s invalid_parameter size memory = λ h. refl

without_value-same : (s : Session) (param : SessionParameter) → (without_value s param).1 ≡ s
unfolding without_value
without_value-same s baseurl = refl
without_value-same s token = refl
without_value-same s authfile = refl
without_value-same s custom1 = refl
without_value-same s custom2 = refl
without_value-same s custom3 = refl
without_value-same s custom4 = refl
without_value-same s other_parameter = refl
without_value-same s invalid_parameter = refl

switch_parameter-IsAtomic :
    (s : Session) (param : SessionParameter) (size : ℕ) (value : Option Bytes)
    → IsAtomic s (switch_parameter s param size value)
unfolding switch_parameter IsAtomic
switch_parameter-IsAtomic s param size none = λ h. without_value-same s param
switch_parameter-IsAtomic s param size (some memory) = set_value-IsAtomic s param size memory

is_allocated→eq : (s : SessionStatus) → not (is_allocated s) ≡ false → s ≡ allocated
is_allocated→eq allocated h = refl
is_allocated→eq initialized h = ground arith

-- A call of set_parameter that does not answer success leaves the session as it was, and success
-- means that the session was allocated and not yet initialised.
pub set_parameter_guarded :
    (param : SessionParameter) (size : ℕ) (value : Option Bytes) (s : Session)
    → IsAtomic s (session_set_parameter param size value s)
      × IsEarly s (session_set_parameter param size value s)
unfolding session_set_parameter IsAtomic IsEarly
set_parameter_guarded param size value s =
    if_intro (λ (r : QdmiStatus × Session). IsAtomic s r × IsEarly s r)
      (empty_value size value || is_invalid param) (λ no. (λ h. refl, λ h. ground arith))
      (λ ok.
        if_intro (λ (r : QdmiStatus × Session). IsAtomic s r × IsEarly s r)
          (not (is_allocated s.session_status)) (λ no'. (λ h. refl, λ h. ground arith))
          (λ ok'. (
            switch_parameter-IsAtomic s param size value,
            λ h. is_allocated→eq s.session_status ok',
          )))
