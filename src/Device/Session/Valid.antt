-- ===== src/Device/Session/Valid.antt =====
-- What a session's settings satisfy, whatever calls set them.
use qdmi_on_iqm.Base.{
  ℕ, suc, ◌-◌, ◌^◌, ◌≤◌, ◌<◌, ◌≡◌, ◌⊎◌, Bool, true, false, ◌||◌, not, ◌==◌, Option, none, some,
  List, [], ◌∷◌, Bytes, length, take, get_or, length-take, All, arith, if_intro, ltb,
}
use qdmi_on_iqm.Qdmi.{QdmiStatus}
use qdmi_on_iqm.Device.Buffer.Bounds.{HasRoom}
use qdmi_on_iqm.Device.Session.{
  Session, SessionParameter, baseurl, token, authfile, custom1, custom2, custom3, custom4,
  other_parameter, invalid_parameter, new_session, from_bytes, uuid_character, canonical,
  set_calibration, set_timeout, set_value, without_value, switch_parameter, session_set_parameter,
  empty_value, is_invalid, is_allocated, Setting, set_all,
}

-- A lower-case hexadecimal digit or a hyphen.
pub IsUuidCharacter : ℕ → Type 0
IsUuidCharacter c = (c ≡ b'-') ⊎ (b'0' ≤ c × c ≤ b'9') ⊎ (b'a' ≤ c × c ≤ b'f')

pub IsIdentifier : Option Bytes → Type 0
unfolding IsUuidCharacter
IsIdentifier none = Unit
IsIdentifier (some id) = (length id ≡ 36) × All IsUuidCharacter id

-- The timeout is positive and fits a signed count of 64 bits; the calibration set identifier is 36
-- characters of which none can change the path of a URL.
pub IsConfigured : Session → Type 0
unfolding IsIdentifier
IsConfigured s =
    (0 < s.request_timeout)
    × (s.request_timeout < 2 ^ 63)
    × IsIdentifier s.requested_calibration_set_id

-- Every value lies in memory of the size that its call states.
abbrev pub AreReadable : List Setting → Type 0
AreReadable calls = All (λ call. HasRoom call.size call.value) calls

uuid_character-IsUuidCharacter : (index c : ℕ) → uuid_character index c ≡ true → IsUuidCharacter c
unfolding uuid_character IsUuidCharacter
uuid_character-IsUuidCharacter index c h = ground arith

canonical-All : (index : ℕ) (id : Bytes) → canonical index id ≡ true → All IsUuidCharacter id
unfolding canonical
canonical-All index [] h = tt
canonical-All index (c ∷ id) h = (
  uuid_character-IsUuidCharacter index c (ground arith),
  canonical-All (suc index) id (ground arith),
)

calibration_accepted :
    (size last : ℕ) (fine : Bool)
    → (not (size == 37) || not (last == 0) || not fine) ≡ false
    → (size ≡ 37) × (fine ≡ true)
calibration_accepted size last true h = ground arith
calibration_accepted size last false h = ground arith

set_calibration-IsConfigured :
    (s : Session) (size : ℕ) (memory : Bytes)
    → size ≤ length memory
    → IsConfigured s
    → IsConfigured (set_calibration s size memory).1
unfolding set_calibration IsConfigured IsIdentifier
set_calibration-IsConfigured s size memory room h =
    if_intro (λ (r : QdmiStatus × Session). IsConfigured r.1)
      (not (size == 37) || not (get_or memory 36 0 == 0) || not (canonical 0 (take 36 memory)))
      (λ no. h)
      (λ ok.
        let (long, fine) =
          calibration_accepted size (get_or memory 36 0) (canonical 0 (take 36 memory)) ok in
        (
          h.0,
          h.1,
          (omega (arith, length-take 36 memory, room, long), canonical-All 0 (take 36 memory) fine),
        ))

set_timeout-IsConfigured :
    (s : Session) (size : ℕ) (memory : Bytes)
    → IsConfigured s
    → IsConfigured (set_timeout s size memory).1
unfolding set_timeout IsConfigured
set_timeout-IsConfigured s size memory h =
    if_intro (λ (r : QdmiStatus × Session). IsConfigured r.1)
      (not (size == 8)
        || from_bytes (take 8 memory) == 0
        || ltb (2 ^ 63 - 1) (from_bytes (take 8 memory)))
      (λ no. h) (λ ok. (ground arith, ground arith, h.2))

set_value-IsConfigured :
    (s : Session) (param : SessionParameter) (size : ℕ) (memory : Bytes)
    → size ≤ length memory
    → IsConfigured s
    → IsConfigured (set_value s param size memory).1
unfolding set_value IsConfigured
set_value-IsConfigured s baseurl size memory room h = h
set_value-IsConfigured s token size memory room h = h
set_value-IsConfigured s authfile size memory room h = h
set_value-IsConfigured s custom1 size memory room h = h
set_value-IsConfigured s custom2 size memory room h = h
set_value-IsConfigured s custom3 size memory room h = set_timeout-IsConfigured s size memory h
set_value-IsConfigured s custom4 size memory room h =
    set_calibration-IsConfigured s size memory room h
set_value-IsConfigured s other_parameter size memory room h = h
set_value-IsConfigured s invalid_parameter size memory room h = h

without_value-IsConfigured :
    (s : Session) (param : SessionParameter)
    → IsConfigured s
    → IsConfigured (without_value s param).1
unfolding without_value
without_value-IsConfigured s baseurl h = h
without_value-IsConfigured s token h = h
without_value-IsConfigured s authfile h = h
without_value-IsConfigured s custom1 h = h
without_value-IsConfigured s custom2 h = h
without_value-IsConfigured s custom3 h = h
without_value-IsConfigured s custom4 h = h
without_value-IsConfigured s other_parameter h = h
without_value-IsConfigured s invalid_parameter h = h

switch_parameter-IsConfigured :
    (s : Session) (param : SessionParameter) (size : ℕ) (value : Option Bytes)
    → HasRoom size value
    → IsConfigured s
    → IsConfigured (switch_parameter s param size value).1
unfolding switch_parameter
switch_parameter-IsConfigured s param size none room h = without_value-IsConfigured s param h
switch_parameter-IsConfigured s param size (some memory) room h =
    set_value-IsConfigured s param size memory room h

session_set_parameter-IsConfigured :
    (param : SessionParameter) (size : ℕ) (value : Option Bytes) (s : Session)
    → HasRoom size value
    → IsConfigured s
    → IsConfigured (session_set_parameter param size value s).1
unfolding session_set_parameter
session_set_parameter-IsConfigured param size value s room h =
    if_intro (λ (r : QdmiStatus × Session). IsConfigured r.1)
      (empty_value size value || is_invalid param) (λ no. h)
      (λ ok.
        if_intro (λ (r : QdmiStatus × Session). IsConfigured r.1)
          (not (is_allocated s.session_status)) (λ no. h)
          (λ ok'. switch_parameter-IsConfigured s param size value room h))

set_all_from :
    (calls : List Setting) (s : Session)
    → AreReadable calls
    → IsConfigured s
    → IsConfigured (set_all calls s)
unfolding set_all
set_all_from [] s readable h = h
set_all_from (call ∷ calls) s readable h =
    set_all_from calls (session_set_parameter call.param call.size call.value s).1 readable.1
      (session_set_parameter-IsConfigured call.param call.size call.value s readable.0 h)

-- After any calls of set_parameter on a new session, each with a readable value, the request
-- timeout is positive and below 2 ^ 63, and a requested calibration set identifier has 36
-- characters, each a lower-case hexadecimal digit or a hyphen.
pub set_all-IsConfigured :
    (calls : List Setting) → AreReadable calls → IsConfigured (set_all calls new_session)
unfolding IsConfigured IsIdentifier
set_all-IsConfigured calls readable =
    set_all_from calls new_session readable (omega arith, omega arith, tt)
