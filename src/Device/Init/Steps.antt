-- ===== src/Device/Init/Steps.antt =====
-- The steps of an initialisation, over a world `W`: each goes on with a value, or the whole call
-- returns a status. The state of the copy is in the value, since it is lost with the copy.
use qdmi_on_iqm.Base.{◌≡◌, ◌≢◌, refl, Option, none, some, arith}
use qdmi_on_iqm.Qdmi.{QdmiStatus, success, fatal}

pub data Loaded (A : Type 0) : Type 0 where
  loaded : A → Loaded A
  refused : QdmiStatus → Loaded A

abbrev pub Step : Type 0 → Type 0 → Type 0
Step W A = W → Loaded A × W

module _ {W : Type 0} where
  abbrev pub go_on : {A B : Type 0} → Loaded A × W → (A → Step W B) → Loaded B × W
  go_on (loaded a, w) f = f a w
  go_on (refused status, w) f = (refused status, w)

  infixl 5 ◌>>=◌
  abbrev pub ◌>>=◌ : {A B : Type 0} → Step W A → (A → Step W B) → Step W B
  ◌>>=◌ m f w = go_on (m w) f

  abbrev pub pure : {A : Type 0} → A → Step W A
  pure a w = (loaded a, w)

  abbrev pub refuse : {A : Type 0} → QdmiStatus → Step W A
  refuse status w = (refused status, w)

  -- What the code reads from a document; without it, FATAL.
  abbrev pub or_fatal : {A : Type 0} → Option A → Step W A
  or_fatal none w = (refused fatal, w)
  or_fatal (some a) w = (loaded a, w)

  -- A postcondition of a step: of its value, where it goes on; otherwise the status is no success.
  abbrev pub Yields : {A : Type 0} → (A → Type 0) → Loaded A × W → Type 0
  Yields P (loaded a, w) = P a
  Yields P (refused status, w) = status ≢ success

  pub Yields-bind :
      {A B : Type 0} (P : A → Type 0) (Q : B → Type 0) (m : Loaded A × W) (f : A → Step W B)
      → Yields P m
      → ((a : A) → P a → (w : W) → Yields Q (f a w))
      → Yields Q (go_on m f)
  Yields-bind P Q (loaded a, w) f h next = next a h w
  Yields-bind P Q (refused status, w) f h next = h

  pub Yields-or_fatal :
      {A : Type 0} (P : A → Type 0) (o : Option A) (w : W)
      → ((a : A) → o ≡ some a → P a)
      → Yields P (or_fatal o w)
  Yields-or_fatal P none w h = λ same. ground arith
  Yields-or_fatal P (some a) w h = h a refl

  pub Yields-mono :
      {A : Type 0} (P Q : A → Type 0) (m : Loaded A × W)
      → Yields P m
      → ((a : A) → P a → Q a)
      → Yields Q m
  Yields-mono P Q (loaded a, w) h next = next a h
  Yields-mono P Q (refused status, w) h next = h
