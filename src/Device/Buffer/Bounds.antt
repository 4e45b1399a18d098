-- ===== src/Device/Buffer/Bounds.antt =====
-- What a query may write: never past the size that the caller gave, and nothing on an error.
use qdmi_on_iqm.Base.{
  ℕ, zero, suc, ◌+◌, ◌-◌, ◌≤◌, ◌≡◌, ◌≢◌, refl, Option, none, some, List, [], ◌∷◌, ◌++◌, Bytes,
  length, length-append, length-replicate, length-drop, drop, replicate, ltb, arith, if_intro,
}
use qdmi_on_iqm.Qdmi.{QdmiStatus, success, invalidargument}
use qdmi_on_iqm.Http.Number.{c_str}
use qdmi_on_iqm.Device.Buffer.{
  Out, overwrite, copy_string, store_size, plain_value, string_bytes, single_value, string_value,
  list_value, joined,
}

-- The memory behind the pointer holds the `size` bytes that the caller promises.
abbrev pub HasRoom : ℕ → Option Bytes → Type 0
HasRoom size none = Unit
HasRoom size (some memory) = size ≤ length memory

-- The memory after a call: as long as before, and unchanged past `size`.
pub Kept : ℕ → Option Bytes → Option Bytes → Type 0
Kept size none after = after ≡ none
Kept size (some memory) after =
    (written : Bytes) × (after ≡ some written)
    × (length written ≡ length memory)
    × (drop size written ≡ drop size memory)

pub Respects : Out → QdmiStatus × Out → Type 0
unfolding Kept
Respects before (status, after) =
    (after.size ≡ before.size)
    × Kept before.size before.value after.value
    × (status ≢ success → after ≡ before)

drop-overwrite :
    (payload memory : Bytes) (n : ℕ)
    → length payload ≤ n
    → n ≤ length memory
    → drop n (overwrite payload memory) ≡ drop n memory
unfolding overwrite
drop-overwrite [] memory n h room = refl
drop-overwrite (x ∷ payload) memory zero h room = absurd (omega arith)
drop-overwrite (x ∷ payload) [] (suc n) h room = absurd (omega arith)
drop-overwrite (x ∷ payload) (y ∷ memory) (suc n) h room =
    drop-overwrite payload memory n (omega arith) (omega arith)

length-overwrite :
    (payload memory : Bytes)
    → length payload ≤ length memory
    → length (overwrite payload memory) ≡ length memory
unfolding overwrite
length-overwrite payload memory h = omega (
  arith,
  h,
  length-append payload (drop (length payload) memory),
  length-drop (length payload) memory,
)

Kept-refl : (size : ℕ) (value : Option Bytes) → Kept size value value
unfolding Kept
Kept-refl size none = refl
Kept-refl size (some memory) = (memory, refl, refl, refl)

Kept-overwrite :
    (payload memory : Bytes) (size : ℕ)
    → length payload ≤ size
    → size ≤ length memory
    → Kept size (some memory) (some (overwrite payload memory))
unfolding Kept
Kept-overwrite payload memory size h room = (
  overwrite payload memory,
  refl,
  length-overwrite payload memory (omega arith),
  drop-overwrite payload memory size h room,
)

pub Respects-error : (status : QdmiStatus) (out : Out) → Respects out (status, out)
unfolding Respects
Respects-error status out = (refl, Kept-refl out.size out.value, λ h. refl)

-- A success that stored the size and left `after` at the pointer.
Respects-success :
    (n size : ℕ) (before after : Option Bytes) (size_ret : Option ℕ)
    → Kept size before after
    → Respects
        (record { size = size; value = before; size_ret = size_ret })
        (success, store_size n (record { size = size; value = after; size_ret = size_ret }))
unfolding Respects store_size
Respects-success n size before after none k = (refl, k, λ h. absurd (h refl))
Respects-success n size before after (some old) k = (refl, k, λ h. absurd (h refl))

plain_value-Respects :
    (payload : Bytes) (size : ℕ) (value : Option Bytes) (size_ret : Option ℕ)
    → HasRoom size value
    → (let out : Out = record { size = size; value = value; size_ret = size_ret } in
        Respects out (plain_value payload out value))
unfolding plain_value
plain_value-Respects payload size none size_ret room =
    Respects-success (length payload) size none none size_ret (Kept-refl size none)
plain_value-Respects payload size (some memory) size_ret room =
    let out : Out = record { size = size; value = some memory; size_ret = size_ret } in
    if_intro (Respects out) (ltb size (length payload)) (λ h. Respects-error invalidargument out)
      (λ h.
        Respects-success (length payload) size (some memory) (some (overwrite payload memory))
          size_ret (Kept-overwrite payload memory size (ground arith) room))

length-copy :
    (text : Bytes) (size : ℕ)
    → length text + 1 ≤ size
    → length (text ++ replicate (size - length text) 0) ≡ size
length-copy text size h = omega (
  arith,
  h,
  length-append text (replicate (size - length text) 0),
  length-replicate {A = ℕ} (size - length text) 0,
)

Kept-copy_string :
    (text memory : Bytes) (size : ℕ)
    → length text + 1 ≤ size
    → size ≤ length memory
    → Kept size (some memory) (some (copy_string text size memory))
unfolding copy_string
Kept-copy_string text memory size h room =
    Kept-overwrite (text ++ replicate (size - length text) 0) memory size
      (omega (arith, length-copy text size h)) room

string_bytes-Respects :
    (text : Bytes) (size : ℕ) (value : Option Bytes) (size_ret : Option ℕ)
    → HasRoom size value
    → (let out : Out = record { size = size; value = value; size_ret = size_ret } in
        Respects out (string_bytes text out value))
unfolding string_bytes
string_bytes-Respects text size none size_ret room =
    Respects-success (length text + 1) size none none size_ret (Kept-refl size none)
string_bytes-Respects text size (some memory) size_ret room =
    let out : Out = record { size = size; value = some memory; size_ret = size_ret } in
    if_intro (Respects out) (ltb size (length text + 1)) (λ h. Respects-error invalidargument out)
      (λ h.
        Respects-success (length text + 1) size (some memory) (some (copy_string text size memory))
          size_ret (Kept-copy_string text memory size (ground arith) room))

pub single_value-Respects :
    (payload : Bytes) (out : Out)
    → HasRoom out.size out.value
    → Respects out (single_value payload out)
unfolding single_value
single_value-Respects payload out room =
    plain_value-Respects payload out.size out.value out.size_ret room

pub string_value-Respects :
    (text : Bytes) (out : Out) → HasRoom out.size out.value → Respects out (string_value text out)
unfolding string_value
string_value-Respects text out room =
    string_bytes-Respects (c_str text) out.size out.value out.size_ret room

-- Where the memory holds the promised size, a query keeps its length and every byte past that
-- size, and an answer that is not success changes neither the memory nor the returned size.
pub query_in_bounds :
    (payload text : Bytes) (elements : List Bytes) (out : Out)
    → HasRoom out.size out.value
    → Respects out (single_value payload out)
      × Respects out (list_value elements out)
      × Respects out (string_value text out)
unfolding list_value
query_in_bounds payload text elements out room = (
  single_value-Respects payload out room,
  plain_value-Respects (joined elements) out.size out.value out.size_ret room,
  string_value-Respects text out room,
)
