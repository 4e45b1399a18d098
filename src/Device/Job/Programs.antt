-- ===== src/Device/Job/Programs.antt =====
-- The programs that are given to a job can be read back from it.
use qdmi_on_iqm.Base.{
  ℕ, zero, suc, ◌+◌, ◌-◌, ◌<◌, ◌≡◌, ◌==◌, refl, ◌⊎◌, inl, inr, ap, sym, ◌∙◌, false, Option, none,
  some, List, [], ◌∷◌, ◌++◌, Bytes, get_or, length, take, drop, any, replicate, arith,
  length-append, length-replicate, take-length_append, take_all, is_empty, leb,
}
use qdmi_on_iqm.Qdmi.{success, created, ProgramFormat, iqmjson, qirbasestring, format_eq, status_eq}
use qdmi_on_iqm.Device.Buffer.Protocol.{offer, single_value_fits}
use qdmi_on_iqm.Device.Job.{
  Job, badly_terminated, copied, copy_programs, store_programs, copy_into, job_set_programs,
  job_get_program, no_results,
}

-- A program's text with its terminator.
abbrev pub terminated : Bytes → Bytes
terminated text = text ++ 0 ∷ []

abbrev pub NoNull : Bytes → Type 0
NoNull text = any (λ c. c == 0) text ≡ false

abbrev pub NoNulls : List Bytes → Type 0
NoNulls [] = Unit
NoNulls (t ∷ texts) = NoNull t × NoNulls texts

abbrev pub pointers : List Bytes → List (Option Bytes)
pointers [] = []
pointers (t ∷ texts) = some (terminated t) ∷ pointers texts

abbrev pub sizes_of : List Bytes → List ℕ
sizes_of [] = []
sizes_of (t ∷ texts) = (length t + 1) ∷ sizes_of texts

abbrev stored : List Bytes → List Bytes
stored [] = []
stored (t ∷ texts) = terminated t ∷ stored texts

last_null : (text : Bytes) → get_or (terminated text) (length text) 0 ≡ 0
last_null [] = refl
last_null (c ∷ text) = last_null text

copied-terminated :
    (text : Bytes)
    → NoNull text
    → copied (some (terminated text)) (length text + 1) ≡ some (terminated text)
unfolding copied badly_terminated
copied-terminated text h =
    let all : take (length text + 1) (terminated text) ≡ terminated text =
      take_all (length text + 1) (terminated text) (omega (arith, length-append text (0 ∷ []))) in
    let less : length text + 1 - 1 ≡ length text = omega arith in
    let positive : (length text + 1 == 0) ≡ false = ground arith in
    rw (positive, less, last_null text, take-length_append text (0 ∷ []), h, all) refl

get_or-drop : {A : Type 0} (xs : List A) (i : ℕ) (d : A) → get_or (drop i xs) 0 d ≡ get_or xs i d
get_or-drop [] zero d = refl
get_or-drop (x ∷ xs) zero d = refl
get_or-drop [] (suc i) d = refl
get_or-drop (x ∷ xs) (suc i) d = get_or-drop xs i d

drop-suc : {A : Type 0} (xs : List A) (i : ℕ) → drop 1 (drop i xs) ≡ drop (suc i) xs
drop-suc [] zero = refl
drop-suc (x ∷ xs) zero = refl
drop-suc [] (suc i) = refl
drop-suc (x ∷ xs) (suc i) = drop-suc xs i

-- The loop from `i` on, where the rest of the two arrays is that of `texts`.
copy_programs-from :
    (texts : List Bytes) (programs : List (Option Bytes)) (sizes : List ℕ) (i : ℕ)
    → NoNulls texts
    → drop i programs ≡ pointers texts
    → drop i sizes ≡ sizes_of texts
    → copy_programs programs sizes i (length texts) ≡ some (stored texts)
unfolding copy_programs
copy_programs-from [] programs sizes i clean hp hs = refl
copy_programs-from (t ∷ texts) programs sizes i clean hp hs =
    let program : get_or programs i none ≡ some (terminated t) =
      sym (get_or-drop programs i none) ∙ ap (λ l. get_or l 0 none) hp in
    let size : get_or sizes i 0 ≡ length t + 1 =
      sym (get_or-drop sizes i 0) ∙ ap (λ l. get_or l 0 0) hs in
    let rest : copy_programs programs sizes (suc i) (length texts) ≡ some (stored texts) =
      copy_programs-from texts programs sizes (suc i) clean.1
        (sym (drop-suc programs i) ∙ ap (drop 1) hp) (sym (drop-suc sizes i) ∙ ap (drop 1) hs) in
    rw (program, size, copied-terminated t clean.0, rest) refl

get_or-stored :
    (texts : List Bytes) (i : ℕ)
    → i < length texts
    → get_or (stored texts) i [] ≡ terminated (get_or texts i [])
get_or-stored [] i h = absurd (omega arith)
get_or-stored (t ∷ texts) zero h = refl
get_or-stored (t ∷ texts) (suc i) h = get_or-stored texts i (omega arith)

-- A job with programs that are its own answers with the program at an index.
get_stored :
    {Json : Type 0} (job : Job Json) (i : ℕ) (memory text : Bytes)
    → is_empty job.results ≡ false
    → i < length job.results
    → job.retrieved ≡ false
    → get_or job.programs i [] ≡ terminated text
    → length memory ≡ length text + 1
    → job_get_program job i (offer (length text + 1) memory)
      ≡ (success, offer (length text + 1) (terminated text))
unfolding job_get_program
get_stored job i memory text some_results inside own program room =
    let bound : leb (length job.results) i ≡ false = ground arith in
    let long : length (terminated text) ≡ length text + 1 = length-append text (0 ∷ []) in
    rw (some_results, bound, own, program, sym long)
      (single_value_fits (terminated text) memory (room ∙ sym long))

-- The formats that the device takes.
pub IsSupported : ProgramFormat → Type 0
IsSupported format = (format ≡ iqmjson) ⊎ (format ≡ qirbasestring)

pub supported : IsSupported qirbasestring
unfolding IsSupported
supported = inr refl

abbrev with_programs : {Json : Type 0} → List Bytes → ProgramFormat → Job Json → Job Json
with_programs texts format job = record job {
  programs = stored texts;
  results = replicate (length texts) no_results;
  program_format = format;
}

set_programs-stored :
    {Json : Type 0} (texts : List Bytes) (format : ProgramFormat) (job : Job Json)
    → NoNulls texts
    → 0 < length texts
    → IsSupported format
    → job.status ≡ created
    → job_set_programs format (length texts) (some (sizes_of texts)) (some (pointers texts)) job
      ≡ (success, with_programs texts format job)
unfolding job_set_programs copy_into store_programs IsSupported status_eq format_eq
set_programs-stored texts format job clean positive (inl e) fresh =
    let counted : (length texts == 0) ≡ false = ground arith in
    rw
      (
        counted,
        fresh,
        e,
        copy_programs-from texts (pointers texts) (sizes_of texts) 0 clean refl refl,
      )
      refl
set_programs-stored texts format job clean positive (inr e) fresh =
    let counted : (length texts == 0) ≡ false = ground arith in
    rw
      (
        counted,
        fresh,
        e,
        copy_programs-from texts (pointers texts) (sizes_of texts) 0 clean refl refl,
      )
      refl

some_results : (n : ℕ) → 0 < n → is_empty (replicate n no_results) ≡ false
some_results zero h = absurd (omega arith)
some_results (suc n) h = refl

-- Programs without a null inside, given to a created job in a supported format, are accepted, and
-- each is read back with its terminator into memory of its size.
pub set_programs_read_back :
    {Json : Type 0} (texts : List Bytes) (format : ProgramFormat) (job : Job Json) (i : ℕ)
    (memory : Bytes)
    → NoNulls texts
    → IsSupported format
    → job.status ≡ created
    → job.retrieved ≡ false
    → i < length texts
    → length memory ≡ length (get_or texts i []) + 1
    → (let given =
          job_set_programs format
            (length texts)
            (some (sizes_of texts))
            (some (pointers texts))
            job in
        let size = length (get_or texts i []) + 1 in
        (given.0 ≡ success)
        × (job_get_program given.1 i (offer size memory)
            ≡ (success, offer size (terminated (get_or texts i [])))))
set_programs_read_back texts format job i memory clean supported fresh own inside room =
    rw (set_programs-stored texts format job clean (omega arith) supported fresh) (
      refl,
      get_stored (with_programs texts format job) i memory (get_or texts i [])
          (some_results (length texts) (omega arith))
          (omega (arith, inside, length-replicate (length texts) no_results)) own
          (get_or-stored texts i inside) room,
    )
