-- ===== src/Device/Job/Retrieve/Payload.antt =====
-- The payload of a job that the server knows.
use qdmi_on_iqm.Base.{
  ℕ, zero, suc, ◌<◌, ◌≡◌, ◌≢◌, refl, Bool, true, false, not, ◌||◌, Option, none, some, List, [],
  ◌∷◌, Bytes, codes, all, both, is_some, is_empty, length, All, arith, if_intro,
}
use qdmi_on_iqm.Qdmi.{QdmiStatus, success}
use qdmi_on_iqm.Json.{JsonLib}
use qdmi_on_iqm.Device.Job.{Job, ProgramResults}
use qdmi_on_iqm.Device.Job.Submit.{Layout, layout, refused, broken, output_layout_of}
use qdmi_on_iqm.Device.Job.Submit.Layouts.{AreFields, IsLayout, output_layout_of-IsLayout}
use qdmi_on_iqm.Device.Job.Retrieve.{
  with_layout, retrieved_results, retrieved_shots, with_payload, read_circuits, at_circuits,
  read_payload,
}

-- The results of one program before any download: none, but the fields of its output.
abbrev pub HasFields : Option (List (Bytes × ℕ)) → Type 0
HasFields none = Unit
HasFields (some fields) = AreFields fields

abbrev pub IsUnread : ProgramResults → Type 0
IsUnread r =
    (is_some r.measurement_keys ≡ false) × (is_some r.shots ≡ false) × HasFields r.output_layout

module _ (lib : JsonLib) where
  open lib use {
    Json, find, is_array, is_object, is_string, is_number_unsigned, elements, get_unsigned,
    equals_unsigned,
  }

  -- A job with these identifiers of which nothing is downloaded.
  abbrev pub IsRemote : Bytes → Job Json → Type 0
  IsRemote id job =
      (job.job_id ≡ id)
      × (job.retrieved ≡ true)
      × (0 < length job.results)
      × (0 < job.num_shots)
      × All IsUnread job.results

  abbrev pub Yields : Bytes → QdmiStatus × Option (Job Json) → Type 0
  Yields id (status, none) = status ≢ success
  Yields id (status, some job) = (status ≡ success) × IsRemote id job

  -- An unsigned number that is not equal to zero is read as another number.
  abbrev pub ReadsZero : Type 0
  ReadsZero =
      (j : Json)
      → is_number_unsigned j ≡ true
      → get_unsigned j ≡ some 0
      → equals_unsigned j 0 ≡ true

  abbrev Holds : {A : Type 0} → (A → Type 0) → Option A → Type 0
  Holds P none = Unit
  Holds P (some a) = P a

  with_layout-IsUnread : (l : Layout) → IsLayout l → Holds IsUnread (with_layout lib l)
  with_layout-IsUnread (layout fields) good = (refl, refl, good)
  with_layout-IsUnread refused good = tt
  with_layout-IsUnread broken good = tt

  IsResults : ℕ → List ProgramResults → Type 0
  IsResults n results = (length results ≡ n) × All IsUnread results

  both-IsResults :
      (n : ℕ) (r : Option ProgramResults) (rest : Option (List ProgramResults))
      → Holds IsUnread r
      → Holds (IsResults n) rest
      → Holds (IsResults (suc n)) (both r rest)
  unfolding IsResults
  both-IsResults n none rest good all_good = tt
  both-IsResults n (some r) none good all_good = tt
  both-IsResults n (some r) (some rest) good all_good = (omega arith, (good, all_good.1))

  retrieved_results-IsResults :
      (circuits : List Json) → Holds (IsResults (length circuits)) (retrieved_results lib circuits)
  unfolding retrieved_results IsResults
  retrieved_results-IsResults [] = (refl, tt)
  retrieved_results-IsResults (circuit ∷ circuits) =
      both-IsResults (length circuits) _ (retrieved_results lib circuits)
        (if_intro (Holds IsUnread) (is_object circuit)
          (λ _.
            with_layout-IsUnread (output_layout_of lib circuit)
              (output_layout_of-IsLayout lib circuit))
          (λ _. (refl, refl, tt)))
        (retrieved_results-IsResults circuits)

  shots_positive :
      (shots : Json) (n : Option ℕ)
      → ReadsZero
      → is_number_unsigned shots ≡ true
      → equals_unsigned shots 0 ≡ false
      → get_unsigned shots ≡ n
      → Holds (λ k. 0 < k) n
  shots_positive shots none law h k e = tt
  shots_positive shots (some zero) law h k e = let clash = law shots h e in ground arith
  shots_positive shots (some (suc n)) law h k e = omega arith

  retrieved_shots_positive :
      (shots : Option Json) → ReadsZero → Holds (λ k. 0 < k) (retrieved_shots lib shots)
  retrieved_shots_positive none law = tt
  retrieved_shots_positive (some shots) law =
      if_intro (Holds (λ k. 0 < k)) (not (is_number_unsigned shots) || equals_unsigned shots 0)
        (λ _. tt)
        (λ h. shots_positive shots (get_unsigned shots) law (ground arith) (ground arith) refl)

  with_payload-Yields :
      (id : Bytes) (n : ℕ) (job : Job Json) (known : Bool) (results : Option (List ProgramResults))
      (shots : Option ℕ)
      → 0 < n
      → job.job_id ≡ id
      → job.retrieved ≡ true
      → Holds (IsResults n) results
      → Holds (λ k. 0 < k) shots
      → Yields id (with_payload lib job known results shots)
  unfolding IsResults
  with_payload-Yields id n job known (some results) (some shots) many same mine good positive =
      (refl, (same, mine, omega (arith, good.0), positive, good.1))
  with_payload-Yields id n job known (some results) none many same mine good positive =
      λ h. ground arith
  with_payload-Yields id n job known none shots many same mine good positive = λ h. ground arith

  nonempty_length : (xs : List Json) → is_empty xs ≡ false → 0 < length xs
  nonempty_length [] h = ground arith
  nonempty_length (x ∷ xs) h = omega arith

  read_circuits-Yields :
      (id : Bytes) (job : Job Json) (payload circuits : Json)
      → ReadsZero
      → job.job_id ≡ id
      → job.retrieved ≡ true
      → Yields id (read_circuits lib job payload circuits)
  unfolding read_circuits
  read_circuits-Yields id job payload circuits law same mine =
      if_intro (Yields id)
        (not (is_array circuits)
          || is_empty (elements circuits)
          || not (all (λ c. is_object c || is_string c) (elements circuits)))
        (λ _. λ h. ground arith)
        (λ h.
          with_payload-Yields id (length (elements circuits)) job
            (all is_object (elements circuits)) _ _
            (nonempty_length (elements circuits) (ground arith)) same mine
            (retrieved_results-IsResults (elements circuits))
            (retrieved_shots_positive (find payload (codes "shots")) law))

  at_circuits-Yields :
      (id : Bytes) (job : Job Json) (payload : Json) (circuits : Option Json)
      → ReadsZero
      → job.job_id ≡ id
      → job.retrieved ≡ true
      → Yields id (at_circuits lib job payload circuits)
  unfolding at_circuits
  at_circuits-Yields id job payload none law same mine = λ h. ground arith
  at_circuits-Yields id job payload (some circuits) law same mine =
      read_circuits-Yields id job payload circuits law same mine

  pub read_payload-Yields :
      (id : Bytes) (job : Job Json) (payload : Option Json)
      → ReadsZero
      → job.job_id ≡ id
      → job.retrieved ≡ true
      → Yields id (read_payload lib job payload)
  unfolding read_payload
  read_payload-Yields id job none law same mine = λ h. ground arith
  read_payload-Yields id job (some payload) law same mine =
      at_circuits-Yields id job payload (find payload (codes "circuits")) law same mine
