-- ===== src/Device/Results/Stages.antt =====
-- What is stored of a job's results: the counts of all programs or of none, and then the shots of
-- all of them or of none.
use qdmi_on_iqm.Base.{
  ℕ, suc, zero, ◌<◌, ◌≡◌, refl, ap, ◌⊎◌, inl, inr, Bool, true, false, not, all, is_empty, ◌||◌,
  ◌&&◌, Option, none, some, List, [], ◌∷◌, Bytes, length, All, get_or, is_some, both,
  length-replicate, arith, ◌==◌, if_intro,
}
use mathlib.Core.Path.{subst}
use qdmi_on_iqm.Json.{JsonLib}
use qdmi_on_iqm.Device.Job.{ProgramResults, no_results}
use qdmi_on_iqm.Device.Results.Counts.{Entry, read_entries, counts_artifact, commit_counts}
use qdmi_on_iqm.Device.Results.Shots.{programs_shots, shots_artifact, commit_shots, keys_of_program}

-- Whether each program has its counts, and its shots.
abbrev pub AllAre : Bool → Bool → List ProgramResults → Type 0
AllAre counted complete results =
    All
      (λ (r : ProgramResults).
        (is_some r.measurement_keys ≡ counted) × (is_some r.shots ≡ complete))
      results

abbrev pub IsCounted : List ProgramResults → Type 0
IsCounted results = AllAre true false results ⊎ AllAre true true results

abbrev pub IsStaged : List ProgramResults → Type 0
IsStaged results = AllAre false false results ⊎ IsCounted results

pub AllAre-at :
    (counted complete : Bool) (results : List ProgramResults) (index : ℕ)
    → index < length results
    → AllAre counted complete results
    → (is_some (get_or results index no_results).measurement_keys ≡ counted)
      × (is_some (get_or results index no_results).shots ≡ complete)
AllAre-at counted complete [] index h are = absurd (omega arith)
AllAre-at counted complete (r ∷ results) zero h are = are.0
AllAre-at counted complete (r ∷ results) (suc index) h are =
    AllAre-at counted complete results index (omega arith) are.1

clash : {A : Type 0} {b : Bool} → b ≡ true → b ≡ false → A
clash p q = ground arith

pub IsCounted-at :
    (results : List ProgramResults) (index : ℕ)
    → index < length results
    → IsStaged results
    → is_some (get_or results index no_results).measurement_keys ≡ true
    → IsCounted results
IsCounted-at results index h (inl are) found =
    clash found (AllAre-at false false results index h are).0
IsCounted-at results index h (inr counted) found = counted

pub uncounted_at :
    (results : List ProgramResults) (index : ℕ)
    → index < length results
    → IsStaged results
    → is_some (get_or results index no_results).measurement_keys ≡ false
    → AllAre false false results
uncounted_at results index h (inl are) missing = are
uncounted_at results index h (inr (inl are)) missing =
    clash (AllAre-at true false results index h are).0 missing
uncounted_at results index h (inr (inr are)) missing =
    clash (AllAre-at true true results index h are).0 missing

pub complete_at :
    (results : List ProgramResults) (index : ℕ)
    → index < length results
    → IsStaged results
    → is_some (get_or results index no_results).shots ≡ true
    → AllAre true true results
complete_at results index h (inl are) found =
    clash found (AllAre-at false false results index h are).1
complete_at results index h (inr (inl are)) found =
    clash found (AllAre-at true false results index h are).1
complete_at results index h (inr (inr are)) found = are

pub counts_at :
    (results : List ProgramResults) (index : ℕ)
    → index < length results
    → IsCounted results
    → is_some (get_or results index no_results).measurement_keys ≡ true
counts_at results index h (inl are) = (AllAre-at true false results index h are).0
counts_at results index h (inr are) = (AllAre-at true true results index h are).0

pub commit_counts-AllAre :
    (counted complete : Bool) (results : List ProgramResults) (entries : List Entry)
    → length entries ≡ length results
    → AllAre counted complete results
    → (length (commit_counts results entries) ≡ length results)
      × AllAre true complete (commit_counts results entries)
unfolding commit_counts
commit_counts-AllAre counted complete [] [] h are = (refl, tt)
commit_counts-AllAre counted complete [] (entry ∷ entries) h are = absurd (omega arith)
commit_counts-AllAre counted complete (r ∷ results) [] h are = absurd (omega arith)
commit_counts-AllAre counted complete (r ∷ results) ((keys, counts) ∷ entries) h are =
    let rest = commit_counts-AllAre counted complete results entries (omega arith) are.1 in
    (ap suc rest.0, ((refl, are.0.1), rest.1))

commit_shots-AllAre :
    (counted complete : Bool) (results : List ProgramResults) (shots : List (List Bytes))
    → length shots ≡ length results
    → AllAre counted complete results
    → (length (commit_shots results shots) ≡ length results)
      × AllAre counted true (commit_shots results shots)
unfolding commit_shots
commit_shots-AllAre counted complete [] [] h are = (refl, tt)
commit_shots-AllAre counted complete [] (s ∷ shots) h are = absurd (omega arith)
commit_shots-AllAre counted complete (r ∷ results) [] h are = absurd (omega arith)
commit_shots-AllAre counted complete (r ∷ results) (s ∷ shots) h are =
    let rest = commit_shots-AllAre counted complete results shots (omega arith) are.1 in
    (ap suc rest.0, ((are.0.0, refl), rest.1))

pub commit_shots_complete :
    (results : List ProgramResults) (shots : List (List Bytes))
    → length shots ≡ length results
    → IsCounted results
    → (length (commit_shots results shots) ≡ length results)
      × AllAre true true (commit_shots results shots)
commit_shots_complete results shots h (inl are) = commit_shots-AllAre true false results shots h are
commit_shots_complete results shots h (inr are) = commit_shots-AllAre true true results shots h are

-- A list of results has the length `n`, where there is one.
abbrev pub HasLength {ℓ} : {A : Type ℓ} → ℕ → Option (List A) → Type 0
HasLength n none = Unit
HasLength n (some xs) = length xs ≡ n

HasLength-both {ℓ} :
    {A : Type ℓ} (n : ℕ) (x : Option A) (xs : Option (List A))
    → HasLength n xs
    → HasLength (suc n) (both x xs)
HasLength-both n none xs h = tt
HasLength-both n (some x) none h = tt
HasLength-both n (some x) (some xs) h = ap suc h

same_length : (a : Bool) (m n : ℕ) → (not a || not (m == n)) ≡ false → m ≡ n
same_length a m n h = ground arith

module _ (lib : JsonLib) where
  open lib use {Json, elements, is_array}

  read_entries-HasLength :
      (circuits : List Json) (results : List ProgramResults)
      → HasLength (length circuits) (read_entries lib circuits results)
  unfolding read_entries
  read_entries-HasLength [] results = refl
  read_entries-HasLength (circuit ∷ circuits) [] = tt
  read_entries-HasLength (circuit ∷ circuits) (r ∷ results) =
      HasLength-both (length circuits) _ _ (read_entries-HasLength circuits results)

  pub counts_artifact-HasLength :
      (results : List ProgramResults) (artifact : Option Json)
      → HasLength (length results) (counts_artifact lib results artifact)
  unfolding counts_artifact
  counts_artifact-HasLength results none = tt
  counts_artifact-HasLength results (some artifact) =
      if_intro (HasLength (length results))
        (not (is_array artifact) || not (length (elements artifact) == length results)) (λ _. tt)
        (λ fits.
          subst (λ n. HasLength n (read_entries lib (elements artifact) results))
            (same_length (is_array artifact) (length (elements artifact)) (length results) fits)
            (read_entries-HasLength (elements artifact) results))

  programs_shots-HasLength :
      (retrieved : Bool) (n : ℕ) (results : List ProgramResults) (artifact : List Json)
      → HasLength (length results) (programs_shots lib retrieved n results artifact)
  unfolding programs_shots
  programs_shots-HasLength retrieved n [] artifact = refl
  programs_shots-HasLength retrieved n (r ∷ results) [] = tt
  programs_shots-HasLength retrieved n (r ∷ results) (m ∷ artifact) =
      HasLength-both (length results) _ _ (programs_shots-HasLength retrieved n results artifact)

  pub shots_artifact-HasLength :
      (retrieved : Bool) (n : ℕ) (results : List ProgramResults) (artifact : Option Json)
      → HasLength (length results) (shots_artifact lib retrieved n results artifact)
  unfolding shots_artifact
  shots_artifact-HasLength retrieved n results none = tt
  shots_artifact-HasLength retrieved n results (some artifact) =
      let circuits = elements artifact in
      let blank = λ (r : ProgramResults). is_empty (keys_of_program r) in
      if_intro (HasLength (length results))
        (not (is_array artifact)
          || (not (is_empty circuits) && not (length circuits == length results)))
        (λ _. tt)
        (λ _.
          if_intro (HasLength (length results)) (is_empty circuits && not (all blank results))
            (λ _. tt)
            (λ _.
              if_intro (HasLength (length results)) (is_empty circuits)
                (λ _. length-replicate (length results) [])
                (λ _. programs_shots-HasLength retrieved n results circuits)))
