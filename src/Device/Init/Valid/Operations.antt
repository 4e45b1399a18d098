-- ===== src/Device/Init/Valid/Operations.antt =====
-- The operations of a description, and what the quality metrics leave of it.
use qdmi_on_iqm.Base.{
  ℕ, suc, ◌<◌, ◌≡◌, refl, ap, Bool, true, false, not, ◌||◌, Option, none, some, List, [], ◌∷◌,
  Bytes, codes, bytes_eq, length, map, map?, any, All, and_then, is_empty, is_one_of, arith, ◌==◌,
  if◌then◌else◌, if_intro,
}
use qdmi_on_iqm.Base.Dict.{lookup}
use qdmi_on_iqm.Json.{JsonLib}
use qdmi_on_iqm.Device.Description.{Site, Operation, Description, Doubles}
use qdmi_on_iqm.Device.Init.Static.{string_at}
use qdmi_on_iqm.Device.Init.Gates.{
  loci_are_describable, registered, with_gate, unsupported_gates, is_requested,
  resolved_calibration, site_named, read_locus, read_loci, loci_document, read_gates, gates_of,
  with_calibration, read_dynamic_architecture,
}
use qdmi_on_iqm.Device.Init.Metrics.{
  Metrics, with_times, with_single, with_pairs, with_fidelities, with_metrics, gate_has_arity,
}
use qdmi_on_iqm.Device.Init.Valid.{
  Holds, Holds-and_then, Holds-any, Holds-map?, AreIndexed, AreLoci, IsValid, AreNumbered,
  lookup-AreNumbered,
}

same_sizes :
    (n : ℕ) (loci : List (List ℕ))
    → any (λ (other : List ℕ). not (length other == n)) loci ≡ false
    → All (λ (other : List ℕ). length other ≡ n) loci
same_sizes n [] h = tt
same_sizes n (other ∷ loci) h = (ground arith, same_sizes n loci (ground arith))

abbrev AreSites : ℕ → List (List ℕ) → Type 0
AreSites n loci = All (λ (locus : List ℕ). All (λ site. site < n) locus) loci

describable-AreLoci :
    (n : ℕ) (loci : List (List ℕ))
    → loci_are_describable loci ≡ true
    → AreSites n loci
    → AreLoci n loci
unfolding loci_are_describable
describable-AreLoci n [] h sites = ground arith
describable-AreLoci n (locus ∷ loci) h sites =
    (ground arith, same_sizes (length locus) loci (ground arith), sites)

abbrev pub AreOperations : ℕ → List Operation → Type 0
AreOperations n operations = All (λ (o : Operation). AreLoci n o.loci) operations

registered-AreOperations :
    (n : ℕ) (name implementation : Bytes) (loci : List (List ℕ)) (operations : List Operation)
    → AreSites n loci
    → AreOperations n operations
    → AreOperations n (registered name implementation loci operations)
unfolding registered
registered-AreOperations n name implementation loci operations sites good =
    if_intro (AreOperations n) (loci_are_describable loci)
      (λ fine. (describable-AreLoci n loci fine sites, good)) (λ _. good)

with_gate-AreOperations :
    (n : ℕ) (name : Bytes) (implementation : Option Bytes) (loci : Option (List (List ℕ)))
    (operations : Option (List Operation))
    → Holds (AreSites n) loci
    → Holds (AreOperations n) operations
    → Holds (AreOperations n) (with_gate name implementation loci operations)
unfolding with_gate
with_gate-AreOperations n name (some implementation) (some loci) (some operations) sites good =
    registered-AreOperations n name implementation loci operations sites good
with_gate-AreOperations n name none loci operations sites good = tt
with_gate-AreOperations n name (some implementation) none operations sites good = tt
with_gate-AreOperations n name (some implementation) (some loci) none sites good = tt

accepted : (empty fine : Bool) → (empty || not fine) ≡ false → (empty ≡ false) × (fine ≡ true)
accepted empty fine h = ground arith

-- The calibration set is the requested one, where there is such a request, and never empty.
abbrev pub IsResolved : Option Bytes → Bytes → Type 0
IsResolved requested id = (is_empty id ≡ false) × (is_requested requested id ≡ true)

abbrev pub IsDynamic : ℕ → Option Bytes → Bytes × List Operation → Type 0
IsDynamic n requested (id, operations) = IsResolved requested id × AreOperations n operations

module _ (lib : JsonLib) (n : ℕ) (sites : List (Bytes × ℕ)) (numbered : AreNumbered n sites) where
  open lib use {Json, find, elements, items, get_string}

  site_named-Holds : (j : Json) → Holds (λ i. i < n) (site_named lib sites j)
  site_named-Holds j =
      Holds-and_then (λ _. Unit) (λ i. i < n) (get_string j) (lookup sites)
        (Holds-any (get_string j)) (λ name _. lookup-AreNumbered n sites name numbered)

  read_locus-Holds : (j : Json) → Holds (All (λ i. i < n)) (read_locus lib sites j)
  unfolding read_locus
  read_locus-Holds j = Holds-map? (λ i. i < n) (site_named lib sites) (elements j) site_named-Holds

  read_loci-Holds :
      (details : Json) (implementation : Option Bytes)
      → Holds (AreSites n) (read_loci lib sites details implementation)
  unfolding read_loci
  read_loci-Holds details none = tt
  read_loci-Holds details (some implementation) =
      let document = loci_document lib details implementation in
      Holds-and_then (λ _. Unit) (AreSites n) document
        (λ loci. map? (read_locus lib sites) (elements loci)) (Holds-any document)
        (λ loci _.
          Holds-map? (All (λ i. i < n)) (read_locus lib sites) (elements loci) read_locus-Holds)

  read_gates-AreOperations :
      (gates : List (Bytes × Json)) → Holds (AreOperations n) (read_gates lib sites gates)
  unfolding read_gates
  read_gates-AreOperations [] = tt
  read_gates-AreOperations ((name, details) ∷ gates) =
      let implementation = string_at lib details (codes "default_implementation") in
      if_intro (Holds (AreOperations n)) (is_one_of name unsupported_gates)
        (λ _. read_gates-AreOperations gates)
        (λ _.
          with_gate-AreOperations n name implementation (read_loci lib sites details implementation)
            (read_gates lib sites gates) (read_loci-Holds details implementation)
            (read_gates-AreOperations gates))

  gates_of-AreOperations :
      (gates : Option Json) → Holds (AreOperations n) (gates_of lib sites gates)
  unfolding gates_of
  gates_of-AreOperations none = tt
  gates_of-AreOperations (some gates) = read_gates-AreOperations (items gates)

  accepted-IsResolved :
      (requested : Option Bytes) (id : Option Bytes)
      → Holds (IsResolved requested) (
          and_then id
            λ id. if is_empty id || not (is_requested requested id) then none else some id)
  accepted-IsResolved requested none = tt
  accepted-IsResolved requested (some id) =
      if_intro (Holds (IsResolved requested)) (is_empty id || not (is_requested requested id))
        (λ _. tt) (λ fine. accepted (is_empty id) (is_requested requested id) fine)

  with_calibration-IsDynamic :
      (requested : Option Bytes) (id : Option Bytes) (operations : Option (List Operation))
      → Holds (IsResolved requested) id
      → Holds (AreOperations n) operations
      → Holds (IsDynamic n requested) (with_calibration lib id operations)
  with_calibration-IsDynamic requested (some id) (some operations) h k = (h, k)
  with_calibration-IsDynamic requested none operations h k = tt
  with_calibration-IsDynamic requested (some id) none h k = tt

  pub read_dynamic_architecture-IsDynamic :
      (requested : Option Bytes) (j : Json)
      → Holds (IsDynamic n requested) (read_dynamic_architecture lib requested sites j)
  unfolding read_dynamic_architecture resolved_calibration
  read_dynamic_architecture-IsDynamic requested j =
      with_calibration-IsDynamic requested _ _
        (accepted-IsResolved requested (string_at lib j (codes "calibration_set_id")))
        (gates_of-AreOperations (find j (codes "gates")))

AreIndexed-map :
    (doubles : Doubles) (metrics : Metrics) (i : ℕ) (sites : List Site)
    → AreIndexed i sites
    → (length (map (with_times doubles metrics) sites) ≡ length sites)
      × AreIndexed i (map (with_times doubles metrics) sites)
unfolding with_times
AreIndexed-map doubles metrics i [] h = (refl, tt)
AreIndexed-map doubles metrics i (site ∷ sites) h =
    let rest = AreIndexed-map doubles metrics (suc i) sites h.1 in (ap suc rest.0, (h.0, rest.1))

abbrev SameLoci : Operation → Operation → Type 0
SameLoci old new = new.loci ≡ old.loci

module _ (metrics : Metrics) (sites : List Site) where
  with_single-loci :
      (prefix suffix : Bytes) (o : Operation)
      → SameLoci o (with_single metrics sites prefix suffix o)
  unfolding with_single
  with_single-loci prefix suffix o =
      if_intro (SameLoci o) (gate_has_arity o.loci 1) (λ _. refl) (λ _. refl)

  with_pairs-loci : (o : Operation) → SameLoci o (with_pairs metrics sites o)
  unfolding with_pairs
  with_pairs-loci o = if_intro (SameLoci o) (gate_has_arity o.loci 2) (λ _. refl) (λ _. refl)

  with_fidelities-loci : (o : Operation) → SameLoci o (with_fidelities metrics sites o)
  unfolding with_fidelities
  with_fidelities-loci o =
      if_intro (SameLoci o) (bytes_eq o.name (codes "measure"))
        (λ _. with_single-loci (codes "metrics.ssro.measure.") (codes ".fidelity") o)
        (λ _.
          if_intro (SameLoci o) (bytes_eq o.name (codes "prx"))
            (λ _. with_single-loci (codes "metrics.rb.prx.") (codes ".fidelity:par=d2") o)
            (λ _.
              if_intro (SameLoci o) (bytes_eq o.name (codes "cz")) (λ _. with_pairs-loci o)
                (λ _. refl)))

  AreOperations-map :
      (n : ℕ) (operations : List Operation)
      → AreOperations n operations
      → AreOperations n (map (with_fidelities metrics sites) operations)
  AreOperations-map n [] h = tt
  AreOperations-map n (o ∷ operations) h =
      (rw (with_fidelities-loci o) h.0, AreOperations-map n operations h.1)

-- The metrics of a calibration set keep the description valid.
pub with_metrics-IsValid :
    (doubles : Doubles) (metrics : Metrics) (d : Description)
    → IsValid d
    → IsValid (with_metrics doubles metrics d)
unfolding with_metrics
with_metrics-IsValid doubles metrics d valid =
    let sites = map (with_times doubles metrics) d.sites in
    let kept = AreIndexed-map doubles metrics 0 d.sites valid.indexed in
    record {
      qubits = omega (arith, kept.0, valid.qubits);
      indexed = kept.1;
      coupled = rw kept.0 valid.coupled;
      symmetric = valid.symmetric;
      described_loci =
          rw kept.0
            (AreOperations-map metrics sites (length d.sites) d.operations valid.described_loci);
    }
