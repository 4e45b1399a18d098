-- ===== src/Device/Init/Gates.antt =====
-- The JSON documents of `Process_calibrated_gates`, and `Loci_are_describable`. `none` stands for
-- FATAL, or an exception that becomes FATAL.
use qdmi_on_iqm.Base.{
  ℕ, Bool, true, false, not, ◌&&◌, ◌||◌, Option, none, some, List, [], ◌∷◌, Bytes, codes, bytes_eq,
  is_one_of, length, map?, any, and_then, is_empty, ◌==◌, if◌then◌else◌,
}
use qdmi_on_iqm.Base.Dict.{lookup}
use qdmi_on_iqm.Json.{JsonLib}
use qdmi_on_iqm.Device.Description.{Operation}
use qdmi_on_iqm.Device.Init.Static.{string_at}

-- Without the lines that it logs.
unfoldable pub loci_are_describable : List (List ℕ) → Bool
loci_are_describable [] = false
loci_are_describable (locus ∷ loci) =
    not (length locus == 0)
    && not (any (λ other. not (length other == length locus)) (locus ∷ loci))

abbrev pub unsupported_gates : List Bytes
unsupported_gates = codes "cc_prx" ∷ codes "reset_wait" ∷ codes "measure_fidelity" ∷ []

abbrev pub is_requested : Option Bytes → Bytes → Bool
is_requested none id = true
is_requested (some wanted) id = bytes_eq id wanted

-- An operation, where its loci can be described.
unfoldable pub registered : Bytes → Bytes → List (List ℕ) → List Operation → List Operation
unfolding loci_are_describable
registered name implementation loci operations =
    if loci_are_describable loci
    then record {
      name = name;
      implementation = implementation;
      loci = loci;
      single_fidelities = none;
      pair_fidelities = none;
    }
      ∷ operations
    else operations

unfoldable pub with_gate :
    Bytes
    → Option Bytes
    → Option (List (List ℕ))
    → Option (List Operation)
    → Option (List Operation)
unfolding registered
with_gate name (some implementation) (some loci) (some operations) =
    some (registered name implementation loci operations)
with_gate name _ _ _ = none

module _ (lib : JsonLib) where
  open lib use {Json, find, elements, items, get_string}

  -- The calibration set that the server resolved, as the session accepts it.
  unfoldable pub resolved_calibration : Option Bytes → Json → Option Bytes
  unfolding bytes_eq
  resolved_calibration requested j =
      and_then (string_at lib j (codes "calibration_set_id"))
        λ id. if is_empty id || not (is_requested requested id) then none else some id

  abbrev pub site_named : List (Bytes × ℕ) → Json → Option ℕ
  site_named sites j = and_then (get_string j) (lookup sites)

  unfoldable pub read_locus : List (Bytes × ℕ) → Json → Option (List ℕ)
  unfolding lookup
  read_locus sites j = map? (site_named sites) (elements j)

  abbrev pub loci_document : Json → Bytes → Option Json
  loci_document details implementation =
      and_then (find details (codes "implementations"))
        λ all. and_then (find all implementation) λ one. find one (codes "loci")

  unfoldable pub read_loci : List (Bytes × ℕ) → Json → Option Bytes → Option (List (List ℕ))
  unfolding read_locus
  read_loci sites details none = none
  read_loci sites details (some implementation) =
      and_then (loci_document details implementation)
        λ loci. map? (read_locus sites) (elements loci)

  -- The loop over the gates.
  unfoldable pub read_gates : List (Bytes × ℕ) → List (Bytes × Json) → Option (List Operation)
  unfolding read_loci is_one_of with_gate
  read_gates sites [] = some []
  read_gates sites ((name, details) ∷ gates) =
      let operations = read_gates sites gates in
      let implementation = string_at lib details (codes "default_implementation") in
      if is_one_of name unsupported_gates
      then operations
      else with_gate name implementation (read_loci sites details implementation) operations

  unfoldable pub gates_of : List (Bytes × ℕ) → Option Json → Option (List Operation)
  unfolding read_gates
  gates_of sites none = none
  gates_of sites (some gates) = read_gates sites (items gates)

  abbrev pub with_calibration :
      Option Bytes → Option (List Operation) → Option (Bytes × List Operation)
  with_calibration (some id) (some operations) = some (id, operations)
  with_calibration _ _ = none

  -- The calibration set and the operations of a document.
  unfoldable pub read_dynamic_architecture :
      Option Bytes → List (Bytes × ℕ) → Json → Option (Bytes × List Operation)
  unfolding resolved_calibration gates_of
  read_dynamic_architecture requested sites j =
      with_calibration (resolved_calibration requested j) (gates_of sites (find j (codes "gates")))
