-- ===== src/Device/Init/Static.antt =====
-- The JSON documents of `Process_static_quantum_architecture`: the choice of a quantum computer, and
-- its sites and their connectivity. `none` stands for FATAL, or an exception that becomes FATAL.
use qdmi_on_iqm.Base.{
  ℕ, zero, suc, not, ◌||◌, Option, none, some, List, [], ◌∷◌, ◌++◌, Bytes, codes, bytes_eq, both,
  map?, and_then, is_empty, if◌then◌else◌,
}
use qdmi_on_iqm.Base.Dict.{lookup, assign}
use qdmi_on_iqm.Json.{JsonLib, at_index}
use qdmi_on_iqm.Device.Description.{Site, Description}

abbrev pub Choice : Type 0
Choice = Bytes × Bytes

-- Each site with its index, from `id` on.
unfoldable pub sites_from : ℕ → List Bytes → List Site
sites_from id [] = []
sites_from id (name ∷ names) =
    record { name = name; id = id; t1 = 0; t2 = 0 } ∷ sites_from (suc id) names

unfoldable pub sites_map_from : ℕ → List (Bytes × ℕ) → List Bytes → List (Bytes × ℕ)
unfolding assign
sites_map_from id sites [] = sites
sites_map_from id sites (name ∷ names) = sites_map_from (suc id) (assign name id sites) names

abbrev pub both_ways : Option ℕ → Option ℕ → Option (List (ℕ × ℕ)) → Option (List (ℕ × ℕ))
both_ways (some a) (some b) (some edges) = some ((a, b) ∷ (b, a) ∷ edges)
both_ways _ _ _ = none

unfoldable pub with_edges :
    ℕ → List Bytes → List (Bytes × ℕ) → Option (List (ℕ × ℕ)) → Option Description
unfolding sites_from
with_edges num_qubits names sites_map none = none
with_edges num_qubits names sites_map (some edges) = some record {
  num_qubits = num_qubits;
  sites = sites_from 0 names;
  sites_map = sites_map;
  connectivity = edges;
  operations = [];
}

module _ (lib : JsonLib) where
  open lib use {Json, find, is_array, elements, get_string, size}

  abbrev pub string_at : Json → Bytes → Option Bytes
  string_at j key = and_then (find j key) get_string

  -- The elements of a nonempty array.
  abbrev pub nonempty_array : Option Json → Option (List Json)
  nonempty_array none = none
  nonempty_array (some j) =
      if not (is_array j) || is_empty (elements j) then none else some (elements j)

  abbrev if_same : Bytes → Option Bytes → Option Choice → Option Choice → Option Choice
  if_same wanted none found rest = none
  if_same wanted (some s) found rest = if bytes_eq s wanted then found else rest

  -- The two searches.
  choose_by_id : Bytes → List Json → Option Choice
  unfolding bytes_eq
  choose_by_id id [] = none
  choose_by_id id (qc ∷ list) =
      if_same id (string_at qc (codes "id"))
        (and_then (string_at qc (codes "alias")) λ alias. some (id, alias)) (choose_by_id id list)

  choose_by_alias : Bytes → List Json → Option Choice
  unfolding bytes_eq
  choose_by_alias alias [] = none
  choose_by_alias alias (qc ∷ list) =
      if_same alias (string_at qc (codes "alias"))
        (and_then (string_at qc (codes "id")) λ id. some (id, alias)) (choose_by_alias alias list)

  choose_first : List Json → Option Choice
  choose_first [] = none
  choose_first (qc ∷ list) =
      and_then (string_at qc (codes "id"))
        λ id. and_then (string_at qc (codes "alias")) λ alias. some (id, alias)

  choose_from : Option Bytes → Option Bytes → List Json → Option Choice
  unfolding choose_by_id choose_by_alias choose_first
  choose_from (some id) alias list = choose_by_id id list
  choose_from none (some alias) list = choose_by_alias alias list
  choose_from none none list = choose_first list

  -- The identifier and the alias of the quantum computer, from the two settings.
  unfoldable pub choose_computer : Option Bytes → Option Bytes → Option Json → Option Choice
  unfolding choose_from
  choose_computer id alias response =
      and_then (and_then response λ j. nonempty_array (find j (codes "quantum_computers")))
        (choose_from id alias)

  -- `qubits.at(i)` from `i` on, `left` times.
  unfoldable pub qubit_names : Json → ℕ → ℕ → Option (List Bytes)
  qubit_names qubits i zero = some []
  qubit_names qubits i (suc left) =
      both (and_then (at_index lib qubits i) get_string) (qubit_names qubits (suc i) left)

  abbrev pub resonator_names : Option Json → Option (List Bytes)
  resonator_names none = some []
  resonator_names (some j) = if is_array j then map? get_string (elements j) else some []

  abbrev site_at : List (Bytes × ℕ) → Json → ℕ → Option ℕ
  unfolding lookup
  site_at sites edge i = and_then (and_then (at_index lib edge i) get_string) (lookup sites)

  unfoldable pub edges_from : List (Bytes × ℕ) → List Json → Option (List (ℕ × ℕ))
  unfolding lookup
  edges_from sites [] = some []
  edges_from sites (edge ∷ edges) =
      both_ways (site_at sites edge 0) (site_at sites edge 1) (edges_from sites edges)

  -- The description without operations, from the names and the architecture.
  unfoldable pub described : ℕ → List Bytes → Option Json → Option Description
  unfolding with_edges sites_map_from edges_from
  described num_qubits names none = none
  described num_qubits names (some connectivity) =
      let sites_map = sites_map_from 0 [] names in
      with_edges num_qubits names sites_map (edges_from sites_map (elements connectivity))

  unfoldable pub read_architecture : Json → Option Description
  unfolding described qubit_names
  read_architecture j = and_then (find j (codes "qubits")) λ qubits.
      and_then (resonator_names (find j (codes "computational_resonators"))) λ resonators.
        and_then (qubit_names qubits 0 (size qubits))
          λ names. described (size qubits) (names ++ resonators) (find j (codes "connectivity"))

  abbrev pub first_of : List Json → Option Json
  first_of [] = none
  first_of (j ∷ list) = some j

  -- The first element of the array that the server sends.
  unfoldable pub static_architecture : Option Json → Option Description
  unfolding read_architecture
  static_architecture response =
      and_then (and_then (nonempty_array response) first_of) read_architecture
