-- ===== src/Device/Init/Valid.antt =====
-- What a description satisfies, by the documents that it is read from.
pub mod Operations
use qdmi_on_iqm.Base.{
  ℕ, zero, suc, ◌+◌, ◌≤◌, ◌<◌, ◌≡◌, refl, sym, ap, ◌∙◌, Bool, true, false, not, ◌&&◌, ◌||◌, Option,
  none, some, codes, List, [], ◌∷◌, ◌++◌, Bytes, bytes_eq, length, both, map, map?, any, All,
  and_then, is_empty, arith, ◌==◌, if◌then◌else◌, if_intro, is_one_of, length-append,
}
use qdmi_on_iqm.Base.Dict.{lookup, assign}
use qdmi_on_iqm.Json.{JsonLib, at_index}
use qdmi_on_iqm.Device.Description.{Site, Operation, Description, no_description}
use qdmi_on_iqm.Device.Init.Static.{
  sites_from, sites_map_from, both_ways, edges_from, with_edges, described, qubit_names,
  resonator_names, nonempty_array, first_of, read_architecture, static_architecture,
}

-- A property of a value, where there is one.
abbrev pub Holds {ℓ} : {A : Type ℓ} → (A → Type 0) → Option A → Type 0
Holds P none = Unit
Holds P (some a) = P a

pub Holds-and_then {ℓ κ} :
    {A : Type ℓ} {B : Type κ} (P : A → Type 0) (Q : B → Type 0) (o : Option A) (f : A → Option B)
    → Holds P o
    → ((a : A) → P a → Holds Q (f a))
    → Holds Q (and_then o f)
Holds-and_then P Q none f h next = tt
Holds-and_then P Q (some a) f h next = next a h

pub Holds-any {ℓ} : {A : Type ℓ} (o : Option A) → Holds (λ _. Unit) o
Holds-any none = tt
Holds-any (some a) = tt

pub Holds-both {ℓ} :
    {A : Type ℓ} (P : A → Type 0) (o : Option A) (os : Option (List A))
    → Holds P o
    → Holds (All P) os
    → Holds (All P) (both o os)
Holds-both P none os h hs = tt
Holds-both P (some a) none h hs = tt
Holds-both P (some a) (some as_list) h hs = (h, hs)

pub Holds-map? {ℓ κ} :
    {A : Type ℓ} {B : Type κ} (P : B → Type 0) (f : A → Option B) (xs : List A)
    → ((a : A) → Holds P (f a))
    → Holds (All P) (map? f xs)
Holds-map? P f [] h = tt
Holds-map? P f (x ∷ xs) h = Holds-both P (f x) (map? f xs) (h x) (Holds-map? P f xs h)

-- Each site has its place as its index.
abbrev pub AreIndexed : ℕ → List Site → Type 0
AreIndexed i [] = Unit
AreIndexed i (site ∷ sites) = (site.id ≡ i) × AreIndexed (suc i) sites

abbrev pub has_edge : ℕ → ℕ → List (ℕ × ℕ) → Bool
has_edge a b [] = false
has_edge a b ((c, d) ∷ edges) = (a == c && b == d) || has_edge a b edges

abbrev pub IsEdge : ℕ → ℕ × ℕ → Type 0
IsEdge n (a, b) = (a < n) × (b < n)

-- The loci of an operation: at least one, all of the same size, which is not zero, and of sites.
abbrev pub AreLoci : ℕ → List (List ℕ) → Type 0
AreLoci n [] = ⊥
AreLoci n (locus ∷ loci) =
    (0 < length locus)
    × All (λ (other : List ℕ). length other ≡ length locus) loci
    × All (All (λ site. site < n)) (locus ∷ loci)

pub record IsValid (d : Description) : Type 0 where
  pub qubits : d.num_qubits ≤ length d.sites
  pub indexed : AreIndexed 0 d.sites
  pub coupled : All (IsEdge (length d.sites)) d.connectivity
  pub symmetric : (a b : ℕ) → has_edge a b d.connectivity ≡ has_edge b a d.connectivity
  pub described_loci : All (λ (o : Operation). AreLoci (length d.sites) o.loci) d.operations

unfoldable pub AreNumbered : ℕ → List (Bytes × ℕ) → Type 0
AreNumbered n sites = All (λ (e : Bytes × ℕ). e.1 < n) sites

assign-AreNumbered :
    (n : ℕ) (key : Bytes) (id : ℕ) (sites : List (Bytes × ℕ))
    → id < n
    → AreNumbered n sites
    → AreNumbered n (assign key id sites)
unfolding assign AreNumbered
assign-AreNumbered n key id [] h all_below = (h, tt)
assign-AreNumbered n key id ((k, i) ∷ sites) h all_below =
    ground (arith, assign-AreNumbered n key id sites)

pub lookup-AreNumbered :
    (n : ℕ) (sites : List (Bytes × ℕ)) (key : Bytes)
    → AreNumbered n sites
    → Holds (λ i. i < n) (lookup sites key)
unfolding lookup AreNumbered
lookup-AreNumbered n [] key h = tt
lookup-AreNumbered n ((k, i) ∷ sites) key h =
    if_intro (Holds (λ i. i < n)) (bytes_eq k key) (λ _. h.0)
      (λ _. lookup-AreNumbered n sites key h.1)

pub sites_map_from-AreNumbered :
    (n id : ℕ) (sites : List (Bytes × ℕ)) (names : List Bytes)
    → id + length names ≤ n
    → AreNumbered n sites
    → AreNumbered n (sites_map_from id sites names)
unfolding sites_map_from
sites_map_from-AreNumbered n id sites [] h numbered = numbered
sites_map_from-AreNumbered n id sites (name ∷ names) h numbered =
    sites_map_from-AreNumbered n (suc id) (assign name id sites) names (omega arith)
      (assign-AreNumbered n name id sites (omega arith) numbered)

pub sites_from-AreIndexed : (id : ℕ) (names : List Bytes) → AreIndexed id (sites_from id names)
unfolding sites_from
sites_from-AreIndexed id [] = tt
sites_from-AreIndexed id (name ∷ names) = (refl, sites_from-AreIndexed (suc id) names)

pub length-sites_from : (id : ℕ) (names : List Bytes) → length (sites_from id names) ≡ length names
unfolding sites_from
length-sites_from id [] = refl
length-sites_from id (name ∷ names) = ap suc (length-sites_from (suc id) names)

-- Edges between `n` sites, each with its reverse.
pub AreEdges : ℕ → List (ℕ × ℕ) → Type 0
AreEdges n edges = All (IsEdge n) edges × ((a b : ℕ) → has_edge a b edges ≡ has_edge b a edges)

or_twice : (p q r s t u : Bool) → p ≡ s → q ≡ t → r ≡ u → (p || (q || r)) ≡ (t || (s || u))
or_twice p q r s t u h k l = ground arith

and_comm : (p q : Bool) → (p && q) ≡ (q && p)
and_comm p q = ground arith

both_ways-AreEdges :
    (n : ℕ) (a b : Option ℕ) (edges : Option (List (ℕ × ℕ)))
    → Holds (λ i. i < n) a
    → Holds (λ i. i < n) b
    → Holds (AreEdges n) edges
    → Holds (AreEdges n) (both_ways a b edges)
unfolding AreEdges
both_ways-AreEdges n none b edges ha hb he = tt
both_ways-AreEdges n (some a) none edges ha hb he = tt
both_ways-AreEdges n (some a) (some b) none ha hb he = tt
both_ways-AreEdges n (some a) (some b) (some edges) ha hb he = (
  ((ha, hb), ((hb, ha), he.0)),
  λ x y. or_twice _ _ _ _ _ _ (and_comm (x == a) (y == b)) (and_comm (x == b) (y == a)) (he.1 x y),
)

-- A description without operations, whose map of sites has their indices.
unfoldable pub IsStatic : Description → Type 0
unfolding AreNumbered
IsStatic d = IsValid d × AreNumbered (length d.sites) d.sites_map

with_edges-IsStatic :
    (num_qubits : ℕ) (names : List Bytes) (sites_map : List (Bytes × ℕ))
    (edges : Option (List (ℕ × ℕ)))
    → num_qubits ≤ length names
    → AreNumbered (length names) sites_map
    → Holds (AreEdges (length names)) edges
    → Holds IsStatic (with_edges num_qubits names sites_map edges)
unfolding with_edges IsStatic AreEdges
with_edges-IsStatic num_qubits names sites_map none many numbered edged = tt
with_edges-IsStatic num_qubits names sites_map (some edges) many numbered edged =
    let same = length-sites_from 0 names in
    (
      record {
        qubits = omega (arith, same);
        indexed = sites_from-AreIndexed 0 names;
        coupled = rw same edged.0;
        symmetric = edged.1;
        described_loci = tt;
      },
      rw same numbered,
    )

no_numbers : (n : ℕ) → AreNumbered n []
unfolding AreNumbered
no_numbers n = tt

Holds-longer {ℓ} :
    {A : Type ℓ} (n : ℕ) (o : Option A) (os : Option (List A))
    → Holds (λ xs. length xs ≡ n) os
    → Holds (λ xs. length xs ≡ suc n) (both o os)
Holds-longer n none os h = tt
Holds-longer n (some a) none h = tt
Holds-longer n (some a) (some as_list) h = ap suc h

module _ (lib : JsonLib) where
  open lib use {Json, find, elements, size}

  site_at-Holds :
      (n : ℕ) (sites : List (Bytes × ℕ)) (name : Option Bytes)
      → AreNumbered n sites
      → Holds (λ i. i < n) (and_then name (lookup sites))
  site_at-Holds n sites none numbered = tt
  site_at-Holds n sites (some name) numbered = lookup-AreNumbered n sites name numbered

  edges_from-AreEdges :
      (n : ℕ) (sites : List (Bytes × ℕ)) (edges : List Json)
      → AreNumbered n sites
      → Holds (AreEdges n) (edges_from lib sites edges)
  unfolding edges_from AreEdges
  edges_from-AreEdges n sites [] numbered = (tt, λ a b. refl)
  edges_from-AreEdges n sites (edge ∷ edges) numbered =
      both_ways-AreEdges n _ _ _ (site_at-Holds n sites _ numbered)
        (site_at-Holds n sites _ numbered) (edges_from-AreEdges n sites edges numbered)

  described-IsStatic :
      (num_qubits : ℕ) (names : List Bytes) (connectivity : Option Json)
      → num_qubits ≤ length names
      → Holds IsStatic (described lib num_qubits names connectivity)
  unfolding described
  described-IsStatic num_qubits names none many = tt
  described-IsStatic num_qubits names (some connectivity) many =
      let numbered =
        sites_map_from-AreNumbered (length names) 0 [] names (omega arith)
          (no_numbers (length names)) in
      with_edges-IsStatic num_qubits names (sites_map_from 0 [] names) _ many numbered (
        edges_from-AreEdges (length names) (sites_map_from 0 [] names) (elements connectivity)
          numbered)

  length-qubit_names :
      (qubits : Json) (i left : ℕ)
      → Holds (λ names. length names ≡ left) (qubit_names lib qubits i left)
  unfolding qubit_names
  length-qubit_names qubits i zero = refl
  length-qubit_names qubits i (suc left) =
      Holds-longer left _ _ (length-qubit_names qubits (suc i) left)

  read_architecture-IsStatic : (j : Json) → Holds IsStatic (read_architecture lib j)
  unfolding read_architecture
  read_architecture-IsStatic j =
      let qubits_document = find j (codes "qubits") in
      let resonators_document = resonator_names lib (find j (codes "computational_resonators")) in
      Holds-and_then (λ _. Unit) IsStatic qubits_document _ (Holds-any qubits_document)
        λ qubits _.
          Holds-and_then (λ _. Unit) IsStatic resonators_document _ (Holds-any resonators_document)
            λ resonators _.
              Holds-and_then (λ names. length names ≡ size qubits) IsStatic
                (qubit_names lib qubits 0 (size qubits)) _
                (length-qubit_names qubits 0 (size qubits))
                λ names many.
                  described-IsStatic (size qubits) (names ++ resonators)
                    (find j (codes "connectivity")) (omega (arith, length-append names resonators))

  pub static_architecture-IsStatic :
      (response : Option Json) → Holds IsStatic (static_architecture lib response)
  unfolding static_architecture
  static_architecture-IsStatic response =
      let first = and_then (nonempty_array lib response) (first_of lib) in
      Holds-and_then (λ _. Unit) IsStatic first (read_architecture lib) (Holds-any first)
        (λ j _. read_architecture-IsStatic j)
