-- ===== src/Device/Init/Metrics.antt =====
-- The JSON document of `Process_calibration_metrics`, with `Coherence_time_in_microseconds` and
-- `Gate_has_arity`. `none` stands for an exception that becomes FATAL; the lines that the functions
-- log are left out.
use qdmi_on_iqm.Base.{
  ℕ, Bool, true, false, not, ◌&&◌, ◌||◌, Option, none, some, List, [], ◌∷◌, ◌++◌, Bytes, codes,
  bytes_eq, length, map, and_then, get_or, ◌==◌, if◌then◌else◌,
}
use qdmi_on_iqm.Base.Dict.{lookup, assign}
use qdmi_on_iqm.Json.{JsonLib}
use qdmi_on_iqm.Device.Description.{Site, Operation, Description, Doubles}
use qdmi_on_iqm.Device.Init.Static.{string_at}

abbrev pub Metrics : Type 0
Metrics = List (Bytes × ℕ)

-- 1e6, 1.0 and 2^64, which is `static_cast<double>(std::numeric_limits<uint64_t>::max())`.
abbrev pub million : ℕ
million = 0x412E_8480_0000_0000

abbrev pub one : ℕ
one = 0x3FF0_0000_0000_0000

abbrev pub two_to_64 : ℕ
two_to_64 = 0x43F0_0000_0000_0000

module _ (doubles : Doubles) where
  open doubles use {multiply, is_finite, less, to_unsigned}

  unfoldable pub coherence_time_in_microseconds : ℕ → Option ℕ
  coherence_time_in_microseconds seconds =
      let microseconds = multiply seconds million in
      if not (is_finite microseconds) || less microseconds one || not (less microseconds two_to_64)
      then none
      else some (to_unsigned microseconds)

  abbrev measured_time : ℕ → Option ℕ → ℕ
  unfolding coherence_time_in_microseconds
  measured_time old none = old
  measured_time old (some seconds) = elim (coherence_time_in_microseconds seconds) [
    | none ↦ old
    | some time ↦ time
  ]

  abbrev metric_of : Site → Bytes → Bytes
  metric_of site suffix = codes "characterization.model." ++ site.name ++ suffix

  -- The loop over the sites.
  unfoldable pub with_times : Metrics → Site → Site
  unfolding lookup coherence_time_in_microseconds
  with_times metrics site = record site {
    t1 = measured_time site.t1 (lookup metrics (metric_of site (codes ".t1_time")));
    t2 = measured_time site.t2 (lookup metrics (metric_of site (codes ".t2_time")));
  }

unfoldable pub gate_has_arity : List (List ℕ) → ℕ → Bool
gate_has_arity [] arity = false
gate_has_arity (locus ∷ loci) arity = length locus == arity

abbrev name_of : List Site → ℕ → Bytes
name_of sites i = (get_or sites i (record { name = []; id = 0; t1 = 0; t2 = 0 })).name

-- `m[key] = value` in a map by sites, or by pairs of them.
abbrev assign_by {ℓ} : {K : Type ℓ} → (K → K → Bool) → K → ℕ → List (K × ℕ) → List (K × ℕ)
assign_by eq key value [] = (key, value) ∷ []
assign_by eq key value ((k, v) ∷ entries) =
    let rest = (k, v) ∷ assign_by eq key value entries in
    if eq k key then (key, value) ∷ entries else rest

abbrev pub same_site : ℕ → ℕ → Bool
same_site a b = a == b

abbrev pub same_pair : ℕ × ℕ → ℕ × ℕ → Bool
same_pair (a, b) (c, d) = a == c && b == d

abbrev assigned {ℓ} : {K : Type ℓ} → (K → K → Bool) → K → Option ℕ → List (K × ℕ) → List (K × ℕ)
assigned eq key none entries = entries
assigned eq key (some value) entries = assign_by eq key value entries

-- The loop over the loci of a gate on one site, into the map built so far.
unfoldable pub single_fidelities_of :
    Metrics → List Site → Bytes → Bytes → List (List ℕ) → List (ℕ × ℕ) → List (ℕ × ℕ)
unfolding lookup
single_fidelities_of metrics sites prefix suffix [] found = found
single_fidelities_of metrics sites prefix suffix (locus ∷ loci) found =
    let site = get_or locus 0 0 in
    single_fidelities_of metrics sites prefix suffix loci
      (assigned same_site site (lookup metrics (prefix ++ name_of sites site ++ suffix)) found)

-- The loop over the loci of `cz`.
unfoldable pub pair_fidelities_of :
    Metrics → List Site → Bytes → List (List ℕ) → List ((ℕ × ℕ) × ℕ) → List ((ℕ × ℕ) × ℕ)
unfolding lookup
pair_fidelities_of metrics sites prefix [] found = found
pair_fidelities_of metrics sites prefix (locus ∷ loci) found =
    let first = get_or locus 0 0 in
    let second = get_or locus 1 0 in
    let key =
      prefix
      ++ name_of sites first
      ++ codes "__"
      ++ name_of sites second
      ++ codes ".fidelity:par=d2" in
    pair_fidelities_of metrics sites prefix loci
      (assigned same_pair (first, second) (lookup metrics key) found)

module _ (metrics : Metrics) (sites : List Site) where
  -- `measure` and `prx`.
  unfoldable pub with_single : Bytes → Bytes → Operation → Operation
  unfolding gate_has_arity single_fidelities_of
  with_single prefix suffix operation =
      if gate_has_arity operation.loci 1
      then record operation {
        single_fidelities = some (
            single_fidelities_of metrics sites (prefix ++ operation.implementation ++ codes ".")
              suffix operation.loci []);
      }
      else operation

  unfoldable pub with_pairs : Operation → Operation
  unfolding gate_has_arity pair_fidelities_of
  with_pairs operation =
      if gate_has_arity operation.loci 2
      then record operation {
        pair_fidelities = some (
            pair_fidelities_of metrics sites
              (codes "metrics.irb.cz." ++ operation.implementation ++ codes ".") operation.loci []);
      }
      else operation

  -- The loop over the operations.
  unfoldable pub with_fidelities : Operation → Operation
  unfolding bytes_eq with_single with_pairs
  with_fidelities operation =
      if bytes_eq operation.name (codes "measure")
      then with_single (codes "metrics.ssro.measure.") (codes ".fidelity") operation
      else if bytes_eq operation.name (codes "prx")
      then with_single (codes "metrics.rb.prx.") (codes ".fidelity:par=d2") operation
      else if bytes_eq operation.name (codes "cz")
      then with_pairs operation
      else operation

module _ (lib : JsonLib) where
  open lib use {Json, find, elements, get_string, get_double, value_bool}

  abbrev add_metric : Option Bytes → Option ℕ → Metrics → Option Metrics
  unfolding assign
  add_metric (some field) (some value) metrics = some (assign field value metrics)
  add_metric _ _ metrics = none

  -- An observation, by its member `invalid`.
  observed : Option Bool → Json → Metrics → Option Metrics
  unfolding assign
  observed none observation metrics = none
  observed (some true) observation metrics = some metrics
  observed (some false) observation metrics =
      add_metric (string_at lib observation (codes "dut_field"))
        (and_then (find observation (codes "value")) get_double) metrics

  unfoldable pub read_observations : List Json → Metrics → Option Metrics
  unfolding observed
  read_observations [] metrics = some metrics
  read_observations (observation ∷ observations) metrics =
      and_then (observed (value_bool observation (codes "invalid") false) observation metrics)
        (read_observations observations)

unfoldable pub with_metrics : Doubles → Metrics → Description → Description
unfolding with_times with_fidelities
with_metrics doubles metrics d =
    let sites = map (with_times doubles metrics) d.sites in
    record d { sites = sites; operations = map (with_fidelities metrics sites) d.operations }
