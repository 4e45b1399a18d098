-- ===== src/Device/Query/Operation.antt =====
-- `IQM_QDMI_device_session_query_operation_property`.
use qdmi_on_iqm.Base.{
  ℕ, Bool, true, false, not, ◌&&◌, ◌||◌, Option, none, some, List, [], ◌∷◌, Bytes, codes, bytes_eq,
  length, get_or, any, concat, is_some, is_empty, reverse, ◌==◌, if◌then◌else◌,
}
use qdmi_on_iqm.Qdmi.{QdmiStatus, invalidargument, notsupported}
use qdmi_on_iqm.Device.Buffer.{Out, le_bytes, single_value, string_value, list_value}
use qdmi_on_iqm.Device.Description.{Operation}
use qdmi_on_iqm.Device.Session.{empty_value}
use qdmi_on_iqm.Device.Query.{Numbers, bytes_of_sites}

pub data OperationProperty : Type 0 where
  operation_name qubits_number sites_list parameters_number fidelity : OperationProperty
  other_operation_property invalid_operation_property : OperationProperty

abbrev is_invalid_operation_property : OperationProperty → Bool
is_invalid_operation_property invalid_operation_property = true
is_invalid_operation_property _ = false

-- The caller's sites and parameters; `none` is a null pointer. There are `count` of them.
pub record Given : Type 0 where
  pub num_sites : ℕ
  pub given_sites : Option (List ℕ)
  pub num_params : ℕ
  pub has_params : Bool

abbrev same_locus : List ℕ → List ℕ → Bool
same_locus [] [] = true
same_locus (a ∷ locus) (b ∷ other) = a == b && same_locus locus other
same_locus _ _ = false

unfoldable pub is_locus : List ℕ → List (List ℕ) → Bool
is_locus sites loci = any (same_locus sites) loci

-- Whether the operation acts on the sites, in either order where it has no direction.
unfoldable pub acts_on : Bytes → ℕ → List (List ℕ) → List ℕ → Bool
unfolding bytes_eq is_locus
acts_on name arity loci sites =
    is_locus sites loci
    || (arity == 2 && not (bytes_eq name (codes "move")) && is_locus (reverse sites) loci)

unfoldable pub params_of : Bytes → ℕ
unfolding bytes_eq
params_of name =
    if bytes_eq name (codes "prx") then 2 else if bytes_eq name (codes "prx_12") then 1 else 0

abbrev find_by {ℓ} : {K : Type ℓ} → (K → Bool) → List (K × ℕ) → Option ℕ
find_by is [] = none
find_by is ((k, v) ∷ entries) = if is k then some v else find_by is entries

-- In the order of the sites, or in the other.
abbrev or_else : Option ℕ → Option ℕ → Option ℕ
or_else none second = second
or_else (some a) second = some a

unfoldable pub pair_fidelity : List ((ℕ × ℕ) × ℕ) → ℕ → ℕ → Option ℕ
pair_fidelity entries a b =
    or_else (find_by (λ (k : ℕ × ℕ). k.0 == a && k.1 == b) entries)
      (find_by (λ (k : ℕ × ℕ). k.0 == b && k.1 == a) entries)

fidelity_value : OperationProperty → Option ℕ → Out → QdmiStatus × Out
unfolding le_bytes single_value
fidelity_value fidelity (some value) out = single_value (le_bytes 8 value) out
fidelity_value _ _ out = (notsupported, out)

single_value_of :
    OperationProperty → Option (List ℕ) → Option (List (ℕ × ℕ)) → Out → QdmiStatus × Out
unfolding fidelity_value
single_value_of prop (some sites) (some entries) out =
    fidelity_value prop (find_by (λ k. k == get_or sites 0 0) entries) out
single_value_of prop _ _ out = (notsupported, out)

pair_value_of :
    OperationProperty → Option (List ℕ) → Option (List ((ℕ × ℕ) × ℕ)) → Out → QdmiStatus × Out
unfolding fidelity_value pair_fidelity
pair_value_of prop (some sites) (some entries) out =
    fidelity_value prop (pair_fidelity entries (get_or sites 0 0) (get_or sites 1 0)) out
pair_value_of prop _ _ out = (notsupported, out)

-- The end of the function, on the fidelities.
fidelity_of : OperationProperty → Operation → ℕ → Option (List ℕ) → Out → QdmiStatus × Out
unfolding single_value_of pair_value_of
fidelity_of prop o arity sites out =
    if arity == 1
    then single_value_of prop sites o.single_fidelities out
    else if arity == 2
    then pair_value_of prop sites o.pair_fidelities out
    else (notsupported, out)

-- From the number of parameters on.
by_parameters : OperationProperty → Operation → ℕ → Given → Out → QdmiStatus × Out
unfolding params_of fidelity_of le_bytes single_value
by_parameters parameters_number o arity given out = single_value (le_bytes 8 (params_of o.name)) out
by_parameters prop o arity given out =
    if given.has_params && not (given.num_params == params_of o.name)
    then (invalidargument, out)
    else fidelity_of prop o arity given.given_sites out

abbrev are_wrong : Option (List ℕ) → Operation → ℕ → Bool
are_wrong none o arity = false
are_wrong (some sites) o arity = not (acts_on o.name arity o.loci sites)

-- From the number of the operation's sites on.
by_sites : Numbers → OperationProperty → Operation → ℕ → Given → Out → QdmiStatus × Out
unfolding by_parameters acts_on le_bytes list_value
by_sites numbers sites_list o arity given out =
    if is_some given.given_sites && not (given.num_sites == arity)
    then (invalidargument, out)
    else list_value (bytes_of_sites numbers (concat o.loci)) out
by_sites numbers prop o arity given out =
    if is_some given.given_sites && not (given.num_sites == arity)
    then (invalidargument, out)
    else if are_wrong given.given_sites o arity
    then (invalidargument, out)
    else by_parameters prop o arity given out

described_value : Numbers → OperationProperty → Operation → Given → Out → QdmiStatus × Out
unfolding by_sites string_value le_bytes single_value
described_value numbers operation_name o given out = string_value o.name out
described_value numbers qubits_number o given out =
    single_value (le_bytes 8 (length (get_or o.loci 0 []))) out
described_value numbers prop o given out =
    by_sites numbers prop o (length (get_or o.loci 0 [])) given out

abbrev is_unsound : OperationProperty → Given → Out → Bool
is_unsound prop given out =
    (is_some given.given_sites && given.num_sites == 0)
    || (given.has_params && given.num_params == 0)
    || empty_value out.size out.value
    || is_invalid_operation_property prop

-- The session is not null. `none` is a null operation, or one that the session does not have.
unfoldable pub query_operation_property :
    Numbers → OperationProperty → Option Operation → Given → Out → QdmiStatus × Out
unfolding described_value
query_operation_property numbers prop none given out = (invalidargument, out)
query_operation_property numbers prop (some o) given out =
    if is_unsound prop given out || is_empty o.loci
    then (invalidargument, out)
    else described_value numbers prop o given out
