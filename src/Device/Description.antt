-- ===== src/Device/Description.antt =====
-- What a session knows of its quantum computer. A pointer to a site or an operation is its index in
-- `sites` or `operations`, and a double is its bit pattern.
use qdmi_on_iqm.Base.{ℕ, Bool, Option, List, [], Bytes}

-- `IQM_QDMI_Site_impl_d`.
pub record Site : Type 0 where
  pub name : Bytes
  pub id : ℕ
  pub t1 : ℕ
  pub t2 : ℕ

-- `IQM_QDMI_Operation_impl_d` with what the session's maps hold for it: its loci, and the fidelities
-- by a site or by a pair of sites, where there is such an entry.
pub record Operation : Type 0 where
  pub name : Bytes
  pub implementation : Bytes
  pub loci : List (List ℕ)
  pub single_fidelities : Option (List (ℕ × ℕ))
  pub pair_fidelities : Option (List ((ℕ × ℕ) × ℕ))

pub record Description : Type 0 where
  pub num_qubits : ℕ
  pub sites : List Site
  pub sites_map : List (Bytes × ℕ)
  pub connectivity : List (ℕ × ℕ)
  pub operations : List Operation

abbrev pub no_description : Description
no_description = record {
  num_qubits = 0;
  sites = [];
  sites_map = [];
  connectivity = [];
  operations = [];
}

-- The operations on doubles that the device code performs.
pub record Doubles : Type 0 where
  pub multiply : ℕ → ℕ → ℕ
  pub is_finite : ℕ → Bool
  pub less : ℕ → ℕ → Bool
  -- The conversion to `uint64_t` of a value in its range.
  pub to_unsigned : ℕ → ℕ
