-- ===== src/Hashring/Types.antt =====
-- internal/pkg/receive/hashrings.go: the types, and the small functions on them. The types of
-- discovery/v1 have the fields that the code reads, a pointer as an `Option`.
use thanos_operator.Common.{
  ℕ, ℤ, pos, negsuc, String, Bool, true, false, List, [], ◌∷◌, GoMap, Labels, length, take, ltb,
  nat_eq, if◌then◌else◌,
}

abbrev pub TenantMatcher : Type 0
TenantMatcher = String

abbrev pub tenant_matcher_exact : TenantMatcher
tenant_matcher_exact = "exact"

abbrev pub tenant_matcher_glob : TenantMatcher
tenant_matcher_glob = "glob"

abbrev pub HashringAlgorithm : Type 0
HashringAlgorithm = String

abbrev pub ketama : HashringAlgorithm
ketama = "ketama"

abbrev pub hashmod : HashringAlgorithm
hashmod = "hashmod"

pub record Endpoint : Type 0 where
  pub address : String
  pub capn_proto_address : String
  pub az : String

pub record HashringConfig : Type 0 where
  pub name : String
  pub tenants : List String
  pub tenant_matcher_type : TenantMatcher
  pub endpoints : List Endpoint
  pub algorithm : HashringAlgorithm
  pub external_labels : Labels

pub record HashringMeta : Type 0 where
  pub desired_replicas : ℤ
  pub config : HashringConfig

-- A map from a hashring's name; the list's order is the one in which `range` walks it.
abbrev pub HashringState : Type 0
HashringState = GoMap HashringMeta

abbrev pub Hashrings : Type 0
Hashrings = List HashringConfig

unfoldable pub meta_to_hashring : String → HashringMeta → HashringConfig
meta_to_hashring key value = record {
  name = key;
  tenants = value.config.tenants;
  tenant_matcher_type = value.config.tenant_matcher_type;
  endpoints = value.config.endpoints;
  algorithm = value.config.algorithm;
  external_labels = value.config.external_labels;
}

-- No hashring, or one hashring without endpoints.
unfoldable pub is_empty_hashring : Hashrings → Bool
is_empty_hashring [] = true
is_empty_hashring (h ∷ []) = nat_eq (length h.endpoints) 0
is_empty_hashring (h ∷ g ∷ hs) = false

module _ {ℓ} {A : Type ℓ} where
  -- `trimTo` on a target that is not negative.
  trim_to_nat : List A → ℕ → List A
  trim_to_nat s target = if ltb (length s) target then s else take target s

  unfoldable pub trim_to : List A → ℤ → List A
  unfolding trim_to_nat
  trim_to s (negsuc n) = trim_to_nat s 0
  trim_to s (pos target) = trim_to_nat s target

-- `MapToExternalLabels`, over the builder of package labels: made for a number of labels, given each
-- label in the order of the range, and read.
module _ {Builder External : Type 0} (make : ℕ → Builder)
    (add : String → String → Builder → Builder) (read : Builder → External) where
  add_all : Labels → Builder → Builder
  add_all [] builder = builder
  add_all ((k, v) ∷ m) builder = add_all m (add k v builder)

  unfoldable pub map_to_external_labels : Labels → External
  unfolding add_all
  map_to_external_labels m = read (add_all m (make (length m)))
