-- ===== src/Server/Domains.antt =====
-- src/config/domain.rs: the name of a domain rule and the queries that it stands for. Names and
-- wildcards come from crates, behind the interface `Names`. The children have the map from rules to
-- values of src/collections.rs, and the rules of src/dns_rule.rs and src/config/domain_rule.rs.
pub mod Matching
pub mod Map
pub mod Entries
pub mod Sound
pub mod Kept
pub mod Best
pub mod Levels
pub mod Turns
pub mod Find
pub mod Ends
pub mod Answers
pub mod Others
pub mod Rules
pub mod Nodes
pub mod Sorted
pub mod Zones
pub mod Created
pub mod Settings
pub mod Lookups
pub mod Values
pub mod Context
use smartdns_rs.Prelude.{
  Bool, List, [], drop, false, if◌then◌else◌, length, not, true, ℕ, ◌&&◌, ◌↔◌, ◌∷◌, ◌≡◌, ◌≤◌,
}

-- What the source asks of the crates' names (`N`), their labels (`L`) and of wildcards (`W`), with
-- the documented behaviour of the former. The names are in lower case, where the crate's
-- comparisons with case and without agree; a name that ends in the root is fully qualified. A hash
-- has 64 bits.
pub record Names (N L W : Type 0) : Type 1 where
  -- The labels, from the left; `into_iter`.
  pub labels : N → List L
  pub is_fqdn : N → Bool
  pub is_root : N → Bool
  pub is_wildcard : N → Bool
  -- `set_fqdn(true)`
  pub fully_qualified : N → N
  pub base_name : N → N
  pub zone_of : N → N → Bool
  pub eq_ignore_root_case : N → N → Bool
  pub name_hash : N → ℕ
  -- `pattern().is_empty()`, `is_match` and the pattern of a wildcard
  pub empty_pattern : W
  pub is_empty_pattern : W → Bool
  pub pattern_is_match : W → L → Bool
  pub same_pattern : W → W → Bool
  pub same_name : N → N → Bool
  -- `hash_code` of the four constructors
  pub default_hash : N → ℕ
  pub suffix_hash : N → ℕ
  pub sub_hash : W → N → ℕ
  pub full_hash : N → ℕ
  pub labels-base_name : (n : N) → labels (base_name n) ≡ drop 1 (labels n)
  pub labels-fully_qualified : (n : N) → labels (fully_qualified n) ≡ labels n
  pub is_fqdn-fully_qualified : (n : N) → is_fqdn (fully_qualified n) ≡ true
  pub is_root-labels : (n : N) → is_fqdn n ≡ true → (is_root n ≡ true) ↔ (labels n ≡ [])
  pub zone_of_iff :
      (a b : N)
      → (zone_of a b ≡ true) ↔ ((k : ℕ) × (k ≤ length (labels b)) × (labels a ≡ drop k (labels b)))
  pub eq_ignore_root_case_iff : (a b : N) → (eq_ignore_root_case a b ≡ true) ↔ (labels a ≡ labels b)
  pub name_ext : (a b : N) → labels a ≡ labels b → is_fqdn a ≡ true → is_fqdn b ≡ true → a ≡ b
  pub eq_of_same_name : (a b : N) → same_name a b ≡ true → a ≡ b
  pub eq_of_same_pattern : (a b : W) → same_pattern a b ≡ true → a ≡ b

-- `default_rule`, `suffix`, `sub` and `full` are `Default`, `Suffix`, `Sub` and `Full`.
pub data WildcardName (N W : Type 0) : Type 0 where
  default_rule : N → WildcardName N W
  suffix : N → WildcardName N W
  sub : W → N → WildcardName N W
  full : N → WildcardName N W

module _ {N W : Type 0} where
  -- `deref`
  unfoldable pub rule_base : WildcardName N W → N
  rule_base (default_rule n) = n
  rule_base (suffix n) = n
  rule_base (sub w n) = n
  rule_base (full n) = n

  unfoldable pub is_sub : WildcardName N W → Bool
  is_sub (default_rule n) = false
  is_sub (suffix n) = false
  is_sub (sub w n) = true
  is_sub (full n) = false

  -- `deref_mut`, with what is written there.
  unfoldable pub on_base : (N → N) → WildcardName N W → WildcardName N W
  on_base f (default_rule n) = default_rule (f n)
  on_base f (suffix n) = suffix (f n)
  on_base f (sub w n) = sub w (f n)
  on_base f (full n) = full (f n)

  -- The numbers by which `cmp` orders the rules of a name.
  unfoldable pub kind_order : WildcardName N W → ℕ
  kind_order (default_rule n) = 3
  kind_order (suffix n) = 2
  kind_order (sub w n) = 1
  kind_order (full n) = 0

module _ {N L W : Type 0} (H : Names N L W) where
  unfoldable pub Wildcard_is_match : W → L → Bool
  Wildcard_is_match w input = if H.is_empty_pattern w then true else H.pattern_is_match w input

  unfoldable pub first_label_is_match : W → List L → Bool
  first_label_is_match w [] = true
  first_label_is_match w (x ∷ xs) = Wildcard_is_match w x

  unfoldable pub is_match : WildcardName N W → N → Bool
  is_match (default_rule n) name = H.zone_of n name
  is_match (suffix n) name = not (H.eq_ignore_root_case n name) && H.zone_of n name
  is_match (sub w n) name =
      H.eq_ignore_root_case n (H.base_name name) && first_label_is_match w (H.labels name)
  is_match (full n) name = H.eq_ignore_root_case n name

  unfoldable pub hash_code : WildcardName N W → ℕ
  hash_code (default_rule n) = H.default_hash n
  hash_code (suffix n) = H.suffix_hash n
  hash_code (sub w n) = H.sub_hash w n
  hash_code (full n) = H.full_hash n

  -- `PartialEq`
  unfoldable pub same_rule : WildcardName N W → WildcardName N W → Bool
  same_rule (default_rule a) (default_rule b) = H.same_name a b
  same_rule (suffix a) (suffix b) = H.same_name a b
  same_rule (sub v a) (sub w b) = H.same_pattern v w && H.same_name a b
  same_rule (full a) (full b) = H.same_name a b
  same_rule a b = false

  -- `From<Name>`
  unfoldable pub from_name : N → WildcardName N W
  from_name value =
      if H.is_wildcard value then sub H.empty_pattern (H.base_name value) else default_rule value
