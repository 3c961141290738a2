-- ===== src/Server/Domains/Map.antt =====
-- src/collections.rs: `DomainMap` and `DomainSet`. A `HashMap` is a list of its entries, each key
-- once.
use smartdns_rs.Prelude.{
  Bool, List, Option, [], false, if◌then◌else◌, keep_if, length, none, not, some, suc, true, zero,
  ℕ, ◌*◌, ◌++◌, ◌+◌, ◌==◌, ◌∷◌,
}
use smartdns_rs.Server.QueryLog.{unwrap_or}
use smartdns_rs.Server.Domains.{
  Names, WildcardName, default_rule, full, hash_code, is_match, is_sub, on_base, rule_base,
  same_rule, suffix,
}

-- `get`, `insert` and `remove` of a `HashMap`.
unfoldable pub get : {T : Type 0} → ℕ → List (ℕ × T) → Option T
get k [] = none
get k ((j, v) ∷ es) = if j == k then some v else get k es

unfoldable pub put : {T : Type 0} → ℕ → T → List (ℕ × T) → List (ℕ × T)
put k v [] = (k, v) ∷ []
put k v ((j, u) ∷ es) = if j == k then (k, v) ∷ es else (j, u) ∷ put k v es

unfoldable pub drop_key : {T : Type 0} → ℕ → List (ℕ × T) → List (ℕ × T)
drop_key k [] = []
drop_key k ((j, u) ∷ es) = let rest = drop_key k es in if j == k then rest else (j, u) ∷ rest

abbrev pub or_else {ℓ} : {A : Type ℓ} → Option A → Option A → Option A
or_else none rest = rest
or_else (some a) rest = some a

pub record DomainMap (N W T : Type 0) : Type 0 where
  pub rule_values : List (ℕ × T)
  pub wildcards : List (ℕ × List (WildcardName N W))

-- `default`
abbrev pub empty_map : {N W T : Type 0} → DomainMap N W T
empty_map = record { rule_values = []; wildcards = [] }

abbrev pub is_some {ℓ} : {A : Type ℓ} → Option A → Bool
is_some none = false
is_some (some a) = true

module _ {N W : Type 0} where
  -- `wildcards.get(&hash)`, with no wildcards where there is no entry.
  abbrev pub wildcards_at : List (ℕ × List (WildcardName N W)) → ℕ → List (WildcardName N W)
  wildcards_at ws k = unwrap_or (get k ws) []

module _ {N L W : Type 0} (H : Names N L W) where
  abbrev pub asked : N → N
  asked name = if H.is_wildcard name then H.base_name name else name

  -- `entry(hash).or_default().push(name)`
  unfoldable pub push_wildcard :
      WildcardName N W → List (ℕ × List (WildcardName N W)) → List (ℕ × List (WildcardName N W))
  push_wildcard name ws =
      let k = H.name_hash (rule_base name) in put k (wildcards_at ws k ++ name ∷ []) ws

  unfoldable pub retain_others :
      WildcardName N W → List (ℕ × List (WildcardName N W)) → List (ℕ × List (WildcardName N W))
  retain_others name ws =
      let k = H.name_hash (rule_base name) in
      put k (keep_if (λ n. not (same_rule H n name)) (wildcards_at ws k)) ws

module _ {N L W : Type 0} (H : Names N L W) {T : Type 0} where
  abbrev pub value_of : DomainMap N W T → WildcardName N W → Option T
  value_of m w = get (hash_code H w) m.rule_values

  -- The loop over the wildcards of a name.
  unfoldable pub first_wildcard : DomainMap N W T → N → List (WildcardName N W) → Option T
  first_wildcard m last [] = none
  first_wildcard m last (w ∷ ws) =
      or_else (if is_match H w last then value_of m w else none) (first_wildcard m last ws)

  -- The four tests of a turn of the loop.
  unfoldable pub at_level : DomainMap N W T → ℕ → N → N → Option T
  at_level m zero last name = or_else (value_of m (full name)) (value_of m (default_rule name))
  at_level m (suc zero) last name =
      or_else (first_wildcard m last (wildcards_at m.wildcards (H.name_hash name)))
        (or_else (value_of m (suffix name)) (value_of m (default_rule name)))
  at_level m (suc (suc lvl)) last name =
      or_else (value_of m (suffix name)) (value_of m (default_rule name))

  -- The loop, which `fuel` bounds.
  unfoldable pub find_from : ℕ → DomainMap N W T → ℕ → N → N → Option T
  find_from zero m lvl last name = none
  find_from (suc fuel) m lvl last name =
      let again = find_from fuel m lvl last (H.fully_qualified name) in
      let next = find_from fuel m (suc lvl) name (H.base_name name) in
      or_else (at_level m lvl last name)
        (if H.is_fqdn name then if H.is_root name then none else next else again)

  abbrev pub no_rules : DomainMap N W T → Bool
  no_rules m = length m.rule_values == 0

  -- Two turns for each label, and two for the root.
  unfoldable pub find : DomainMap N W T → N → Option T
  find m name =
      if no_rules m
      then none
      else find_from (2 * length (H.labels (asked H name)) + 2) m 0 (asked H name) (asked H name)

  unfoldable pub contains : DomainMap N W T → N → Bool
  contains m domain = is_some (find m domain)

  -- The part of `insert` and of `from_iter` that stores a rule.
  unfoldable pub store_rule : WildcardName N W → T → DomainMap N W T → DomainMap N W T
  store_rule name value m = record {
    rule_values = put (hash_code H name) value m.rule_values;
    wildcards = if is_sub name then push_wildcard H name m.wildcards else m.wildcards;
  }

  -- The map after, and the value that the rule had before.
  unfoldable pub insert : WildcardName N W → T → DomainMap N W T → DomainMap N W T × Option T
  insert into value m =
      let name = on_base H.fully_qualified into in (store_rule name value m, value_of m name)

  unfoldable pub remove : WildcardName N W → DomainMap N W T → DomainMap N W T × Option T
  remove name m = (
    record {
      rule_values = drop_key (hash_code H name) m.rule_values;
      wildcards = if is_sub name then retain_others H name m.wildcards else m.wildcards;
    },
    value_of m name,
  )

  unfoldable pub store_all : DomainMap N W T → List (WildcardName N W × T) → DomainMap N W T
  store_all m [] = m
  store_all m ((n, v) ∷ es) = store_all (store_rule n v m) es

  unfoldable pub from_iter : List (WildcardName N W × T) → DomainMap N W T
  from_iter es = store_all empty_map es
