-- ===== src/Server/Domains/Values.antt =====
-- What `find` of src/collections.rs gives is a stored value, whatever the map holds.
use smartdns_rs.Prelude.{
  Bool-cases, List, Option, [], if_false, if_true, if◌then◌else◌, inl, inr, length, none, some, suc,
  sym, zero, ℕ, ◌*◌, ◌+◌, ◌∙◌, ◌∷◌, ◌≡◌,
}
use smartdns_rs.Server.Domains.{
  Names, WildcardName, default_rule, full, hash_code, is_match, suffix,
}
use smartdns_rs.Server.Domains.Map.{
  DomainMap, asked, at_level, find, find_from, first_wildcard, get, no_rules, or_else, value_of,
  wildcards_at,
}
use smartdns_rs.Server.Domains.Best.{or_else-some}

-- A value that is stored in the map.
abbrev pub IsValue : {N W T : Type 0} → DomainMap N W T → T → Type 0
IsValue m v = (k : ℕ) × (get k m.rule_values ≡ some v)

module _ {N L W : Type 0} (H : Names N L W) {T : Type 0} (m : DomainMap N W T) where
  either-IsValue :
      (o p : Option T) (v : T)
      → (o ≡ some v → IsValue m v)
      → (p ≡ some v → IsValue m v)
      → or_else o p ≡ some v
      → IsValue m v
  either-IsValue o p v left right found = elim (or_else-some o p v found) [
    | inl here ↦ left here
    | inr (absent, there) ↦ right there
  ]

  two-IsValue :
      (a b : WildcardName N W) (v : T)
      → or_else (value_of H m a) (value_of H m b) ≡ some v
      → IsValue m v
  two-IsValue a b v =
      either-IsValue (value_of H m a) (value_of H m b) v (λ h. (hash_code H a, h))
        (λ h. (hash_code H b, h))

  first_wildcard-IsValue :
      (last : N) (ws : List (WildcardName N W)) (v : T)
      → first_wildcard H m last ws ≡ some v
      → IsValue m v
  unfolding first_wildcard
  first_wildcard-IsValue last [] v found = absurd (cc found)
  first_wildcard-IsValue last (w ∷ ws) v found =
      either-IsValue (if is_match H w last then value_of H m w else none)
        (first_wildcard H m last ws) v
        (λ here. elim (Bool-cases (is_match H w last)) [
          | inl matched ↦ (hash_code H w, sym (if_true _ matched _ _) ∙ here)
          | inr other ↦ absurd (cc (here, if_false _ other (value_of H m w) none))
        ])
        (first_wildcard-IsValue last ws v) found

  at_level-IsValue :
      (k : ℕ) (last name : N) (v : T) → at_level H m k last name ≡ some v → IsValue m v
  unfolding at_level
  at_level-IsValue zero last name v found = two-IsValue (full name) (default_rule name) v found
  at_level-IsValue (suc zero) last name v found =
      either-IsValue (first_wildcard H m last (wildcards_at m.wildcards (H.name_hash name)))
        (or_else (value_of H m (suffix name)) (value_of H m (default_rule name))) v
        (first_wildcard-IsValue last (wildcards_at m.wildcards (H.name_hash name)) v)
        (two-IsValue (suffix name) (default_rule name) v) found
  at_level-IsValue (suc (suc k)) last name v found =
      two-IsValue (suffix name) (default_rule name) v found

  find_from-IsValue :
      (fuel k : ℕ) (last name : N) (v : T) → find_from H fuel m k last name ≡ some v → IsValue m v
  unfolding find_from
  find_from-IsValue zero k last name v found = absurd (cc found)
  find_from-IsValue (suc fuel) k last name v found =
      let again = find_from H fuel m k last (H.fully_qualified name) in
      let next = find_from H fuel m (suc k) name (H.base_name name) in
      let above = if H.is_root name then none else next in
      either-IsValue (at_level H m k last name) (if H.is_fqdn name then above else again) v
        (at_level-IsValue k last name v)
        (λ later. elim (Bool-cases (H.is_fqdn name)) [
          | inr bare ↦
              find_from-IsValue fuel k last (H.fully_qualified name) v
                (sym (if_false (H.is_fqdn name) bare above again) ∙ later)
          | inl fqdn ↦
              let up = sym (if_true (H.is_fqdn name) fqdn above again) ∙ later in
              elim (Bool-cases (H.is_root name)) [
                | inl root ↦ absurd (cc (up, if_true (H.is_root name) root none next))
                | inr inner ↦
                    find_from-IsValue fuel (suc k) name (H.base_name name) v
                      (sym (if_false (H.is_root name) inner none next) ∙ up)
              ]
        ])
        found

  pub find-IsValue : (name : N) (v : T) → find H m name ≡ some v → IsValue m v
  unfolding find
  find-IsValue name v found =
      let q = asked H name in
      let all = find_from H (2 * length (H.labels q) + 2) m 0 q q in
      elim (Bool-cases (no_rules H m)) [
        | inl empty ↦ absurd (cc (found, if_true (no_rules H m) empty none all))
        | inr filled ↦
            find_from-IsValue (2 * length (H.labels q) + 2) 0 q q v
              (sym (if_false (no_rules H m) filled none all) ∙ found)
      ]
