-- ===== src/Server/Domains/Sound.antt =====
-- What the operations of `DomainMap` (src/collections.rs) keep. The hash of a rule stands for the
-- rule as long as no two of the rules in use have one hash: `K` is the set of the rules in use.
use smartdns_rs.Prelude.{
  All, All-snoc, Bool-cases, List, ap, inl, inr, some, subst, sym, true, ℕ, ◌∙◌, ◌≡◌, ◌⊎◌,
}
use smartdns_rs.Server.Domains.{Names, WildcardName, hash_code, is_sub, rule_base}
use smartdns_rs.Server.Domains.Map.{
  DomainMap, empty_map, get, push_wildcard, put, store_rule, value_of, wildcards_at,
}
use smartdns_rs.Server.Domains.Entries.{
  IsListed, get-put_other, get-put_self, keys-cases, snoc-IsListed, snoc-IsListed_self,
}

module _ {N L W : Type 0} (H : Names N L W) (K : WildcardName N W → Type 0) where
  abbrev pub IsApart : Type 0
  IsApart = (v w : WildcardName N W) → K v → K w → hash_code H v ≡ hash_code H w → v ≡ w

  -- A wildcard in use.
  abbrev pub IsWild : WildcardName N W → Type 0
  IsWild w = (is_sub w ≡ true) × K w

  abbrev pub HasWilds : List (ℕ × List (WildcardName N W)) → Type 0
  HasWilds ws = (k : ℕ) → All IsWild (wildcards_at ws k)

  abbrev pub IsReached : List (ℕ × List (WildcardName N W)) → WildcardName N W → Type 0
  IsReached ws w = IsListed w (wildcards_at ws (H.name_hash (rule_base w)))

  pub put-HasWilds :
      (k : ℕ) (ws : List (ℕ × List (WildcardName N W))) (b : List (WildcardName N W))
      → All IsWild b
      → HasWilds ws
      → HasWilds (put k b ws)
  put-HasWilds k ws b new old i = elim (keys-cases i k) [
    | inl same ↦
        subst (λ j. All IsWild (wildcards_at (put k b ws) j)) same (rw (get-put_self k b ws) new)
    | inr other ↦ rw (get-put_other i k b ws other) (old i)
  ]

  -- A changed bucket still has what the old one had.
  pub put-IsReached :
      (k : ℕ) (ws : List (ℕ × List (WildcardName N W))) (b : List (WildcardName N W))
      (w : WildcardName N W)
      → (IsListed w (wildcards_at ws k) → IsListed w b)
      → IsReached ws w
      → IsReached (put k b ws) w
  put-IsReached k ws b w kept old = elim (keys-cases (H.name_hash (rule_base w)) k) [
    | inl same ↦
        subst (λ j. IsListed w (wildcards_at (put k b ws) j)) same
          (rw (get-put_self k b ws)
            (kept (subst (λ j. IsListed w (wildcards_at ws j)) (sym same) old)))
    | inr other ↦ rw (get-put_other _ k b ws other) old
  ]

  module _ {T : Type 0} where
    abbrev pub IsStored : DomainMap N W T → WildcardName N W → T → Type 0
    IsStored m w v = K w × (value_of H m w ≡ some v)

    -- Rules are stored fully qualified, and a wildcard stands among those of its name.
    pub record IsSound (m : DomainMap N W T) : Type 0 where
      pub qualified :
          (w : WildcardName N W) (v : T) → IsStored m w v → H.is_fqdn (rule_base w) ≡ true
      pub reached :
          (w : WildcardName N W) (v : T)
          → IsStored m w v
          → is_sub w ≡ true
          → IsReached m.wildcards w
      pub wilds : HasWilds m.wildcards

    pub empty_map-IsSound : IsSound empty_map
    unfolding get
    empty_map-IsSound = record {
      qualified = λ w v (known, h). absurd (cc h);
      reached = λ w v (known, h) wild. absurd (cc h);
      wilds = λ k. tt;
    }

    -- A rule that is found in the new map is the new one or an old one.
    pub store_rule-cases :
        (name : WildcardName N W) (value : T) (m : DomainMap N W T) (w : WildcardName N W) (v : T)
        → IsApart
        → K name
        → IsStored (store_rule H name value m) w v
        → ((name ≡ w) × (value ≡ v)) ⊎ IsStored m w v
    unfolding store_rule
    store_rule-cases name value m w v apart known (used, h) =
        elim (keys-cases (hash_code H w) (hash_code H name)) [
          | inl same ↦
              let stored = get-put_self (hash_code H name) value m.rule_values in
              inl (apart name w known used same, cc (stored, same, h))
          | inr other ↦ inr (used, sym (get-put_other _ _ value m.rule_values other) ∙ h)
        ]

    store_rule-HasWilds :
        (name : WildcardName N W) (value : T) (m : DomainMap N W T)
        → K name
        → HasWilds m.wildcards
        → HasWilds (store_rule H name value m).wildcards
    unfolding store_rule push_wildcard
    store_rule-HasWilds name value m known old = elim (Bool-cases (is_sub name)) [
      | inl wild ↦
          let k = H.name_hash (rule_base name) in
          rw wild (put-HasWilds k m.wildcards _ (All-snoc IsWild _ (old k) (wild, known)) old)
      | inr plain ↦ rw plain old
    ]

    store_rule-IsReached :
        (name : WildcardName N W) (value : T) (m : DomainMap N W T) (w : WildcardName N W)
        → IsReached m.wildcards w
        → IsReached (store_rule H name value m).wildcards w
    unfolding store_rule push_wildcard
    store_rule-IsReached name value m w old = elim (Bool-cases (is_sub name)) [
      | inl wild ↦ rw wild (put-IsReached _ m.wildcards _ w (snoc-IsListed w name _) old)
      | inr plain ↦ rw plain old
    ]

    store_rule-IsReached_self :
        (name : WildcardName N W) (value : T) (m : DomainMap N W T)
        → is_sub name ≡ true
        → IsReached (store_rule H name value m).wildcards name
    unfolding store_rule push_wildcard
    store_rule-IsReached_self name value m wild =
        rw (wild, get-put_self (H.name_hash (rule_base name))) (snoc-IsListed_self name _)

    pub store_rule-IsSound :
        (name : WildcardName N W) (value : T) (m : DomainMap N W T)
        → IsApart
        → K name
        → H.is_fqdn (rule_base name) ≡ true
        → IsSound m
        → IsSound (store_rule H name value m)
    store_rule-IsSound name value m apart known fqdn old = record {
      qualified = λ w v stored. elim (store_rule-cases name value m w v apart known stored) [
        | inl (same, found) ↦ subst (λ r. H.is_fqdn (rule_base r) ≡ true) same fqdn
        | inr before ↦ old.qualified w v before
      ];
      reached = λ w v stored wild. elim (store_rule-cases name value m w v apart known stored) [
        | inl (same, found) ↦
            subst (λ r. IsReached (store_rule H name value m).wildcards r) same
              (store_rule-IsReached_self name value m (ap is_sub same ∙ wild))
        | inr before ↦ store_rule-IsReached name value m w (old.reached w v before wild)
      ];
      wilds = store_rule-HasWilds name value m known old.wilds;
    }
