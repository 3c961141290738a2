-- ===== src/Server/Domains/Kept.antt =====
-- `insert`, `remove` and `from_iter` of src/collections.rs keep a map sound.
use smartdns_rs.Prelude.{
  All, All-keep_if, Bool-cases, List, [], ap, arith, inl, inr, not, sym, true, ℕ, ◌∙◌, ◌∷◌, ◌≡◌,
  ◌≢◌,
}
use smartdns_rs.Server.Domains.{
  Names, WildcardName, default_rule, full, hash_code, is_sub, on_base, rule_base, same_rule, sub,
  suffix,
}
use smartdns_rs.Server.Domains.Map.{
  DomainMap, empty_map, from_iter, insert, remove, retain_others, store_all, store_rule,
  wildcards_at,
}
use smartdns_rs.Server.Domains.Entries.{
  get-drop_key_other, get-drop_key_self, keep_if-IsListed, keys-cases,
}
use smartdns_rs.Server.Domains.Sound.{
  HasWilds, IsApart, IsReached, IsSound, IsStored, IsWild, empty_map-IsSound, put-HasWilds,
  put-IsReached, store_rule-IsSound,
}

module _ {N L W : Type 0} (H : Names N L W) where
  -- The fully qualified form of a rule.
  abbrev pub qualified_rule : WildcardName N W → WildcardName N W
  qualified_rule = on_base H.fully_qualified

  is_fqdn-qualified_rule : (w : WildcardName N W) → H.is_fqdn (rule_base (qualified_rule w)) ≡ true
  unfolding on_base rule_base
  is_fqdn-qualified_rule (default_rule n) = H.is_fqdn-fully_qualified n
  is_fqdn-qualified_rule (suffix n) = H.is_fqdn-fully_qualified n
  is_fqdn-qualified_rule (sub w n) = H.is_fqdn-fully_qualified n
  is_fqdn-qualified_rule (full n) = H.is_fqdn-fully_qualified n

  -- Names that compare equal are one name.
  eq_of_same_rule : (v w : WildcardName N W) → same_rule H v w ≡ true → v ≡ w
  unfolding same_rule
  eq_of_same_rule (default_rule a) (default_rule b) h = ap default_rule (H.eq_of_same_name a b h)
  eq_of_same_rule (suffix a) (suffix b) h = ap suffix (H.eq_of_same_name a b h)
  eq_of_same_rule (full a) (full b) h = ap full (H.eq_of_same_name a b h)
  eq_of_same_rule (sub v a) (sub w b) h =
      let names = H.eq_of_same_name a b (ground (arith, h)) in
      let patterns = H.eq_of_same_pattern v w (ground (arith, h)) in cc (names, patterns)
  eq_of_same_rule (default_rule a) (suffix b) h = absurd (cc h)
  eq_of_same_rule (default_rule a) (sub w b) h = absurd (cc h)
  eq_of_same_rule (default_rule a) (full b) h = absurd (cc h)
  eq_of_same_rule (suffix a) (default_rule b) h = absurd (cc h)
  eq_of_same_rule (suffix a) (sub w b) h = absurd (cc h)
  eq_of_same_rule (suffix a) (full b) h = absurd (cc h)
  eq_of_same_rule (sub v a) (default_rule b) h = absurd (cc h)
  eq_of_same_rule (sub v a) (suffix b) h = absurd (cc h)
  eq_of_same_rule (sub v a) (full b) h = absurd (cc h)
  eq_of_same_rule (full a) (default_rule b) h = absurd (cc h)
  eq_of_same_rule (full a) (suffix b) h = absurd (cc h)
  eq_of_same_rule (full a) (sub w b) h = absurd (cc h)

  module _ (K : WildcardName N W → Type 0) where
    retain_others-HasWilds :
        (name : WildcardName N W) (ws : List (ℕ × List (WildcardName N W)))
        → HasWilds H K ws
        → HasWilds H K (retain_others H name ws)
    unfolding retain_others
    retain_others-HasWilds name ws old =
        let k = H.name_hash (rule_base name) in
        put-HasWilds H K k ws _ (All-keep_if (IsWild H K) _ (wildcards_at ws k) (old k)) old

    retain_others-IsReached :
        (name w : WildcardName N W) (ws : List (ℕ × List (WildcardName N W)))
        → w ≢ name
        → IsReached H K ws w
        → IsReached H K (retain_others H name ws) w
    unfolding retain_others
    retain_others-IsReached name w ws other old =
        let test : not (same_rule H w name) ≡ true = elim (Bool-cases (same_rule H w name)) [
          | inl same ↦ absurd (other (eq_of_same_rule w name same))
          | inr different ↦ ap not different
        ] in
        put-IsReached H K _ ws _ w (keep_if-IsListed _ w _ test) old

    module _ {T : Type 0} where
      pub insert-IsSound :
          (into : WildcardName N W) (value : T) (m : DomainMap N W T)
          → IsApart H K
          → K (qualified_rule into)
          → IsSound H K m
          → IsSound H K (insert H into value m).0
      unfolding insert
      insert-IsSound into value m apart known old =
          store_rule-IsSound H K (qualified_rule into) value m apart known
            (is_fqdn-qualified_rule into) old

      -- What is left after a removal was there before, and is another rule.
      remove-cases :
          (name : WildcardName N W) (m : DomainMap N W T) (w : WildcardName N W) (v : T)
          → IsStored H K (remove H name m).0 w v
          → (w ≢ name) × IsStored H K m w v
      unfolding remove
      remove-cases name m w v (used, h) = elim (keys-cases (hash_code H w) (hash_code H name)) [
        | inl same ↦
            let gone = get-drop_key_self (hash_code H name) m.rule_values in
            absurd (cc (same, gone, h))
        | inr other ↦ (
          λ same. other (sym (ap (hash_code H) same)),
          (used, sym (get-drop_key_other _ _ m.rule_values other) ∙ h),
        )
      ]

      remove-HasWilds :
          (name : WildcardName N W) (m : DomainMap N W T)
          → HasWilds H K m.wildcards
          → HasWilds H K (remove H name m).0.wildcards
      unfolding remove
      remove-HasWilds name m old = elim (Bool-cases (is_sub name)) [
        | inl wild ↦ rw wild (retain_others-HasWilds name m.wildcards old)
        | inr plain ↦ rw plain old
      ]

      remove-IsReached :
          (name w : WildcardName N W) (m : DomainMap N W T)
          → w ≢ name
          → IsReached H K m.wildcards w
          → IsReached H K (remove H name m).0.wildcards w
      unfolding remove
      remove-IsReached name w m other old = elim (Bool-cases (is_sub name)) [
        | inl wild ↦ rw wild (retain_others-IsReached name w m.wildcards other old)
        | inr plain ↦ rw plain old
      ]

      pub remove-IsSound :
          (name : WildcardName N W) (m : DomainMap N W T)
          → IsSound H K m
          → IsSound H K (remove H name m).0
      remove-IsSound name m old = record {
        qualified = λ w v stored. old.qualified w v (remove-cases name m w v stored).1;
        reached = λ w v stored wild.
            let (other, before) = remove-cases name m w v stored in
            remove-IsReached name w m other (old.reached w v before wild);
        wilds = remove-HasWilds name m old.wilds;
      }

      -- `from_iter` does not qualify the rules that it is given.
      abbrev pub IsUsable : WildcardName N W × T → Type 0
      IsUsable (n, v) = K n × (H.is_fqdn (rule_base n) ≡ true)

      store_all-IsSound :
          (m : DomainMap N W T) (es : List (WildcardName N W × T))
          → IsApart H K
          → All IsUsable es
          → IsSound H K m
          → IsSound H K (store_all H m es)
      unfolding store_all
      store_all-IsSound m [] apart usable old = old
      store_all-IsSound m ((n, v) ∷ es) apart ((known, fqdn), usable) old =
          store_all-IsSound (store_rule H n v m) es apart usable
            (store_rule-IsSound H K n v m apart known fqdn old)

      pub from_iter-IsSound :
          (es : List (WildcardName N W × T))
          → IsApart H K
          → All IsUsable es
          → IsSound H K (from_iter H es)
      unfolding from_iter
      from_iter-IsSound es apart usable =
          store_all-IsSound empty_map es apart usable (empty_map-IsSound H K)

      -- Where no two rules in use have one hash, insert and remove keep a map sound: its rules are
      -- fully qualified, and each wildcard stands among the wildcards of its name, where nothing
      -- but wildcards stands.
      pub changes-IsSound :
          (into name : WildcardName N W) (value : T) (m : DomainMap N W T)
          → IsApart H K
          → K (qualified_rule into)
          → IsSound H K m
          → IsSound H K (insert H into value m).0 × IsSound H K (remove H name m).0
      changes-IsSound into name value m apart known sound =
          (insert-IsSound into value m apart known sound, remove-IsSound name m sound)
