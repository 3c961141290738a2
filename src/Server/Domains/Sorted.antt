-- ===== src/Server/Domains/Sorted.antt =====
-- The rules of a group in the order in which `create` of src/dns_rule.rs stores them: no rule comes
-- behind one of a name below its own.
use smartdns_rs.Prelude.{
  All, Bool-cases, List, Ordering, [], ap, arith, compare, drop, drop-drop, false, if_false,
  if_true, inl, inr, length, length-drop, refl, sym, true, ℕ, ◌+◌, ◌-◌, ◌∙◌, ◌∷◌, ◌≡◌, ◌≤◌,
}
use smartdns_rs.Server.Domains.{
  Names, WildcardName, default_rule, full, is_match, kind_order, on_base, rule_base, sub, suffix,
}
use smartdns_rs.Server.Domains.Map.{asked}
use smartdns_rs.Server.Domains.Matching.{depth, is_match-Above}
use smartdns_rs.Server.Domains.Rules.{DomainRule}
use smartdns_rs.Server.Domains.Nodes.{NameOrder, cmp_rules, flip, insert_item, sort_items}
use smartdns_rs.Server.Domains.Kept.{qualified_rule}
use smartdns_rs.Server.Ranking.{is_greater, then_with}

module _ {N L W : Type 0} (H : Names N L W) (O : NameOrder H) where
  -- `a` does not sort behind `b`.
  abbrev pub IsBefore : N → N → Type 0
  IsBefore a b = is_greater (O.cmp_names a b) ≡ false

  then_with-cases :
      (o p : Ordering)
      → (is_greater (then_with o p) ≡ true → is_greater (flip o) ≡ false)
        × (is_greater (then_with o p) ≡ false → is_greater o ≡ false)
  then_with-cases Ordering.lt p = (λ h. absurd (cc h), λ h. refl)
  then_with-cases Ordering.eq p = (λ h. refl, λ h. refl)
  then_with-cases Ordering.gt p = (λ h. refl, λ h. absurd (cc h))

  pub IsBefore-refl : (n : N) → IsBefore n n
  IsBefore-refl n = reversed (O.cmp_names n n) (O.cmp_reverse n n)
    where
      reversed : (o : Ordering) → o ≡ flip o → is_greater o ≡ false
      reversed Ordering.lt h = refl
      reversed Ordering.eq h = refl
      reversed Ordering.gt h = absurd (cc h)

  labels-qualified_rule :
      (w : WildcardName N W) → H.labels (rule_base (qualified_rule H w)) ≡ H.labels (rule_base w)
  unfolding on_base rule_base
  labels-qualified_rule (default_rule n) = H.labels-fully_qualified n
  labels-qualified_rule (suffix n) = H.labels-fully_qualified n
  labels-qualified_rule (sub w n) = H.labels-fully_qualified n
  labels-qualified_rule (full n) = H.labels-fully_qualified n

  -- What is asked for a zone lacks a label at least.
  labels-asked :
      (n : N) → (i : ℕ) × (1 ≤ i) × (H.labels (asked H (H.base_name n)) ≡ drop i (H.labels n))
  labels-asked n = elim (Bool-cases (H.is_wildcard (H.base_name n))) [
    | inr plain ↦ (1, omega arith, ap H.labels (if_false _ plain _ _) ∙ H.labels-base_name n)
    | inl wild ↦ (
      2,
      omega arith,
      ap H.labels (if_true _ wild _ _)
          ∙ H.labels-base_name (H.base_name n)
          ∙ ap (drop 1) (H.labels-base_name n)
          ∙ drop-drop 1 1 (H.labels n),
    )
  ]

  -- A rule that sorts behind a name is none for the zone of the name.
  pub zone_mismatch :
      (n : N) (into : WildcardName N W)
      → 1 ≤ depth H (asked H (H.base_name n))
      → IsBefore n (rule_base into)
      → is_match H (qualified_rule H into) (asked H (H.base_name n)) ≡ false
  zone_mismatch n into deep before =
      let q = asked H (H.base_name n) in
      elim (Bool-cases (is_match H (qualified_rule H into) q)) [
        | inr other ↦ other
        | inl matched ↦
            let (k, short, labels, reach) =
              is_match-Above H (qualified_rule H into) q deep matched in
            let (i, least, asked_labels) = labels-asked n in
            let size : depth H q ≡ depth H n - i =
              ap length asked_labels ∙ length-drop i (H.labels n) in
            let base : H.labels (rule_base into) ≡ drop (i + k) (H.labels n) =
              sym (labels-qualified_rule into)
              ∙ labels
              ∙ ap (drop k) asked_labels
              ∙ drop-drop k i (H.labels n) in
            let behind =
              O.cmp_above (i + k) (rule_base into) n (omega (arith, least))
                (omega (arith, size, short, deep)) base in
            absurd (cc (before, behind))
      ]

  module _ {V : Type 0} where
    abbrev pub IsSorted : List (WildcardName N W × DomainRule V) → Type 0
    IsSorted [] = Unit
    IsSorted ((name, v) ∷ xs) =
        All (λ (y : WildcardName N W × DomainRule V). IsBefore (rule_base name) (rule_base y.0)) xs
        × IsSorted xs

    All-insert_item :
        (P : WildcardName N W × DomainRule V → Type 0) (item : WildcardName N W × DomainRule V)
        (xs : List (WildcardName N W × DomainRule V))
        → P item
        → All P xs
        → All P (insert_item H O item xs)
    unfolding insert_item
    All-insert_item P item [] p h = (p, tt)
    All-insert_item P item (x ∷ xs) p (q, h) =
        let rest = All-insert_item P item xs p h in
        elim (Bool-cases (is_greater (cmp_rules H O item.0 x.0))) [
          | inl after ↦ rw after (q, rest)
          | inr before ↦ rw before (p, (q, h))
        ]

    pub All-sort_items :
        (P : WildcardName N W × DomainRule V → Type 0) (xs : List (WildcardName N W × DomainRule V))
        → All P xs
        → All P (sort_items H O xs)
    unfolding sort_items
    All-sort_items P [] h = tt
    All-sort_items P (x ∷ xs) (p, h) =
        All-insert_item P x (sort_items H O xs) p (All-sort_items P xs h)

    All-IsBefore :
        (a b : N) (xs : List (WildcardName N W × DomainRule V))
        → IsBefore a b
        → All (λ (y : WildcardName N W × DomainRule V). IsBefore b (rule_base y.0)) xs
        → All (λ (y : WildcardName N W × DomainRule V). IsBefore a (rule_base y.0)) xs
    All-IsBefore a b [] before h = tt
    All-IsBefore a b (x ∷ xs) before (p, h) =
        (O.cmp_trans a b (rule_base x.0) before p, All-IsBefore a b xs before h)

    insert_item-IsSorted :
        (item : WildcardName N W × DomainRule V) (xs : List (WildcardName N W × DomainRule V))
        → IsSorted xs
        → IsSorted (insert_item H O item xs)
    unfolding insert_item cmp_rules
    insert_item-IsSorted item [] h = (tt, tt)
    insert_item-IsSorted item (x ∷ xs) (p, h) =
        let a = rule_base item.0 in
        let b = rule_base x.0 in
        let cases =
          then_with-cases (O.cmp_names a b) (compare (kind_order item.0) (kind_order x.0)) in
        elim (Bool-cases (is_greater (cmp_rules H O item.0 x.0))) [
          | inl after ↦ rw after (
            All-insert_item (λ y. IsBefore b (rule_base y.0)) item xs
                (ap is_greater (O.cmp_reverse a b) ∙ cases.0 after) p,
            insert_item-IsSorted item xs h,
          )
          | inr before ↦
              rw before ((cases.1 before, All-IsBefore a b xs (cases.1 before) p), (p, h))
        ]

    pub sort_items-IsSorted :
        (xs : List (WildcardName N W × DomainRule V)) → IsSorted (sort_items H O xs)
    unfolding sort_items
    sort_items-IsSorted [] = tt
    sort_items-IsSorted (x ∷ xs) =
        insert_item-IsSorted x (sort_items H O xs) (sort_items-IsSorted xs)
