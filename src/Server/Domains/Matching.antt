-- ===== src/Server/Domains/Matching.antt =====
-- What `is_match` of src/config/domain.rs says of the labels, and how specific a rule is.
use smartdns_rs.Prelude.{
  Bool-cases, ap, arith, drop, drop-drop, eq-nil_of_length, false, inl, inr, length, length-drop,
  ltb, ltb→lt, refl, suc, sym, true, ℕ, ◌*◌, ◌+◌, ◌-◌, ◌∙◌, ◌≡◌, ◌≤◌,
}
use smartdns_rs.Server.Domains.{
  Names, WildcardName, default_rule, full, is_match, is_sub, kind_order, rule_base, sub, suffix,
}

module _ {N W : Type 0} where
  -- How far above a query the name of a rule of this kind may stand.
  unfoldable pub Reaches : WildcardName N W → ℕ → Type 0
  Reaches (default_rule n) k = 0 ≤ k
  Reaches (suffix n) k = 1 ≤ k
  Reaches (sub w n) k = k ≡ 1
  Reaches (full n) k = k ≡ 0

module _ {N L W : Type 0} (H : Names N L W) where
  abbrev pub depth : N → ℕ
  depth n = length (H.labels n)

  -- The rule of the longer name, and of one name the rule that `cmp` sorts first.
  abbrev pub specificity : WildcardName N W → ℕ
  specificity w = 4 * depth (rule_base w) + (3 - kind_order w)

  abbrev pub Above : WildcardName N W → N → Type 0
  Above w q = (k : ℕ) × (k ≤ depth q) × (H.labels (rule_base w) ≡ drop k (H.labels q)) × Reaches w k

  -- The level of a name is the number of labels of the query that it lacks.
  abbrev pub IsAt : N → ℕ → N → Type 0
  IsAt q k name = (k ≤ depth q) × (H.labels name ≡ drop k (H.labels q))

  pub depth_at : (q : N) (k : ℕ) (n : N) → H.labels n ≡ drop k (H.labels q) → depth n ≡ depth q - k
  depth_at q k n here = ap length here ∙ length-drop k (H.labels q)

  pub specificity-kinds :
      (w : W) (n : N)
      → (specificity (default_rule n) ≡ 4 * depth n)
        × (specificity (suffix n) ≡ 4 * depth n + 1)
        × (specificity (sub w n) ≡ 4 * depth n + 2)
        × (specificity (full n) ≡ 4 * depth n + 3)
  unfolding rule_base kind_order
  specificity-kinds w n = (omega arith, omega arith, omega arith, omega arith)

  pub drop_none :
      (k : ℕ) (a q : N) → H.labels a ≡ drop k (H.labels q) → k ≡ 0 → H.labels a ≡ H.labels q
  drop_none k a q same none_dropped = same ∙ ap (λ j. drop j (H.labels q)) none_dropped

  pub is_match-Above :
      (w : WildcardName N W) (q : N) → 1 ≤ depth q → is_match H w q ≡ true → Above w q
  unfolding is_match Reaches rule_base
  is_match-Above (default_rule n) q deep h =
      let (k, short, same) = (H.zone_of_iff n q).0 h in (k, short, same, omega arith)
  is_match-Above (suffix n) q deep h =
      let other : H.eq_ignore_root_case n q ≡ false = ground (arith, h) in
      let (k, short, same) = (H.zone_of_iff n q).0 (ground (arith, h)) in
      (
        k,
        short,
        same,
        elim (Bool-cases (ltb 0 k)) [
          | inl deeper ↦ ltb→lt 0 k deeper
          | inr here ↦
              let equal = (H.eq_ignore_root_case_iff n q).1 (drop_none k n q same (ground arith)) in
              absurd (cc (other, equal))
        ],
      )
  is_match-Above (sub w n) q deep h =
      let base : H.eq_ignore_root_case n (H.base_name q) ≡ true = ground (arith, h) in
      (1, deep, (H.eq_ignore_root_case_iff n (H.base_name q)).0 base ∙ H.labels-base_name q, refl)
  is_match-Above (full n) q deep h = (0, omega arith, (H.eq_ignore_root_case_iff n q).0 h, refl)

  pub full-is_match : (n q : N) → H.labels n ≡ H.labels q → is_match H (full n) q ≡ true
  unfolding is_match
  full-is_match n q same = (H.eq_ignore_root_case_iff n q).1 same

  pub default_rule-is_match :
      (k : ℕ) (n q : N)
      → k ≤ depth q
      → H.labels n ≡ drop k (H.labels q)
      → is_match H (default_rule n) q ≡ true
  unfolding is_match
  default_rule-is_match k n q short same = (H.zone_of_iff n q).1 (k, short, same)

  pub suffix-is_match :
      (k : ℕ) (n q : N)
      → k ≤ depth q
      → 1 ≤ k
      → H.labels n ≡ drop k (H.labels q)
      → is_match H (suffix n) q ≡ true
  unfolding is_match
  suffix-is_match k n q short deeper same =
      let zone = (H.zone_of_iff n q).1 (k, short, same) in
      elim (Bool-cases (H.eq_ignore_root_case n q)) [
        | inr other ↦ ground (arith, other, zone)
        | inl equal ↦
            let longer : depth n ≡ depth q = ap length ((H.eq_ignore_root_case_iff n q).0 equal) in
            let shorter : depth n ≡ depth q - k = ap length same ∙ length-drop k (H.labels q) in
            absurd (omega (arith, longer, shorter))
      ]

  -- A wildcard reads no more of a name than its labels.
  pub is_match-labels :
      (w : WildcardName N W) (a b : N)
      → is_sub w ≡ true
      → H.labels a ≡ H.labels b
      → is_match H w a ≡ true
      → is_match H w b ≡ true
  unfolding is_match is_sub
  is_match-labels (default_rule n) a b wild same h = absurd (cc wild)
  is_match-labels (suffix n) a b wild same h = absurd (cc wild)
  is_match-labels (full n) a b wild same h = absurd (cc wild)
  is_match-labels (sub w n) a b wild same h =
      let base = (H.eq_ignore_root_case_iff n (H.base_name a)).0 (ground (arith, h)) in
      let moved =
        (H.eq_ignore_root_case_iff n (H.base_name b)).1
          (base ∙ H.labels-base_name a ∙ ap (drop 1) same ∙ sym (H.labels-base_name b)) in
      ground (arith, h, moved, same)

  -- A wildcard that matches stands one level above the query.
  pub specificity-sub :
      (w : WildcardName N W) (q : N)
      → 1 ≤ depth q
      → is_sub w ≡ true
      → is_match H w q ≡ true
      → specificity w ≡ 4 * (depth q - 1) + 2
  unfolding is_sub Reaches rule_base kind_order
  specificity-sub (default_rule n) q deep wild h = absurd (cc wild)
  specificity-sub (suffix n) q deep wild h = absurd (cc wild)
  specificity-sub (full n) q deep wild h = absurd (cc wild)
  specificity-sub (sub p n) q deep wild h =
      let (k, short, labels, reach) = is_match-Above (sub p n) q deep h in
      omega (arith, depth_at q k n labels, reach)

  -- What is less specific than the rules of the query's own name.
  pub below_query :
      (w : WildcardName N W) (q : N)
      → Above w q
      → specificity w + 1 ≤ 4 * (depth q - 1) + 4
      → 1 ≤ depth q
      → specificity w + 1 ≤ 4 * (depth q - 1) + 3
  unfolding Reaches rule_base kind_order
  below_query (default_rule n) q (k, short, labels, reach) under deep =
      omega (arith, depth_at q k n labels, short, under)
  below_query (suffix n) q (k, short, labels, reach) under deep =
      omega (arith, depth_at q k n labels, short, under, reach)
  below_query (sub p n) q (k, short, labels, reach) under deep =
      omega (arith, depth_at q k n labels, short, under, reach)
  below_query (full n) q (k, short, labels, reach) under deep =
      absurd (omega (arith, depth_at q k n labels, short, under, reach, deep))

  pub below_all :
      (w : WildcardName N W) (q : N) → Above w q → specificity w + 1 ≤ 4 * (depth q - 0) + 4
  below_all w q (k, short, labels, reach) = omega (arith, depth_at q k (rule_base w) labels)

  pub labels_above :
      (q : N) (k : ℕ) (name : N)
      → H.labels name ≡ drop k (H.labels q)
      → H.labels (H.base_name name) ≡ drop (suc k) (H.labels q)
  labels_above q k name here =
      let up : k + 1 ≡ suc k = omega arith in
      H.labels-base_name name
      ∙ ap (drop 1) here
      ∙ drop-drop 1 k (H.labels q)
      ∙ ap (λ j. drop j (H.labels q)) up

  -- A name with labels left has a level above it.
  pub inner_level :
      (q : N) (k : ℕ) (name : N)
      → IsAt q k name
      → H.is_fqdn name ≡ true
      → H.is_root name ≡ false
      → suc k ≤ depth q
  inner_level q k name at fqdn inner = elim (Bool-cases (ltb k (depth q))) [
    | inl less ↦ ltb→lt k (depth q) less
    | inr more ↦
        let empty =
          eq-nil_of_length (H.labels name) (ground (arith, depth_at q k name at.1, more)) in
        absurd (cc (inner, (H.is_root-labels name fqdn).1 empty))
  ]
