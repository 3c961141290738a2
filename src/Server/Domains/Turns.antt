-- ===== src/Server/Domains/Turns.antt =====
-- One turn of the loop of `find` (src/collections.rs) on a qualified name.
use smartdns_rs.Prelude.{
  Option, ap, arith, drop, refl, some, subst, suc, sym, true, zero, ℕ, ◌*◌, ◌+◌, ◌-◌, ◌∙◌, ◌≡◌, ◌≤◌,
}
use smartdns_rs.Server.Domains.{Names, WildcardName, default_rule, full, suffix}
use smartdns_rs.Server.Domains.Map.{
  DomainMap, at_level, first_wildcard, or_else, value_of, wildcards_at,
}
use smartdns_rs.Server.Domains.Matching.{
  IsAt, default_rule-is_match, depth, depth_at, full-is_match, is_match-Above, specificity-kinds,
  specificity-sub, below_query, suffix-is_match,
}
use smartdns_rs.Server.Domains.Best.{
  Best, IsBest, first_wildcard-hit, lower-Best, or_else_assoc, top-IsBest, try-Best,
}
use smartdns_rs.Server.Domains.Levels.{
  default_rule-miss, full-miss, sub-miss, suffix-miss, upper-miss,
}
use smartdns_rs.Server.Domains.Sound.{IsSound}

module _ {N L W : Type 0} (H : Names N L W) (K : WildcardName N W → Type 0) (q : N) where
  -- The rules that `find` asks for are among those in use.
  abbrev pub IsCovered : Type 0
  IsCovered =
      (k : ℕ) (n : N)
      → H.labels n ≡ drop k (H.labels q)
      → K (full n) × K (suffix n) × K (default_rule n)

module _ {N L W : Type 0} (H : Names N L W) (K : WildcardName N W → Type 0) {T : Type 0}
    (m : DomainMap N W T) (sound : IsSound H K m) (q : N) (deep : 1 ≤ depth H q)
    (covered : IsCovered H K q) where
  -- The last tests of a level, on a qualified name.
  default_rule-Best :
      (k : ℕ) (name : N) (rest : Option T)
      → IsAt H q k name
      → H.is_fqdn name ≡ true
      → Best H K m q (4 * (depth H q - k)) rest
      → Best H K m q (4 * (depth H q - k) + 1) (or_else (value_of H m (default_rule name)) rest)
  default_rule-Best k name rest at fqdn later =
      try-Best H K m q _ _ _ rest
        (λ v found. (
          default_rule name,
          top-IsBest H K m q _ (default_rule name) v ((covered k name at.1).2, found)
              (default_rule-is_match H k name q at.0 at.1)
              (omega
                (arith, (specificity-kinds H H.empty_pattern name).0, depth_at H q k name at.1)),
        ))
        (λ absent w v h.
          (h.0, h.1, default_rule-miss H K m sound q deep k name w v at fqdn absent h))
        (omega arith) later

  suffix-Best :
      (k : ℕ) (name : N) (rest : Option T)
      → 1 ≤ k
      → IsAt H q k name
      → H.is_fqdn name ≡ true
      → Best H K m q (4 * (depth H q - k) + 1) rest
      → Best H K m q (4 * (depth H q - k) + 2) (or_else (value_of H m (suffix name)) rest)
  suffix-Best k name rest above at fqdn later =
      try-Best H K m q _ _ _ rest
        (λ v found. (
          suffix name,
          top-IsBest H K m q _ (suffix name) v ((covered k name at.1).1, found)
              (suffix-is_match H k name q at.0 above at.1)
              (omega
                (arith, (specificity-kinds H H.empty_pattern name).1, depth_at H q k name at.1)),
        ))
        (λ absent w v h. (h.0, h.1, suffix-miss H K m sound q deep k name w v at fqdn absent h))
        (omega arith) later

  full-Best :
      (name : N) (rest : Option T)
      → IsAt H q 0 name
      → H.is_fqdn name ≡ true
      → Best H K m q (4 * (depth H q - 0) + 1) rest
      → Best H K m q (4 * (depth H q - 0) + 4) (or_else (value_of H m (full name)) rest)
  full-Best name rest at fqdn later =
      try-Best H K m q _ _ _ rest
        (λ v found. (
          full name,
          top-IsBest H K m q _ (full name) v ((covered 0 name at.1).0, found)
              (full-is_match H name q at.1)
              (omega
                (arith, (specificity-kinds H H.empty_pattern name).3, depth_at H q 0 name at.1)),
        ))
        (λ absent w v h. (h.0, h.1, full-miss H K m sound q deep name w v at fqdn absent h))
        (omega arith) later

  -- A wildcard that is found is the best of the level above the query.
  pub sub-hit :
      (last name : N) (v : T)
      → H.labels last ≡ H.labels q
      → first_wildcard H m last (wildcards_at m.wildcards (H.name_hash name)) ≡ some v
      → (w : WildcardName N W) × IsBest H K m q (4 * (depth H q - 1) + 3) w v
  sub-hit last name v read found =
      let (w, wild, stored, same) =
        first_wildcard-hit H K m q last _ v read (sound.wilds (H.name_hash name)) found in
      (
        w,
        top-IsBest H K m q _ w v stored same
            (omega (arith, specificity-sub H w q deep wild.0 same)),
      )

  pub one_above :
      (o : Option T)
      → Best H K m q (4 * (depth H q - 1) + 3) o
      → Best H K m q (4 * (depth H q - 1) + 4) o
  one_above o =
      lower-Best H K m q _ _ o (λ w v h. below_query H w q (is_match-Above H w q deep h.1) h.2 deep)
        (omega arith)

  -- A turn on a qualified name leaves the levels above.
  pub level-Best :
      (k : ℕ) (last name : N) (rest : Option T)
      → IsAt H q k name
      → H.is_fqdn name ≡ true
      → (k ≡ 1 → H.labels last ≡ H.labels q)
      → Best H K m q (4 * (depth H q - k)) rest
      → Best H K m q (4 * (depth H q - k) + 4) (or_else (at_level H m k last name) rest)
  unfolding at_level
  level-Best zero last name rest at fqdn read later =
      subst (Best H K m q _) (sym (or_else_assoc _ _ rest))
        (full-Best name _ at fqdn (default_rule-Best 0 name rest at fqdn later))
  level-Best (suc zero) last name rest at fqdn read later =
      let tests = first_wildcard H m last (wildcards_at m.wildcards (H.name_hash name)) in
      let below =
        suffix-Best 1 name _ (omega arith) at fqdn (default_rule-Best 1 name rest at fqdn later) in
      one_above _ (
        subst (Best H K m q _)
          (sym (or_else_assoc tests _ rest ∙ ap (or_else tests) (or_else_assoc _ _ rest)))
          (try-Best H K m q _ _ tests _ (λ v found. sub-hit last name v (read refl) found)
            (λ absent w v h.
              (h.0, h.1, sub-miss H K m sound q deep last name w v at fqdn (read refl) absent h))
            (omega arith) below))
  level-Best (suc (suc k)) last name rest at fqdn read later =
      lower-Best H K m q _ _ _
        (λ w v h. upper-miss H K m sound q deep (suc (suc k)) w v (omega arith) at.0 h)
        (omega arith)
        (subst (Best H K m q _) (sym (or_else_assoc _ _ rest)) (
          suffix-Best (suc (suc k)) name _ (omega arith) at fqdn
            (default_rule-Best (suc (suc k)) name rest at fqdn later)))
