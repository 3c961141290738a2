-- ===== src/Server/Domains/Find.antt =====
-- `find` of src/collections.rs: its fuel is enough, and it gives the most specific of the stored
-- rules that the query matches.
use smartdns_rs.Prelude.{
  Bool-cases, Option, ap, arith, false, if_false, if_true, if◌then◌else◌, inl, inr, length, none,
  refl, some, subst, suc, sym, true, zero, ℕ, ◌*◌, ◌+◌, ◌-◌, ◌∙◌, ◌≡◌, ◌≢◌, ◌≤◌,
}
use smartdns_rs.Server.Domains.{Names, WildcardName, default_rule, full, rule_base, suffix}
use smartdns_rs.Server.Domains.Map.{
  DomainMap, at_level, find_from, first_wildcard, wildcards_at, or_else, value_of,
}
use smartdns_rs.Server.Domains.Matching.{
  IsAt, depth, depth_at, drop_none, is_match-Above, inner_level, labels_above, below_query,
}
use smartdns_rs.Server.Domains.Best.{Best, lower-Best, or_else_assoc, try-Best}
use smartdns_rs.Server.Domains.Turns.{IsCovered, level-Best, sub-hit}
use smartdns_rs.Server.Domains.Sound.{IsSound}

module _ {N L W : Type 0} (H : Names N L W) (K : WildcardName N W → Type 0) {T : Type 0}
    (m : DomainMap N W T) (sound : IsSound H K m) (q : N) (deep : 1 ≤ depth H q)
    (covered : IsCovered H K q) where
  -- A name that is not qualified has no rule of its own.
  unqualified :
      (c : N → WildcardName N W) (k : ℕ) (name : N) (v : T)
      → rule_base (c name) ≡ name
      → K (c name)
      → H.is_fqdn name ≡ false
      → value_of H m (c name) ≢ some v
  unqualified c k name v base known bare found =
      let stored = sound.qualified (c name) v (known, found) in
      absurd (cc (bare, stored, ap H.is_fqdn base))

  -- The test of such a name comes to nothing.
  pass-Best :
      (c : N → WildcardName N W) (k b : ℕ) (name : N) (rest : Option T)
      → rule_base (c name) ≡ name
      → K (c name)
      → H.is_fqdn name ≡ false
      → Best H K m q b rest
      → Best H K m q b (or_else (value_of H m (c name)) rest)
  pass-Best c k b name rest base known bare later =
      try-Best H K m q b b _ rest (λ v found. absurd (unqualified c k name v base known bare found))
        (λ absent w v h. h) (omega arith) later

  -- A turn on a name that is not qualified finds at most a wildcard.
  turn-Best :
      (k : ℕ) (last name : N) (rest : Option T)
      → IsAt H q k name
      → H.is_fqdn name ≡ false
      → (k ≡ 1 → H.labels last ≡ H.labels q)
      → Best H K m q (4 * (depth H q - k) + 4) rest
      → Best H K m q (4 * (depth H q - k) + 4) (or_else (at_level H m k last name) rest)
  unfolding at_level rule_base
  turn-Best zero last name rest at bare read later =
      let known = covered 0 name at.1 in
      subst (Best H K m q _) (sym (or_else_assoc _ _ rest)) (
        pass-Best full 0 _ name _ refl known.0 bare
          (pass-Best default_rule 0 _ name rest refl known.2 bare later))
  turn-Best (suc zero) last name rest at bare read later =
      let known = covered 1 name at.1 in
      let tests = first_wildcard H m last (wildcards_at m.wildcards (H.name_hash name)) in
      let below =
        pass-Best suffix 1 _ name _ refl known.1 bare
          (pass-Best default_rule 1 _ name rest refl known.2 bare later) in
      subst (Best H K m q _)
        (sym (or_else_assoc tests _ rest ∙ ap (or_else tests) (or_else_assoc _ _ rest)))
        (try-Best H K m q _ _ tests _
          (λ v found.
            let (w, best) = sub-hit H K m sound q deep covered last name v (read refl) found in
            (
              w,
              (
                (best.0.0, best.0.1, omega (arith, best.0.2)),
                λ x u h.
                    best.1 x u
                      (h.0, h.1, below_query H x q (is_match-Above H x q deep h.1) h.2 deep),
              ),
            ))
          (λ absent w v h. h) (omega arith) below)
  turn-Best (suc (suc k)) last name rest at bare read later =
      let known = covered (suc (suc k)) name at.1 in
      subst (Best H K m q _) (sym (or_else_assoc _ _ rest)) (
        pass-Best suffix 0 _ name _ refl known.1 bare
          (pass-Best default_rule 0 _ name rest refl known.2 bare later))

  -- Two turns for each label that is left, and one less where the name is qualified.
  abbrev turns_left : ℕ → N → ℕ
  turns_left k name = 2 * (depth H q - k) + (if H.is_fqdn name then 1 else 2)

  -- The root ends the loop, and nothing stands above it.
  above-Best :
      (k : ℕ) (name : N) (next : Option T)
      → IsAt H q k name
      → H.is_fqdn name ≡ true
      → (suc k ≤ depth H q → Best H K m q (4 * (depth H q - suc k) + 4) next)
      → Best H K m q (4 * (depth H q - k)) (if H.is_root name then none else next)
  above-Best k name next at fqdn later = elim (Bool-cases (H.is_root name)) [
    | inl root ↦
        let size = ap length ((H.is_root-labels name fqdn).0 root) in
        subst (Best H K m q _) (sym (if_true _ root _ _))
          (inl (refl, λ w v h. omega (arith, h.2, size, depth_at H q k name at.1)))
    | inr inner ↦
        let lower = inner_level H q k name at fqdn inner in
        subst (Best H K m q _) (sym (if_false _ inner _ _)) (
          lower-Best H K m q _ _ next (λ w v h. omega (arith, h.2, lower)) (omega (arith, lower))
            (later lower))
  ]

  pub find_from-Best :
      (fuel k : ℕ) (last name : N)
      → IsAt H q k name
      → (k ≡ 1 → H.labels last ≡ H.labels q)
      → turns_left k name ≤ fuel
      → Best H K m q (4 * (depth H q - k) + 4) (find_from H fuel m k last name)
  unfolding find_from
  find_from-Best zero k last name at read enough = absurd (ground (arith, enough))
  find_from-Best (suc fuel) k last name at read enough =
      let again =
        find_from-Best fuel k last (H.fully_qualified name)
          (at.0, H.labels-fully_qualified name ∙ at.1) read in
      let next = find_from-Best fuel (suc k) name (H.base_name name) in
      let turn : Option T → Type 0 =
        λ o. Best H K m q (4 * (depth H q - k) + 4) (or_else (at_level H m k last name) o) in
      elim (Bool-cases (H.is_fqdn name)) [
        | inr bare ↦ subst turn (sym (if_false _ bare _ _)) (
            turn-Best k last name _ at bare read
              (again (ground (arith, enough, bare, H.is_fqdn-fully_qualified name))))
        | inl fqdn ↦ subst turn (sym (if_true _ fqdn _ _)) (
            level-Best H K m sound q deep covered k last name _ at fqdn read (
              above-Best k name _ at fqdn (λ lower.
                next (lower, labels_above H q k name at.1)
                  (λ first. drop_none H k name q at.1 (omega (arith, first)))
                  (ground (arith, enough, fqdn, lower)))))
      ]
