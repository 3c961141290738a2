-- ===== src/Server/Domains/Others.antt =====
-- What a name finds in a map of src/collections.rs is left alone when a rule is inserted that the
-- name does not match.
use smartdns_rs.Prelude.{
  All, Bool-cases, List, [], ap, arith, false, if◌then◌else◌, inl, inr, none, refl, subst, suc, sym,
  true, zero, ℕ, ◌++◌, ◌∙◌, ◌∷◌, ◌≡◌, ◌≤◌, ◌⊎◌,
}
use smartdns_rs.Server.QueryLog.{unwrap_or}
use smartdns_rs.Server.Domains.{
  Names, WildcardName, default_rule, full, hash_code, is_match, is_sub, rule_base, suffix,
}
use smartdns_rs.Server.Domains.Map.{
  find, find_from, insert, asked, DomainMap, at_level, first_wildcard, or_else, push_wildcard, put,
  store_rule, value_of, wildcards_at,
}
use smartdns_rs.Server.Domains.Matching.{
  IsAt, depth, inner_level, labels_above, drop_none, default_rule-is_match, full-is_match,
  is_match-labels, suffix-is_match,
}
use smartdns_rs.Server.Domains.Entries.{get-put_other, get-put_self, keys-cases}
use smartdns_rs.Server.Domains.Turns.{IsCovered}
use smartdns_rs.Server.Domains.Answers.{find-find_from}
use smartdns_rs.Server.Domains.Kept.{insert-IsSound, qualified_rule}
use smartdns_rs.Server.Domains.Sound.{IsApart, IsSound, IsWild}

module _ {N L W : Type 0} (H : Names N L W) (K : WildcardName N W → Type 0) {T : Type 0}
    (apart : IsApart H K) (into : WildcardName N W) (known : K into) (value : T)
    (m : DomainMap N W T) (sound : IsSound H K m) (q : N) (other : is_match H into q ≡ false)
    (covered : IsCovered H K q) where
  abbrev after : DomainMap N W T
  after = store_rule H into value m

  -- A rule that the query matches has the value that it had.
  value_of-same :
      (w : WildcardName N W) → K w → is_match H w q ≡ true → value_of H after w ≡ value_of H m w
  unfolding store_rule
  value_of-same w used matched = elim (keys-cases (hash_code H w) (hash_code H into)) [
    | inl same ↦
        absurd (cc (ap (λ x. is_match H x q) (apart into w known used same), other, matched))
    | inr differ ↦ get-put_other _ _ value m.rule_values differ
  ]

  first_wildcard-same :
      (last : N) (ws : List (WildcardName N W))
      → H.labels last ≡ H.labels q
      → All (IsWild H K) ws
      → first_wildcard H after last ws ≡ first_wildcard H m last ws
  unfolding first_wildcard
  first_wildcard-same last [] read wild = refl
  first_wildcard-same last (w ∷ ws) read ((is, used), wild) =
      let rest = first_wildcard-same last ws read wild in
      elim (Bool-cases (is_match H w last)) [
        | inr differ ↦ rw (differ, rest)
        | inl matched ↦
            rw (matched, rest, value_of-same w used (is_match-labels H w last q is read matched))
      ]

  first_wildcard-snoc :
      (last : N) (ws : List (WildcardName N W))
      → is_match H into last ≡ false
      → first_wildcard H after last (ws ++ into ∷ []) ≡ first_wildcard H after last ws
  unfolding first_wildcard
  first_wildcard-snoc last [] differ = rw differ refl
  first_wildcard-snoc last (w ∷ ws) differ =
      ap (or_else (if is_match H w last then value_of H after w else none))
        (first_wildcard-snoc last ws differ)

  -- The wildcards of any name, with the new one at their end where it is of that name.
  wildcards-cases :
      (k : ℕ)
      → (wildcards_at after.wildcards k ≡ wildcards_at m.wildcards k)
        ⊎ ((is_sub into ≡ true)
            × (wildcards_at after.wildcards k ≡ wildcards_at m.wildcards k ++ into ∷ []))
  unfolding store_rule push_wildcard
  wildcards-cases k = elim (Bool-cases (is_sub into)) [
    | inr plain ↦ inl (rw plain refl)
    | inl wild ↦
        let j = H.name_hash (rule_base into) in
        let b = wildcards_at m.wildcards j ++ into ∷ [] in
        elim (keys-cases k j) [
          | inr differ ↦
              inl (rw wild (ap (λ o. unwrap_or o []) (get-put_other k j b m.wildcards differ)))
          | inl same ↦ inr (
            wild,
            rw wild (
                subst
                  (λ i.
                    wildcards_at (put j b m.wildcards) i ≡ wildcards_at m.wildcards i ++ into ∷ [])
                  same (ap (λ o. unwrap_or o []) (get-put_self j b m.wildcards))),
          )
        ]
  ]

  -- The wildcards of a name give what they gave.
  wildcards-same :
      (k : ℕ) (last : N)
      → H.labels last ≡ H.labels q
      → first_wildcard H after last (wildcards_at after.wildcards k)
        ≡ first_wildcard H m last (wildcards_at m.wildcards k)
  wildcards-same k last read =
      let same = first_wildcard-same last (wildcards_at m.wildcards k) read (sound.wilds k) in
      elim (wildcards-cases k) [
        | inl kept ↦ ap (first_wildcard H after last) kept ∙ same
        | inr (wild, grown) ↦
            let differ : is_match H into last ≡ false = elim (Bool-cases (is_match H into last)) [
              | inr differ ↦ differ
              | inl matched ↦ absurd (cc (other, is_match-labels H into last q wild read matched))
            ] in
            ap (first_wildcard H after last) grown ∙ first_wildcard-snoc last _ differ ∙ same
      ]

  at_level-same :
      (k : ℕ) (last name : N)
      → IsAt H q k name
      → (k ≡ 1 → H.labels last ≡ H.labels q)
      → at_level H after k last name ≡ at_level H m k last name
  unfolding at_level
  at_level-same zero last name at read =
      let known = covered 0 name at.1 in
      rw
        (
          value_of-same (full name) known.0 (full-is_match H name q at.1),
          value_of-same (default_rule name) known.2 (default_rule-is_match H 0 name q at.0 at.1),
        )
        refl
  at_level-same (suc zero) last name at read =
      let known = covered 1 name at.1 in
      rw
        (
          wildcards-same (H.name_hash name) last (read refl),
          value_of-same (suffix name) known.1 (suffix-is_match H 1 name q at.0 (omega arith) at.1),
          value_of-same (default_rule name) known.2 (default_rule-is_match H 1 name q at.0 at.1),
        )
        refl
  at_level-same (suc (suc k)) last name at read =
      let known = covered (suc (suc k)) name at.1 in
      rw
        (
          value_of-same (suffix name) known.1
              (suffix-is_match H (suc (suc k)) name q at.0 (omega arith) at.1),
          value_of-same (default_rule name) known.2
              (default_rule-is_match H (suc (suc k)) name q at.0 at.1),
        )
        refl

  pub find_from-same :
      (fuel k : ℕ) (last name : N)
      → IsAt H q k name
      → (k ≡ 1 → H.labels last ≡ H.labels q)
      → find_from H fuel after k last name ≡ find_from H fuel m k last name
  unfolding find_from
  find_from-same zero k last name at read = refl
  find_from-same (suc fuel) k last name at read =
      let here = at_level-same k last name at read in
      let again =
        find_from-same fuel k last (H.fully_qualified name)
          (at.0, H.labels-fully_qualified name ∙ at.1) read in
      elim (Bool-cases (H.is_fqdn name)) [
        | inr bare ↦ rw (bare, here, again) refl
        | inl fqdn ↦ elim (Bool-cases (H.is_root name)) [
          | inl root ↦ rw (fqdn, root, here) refl
          | inr inner ↦
              let next =
                find_from-same fuel (suc k) name (H.base_name name)
                  (inner_level H q k name at fqdn inner, labels_above H q k name at.1)
                  (λ first. drop_none H k name q at.1 (omega (arith, first))) in
              rw (fqdn, inner, here, next) refl
        ]
      ]

module _ {N L W : Type 0} (H : Names N L W) (K : WildcardName N W → Type 0) {T : Type 0} where
  -- On a sound map, the insertion of a rule that a name does not match leaves what the name finds,
  -- where no two rules in use have one hash and the name asked for is not the root.
  pub find-insert_other :
      (into : WildcardName N W) (value : T) (m : DomainMap N W T) (name : N)
      → IsApart H K
      → K (qualified_rule H into)
      → IsSound H K m
      → 1 ≤ depth H (asked H name)
      → IsCovered H K (asked H name)
      → is_match H (qualified_rule H into) (asked H name) ≡ false
      → find H (insert H into value m).0 name ≡ find H m name
  unfolding insert
  find-insert_other into value m name apart known sound deep covered other =
      let q = asked H name in
      let sound_after = insert-IsSound H K into value m apart known sound in
      find-find_from H K (insert H into value m).0 name sound_after deep covered
      ∙ find_from-same H K apart (qualified_rule H into) known value m sound q other covered _ 0 q q
          (omega arith, refl) (λ first. refl)
      ∙ sym (find-find_from H K m name sound deep covered)
