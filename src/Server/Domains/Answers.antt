-- ===== src/Server/Domains/Answers.antt =====
-- What `find` and `contains` of src/collections.rs answer.
use smartdns_rs.Prelude.{
  Bool-cases, Option, ap, arith, eq-nil_of_length, inl, inr, none, refl, some, sym, true, ℕ, ◌*◌,
  ◌+◌, ◌-◌, ◌↔◌, ◌≡◌, ◌≤◌, ◌⊎◌,
}
use smartdns_rs.Server.Domains.{Names, WildcardName, hash_code, is_match}
use smartdns_rs.Server.Domains.Map.{
  DomainMap, asked, contains, find, find_from, get, insert, no_rules,
}
use smartdns_rs.Server.Domains.Matching.{depth, below_all, is_match-Above, specificity}
use smartdns_rs.Server.Domains.Best.{Best}
use smartdns_rs.Server.Domains.Turns.{IsCovered}
use smartdns_rs.Server.Domains.Find.{find_from-Best}
use smartdns_rs.Server.Domains.Entries.{get-put_self}
use smartdns_rs.Server.Domains.Kept.{insert-IsSound, qualified_rule}
use smartdns_rs.Server.Domains.Sound.{IsApart}
use smartdns_rs.Server.Domains.Map.{store_rule}
use smartdns_rs.Server.Domains.Sound.{IsSound, IsStored}

module _ {N L W : Type 0} (H : Names N L W) (K : WildcardName N W → Type 0) {T : Type 0}
    (m : DomainMap N W T) where
  -- A stored rule that the name matches.
  abbrev pub IsHit : N → WildcardName N W → T → Type 0
  IsHit q w v = IsStored H K m w v × (is_match H w q ≡ true)

  -- No stored rule matches, or the answer is the value of a most specific one.
  abbrev pub IsAnswer : N → Option T → Type 0
  IsAnswer q o =
      ((o ≡ none) × ((w : WildcardName N W) (v : T) → ¬ IsHit q w v))
      ⊎ ((w : WildcardName N W) × (v : T) × (o ≡ some v)
          × IsHit q w v
          × ((x : WildcardName N W) (u : T) → IsHit q x u → specificity H x ≤ specificity H w))

  nothing_stored : no_rules H m ≡ true → (k : ℕ) → get k m.rule_values ≡ none
  unfolding get
  nothing_stored h k = ap (get k) (eq-nil_of_length m.rule_values (ground (arith, h)))

  Best-IsAnswer :
      (q : N) (o : Option T)
      → 1 ≤ depth H q
      → Best H K m q (4 * (depth H q - 0) + 4) o
      → IsAnswer q o
  Best-IsAnswer q o deep (inl (nothing, never)) =
      inl (nothing, λ w v h. never w v (h.0, h.1, below_all H w q (is_match-Above H w q deep h.1)))
  Best-IsAnswer q o deep (inr (w, v, found, (here, best))) = inr (
    w,
    v,
    found,
    (here.0, here.1),
    λ x u h. best x u (h.0, h.1, below_all H x q (is_match-Above H x q deep h.1)),
  )

  -- On a sound map, find answers with the value of a stored rule that the name asked for matches
  -- and than which no stored rule that it matches is more specific, and with nothing exactly where
  -- no stored rule is matched. The name asked for is not the root, and the rules that are asked for
  -- are among the rules in use, of which the soundness of the map speaks.
  pub find-IsAnswer :
      (name : N)
      → IsSound H K m
      → 1 ≤ depth H (asked H name)
      → IsCovered H K (asked H name)
      → IsAnswer (asked H name) (find H m name)
  unfolding find
  find-IsAnswer name sound deep covered =
      let q = asked H name in
      elim (Bool-cases (no_rules H m)) [
        | inl empty ↦
            rw empty
              (inl (refl, λ w v h. absurd (cc (h.0.1, nothing_stored empty (hash_code H w)))))
        | inr filled ↦ rw filled (
            Best-IsAnswer q _ deep (
              find_from-Best H K m sound q deep covered (2 * depth H q + 2) 0 q q
                (omega arith, refl) (λ first. refl) (ground arith)))
      ]

  -- The test for an empty map answers as the loop would.
  pub find-find_from :
      (name : N)
      → IsSound H K m
      → 1 ≤ depth H (asked H name)
      → IsCovered H K (asked H name)
      → let q = asked H name in find H m name ≡ find_from H (2 * depth H q + 2) m 0 q q
  unfolding find
  find-find_from name sound deep covered =
      let q = asked H name in
      let best =
        find_from-Best H K m sound q deep covered (2 * depth H q + 2) 0 q q (omega arith, refl)
          (λ first. refl) (ground arith) in
      elim (Bool-cases (no_rules H m)) [
        | inr filled ↦ rw filled refl
        | inl empty ↦ rw empty (elim best [
          | inl (nothing, never) ↦ sym nothing
          | inr (w, v, found, here) ↦ absurd (cc (here.0.0.1, nothing_stored empty (hash_code H w)))
        ])
      ]

  -- `contains` says yes exactly where a stored rule is matched.
  pub contains-IsHit :
      (name : N)
      → IsSound H K m
      → 1 ≤ depth H (asked H name)
      → IsCovered H K (asked H name)
      → (contains H m name ≡ true) ↔ ((w : WildcardName N W) × (v : T) × IsHit (asked H name) w v)
  unfolding contains
  contains-IsHit name sound deep covered = elim (find-IsAnswer name sound deep covered) [
    | inl (nothing, never) ↦ (λ h. absurd (cc (h, nothing)), λ (w, v, hit). absurd (never w v hit))
    | inr (w, v, found, hit, best) ↦ (λ h. (w, v, hit), λ h. rw found refl)
  ]

module _ {N L W : Type 0} (H : Names N L W) (K : WildcardName N W → Type 0) {T : Type 0} where
  -- A name that a rule matches finds a rule once that rule is inserted, and no less specific one.
  pub insert-find :
      (into : WildcardName N W) (value : T) (m : DomainMap N W T) (name : N)
      → IsApart H K
      → K (qualified_rule H into)
      → IsSound H K m
      → 1 ≤ depth H (asked H name)
      → IsCovered H K (asked H name)
      → is_match H (qualified_rule H into) (asked H name) ≡ true
      → let after = (insert H into value m).0 in
        (w : WildcardName N W) × (v : T) × (find H after name ≡ some v)
        × IsHit H K after (asked H name) w v
        × (specificity H (qualified_rule H into) ≤ specificity H w)
  unfolding insert store_rule
  insert-find into value m name apart known sound deep covered matched =
      let after = (insert H into value m).0 in
      let hit : IsHit H K after (asked H name) (qualified_rule H into) value = (
        (known, get-put_self (hash_code H (qualified_rule H into)) value m.rule_values),
        matched,
      ) in
      elim (find-IsAnswer H K after name (insert-IsSound H K into value m apart known sound) deep
        covered) [
          | inl (nothing, never) ↦ absurd (never _ value hit)
          | inr (w, v, found, here, best) ↦ (w, v, found, here, best _ value hit)
        ]
