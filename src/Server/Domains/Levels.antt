-- ===== src/Server/Domains/Levels.antt =====
-- The four tests of a turn of `find` (src/collections.rs): what is left to find when one gives
-- nothing.
use smartdns_rs.Prelude.{
  ap, arith, drop, inl, inr, length, length-drop, none, refl, subst, sym, true, ℕ, ◌*◌, ◌+◌, ◌-◌,
  ◌∙◌, ◌≡◌, ◌≤◌,
}
use smartdns_rs.Server.Domains.{
  Names, WildcardName, default_rule, full, is_match, is_sub, kind_order, rule_base, sub, suffix,
}
use smartdns_rs.Server.Domains.Map.{DomainMap, first_wildcard, value_of, wildcards_at}
use smartdns_rs.Server.Domains.Matching.{
  Above, IsAt, Reaches, depth, depth_at, is_match-Above, is_match-labels, specificity,
}
use smartdns_rs.Server.Domains.Entries.{IsListed, keys-cases}
use smartdns_rs.Server.Domains.Best.{IsCandidate, first_wildcard-miss}
use smartdns_rs.Server.Domains.Sound.{IsSound, IsStored}

module _ {N L W : Type 0} (H : Names N L W) (K : WildcardName N W → Type 0) {T : Type 0}
    (m : DomainMap N W T) (sound : IsSound H K m) (q : N) (deep : 1 ≤ depth H q) where
  -- A stored rule whose name has the labels of a qualified name is the rule of that name.
  IsStored-here :
      (c : N → WildcardName N W) (n name : N) (v : T)
      → rule_base (c n) ≡ n
      → H.is_fqdn name ≡ true
      → H.labels n ≡ H.labels name
      → value_of H m (c name) ≡ none
      → ¬ IsStored H K m (c n) v
  IsStored-here c n name v base fqdn same absent stored =
      let stored_fqdn = ap H.is_fqdn (sym base) ∙ sound.qualified (c n) v stored in
      let one = H.name_ext n name same stored_fqdn fqdn in
      absurd (cc (ap (λ x. value_of H m (c x)) one, absent, stored.1))

  -- One name drops as many labels as another that has the same.
  same_level :
      (n name : N) (j k : ℕ)
      → H.labels n ≡ drop j (H.labels q)
      → H.labels name ≡ drop k (H.labels q)
      → j ≡ k
      → H.labels n ≡ H.labels name
  same_level n name j k here there same = here ∙ ap (λ i. drop i (H.labels q)) same ∙ sym there

  -- After `Full`, at the query itself.
  pub full-miss :
      (name : N) (w : WildcardName N W) (v : T)
      → IsAt H q 0 name
      → H.is_fqdn name ≡ true
      → value_of H m (full name) ≡ none
      → IsCandidate H K m q (4 * (depth H q - 0) + 4) w v
      → specificity H w + 1 ≤ 4 * (depth H q - 0) + 1
  unfolding rule_base kind_order Reaches
  full-miss name w v at fqdn absent (stored, same, under) =
      bound w (is_match-Above H w q deep same) stored
    where
      bound :
          (w : WildcardName N W)
          → Above H w q
          → IsStored H K m w v
          → specificity H w + 1 ≤ 4 * (depth H q - 0) + 1
      bound (full n) (j, short, labels, reach) stored = absurd (
          IsStored-here full n name v refl fqdn (same_level n name j 0 labels at.1 reach) absent
            stored)
      bound (suffix n) (j, short, labels, reach) stored =
          omega (arith, depth_at H q j n labels, short, reach)
      bound (sub p n) (j, short, labels, reach) stored =
          omega (arith, depth_at H q j n labels, short, reach)
      bound (default_rule n) (j, short, labels, reach) stored =
          let size = ap length labels ∙ length-drop j (H.labels q) in omega (arith, size, short)

  -- After the wildcards of the name above the query.
  pub sub-miss :
      (last name : N) (w : WildcardName N W) (v : T)
      → IsAt H q 1 name
      → H.is_fqdn name ≡ true
      → H.labels last ≡ H.labels q
      → first_wildcard H m last (wildcards_at m.wildcards (H.name_hash name)) ≡ none
      → IsCandidate H K m q (4 * (depth H q - 1) + 3) w v
      → specificity H w + 1 ≤ 4 * (depth H q - 1) + 2
  unfolding rule_base kind_order Reaches is_sub
  sub-miss last name w v at fqdn read absent (stored, same, under) =
      bound w (is_match-Above H w q deep same) stored same under
    where
      bound :
          (w : WildcardName N W)
          → Above H w q
          → IsStored H K m w v
          → is_match H w q ≡ true
          → specificity H w + 1 ≤ 4 * (depth H q - 1) + 3
          → specificity H w + 1 ≤ 4 * (depth H q - 1) + 2
      bound (full n) (j, short, labels, reach) stored same under =
          absurd (omega (arith, depth_at H q j n labels, short, reach, under))
      bound (suffix n) (j, short, labels, reach) stored same under =
          omega (arith, depth_at H q j n labels, short, reach)
      bound (sub p n) (j, short, labels, reach) stored same under =
          let stored_fqdn = sound.qualified (sub p n) v stored in
          let one = H.name_ext n name (same_level n name j 1 labels at.1 reach) stored_fqdn fqdn in
          let listed =
            subst (λ x. IsListed (sub p n) (wildcards_at m.wildcards (H.name_hash x))) one
              (sound.reached (sub p n) v stored refl) in
          let matched = is_match-labels H (sub p n) q last refl (sym read) same in
          let gone = first_wildcard-miss H K m q last _ (sub p n) listed matched absent in
          absurd (cc (gone, stored.1))
      bound (default_rule n) (j, short, labels, reach) stored same under =
          omega (arith, depth_at H q j n labels, short, under, deep)

  -- Above the name above the query no wildcard is left.
  pub upper-miss :
      (k : ℕ) (w : WildcardName N W) (v : T)
      → 2 ≤ k
      → k ≤ depth H q
      → IsCandidate H K m q (4 * (depth H q - k) + 4) w v
      → specificity H w + 1 ≤ 4 * (depth H q - k) + 2
  unfolding rule_base kind_order Reaches
  upper-miss k w v high at (stored, same, under) = bound w (is_match-Above H w q deep same) under
    where
      bound :
          (w : WildcardName N W)
          → Above H w q
          → specificity H w + 1 ≤ 4 * (depth H q - k) + 4
          → specificity H w + 1 ≤ 4 * (depth H q - k) + 2
      bound (full n) (j, short, labels, reach) under =
          absurd (omega (arith, depth_at H q j n labels, short, reach, under, high, at))
      bound (suffix n) (j, short, labels, reach) under =
          omega (arith, depth_at H q j n labels, short, under)
      bound (sub p n) (j, short, labels, reach) under =
          absurd (omega (arith, depth_at H q j n labels, short, reach, under, high, at))
      bound (default_rule n) (j, short, labels, reach) under =
          omega (arith, depth_at H q j n labels, short, under)

  -- After `Suffix`.
  pub suffix-miss :
      (k : ℕ) (name : N) (w : WildcardName N W) (v : T)
      → IsAt H q k name
      → H.is_fqdn name ≡ true
      → value_of H m (suffix name) ≡ none
      → IsCandidate H K m q (4 * (depth H q - k) + 2) w v
      → specificity H w + 1 ≤ 4 * (depth H q - k) + 1
  unfolding rule_base kind_order Reaches
  suffix-miss k name w v at fqdn absent (stored, same, under) =
      bound w (is_match-Above H w q deep same) stored under
    where
      bound :
          (w : WildcardName N W)
          → Above H w q
          → IsStored H K m w v
          → specificity H w + 1 ≤ 4 * (depth H q - k) + 2
          → specificity H w + 1 ≤ 4 * (depth H q - k) + 1
      bound (full n) (j, short, labels, reach) stored under =
          omega (arith, depth_at H q j n labels, short, under)
      bound (sub p n) (j, short, labels, reach) stored under =
          omega (arith, depth_at H q j n labels, short, under)
      bound (default_rule n) (j, short, labels, reach) stored under =
          omega (arith, depth_at H q j n labels, short, under)
      bound (suffix n) (j, short, labels, reach) stored under = elim (keys-cases j k) [
        | inr other ↦ omega (arith, depth_at H q j n labels, short, under, other, at.0)
        | inl level ↦ absurd (
            IsStored-here suffix n name v refl fqdn (same_level n name j k labels at.1 (sym level))
              absent stored)
      ]

  -- After `Default`.
  pub default_rule-miss :
      (k : ℕ) (name : N) (w : WildcardName N W) (v : T)
      → IsAt H q k name
      → H.is_fqdn name ≡ true
      → value_of H m (default_rule name) ≡ none
      → IsCandidate H K m q (4 * (depth H q - k) + 1) w v
      → specificity H w + 1 ≤ 4 * (depth H q - k)
  unfolding rule_base kind_order Reaches
  default_rule-miss k name w v at fqdn absent (stored, same, under) =
      bound w (is_match-Above H w q deep same) stored under
    where
      bound :
          (w : WildcardName N W)
          → Above H w q
          → IsStored H K m w v
          → specificity H w + 1 ≤ 4 * (depth H q - k) + 1
          → specificity H w + 1 ≤ 4 * (depth H q - k)
      bound (full n) (j, short, labels, reach) stored under =
          omega (arith, depth_at H q j n labels, short, under)
      bound (sub p n) (j, short, labels, reach) stored under =
          omega (arith, depth_at H q j n labels, short, under)
      bound (suffix n) (j, short, labels, reach) stored under =
          omega (arith, depth_at H q j n labels, short, under)
      bound (default_rule n) (j, short, labels, reach) stored under = elim (keys-cases j k) [
        | inr other ↦ omega (arith, depth_at H q j n labels, short, under, other, at.0)
        | inl level ↦ absurd (
            IsStored-here default_rule n name v refl fqdn
              (same_level n name j k labels at.1 (sym level)) absent stored)
      ]
