-- ===== src/Server/Domains/Ends.antt =====
-- The loop of `find` (src/collections.rs) ends, whatever the map holds.
use smartdns_rs.Prelude.{
  Bool-cases, arith, if◌then◌else◌, inl, inr, refl, suc, zero, ℕ, ◌*◌, ◌+◌, ◌-◌, ◌∙◌, ◌≡◌, ◌≤◌,
}
use smartdns_rs.Server.Domains.{Names}
use smartdns_rs.Server.Domains.Map.{DomainMap, find_from}
use smartdns_rs.Server.Domains.Matching.{IsAt, depth, inner_level, labels_above}

module _ {N L W : Type 0} (H : Names N L W) {T : Type 0} (m : DomainMap N W T) (q : N) where
  -- Two turns for each label that is left and for the root, one less where the name is qualified.
  abbrev turns_left : ℕ → N → ℕ
  turns_left k name = 2 * (depth H q - k) + (if H.is_fqdn name then 1 else 2)

  find_from-ends :
      (fuel extra k : ℕ) (last name : N)
      → IsAt H q k name
      → turns_left k name ≤ fuel
      → find_from H (fuel + extra) m k last name ≡ find_from H fuel m k last name
  unfolding find_from
  find_from-ends zero extra k last name at enough = absurd (ground (arith, enough))
  find_from-ends (suc fuel) extra k last name at enough =
      let again =
        find_from-ends fuel extra k last (H.fully_qualified name)
          (at.0, H.labels-fully_qualified name ∙ at.1) in
      let longer : suc fuel + extra ≡ suc (fuel + extra) = omega arith in
      rw longer (elim (Bool-cases (H.is_fqdn name)) [
        | inr bare ↦
            rw (bare, again (ground (arith, enough, bare, H.is_fqdn-fully_qualified name))) refl
        | inl fqdn ↦ elim (Bool-cases (H.is_root name)) [
          | inl root ↦ rw (fqdn, root) refl
          | inr inner ↦
              let lower = inner_level H q k name at fqdn inner in
              let next =
                find_from-ends fuel extra (suc k) name (H.base_name name)
                  (lower, labels_above H q k name at.1) (ground (arith, enough, fqdn, lower)) in
              rw (fqdn, inner, next) refl
        ]
      ])

  -- Whatever a map holds, the loop of find ends by itself within two turns for each label of the
  -- name and two more: further fuel changes nothing.
  pub find-ends :
      (extra : ℕ)
      → find_from H (2 * depth H q + 2 + extra) m 0 q q ≡ find_from H (2 * depth H q + 2) m 0 q q
  find-ends extra =
      find_from-ends (2 * depth H q + 2) extra 0 q q (omega arith, refl) (ground arith)
