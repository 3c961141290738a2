-- ===== src/Server/DnsCache/Named.antt =====
-- The names in the answers of `get` of src/dns_mw_cache.rs.
use smartdns_rs.Prelude.{
  All, Bool-cases, List, [], any, arith, false, inl, inr, map, not, refl, true, ◌&&◌, ◌==◌, ◌∷◌,
  ◌≡◌, ◌⊎◌,
}
use smartdns_rs.Server.Dns.{DnsResponse, Query, Record, rr_cname}
use smartdns_rs.Server.DnsCache.Access.{all_ip_records, rename, set_name}
use smartdns_rs.Server.DnsCache.Host.{Host}

module _ {N D : Type 0} (H : Host N D) where
  -- The answers as they were, or address records without an alias among them, of which one has
  -- another name, under the name asked for.
  abbrev pub IsNamed : Query N → List (Record N D) → List (Record N D) → Type 0
  IsNamed query stored named =
      (named ≡ stored)
        × ((any (λ r. r.record_type == rr_cname) stored ≡ true)
            ⊎ (all_ip_records H stored ≡ false)
            ⊎ All (λ (r : Record N D). r.name ≡ query.name) stored)
      ⊎ (any (λ r. r.record_type == rr_cname) stored ≡ false)
        × (all_ip_records H stored ≡ true)
        × (named ≡ map (set_name H query.name) stored)

  any-same_name :
      (name : N) (rs : List (Record N D))
      → any (λ r. not (H.same_name r.name name)) rs ≡ false
      → All (λ (r : Record N D). r.name ≡ name) rs
  any-same_name name [] h = tt
  any-same_name name (r ∷ rs) h =
      ((H.same_name_iff r.name name).0 (ground arith), any-same_name name rs (ground arith))

  pub rename-IsNamed :
      (query : Query N) (res : DnsResponse N D)
      → IsNamed query res.answers (rename H query res).answers
  unfolding rename
  rename-IsNamed query res =
      let alias = any (λ r. r.record_type == rr_cname) res.answers in
      let other = any (λ r. not (H.same_name r.name query.name)) res.answers in
      elim (Bool-cases alias) [
        | inl y ↦ rw y (inl (refl, inl refl))
        | inr n ↦ elim (Bool-cases (all_ip_records H res.answers)) [
          | inr not_all ↦ rw (n, not_all) (inl (refl, inr (inl refl)))
          | inl ips ↦ elim (Bool-cases other) [
            | inl some_other ↦ rw (n, ips, some_other) (inr (refl, refl, refl))
            | inr same_names ↦
                rw (n, ips, same_names)
                  (inl (refl, inr (inr (any-same_name query.name res.answers same_names))))
          ]
        ]
      ]

  -- The answers are all that a rename changes.
  pub rename-answers :
      (query : Query N) (res : DnsResponse N D)
      → rename H query res ≡ record res { answers = (rename H query res).answers }
  unfolding rename
  rename-answers query res =
      elim (Bool-cases (
        not (any (λ r. r.record_type == rr_cname) res.answers)
        && (all_ip_records H res.answers
            && any (λ r. not (H.same_name r.name query.name)) res.answers))) [
              | inl y ↦ rw y refl
              | inr n ↦ rw n refl
            ]
