-- ===== src/Server/DnsCache/Flags.antt =====
-- The flag `is_in_prefetching` in src/dns_mw_cache.rs, and what `get_expired` makes of it.
use smartdns_rs.Prelude.{
  Bool, Bool-cases, List, Option, Option-cases, [], ap, false, if_false, if_true, if◌then◌else◌,
  inl, inr, none, not, refl, some, suc, sym, true, zero, ℕ, ◌∙◌, ◌∷◌, ◌≡◌,
}
use smartdns_rs.Server.Dns.{Query}
use smartdns_rs.Server.DnsCache.Entry.{DnsCacheEntry, retry_after}
use smartdns_rs.Server.DnsCache.Host.{Host, same, same_iff}
use smartdns_rs.Server.DnsCache.Lru.{find, find-erase}
use smartdns_rs.Server.DnsCache.Budget.{Shard, entries}
use smartdns_rs.Server.DnsCache.Store.{on_shard}
use smartdns_rs.Server.DnsCache.Prefetch.{Verdict, dropped, judge, look, look_eq}

not_retried :
    (threshold base_interval : ℕ) (flag : Bool) (failed_at : Option ℕ)
    → flag ≡ true
    → failed_at ≡ none
    → (if not flag then true else retry_after threshold base_interval failed_at) ≡ false
not_retried threshold base_interval true none h h' = refl
not_retried threshold base_interval true (some t) h h' = absurd (cc h')
not_retried threshold base_interval false o h h' = absurd (cc h)

module _ {N D : Type 0} (H : Host N D) where
  -- A query's entry in a shard is flagged, with no failure noted.
  abbrev pub Flagged : Query N → Shard H → Type 0
  Flagged q s =
      (e : DnsCacheEntry N D) × ((find (same H) q (entries H s) ≡ some e)
        × ((e.is_in_prefetching ≡ true) × (e.failed_at ≡ none)))

  -- It is, in the shard at an index.
  abbrev pub FlaggedAt : ℕ → Query N → List (Shard H) → Type 0
  FlaggedAt i q [] = ⊥
  FlaggedAt zero q (s ∷ ss) = Flagged q s
  FlaggedAt (suc i) q (s ∷ ss) = FlaggedAt i q ss

  judge-Flagged :
      (q : Query N) (threshold base_interval : ℕ) (e : DnsCacheEntry N D)
      → e.is_in_prefetching ≡ true
      → e.failed_at ≡ none
      → judge H q threshold base_interval e ≡ (e, dropped)
  unfolding judge
  judge-Flagged q threshold base_interval e flag no_failure =
      if_true _
        (ap not
          (not_retried threshold base_interval e.is_in_prefetching e.failed_at flag no_failure))
        _ _

  -- Whatever query is looked at, a flagged entry stays as it is.
  look-Flagged :
      (q k : Query N) (threshold base_interval : ℕ) (s : Shard H) (b : Verdict N)
      → Flagged q s
      → Flagged q (look H k threshold base_interval s b).0
  look-Flagged q k threshold base_interval s b (e, (found, (flag, no_failure))) =
      elim (Option-cases (H.lru.get_mut k s)) [
        | inl absent ↦
            rw (look_eq H k threshold base_interval s b absent) (e, (found, (flag, no_failure)))
        | inr (old, present) ↦
            let v = (judge H k threshold base_interval old).0 in
            let at_list : find (same H) k (entries H s) ≡ some old =
              sym (H.lru.get_mut-find k s) ∙ present in
            rw
              (
                look_eq H k threshold base_interval s b present,
                H.lru.entries-write k v old s at_list,
              )
              (elim (Bool-cases (same H k q)) [
                | inl hit ↦
                    let k_is_q : k ≡ q = (same_iff H k q).0 hit in
                    let old_is_e : some old ≡ some e =
                      sym at_list ∙ ap (λ x. find (same H) x (entries H s)) k_is_q ∙ found in
                    let kept : v ≡ e =
                      ap (λ x. (judge H k threshold base_interval x).0) (cc old_is_e)
                      ∙ ap (λ r. r.0) (judge-Flagged k threshold base_interval e flag no_failure) in
                    (e, (if_true _ hit _ _ ∙ ap some kept, (flag, no_failure)))
                | inr miss ↦ (
                  e,
                  (
                    if_false _ miss _ _
                        ∙ find-erase (same H) (same_iff H) q k (entries H s) miss
                        ∙ found,
                    (flag, no_failure),
                  ),
                )
              ])
      ]

  -- Of the query itself the look makes nothing.
  verdict-Flagged :
      (q : Query N) (threshold base_interval : ℕ) (s : Shard H) (b : Verdict N)
      → Flagged q s
      → (look H q threshold base_interval s b).1 ≡ dropped
  verdict-Flagged q threshold base_interval s b (e, (found, (flag, no_failure))) =
      let present : H.lru.get_mut q s ≡ some e = H.lru.get_mut-find q s ∙ found in
      ap (λ r. r.1) (look_eq H q threshold base_interval s b present)
      ∙ ap (λ r. r.1) (judge-Flagged q threshold base_interval e flag no_failure)

  pub on_shard-FlaggedAt :
      (i j : ℕ) (q k : Query N) (threshold base_interval : ℕ) (ss : List (Shard H)) (b : Verdict N)
      → FlaggedAt i q ss
      → FlaggedAt i q (on_shard H j (look H k threshold base_interval) ss b).0
  on_shard-FlaggedAt i j q k threshold base_interval [] b h = h
  on_shard-FlaggedAt zero zero q k threshold base_interval (s ∷ ss) b h =
      look-Flagged q k threshold base_interval s b h
  on_shard-FlaggedAt (suc i) zero q k threshold base_interval (s ∷ ss) b h = h
  on_shard-FlaggedAt zero (suc j) q k threshold base_interval (s ∷ ss) b h = h
  on_shard-FlaggedAt (suc i) (suc j) q k threshold base_interval (s ∷ ss) b h =
      on_shard-FlaggedAt i j q k threshold base_interval ss b h

  pub on_shard_verdict :
      (i : ℕ) (q : Query N) (threshold base_interval : ℕ) (ss : List (Shard H))
      → FlaggedAt i q ss
      → (on_shard H i (look H q threshold base_interval) ss dropped).1 ≡ dropped
  on_shard_verdict i q threshold base_interval [] h = refl
  on_shard_verdict zero q threshold base_interval (s ∷ ss) h =
      verdict-Flagged q threshold base_interval s dropped h
  on_shard_verdict (suc i) q threshold base_interval (s ∷ ss) h =
      on_shard_verdict i q threshold base_interval ss h
