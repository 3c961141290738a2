-- ===== src/Server/DnsCache/Waiting.antt =====
-- How the scan of `get_expired` in src/dns_mw_cache.rs comes to an entry that waits for a refresh.
use smartdns_rs.Prelude.{
  All, Bool, Bool-cases, List, Option-cases, [], any, any-snoc, ap, arith, false, if_false, if_true,
  inl, inr, leb, length, length-append, le→ltb, ltb, not, refl, some, suc, sym, true, zero, ℕ, ◌%◌,
  ◌++◌, ◌+◌, ◌<◌, ◌||◌, ◌∙◌, ◌∷◌, ◌≡◌, ◌≤◌,
}
use smartdns_rs.Server.Dns.{is_ip_addr, Query}
use smartdns_rs.Server.DnsCache.Entry.{DnsCacheEntry, is_current, retry_after}
use smartdns_rs.Server.DnsCache.Host.{Host, same, same_iff}
use smartdns_rs.Server.DnsCache.Lru.{find, find-erase}
use smartdns_rs.Server.DnsCache.Budget.{Shard, entries}
use smartdns_rs.Server.DnsCache.Bytes.{length-on_shard}
use smartdns_rs.Server.DnsCache.Store.{PrefetchKey, on_shard}
use smartdns_rs.Server.DnsCache.Prefetch.{
  shards-file, Due, Scan, Verdict, dropped, requeued, due, due_entry, file, judge, look, look_eq,
  scan, take_key,
}

pub or_true : (a : Bool) {b : Bool} → b ≡ true → (a || b) ≡ true
or_true true h = refl
or_true false h = h

module _ {N D : Type 0} (H : Host N D) (threshold : ℕ) where
  -- A query's entry has expired at the threshold, and no refresh of it is under way.
  abbrev pub Waiting : Query N → Shard H → Type 0
  Waiting q s =
      (e : DnsCacheEntry N D) × ((find (same H) q (entries H s) ≡ some e)
        × ((e.is_in_prefetching ≡ false) × (is_current threshold e ≡ false)))

  -- It has, in the shard at an index.
  abbrev pub WaitingAt : ℕ → Query N → List (Shard H) → Type 0
  WaitingAt i q [] = ⊥
  WaitingAt zero q (s ∷ ss) = Waiting q s
  WaitingAt (suc i) q (s ∷ ss) = WaitingAt i q ss

module _ {N D : Type 0} (H : Host N D) where
  abbrev pub Present : Query N → List (Due N) → Type 0
  Present q ds = any (λ (d : Due N). same H d.query q) ds ≡ true

module _ {N D : Type 0} (H : Host N D) (threshold base_interval : ℕ) where
  judge-Waiting :
      (q : Query N) (e : DnsCacheEntry N D)
      → is_ip_addr q.query_type ≡ true
      → e.is_in_prefetching ≡ false
      → is_current threshold e ≡ false
      → (judge H q threshold base_interval e).1 ≡ due_entry H q e
  unfolding judge
  judge-Waiting q e address free over =
      let retried =
        if_true _ (ap not free) true (retry_after threshold base_interval e.failed_at) in
      ap (λ (r : DnsCacheEntry N D × Verdict N). r.1)
        (if_false _ (ap not retried) _ _ ∙ if_false _ (ap not address) _ _ ∙ if_false _ over _ _)

  look-Waiting :
      (q k : Query N) (s : Shard H) (b : Verdict N)
      → same H k q ≡ false
      → Waiting H threshold q s
      → Waiting H threshold q (look H k threshold base_interval s b).0
  look-Waiting q k s b other (e, (found, (free, over))) = elim (Option-cases (H.lru.get_mut k s)) [
    | inl absent ↦ rw (look_eq H k threshold base_interval s b absent) (e, (found, (free, over)))
    | inr (old, present) ↦
        let v = (judge H k threshold base_interval old).0 in
        let at_list : find (same H) k (entries H s) ≡ some old =
          sym (H.lru.get_mut-find k s) ∙ present in
        rw (look_eq H k threshold base_interval s b present, H.lru.entries-write k v old s at_list)
          (
            e,
            (
              if_false _ other _ _
                  ∙ find-erase (same H) (same_iff H) q k (entries H s) other
                  ∙ found,
              (free, over),
            ),
          )
  ]

  verdict-Waiting :
      (q : Query N) (s : Shard H) (b : Verdict N)
      → is_ip_addr q.query_type ≡ true
      → Waiting H threshold q s
      → (d : Due N) × (((look H q threshold base_interval s b).1 ≡ due d) × (d.query ≡ q))
  verdict-Waiting q s b address (e, (found, (free, over))) =
      let present : H.lru.get_mut q s ≡ some e = H.lru.get_mut-find q s ∙ found in
      (
        record { query = q; hits = e.hits; group = e.res.name_server_group },
        (
          ap (λ r. r.1) (look_eq H q threshold base_interval s b present)
              ∙ judge-Waiting q e address free over,
          refl,
        ),
      )

  on_shard-WaitingAt :
      (i j : ℕ) (q k : Query N) (ss : List (Shard H)) (b : Verdict N)
      → same H k q ≡ false
      → WaitingAt H threshold i q ss
      → WaitingAt H threshold i q (on_shard H j (look H k threshold base_interval) ss b).0
  on_shard-WaitingAt i j q k [] b other h = h
  on_shard-WaitingAt zero zero q k (s ∷ ss) b other h = look-Waiting q k s b other h
  on_shard-WaitingAt (suc i) zero q k (s ∷ ss) b other h = h
  on_shard-WaitingAt zero (suc j) q k (s ∷ ss) b other h = h
  on_shard-WaitingAt (suc i) (suc j) q k (s ∷ ss) b other h =
      on_shard-WaitingAt i j q k ss b other h

  on_shard_due :
      (i : ℕ) (q : Query N) (ss : List (Shard H))
      → is_ip_addr q.query_type ≡ true
      → WaitingAt H threshold i q ss
      → (d : Due N) × (((on_shard H i (look H q threshold base_interval) ss dropped).1 ≡ due d)
          × (d.query ≡ q))
  on_shard_due i q [] address h = absurd h
  on_shard_due zero q (s ∷ ss) address h = verdict-Waiting q s dropped address h
  on_shard_due (suc i) q (s ∷ ss) address h = on_shard_due i q ss address h

  found-file :
      (w : Verdict N) (v : Scan (Shard H) N) (q : Query N)
      → Present H q v.found
      → Present H q (file H w v).found
  found-file dropped v q h = h
  found-file (requeued k) v q h = h
  found-file (due d) v q h = any-snoc (λ (d : Due N). same H d.query q) v.found d ∙ cc h

  length-file :
      (w : Verdict N) (v : Scan (Shard H) N) → length (file H w v).found ≤ length v.found + 1
  length-file dropped v = omega arith
  length-file (requeued k) v = omega arith
  length-file (due d) v = omega (arith, length-append v.found (d ∷ []))

  -- A key of another query leaves a waiting entry so.
  take_key-WaitingAt :
      (q : Query N) (k : PrefetchKey N) (v : Scan (Shard H) N)
      → same H k.query q ≡ false
      → WaitingAt H threshold (H.hash q % length v.shards) q v.shards
      → WaitingAt H threshold
          (H.hash q % length (take_key H threshold base_interval k v).shards)
          q
          (take_key H threshold base_interval k v).shards
  take_key-WaitingAt q k v other h =
      let i = H.hash k.query % length v.shards in
      let run = look H k.query threshold base_interval in
      let r = on_shard H i run v.shards dropped in
      rw (shards-file H r.1 (record v { shards = r.0 }), length-on_shard H i run v.shards dropped)
        (on_shard-WaitingAt (H.hash q % length v.shards) i q k.query v.shards dropped other h)

  -- The query's own key makes it due.
  found-take_key :
      (q : Query N) (k : PrefetchKey N) (v : Scan (Shard H) N)
      → is_ip_addr q.query_type ≡ true
      → k.query ≡ q
      → WaitingAt H threshold (H.hash q % length v.shards) q v.shards
      → Present H q (take_key H threshold base_interval k v).found
  found-take_key q k v address own h =
      let (d, (verdict, about_q)) =
        on_shard_due (H.hash q % length v.shards) q v.shards address h in
      let here : same H d.query q ≡ true = ap (λ x. same H x q) about_q ∙ (same_iff H q q).1 refl in
      rw (own, verdict)
        (any-snoc (λ (d : Due N). same H d.query q) v.found d
          ∙ or_true (any (λ (d : Due N). same H d.query q) v.found) here)

  take_key-Present :
      (q : Query N) (k : PrefetchKey N) (v : Scan (Shard H) N)
      → Present H q v.found
      → Present H q (take_key H threshold base_interval k v).found
  take_key-Present q k v h =
      let r =
        on_shard H (H.hash k.query % length v.shards) (look H k.query threshold base_interval)
          v.shards dropped in
      found-file r.1 (record v { shards = r.0 }) q h

  scan-Present :
      (max_count : ℕ) (q : Query N) (ks : List (PrefetchKey N)) (v : Scan (Shard H) N)
      → Present H q v.found
      → Present H q (scan H threshold base_interval max_count ks v).found
  unfolding scan
  scan-Present max_count q [] v h = h
  scan-Present max_count q (k ∷ ks) v h =
      let rest =
        scan-Present max_count q ks (take_key H threshold base_interval k v)
          (take_key-Present q k v h) in
      elim (Bool-cases (ltb threshold k.expires)) [
        | inl later ↦ rw later h
        | inr ready ↦ elim (Bool-cases (leb max_count (length v.found))) [
          | inl full ↦ rw (ready, full) h
          | inr open_left ↦ rw (ready, open_left) rest
        ]
      ]

  scan_step :
      (max_count : ℕ) (k : PrefetchKey N) (ks : List (PrefetchKey N)) (v : Scan (Shard H) N)
      → k.expires ≤ threshold
      → length v.found < max_count
      → scan H threshold base_interval max_count (k ∷ ks) v
        ≡ scan H threshold base_interval max_count ks (take_key H threshold base_interval k v)
  unfolding scan
  scan_step max_count k ks v ready open_left =
      let not_full : leb max_count (length v.found) ≡ false = ground arith in
      if_false _ (le→ltb threshold k.expires ready) _ _ ∙ if_false _ not_full _ _

  -- The scan comes to the query's key, or has made it due before.
  pub scan_reaches :
      (max_count : ℕ) (q : Query N) (front : List (PrefetchKey N)) (k : PrefetchKey N)
      (ks : List (PrefetchKey N)) (v : Scan (Shard H) N)
      → is_ip_addr q.query_type ≡ true
      → k.query ≡ q
      → All (λ (k : PrefetchKey N). k.expires ≤ threshold) (front ++ k ∷ [])
      → length v.found + length front < max_count
      → WaitingAt H threshold (H.hash q % length v.shards) q v.shards
      → Present H q (scan H threshold base_interval max_count (front ++ k ∷ ks) v).found
  scan_reaches max_count q [] k ks v address own (ready, _) room h =
      rw (scan_step max_count k ks v ready (omega (arith, room))) (
        scan-Present max_count q ks (take_key H threshold base_interval k v)
          (found-take_key q k v address own h))
  scan_reaches max_count q (f ∷ front) k ks v address own (ready, all) room h =
      let v' = take_key H threshold base_interval f v in
      let r =
        on_shard H (H.hash f.query % length v.shards) (look H f.query threshold base_interval)
          v.shards dropped in
      let grown = length-file r.1 (record v { shards = r.0 }) in
      rw (scan_step max_count f (front ++ k ∷ ks) v ready (omega (arith, room)))
        (elim (Bool-cases (same H f.query q)) [
          | inl hit ↦
              scan-Present max_count q (front ++ k ∷ ks) v'
                (found-take_key q f v address ((same_iff H f.query q).0 hit) h)
          | inr other ↦
              scan_reaches max_count q front k ks v' address own all (omega (arith, room, grown))
                (take_key-WaitingAt q f v other h)
        ])
