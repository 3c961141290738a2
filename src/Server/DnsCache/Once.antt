-- ===== src/Server/DnsCache/Once.antt =====
-- Which queries `get_expired` of src/dns_mw_cache.rs leaves out.
use smartdns_rs.Prelude.{
  Bool, Bool-cases, List, Option, Option-cases, String, [], any, any-snoc, ap, false, inl, inr, leb,
  length, ltb, map, refl, suc, true, zero, ℕ, ◌%◌, ◌||◌, ◌∙◌, ◌∷◌, ◌≡◌,
}
use smartdns_rs.Server.Dns.{is_ip_addr, Query}
use smartdns_rs.Server.DnsCache.Entry.{DnsCacheEntry, is_current, should_retry_prefetch}
use smartdns_rs.Server.DnsCache.Host.{Host, same, same_iff}
use smartdns_rs.Server.DnsCache.Budget.{Shard}
use smartdns_rs.Server.DnsCache.Bytes.{length-on_shard}
use smartdns_rs.Server.DnsCache.Store.{DnsCache, PrefetchKey, on_shard, index_in}
use smartdns_rs.Server.DnsCache.Flags.{FlaggedAt, on_shard-FlaggedAt, on_shard_verdict}
use smartdns_rs.Server.DnsCache.Prefetch.{
  shards-file, Due, Scan, Verdict, dropped, requeued, due, file, get_expired, insert_due, judge,
  look, look_eq, scan, sort_onto, take_key,
}

neither : (a b : Bool) → (a || b) ≡ false → (a ≡ false) × (b ≡ false)
neither false b h = (refl, h)
neither true b h = absurd (cc h)

module _ {N D : Type 0} (H : Host N D) where
  abbrev Absent : Query N → List (Due N) → Type 0
  Absent q ds = any (λ (d : Due N). same H d.query q) ds ≡ false

  abbrev AbsentIn : Query N → Verdict N → Type 0
  AbsentIn q dropped = Unit
  AbsentIn q (requeued k) = Unit
  AbsentIn q (due d) = same H d.query q ≡ false

  -- A look at another query makes nothing of this one.
  judge_other :
      (q k : Query N) (threshold base_interval : ℕ) (e : DnsCacheEntry N D)
      → same H k q ≡ false
      → AbsentIn q (judge H k threshold base_interval e).1
  unfolding judge
  judge_other q k threshold base_interval e other =
      elim (Bool-cases (should_retry_prefetch threshold base_interval e)) [
        | inl retry ↦ elim (Bool-cases (is_ip_addr k.query_type)) [
          | inl address ↦ elim (Bool-cases (is_current threshold e)) [
            | inl current ↦ rw (retry, address, current) tt
            | inr over ↦ rw (retry, address, over) other
          ]
          | inr no_address ↦ rw (retry, no_address) tt
        ]
        | inr no_retry ↦ rw no_retry tt
      ]

  look_other :
      (q k : Query N) (threshold base_interval : ℕ) (s : Shard H) (b : Verdict N)
      → same H k q ≡ false
      → AbsentIn q (look H k threshold base_interval s b).1
  look_other q k threshold base_interval s b other = elim (Option-cases (H.lru.get_mut k s)) [
    | inl absent ↦ rw (look_eq H k threshold base_interval s b absent) tt
    | inr (old, present) ↦
        rw (look_eq H k threshold base_interval s b present)
          (judge_other q k threshold base_interval old other)
  ]

  on_shard_other :
      (q k : Query N) (threshold base_interval i : ℕ) (ss : List (Shard H))
      → same H k q ≡ false
      → AbsentIn q (on_shard H i (look H k threshold base_interval) ss dropped).1
  on_shard_other q k threshold base_interval i [] other = tt
  on_shard_other q k threshold base_interval zero (s ∷ ss) other =
      look_other q k threshold base_interval s dropped other
  on_shard_other q k threshold base_interval (suc i) (s ∷ ss) other =
      on_shard_other q k threshold base_interval i ss other

  -- Where the query is flagged, no key makes it due.
  verdict_absent :
      (q k : Query N) (threshold base_interval : ℕ) (ss : List (Shard H))
      → FlaggedAt H (H.hash q % length ss) q ss
      → AbsentIn q
          (on_shard H (H.hash k % length ss) (look H k threshold base_interval) ss dropped).1
  verdict_absent q k threshold base_interval ss flagged = elim (Bool-cases (same H k q)) [
    | inl hit ↦
        let k_is_q : k ≡ q = (same_iff H k q).0 hit in
        rw (k_is_q, on_shard_verdict H (H.hash q % length ss) q threshold base_interval ss flagged)
          tt
    | inr other ↦ on_shard_other q k threshold base_interval (H.hash k % length ss) ss other
  ]

  file-Absent :
      (q : Query N) (w : Verdict N) (v : Scan (Shard H) N)
      → AbsentIn q w
      → Absent q v.found
      → Absent q (file H w v).found
  file-Absent q dropped v h absent = absent
  file-Absent q (requeued k) v h absent = absent
  file-Absent q (due d) v h absent =
      any-snoc (λ (d : Due N). same H d.query q) v.found d ∙ cc (absent, h)

  pub length-take_key :
      (threshold base_interval : ℕ) (k : PrefetchKey N) (v : Scan (Shard H) N)
      → length (take_key H threshold base_interval k v).shards ≡ length v.shards
  length-take_key threshold base_interval k v =
      ap length (
        shards-file H
          (on_shard H (H.hash k.query % length v.shards) (look H k.query threshold base_interval)
            v.shards dropped).1
          _)
      ∙ length-on_shard H (H.hash k.query % length v.shards)
          (look H k.query threshold base_interval) v.shards dropped

  -- What a scan keeps of a flagged query: the flag, and its absence.
  abbrev Skips : Query N → Scan (Shard H) N → Type 0
  Skips q v = FlaggedAt H (H.hash q % length v.shards) q v.shards × Absent q v.found

  take_key-Skips :
      (q : Query N) (threshold base_interval : ℕ) (k : PrefetchKey N) (v : Scan (Shard H) N)
      → Skips q v
      → Skips q (take_key H threshold base_interval k v)
  take_key-Skips q threshold base_interval k v (flagged, absent) =
      let i = H.hash k.query % length v.shards in
      let run = look H k.query threshold base_interval in
      let r = on_shard H i run v.shards dropped in
      let still =
        on_shard-FlaggedAt H (H.hash q % length v.shards) i q k.query threshold base_interval
          v.shards dropped flagged in
      (
        rw (shards-file H r.1 (record v { shards = r.0 }), length-on_shard H i run v.shards dropped)
            still,
        file-Absent q r.1 (record v { shards = r.0 })
            (verdict_absent q k.query threshold base_interval v.shards flagged) absent,
      )

  scan-Skips :
      (q : Query N) (threshold base_interval max_count : ℕ) (ks : List (PrefetchKey N))
      (v : Scan (Shard H) N)
      → Skips q v
      → Skips q (scan H threshold base_interval max_count ks v)
  unfolding scan
  scan-Skips q threshold base_interval max_count [] v h = h
  scan-Skips q threshold base_interval max_count (k ∷ ks) v h =
      let rest =
        scan-Skips q threshold base_interval max_count ks (take_key H threshold base_interval k v)
          (take_key-Skips q threshold base_interval k v h) in
      elim (Bool-cases (ltb threshold k.expires)) [
        | inl later ↦ rw later h
        | inr ready ↦ elim (Bool-cases (leb max_count (length v.found))) [
          | inl full ↦ rw (ready, full) h
          | inr open_left ↦ rw (ready, open_left) rest
        ]
      ]

  insert_due-Absent :
      (q : Query N) (d : Due N) (ds : List (Due N))
      → same H d.query q ≡ false
      → Absent q ds
      → Absent q (insert_due d ds)
  insert_due-Absent q d [] h absent = cc h
  insert_due-Absent q d (x ∷ xs) h absent =
      let (here, there) =
        neither (same H x.query q) (any (λ (d : Due N). same H d.query q) xs) absent in
      let rest = insert_due-Absent q d xs h there in
      elim (Bool-cases (ltb x.hits d.hits)) [
        | inl more ↦ rw more (cc (h, there))
        | inr fewer ↦ rw fewer (cc rest)
      ]

  sort_onto-Absent :
      (q : Query N) (ds sorted : List (Due N))
      → Absent q ds
      → Absent q sorted
      → Absent q (sort_onto ds sorted)
  sort_onto-Absent q [] sorted h absent = absent
  sort_onto-Absent q (d ∷ ds) sorted h absent =
      let (here, there) = neither (same H d.query q) (any (λ (d : Due N). same H d.query q) ds) h in
      sort_onto-Absent q ds (insert_due d sorted) there (insert_due-Absent q d sorted here absent)

  pub any-map_query :
      (q : Query N) (ds : List (Due N))
      → any
          (λ (p : Query N × Option String). same H p.0 q)
          (map (λ (d : Due N). (d.query, d.group)) ds)
        ≡ any (λ (d : Due N). same H d.query q) ds
  any-map_query q [] = refl
  any-map_query q (d ∷ ds) = ap (λ b. same H d.query q || b) (any-map_query q ds)

  -- A query whose entry is flagged, with no failure noted, is not among those that are due,
  -- whatever the time is and however long ago the entry expired; and its entry stays flagged.
  pub get_expired-FlaggedAt :
      (q : Query N) (now : ℕ) (ahead : Option ℕ) (base_interval max_count : ℕ) (c : DnsCache H)
      → FlaggedAt H (index_in H c q) q c.shards
      → (any
            (λ (p : Query N × Option String). same H p.0 q)
            (get_expired H now ahead base_interval max_count c).0.0
          ≡ false)
        × FlaggedAt H
            (index_in H (get_expired H now ahead base_interval max_count c).1 q)
            q
            (get_expired H now ahead base_interval max_count c).1.shards
  unfolding get_expired
  get_expired-FlaggedAt q now ahead base_interval max_count c flagged =
      let (still, absent) =
        scan-Skips q _ base_interval max_count c.prefetch_heap _ (flagged, refl) in
      (any-map_query q _ ∙ sort_onto-Absent q _ [] absent refl, still)
