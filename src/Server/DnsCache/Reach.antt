-- ===== src/Server/DnsCache/Reach.antt =====
-- The states that the cache of src/dns_mw_cache.rs comes to from the one it starts with.
use smartdns_rs.Prelude.{
  Bool, Bool-cases, List, Option, String, [], arith, false, inl, inr, leb, length, ltb, map, refl,
  true, ℕ, ◌%◌, ◌∙◌, ◌∷◌, ◌≡◌,
}
use smartdns_rs.Server.Dispatch.{fetch_add}
use smartdns_rs.Server.Dns.{Query, Record, DnsResponse}
use smartdns_rs.Server.DnsCache.Entry.{Clock, DnsCacheEntry}
use smartdns_rs.Server.DnsCache.Host.{Host}
use smartdns_rs.Server.DnsCache.Budget.{Shard, stored_size}
use smartdns_rs.Server.DnsCache.Bytes.{push_new-mod, stored_size-on_shard}
use smartdns_rs.Server.DnsCache.Capacity.{IsRoomy, capacity, on_shard-IsRoomy, push-Fits}
use smartdns_rs.Server.DnsCache.Store.{DnsCache, PrefetchKey, index_in, on_shard, push_new}
use smartdns_rs.Server.DnsCache.Access.{
  clear, get, insert, insert_groups, insert_negative, insert_records, insert_whole, load_entries,
  load_entry, load_from,
}
use smartdns_rs.Server.DnsCache.Prefetch.{
  shards-file, dropped, Scan, get_expired, look, scan, take_key,
}
use smartdns_rs.Server.DnsCache.Invariant.{
  IsSound, IsStored, enforce-IsSound, get-IsSound, insert-IsSound, insert_negative-IsSound,
  locked-IsStored, look-Quiet,
}

module _ {N D : Type 0} (H : Host N D) where
  -- One operation, from a state to the next.
  pub data Step (c : DnsCache H) : DnsCache H → Type 0 where
    inserts :
        (original : Query N) (rs : List (Record N D)) (clock : Clock) (group : String)
        → Step c (insert_records H original rs clock group c).1
    inserts_negative :
        (query : Query N) (res : DnsResponse N D) (ttl : ℕ) (group : String) (clock : Clock)
        → Step c (insert_negative H query res ttl group clock c)
    looks_up : (query : Query N) (clock : Clock) → Step c (get H query clock c).1
    counts_hit : Step c (record c { query_hits = fetch_add c.query_hits 1 })
    prefetches :
        (now : ℕ) (ahead : Option ℕ) (base_interval max_count : ℕ)
        → Step c (get_expired H now ahead base_interval max_count c).1
    loads : (es : List (DnsCacheEntry N D)) → Step c (load_from H es c)
    clears : Step c (clear H c)

  pub data Reach (c : DnsCache H) : DnsCache H → Type 0 where
    stay : Reach c c
    next : {d e : DnsCache H} → Reach c d → Step d e → Reach c e

  insert_groups-IsSound :
      (n : ℕ) (original : Query N) (groups : List (Query N × List (Record N D × ℕ))) (clock : Clock)
      (group : String) (lookup : Option (DnsResponse N D)) (c : DnsCache H)
      → IsSound H n c
      → IsSound H n (insert_groups H original groups clock group lookup c).1
  unfolding insert_groups
  insert_groups-IsSound n original [] clock group lookup c h = h
  insert_groups-IsSound n original ((q, rs) ∷ groups) clock group lookup c h =
      insert_groups-IsSound n original groups clock group _ (insert H q rs clock group c).1
        (insert-IsSound H n q rs clock group c h)

  insert_whole-IsSound :
      (n : ℕ) (whole : Bool) (original : Query N) (groups : List (Query N × List (Record N D × ℕ)))
      (clock : Clock) (group : String) (c : DnsCache H)
      → IsSound H n c
      → IsSound H n (insert_whole H whole original groups clock group c).1
  insert_whole-IsSound n false original groups clock group c h = h
  insert_whole-IsSound n true original groups clock group c h =
      insert-IsSound H n original _ clock group c h

  pub insert_records-IsSound :
      (n : ℕ) (original : Query N) (rs : List (Record N D)) (clock : Clock) (group : String)
      (c : DnsCache H)
      → IsSound H n c
      → IsSound H n (insert_records H original rs clock group c).1
  unfolding insert_records
  insert_records-IsSound n original rs clock group c h =
      insert_groups-IsSound n original _ clock group _ _
        (insert_whole-IsSound n _ original _ clock group c h)

  load_entries-IsStored :
      (n : ℕ) (es : List (DnsCacheEntry N D)) (c : DnsCache H)
      → IsStored H n c
      → IsStored H n (load_entries H es c)
  unfolding load_entries
  load_entries-IsStored n [] c h = h
  load_entries-IsStored n (e ∷ es) c h = load_entries-IsStored n es (load_entry H e c) (
      locked-IsStored H n (index_in H c e.res.query) (push_new H e.res.query e) c
        (push_new-mod H e.res.query e) (λ s total. push-Fits H e.res.query e s) h)

  pub load_from-IsSound :
      (n : ℕ) (es : List (DnsCacheEntry N D)) (c : DnsCache H)
      → IsSound H n c
      → IsSound H n (load_from H es c)
  unfolding load_from
  load_from-IsSound n es c h =
      enforce-IsSound H n (load_entries H es c) (load_entries-IsStored n es c h.0)

  -- The shards of a scan keep their sizes and their room.
  abbrev SameStore : ℕ → List (Shard H) → List (Shard H) → Type 0
  SameStore n ss ss' = IsRoomy H n ss' × (stored_size H ss' ≡ stored_size H ss)

  take_key-SameStore :
      (n threshold base_interval : ℕ) (k : PrefetchKey N) (v : Scan (Shard H) N)
      → IsRoomy H n v.shards
      → SameStore n v.shards (take_key H threshold base_interval k v).shards
  take_key-SameStore n threshold base_interval k v h =
      let run = look H k.query threshold base_interval in
      let i = H.hash k.query % length v.shards in
      rw (shards-file H (on_shard H i run v.shards dropped).1 _) (
        on_shard-IsRoomy H n i run v.shards dropped
            (λ s b. (look-Quiet H k.query threshold base_interval s b).1) h,
        stored_size-on_shard H i run v.shards dropped
            (λ s b. (look-Quiet H k.query threshold base_interval s b).0),
      )

  scan-SameStore :
      (n threshold base_interval max_count : ℕ) (ks : List (PrefetchKey N)) (v : Scan (Shard H) N)
      → IsRoomy H n v.shards
      → SameStore n v.shards (scan H threshold base_interval max_count ks v).shards
  unfolding scan
  scan-SameStore n threshold base_interval max_count [] v h = (h, refl)
  scan-SameStore n threshold base_interval max_count (k ∷ ks) v h =
      let v' = take_key H threshold base_interval k v in
      let (roomy, sizes) = take_key-SameStore n threshold base_interval k v h in
      let (roomy', sizes') = scan-SameStore n threshold base_interval max_count ks v' roomy in
      elim (Bool-cases (ltb threshold k.expires)) [
        | inl later ↦ rw later (h, refl)
        | inr ready ↦ elim (Bool-cases (leb max_count (length v.found))) [
          | inl full ↦ rw (ready, full) (h, refl)
          | inr open_left ↦ rw (ready, open_left) (roomy', sizes' ∙ sizes)
        ]
      ]

  get_expired-IsSound :
      (n now : ℕ) (ahead : Option ℕ) (base_interval max_count : ℕ) (c : DnsCache H)
      → IsSound H n c
      → IsSound H n (get_expired H now ahead base_interval max_count c).1
  unfolding get_expired
  get_expired-IsSound n now ahead base_interval max_count c ((counted, roomy), within) =
      let (roomy', sizes) = scan-SameStore n _ base_interval max_count c.prefetch_heap _ roomy in
      ((rw sizes counted, roomy'), within)

  map_clear :
      (n : ℕ) (ss : List (Shard H))
      → IsRoomy H n ss
      → IsRoomy H n (map H.lru.clear ss) × (stored_size H (map H.lru.clear ss) ≡ 0)
  map_clear n [] h = (h, refl)
  map_clear n (s ∷ ss) (((full, pos), there), sum) =
      let ((all, rooms), nothing) = map_clear (capacity H ss) ss (there, refl) in
      rw (H.lru.entries-clear s, H.lru.cap-clear s)
        ((((omega arith, pos), all), omega (arith, rooms, sum)), omega (arith, nothing))

  clear-IsSound : (n : ℕ) (c : DnsCache H) → IsSound H n c → IsSound H n (clear H c)
  unfolding clear
  clear-IsSound n c ((counted, roomy), within) =
      let (roomy', nothing) = map_clear n c.shards roomy in
      ((omega (arith, nothing), roomy'), inr (omega arith))

  Step-IsSound : (n : ℕ) {c d : DnsCache H} → Step c d → IsSound H n c → IsSound H n d
  Step-IsSound n {c} (inserts original rs clock group) h =
      insert_records-IsSound n original rs clock group c h
  Step-IsSound n {c} (inserts_negative query res ttl group clock) h =
      insert_negative-IsSound H n query res ttl group clock c h
  Step-IsSound n {c} (looks_up query clock) h = get-IsSound H n query clock c h
  Step-IsSound n counts_hit h = h
  Step-IsSound n {c} (prefetches now ahead base_interval max_count) h =
      get_expired-IsSound n now ahead base_interval max_count c h
  Step-IsSound n {c} (loads es) h = load_from-IsSound n es c h
  Step-IsSound n {c} clears h = clear-IsSound n c h

  pub Reach-IsSound : (n : ℕ) {c d : DnsCache H} → Reach c d → IsSound H n c → IsSound H n d
  Reach-IsSound n stay h = h
  Reach-IsSound n (next r st) h = Step-IsSound n st (Reach-IsSound n r h)
