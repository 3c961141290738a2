-- ===== src/Server/DnsCache/Limits.antt =====
-- The limits that the cache of src/dns_mw_cache.rs stays within, in every state it comes to.
use smartdns_rs.Prelude.{
  Bool, Bool-cases, List, Option, String, [], ap, arith, false, flat_map, if◌then◌else◌, inl, inr,
  leb, leb→le, length, length-append, ltb, map, max, min, refl, subst, suc, true, zero, ℕ, ◌%◌, ◌*◌,
  ◌+◌, ◌-◌, ◌/◌, ◌<◌, ◌∙◌, ◌∷◌, ◌≡◌, ◌≤◌, ◌⊎◌,
}
use smartdns_rs.Server.Dispatch.{word}
use smartdns_rs.Server.Dns.{Query, Record, DnsResponse}
use smartdns_rs.Server.DnsCache.Host.{Host}
use smartdns_rs.Server.DnsCache.Budget.{Shard, entries, entry_count, stored_size}
use smartdns_rs.Server.DnsCache.Capacity.{IsRoomy, entry_count-le}
use smartdns_rs.Server.DnsCache.Store.{
  DnsCache, new, new_shards, shard_count_of, store, cache_shard_count, store,
}
use smartdns_rs.Server.DnsCache.Entry.{Clock, DnsCacheEntry}
use smartdns_rs.Server.DnsCache.Access.{
  cached_record, cached_records, clear, get, insert, insert_groups, insert_negative, insert_records,
  insert_whole, is_cname_query, load_entries, load_entry, load_from,
}
use smartdns_rs.Server.DnsCache.Prefetch.{get_expired}
use smartdns_rs.Server.DnsCache.Reach.{
  Step, inserts, inserts_negative, looks_up, counts_hit, prefetches, loads, clears, stay, next,
  Reach, Reach-IsSound,
}
use smartdns_rs.Server.DnsCache.Invariant.{IsSound}

module _ {N D : Type 0} (H : Host N D) where
  -- The shards that the remainder reaches have room for one entry more.
  new_shards-IsRoomy :
      (per_shard remainder i count : ℕ)
      → 0 < per_shard
      → IsRoomy H
          (per_shard * count + (min remainder (i + count) - min remainder i))
          (new_shards H per_shard remainder i count)
        × (stored_size H (new_shards H per_shard remainder i count) ≡ 0)
  new_shards-IsRoomy per_shard remainder i zero pos = ((tt, omega arith), refl)
  new_shards-IsRoomy per_shard remainder i (suc count) pos =
      let ((all, rooms), nothing) = new_shards-IsRoomy per_shard remainder (i + 1) count pos in
      let room = per_shard + (if ltb i remainder then 1 else 0) in
      rw (H.lru.entries-new room, H.lru.cap-new room)
        ((((omega arith, ground arith), all), ground (arith, rooms)), omega (arith, nothing))

  -- Sixteen shards share the size and its remainder out, and one has room for one entry at least.
  rooms_sum :
      (n : ℕ)
      → max (n / shard_count_of H n) 1 * shard_count_of H n
          + (min (n - max (n / shard_count_of H n) 1 * shard_count_of H n) (0 + shard_count_of H n)
              - min (n - max (n / shard_count_of H n) 1 * shard_count_of H n) 0)
        ≡ max n 1
  rooms_sum n = elim (Bool-cases (leb cache_shard_count n)) [
    | inl many ↦ rw many (omega (arith, leb→le cache_shard_count n many))
    | inr few ↦ rw few (omega arith)
  ]

  new-IsSound :
      (cache_size : ℕ) (serve_expired : Bool) (expired_ttl expired_reply_ttl max_bytes : ℕ)
      → IsSound H
          (max cache_size 1)
          (new H cache_size serve_expired expired_ttl expired_reply_ttl max_bytes)
  unfolding new
  new-IsSound cache_size serve_expired expired_ttl expired_reply_ttl max_bytes =
      let count = shard_count_of H cache_size in
      let per_shard = max (cache_size / count) 1 in
      let remainder = cache_size - per_shard * count in
      let ((all, rooms), nothing) = new_shards-IsRoomy per_shard remainder 0 count (omega arith) in
      ((omega (arith, nothing), (all, rooms ∙ rooms_sum cache_size)), inr (omega arith))

  max_bytes-insert_groups :
      (original : Query N) (groups : List (Query N × List (Record N D × ℕ))) (clock : Clock)
      (group : String) (lookup : Option (DnsResponse N D)) (c : DnsCache H)
      → (insert_groups H original groups clock group lookup c).1.max_bytes ≡ c.max_bytes
  unfolding insert_groups insert store
  max_bytes-insert_groups original [] clock group lookup c = refl
  max_bytes-insert_groups original ((q, rs) ∷ groups) clock group lookup c =
      max_bytes-insert_groups original groups clock group _ (insert H q rs clock group c).1

  max_bytes-insert_whole :
      (whole : Bool) (original : Query N) (groups : List (Query N × List (Record N D × ℕ)))
      (clock : Clock) (group : String) (c : DnsCache H)
      → (insert_whole H whole original groups clock group c).1.max_bytes ≡ c.max_bytes
  unfolding insert store
  max_bytes-insert_whole false original groups clock group c = refl
  max_bytes-insert_whole true original groups clock group c = refl

  max_bytes-load_entries :
      (es : List (DnsCacheEntry N D)) (c : DnsCache H)
      → (load_entries H es c).max_bytes ≡ c.max_bytes
  unfolding load_entries
  max_bytes-load_entries [] c = refl
  max_bytes-load_entries (e ∷ es) c = max_bytes-load_entries es (load_entry H e c)

  max_bytes-Step : {c d : DnsCache H} → Step H c d → d.max_bytes ≡ c.max_bytes
  unfolding clear get get_expired insert_negative insert_records load_from store
  max_bytes-Step {c} (inserts original rs clock group) =
      max_bytes-insert_groups original _ clock group _ _
      ∙ max_bytes-insert_whole (is_cname_query H original rs) original _ clock group c
  max_bytes-Step (inserts_negative query res ttl group clock) = refl
  max_bytes-Step (looks_up query clock) = refl
  max_bytes-Step counts_hit = refl
  max_bytes-Step (prefetches now ahead base_interval max_count) = refl
  max_bytes-Step {c} (loads es) = max_bytes-load_entries es c
  max_bytes-Step clears = refl

  max_bytes-Reach : {c d : DnsCache H} → Reach H c d → d.max_bytes ≡ c.max_bytes
  max_bytes-Reach stay = refl
  max_bytes-Reach (next r st) = max_bytes-Step st ∙ max_bytes-Reach r

  -- From the cache as it is made, any sequence of operations comes to a state that counts the bytes
  -- of what it stores, up to the wrap.
  pub total_bytes-Reach :
      (cache_size : ℕ) (serve_expired : Bool) (expired_ttl expired_reply_ttl max_bytes : ℕ)
      {c : DnsCache H}
      → Reach H (new H cache_size serve_expired expired_ttl expired_reply_ttl max_bytes) c
      → c.total_bytes ≡ stored_size H c.shards % word
  total_bytes-Reach cache_size serve_expired expired_ttl expired_reply_ttl max_bytes r =
      (Reach-IsSound H (max cache_size 1) r
        (new-IsSound cache_size serve_expired expired_ttl expired_reply_ttl max_bytes)).0.0

  length-map : {A B : Type 0} (f : A → B) (xs : List A) → length (map f xs) ≡ length xs
  length-map f [] = refl
  length-map f (x ∷ xs) = omega (arith, length-map f xs)

  length-cached_records :
      (ss : List (Shard H))
      → length (flat_map (λ s. map (cached_record H) (entries H s)) ss) ≡ entry_count H ss
  unfolding flat_map
  length-cached_records [] = refl
  length-cached_records (s ∷ ss) =
      length-append (map (cached_record H) (entries H s))
        (flat_map (λ s. map (cached_record H) (entries H s)) ss)
      ∙ ap (λ n. n + length (flat_map (λ s. map (cached_record H) (entries H s)) ss))
          (length-map (cached_record H) (entries H s))
      ∙ ap (λ n. length (entries H s) + n) (length-cached_records ss)

  -- From the cache as it is made, any sequence of operations comes to a state that is within the
  -- two limits of its making: no more entries than cache_size, or one where that is 0, and, where
  -- max_bytes is not 0, no more bytes than that by the count; and the list behind the cache API has
  -- one record for each entry.
  pub entry_count-Reach :
      (cache_size : ℕ) (serve_expired : Bool) (expired_ttl expired_reply_ttl max_bytes : ℕ)
      {c : DnsCache H}
      → Reach H (new H cache_size serve_expired expired_ttl expired_reply_ttl max_bytes) c
      → (entry_count H c.shards ≤ max cache_size 1)
        × (((max_bytes ≡ 0) ⊎ (c.total_bytes ≤ max_bytes))
            × (length (cached_records H c) ≡ entry_count H c.shards))
  unfolding new
  entry_count-Reach cache_size serve_expired expired_ttl expired_reply_ttl max_bytes {c} r =
      let ((counted, roomy), within) =
        Reach-IsSound H (max cache_size 1) r
          (new-IsSound cache_size serve_expired expired_ttl expired_reply_ttl max_bytes) in
      let same_limit : c.max_bytes ≡ max_bytes = max_bytes-Reach r in
      (
        entry_count-le H (max cache_size 1) c.shards roomy,
        (
          subst (λ m. (m ≡ 0) ⊎ (c.total_bytes ≤ m)) same_limit within,
          length-cached_records c.shards,
        ),
      )
