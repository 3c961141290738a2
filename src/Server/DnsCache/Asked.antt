-- ===== src/Server/DnsCache/Asked.antt =====
-- Which queries `get_expired` of src/dns_mw_cache.rs does ask for.
use smartdns_rs.Prelude.{
  All, Bool, Bool-cases, List, Option, String, [], any, ap, arith, inl, inr, length, ltb, true, ℕ,
  ◌++◌, ◌<◌, ◌||◌, ◌∙◌, ◌∷◌, ◌≡◌, ◌≤◌,
}
use smartdns_rs.Server.Dns.{is_ip_addr, Query}
use smartdns_rs.Server.DnsCache.Host.{Host, same}
use smartdns_rs.Server.DnsCache.Budget.{Shard}
use smartdns_rs.Server.DnsCache.Store.{DnsCache, PrefetchKey, index_in}
use smartdns_rs.Server.DnsCache.Once.{any-map_query}
use smartdns_rs.Server.DnsCache.Prefetch.{
  Due, Scan, get_expired, insert_due, scan, sort_onto, threshold_at,
}
use smartdns_rs.Server.DnsCache.Waiting.{WaitingAt, or_true, scan_reaches}

module _ {N D : Type 0} (H : Host N D) where
  insert_due-any :
      (test : Due N → Bool) (d : Due N) (ds : List (Due N))
      → any test (d ∷ ds) ≡ true
      → any test (insert_due d ds) ≡ true
  insert_due-any test d [] h = h
  insert_due-any test d (x ∷ xs) h = elim (Bool-cases (ltb x.hits d.hits)) [
    | inl more ↦ rw more h
    | inr fewer ↦ rw fewer (elim (Bool-cases (test x)) [
      | inl hit ↦ cc hit
      | inr miss ↦ or_true (test x) (insert_due-any test d xs (ground (arith, h, miss)))
    ])
  ]

  sort_onto-any :
      (test : Due N → Bool) (ds sorted : List (Due N))
      → (any test ds || any test sorted) ≡ true
      → any test (sort_onto ds sorted) ≡ true
  sort_onto-any test [] sorted h = h
  sort_onto-any test (d ∷ ds) sorted h =
      sort_onto-any test ds (insert_due d sorted) (elim (Bool-cases (any test ds)) [
        | inl early ↦ cc early
        | inr late ↦ or_true (any test ds) (insert_due-any test d sorted (ground (arith, h, late)))
      ])

  -- A query for addresses whose entry has expired at the threshold, with no refresh under way, is
  -- among those that are asked for, where a key of it stands in the heap, neither it nor the keys
  -- before it are later than the threshold, and the keys before it are fewer than the number that
  -- is asked for at most.
  pub get_expired-Waiting :
      (q : Query N) (now : ℕ) (ahead : Option ℕ) (base_interval max_count : ℕ) (c : DnsCache H)
      (before after : List (PrefetchKey N)) (k : PrefetchKey N)
      → c.prefetch_heap ≡ before ++ k ∷ after
      → k.query ≡ q
      → is_ip_addr q.query_type ≡ true
      → All
          (λ (k : PrefetchKey N). k.expires ≤ threshold_at H now c.expired_ttl ahead)
          (before ++ k ∷ [])
      → length before < max_count
      → WaitingAt H (threshold_at H now c.expired_ttl ahead) (index_in H c q) q c.shards
      → any
          (λ (p : Query N × Option String). same H p.0 q)
          (get_expired H now ahead base_interval max_count c).0.0
        ≡ true
  unfolding get_expired
  get_expired-Waiting q now ahead base_interval max_count c before after k heap own address ready
        room waiting =
      let threshold = threshold_at H now c.expired_ttl ahead in
      let start : Scan (Shard H) N = record {
        shards = c.shards;
        heap = c.prefetch_heap;
        found = [];
        requeue = [];
      } in
      let reached =
        scan_reaches H threshold base_interval max_count q before k after start address own ready
          (omega (arith, room)) waiting in
      let found =
        ap
          (λ ks.
            any (λ (d : Due N). same H d.query q)
              (scan H threshold base_interval max_count ks start).found)
          heap
        ∙ reached in
      any-map_query H q _
      ∙ sort_onto-any (λ (d : Due N). same H d.query q)
          (scan H threshold base_interval max_count c.prefetch_heap start).found [] (cc found)
