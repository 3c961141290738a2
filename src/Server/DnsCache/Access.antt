-- ===== src/Server/DnsCache/Access.antt =====
-- The operations of the cache in src/dns_mw_cache.rs: insertions, the lookup, loading, clearing.
use smartdns_rs.Prelude.{
  Bool, List, Option, String, [], any, ap, false, flat_map, if◌then◌else◌, map, min, none, not,
  some, true, ℕ, ◌&&◌, ◌++◌, ◌+◌, ◌==◌, ◌∷◌, ◌≡◌,
}
use smartdns_rs.Server.Dns.{
  Query, Record, DnsResponse, as_secs, as_u32, from_secs, is_ip_addr, new_with_deadline, rr_cname,
  set_max_ttl, with_name_server_group,
}
use smartdns_rs.Server.DnsCache.Entry.{Clock, DnsCacheEntry, hit, is_current, ttl_left}
use smartdns_rs.Server.DnsCache.Host.{Host, same}
use smartdns_rs.Server.DnsCache.Budget.{Shard, entries}
use smartdns_rs.Server.DnsCache.Store.{
  CacheStatus, CachedQueryRecord, DnsCache, enforce, heap_push, index_in, on_shard, push_new, store,
  with_stored, valid, expired,
}

-- The ceiling that the fold of `insert` starts from.
abbrev pub insert_ttl_cap : ℕ
insert_ttl_cap = from_secs 600

module _ {N D : Type 0} where
  abbrev pub min_ttl : ℕ → List (Record N D × ℕ) → ℕ
  min_ttl least [] = least
  min_ttl least ((r, ttl) ∷ rs) = min_ttl (min least (from_secs ttl)) rs

  abbrev pub records_of : List (Record N D × ℕ) → List (Record N D)
  records_of = map (λ p. p.0)

  abbrev pub query_of : Record N D → Query N
  query_of r = record { name = r.name; query_type = r.record_type; query_class = r.dns_class }

module _ {N D : Type 0} (H : Host N D) where
  abbrev pub push_key : ℕ → Query N → DnsCache H → DnsCache H
  push_key expires query c = record c {
    prefetch_heap = heap_push (record { expires = expires; query = query }) c.prefetch_heap;
  }

  unfoldable pub insert :
      Query N → List (Record N D × ℕ) → Clock → String → DnsCache H → DnsResponse N D × DnsCache H
  insert query records_and_ttl clock group c =
      let valid_until = clock.now + min_ttl insert_ttl_cap records_and_ttl in
      let lookup =
        with_name_server_group group
          (new_with_deadline query (records_of records_and_ttl) valid_until) in
      (lookup, push_key valid_until query (store H query lookup valid_until clock c))

  unfoldable pub insert_negative :
      Query N → DnsResponse N D → ℕ → String → Clock → DnsCache H → DnsCache H
  insert_negative query res ttl group clock c =
      store H query (set_max_ttl (as_u32 (as_secs ttl)) (with_name_server_group group res))
        (clock.now + ttl) clock c

  -- The records by their own query, in the order in which the queries first come up.
  abbrev pub add_record :
      Record N D → List (Query N × List (Record N D × ℕ)) → List (Query N × List (Record N D × ℕ))
  add_record r [] = (query_of r, (r, r.ttl) ∷ []) ∷ []
  add_record r ((q, rs) ∷ groups) =
      if same H q (query_of r)
      then (q, rs ++ (r, r.ttl) ∷ []) ∷ groups
      else (q, rs) ∷ add_record r groups

  abbrev pub group_records :
      List (Record N D)
      → List (Query N × List (Record N D × ℕ))
      → List (Query N × List (Record N D × ℕ))
  group_records [] groups = groups
  group_records (r ∷ rs) groups = group_records rs (add_record r groups)

  abbrev pub is_cname_query : Query N → List (Record N D) → Bool
  is_cname_query original rs = any (λ r. not (same H original (query_of r))) rs

  unfoldable pub insert_groups :
      Query N
      → List (Query N × List (Record N D × ℕ))
      → Clock
      → String
      → Option (DnsResponse N D)
      → DnsCache H
      → Option (DnsResponse N D) × DnsCache H
  insert_groups original [] clock group lookup c = (lookup, c)
  insert_groups original ((q, rs) ∷ groups) clock group lookup c =
      let r = insert q rs clock group c in
      let found = if same H original q then some r.0 else lookup in
      insert_groups original groups clock group found r.1

  abbrev pub insert_whole :
      Bool
      → Query N
      → List (Query N × List (Record N D × ℕ))
      → Clock
      → String
      → DnsCache H
      → Option (DnsResponse N D) × DnsCache H
  insert_whole false original groups clock group c = (none, c)
  insert_whole true original groups clock group c =
      let r = insert original (flat_map (λ g. g.1) groups) clock group c in (some r.0, r.1)

  unfoldable pub insert_records :
      Query N
      → List (Record N D)
      → Clock
      → String
      → DnsCache H
      → Option (DnsResponse N D) × DnsCache H
  insert_records original rs clock group c =
      let groups = group_records rs [] in
      let whole = insert_whole (is_cname_query original rs) original groups clock group c in
      insert_groups original groups clock group whole.0 whole.1

  abbrev pub all_ip_records : List (Record N D) → Bool
  all_ip_records [] = false
  all_ip_records (r ∷ rs) = not (any (λ t. not (is_ip_addr t.record_type)) (r ∷ rs))

  abbrev pub set_name : N → Record N D → Record N D
  set_name name r = record r { name = name }

  -- The address records of another name take the name asked for, unless a CNAME is with them.
  unfoldable pub rename : Query N → DnsResponse N D → DnsResponse N D
  rename query res =
      if not (any (λ r. r.record_type == rr_cname) res.answers)
        && (all_ip_records res.answers
            && any (λ r. not (H.same_name r.name query.name)) res.answers)
      then record res { answers = map (set_name query.name) res.answers }
      else res

  abbrev pub reply : Query N → ℕ → ℕ → DnsCacheEntry N D → DnsResponse N D × CacheStatus
  reply query now expired_reply_ttl e =
      if is_current now e
      then (set_max_ttl (as_u32 (as_secs (ttl_left now e))) (rename query e.res), valid)
      else (set_max_ttl (as_u32 expired_reply_ttl) (rename query e.res), expired)

  abbrev pub get_over :
      Query N
      → Clock
      → ℕ
      → Shard H
      → Option (DnsCacheEntry N D)
      → Shard H × Option (DnsResponse N D × CacheStatus)
  get_over query clock expired_reply_ttl s none = (s, none)
  get_over query clock expired_reply_ttl s (some e) = (
    H.lru.write query (hit clock e) s,
    some (reply query clock.now expired_reply_ttl (hit clock e)),
  )

  unfoldable pub get_in :
      Query N
      → Clock
      → ℕ
      → Shard H
      → Option (DnsResponse N D × CacheStatus)
      → Shard H × Option (DnsResponse N D × CacheStatus)
  get_in query clock expired_reply_ttl s _ =
      get_over query clock expired_reply_ttl s (H.lru.get_mut query s)

  pub get_in_eq :
      (query : Query N) (clock : Clock) (expired_reply_ttl : ℕ) (s : Shard H)
      (b : Option (DnsResponse N D × CacheStatus)) {o : Option (DnsCacheEntry N D)}
      → H.lru.get_mut query s ≡ o
      → get_in query clock expired_reply_ttl s b ≡ get_over query clock expired_reply_ttl s o
  unfolding get_in
  get_in_eq query clock expired_reply_ttl s b h = ap (get_over query clock expired_reply_ttl s) h

  unfoldable pub get :
      Query N → Clock → DnsCache H → Option (DnsResponse N D × CacheStatus) × DnsCache H
  get query clock c =
      let r =
        on_shard H (index_in H c query) (get_in query clock c.expired_reply_ttl) c.shards none in
      (r.1, record c { shards = r.0 })

  abbrev pub load_entry : DnsCacheEntry N D → DnsCache H → DnsCache H
  load_entry e c =
      let query = e.res.query in
      push_key e.valid_until query (
        with_stored H c
          (on_shard H (index_in H c query) (push_new H query e) c.shards c.total_bytes))

  unfoldable pub load_entries : List (DnsCacheEntry N D) → DnsCache H → DnsCache H
  load_entries [] c = c
  load_entries (e ∷ es) c = load_entries es (load_entry e c)

  -- From the entries that the file holds.
  unfoldable pub load_from : List (DnsCacheEntry N D) → DnsCache H → DnsCache H
  load_from es c = enforce H (load_entries es c)

  unfoldable pub clear : DnsCache H → DnsCache H
  clear c = record c { shards = map H.lru.clear c.shards; prefetch_heap = []; total_bytes = 0 }

  -- The entries that the file is written from.
  abbrev pub snapshot_entries : DnsCache H → List (DnsCacheEntry N D)
  snapshot_entries c = flat_map (λ s. map (λ p. p.1) (entries H s)) c.shards

  abbrev pub cached_record : Query N × DnsCacheEntry N D → CachedQueryRecord N D
  cached_record (query, e) = record {
    name = query.name;
    hits = e.hits;
    last_access = e.last_access;
    query_type = query.query_type;
    query_class = query.query_class;
    records = e.res.answers;
  }

  abbrev pub cached_records : DnsCache H → List (CachedQueryRecord N D)
  cached_records c = flat_map (λ s. map cached_record (entries H s)) c.shards
