-- ===== src/Server/DnsCache/Prefetch.antt =====
-- `get_expired` of src/dns_mw_cache.rs: the entries that are due for a refresh, the ones with most
-- hits first. The keys taken off the heap are its list from the front.
use smartdns_rs.Prelude.{
  List, Option, String, [], ap, arith, if◌then◌else◌, leb, length, ltb, map, min, none, not, refl,
  some, true, ℕ, ◌%◌, ◌&&◌, ◌++◌, ◌+◌, ◌-◌, ◌∷◌, ◌≡◌,
}
use smartdns_rs.Server.Dns.{Query, from_secs, is_ip_addr}
use smartdns_rs.Server.QueryLog.{unwrap_or}
use smartdns_rs.Server.DnsCache.Entry.{DnsCacheEntry, is_current, should_retry_prefetch}
use smartdns_rs.Server.DnsCache.Host.{Host}
use smartdns_rs.Server.DnsCache.Budget.{Shard}
use smartdns_rs.Server.DnsCache.Store.{DnsCache, PrefetchKey, heap_push, on_shard}

abbrev pub max_ttl_secs : ℕ
max_ttl_secs = 86400

-- The query, the hits of its entry, and the group that answered it.
pub record Due (N : Type 0) : Type 0 where
  pub query : Query N
  pub hits : ℕ
  pub group : Option String

-- What a candidate turns out to be.
pub data Verdict (N : Type 0) : Type 0 where
  dropped : Verdict N
  requeued : PrefetchKey N → Verdict N
  due : Due N → Verdict N

pub record Scan {ℓ} (S : Type ℓ) (N : Type 0) : Type ℓ where
  pub shards : List S
  pub heap : List (PrefetchKey N)
  pub found : List (Due N)
  pub requeue : List (PrefetchKey N)

module _ {N : Type 0} where
  -- `sort_by_key` with `Reverse(hits)`, which is stable.
  abbrev pub insert_due : Due N → List (Due N) → List (Due N)
  insert_due d [] = d ∷ []
  insert_due d (x ∷ xs) = if ltb x.hits d.hits then d ∷ x ∷ xs else x ∷ insert_due d xs

  abbrev pub sort_onto : List (Due N) → List (Due N) → List (Due N)
  sort_onto [] sorted = sorted
  sort_onto (d ∷ ds) sorted = sort_onto ds (insert_due d sorted)

  abbrev pub by_hits : List (Due N) → List (Due N)
  by_hits ds = sort_onto ds []

  abbrev pub push_keys : List (PrefetchKey N) → List (PrefetchKey N) → List (PrefetchKey N)
  push_keys [] heap = heap
  push_keys (k ∷ ks) heap = push_keys ks (heap_push k heap)

  -- How long until the next look at the heap.
  abbrev pub most_recent : ℕ → List (PrefetchKey N) → ℕ
  most_recent threshold [] = from_secs max_ttl_secs
  most_recent threshold (k ∷ ks) =
      if ltb threshold k.expires
      then min (k.expires - threshold) (from_secs max_ttl_secs)
      else from_secs max_ttl_secs

module _ {N D : Type 0} (H : Host N D) where
  abbrev pub requeue_at : ℕ → Query N → Verdict N
  requeue_at expires query = requeued (record { expires = expires; query = query })

  abbrev pub flagged : DnsCacheEntry N D → DnsCacheEntry N D
  flagged e = record e { is_in_prefetching = true }

  abbrev pub due_entry : Query N → DnsCacheEntry N D → Verdict N
  due_entry query e = due (record { query = query; hits = e.hits; group = e.res.name_server_group })

  -- The entry after the look at it, and what it is.
  unfoldable pub judge : Query N → ℕ → ℕ → DnsCacheEntry N D → DnsCacheEntry N D × Verdict N
  judge query threshold base_interval e =
      if not (should_retry_prefetch threshold base_interval e)
      then (e, dropped)
      else if not (is_ip_addr query.query_type)
      then (e, dropped)
      else if is_current threshold e
      then (e, requeue_at e.valid_until query)
      else (flagged e, due_entry query e)

  abbrev pub look_over :
      Query N → ℕ → ℕ → Shard H → Option (DnsCacheEntry N D) → Shard H × Verdict N
  look_over query threshold base_interval s none = (s, dropped)
  look_over query threshold base_interval s (some e) =
      let r = judge query threshold base_interval e in (H.lru.write query r.0 s, r.1)

  unfoldable pub look : Query N → ℕ → ℕ → Shard H → Verdict N → Shard H × Verdict N
  look query threshold base_interval s _ =
      look_over query threshold base_interval s (H.lru.get_mut query s)

  pub look_eq :
      (query : Query N) (threshold base_interval : ℕ) (s : Shard H) (b : Verdict N)
      {o : Option (DnsCacheEntry N D)}
      → H.lru.get_mut query s ≡ o
      → look query threshold base_interval s b ≡ look_over query threshold base_interval s o
  unfolding look
  look_eq query threshold base_interval s b h = ap (look_over query threshold base_interval s) h

  -- A look leaves the answer that is stored.
  pub res-judge :
      (query : Query N) (threshold base_interval : ℕ) (e : DnsCacheEntry N D)
      → (judge query threshold base_interval e).0.res ≡ e.res
  unfolding judge
  res-judge query threshold base_interval e = ground arith

  abbrev pub file : Verdict N → Scan (Shard H) N → Scan (Shard H) N
  file dropped v = v
  file (requeued k) v = record v { requeue = v.requeue ++ k ∷ [] }
  file (due d) v = record v { found = v.found ++ d ∷ [] }

  pub shards-file : (w : Verdict N) (v : Scan (Shard H) N) → (file w v).shards ≡ v.shards
  shards-file dropped v = refl
  shards-file (requeued k) v = refl
  shards-file (due d) v = refl

  abbrev pub take_key : ℕ → ℕ → PrefetchKey N → Scan (Shard H) N → Scan (Shard H) N
  take_key threshold base_interval k v =
      let r =
        on_shard H (H.hash k.query % length v.shards) (look k.query threshold base_interval)
          v.shards dropped in
      file r.1 (record v { shards = r.0 })

  -- The loop over the heap; `v.heap` is set where it ends.
  unfoldable pub scan : ℕ → ℕ → ℕ → List (PrefetchKey N) → Scan (Shard H) N → Scan (Shard H) N
  scan threshold base_interval max_count [] v = record v { heap = [] }
  scan threshold base_interval max_count (k ∷ ks) v =
      let rest = scan threshold base_interval max_count ks (take_key threshold base_interval k v) in
      if ltb threshold k.expires
      then record v { heap = ks; requeue = v.requeue ++ k ∷ [] }
      else if leb max_count (length v.found)
      then record v { heap = ks; requeue = v.requeue ++ k ∷ [] }
      else rest

  -- `checked_sub` of the expired TTL, the time itself where that has no result.
  abbrev before : ℕ → ℕ → ℕ
  before now expired_ttl =
      if ltb 0 expired_ttl && leb (from_secs expired_ttl) now
      then now - from_secs expired_ttl
      else now

  abbrev pub threshold_at : ℕ → ℕ → Option ℕ → ℕ
  threshold_at now expired_ttl seconds_ahead =
      before now expired_ttl + from_secs (unwrap_or seconds_ahead 5)

  abbrev pub scan_from : ℕ → ℕ → ℕ → DnsCache H → Scan (Shard H) N
  scan_from threshold base_interval max_count c =
      scan threshold base_interval max_count c.prefetch_heap
        (record { shards = c.shards; heap = c.prefetch_heap; found = []; requeue = [] })

  unfoldable pub get_expired :
      ℕ → Option ℕ → ℕ → ℕ → DnsCache H → (List (Query N × Option String) × ℕ) × DnsCache H
  get_expired now seconds_ahead base_interval max_count c =
      let threshold = threshold_at now c.expired_ttl seconds_ahead in
      let v = scan_from threshold base_interval max_count c in
      let heap = push_keys v.requeue v.heap in
      (
        (map (λ d. (d.query, d.group)) (by_hits v.found), most_recent threshold heap),
        record c { shards = v.shards; prefetch_heap = heap },
      )
