-- ===== src/Server/DnsCache/Store.antt =====
-- The state of src/dns_mw_cache.rs and the operations on what is stored. A response and the cache
-- after it are returned together. `Clock` is what the operation reads of the time.
use smartdns_rs.Prelude.{
  Bool, List, Option, [], ap, if◌then◌else◌, leb, length, ltb, max, none, some, suc, zero, ℕ, ◌*◌,
  ◌+◌, ◌-◌, ◌/◌, ◌∷◌, ◌≡◌,
}
use smartdns_rs.Server.Dns.{Query, Record, DnsResponse}
use smartdns_rs.Server.DnsCache.Entry.{Clock, DnsCacheEntry, new_entry, renew}
use smartdns_rs.Server.DnsCache.Host.{Host, entry_size, response_size, shard_index_of}
use smartdns_rs.Server.DnsCache.Budget.{Shard, add_bytes, enforce_memory_budget, freed}

abbrev pub cache_shard_count : ℕ
cache_shard_count = 16

-- The heap is a list from the earliest to the latest; among equal times `BinaryHeap` promises no
-- order, and a new key goes behind the others here.
pub record PrefetchKey (N : Type 0) : Type 0 where
  pub expires : ℕ
  pub query : Query N

module _ {N : Type 0} where
  abbrev pub heap_push : PrefetchKey N → List (PrefetchKey N) → List (PrefetchKey N)
  heap_push key [] = key ∷ []
  heap_push key (k ∷ ks) = if ltb key.expires k.expires then key ∷ k ∷ ks else k ∷ heap_push key ks

pub data CacheStatus : Type 0 where
  valid expired : CacheStatus

pub record CachedQueryRecord (N D : Type 0) : Type 0 where
  pub name : N
  pub hits : ℕ
  pub last_access : ℕ
  pub query_type : ℕ
  pub query_class : ℕ
  pub records : List (Record N D)

module _ {N D : Type 0} (H : Host N D) where
  pub record DnsCache : Type 0 where
    pub shards : List (Shard H)
    pub prefetch_heap : List (PrefetchKey N)
    pub serve_expired : Bool
    pub expired_ttl : ℕ
    pub expired_reply_ttl : ℕ
    pub query_hits : ℕ
    pub max_bytes : ℕ
    pub total_bytes : ℕ

  abbrev pub shard_count_of : ℕ → ℕ
  shard_count_of cache_size = if leb cache_shard_count cache_size then cache_shard_count else 1

  -- `count` shards from the one at `i`
  abbrev pub new_shards : ℕ → ℕ → ℕ → ℕ → List (Shard H)
  new_shards per_shard remainder i zero = []
  new_shards per_shard remainder i (suc count) =
      H.lru.new (per_shard + (if ltb i remainder then 1 else 0))
      ∷ new_shards per_shard remainder (i + 1) count

  unfoldable pub new : ℕ → Bool → ℕ → ℕ → ℕ → DnsCache
  new cache_size serve_expired expired_ttl expired_reply_ttl max_bytes =
      let shard_count = shard_count_of cache_size in
      let per_shard = max (cache_size / shard_count) 1 in
      record {
        shards = new_shards per_shard (cache_size - per_shard * shard_count) 0 shard_count;
        prefetch_heap = [];
        serve_expired = serve_expired;
        expired_ttl = expired_ttl;
        expired_reply_ttl = expired_reply_ttl;
        query_hits = 0;
        max_bytes = max_bytes;
        total_bytes = 0;
      }

  -- What runs under the lock of the shard at an index; there is always one, by `shard_index_of`.
  abbrev pub on_shard {ℓ} :
      {B : Type ℓ} → ℕ → (Shard H → B → Shard H × B) → List (Shard H) → B → List (Shard H) × B
  on_shard i f [] b = ([], b)
  on_shard zero f (s ∷ ss) b = let r = f s b in (r.0 ∷ ss, r.1)
  on_shard (suc i) f (s ∷ ss) b = let r = on_shard i f ss b in (s ∷ r.0, r.1)

  abbrev pub push_new : Query N → DnsCacheEntry N D → Shard H → ℕ → Shard H × ℕ
  push_new query e s total =
      let pushed = H.lru.push query e s in
      (pushed.1, add_bytes (entry_size H query e) 0 (add_bytes 0 (freed H pushed.0) total))

  abbrev pub put_over :
      Query N → DnsResponse N D → ℕ → Clock → Shard H → ℕ → Option (DnsCacheEntry N D) → Shard H × ℕ
  put_over query res valid_until clock s total none =
      push_new query (new_entry res valid_until clock) s total
  put_over query res valid_until clock s total (some old) = (
    H.lru.write query (renew res valid_until clock old) s,
    add_bytes (response_size H query res) (entry_size H query old) total,
  )

  -- The block of the two insertions that holds the lock of the shard.
  unfoldable pub put : Query N → DnsResponse N D → ℕ → Clock → Shard H → ℕ → Shard H × ℕ
  put query res valid_until clock s total =
      put_over query res valid_until clock s total (H.lru.get_mut query s)

  pub put_eq :
      (query : Query N) (res : DnsResponse N D) (valid_until : ℕ) (clock : Clock) (s : Shard H)
      (total : ℕ) {o : Option (DnsCacheEntry N D)}
      → H.lru.get_mut query s ≡ o
      → put query res valid_until clock s total ≡ put_over query res valid_until clock s total o
  unfolding put
  put_eq query res valid_until clock s total h = ap (put_over query res valid_until clock s total) h

  abbrev pub with_stored : DnsCache → List (Shard H) × ℕ → DnsCache
  with_stored c r = record c { shards = r.0; total_bytes = r.1 }

  abbrev pub enforce : DnsCache → DnsCache
  enforce c = with_stored c (enforce_memory_budget H c.max_bytes c.shards c.total_bytes)

  abbrev pub index_in : DnsCache → Query N → ℕ
  index_in c query = shard_index_of H query (length c.shards)

  -- The insertion before the limit is enforced.
  abbrev pub put_in : Query N → DnsResponse N D → ℕ → Clock → DnsCache → DnsCache
  put_in query res valid_until clock c =
      with_stored c
        (on_shard (index_in c query) (put query res valid_until clock) c.shards c.total_bytes)

  unfoldable pub store : Query N → DnsResponse N D → ℕ → Clock → DnsCache → DnsCache
  store query res valid_until clock c = enforce (put_in query res valid_until clock c)
