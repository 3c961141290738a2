-- ===== src/Server/DnsCache/Lru.antt =====
-- The crate `lru` that src/dns_mw_cache.rs keeps its shards in: its operations are parameters, and
-- the laws are what its documentation says of them, on the list of the entries that `iter` visits,
-- from the most recently used to the least.
mod Lists
use smartdns_rs.Prelude.{Bool, List, Option, [], some, ℕ, ◌≡◌}
unfoldable pub use Lists.{find, erase, last, front, put_first, list_push, weigh, weight_of}
pub use Lists.{
  weigh-front, length-front, last-none, last-some, weigh-erase, length-erase, weigh-list_push,
  length-list_push, find-list_push, find-erase,
}

pub record Lru (K V : Type 0) (same : K → K → Bool) : Type 1 where
  pub Shard : Type 0
  pub entries : Shard → List (K × V)
  pub cap : Shard → ℕ
  pub new : ℕ → Shard
  -- `get_mut`, and the shard once the entry has been written through the reference
  pub get_mut : K → Shard → Option V
  pub write : K → V → Shard → Shard
  pub push : K → V → Shard → Option (K × V) × Shard
  pub pop_lru : Shard → Option (K × V) × Shard
  pub clear : Shard → Shard
  pub entries-new : (n : ℕ) → entries (new n) ≡ []
  pub cap-new : (n : ℕ) → cap (new n) ≡ n
  pub get_mut-find : (k : K) (c : Shard) → get_mut k c ≡ find same k (entries c)
  -- a key found moves to the front
  pub entries-write :
      (k : K) (v old : V) (c : Shard)
      → find same k (entries c) ≡ some old
      → entries (write k v c) ≡ put_first same k v (entries c)
  pub cap-write : (k : K) (v : V) (c : Shard) → cap (write k v c) ≡ cap c
  -- the old entry of the key, or the one that no longer fits, is handed back
  pub push-list :
      (k : K) (v : V) (c : Shard)
      → ((push k v c).0 ≡ (list_push same (cap c) k v (entries c)).0)
        × (entries (push k v c).1 ≡ (list_push same (cap c) k v (entries c)).1)
  pub cap-push : (k : K) (v : V) (c : Shard) → cap (push k v c).1 ≡ cap c
  pub pop_lru-list :
      (c : Shard) → ((pop_lru c).0 ≡ last (entries c)) × (entries (pop_lru c).1 ≡ front (entries c))
  pub cap-pop_lru : (c : Shard) → cap (pop_lru c).1 ≡ cap c
  pub entries-clear : (c : Shard) → entries (clear c) ≡ []
  pub cap-clear : (c : Shard) → cap (clear c) ≡ cap c
