-- ===== src/Server/DnsCache/Budget.antt =====
-- The estimate of the bytes in use in src/dns_mw_cache.rs, and the eviction that keeps it within
-- `max_bytes`. The source's shards are a list; a lock is held from an operation's start to its end.
use smartdns_rs.Prelude.{
  Bool, List, Option, [], arith, false, if◌then◌else◌, leb, length, ltb, none, some, suc, true,
  zero, ℕ, ◌%◌, ◌+◌, ◌-◌, ◌==◌, ◌∷◌, ◌≡◌,
}
use smartdns_rs.Server.Dns.{Query}
use smartdns_rs.Server.DnsCache.Entry.{DnsCacheEntry}
use smartdns_rs.Server.DnsCache.Host.{Host, entry_size}
use smartdns_rs.Server.DnsCache.Lru.{weigh, weight_of}
use smartdns_rs.Server.Dispatch.{word, fetch_add, fetch_sub}

-- `add_bytes(plus as isize - minus as isize)` on sizes below 2 ^ 63.
unfoldable pub add_bytes : ℕ → ℕ → ℕ → ℕ
add_bytes plus minus total =
    if plus == minus
    then total
    else if ltb minus plus
    then fetch_add total (plus - minus)
    else fetch_sub total (minus - plus)

-- What is counted follows what is stored, up to the wrap.
pub add_bytes-mod :
    (plus minus before after total : ℕ)
    → total ≡ before % word
    → before + plus ≡ after + minus
    → add_bytes plus minus total ≡ after % word
unfolding add_bytes
add_bytes-mod plus minus before after total h balance = ground arith

-- So it does where one entry takes the place of another, the one that goes counted first.
pub swap_bytes-mod :
    (out into before after total : ℕ)
    → total ≡ before % word
    → before + into ≡ after + out
    → add_bytes into 0 (add_bytes 0 out total) ≡ after % word
unfolding add_bytes
swap_bytes-mod out into before after total h balance = ground arith

-- What has been swept: `evicted` tells whether a round removed anything.
pub record Sweep {ℓ} (S : Type ℓ) : Type ℓ where
  pub shards : List S
  pub total : ℕ
  pub evicted : Bool

module _ {N D : Type 0} (H : Host N D) where
  abbrev pub Shard : Type 0
  Shard = H.lru.Shard

  abbrev pub entries : Shard → List (Query N × DnsCacheEntry N D)
  entries s = H.lru.entries s

  -- The sum of the sizes of what is stored, and the number of entries.
  abbrev pub stored_size : List Shard → ℕ
  stored_size [] = 0
  stored_size (s ∷ ss) = weigh (entry_size H) (entries s) + stored_size ss

  abbrev pub entry_count : List Shard → ℕ
  entry_count [] = 0
  entry_count (s ∷ ss) = length (entries s) + entry_count ss

  abbrev pub freed : Option (Query N × DnsCacheEntry N D) → ℕ
  freed popped = weight_of (entry_size H) popped

  abbrev pub keep_shard : Shard → Sweep Shard → Sweep Shard
  keep_shard s r = record r { shards = s ∷ r.shards }

  abbrev pub stop_if : Bool → List Shard → ℕ → Sweep Shard → Sweep Shard
  stop_if within ss total rest =
      if within
      then record { shards = ss; total = total; evicted = true }
      else record rest { evicted = true }

  -- One shard of a round, with what the round does to the others from a total on.
  abbrev pub pop_one :
      ℕ → List Shard → (ℕ → Sweep Shard) → ℕ → Option (Query N × DnsCacheEntry N D) → Sweep Shard
  pop_one max_bytes ss rest total none = rest total
  pop_one max_bytes ss rest total (some (query, e)) =
      let left = add_bytes 0 (entry_size H query e) total in
      stop_if (leb left max_bytes) ss left (rest left)

  -- The body of the `while`: `pop_lru` on each shard, up to the first that is enough.
  unfoldable pub round : ℕ → List Shard → ℕ → Sweep Shard
  round max_bytes [] total = record { shards = []; total = total; evicted = false }
  round max_bytes (s ∷ ss) total =
      let popped = H.lru.pop_lru s in
      keep_shard popped.1 (pop_one max_bytes ss (round max_bytes ss) total popped.0)

  -- The `while`, on fuel.
  unfoldable pub evict : ℕ → ℕ → List Shard → ℕ → List Shard × ℕ
  evict zero max_bytes ss total = (ss, total)
  evict (suc fuel) max_bytes ss total =
      let r = round max_bytes ss total in
      let more = evict fuel max_bytes r.shards r.total in
      if leb total max_bytes then (ss, total) else if r.evicted then more else (r.shards, r.total)

  -- A round that goes on removes an entry, so there are fewer rounds than entries and one.
  unfoldable pub enforce_memory_budget : ℕ → List Shard → ℕ → List Shard × ℕ
  enforce_memory_budget max_bytes ss total =
      if max_bytes == 0 then (ss, total) else evict (entry_count ss + 1) max_bytes ss total
