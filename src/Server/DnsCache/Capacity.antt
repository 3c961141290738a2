-- ===== src/Server/DnsCache/Capacity.antt =====
-- No shard of src/dns_mw_cache.rs holds more entries than it was made for.
use smartdns_rs.Prelude.{
  All, Bool, Bool-cases, List, Option, Option-cases, [], arith, false, inl, inr, leb, length, none,
  refl, some, suc, sym, true, zero, ℕ, ◌+◌, ◌<◌, ◌∙◌, ◌∷◌, ◌≡◌, ◌≤◌,
}
use smartdns_rs.Server.Dns.{Query, DnsResponse}
use smartdns_rs.Server.DnsCache.Entry.{Clock, DnsCacheEntry, new_entry, renew}
use smartdns_rs.Server.DnsCache.Host.{Host, entry_size, same, same_iff}
use smartdns_rs.Server.DnsCache.Lru.{find, length-erase, length-front, length-list_push}
use smartdns_rs.Server.DnsCache.Budget.{
  Shard, Sweep, add_bytes, entries, enforce_memory_budget, entry_count, evict, pop_one, round,
  stop_if,
}
use smartdns_rs.Server.DnsCache.Eviction.{round_cons, round_nil}
use smartdns_rs.Server.DnsCache.BudgetLaws.{
  enforce_over, enforce_unlimited, evict_more, evict_stuck, evict_within, evict_zero,
}
use smartdns_rs.Server.DnsCache.Store.{on_shard, put, put_eq}

module _ {N D : Type 0} (H : Host N D) where
  abbrev pub capacity : List (Shard H) → ℕ
  capacity [] = 0
  capacity (s ∷ ss) = H.lru.cap s + capacity ss

  abbrev pub IsFitting : List (Shard H) → Type 0
  IsFitting ss = All (λ s. (length (entries H s) ≤ H.lru.cap s) × (0 < H.lru.cap s)) ss

  -- What an operation on one shard keeps.
  abbrev pub Fits : Shard H → Shard H → Type 0
  Fits s s' =
      (H.lru.cap s' ≡ H.lru.cap s)
      × ((length (entries H s) ≤ H.lru.cap s) × (0 < H.lru.cap s)
          → length (entries H s') ≤ H.lru.cap s)

  pub write-Fits :
      (query : Query N) (e old : DnsCacheEntry N D) (s : Shard H)
      → H.lru.get_mut query s ≡ some old
      → Fits s (H.lru.write query e s)
  write-Fits query e old s h =
      let at_list : find (same H) query (entries H s) ≡ some old =
        sym (H.lru.get_mut-find query s) ∙ h in
      let shorter = length-erase (same H) (same_iff H) query old (entries H s) at_list in
      (
        H.lru.cap-write query e s,
        λ (full, pos).
            rw (H.lru.entries-write query e old s at_list) (omega (arith, shorter, full)),
      )

  pub push-Fits :
      (query : Query N) (e : DnsCacheEntry N D) (s : Shard H) → Fits s (H.lru.push query e s).1
  push-Fits query e s = (
    H.lru.cap-push query e s,
    λ (full, pos).
        rw (H.lru.push-list query e s).1
          (length-list_push (same H) (same_iff H) (H.lru.cap s) query e (entries H s) pos full),
  )

  pub pop_lru-Fits : (s : Shard H) → Fits s (H.lru.pop_lru s).1
  pop_lru-Fits s = (
    H.lru.cap-pop_lru s,
    λ (full, pos). rw (H.lru.pop_lru-list s).1 (omega (arith, length-front (entries H s), full)),
  )

  pub put-Fits :
      (query : Query N) (res : DnsResponse N D) (valid_until : ℕ) (clock : Clock) (s : Shard H)
      (total : ℕ)
      → Fits s (put H query res valid_until clock s total).0
  put-Fits query res valid_until clock s total = elim (Option-cases (H.lru.get_mut query s)) [
    | inl absent ↦
        rw (put_eq H query res valid_until clock s total absent)
          (push-Fits query (new_entry res valid_until clock) s)
    | inr (old, found) ↦
        rw (put_eq H query res valid_until clock s total found)
          (write-Fits query (renew res valid_until clock old) old s found)
  ]

  -- The shards fit, and their room in all is `n`.
  abbrev pub IsRoomy : ℕ → List (Shard H) → Type 0
  IsRoomy n ss = IsFitting ss × (capacity ss ≡ n)

  IsRoomy-cons :
      (n : ℕ) (s s' : Shard H) (ss ss' : List (Shard H))
      → Fits s s'
      → ((m : ℕ) → IsRoomy m ss → IsRoomy m ss')
      → IsRoomy n (s ∷ ss)
      → IsRoomy n (s' ∷ ss')
  IsRoomy-cons n s s' ss ss' (room, fit) rest ((here, there), sum) =
      let (all, rooms) = rest (capacity ss) (there, refl) in
      (
        ((omega (arith, room, fit here), omega (arith, room, here.1)), all),
        omega (arith, room, rooms, sum),
      )

  pub on_shard-IsRoomy {ℓ} :
      {B : Type ℓ} (n i : ℕ) (f : Shard H → B → Shard H × B) (ss : List (Shard H)) (b : B)
      → ((s : Shard H) (c : B) → Fits s (f s c).0)
      → IsRoomy n ss
      → IsRoomy n (on_shard H i f ss b).0
  on_shard-IsRoomy n i f [] b each h = h
  on_shard-IsRoomy n zero f (s ∷ ss) b each h =
      IsRoomy-cons n s (f s b).0 ss ss (each s b) (λ m r. r) h
  on_shard-IsRoomy n (suc i) f (s ∷ ss) b each h =
      IsRoomy-cons n s s ss (on_shard H i f ss b).0 (refl, λ k. k.0)
        (λ m r. on_shard-IsRoomy m i f ss b each r) h

  stop_if-IsRoomy :
      (within : Bool) (n : ℕ) (ss : List (Shard H)) (total : ℕ) (later : Sweep (Shard H))
      → IsRoomy n ss
      → IsRoomy n later.shards
      → IsRoomy n (stop_if H within ss total later).shards
  stop_if-IsRoomy true n ss total later now after = now
  stop_if-IsRoomy false n ss total later now after = after

  pop_one-IsRoomy :
      (n max_bytes : ℕ) (ss : List (Shard H)) (rest : ℕ → Sweep (Shard H)) (total : ℕ)
      (o : Option (Query N × DnsCacheEntry N D))
      → ((t : ℕ) → IsRoomy n (rest t).shards)
      → IsRoomy n ss
      → IsRoomy n (pop_one H max_bytes ss rest total o).shards
  pop_one-IsRoomy n max_bytes ss rest total none later h = later total
  pop_one-IsRoomy n max_bytes ss rest total (some (query, e)) later h =
      let left = add_bytes 0 (entry_size H query e) total in
      stop_if-IsRoomy (leb left max_bytes) n ss left (rest left) h (later left)

  round-IsRoomy :
      (n max_bytes : ℕ) (ss : List (Shard H)) (total : ℕ)
      → IsRoomy n ss
      → IsRoomy n (round H max_bytes ss total).shards
  round-IsRoomy n max_bytes [] total h = rw (round_nil H max_bytes total) h
  round-IsRoomy n max_bytes (s ∷ ss) total h =
      let popped = (H.lru.pop_lru s).0 in
      let rest = round H max_bytes ss in
      rw (round_cons H max_bytes s ss total refl) (
        IsRoomy-cons n s (H.lru.pop_lru s).1 ss (pop_one H max_bytes ss rest total popped).shards
          (pop_lru-Fits s)
          (λ m r.
            pop_one-IsRoomy m max_bytes ss rest total popped (λ t. round-IsRoomy m max_bytes ss t r)
              r)
          h)

  evict-IsRoomy :
      (n fuel max_bytes : ℕ) (ss : List (Shard H)) (total : ℕ)
      → IsRoomy n ss
      → IsRoomy n (evict H fuel max_bytes ss total).0
  evict-IsRoomy n zero max_bytes ss total h = rw (evict_zero H max_bytes ss total) h
  evict-IsRoomy n (suc fuel) max_bytes ss total h =
      let r = round H max_bytes ss total in
      let less = round-IsRoomy n max_bytes ss total h in
      elim (Bool-cases (leb total max_bytes)) [
        | inl within ↦ rw (evict_within H fuel max_bytes ss total within) h
        | inr over ↦ elim (Bool-cases r.evicted) [
          | inl more ↦
              rw (evict_more H fuel max_bytes ss total over more)
                (evict-IsRoomy n fuel max_bytes r.shards r.total less)
          | inr stuck ↦ rw (evict_stuck H fuel max_bytes ss total over stuck) less
        ]
      ]

  pub enforce_memory_budget-IsRoomy :
      (n max_bytes : ℕ) (ss : List (Shard H)) (total : ℕ)
      → IsRoomy n ss
      → IsRoomy n (enforce_memory_budget H max_bytes ss total).0
  enforce_memory_budget-IsRoomy n zero ss total h = rw (enforce_unlimited H 0 ss total refl) h
  enforce_memory_budget-IsRoomy n (suc m) ss total h =
      rw (enforce_over H (suc m) ss total (omega arith))
        (evict-IsRoomy n (entry_count H ss + 1) (suc m) ss total h)

  -- Shards that fit hold no more in all than they have room for.
  pub entry_count-le : (n : ℕ) (ss : List (Shard H)) → IsRoomy n ss → entry_count H ss ≤ n
  entry_count-le n [] h = omega arith
  entry_count-le n (s ∷ ss) (((full, pos), there), sum) =
      omega (arith, full, sum, entry_count-le (capacity ss) ss (there, refl))
