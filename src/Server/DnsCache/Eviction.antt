-- ===== src/Server/DnsCache/Eviction.antt =====
-- The rounds of `enforce_memory_budget` in src/dns_mw_cache.rs: they end, and with little enough.
use smartdns_rs.Prelude.{
  Bool, List, Option, Option-cases, [], ap, arith, false, inl, inr, leb, length, none, refl, some,
  sym, true, ℕ, ◌%◌, ◌+◌, ◌-◌, ◌<◌, ◌∙◌, ◌∷◌, ◌≡◌, ◌≤◌,
}
use smartdns_rs.Server.Dispatch.{word}
use smartdns_rs.Server.Dns.{Query}
use smartdns_rs.Server.DnsCache.Entry.{DnsCacheEntry}
use smartdns_rs.Server.DnsCache.Host.{Host, entry_size}
use smartdns_rs.Server.DnsCache.Lru.{length-front, last-none, last-some}
use smartdns_rs.Server.DnsCache.Budget.{
  Shard, Sweep, add_bytes, add_bytes-mod, entries, entry_count, keep_shard, pop_one, round, stop_if,
  stored_size,
}
use smartdns_rs.Server.DnsCache.Bytes.{size_in, size_in-pop_lru}

module _ {N D : Type 0} (H : Host N D) where
  pub round_cons :
      (max_bytes : ℕ) (s : Shard H) (ss : List (Shard H)) (total : ℕ)
      {o : Option (Query N × DnsCacheEntry N D)}
      → (H.lru.pop_lru s).0 ≡ o
      → round H max_bytes (s ∷ ss) total
        ≡ keep_shard H (H.lru.pop_lru s).1 (pop_one H max_bytes ss (round H max_bytes ss) total o)
  unfolding round
  round_cons max_bytes s ss total h =
      ap
        (λ o.
          keep_shard H (H.lru.pop_lru s).1 (pop_one H max_bytes ss (round H max_bytes ss) total o))
        h

  pub round_nil :
      (max_bytes total : ℕ)
      → round H max_bytes [] total ≡ record { shards = []; total = total; evicted = false }
  unfolding round
  round_nil max_bytes total = refl

  -- A shard that has nothing to give holds nothing, and one that has is one entry shorter.
  pop_lru-none : (s : Shard H) → (H.lru.pop_lru s).0 ≡ none → size_in H (H.lru.pop_lru s).1 ≡ 0
  pop_lru-none s h =
      let (handed, left) = H.lru.pop_lru-list s in
      let empty : entries H s ≡ [] = last-none (entries H s) (sym handed ∙ h) in
      rw (left, empty) refl

  size-pop_lru : (s : Shard H) → length (entries H (H.lru.pop_lru s).1) ≡ length (entries H s) - 1
  size-pop_lru s = rw (H.lru.pop_lru-list s).1 (length-front (entries H s))

  length-pop_lru-some :
      (s : Shard H) (popped : Query N × DnsCacheEntry N D)
      → (H.lru.pop_lru s).0 ≡ some popped
      → 1 ≤ length (entries H s)
  length-pop_lru-some s popped h = last-some (entries H s) popped (sym (H.lru.pop_lru-list s).0 ∙ h)

  stop_if-mod :
      (within : Bool) (rest : ℕ) (ss : List (Shard H)) (total : ℕ) (later : Sweep (Shard H))
      → total ≡ (rest + stored_size H ss) % word
      → later.total ≡ (rest + stored_size H later.shards) % word
      → (stop_if H within ss total later).total
        ≡ (rest + stored_size H (stop_if H within ss total later).shards) % word
  stop_if-mod true rest ss total later now after = now
  stop_if-mod false rest ss total later now after = after

  -- What a round counts follows what it leaves.
  pub round-mod :
      (max_bytes rest : ℕ) (ss : List (Shard H)) (total : ℕ)
      → total ≡ (rest + stored_size H ss) % word
      → (round H max_bytes ss total).total
        ≡ (rest + stored_size H (round H max_bytes ss total).shards) % word
  round-mod max_bytes rest [] total h = rw (round_nil max_bytes total) h
  round-mod max_bytes rest (s ∷ ss) total h = elim (Option-cases (H.lru.pop_lru s).0) [
    | inl none_left ↦ rw (round_cons max_bytes s ss total none_left) (
        let whole = size_in-pop_lru H s none_left in
        omega (
          arith,
          round-mod max_bytes (rest + size_in H (H.lru.pop_lru s).1) ss total
              (omega (arith, h, whole)),
        ))
    | inr ((query, e), some_left) ↦ rw (round_cons max_bytes s ss total some_left) (
        let whole = size_in-pop_lru H s some_left in
        let left = add_bytes 0 (entry_size H query e) total in
        let counted : left ≡ (rest + size_in H (H.lru.pop_lru s).1 + stored_size H ss) % word =
          add_bytes-mod 0 (entry_size H query e) (rest + stored_size H (s ∷ ss))
            (rest + size_in H (H.lru.pop_lru s).1 + stored_size H ss) total h
            (omega (arith, whole)) in
        omega (
          arith,
          stop_if-mod (leb left max_bytes) (rest + size_in H (H.lru.pop_lru s).1) ss left
              (round H max_bytes ss left) counted
              (round-mod max_bytes (rest + size_in H (H.lru.pop_lru s).1) ss left counted),
        ))
  ]

  stop_if-length :
      (within : Bool) (ss : List (Shard H)) (total : ℕ) (later : Sweep (Shard H))
      → entry_count H later.shards ≤ entry_count H ss
      → (entry_count H (stop_if H within ss total later).shards ≤ entry_count H ss)
        × ((stop_if H within ss total later).evicted ≡ true)
  stop_if-length true ss total later fewer = (omega arith, refl)
  stop_if-length false ss total later fewer = (fewer, refl)

  -- A round leaves no entry more, one less at least if it evicted, and none where it did not.
  pub round-entry_count :
      (max_bytes : ℕ) (ss : List (Shard H)) (total : ℕ)
      → (entry_count H (round H max_bytes ss total).shards ≤ entry_count H ss)
        × (((round H max_bytes ss total).evicted ≡ true
              → entry_count H (round H max_bytes ss total).shards < entry_count H ss)
            × ((round H max_bytes ss total).evicted ≡ false
                → stored_size H (round H max_bytes ss total).shards ≡ 0))
  round-entry_count max_bytes [] total =
      rw (round_nil max_bytes total) (omega arith, (λ h. absurd (ground arith), λ h. refl))
  round-entry_count max_bytes (s ∷ ss) total = elim (Option-cases (H.lru.pop_lru s).0) [
    | inl none_left ↦ rw (round_cons max_bytes s ss total none_left) (
        let (fewer, (one_less, nothing)) = round-entry_count max_bytes ss total in
        let shorter = size-pop_lru s in
        (
          omega (arith, fewer, shorter),
          (
            λ h. omega (arith, one_less h, shorter),
            λ h. omega (arith, nothing h, pop_lru-none s none_left),
          ),
        ))
    | inr ((query, e), some_left) ↦ rw (round_cons max_bytes s ss total some_left) (
        let left = add_bytes 0 (entry_size H query e) total in
        let (fewer, hit) =
          stop_if-length (leb left max_bytes) ss left (round H max_bytes ss left)
            (round-entry_count max_bytes ss left).0 in
        let shorter = size-pop_lru s in
        let more = length-pop_lru-some s (query, e) some_left in
        (
          omega (arith, fewer, shorter),
          (λ h. omega (arith, fewer, shorter, more), λ h. absurd (cc (hit, h))),
        ))
  ]
