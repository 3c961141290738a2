-- ===== src/Server/DnsCache/Invariant.antt =====
-- What every operation of src/dns_mw_cache.rs keeps.
use smartdns_rs.Prelude.{
  Bool-cases, List, Option-cases, String, ap, arith, inl, inr, ltb, ltb→lt, none, refl, some, ℕ,
  ◌%◌, ◌+◌, ◌≡◌, ◌≤◌, ◌⊎◌,
}
use smartdns_rs.Server.Dispatch.{word}
use smartdns_rs.Server.Dns.{Query, Record, DnsResponse}
use smartdns_rs.Server.DnsCache.Entry.{Clock, DnsCacheEntry, hit}
use smartdns_rs.Server.DnsCache.Host.{Host, entry_size, response_size}
use smartdns_rs.Server.DnsCache.Budget.{Shard}
use smartdns_rs.Server.DnsCache.Bytes.{
  on_shard-mod, put-mod, size_in, size_in-write, stored_size-on_shard,
}
use smartdns_rs.Server.DnsCache.BudgetLaws.{
  IsCounted, enforce_memory_budget-IsCounted, enforce_memory_budget-le,
}
use smartdns_rs.Server.DnsCache.Capacity.{
  Fits, IsRoomy, enforce_memory_budget-IsRoomy, on_shard-IsRoomy, put-Fits, write-Fits,
}
use smartdns_rs.Server.DnsCache.Store.{
  DnsCache, enforce, index_in, on_shard, put, store, with_stored,
}
use smartdns_rs.Server.DnsCache.Access.{get, get_in, get_in_eq, insert, insert_negative}
use smartdns_rs.Server.DnsCache.Prefetch.{judge, look, look_eq, res-judge}

module _ {N D : Type 0} (H : Host N D) where
  -- The counter of bytes is right, and no shard holds too much.
  abbrev pub IsStored : ℕ → DnsCache H → Type 0
  IsStored n c = IsCounted H (c.shards, c.total_bytes) × IsRoomy H n c.shards

  abbrev pub IsSound : ℕ → DnsCache H → Type 0
  IsSound n c = IsStored n c × ((c.max_bytes ≡ 0) ⊎ (c.total_bytes ≤ c.max_bytes))

  pub enforce-IsSound : (n : ℕ) (c : DnsCache H) → IsStored n c → IsSound n (enforce H c)
  enforce-IsSound n c (counted, roomy) = (
    (
      enforce_memory_budget-IsCounted H c.max_bytes c.shards c.total_bytes counted,
      enforce_memory_budget-IsRoomy H n c.max_bytes c.shards c.total_bytes roomy,
    ),
    elim (Bool-cases (ltb 0 c.max_bytes)) [
      | inl limited ↦
          inr
            (enforce_memory_budget-le H c.max_bytes c.shards c.total_bytes 0 counted
              (ltb→lt 0 c.max_bytes limited)).0
      | inr unlimited ↦ inl (ground arith)
    ],
  )

  -- A change of one shard that its counter follows, under that shard's lock.
  pub locked-IsStored :
      (n i : ℕ) (f : Shard H → ℕ → Shard H × ℕ) (c : DnsCache H)
      → ((rest : ℕ) (s : Shard H) (total : ℕ)
          → total ≡ (rest + size_in H s) % word
          → (f s total).1 ≡ (rest + size_in H (f s total).0) % word)
      → ((s : Shard H) (total : ℕ) → Fits H s (f s total).0)
      → IsStored n c
      → IsStored n (with_stored H c (on_shard H i f c.shards c.total_bytes))
  locked-IsStored n i f c follows fits (counted, roomy) = (
    omega (arith, on_shard-mod H i f 0 c.shards c.total_bytes follows (omega (arith, counted))),
    on_shard-IsRoomy H n i f c.shards c.total_bytes fits roomy,
  )

  pub store-IsSound :
      (n : ℕ) (query : Query N) (res : DnsResponse N D) (valid_until : ℕ) (clock : Clock)
      (c : DnsCache H)
      → IsSound n c
      → IsSound n (store H query res valid_until clock c)
  unfolding store
  store-IsSound n query res valid_until clock c (stored, within) =
      let run = put H query res valid_until clock in
      let i = index_in H c query in
      enforce-IsSound n (with_stored H c (on_shard H i run c.shards c.total_bytes)) (
        locked-IsStored n i run c (put-mod H query res valid_until clock)
          (put-Fits H query res valid_until clock) stored)

  pub insert-IsSound :
      (n : ℕ) (query : Query N) (rs : List (Record N D × ℕ)) (clock : Clock) (group : String)
      (c : DnsCache H)
      → IsSound n c
      → IsSound n (insert H query rs clock group c).1
  unfolding insert
  insert-IsSound n query rs clock group c h = store-IsSound n query _ _ clock c h

  pub insert_negative-IsSound :
      (n : ℕ) (query : Query N) (res : DnsResponse N D) (ttl : ℕ) (group : String) (clock : Clock)
      (c : DnsCache H)
      → IsSound n c
      → IsSound n (insert_negative H query res ttl group clock c)
  unfolding insert_negative
  insert_negative-IsSound n query res ttl group clock c h = store-IsSound n query _ _ clock c h

  -- A change of the shards that keeps their entries' sizes and their room.
  abbrev pub Quiet {ℓ} : {B : Type ℓ} → (Shard H → B → Shard H × B) → Type ℓ
  Quiet {B = B} f = (s : Shard H) (b : B) → (size_in H (f s b).0 ≡ size_in H s) × Fits H s (f s b).0

  write-Quiet :
      (query : Query N) (e old : DnsCacheEntry N D) (s : Shard H)
      → H.lru.get_mut query s ≡ some old
      → e.res ≡ old.res
      → (size_in H (H.lru.write query e s) ≡ size_in H s) × Fits H s (H.lru.write query e s)
  write-Quiet query e old s found same_res = (
    (let sizes = size_in-write H query e old s found in
        let same_size : entry_size H query e ≡ entry_size H query old =
          ap (response_size H query) same_res in
        omega (arith, sizes, same_size)),
    write-Fits H query e old s found,
  )

  get_in-Quiet : (query : Query N) (clock : Clock) (ttl : ℕ) → Quiet (get_in H query clock ttl)
  get_in-Quiet query clock ttl s b = elim (Option-cases (H.lru.get_mut query s)) [
    | inl absent ↦ rw (get_in_eq H query clock ttl s b absent) (refl, (refl, λ k. k.0))
    | inr (old, found) ↦
        rw (get_in_eq H query clock ttl s b found)
          (write-Quiet query (hit clock old) old s found refl)
  ]

  pub look-Quiet :
      (query : Query N) (threshold base_interval : ℕ) → Quiet (look H query threshold base_interval)
  look-Quiet query threshold base_interval s b = elim (Option-cases (H.lru.get_mut query s)) [
    | inl absent ↦ rw (look_eq H query threshold base_interval s b absent) (refl, (refl, λ k. k.0))
    | inr (old, found) ↦ rw (look_eq H query threshold base_interval s b found) (
        write-Quiet query (judge H query threshold base_interval old).0 old s found
          (res-judge H query threshold base_interval old))
  ]

  -- Such a change under one lock.
  on_shard-IsSound {ℓ} :
      {B : Type ℓ} (n i : ℕ) (f : Shard H → B → Shard H × B) (b : B) (c : DnsCache H)
      → Quiet f
      → IsSound n c
      → IsSound n (record c { shards = (on_shard H i f c.shards b).0 })
  on_shard-IsSound n i f b c quiet ((counted, roomy), within) =
      let sizes = stored_size-on_shard H i f c.shards b (λ s b. (quiet s b).0) in
      ((rw sizes counted, on_shard-IsRoomy H n i f c.shards b (λ s b. (quiet s b).1) roomy), within)

  pub get-IsSound :
      (n : ℕ) (query : Query N) (clock : Clock) (c : DnsCache H)
      → IsSound n c
      → IsSound n (get H query clock c).1
  unfolding get
  get-IsSound n query clock c h =
      on_shard-IsSound n (index_in H c query) (get_in H query clock c.expired_reply_ttl) none c
        (get_in-Quiet query clock c.expired_reply_ttl) h
