-- ===== src/Server/DnsCache/BudgetLaws.antt =====
-- The loop of `enforce_memory_budget` in src/dns_mw_cache.rs as a whole.
use smartdns_rs.Prelude.{
  Bool-cases, List, arith, false, inl, inr, leb, leb→le, refl, suc, true, zero, ℕ, ◌%◌, ◌+◌, ◌<◌,
  ◌≡◌, ◌≤◌,
}
use native.Mathlib.Nat.{suc-add}
use native.Mathlib.Numerals.{add-one}
use smartdns_rs.Server.Dispatch.{word}
use smartdns_rs.Server.DnsCache.Host.{Host}
use smartdns_rs.Server.DnsCache.Budget.{
  Shard, enforce_memory_budget, entry_count, evict, round, stored_size,
}
use smartdns_rs.Server.DnsCache.Eviction.{round-mod, round-entry_count}

module _ {N D : Type 0} (H : Host N D) where
  -- The counter follows what is stored, up to the wrap.
  abbrev pub IsCounted : List (Shard H) × ℕ → Type 0
  IsCounted r = r.1 ≡ stored_size H r.0 % word

  pub evict_zero :
      (max_bytes : ℕ) (ss : List (Shard H)) (total : ℕ) → evict H 0 max_bytes ss total ≡ (ss, total)
  unfolding evict
  evict_zero max_bytes ss total = refl

  pub evict_within :
      (fuel max_bytes : ℕ) (ss : List (Shard H)) (total : ℕ)
      → leb total max_bytes ≡ true
      → evict H (suc fuel) max_bytes ss total ≡ (ss, total)
  unfolding evict
  evict_within fuel max_bytes ss total h = rw h refl

  pub evict_more :
      (fuel max_bytes : ℕ) (ss : List (Shard H)) (total : ℕ)
      → leb total max_bytes ≡ false
      → (round H max_bytes ss total).evicted ≡ true
      → evict H (suc fuel) max_bytes ss total
        ≡ evict H fuel max_bytes
            (round H max_bytes ss total).shards
            (round H max_bytes ss total).total
  unfolding evict
  evict_more fuel max_bytes ss total over more = rw (over, more) refl

  pub evict_stuck :
      (fuel max_bytes : ℕ) (ss : List (Shard H)) (total : ℕ)
      → leb total max_bytes ≡ false
      → (round H max_bytes ss total).evicted ≡ false
      → evict H (suc fuel) max_bytes ss total
        ≡ ((round H max_bytes ss total).shards, (round H max_bytes ss total).total)
  unfolding evict
  evict_stuck fuel max_bytes ss total over stuck = rw (over, stuck) refl

  -- The loop has ended by itself once there is more fuel than entries: fuel beyond that changes nothing.
  pub evict-entry_count :
      (extra fuel max_bytes : ℕ) (ss : List (Shard H)) (total : ℕ)
      → entry_count H ss < fuel
      → evict H (fuel + extra) max_bytes ss total ≡ evict H fuel max_bytes ss total
  evict-entry_count extra zero max_bytes ss total h = absurd (omega arith)
  evict-entry_count extra (suc fuel) max_bytes ss total h =
      let r = round H max_bytes ss total in
      let (fewer, (one_less, nothing)) = round-entry_count H max_bytes ss total in
      elim (Bool-cases (leb total max_bytes)) [
        | inl within ↦
            rw (suc-add, evict_within fuel max_bytes ss total within)
              (evict_within (fuel + extra) max_bytes ss total within)
        | inr over ↦ elim (Bool-cases r.evicted) [
          | inl more ↦
              rw
                (
                  suc-add,
                  evict_more fuel max_bytes ss total over more,
                  evict_more (fuel + extra) max_bytes ss total over more,
                )
                (evict-entry_count extra fuel max_bytes r.shards r.total
                  (omega (arith, one_less more)))
          | inr stuck ↦
              rw (suc-add, evict_stuck fuel max_bytes ss total over stuck)
                (evict_stuck (fuel + extra) max_bytes ss total over stuck)
        ]
      ]

  round-IsCounted :
      (max_bytes : ℕ) (ss : List (Shard H)) (total : ℕ)
      → IsCounted (ss, total)
      → IsCounted ((round H max_bytes ss total).shards, (round H max_bytes ss total).total)
  round-IsCounted max_bytes ss total h =
      omega (arith, round-mod H max_bytes 0 ss total (omega (arith, h)))

  pub evict-IsCounted :
      (fuel max_bytes : ℕ) (ss : List (Shard H)) (total : ℕ)
      → IsCounted (ss, total)
      → IsCounted (evict H fuel max_bytes ss total)
  evict-IsCounted zero max_bytes ss total h = rw (evict_zero max_bytes ss total) h
  evict-IsCounted (suc fuel) max_bytes ss total h =
      let r = round H max_bytes ss total in
      let counted = round-IsCounted max_bytes ss total h in
      elim (Bool-cases (leb total max_bytes)) [
        | inl within ↦ rw (evict_within fuel max_bytes ss total within) h
        | inr over ↦ elim (Bool-cases r.evicted) [
          | inl more ↦
              rw (evict_more fuel max_bytes ss total over more)
                (evict-IsCounted fuel max_bytes r.shards r.total counted)
          | inr stuck ↦ rw (evict_stuck fuel max_bytes ss total over stuck) counted
        ]
      ]

  pub evict-le :
      (fuel max_bytes : ℕ) (ss : List (Shard H)) (total : ℕ)
      → entry_count H ss < fuel
      → IsCounted (ss, total)
      → (evict H fuel max_bytes ss total).1 ≤ max_bytes
  evict-le zero max_bytes ss total enough h = absurd (omega arith)
  evict-le (suc fuel) max_bytes ss total enough h =
      let r = round H max_bytes ss total in
      let counted = round-IsCounted max_bytes ss total h in
      let (fewer, (one_less, nothing)) = round-entry_count H max_bytes ss total in
      elim (Bool-cases (leb total max_bytes)) [
        | inl within ↦
            rw (evict_within fuel max_bytes ss total within) (leb→le total max_bytes within)
        | inr over ↦ elim (Bool-cases r.evicted) [
          | inl more ↦
              rw (evict_more fuel max_bytes ss total over more)
                (evict-le fuel max_bytes r.shards r.total (omega (arith, one_less more)) counted)
          | inr stuck ↦
              rw (evict_stuck fuel max_bytes ss total over stuck)
                (omega (arith, counted, nothing stuck))
        ]
      ]

  pub enforce_over :
      (max_bytes : ℕ) (ss : List (Shard H)) (total : ℕ)
      → 0 < max_bytes
      → enforce_memory_budget H max_bytes ss total
        ≡ evict H (entry_count H ss + 1) max_bytes ss total
  unfolding enforce_memory_budget
  enforce_over max_bytes ss total h = ground arith

  pub enforce_unlimited :
      (max_bytes : ℕ) (ss : List (Shard H)) (total : ℕ)
      → max_bytes ≡ 0
      → enforce_memory_budget H max_bytes ss total ≡ (ss, total)
  unfolding enforce_memory_budget
  enforce_unlimited max_bytes ss total h = ground arith

  pub enforce_memory_budget-IsCounted :
      (max_bytes : ℕ) (ss : List (Shard H)) (total : ℕ)
      → IsCounted (ss, total)
      → IsCounted (enforce_memory_budget H max_bytes ss total)
  enforce_memory_budget-IsCounted zero ss total h = rw (enforce_unlimited 0 ss total refl) h
  enforce_memory_budget-IsCounted (suc m) ss total h =
      rw (enforce_over (suc m) ss total (omega arith))
        (evict-IsCounted (entry_count H ss + 1) (suc m) ss total h)

  -- Where the counter is right and a limit is set, the eviction loop ends at or below the limit,
  -- and it has ended by itself: fuel beyond the number of entries and one changes nothing.
  pub enforce_memory_budget-le :
      (max_bytes : ℕ) (ss : List (Shard H)) (total extra : ℕ)
      → IsCounted (ss, total)
      → 0 < max_bytes
      → ((enforce_memory_budget H max_bytes ss total).1 ≤ max_bytes)
        × (evict H (entry_count H ss + 1 + extra) max_bytes ss total
            ≡ enforce_memory_budget H max_bytes ss total)
  enforce_memory_budget-le max_bytes ss total extra h limited =
      rw (enforce_over max_bytes ss total limited) (
        evict-le (entry_count H ss + 1) max_bytes ss total (omega arith) h,
        evict-entry_count extra (entry_count H ss + 1) max_bytes ss total (omega arith),
      )

  -- Within the limit nothing is evicted.
  pub enforce_within :
      (max_bytes : ℕ) (ss : List (Shard H)) (total : ℕ)
      → total ≤ max_bytes
      → enforce_memory_budget H max_bytes ss total ≡ (ss, total)
  enforce_within zero ss total h = enforce_unlimited 0 ss total refl
  enforce_within (suc m) ss total h =
      rw (enforce_over (suc m) ss total (omega arith), add-one)
        (evict_within (entry_count H ss) (suc m) ss total (ground arith))
