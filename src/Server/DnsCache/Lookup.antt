-- ===== src/Server/DnsCache/Lookup.antt =====
-- What the cache of src/dns_mw_cache.rs answers after an insertion.
use smartdns_rs.Prelude.{
  Bool, List, Option, Option-cases, String, [], ap, arith, false, if◌then◌else◌, inl, inr, leb,
  length, min, none, refl, some, subst, suc, sym, true, zero, ℕ, ◌+◌, ◌-◌, ◌<◌, ◌∙◌, ◌∷◌, ◌≡◌, ◌≤◌,
  ◌⊎◌,
}
use native.Mathlib.Nat.{mod-lt}
use smartdns_rs.Server.Dns.{
  Query, Record, DnsResponse, as_secs, as_u32, from_secs, max_ttl, max_ttl-le, new_with_deadline,
  set_max_ttl, set_max_ttl-All,
}
use smartdns_rs.Server.QueryLog.{unwrap_or}
use smartdns_rs.Server.DnsCache.Entry.{Clock, DnsCacheEntry, new_entry, renew}
use smartdns_rs.Server.DnsCache.Host.{Host, same, same_iff}
use smartdns_rs.Server.DnsCache.Lru.{find, find-list_push}
use smartdns_rs.Server.DnsCache.Budget.{Shard, enforce_memory_budget, entries}
use smartdns_rs.Server.DnsCache.Bytes.{length-on_shard}
use smartdns_rs.Server.DnsCache.BudgetLaws.{enforce_unlimited, enforce_within}
use smartdns_rs.Server.DnsCache.Store.{
  CacheStatus, DnsCache, expired, index_in, on_shard, put, put_eq, put_in, store, valid,
}
use smartdns_rs.Server.DnsCache.Named.{IsNamed, rename-IsNamed, rename-answers}
use smartdns_rs.Server.DnsCache.Access.{
  get, get_in, get_in_eq, insert, insert_ttl_cap, min_ttl, rename, reply,
}

module _ {N D : Type 0} (H : Host N D) where
  -- After two changes of one shard, what the second gives, if every shard gives it.
  on_shard-on_shard {ℓ κ} :
      {B : Type ℓ} {C : Type κ} (i : ℕ) (f : Shard H → B → Shard H × B)
      (g : Shard H → C → Shard H × C) (ss : List (Shard H)) (b : B) (c r : C)
      → i < length ss
      → ((s : Shard H) (b : B) → (g (f s b).0 c).1 ≡ r)
      → (on_shard H i g (on_shard H i f ss b).0 c).1 ≡ r
  on_shard-on_shard i f g [] b c r inside each = absurd (omega arith)
  on_shard-on_shard zero f g (s ∷ ss) b c r inside each = each s b
  on_shard-on_shard (suc i) f g (s ∷ ss) b c r inside each =
      on_shard-on_shard i f g ss b c r (omega arith) each

  -- A query that is stored and not evicted is found.
  get_mut-write :
      (query : Query N) (e old : DnsCacheEntry N D) (s : Shard H)
      → H.lru.get_mut query s ≡ some old
      → H.lru.get_mut query (H.lru.write query e s) ≡ some e
  get_mut-write query e old s h =
      let at_list : find (same H) query (entries H s) ≡ some old =
        sym (H.lru.get_mut-find query s) ∙ h in
      rw
        (
          H.lru.get_mut-find query (H.lru.write query e s),
          H.lru.entries-write query e old s at_list,
          (same_iff H query query).1 refl,
        )
        refl

  get_mut-push :
      (query : Query N) (e : DnsCacheEntry N D) (s : Shard H)
      → H.lru.get_mut query (H.lru.push query e s).1 ≡ some e
  get_mut-push query e s =
      rw (H.lru.get_mut-find query (H.lru.push query e s).1, (H.lru.push-list query e s).1)
        (find-list_push (same H) (same_iff H) (H.lru.cap s) query e (entries H s))

  get_in-put :
      (query : Query N) (res : DnsResponse N D) (valid_until ttl : ℕ) (clock later : Clock)
      (s : Shard H) (total : ℕ)
      → (get_in H query later ttl (put H query res valid_until clock s total).0 none).1
        ≡ some (reply H query later.now ttl (new_entry res valid_until clock))
  get_in-put query res valid_until ttl clock later s total =
      elim (Option-cases (H.lru.get_mut query s)) [
        | inl absent ↦
            let e = new_entry res valid_until clock in
            rw (put_eq H query res valid_until clock s total absent)
              (ap (λ r. r.1) (get_in_eq H query later ttl _ none (get_mut-push query e s)))
        | inr (old, found) ↦
            let e = renew res valid_until clock old in
            rw (put_eq H query res valid_until clock s total found) (
              ap (λ r. r.1)
                (get_in_eq H query later ttl _ none (get_mut-write query e old s found)))
      ]

  -- Where nothing is evicted, what is stored is what is found.
  pub get-store :
      (query : Query N) (res : DnsResponse N D) (valid_until : ℕ) (clock later : Clock)
      (c : DnsCache H)
      → 0 < length c.shards
      → (c.max_bytes ≡ 0) ⊎ ((put_in H query res valid_until clock c).total_bytes ≤ c.max_bytes)
      → (get H query later (store H query res valid_until clock c)).0
        ≡ some (reply H query later.now c.expired_reply_ttl (new_entry res valid_until clock))
  unfolding get store
  get-store query res valid_until clock later c some_shard fits =
      let c' = put_in H query res valid_until clock c in
      let i = index_in H c query in
      let kept : enforce_memory_budget H c.max_bytes c'.shards c'.total_bytes
          ≡ (c'.shards, c'.total_bytes) =
        elim fits [
          | inl unlimited ↦ enforce_unlimited H c.max_bytes c'.shards c'.total_bytes unlimited
          | inr within ↦ enforce_within H c.max_bytes c'.shards c'.total_bytes within
        ] in
      rw (kept, length-on_shard H i (put H query res valid_until clock) c.shards c.total_bytes)
        (on_shard-on_shard i (put H query res valid_until clock)
          (get_in H query later c.expired_reply_ttl) c.shards c.total_bytes none _
          (mod-lt (H.hash query) some_shard)
          (get_in-put query res valid_until c.expired_reply_ttl clock later))

  -- What is found after an insertion is the response that the insertion returned.
  get-insert-rename :
      (query : Query N) (rs : List (Record N D × ℕ)) (clock later : Clock) (group : String)
      (c : DnsCache H)
      → 0 < length c.shards
      → (c.max_bytes ≡ 0)
        ⊎ ((put_in H query
              (insert H query rs clock group c).0
              (insert H query rs clock group c).0.valid_until
              clock
              c).total_bytes
            ≤ c.max_bytes)
      → (get H query later (insert H query rs clock group c).1).0 ≡ (
          let res = (insert H query rs clock group c).0 in
          some (
            if leb later.now res.valid_until
            then (
              set_max_ttl (as_u32 (as_secs (res.valid_until - later.now))) (rename H query res),
              valid,
            )
            else (set_max_ttl (as_u32 c.expired_reply_ttl) (rename H query res), expired)))
  unfolding insert new_with_deadline get
  get-insert-rename query rs clock later group c some_shard fits =
      get-store query (insert H query rs clock group c).0 (clock.now + min_ttl insert_ttl_cap rs)
        clock later c some_shard fits

  -- Where there is a shard and nothing is evicted to stay within the limit, a query that was
  -- inserted is answered with the response that the insertion returned: as valid, with the seconds
  -- that are left as the ceiling of each TTL, up to its deadline, and as expired after. Where its
  -- answers are addresses alone, without an alias among them, and one has another name, all are
  -- given the name asked for; else the answers are as they were.
  pub get-insert :
      (query : Query N) (rs : List (Record N D × ℕ)) (clock later : Clock) (group : String)
      (c : DnsCache H)
      → 0 < length c.shards
      → (c.max_bytes ≡ 0)
        ⊎ ((put_in H query
              (insert H query rs clock group c).0
              (insert H query rs clock group c).0.valid_until
              clock
              c).total_bytes
            ≤ c.max_bytes)
      → let res = (insert H query rs clock group c).0 in
        (answers : List (Record N D)) × IsNamed H query res.answers answers
        × ((get H query later (insert H query rs clock group c).1).0
            ≡ some (
                let named = record res { answers = answers } in
                if leb later.now res.valid_until
                then (set_max_ttl (as_u32 (as_secs (res.valid_until - later.now))) named, valid)
                else (set_max_ttl (as_u32 c.expired_reply_ttl) named, expired)))
  get-insert query rs clock later group c some_shard fits =
      let res = (insert H query rs clock group c).0 in
      (
        (rename H query res).answers,
        rename-IsNamed H query res,
        get-insert-rename query rs clock later group c some_shard fits
            ∙ ap
                (λ (named : DnsResponse N D). some (
                  if leb later.now res.valid_until
                  then (set_max_ttl (as_u32 (as_secs (res.valid_until - later.now))) named, valid)
                  else (set_max_ttl (as_u32 c.expired_reply_ttl) named, expired)))
                (rename-answers H query res),
      )

  min_ttl-le : (least : ℕ) (rs : List (Record N D × ℕ)) → min_ttl least rs ≤ least
  min_ttl-le least [] = omega arith
  min_ttl-le least ((r, ttl) ∷ rs) = omega (arith, min_ttl-le (min least (from_secs ttl)) rs)

  -- The deadline of an insertion is ten minutes ahead at most.
  valid_until-insert :
      (query : Query N) (rs : List (Record N D × ℕ)) (clock : Clock) (group : String)
      (c : DnsCache H)
      → (insert H query rs clock group c).0.valid_until ≤ clock.now + from_secs 600
  unfolding insert new_with_deadline
  valid_until-insert query rs clock group c = omega (arith, min_ttl-le insert_ttl_cap rs)

  valid-if :
      (b : Bool) (p q res : DnsResponse N D)
      → ◌≡◌ {A = Option (DnsResponse N D × CacheStatus)}
          (some (if b then (p, valid) else (q, expired)))
          (some (res, valid))
      → p ≡ res
  valid-if true p q res h = cc h
  valid-if false p q res h = absurd (cc h)

  -- Where there is a shard and nothing is evicted to stay within the limit, an answer that the
  -- cache gives as valid after the instant of the insertion gives no record more seconds than are
  -- left to the deadline, and each fewer than 600, whatever TTL the records came with.
  pub max_ttl-get-insert :
      (query : Query N) (rs : List (Record N D × ℕ)) (clock later : Clock) (group : String)
      (c : DnsCache H) (res : DnsResponse N D)
      → 0 < length c.shards
      → (c.max_bytes ≡ 0)
        ⊎ ((put_in H query
              (insert H query rs clock group c).0
              (insert H query rs clock group c).0.valid_until
              clock
              c).total_bytes
            ≤ c.max_bytes)
      → clock.now < later.now
      → (get H query later (insert H query rs clock group c).1).0 ≡ some (res, valid)
      → (unwrap_or (max_ttl res.answers) 0
          ≤ as_secs ((insert H query rs clock group c).0.valid_until - later.now))
        × (unwrap_or (max_ttl res.answers) 0 < 600)
  max_ttl-get-insert query rs clock later group c res some_shard fits after h =
      let stored = (insert H query rs clock group c).0 in
      let left = as_secs (stored.valid_until - later.now) in
      let answered = sym (get-insert-rename query rs clock later group c some_shard fits) ∙ h in
      let deadline = valid_until-insert query rs clock group c in
      let clipped = set_max_ttl-All (as_u32 left) (rename H query stored) in
      let bound =
        max_ttl-le (as_u32 left) (set_max_ttl (as_u32 left) (rename H query stored)).answers
          clipped in
      let same_res = valid-if (leb later.now stored.valid_until) _ _ res answered in
      let least : unwrap_or (max_ttl res.answers) 0 ≤ as_u32 left =
        subst (λ (r : DnsResponse N D). unwrap_or (max_ttl r.answers) 0 ≤ as_u32 left) same_res
          bound in
      (omega (arith, least), omega (arith, least, deadline, after))
