-- ===== src/Server/DnsCache/Bytes.antt =====
-- How the operations on one shard, and a sweep over them, change what is stored.
use smartdns_rs.Prelude.{
  List, Option, Option-cases, [], arith, inl, inr, length, refl, some, suc, sym, zero, ℕ, ◌%◌, ◌+◌,
  ◌∙◌, ◌∷◌, ◌≡◌,
}
use smartdns_rs.Server.Dispatch.{word}
use smartdns_rs.Server.Dns.{Query, DnsResponse}
use smartdns_rs.Server.DnsCache.Entry.{Clock, DnsCacheEntry, new_entry, renew}
use smartdns_rs.Server.DnsCache.Host.{response_size, Host, entry_size, same, same_iff}
use smartdns_rs.Server.DnsCache.Lru.{find, weigh, weigh-front, weigh-erase, weigh-list_push}
use smartdns_rs.Server.DnsCache.Budget.{
  Shard, add_bytes-mod, swap_bytes-mod, entries, freed, stored_size,
}
use smartdns_rs.Server.DnsCache.Store.{on_shard, put, put_eq, push_new}

module _ {N D : Type 0} (H : Host N D) where
  abbrev pub size_in : Shard H → ℕ
  size_in s = weigh (entry_size H) (entries H s)

  pub size_in-write :
      (query : Query N) (e old : DnsCacheEntry N D) (s : Shard H)
      → H.lru.get_mut query s ≡ some old
      → size_in (H.lru.write query e s) + entry_size H query old ≡ size_in s + entry_size H query e
  size_in-write query e old s h =
      let at_list : find (same H) query (entries H s) ≡ some old =
        sym (H.lru.get_mut-find query s) ∙ h in
      let lighter =
        weigh-erase (same H) (same_iff H) (entry_size H) query old (entries H s) at_list in
      rw (H.lru.entries-write query e old s at_list) (omega (arith, lighter))

  pub size_in-push :
      (query : Query N) (e : DnsCacheEntry N D) (s : Shard H)
      → size_in (H.lru.push query e s).1 + freed H (H.lru.push query e s).0
        ≡ size_in s + entry_size H query e
  size_in-push query e s =
      let (handed, left) = H.lru.push-list query e s in
      rw (handed, left)
        (weigh-list_push (same H) (same_iff H) (entry_size H) (H.lru.cap s) query e (entries H s))

  pub size_in-pop_lru :
      (s : Shard H) {o : Option (Query N × DnsCacheEntry N D)}
      → (H.lru.pop_lru s).0 ≡ o
      → size_in (H.lru.pop_lru s).1 + freed H o ≡ size_in s
  size_in-pop_lru s h =
      let (handed, left) = H.lru.pop_lru-list s in
      rw (sym h ∙ handed, left) (weigh-front (entry_size H) (entries H s))

  pub push_new-mod :
      (query : Query N) (e : DnsCacheEntry N D) (rest : ℕ) (s : Shard H) (total : ℕ)
      → total ≡ (rest + size_in s) % word
      → (push_new H query e s total).1 ≡ (rest + size_in (push_new H query e s total).0) % word
  push_new-mod query e rest s total h =
      swap_bytes-mod (freed H (H.lru.push query e s).0) (entry_size H query e) (rest + size_in s)
        (rest + size_in (H.lru.push query e s).1) total h (omega (arith, size_in-push query e s))

  pub put-mod :
      (query : Query N) (res : DnsResponse N D) (valid_until : ℕ) (clock : Clock) (rest : ℕ)
      (s : Shard H) (total : ℕ)
      → total ≡ (rest + size_in s) % word
      → (put H query res valid_until clock s total).1
        ≡ (rest + size_in (put H query res valid_until clock s total).0) % word
  put-mod query res valid_until clock rest s total h = elim (Option-cases (H.lru.get_mut query s)) [
    | inl absent ↦
        rw (put_eq H query res valid_until clock s total absent)
          (push_new-mod query (new_entry res valid_until clock) rest s total h)
    | inr (old, found) ↦ rw (put_eq H query res valid_until clock s total found) (
        add_bytes-mod (response_size H query res) (entry_size H query old) (rest + size_in s)
          (rest + size_in (H.lru.write query (renew res valid_until clock old) s)) total h
          (omega (arith, size_in-write query (renew res valid_until clock old) old s found)))
  ]

  -- A change that one shard's count follows is followed by the count of all.
  pub on_shard-mod :
      (i : ℕ) (f : Shard H → ℕ → Shard H × ℕ) (rest : ℕ) (ss : List (Shard H)) (total : ℕ)
      → ((rest' : ℕ) (s : Shard H) (total' : ℕ)
          → total' ≡ (rest' + size_in s) % word
          → (f s total').1 ≡ (rest' + size_in (f s total').0) % word)
      → total ≡ (rest + stored_size H ss) % word
      → (on_shard H i f ss total).1 ≡ (rest + stored_size H (on_shard H i f ss total).0) % word
  on_shard-mod i f rest [] total each h = h
  on_shard-mod zero f rest (s ∷ ss) total each h =
      omega (arith, each (rest + stored_size H ss) s total (omega (arith, h)))
  on_shard-mod (suc i) f rest (s ∷ ss) total each h =
      omega (arith, on_shard-mod i f (rest + size_in s) ss total each (omega (arith, h)))

  -- One that leaves each shard's size leaves the size of all.
  pub stored_size-on_shard {ℓ} :
      {B : Type ℓ} (i : ℕ) (f : Shard H → B → Shard H × B) (ss : List (Shard H)) (b : B)
      → ((s : Shard H) (c : B) → size_in (f s c).0 ≡ size_in s)
      → stored_size H (on_shard H i f ss b).0 ≡ stored_size H ss
  stored_size-on_shard i f [] b each = refl
  stored_size-on_shard zero f (s ∷ ss) b each = omega (arith, each s b)
  stored_size-on_shard (suc i) f (s ∷ ss) b each = omega (arith, stored_size-on_shard i f ss b each)

  pub length-on_shard {ℓ} :
      {B : Type ℓ} (i : ℕ) (f : Shard H → B → Shard H × B) (ss : List (Shard H)) (b : B)
      → length (on_shard H i f ss b).0 ≡ length ss
  length-on_shard i f [] b = refl
  length-on_shard zero f (s ∷ ss) b = refl
  length-on_shard (suc i) f (s ∷ ss) b = omega (arith, length-on_shard i f ss b)
