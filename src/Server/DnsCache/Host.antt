-- ===== src/Server/DnsCache/Host.antt =====
-- What src/dns_mw_cache.rs takes from outside the repository: comparison and length of a name, the
-- hash of a query, the sizes of its structs and the crate `lru`; and the two functions of the
-- source that stand on these alone, the shard of a query and the size of an entry.
use smartdns_rs.Prelude.{Bool, List, [], arith, true, ℕ, ◌%◌, ◌&&◌, ◌+◌, ◌==◌, ◌↔◌, ◌∷◌, ◌≡◌}
use smartdns_rs.Server.Dns.{DnsResponse, Query, Record}
use smartdns_rs.Server.DnsCache.Entry.{DnsCacheEntry}
use smartdns_rs.Server.DnsCache.Lru.{Lru}

module _ {N : Type 0} where
  abbrev pub same_query : (N → N → Bool) → Query N → Query N → Bool
  same_query same p q =
      same p.name q.name && (p.query_type == q.query_type && p.query_class == q.query_class)

pub record Host (N D : Type 0) : Type 1 where
  pub same_name : N → N → Bool
  pub same_name_iff : (a b : N) → (same_name a b ≡ true) ↔ (a ≡ b)
  -- the length of `to_utf8`
  pub utf8_len : N → ℕ
  -- `DefaultHasher` over name, type and class
  pub hash : Query N → ℕ
  pub size_of_query : ℕ
  pub size_of_entry : ℕ
  pub size_of_record : ℕ
  pub lru : Lru (Query N) (DnsCacheEntry N D) (same_query same_name)

module _ {N D : Type 0} (H : Host N D) where
  abbrev pub same : Query N → Query N → Bool
  same = same_query H.same_name

  abbrev pub shard_index_of : Query N → ℕ → ℕ
  shard_index_of query n = H.hash query % n

  abbrev records_size : List (Record N D) → ℕ
  records_size [] = 0
  records_size (r ∷ rs) = H.size_of_record + H.utf8_len r.name + 128 + records_size rs

  abbrev pub response_size : Query N → DnsResponse N D → ℕ
  response_size query res =
      H.size_of_query + H.size_of_entry + H.utf8_len query.name + records_size res.answers

  abbrev pub entry_size : Query N → DnsCacheEntry N D → ℕ
  entry_size query e = response_size query e.res

  pub same_iff : (a b : Query N) → (same a b ≡ true) ↔ (a ≡ b)
  same_iff a b =
      let by_name = H.same_name_iff a.name b.name in
      (λ h. grind (arith, by_name), λ h. grind (arith, by_name))
