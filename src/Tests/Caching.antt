-- ===== src/Tests/Caching.antt =====
-- Concrete inputs for the theorems on the server's cache: names that are numbers, records whose
-- data is the minimum of an SOA, and lists for the crate's shards.
use smartdns_rs.Prelude.{
  ==_iff, Bool, List, [], arith, false, if◌then◌else◌, inl, leb, length, refl, some, true, ℕ, ◌%◌,
  ◌+◌, ◌-◌, ◌<◌, ◌==◌, ◌∷◌, ◌≡◌, ◌≤◌, ◌⊎◌,
}
use smartdns_rs.Server.Dns.{
  DnsResponse, Query, Record, from_secs, new_with_deadline, no_error, rr_a, set_max_ttl, as_u32,
  as_secs, max_ttl,
}
use smartdns_rs.Server.DnsCache.Entry.{Clock}
use smartdns_rs.Server.DnsCache.Host.{Host, same_query}
use smartdns_rs.Server.DnsCache.Lru.{Lru, find, front, last, list_push, put_first}
use smartdns_rs.Server.DnsCache.Budget.{
  add_bytes, enforce_memory_budget, entry_count, evict, round, stored_size,
}
use smartdns_rs.Server.DnsCache.BudgetLaws.{enforce_memory_budget-le}
use smartdns_rs.Server.DnsCache.Store.{DnsCache, expired, new, put, store, valid}
use smartdns_rs.Server.DnsCache.Access.{
  cached_records, insert_groups, get, get_in, insert, insert_records, rename,
}
use smartdns_rs.Server.DnsCache.Reach.{Reach, inserts, next, stay}
use smartdns_rs.Server.DnsCache.Limits.{entry_count-Reach, total_bytes-Reach}
use smartdns_rs.Server.DnsCache.Named.{IsNamed}
use smartdns_rs.Server.DnsCache.Lookup.{get-insert, max_ttl-get-insert}
use smartdns_rs.Server.Dispatch.{word}
use smartdns_rs.Server.QueryLog.{unwrap_or}

module _ {K V : Type 0} (same : K → K → Bool) where
  abbrev list_lru : Lru K V same
  list_lru = record {
    Shard = ℕ × List (K × V);
    entries = λ c. c.1;
    cap = λ c. c.0;
    new = λ n. (n, []);
    get_mut = λ k c. find same k c.1;
    write = λ k v c. (c.0, put_first same k v c.1);
    push = λ k v c. ((list_push same c.0 k v c.1).0, (c.0, (list_push same c.0 k v c.1).1));
    pop_lru = λ c. (last c.1, (c.0, front c.1));
    clear = λ c. (c.0, []);
    entries-new = λ n. refl;
    cap-new = λ n. refl;
    get_mut-find = λ k c. refl;
    entries-write = λ k v old c h. refl;
    cap-write = λ k v c. refl;
    push-list = λ k v c. (refl, refl);
    cap-push = λ k v c. refl;
    pop_lru-list = λ c. (refl, refl);
    cap-pop_lru = λ c. refl;
    entries-clear = λ c. refl;
    cap-clear = λ c. refl;
  }

abbrev pub host : Host ℕ ℕ
host = record {
  same_name = ◌==◌;
  same_name_iff = ==_iff;
  utf8_len = λ n. 10;
  hash = λ q. q.name;
  size_of_query = 100;
  size_of_entry = 300;
  size_of_record = 200;
  lru = list_lru (same_query ◌==◌);
}

abbrev pub at : ℕ → Clock
at n = record { now = from_secs n; local = from_secs n }

abbrev pub question : ℕ → Query ℕ
question n = record { name = n; query_type = rr_a; query_class = 1 }

abbrev pub address : ℕ → ℕ → Record ℕ ℕ
address n ttl = record { name = n; record_type = rr_a; dns_class = 1; ttl = ttl; rdata = 0 }

-- Room for two entries, with a limit on the bytes that one entry alone keeps.
abbrev pub fresh : ℕ → DnsCache host
fresh max_bytes = new host 2 true 0 5 max_bytes

abbrev one_inserted : ℕ → DnsCache host
one_inserted max_bytes =
    (insert_records host (question 7) (address 7 3600 ∷ []) (at 1000) "default" (fresh max_bytes)).1

abbrev two_inserted : ℕ → DnsCache host
two_inserted max_bytes =
    (insert_records host (question 8) (address 8 60 ∷ []) (at 1001) "default"
      (one_inserted max_bytes)).1

two_reached : (max_bytes : ℕ) → Reach host (fresh max_bytes) (two_inserted max_bytes)
two_reached max_bytes =
    next (next stay (inserts (question 7) (address 7 3600 ∷ []) (at 1000) "default"))
      (inserts (question 8) (address 8 60 ∷ []) (at 1001) "default")

abbrev limit : ℕ
limit = 1000

entry_count-Reach_example :
    (entry_count host (two_inserted limit).shards ≤ 2)
    × (((limit ≡ 0) ⊎ ((two_inserted limit).total_bytes ≤ limit))
        × (length (cached_records host (two_inserted limit))
            ≡ entry_count host (two_inserted limit).shards))
entry_count-Reach_example = entry_count-Reach host 2 true 0 5 limit (two_reached limit)

total_bytes-Reach_example :
    (two_inserted 0).total_bytes ≡ stored_size host (two_inserted 0).shards % word
total_bytes-Reach_example = total_bytes-Reach host 2 true 0 5 0 (two_reached 0)

-- With no limit both stay, and with the limit the first goes.
both_stay : entry_count host (two_inserted 0).shards ≡ 2
unfolding new insert_records insert_groups insert store put add_bytes enforce_memory_budget evict
    round list_push new_with_deadline
both_stay = refl

one_stays :
    ((two_inserted limit).total_bytes ≡ 748) × (entry_count host (two_inserted limit).shards ≡ 1)
unfolding new insert_records insert_groups insert store put add_bytes enforce_memory_budget evict
    round list_push new_with_deadline
one_stays = (refl, refl)

total_counted : (two_inserted 0).total_bytes ≡ stored_size host (two_inserted 0).shards % word
unfolding new insert_records insert_groups insert store put add_bytes enforce_memory_budget evict
    round list_push new_with_deadline
total_counted = refl

enforce_memory_budget-le_example :
    ((enforce_memory_budget host 800 (two_inserted 0).shards (two_inserted 0).total_bytes).1 ≤ 800)
    × (evict host
          (entry_count host (two_inserted 0).shards + 1 + 5)
          800
          (two_inserted 0).shards
          (two_inserted 0).total_bytes
        ≡ enforce_memory_budget host 800 (two_inserted 0).shards (two_inserted 0).total_bytes)
enforce_memory_budget-le_example =
    enforce_memory_budget-le host 800 (two_inserted 0).shards (two_inserted 0).total_bytes 5
      total_counted (omega arith)

-- The answer to the query, ten seconds after it was inserted with an hour: the ten minutes of the
-- ceiling less the ten seconds.
abbrev pub stored : DnsResponse ℕ ℕ × DnsCache host
stored = insert host (question 7) ((address 7 3600, 3600) ∷ []) (at 1000) "default" (fresh 0)

abbrev pub ten_later : DnsResponse ℕ ℕ
ten_later = record {
  query = question 7;
  response_code = no_error;
  answers = address 7 590 ∷ [];
  authorities = [];
  valid_until = from_secs 1600;
  name_server_group = some "default";
  from_cache = false;
}

-- The address comes with another name than the one asked for.
abbrev other_name : DnsResponse ℕ ℕ × DnsCache host
other_name = insert host (question 7) ((address 8 3600, 3600) ∷ []) (at 1000) "default" (fresh 0)

get-insert_example :
    (answers : List (Record ℕ ℕ)) × IsNamed host (question 7) other_name.0.answers answers
    × ((get host (question 7) (at 1010) other_name.1).0
        ≡ some (
            let named = record other_name.0 { answers = answers } in
            if leb (at 1010).now other_name.0.valid_until
            then (
              set_max_ttl (as_u32 (as_secs (other_name.0.valid_until - (at 1010).now))) named,
              valid,
            )
            else (set_max_ttl (as_u32 (fresh 0).expired_reply_ttl) named, expired)))
unfolding new
get-insert_example =
    get-insert host (question 7) ((address 8 3600, 3600) ∷ []) (at 1000) (at 1010) "default"
      (fresh 0) (omega arith) (inl refl)

answered : (get host (question 7) (at 1010) stored.1).0 ≡ some (ten_later, valid)
unfolding new insert_records insert_groups insert store put add_bytes enforce_memory_budget evict
    round list_push new_with_deadline get get_in set_max_ttl rename
answered = refl

max_ttl-get-insert_example :
    (unwrap_or (max_ttl ten_later.answers) 0 ≤ as_secs (stored.0.valid_until - (at 1010).now))
    × (unwrap_or (max_ttl ten_later.answers) 0 < 600)
unfolding new
max_ttl-get-insert_example =
    max_ttl-get-insert host (question 7) ((address 7 3600, 3600) ∷ []) (at 1000) (at 1010) "default"
      (fresh 0) ten_later (omega arith) (inl refl) (omega arith) answered
