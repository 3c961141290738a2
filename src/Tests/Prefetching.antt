-- ===== src/Tests/Prefetching.antt =====
-- Concrete inputs for what the cache asks to be refreshed.
use smartdns_rs.Prelude.{
  List, Option, String, [], any, arith, false, none, refl, some, true, ℕ, ◌∷◌, ◌≡◌,
}
use smartdns_rs.Tests.Caching.{address, at, host, question, stored, ten_later}
use smartdns_rs.Server.Dns.{Query, from_secs, new_with_deadline}
use smartdns_rs.Server.DnsCache.Host.{same}
use smartdns_rs.Server.DnsCache.Lru.{list_push}
use smartdns_rs.Server.DnsCache.Budget.{add_bytes, enforce_memory_budget}
use smartdns_rs.Server.DnsCache.Store.{DnsCache, index_in, new, put, store}
use smartdns_rs.Server.DnsCache.Access.{insert}
use smartdns_rs.Server.DnsCache.Prefetch.{get_expired, judge, look, scan}
use smartdns_rs.Server.DnsCache.Flags.{FlaggedAt}
use smartdns_rs.Server.DnsCache.Asked.{get_expired-Waiting}
use smartdns_rs.Server.DnsCache.Once.{get_expired-FlaggedAt}

-- The entry of ten minutes is due a while after its deadline.
abbrev first_look : (List (Query ℕ × Option String) × ℕ) × DnsCache host
first_look = get_expired host (from_secs 5000) none (from_secs 5) 16 stored.1

asked_first : first_look.0.0 ≡ (question 7, some "default") ∷ []
unfolding new insert store put add_bytes enforce_memory_budget list_push new_with_deadline
    get_expired scan look judge
asked_first = refl

-- The refresh arrives, and expires in its turn.
abbrev refreshed : DnsCache host
refreshed =
    (insert host (question 7) ((address 7 3600, 3600) ∷ []) (at 5001) "default" first_look.1).1

flagged_still : FlaggedAt host (index_in host refreshed (question 7)) (question 7) refreshed.shards
unfolding new insert store put add_bytes enforce_memory_budget list_push new_with_deadline
    get_expired scan look judge
flagged_still = (
  record {
    res = record ten_later { answers = address 7 3600 ∷ []; valid_until = from_secs 5601 };
    valid_until = from_secs 5601;
    is_in_prefetching = true;
    failed_at = none;
    hits = 1;
    last_access = from_secs 5001;
  },
  (refl, (refl, refl)),
)

get_expired-FlaggedAt_example :
    (any
        (λ (p : Query ℕ × Option String). same host p.0 (question 7))
        (get_expired host (from_secs 9000) none (from_secs 5) 16 refreshed).0.0
      ≡ false)
    × FlaggedAt host
        (index_in host
          (get_expired host (from_secs 9000) none (from_secs 5) 16 refreshed).1
          (question 7))
        (question 7)
        (get_expired host (from_secs 9000) none (from_secs 5) 16 refreshed).1.shards
get_expired-FlaggedAt_example =
    get_expired-FlaggedAt host (question 7) (from_secs 9000) none (from_secs 5) 16 refreshed
      flagged_still

-- So nothing is asked for again.
not_asked_again : (get_expired host (from_secs 9000) none (from_secs 5) 16 refreshed).0.0 ≡ []
unfolding new insert store put add_bytes enforce_memory_budget list_push new_with_deadline
    get_expired scan look judge
not_asked_again = refl

get_expired-Waiting_example :
    any
      (λ (p : Query ℕ × Option String). same host p.0 (question 7))
      (get_expired host (from_secs 5000) none (from_secs 5) 16 stored.1).0.0
    ≡ true
unfolding new insert store put add_bytes enforce_memory_budget list_push new_with_deadline
get_expired-Waiting_example =
    get_expired-Waiting host (question 7) (from_secs 5000) none (from_secs 5) 16 stored.1 [] []
      (record { expires = from_secs 1600; query = question 7 }) refl refl refl (omega arith, tt)
      (omega arith)
      (
        record {
          res = record ten_later { answers = address 7 3600 ∷ [] };
          valid_until = from_secs 1600;
          is_in_prefetching = false;
          failed_at = none;
          hits = 0;
          last_access = from_secs 1000;
        },
        (refl, (refl, refl)),
      )
