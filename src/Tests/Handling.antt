-- ===== src/Tests/Handling.antt =====
-- Concrete inputs for the theorems on the cache's middleware.
use smartdns_rs.Prelude.{
  All, Option, [], arith, false, inl, inr, none, refl, some, true, ℕ, ◌∷◌, ◌≡◌, ◌≤◌,
}
use smartdns_rs.Tests.Caching.{address, at, fresh, host, question, stored, ten_later}
use smartdns_rs.Server.Dns.{DnsResponse, Record, new_with_deadline, nx_domain, set_max_ttl}
use smartdns_rs.Server.DnsCache.Lru.{list_push}
use smartdns_rs.Server.DnsCache.Budget.{add_bytes, enforce_memory_budget}
use smartdns_rs.Server.DnsCache.Store.{DnsCache, expired, new, put, store}
use smartdns_rs.Server.DnsCache.Access.{get, get_in, insert, rename}
use smartdns_rs.Server.DnsCache.Policy.{DnsContext, is_negative_response, other_error}
use smartdns_rs.Server.DnsCache.Handle.{Ran, handle, on_answer}
use smartdns_rs.Server.DnsCache.Negative.{handle-on_answer}

abbrev minimum : ℕ → Option ℕ
minimum n = some n

abbrev pub home : DnsContext
home = record {
  server_no_cache = false;
  no_cache = false;
  is_background = false;
  server_group_name = "default";
  no_serve_expired = some true;
  rule_ttl_min = none;
  rule_ttl_max = none;
  serve_expired = true;
  cache_negative = true;
  prefetch_domain = true;
  serve_expired_prefetch_time = 0;
  rr_ttl_min = none;
  rr_ttl_max = none;
}

-- An alias of another name, and an SOA with a minimum of five seconds.
abbrev no_such_name : DnsResponse ℕ ℕ
no_such_name = record {
  query = question 9;
  response_code = nx_domain;
  answers = record { name = 9; record_type = 5; dns_class = 1; ttl = 90000; rdata = 0 } ∷ [];
  authorities = record { name = 9; record_type = 6; dns_class = 1; ttl = 5; rdata = 5 } ∷ [];
  valid_until = 0;
  name_server_group = none;
  from_cache = false;
}

abbrev failing : DnsContext → DnsCache host → Ran ℕ ℕ (DnsCache host)
failing ctx c = record { outcome = inl (other_error "timed out"); ctx = ctx; cache = c }

abbrev after_negative : DnsCache host
after_negative = (on_answer host minimum home (question 9) no_such_name (at 1000) (fresh 0)).cache

-- The upstreams would fail by then.
handle-on_answer_example :
    let r =
      handle host minimum home (question 9) false failing (at 1060) (at 1061) after_negative in
    (r.from_cache ≡ true)
    × ((again : DnsResponse ℕ ℕ) × ((r.outcome ≡ inr again)
          × ((again.response_code ≡ nx_domain)
              × ((again.authorities ≡ no_such_name.authorities)
                  × All (λ (t : Record ℕ ℕ). t.ttl ≤ 3600) again.answers))))
unfolding new is_negative_response
handle-on_answer_example =
    handle-on_answer host minimum home home (question 9) no_such_name failing (at 1000) (at 1060)
      (at 1061) (fresh 0) refl refl refl (refl, (refl, refl)) refl (omega arith) refl (omega arith)
      (omega arith)

abbrev expired_answer : DnsResponse ℕ ℕ
expired_answer = record ten_later { answers = address 7 5 ∷ [] }

long_expired : (get host (question 7) (at 5000) stored.1).0 ≡ some (expired_answer, expired)
unfolding new insert store put add_bytes enforce_memory_budget list_push new_with_deadline get
    get_in set_max_ttl rename
long_expired = refl

abbrev resolving : DnsContext → DnsCache host → Ran ℕ ℕ (DnsCache host)
resolving ctx c = record { outcome = inr stored.0; ctx = ctx; cache = c }
