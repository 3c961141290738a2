-- ===== src/Server/DnsCache/Entry.antt =====
-- An entry of the cache in src/dns_mw_cache.rs: what is stored for a query. `failed_at` is the
-- source's `prefetch_failure_time` and `res` its `data`; the two fields of its `stats` stand beside the others.
use smartdns_rs.Prelude.{
  Bool, Option, false, if◌then◌else◌, leb, none, not, some, true, ℕ, ◌%◌, ◌*◌, ◌+◌, ◌-◌,
}
use smartdns_rs.Server.Dns.{DnsResponse}
use smartdns_rs.Server.Dispatch.{word}

-- `Instant::now()` and `Local::now()`, in nanoseconds.
pub record Clock : Type 0 where
  pub now : ℕ
  pub local : ℕ

pub record DnsCacheEntry (N D : Type 0) : Type 0 where
  pub res : DnsResponse N D
  pub valid_until : ℕ
  pub is_in_prefetching : Bool
  pub failed_at : Option ℕ
  pub hits : ℕ
  pub last_access : ℕ

abbrev pub retry_after : ℕ → ℕ → Option ℕ → Bool
retry_after now base_interval none = false
retry_after now base_interval (some failure_time) = leb (failure_time + base_interval * 2) now

module _ {N D : Type 0} where
  abbrev pub new_entry : DnsResponse N D → ℕ → Clock → DnsCacheEntry N D
  new_entry res valid_until clock = record {
    res = res;
    valid_until = valid_until;
    is_in_prefetching = false;
    failed_at = none;
    hits = 0;
    last_access = clock.local;
  }

  abbrev pub hit : Clock → DnsCacheEntry N D → DnsCacheEntry N D
  hit clock e = record e { hits = (e.hits + 1) % word; last_access = clock.local }

  -- An insertion on a query that has an entry: all but the two prefetch fields are set.
  abbrev pub renew : DnsResponse N D → ℕ → Clock → DnsCacheEntry N D → DnsCacheEntry N D
  renew res valid_until clock e = hit clock (record e { res = res; valid_until = valid_until })

  abbrev pub is_current : ℕ → DnsCacheEntry N D → Bool
  is_current now e = leb now e.valid_until

  -- `saturating_duration_since`
  abbrev pub ttl_left : ℕ → DnsCacheEntry N D → ℕ
  ttl_left now e = e.valid_until - now

  abbrev pub should_retry_prefetch : ℕ → ℕ → DnsCacheEntry N D → Bool
  should_retry_prefetch now base_interval e =
      if not e.is_in_prefetching then true else retry_after now base_interval e.failed_at
