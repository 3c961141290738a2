-- ===== src/Server/DnsCache/Handle.antt =====
-- The middleware's `handle` in src/dns_mw_cache.rs. What runs between the lookup and the insertion,
-- the other middlewares and other requests, takes the context and the cache and gives them back
-- as it leaves them.
use smartdns_rs.Prelude.{
  Bool, List, Option, false, if◌then◌else◌, inl, inr, ltb, none, not, some, true, ℕ, ◌&&◌, ◌||◌,
  ◌⊎◌,
}
use smartdns_rs.Server.QueryLog.{unwrap_or}
use smartdns_rs.Server.Dispatch.{fetch_add}
use smartdns_rs.Server.Dns.{DnsResponse, Query, Record, mark_from_cache, max_ttl}
use smartdns_rs.Server.DnsCache.Entry.{Clock}
use smartdns_rs.Server.DnsCache.Host.{Host}
use smartdns_rs.Server.DnsCache.Store.{CacheStatus, DnsCache, expired, valid}
use smartdns_rs.Server.DnsCache.Access.{get, insert_negative, insert_records}
use smartdns_rs.Server.DnsCache.Policy.{
  DnsContext, DnsError, clamp_ttl_bounds, has_type, is_negative_response,
  negative_response_from_error, negative_ttl, on_hit_limit, rr_ttl_bounds, same_group,
}

-- What the lookup comes to: an answer at once, with the wish for a refresh, or what is kept for
-- the case that the upstreams fail.
pub data Hit (N D : Type 0) : Type 0 where
  served : DnsResponse N D → Bool → Hit N D
  kept : Option (DnsResponse N D) → Hit N D

pub record Handled {ℓ} (N D : Type 0) (C : Type ℓ) : Type ℓ where
  pub outcome : DnsError N D ⊎ DnsResponse N D
  pub cache : C
  -- `try_prefetch` and `notify_one`
  pub prefetch_asked : Bool
  pub notified : Bool
  -- `ctx.source` is the cache
  pub from_cache : Bool

-- What `next.run` gives and leaves.
pub record Ran {ℓ} (N D : Type 0) (C : Type ℓ) : Type ℓ where
  pub outcome : DnsError N D ⊎ DnsResponse N D
  pub ctx : DnsContext
  pub cache : C

module _ {N D : Type 0} where
  abbrev pub wants_prefetch : DnsContext → Query N → DnsResponse N D → Bool
  wants_prefetch ctx query res =
      not (is_negative_response res query)
      && ltb (unwrap_or (max_ttl res.answers) 0) (on_hit_limit ctx.serve_expired_prefetch_time)

  abbrev pub hit_by_status : DnsContext → Query N → DnsResponse N D → CacheStatus → Hit N D
  hit_by_status ctx query res valid = served (mark_from_cache res) (wants_prefetch ctx query res)
  hit_by_status ctx query res expired =
      if ctx.serve_expired && not (unwrap_or ctx.no_serve_expired false)
      then served (mark_from_cache res) (wants_prefetch ctx query res)
      else kept (some res)

  unfoldable pub hit_of : DnsContext → Query N → Option (DnsResponse N D × CacheStatus) → Hit N D
  hit_of ctx query none = kept none
  hit_of ctx query (some (res, status)) =
      if same_group res.name_server_group ctx.server_group_name
      then hit_by_status ctx query res status
      else kept none

module _ {N D : Type 0} (H : Host N D) (soa_minimum : D → Option ℕ) where
  abbrev plain : DnsError N D ⊎ DnsResponse N D → DnsCache H → Handled N D (DnsCache H)
  plain outcome c = record {
    outcome = outcome;
    cache = c;
    prefetch_asked = false;
    notified = false;
    from_cache = false;
  }

  abbrev pub store_negative :
      DnsContext → Query N → DnsResponse N D → Clock → DnsCache H → DnsCache H
  store_negative ctx query res clock c =
      insert_negative H query res (negative_ttl soa_minimum res) ctx.server_group_name clock c

  abbrev clamped : DnsContext → List (Record N D) → List (Record N D)
  clamped ctx rs = let (least, most) = rr_ttl_bounds ctx in clamp_ttl_bounds least most rs

  abbrev pub store_positive :
      DnsContext → Query N → DnsResponse N D → Clock → DnsCache H → DnsCache H
  store_positive ctx query res clock c =
      (insert_records H query (clamped ctx res.answers) clock ctx.server_group_name c).1

  -- The arm for an answer.
  unfoldable pub on_answer :
      DnsContext → Query N → DnsResponse N D → Clock → DnsCache H → Handled N D (DnsCache H)
  on_answer ctx query res clock c =
      if not ctx.no_cache && (ctx.cache_negative && is_negative_response res query)
      then plain (inr res) (store_negative ctx query res clock c)
      else if not (has_type query.query_type res.answers)
      then plain (inr res) c
      else if not ctx.no_cache
      then record (plain (inr res) (store_positive ctx query res clock c)) {
        notified = ctx.prefetch_domain;
      }
      else plain (inr res) c

  abbrev pub fall_back :
      DnsError N D → Option (DnsResponse N D) → DnsCache H → Handled N D (DnsCache H)
  fall_back err none c = plain (inl err) c
  fall_back err (some old) c = plain (inr old) c

  abbrev pub on_negative_error :
      DnsContext
      → Query N
      → DnsError N D
      → Option (DnsResponse N D)
      → Clock
      → DnsCache H
      → Option (DnsResponse N D)
      → Handled N D (DnsCache H)
  on_negative_error ctx query err old clock c none = fall_back err old c
  on_negative_error ctx query err old clock c (some negative) =
      if not ctx.no_cache && ctx.cache_negative
      then plain (inr negative) (store_negative ctx query negative clock c)
      else fall_back err old c

  -- The arm for an error, with what the lookup kept.
  unfoldable pub on_error :
      DnsContext
      → Query N
      → DnsError N D
      → Option (DnsResponse N D)
      → Clock
      → DnsCache H
      → Handled N D (DnsCache H)
  on_error ctx query err old clock c =
      on_negative_error ctx query err old clock c (negative_response_from_error err query clock.now)

  abbrev pub on_ran :
      Query N
      → Option (DnsResponse N D)
      → Clock
      → Ran N D (DnsCache H)
      → DnsError N D ⊎ DnsResponse N D
      → Handled N D (DnsCache H)
  on_ran query old clock ran (inr res) = on_answer ran.ctx query res clock ran.cache
  on_ran query old clock ran (inl err) = on_error ran.ctx query err old clock ran.cache

  abbrev pub run_next :
      Query N → Option (DnsResponse N D) → Clock → Ran N D (DnsCache H) → Handled N D (DnsCache H)
  run_next query old clock ran = on_ran query old clock ran ran.outcome

  abbrev count_hit : DnsCache H → DnsCache H
  count_hit c = record c { query_hits = fetch_add c.query_hits 1 }

  abbrev pub respond :
      DnsContext
      → Query N
      → (DnsContext → DnsCache H → Ran N D (DnsCache H))
      → Clock
      → Hit N D
      → DnsCache H
      → Handled N D (DnsCache H)
  respond ctx query next clock (served res asked) c = record {
    outcome = inr res;
    cache = count_hit c;
    prefetch_asked = asked;
    notified = false;
    from_cache = true;
  }
  respond ctx query next clock (kept old) c = run_next query old clock (next ctx c)

  -- The lookup is at `clock`, an insertion at `later`.
  unfoldable pub handle :
      DnsContext
      → Query N
      → Bool
      → (DnsContext → DnsCache H → Ran N D (DnsCache H))
      → Clock
      → Clock
      → DnsCache H
      → Handled N D (DnsCache H)
  handle ctx query is_dnssec next clock later c =
      let (found, c') = get H query clock c in
      if ctx.server_no_cache || (ctx.no_cache || is_dnssec)
      then (let ran = next ctx c in plain ran.outcome ran.cache)
      else if ctx.is_background
      then run_next query none later (next ctx c)
      else respond ctx query next later (hit_of ctx query found) c'
