-- ===== src/Server/DnsCache/Policy.antt =====
-- What decides in src/dns_mw_cache.rs whether an answer is stored and for how long, with the bounds
-- of src/dns_mw_addr.rs on the TTLs that are stored, and the errors of src/dns_error.rs.
use smartdns_rs.Prelude.{
  Bool, List, Option, String, [], any, false, map, max, min, none, not, some, suc, true, zero, ℕ,
  ◌+◌, ◌-◌, ◌==◌, ◌=s=◌, ◌^◌, ◌∷◌,
}
use smartdns_rs.Server.Dns.{
  DnsResponse, Query, Record, ResponseCode, as_u32, clip_max, clip_min, from_secs,
  new_with_deadline, no_error, nx_domain, other_code,
}
use smartdns_rs.Server.DnsCache.Prefetch.{max_ttl_secs}

-- The errors that the handler tells apart: a response code, no records, with the SOA record where
-- there is one, and the others.
pub data DnsError (N D : Type 0) : Type 0 where
  response_code : ResponseCode → DnsError N D
  no_records_found : Option (Record N D) → DnsError N D
  other_error : String → DnsError N D

-- What the handler reads of the context, the request and the configuration.
pub record DnsContext : Type 0 where
  pub server_no_cache : Bool
  pub no_cache : Bool
  pub is_background : Bool
  pub server_group_name : String
  -- of the domain's rule
  pub no_serve_expired : Option Bool
  pub rule_ttl_min : Option ℕ
  pub rule_ttl_max : Option ℕ
  -- of the configuration
  pub serve_expired : Bool
  pub cache_negative : Bool
  pub prefetch_domain : Bool
  pub serve_expired_prefetch_time : ℕ
  pub rr_ttl_min : Option ℕ
  pub rr_ttl_max : Option ℕ

abbrev pub on_hit_prefetch_remaining_ttl : ℕ
on_hit_prefetch_remaining_ttl = 600

unfoldable pub on_hit_limit : ℕ → ℕ
on_hit_limit zero = on_hit_prefetch_remaining_ttl
on_hit_limit (suc n) = as_u32 (min (suc n) (2 ^ 32 - 1))

module _ {A : Type 0} where
  abbrev or_else : Option A → Option A → Option A
  or_else (some a) other = some a
  or_else none other = other

-- `as u32` on the bound that is there.
abbrev bound_u32 : Option ℕ → Option ℕ
bound_u32 none = none
bound_u32 (some n) = some (as_u32 n)

abbrev pub rr_ttl_bounds : DnsContext → Option ℕ × Option ℕ
rr_ttl_bounds ctx = (
  bound_u32 (or_else ctx.rule_ttl_min ctx.rr_ttl_min),
  bound_u32 (or_else ctx.rule_ttl_max ctx.rr_ttl_max),
)

abbrev pub same_group : Option String → String → Bool
same_group none name = false
same_group (some group) name = group =s= name

module _ {N D : Type 0} where
  abbrev clamp_min : Option ℕ → Record N D → Record N D
  clamp_min none r = r
  clamp_min (some n) r = clip_min n r

  abbrev clamp_max : Option ℕ → Record N D → Record N D
  clamp_max none r = r
  clamp_max (some n) r = clip_max n r

  unfoldable pub clamp_ttl_bounds : Option ℕ → Option ℕ → List (Record N D) → List (Record N D)
  clamp_ttl_bounds least most = map (λ r. clamp_max most (clamp_min least r))

  abbrev pub has_type : ℕ → List (Record N D) → Bool
  has_type t rs = any (λ r. r.record_type == t) rs

  abbrev is_negative_by : ResponseCode → ℕ → List (Record N D) → Bool
  is_negative_by nx_domain t rs = true
  is_negative_by no_error t rs = not (has_type t rs)
  is_negative_by other_code t rs = false

  unfoldable pub is_negative_response : DnsResponse N D → Query N → Bool
  is_negative_response res query = is_negative_by res.response_code query.query_type res.answers

  abbrev pub new_with_max_ttl : Query N → List (Record N D) → ℕ → DnsResponse N D
  new_with_max_ttl query rs now = new_with_deadline query rs (now + from_secs max_ttl_secs)

  unfoldable pub negative_response_from_error :
      DnsError N D → Query N → ℕ → Option (DnsResponse N D)
  negative_response_from_error (response_code nx_domain) query now =
      some (record (new_with_max_ttl query [] now) { response_code = nx_domain })
  negative_response_from_error (response_code no_error) query now = none
  negative_response_from_error (response_code other_code) query now = none
  negative_response_from_error (no_records_found none) query now = none
  negative_response_from_error (no_records_found (some soa)) query now =
      some (record (new_with_max_ttl query [] now) { authorities = soa ∷ [] })
  negative_response_from_error (other_error text) query now = none

-- The minimum of an SOA record, or what the records after it come to.
abbrev pub minimum_or : Option ℕ → ℕ → ℕ
minimum_or (some minimum) rest = max minimum 60
minimum_or none rest = rest

-- `soa_minimum` reads the minimum of a record that is an SOA.
module _ {N D : Type 0} (soa_minimum : D → Option ℕ) where
  abbrev pub first_minimum : List (Record N D) → ℕ
  first_minimum [] = 600
  first_minimum (r ∷ rs) = minimum_or (soa_minimum r.rdata) (first_minimum rs)

  unfoldable pub negative_ttl : DnsResponse N D → ℕ
  negative_ttl res = from_secs (min (first_minimum res.authorities) 3600)
