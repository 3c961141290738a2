-- ===== src/Server/Replies/Reply.antt =====
-- The end of `AddressMiddleware::handle` (src/dns_mw_addr.rs): how many addresses of an answer are
-- sent and with which TTLs.
use smartdns_rs.Prelude.{
  Bool, List, Option, [], false, if◌then◌else◌, inl, inr, length, ltb, map, none, some, take, true,
  ℕ, ◌&&◌, ◌+◌, ◌-◌, ◌==◌, ◌||◌, ◌∷◌, ◌⊎◌,
}
use Prim.Native.String.{String}
use smartdns_rs.Server.QueryLog.{unwrap_or}
use smartdns_rs.Server.Dns.{
  DnsResponse, Query, Record, as_u32, clip_max, from_secs, is_ip_addr, mark_from_cache,
  new_with_deadline, with_name_server_group,
}
use smartdns_rs.Server.DnsCache.Policy.{DnsError, clamp_ttl_bounds}
use smartdns_rs.Server.Domains.Map.{is_some}
use smartdns_rs.Server.Replies.{AddressContext, RDatas, handle_rule_addr}

abbrev pub u32_of : Option ℕ → Option ℕ
u32_of none = none
u32_of (some n) = some (as_u32 n)

module _ {N D : Type 0} where
  abbrev pub static_record : RDatas D → N → ℕ → D → Record N D
  static_record rd name local_ttl d = record {
    name = name;
    record_type = rd.record_type d;
    dns_class = 1;
    ttl = as_u32 local_ttl;
    rdata = d;
  }

  -- The index behind the last address that is sent.
  unfoldable pub cut_at : ℕ → ℕ → List (Record N D) → Option ℕ
  cut_at left i [] = none
  cut_at left i (r ∷ rs) =
      let counted = cut_at (left - 1) (i + 1) rs in
      let passed = cut_at left (i + 1) rs in
      if is_ip_addr r.record_type then if left - 1 == 0 then some (i + 1) else counted else passed

  abbrev pub truncated : Option ℕ → List (Record N D) → Option (List (Record N D))
  truncated none rs = none
  truncated (some n) rs = if ltb n (length rs) then some (take n rs) else none

  -- The records, where they are owned.
  unfoldable pub cut_records : Option ℕ → ℕ → List (Record N D) → Option (List (Record N D))
  cut_records none query_type rs = none
  cut_records (some n) query_type rs =
      if is_ip_addr query_type && ltb 0 n then truncated (cut_at n 0 rs) rs else none

  abbrev pub clip_reply : Option ℕ → List (Record N D) → List (Record N D)
  clip_reply none rs = rs
  clip_reply (some n) rs = map (clip_max n) rs

  abbrev pub with_group : Option String → DnsResponse N D → DnsResponse N D
  with_group none res = res
  with_group (some group) res = with_name_server_group group res

  -- The response made again around owned records.
  unfoldable pub rebuild : DnsResponse N D → List (Record N D) → DnsResponse N D
  rebuild lookup records =
      let res = new_with_deadline lookup.query records lookup.valid_until in
      with_group lookup.name_server_group (if lookup.from_cache then mark_from_cache res else res)

  abbrev pub or_lookup : DnsResponse N D → Option (List (Record N D)) → DnsResponse N D
  or_lookup lookup none = lookup
  or_lookup lookup (some records) = rebuild lookup records

module _ {N W : Type 0} where
  abbrev pub has_limits : AddressContext N W → Bool
  has_limits ctx =
      is_some ctx.ttl_bounds.0 || (is_some ctx.ttl_bounds.1 || is_some ctx.rr_ttl_reply_max)

module _ {N W D : Type 0} where
  unfoldable pub reply_records :
      AddressContext N W → ℕ → List (Record N D) → Option (List (Record N D))
  reply_records ctx query_type records =
      let cut = cut_records ctx.max_reply_ip_num query_type records in
      if has_limits ctx
      then some (
          clip_reply (u32_of ctx.rr_ttl_reply_max)
            (clamp_ttl_bounds ctx.ttl_bounds.0 ctx.ttl_bounds.1 (unwrap_or cut records)))
      else cut

  -- What becomes of the answer of the other middlewares.
  unfoldable pub reply : AddressContext N W → ℕ → DnsResponse N D → DnsResponse N D
  reply ctx query_type lookup = or_lookup lookup (reply_records ctx query_type lookup.answers)

  abbrev pub static_response :
      RDatas D → AddressContext N W → Query N → ℕ → List D → DnsResponse N D
  static_response rd ctx query now rdatas =
      new_with_deadline query (map (static_record rd query.name ctx.local_ttl) rdatas)
        (now + from_secs ctx.local_ttl)

  -- The result, and whether `source` was set to `Static`; `next` is what the chain answers.
  unfoldable pub handle :
      RDatas D
      → AddressContext N W
      → Query N
      → ℕ
      → DnsError N D ⊎ DnsResponse N D
      → (DnsError N D ⊎ DnsResponse N D) × Bool
  handle rd ctx query now next = answer (handle_rule_addr rd query.query_type ctx)
    where
      answered : DnsError N D ⊎ DnsResponse N D → DnsError N D ⊎ DnsResponse N D
      answered (inl err) = inl err
      answered (inr lookup) = inr (reply ctx query.query_type lookup)

      answer : Option (List D) → (DnsError N D ⊎ DnsResponse N D) × Bool
      answer (some rdatas) = (inr (static_response rd ctx query now rdatas), true)
      answer none = (answered next, false)
