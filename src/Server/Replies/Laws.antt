-- ===== src/Server/Replies/Laws.antt =====
-- What `AddressMiddleware` (src/dns_mw_addr.rs) makes of the answer of the other middlewares.
use smartdns_rs.Prelude.{
  All, Bool, Bool-cases, List, [], ap, false, if_false, if_true, inl, inr, none, refl, some, subst,
  sym, true, ℕ, ◌||◌, ◌∙◌, ◌≡◌, ◌≤◌,
}
use smartdns_rs.Server.QueryLog.{unwrap_or}
use smartdns_rs.Server.Dns.{DnsResponse, Query, Record, as_u32, is_ip_addr, no_error}
use smartdns_rs.Server.DnsCache.Policy.{clamp_ttl_bounds}
use smartdns_rs.Server.Domains.Map.{is_some}
use smartdns_rs.Server.Replies.{AddressContext, RDatas, handle_rule_addr}
use smartdns_rs.Server.Replies.Reply.{
  clip_reply, cut_records, handle, has_limits, rebuild, reply, reply_records, u32_of,
}
use smartdns_rs.Server.Replies.Counts.{
  clip_reply-All, count_ips, count_ips-clamp, count_ips-clip_reply, kept-le, or_lookup-answers,
  rebuild-fields,
}

any_limit : (a b : Bool) → (a || (b || true)) ≡ true
any_limit true b = refl
any_limit false true = refl
any_limit false false = refl

module _ {N W D : Type 0} where
  -- The records that a limit on TTLs leaves.
  abbrev clipped : AddressContext N W → ℕ → List (Record N D) → List (Record N D)
  clipped ctx query_type records = clip_reply (u32_of ctx.rr_ttl_reply_max) (
      clamp_ttl_bounds ctx.ttl_bounds.0 ctx.ttl_bounds.1
        (unwrap_or (cut_records ctx.max_reply_ip_num query_type records) records))

  limited_records :
      (ctx : AddressContext N W) (query_type : ℕ) (records : List (Record N D))
      → has_limits ctx ≡ true
      → reply_records ctx query_type records ≡ some (clipped ctx query_type records)
  unfolding reply_records
  limited_records ctx query_type records limited = if_true _ limited _ _

  count_ips-reply_records :
      (ctx : AddressContext N W) (query_type n : ℕ) (records : List (Record N D))
      → ctx.max_reply_ip_num ≡ some n
      → 1 ≤ n
      → is_ip_addr query_type ≡ true
      → count_ips (unwrap_or (reply_records ctx query_type records) records) ≤ n
  unfolding reply_records
  count_ips-reply_records ctx query_type n records most some_left ip =
      let cut = cut_records ctx.max_reply_ip_num query_type records in
      let kept : count_ips (unwrap_or cut records) ≤ n =
        subst (λ o. count_ips (unwrap_or (cut_records o query_type records) records) ≤ n) (sym most)
          (kept-le n query_type records some_left ip) in
      elim (Bool-cases (has_limits ctx)) [
        | inr free ↦
            subst (λ o. count_ips (unwrap_or o records) ≤ n)
              (sym (if_false (has_limits ctx) free _ cut)) kept
        | inl limited ↦
            let same =
              count_ips-clip_reply (u32_of ctx.rr_ttl_reply_max)
                (clamp_ttl_bounds ctx.ttl_bounds.0 ctx.ttl_bounds.1 (unwrap_or cut records))
              ∙ count_ips-clamp ctx.ttl_bounds.0 ctx.ttl_bounds.1 (unwrap_or cut records) in
            subst (λ o. count_ips (unwrap_or o records) ≤ n)
              (sym (if_true (has_limits ctx) limited _ cut)) (subst (λ j. j ≤ n) (sym same) kept)
      ]

  -- The same of the answer of the other middlewares alone.
  reply-bounds :
      (ctx : AddressContext N W) (query_type n m : ℕ) (lookup : DnsResponse N D)
      → ctx.max_reply_ip_num ≡ some n
      → 1 ≤ n
      → ctx.rr_ttl_reply_max ≡ some m
      → is_ip_addr query_type ≡ true
      → let sent = (reply ctx query_type lookup).answers in
        (count_ips sent ≤ n) × All (λ (r : Record N D). r.ttl ≤ as_u32 m) sent
  unfolding reply
  reply-bounds ctx query_type n m lookup most some_left reply_max ip =
      let records = reply_records ctx query_type lookup.answers in
      let sent = or_lookup-answers lookup records in
      let clamped =
        clamp_ttl_bounds ctx.ttl_bounds.0 ctx.ttl_bounds.1
          (unwrap_or (cut_records ctx.max_reply_ip_num query_type lookup.answers) lookup.answers) in
      let limited : has_limits ctx ≡ true =
        subst (λ o. (is_some ctx.ttl_bounds.0 || (is_some ctx.ttl_bounds.1 || is_some o)) ≡ true)
          (sym reply_max) (any_limit (is_some ctx.ttl_bounds.0) (is_some ctx.ttl_bounds.1)) in
      (
        subst (λ l. count_ips l ≤ n) (sym sent)
            (count_ips-reply_records ctx query_type n lookup.answers most some_left ip),
        subst (All (λ (r : Record N D). r.ttl ≤ as_u32 m))
            (sym (
              sent
              ∙ ap (λ o. unwrap_or o lookup.answers)
                  (limited_records ctx query_type lookup.answers limited)))
            (subst (λ o. All (λ (r : Record N D). r.ttl ≤ as_u32 m) (clip_reply (u32_of o) clamped))
              (sym reply_max) (clip_reply-All (as_u32 m) clamped)),
      )

  -- Where no address rule answers a query for addresses, the number of addresses in a reply is
  -- limited to at least one and their TTLs are limited too, the address middleware answers,
  -- whatever answer the other middlewares give, with no more addresses than the first limit and no
  -- TTL in the answers above the second, in its 32 bits.
  pub handle-bounds :
      (rd : RDatas D) (ctx : AddressContext N W) (query : Query N) (now n m : ℕ)
      (lookup : DnsResponse N D)
      → handle_rule_addr rd query.query_type ctx ≡ none
      → ctx.max_reply_ip_num ≡ some n
      → 1 ≤ n
      → ctx.rr_ttl_reply_max ≡ some m
      → is_ip_addr query.query_type ≡ true
      → (res : DnsResponse N D) × (handle rd ctx query now (inr lookup) ≡ (inr res, false))
        × (count_ips res.answers ≤ n)
        × All (λ (r : Record N D). r.ttl ≤ as_u32 m) res.answers
  unfolding handle
  handle-bounds rd ctx query now n m lookup passed most some_left reply_max ip =
      let bounds = reply-bounds ctx query.query_type n m lookup most some_left reply_max ip in
      (reply ctx query.query_type lookup, rw passed refl, bounds.0, bounds.1)

  -- Where no address rule answers and a limit on TTLs is set, the address middleware gives every
  -- answer of the other middlewares the response code NoError and no authorities, whatever it had;
  -- the query, the deadline, the mark of the cache and the group are kept.
  pub handle-limits :
      (rd : RDatas D) (ctx : AddressContext N W) (query : Query N) (now : ℕ)
      (lookup : DnsResponse N D)
      → handle_rule_addr rd query.query_type ctx ≡ none
      → has_limits ctx ≡ true
      → (res : DnsResponse N D) × (handle rd ctx query now (inr lookup) ≡ (inr res, false))
        × (res.response_code ≡ no_error)
        × (res.authorities ≡ [])
        × (res.query ≡ lookup.query)
        × (res.valid_until ≡ lookup.valid_until)
        × (res.from_cache ≡ lookup.from_cache)
        × (res.name_server_group ≡ lookup.name_server_group)
  unfolding handle reply
  handle-limits rd ctx query now lookup passed limited =
      let records = clipped ctx query.query_type lookup.answers in
      let fields = rebuild-fields lookup records in
      (
        rebuild lookup records,
        rw (passed, limited_records ctx query.query_type lookup.answers limited) refl,
        fields.1,
        fields.2,
        fields.3,
        fields.4,
        fields.5,
        fields.6,
      )
