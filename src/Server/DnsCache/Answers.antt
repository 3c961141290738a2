-- ===== src/Server/DnsCache/Answers.antt =====
-- How `handle` of src/dns_mw_cache.rs answers.
use smartdns_rs.Prelude.{
  Bool, Option, false, if◌then◌else◌, inl, inr, none, not, some, true, ℕ, ◌&&◌, ◌||◌, ◌⊎◌,
}
use smartdns_rs.Server.Dns.{DnsResponse, Query}
use smartdns_rs.Server.DnsCache.Entry.{Clock}
use smartdns_rs.Server.DnsCache.Host.{Host}
use smartdns_rs.Server.DnsCache.Store.{DnsCache}
use smartdns_rs.Server.DnsCache.Access.{get}
use smartdns_rs.Server.DnsCache.Reach.{
  Reach, Step, stay, next, inserts, inserts_negative, looks_up, counts_hit,
}
use smartdns_rs.Server.DnsCache.Policy.{
  has_type, DnsContext, DnsError, is_negative_response, negative_response_from_error,
}
use smartdns_rs.Server.DnsCache.Handle.{
  fall_back, Handled, Hit, Ran, handle, hit_of, kept, on_answer, on_error, on_negative_error,
  on_ran, respond, served,
}

module _ {N D : Type 0} (H : Host N D) (soa_minimum : D → Option ℕ) where
  Reach-trans : {c d e : DnsCache H} → Reach H c d → Reach H d e → Reach H c e
  Reach-trans r stay = r
  Reach-trans r (next s st) = next (Reach-trans r s) st

  one : {c d : DnsCache H} → Step H c d → Reach H c d
  one st = next stay st

  either_way :
      {c : DnsCache H} (b : Bool) (x y : Handled N D (DnsCache H))
      → Reach H c x.cache
      → Reach H c y.cache
      → Reach H c (if b then x else y).cache
  either_way true x y p q = p
  either_way false x y p q = q

  on_answer-Reach :
      (ctx : DnsContext) (query : Query N) (res : DnsResponse N D) (clock : Clock) (c : DnsCache H)
      → Reach H c (on_answer H soa_minimum ctx query res clock c).cache
  unfolding on_answer
  on_answer-Reach ctx query res clock c =
      either_way (not ctx.no_cache && (ctx.cache_negative && is_negative_response res query)) _ _
        (one (inserts_negative query res _ _ clock))
        (either_way (not (has_type query.query_type res.answers)) _ _ stay
          (either_way (not ctx.no_cache) _ _ (one (inserts query _ clock _)) stay))

  fall_back-Reach :
      (err : DnsError N D) (old : Option (DnsResponse N D)) (c : DnsCache H)
      → Reach H c (fall_back H soa_minimum err old c).cache
  fall_back-Reach err none c = stay
  fall_back-Reach err (some res) c = stay

  on_negative_error-Reach :
      (ctx : DnsContext) (query : Query N) (err : DnsError N D) (old : Option (DnsResponse N D))
      (clock : Clock) (c : DnsCache H) (negative : Option (DnsResponse N D))
      → Reach H c (on_negative_error H soa_minimum ctx query err old clock c negative).cache
  on_negative_error-Reach ctx query err old clock c none = fall_back-Reach err old c
  on_negative_error-Reach ctx query err old clock c (some res) =
      either_way (not ctx.no_cache && ctx.cache_negative) _ _
        (one (inserts_negative query res _ _ clock)) (fall_back-Reach err old c)

  on_ran-Reach :
      (query : Query N) (old : Option (DnsResponse N D)) (clock : Clock)
      (ran : Ran N D (DnsCache H)) (outcome : DnsError N D ⊎ DnsResponse N D)
      → Reach H ran.cache (on_ran H soa_minimum query old clock ran outcome).cache
  unfolding on_error
  on_ran-Reach query old clock ran (inr res) = on_answer-Reach ran.ctx query res clock ran.cache
  on_ran-Reach query old clock ran (inl err) =
      on_negative_error-Reach ran.ctx query err old clock ran.cache
        (negative_response_from_error err query clock.now)

  respond-Reach :
      (ctx : DnsContext) (query : Query N) (run : DnsContext → DnsCache H → Ran N D (DnsCache H))
      (clock : Clock) (h : Hit N D) (c : DnsCache H)
      → Reach H c (run ctx c).cache
      → Reach H c (respond H soa_minimum ctx query run clock h c).cache
  respond-Reach ctx query run clock (served res asked) c runs = one counts_hit
  respond-Reach ctx query run clock (kept old) c runs =
      Reach-trans runs (on_ran-Reach query old clock (run ctx c) (run ctx c).outcome)

  -- Where what runs between the lookup and the insertion takes the cache through operations
  -- only, so does the handler.
  handle-Reach :
      (ctx : DnsContext) (query : Query N) (is_dnssec : Bool)
      (run : DnsContext → DnsCache H → Ran N D (DnsCache H)) (clock later : Clock) (c : DnsCache H)
      → ((ctx' : DnsContext) (d : DnsCache H) → Reach H d (run ctx' d).cache)
      → Reach H c (handle H soa_minimum ctx query is_dnssec run clock later c).cache
  unfolding handle
  handle-Reach ctx query is_dnssec run clock later c runs =
      let (found, c') = get H query clock c in
      either_way (ctx.server_no_cache || (ctx.no_cache || is_dnssec)) _ _ (runs ctx c) (
        either_way ctx.is_background _ _
          (Reach-trans (runs ctx c) (on_ran-Reach query none later (run ctx c) (run ctx c).outcome))
          (Reach-trans (one (looks_up query clock))
            (respond-Reach ctx query run later (hit_of ctx query found) c' (runs ctx c'))))
