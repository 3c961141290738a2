-- ===== src/Server/DnsCache/Negative.antt =====
-- Negative answers and failures in `handle` of src/dns_mw_cache.rs.
use smartdns_rs.Prelude.{
  All, Bool, List, Option, String, [], ap, arith, false, if_false, if_true, if◌then◌else◌, inl, inr,
  leb, length, none, refl, some, true, ℕ, ◌+◌, ◌-◌, ◌<◌, ◌=s=◌, ◌||◌, ◌∙◌, ◌∷◌, ◌≡◌, ◌≤◌,
}
use smartdns_rs.Server.Dns.{
  DnsResponse, Query, Record, as_secs, as_u32, from_secs, set_max_ttl, set_max_ttl-All,
  with_name_server_group, mark_from_cache,
}
use smartdns_rs.Server.DnsCache.Entry.{Clock}
use smartdns_rs.Server.DnsCache.Host.{Host}
use smartdns_rs.Server.DnsCache.Store.{DnsCache, valid}
use smartdns_rs.Server.DnsCache.Access.{get, insert_negative, rename}
use smartdns_rs.Server.DnsCache.Lookup.{get-store}
use smartdns_rs.Server.DnsCache.Policy.{
  DnsContext, is_negative_response, negative_ttl, first_minimum, minimum_or, same_group,
}
use smartdns_rs.Server.DnsCache.Handle.{
  Hit, Ran, handle, hit_of, on_answer, respond, served, wants_prefetch,
}

if_keeps :
    {A B : Type 0} (f : A → B) (b : Bool) (x y : A) → f x ≡ f y → f (if b then x else y) ≡ f y
if_keeps f true x y h = h
if_keeps f false x y h = refl

minimum_or-le : (o : Option ℕ) (rest : ℕ) → 60 ≤ rest → 60 ≤ minimum_or o rest
minimum_or-le (some n) rest h = omega arith
minimum_or-le none rest h = h

module _ {N D : Type 0} where
  All-le :
      (m n : ℕ) (rs : List (Record N D))
      → m ≤ n
      → All (λ (r : Record N D). r.ttl ≤ m) rs
      → All (λ (r : Record N D). r.ttl ≤ n) rs
  All-le m n [] h all = tt
  All-le m n (r ∷ rs) h (here, there) = (omega (arith, here, h), All-le m n rs h there)

module _ {N D : Type 0} (soa_minimum : D → Option ℕ) where
  first_minimum-le : (rs : List (Record N D)) → 60 ≤ first_minimum soa_minimum rs
  first_minimum-le [] = omega arith
  first_minimum-le (r ∷ rs) =
      minimum_or-le (soa_minimum r.rdata) (first_minimum soa_minimum rs) (first_minimum-le rs)

  -- A negative answer is kept a minute at least and an hour at most.
  negative_ttl-le :
      (res : DnsResponse N D)
      → (from_secs 60 ≤ negative_ttl soa_minimum res)
        × (negative_ttl soa_minimum res ≤ from_secs 3600)
  unfolding negative_ttl
  negative_ttl-le res =
      let least = first_minimum-le res.authorities in (omega (arith, least), omega arith)

module _ {N D : Type 0} (H : Host N D) (soa_minimum : D → Option ℕ) where
  -- A request that does not go around the cache.
  abbrev pub UsesCache : DnsContext → Type 0
  UsesCache ctx =
      (ctx.server_no_cache ≡ false) × ((ctx.no_cache ≡ false) × (ctx.is_background ≡ false))

  handle_cached :
      (ctx : DnsContext) (query : Query N) (run : DnsContext → DnsCache H → Ran N D (DnsCache H))
      (clock later : Clock) (c : DnsCache H) {h : Hit N D}
      → UsesCache ctx
      → hit_of ctx query (get H query clock c).0 ≡ h
      → handle H soa_minimum ctx query false run clock later c
        ≡ respond H soa_minimum ctx query run later h (get H query clock c).1
  unfolding handle
  handle_cached ctx query run clock later c {h} (server, (here, foreground)) same_hit =
      let asked : (ctx.server_no_cache || (ctx.no_cache || false)) ≡ false = cc (server, here) in
      if_false _ asked _ _
      ∙ if_false _ foreground _ _
      ∙ ap (λ h. respond H soa_minimum ctx query run later h (get H query clock c).1) same_hit

  on_answer_negative :
      (ctx : DnsContext) (query : Query N) (res : DnsResponse N D) (clock : Clock) (c : DnsCache H)
      → ctx.no_cache ≡ false
      → ctx.cache_negative ≡ true
      → is_negative_response res query ≡ true
      → (on_answer H soa_minimum ctx query res clock c).cache
        ≡ insert_negative H query res (negative_ttl soa_minimum res) ctx.server_group_name clock c
  unfolding on_answer
  on_answer_negative ctx query res clock c cached allowed negative =
      rw (cached, allowed, negative) refl

  get-insert_negative :
      (query : Query N) (res : DnsResponse N D) (ttl : ℕ) (group : String) (clock later : Clock)
      (c : DnsCache H)
      → 0 < length c.shards
      → c.max_bytes ≡ 0
      → later.now ≤ clock.now + ttl
      → (get H query later (insert_negative H query res ttl group clock c)).0
        ≡ some (
          set_max_ttl (as_u32 (as_secs (clock.now + ttl - later.now))) (
              rename H query
                (set_max_ttl (as_u32 (as_secs ttl)) (with_name_server_group group res))),
          valid,
        )
  unfolding insert_negative
  get-insert_negative query res ttl group clock later c some_shard unlimited within =
      let current : leb later.now (clock.now + ttl) ≡ true = ground arith in
      get-store H query _ (clock.now + ttl) clock later c some_shard (inl unlimited)
      ∙ ap some (if_true _ current _ _)

  -- The name is all that a rename changes.
  rename_kept :
      (query : Query N) (res : DnsResponse N D)
      → ((rename H query res).response_code ≡ res.response_code)
        × ((rename H query res).name_server_group ≡ res.name_server_group)
        × ((rename H query res).authorities ≡ res.authorities)
  unfolding rename
  rename_kept query res = (
    if_keeps (λ (r : DnsResponse N D). r.response_code) _ _ _ refl,
    if_keeps (λ (r : DnsResponse N D). r.name_server_group) _ _ _ refl,
    if_keeps (λ (r : DnsResponse N D). r.authorities) _ _ _ refl,
  )

  set_max_ttl_kept :
      (limit : ℕ) (res : DnsResponse N D)
      → ((set_max_ttl limit res).response_code ≡ res.response_code)
        × ((set_max_ttl limit res).name_server_group ≡ res.name_server_group)
        × ((set_max_ttl limit res).authorities ≡ res.authorities)
  unfolding set_max_ttl
  set_max_ttl_kept limit res = (refl, refl, refl)

  -- A hit of the same group that is still valid is served.
  served_valid :
      (ctx : DnsContext) (query : Query N) (res : DnsResponse N D)
      → same_group res.name_server_group ctx.server_group_name ≡ true
      → hit_of ctx query (some (res, valid))
        ≡ served (mark_from_cache res) (wants_prefetch ctx query res)
  unfolding hit_of
  served_valid ctx query res same = if_true _ same _ _

  -- Where there is a shard, no limit on the bytes is set and negative answers are cached, a
  -- negative answer that was stored for a group answers the query for that group again without the
  -- upstreams, from the same instant on for a minute at least, for a request that uses the cache:
  -- with its response code, with its authorities unchanged, and with no TTL above an hour among its
  -- answers.
  pub handle-on_answer :
      (ctx later_ctx : DnsContext) (query : Query N) (res : DnsResponse N D)
      (run : DnsContext → DnsCache H → Ran N D (DnsCache H)) (clock later latest : Clock)
      (c : DnsCache H)
      → ctx.no_cache ≡ false
      → ctx.cache_negative ≡ true
      → is_negative_response res query ≡ true
      → UsesCache later_ctx
      → (ctx.server_group_name =s= later_ctx.server_group_name) ≡ true
      → 0 < length c.shards
      → c.max_bytes ≡ 0
      → clock.now ≤ later.now
      → later.now ≤ clock.now + from_secs 60
      → let r =
          handle H soa_minimum later_ctx query false run later latest
            (on_answer H soa_minimum ctx query res clock c).cache in
        (r.from_cache ≡ true)
        × ((again : DnsResponse N D) × ((r.outcome ≡ inr again)
              × ((again.response_code ≡ res.response_code)
                  × ((again.authorities ≡ res.authorities)
                      × All (λ (t : Record N D). t.ttl ≤ 3600) again.answers))))
  handle-on_answer ctx later_ctx query res run clock later latest c cached allowed negative uses
        same some_shard unlimited after within =
      let ttl = negative_ttl soa_minimum res in
      let (least, most) = negative_ttl-le soa_minimum res in
      let stored =
        set_max_ttl (as_u32 (as_secs ttl)) (with_name_server_group ctx.server_group_name res) in
      let limit = as_u32 (as_secs (clock.now + ttl - later.now)) in
      let again = set_max_ttl limit (rename H query stored) in
      let c' = (on_answer H soa_minimum ctx query res clock c).cache in
      let found : (get H query later c').0 ≡ some (again, valid) =
        ap (λ d. (get H query later d).0)
          (on_answer_negative ctx query res clock c cached allowed negative)
        ∙ get-insert_negative query res ttl ctx.server_group_name clock later c some_shard unlimited
            (omega (arith, within, least)) in
      let group : same_group again.name_server_group later_ctx.server_group_name ≡ true =
        ap (λ g. same_group g later_ctx.server_group_name)
          ((set_max_ttl_kept limit (rename H query stored)).1
            ∙ (rename_kept query stored).1
            ∙ (set_max_ttl_kept (as_u32 (as_secs ttl))
                (with_name_server_group ctx.server_group_name res)).1)
        ∙ same in
      let code : again.response_code ≡ res.response_code =
        (set_max_ttl_kept limit (rename H query stored)).0
        ∙ (rename_kept query stored).0
        ∙ (set_max_ttl_kept (as_u32 (as_secs ttl))
            (with_name_server_group ctx.server_group_name res)).0 in
      let soa : again.authorities ≡ res.authorities =
        (set_max_ttl_kept limit (rename H query stored)).2
        ∙ (rename_kept query stored).2
        ∙ (set_max_ttl_kept (as_u32 (as_secs ttl))
            (with_name_server_group ctx.server_group_name res)).2 in
      let served_it =
        handle_cached later_ctx query run later latest c' uses
          (ap (hit_of later_ctx query) found ∙ served_valid later_ctx query again group) in
      (
        ap (λ r. r.from_cache) served_it,
        (
          mark_from_cache again,
          (
            ap (λ r. r.outcome) served_it,
            (
              code,
              (
                soa,
                All-le limit 3600 again.answers (omega (arith, most, after))
                    (set_max_ttl-All limit (rename H query stored)),
              ),
            ),
          ),
        ),
      )
