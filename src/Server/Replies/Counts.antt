-- ===== src/Server/Replies/Counts.antt =====
-- How the steps of `AddressMiddleware::handle` (src/dns_mw_addr.rs) change records and responses.
use smartdns_rs.Prelude.{
  All, Bool, Bool-cases, List, Option, [], ap, arith, false, if◌then◌else◌, inl, inr, length, ltb,
  lt→ltb, map, none, refl, some, subst, suc, take, take_of_length-le, true, ℕ, ◌+◌, ◌-◌, ◌==◌, ◌∙◌,
  ◌∷◌, ◌≡◌, ◌≤◌, ◌⊎◌,
}
use Prim.Native.String.{String}
use smartdns_rs.Server.QueryLog.{unwrap_or}
use smartdns_rs.Server.Dns.{
  DnsResponse, Record, clip_max, clip_min, is_ip_addr, mark_from_cache, new_with_deadline, no_error,
}
use smartdns_rs.Server.DnsCache.Policy.{clamp_ttl_bounds}
use smartdns_rs.Server.Replies.Reply.{
  clip_reply, cut_at, cut_records, or_lookup, rebuild, with_group,
}

module _ {N D : Type 0} where
  -- The records with an address.
  unfoldable pub count_ips : List (Record N D) → ℕ
  count_ips [] = 0
  count_ips (r ∷ rs) = (if is_ip_addr r.record_type then 1 else 0) + count_ips rs

  abbrev IsLimited : ℕ → ℕ → List (Record N D) → Type 0
  IsLimited n i rs =
      ((cut_at n i rs ≡ none) × (count_ips rs + 1 ≤ n))
      ⊎ ((k : ℕ) × (cut_at n i rs ≡ some (i + suc k))
          × (suc k ≤ length rs)
          × (count_ips (take (suc k) rs) ≤ n))

  cut_at-IsLimited : (n i : ℕ) (rs : List (Record N D)) → 1 ≤ n → IsLimited n i rs
  unfolding cut_at count_ips
  cut_at-IsLimited n i [] some_left = inl (refl, omega arith)
  cut_at-IsLimited n i (r ∷ rs) some_left = elim (Bool-cases (is_ip_addr r.record_type)) [
    | inr other ↦ elim (cut_at-IsLimited n (i + 1) rs some_left) [
      | inl (passed, few) ↦ inl (rw (other, passed) refl, rw other (omega arith))
      | inr (k, found, short, few) ↦
          inr
            (suc k, rw (other, found) (ap some (omega arith)), omega arith, rw other (omega arith))
    ]
    | inl ip ↦ elim (Bool-cases (n - 1 == 0)) [
      | inl last ↦
          inr (
            0,
            rw (ip, last) (ap some (omega arith)),
            omega arith,
            rw ip (ground (arith, some_left)),
          )
      | inr more ↦ elim (cut_at-IsLimited (n - 1) (i + 1) rs (ground (arith, some_left, more))) [
        | inl (passed, few) ↦ inl (rw (ip, more, passed) refl, rw ip (omega arith))
        | inr (k, found, short, few) ↦
            inr (
              suc k,
              rw (ip, more, found) (ap some (omega arith)),
              omega arith,
              rw ip (omega arith),
            )
      ]
    ]
  ]

  -- What is kept, cut or not, has no more addresses than allowed.
  pub kept-le :
      (n query_type : ℕ) (rs : List (Record N D))
      → 1 ≤ n
      → is_ip_addr query_type ≡ true
      → count_ips (unwrap_or (cut_records (some n) query_type rs) rs) ≤ n
  unfolding cut_records
  kept-le n query_type rs some_left ip =
      let on = lt→ltb 0 n some_left in
      rw (ip, on)
        (elim (cut_at-IsLimited n 0 rs some_left) [
          | inl (passed, few) ↦ rw passed (omega (arith, few))
          | inr (k, found, short, few) ↦ rw found (elim (Bool-cases (ltb (0 + suc k) (length rs))) [
            | inl longer ↦
                rw longer (subst (λ j. count_ips (take j rs) ≤ n) (zero_plus (suc k)) few)
            | inr whole ↦ rw whole (
                subst (λ l. count_ips l ≤ n) (take_of_length-le (suc k) rs (ground (arith, whole)))
                  few)
          ])
        ])
    where
      zero_plus : (j : ℕ) → j ≡ 0 + j
      zero_plus j = omega arith

  count_ips-map :
      (f : Record N D → Record N D) (rs : List (Record N D))
      → ((r : Record N D) → (f r).record_type ≡ r.record_type)
      → count_ips (map f rs) ≡ count_ips rs
  unfolding count_ips
  count_ips-map f [] same = refl
  count_ips-map f (r ∷ rs) same = rw (same r, count_ips-map f rs same) refl

  clip_max-type : (n : ℕ) (r : Record N D) → (clip_max n r).record_type ≡ r.record_type
  clip_max-type n r = ground arith

  clip_min-type : (n : ℕ) (r : Record N D) → (clip_min n r).record_type ≡ r.record_type
  clip_min-type n r = ground arith

  pub count_ips-clamp :
      (least most : Option ℕ) (rs : List (Record N D))
      → count_ips (clamp_ttl_bounds least most rs) ≡ count_ips rs
  unfolding clamp_ttl_bounds
  count_ips-clamp none none rs = count_ips-map _ rs (λ r. refl)
  count_ips-clamp none (some m) rs = count_ips-map _ rs (clip_max-type m)
  count_ips-clamp (some n) none rs = count_ips-map _ rs (clip_min-type n)
  count_ips-clamp (some n) (some m) rs =
      count_ips-map _ rs (λ r. clip_max-type m (clip_min n r) ∙ clip_min-type n r)

  pub count_ips-clip_reply :
      (most : Option ℕ) (rs : List (Record N D)) → count_ips (clip_reply most rs) ≡ count_ips rs
  count_ips-clip_reply none rs = refl
  count_ips-clip_reply (some m) rs = count_ips-map (clip_max m) rs (clip_max-type m)

  pub clip_reply-All :
      (m : ℕ) (rs : List (Record N D))
      → All (λ (r : Record N D). r.ttl ≤ m) (clip_reply (some m) rs)
  clip_reply-All m [] = tt
  clip_reply-All m (r ∷ rs) = (ground arith, clip_reply-All m rs)

  -- The fields of a response that is made again.
  pub rebuild-fields :
      (lookup : DnsResponse N D) (records : List (Record N D))
      → let res = rebuild lookup records in
        (res.answers ≡ records)
        × (res.response_code ≡ no_error)
        × (res.authorities ≡ [])
        × (res.query ≡ lookup.query)
        × (res.valid_until ≡ lookup.valid_until)
        × (res.from_cache ≡ lookup.from_cache)
        × (res.name_server_group ≡ lookup.name_server_group)
  unfolding rebuild new_with_deadline
  rebuild-fields lookup records = fields lookup.from_cache lookup.name_server_group
    where
      fields :
          (cached : Bool) (group : Option String)
          → let made = new_with_deadline lookup.query records lookup.valid_until in
            let res = with_group group (if cached then mark_from_cache made else made) in
            (res.answers ≡ records)
            × (res.response_code ≡ no_error)
            × (res.authorities ≡ [])
            × (res.query ≡ lookup.query)
            × (res.valid_until ≡ lookup.valid_until)
            × (res.from_cache ≡ cached)
            × (res.name_server_group ≡ group)
      fields true none = (refl, refl, refl, refl, refl, refl, refl)
      fields false none = (refl, refl, refl, refl, refl, refl, refl)
      fields true (some g) = (refl, refl, refl, refl, refl, refl, refl)
      fields false (some g) = (refl, refl, refl, refl, refl, refl, refl)

  pub or_lookup-answers :
      (lookup : DnsResponse N D) (o : Option (List (Record N D)))
      → (or_lookup lookup o).answers ≡ unwrap_or o lookup.answers
  or_lookup-answers lookup none = refl
  or_lookup-answers lookup (some records) = (rebuild-fields lookup records).0
