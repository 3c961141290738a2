-- ===== src/Server/Caches/Paging.antt =====
-- Paging through the cache listing.
use smartdns_rs.Prelude.{
  Bool-cases, List, [], ap, arith, drop, drop_of_length-le, false, inl, inr, length, length-drop,
  le→ltb, ltb, ltb→lt, lt→ltb, min, refl, take, take-min-length, take_nil, ℕ, ◌%◌, ◌+◌, ◌-◌, ◌<◌,
  ◌≡◌, ◌≤◌,
}
use smartdns_rs.Server.Caches.{
  DataListPayload, sent, panicked, CacheListParams, usize_mod, caches, drain,
}
use smartdns_rs.Server.QueryLog.{unwrap_or}

-- The listing of the records from `offset` on, `limit` of them.
abbrev pub window_payload {ℓ} : {A : Type ℓ} → List A → ℕ → ℕ → DataListPayload A
window_payload records offset limit =
    let page = take limit (drop offset records) in
    record { count = length page; total = length records; items = page }

drain_branch {ℓ} :
    {A : Type ℓ} (offset limit stop total : ℕ) (records : List A)
    → stop ≡ min (offset + limit) total
    → total ≡ length records
    → offset < total
    → drain offset stop records ≡ sent (take limit (drop offset records))
drain_branch offset limit stop total records hs ht ho =
    let later : ltb stop offset ≡ false = ground (arith, le→ltb stop offset) in
    let inside : ltb (length records) stop ≡ false = ground (arith, le→ltb (length records) stop) in
    let width : stop - offset ≡ min limit (total - offset) = omega arith in
    rw (later, inside, width)
      (ap sent (
        take-min-length limit (total - offset) (drop offset records)
          (omega (arith, length-drop offset records))))

-- Without overflow the listing is the window of the records that starts at `offset` and is at most
-- `limit` long, with its length and the number of all records.
pub caches-window_payload {ℓ} :
    {A : Type ℓ} (records : List A) (params : CacheListParams)
    → unwrap_or params.offset 0 + unwrap_or params.limit 50 < usize_mod
    → caches records params
      ≡ sent (window_payload records (unwrap_or params.offset 0) (unwrap_or params.limit 50))
unfolding caches
caches-window_payload records params h =
    let offset = unwrap_or params.offset 0 in
    let limit = unwrap_or params.limit 50 in
    let total = length records in
    let stop = min ((offset + limit) % usize_mod) total in
    elim (Bool-cases (ltb offset total)) [
      | inl inside ↦ rw (
        inside,
        drain_branch offset limit stop total records (omega arith) refl (ltb→lt _ _ inside),
      )
      | inr past ↦
          let e : drop offset records ≡ [] = drop_of_length-le offset records (ground arith) in
          rw (past, e, take_nil limit)
    ]

-- Where offset + limit overflows 64 bits and the offset is within the records, the handler of the
-- cache listing panics.
pub caches-panicked {ℓ} :
    {A : Type ℓ} (records : List A) (params : CacheListParams)
    → unwrap_or params.limit 50 < usize_mod
    → usize_mod ≤ unwrap_or params.offset 0 + unwrap_or params.limit 50
    → unwrap_or params.offset 0 < length records
    → length records < usize_mod
    → caches records params ≡ panicked
unfolding caches
caches-panicked records params hl hw ho hr =
    let offset = unwrap_or params.offset 0 in
    let limit = unwrap_or params.limit 50 in
    let total = length records in
    let stop = min ((offset + limit) % usize_mod) total in
    let before : stop < offset = omega arith in
    rw (lt→ltb offset total ho, lt→ltb stop offset before)
