-- ===== src/Server/Caches.antt =====
-- src/api/cache.rs: the listing and the flush of the cache, over the records that
-- `cached_records` returns; src/api/mod.rs: the payload of a listing.
pub mod Paging
use smartdns_rs.Prelude.{
  List, Option, [], drop, if◌then◌else◌, length, ltb, min, none, some, take, ℕ, ◌%◌, ◌+◌, ◌-◌, ◌^◌,
  ◌||◌,
}
use smartdns_rs.Server.QueryLog.{unwrap_or}

pub record DataListPayload {ℓ} (A : Type ℓ) : Type ℓ where
  pub count : ℕ
  pub total : ℕ
  pub items : List A

-- `DataListPayload::new`, and the conversion from a vector.
unfoldable pub payload {ℓ} : {A : Type ℓ} → List A → DataListPayload A
payload items = record { count = length items; total = length items; items = items }

-- A handler that panics sends no response.
pub data Outcome {ℓ} (A : Type ℓ) : Type ℓ where
  sent : A → Outcome A
  panicked : Outcome A

pub record CacheListParams : Type 0 where
  pub offset : Option ℕ
  pub limit : Option ℕ

-- `usize` is 64 bits wide, and the release build wraps around.
abbrev pub usize_mod : ℕ
usize_mod = 2 ^ 64

-- `caches.drain(start..stop).collect()`: the range must not be decreasing, nor end past
-- the vector.
abbrev pub drain {ℓ} : {A : Type ℓ} → ℕ → ℕ → List A → Outcome (List A)
drain start stop xs =
    if ltb stop start || ltb (length xs) stop
    then panicked
    else sent (take (stop - start) (drop start xs))

abbrev pub list_page {ℓ} : {A : Type ℓ} → ℕ → Outcome (List A) → Outcome (DataListPayload A)
list_page total panicked = panicked
list_page total (sent page) = sent (record { count = length page; total = total; items = page })

-- The handler `caches`.
unfoldable pub caches {ℓ} : {A : Type ℓ} → List A → CacheListParams → Outcome (DataListPayload A)
caches records params =
    let total = length records in
    let offset = unwrap_or params.offset 0 in
    let limit = unwrap_or params.limit 50 in
    let stop = min ((offset + limit) % usize_mod) total in
    list_page total (if ltb offset total then drain offset stop records else sent [])

-- The handler `flush`: the records that are left, and the status. Without a cache nothing happens.
unfoldable pub flush {ℓ} : {A : Type ℓ} → Option (List A) → Option (List A) × ℕ
flush none = (none, 204)
flush (some records) = (some [], 204)
