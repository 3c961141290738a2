-- ===== src/Web/Cache/Paging.antt =====
-- The cache tab against the listing that the server sends it.
use smartdns_rs.Prelude.{
  List, [], arith, drop, drop_of_length-le, false, length, some, suc, sym, take-append-drop_next,
  zero, ℕ, ◌*◌, ◌++◌, ◌+◌, ◌-◌, ◌<◌, ◌^◌, ◌≡◌, ◌≤◌,
}
use smartdns_rs.Server.Caches.{
  DataListPayload, Outcome, sent, panicked, CacheListParams, usize_mod, caches,
}
use smartdns_rs.Server.Caches.Paging.{caches-window_payload}
use smartdns_rs.Web.Api.{CacheEntry, CachesResponse}
use smartdns_rs.Web.Cache.{CacheTab, set_page, rows_per_page, offset, update}
use smartdns_rs.Web.Cache.View.{page_count}
use smartdns_rs.Web.Runtime.{Query}

-- The parameters in the URL of the tab's query.
abbrev pub tab_params : CacheTab → CacheListParams
tab_params s = record { offset = some (offset s); limit = some rows_per_page }

module _ {A : Type 0} where
  abbrev pub items_of : Outcome (DataListPayload A) → List A
  items_of panicked = []
  items_of (sent p) = p.items

  -- The rows that the server sends as the user goes through `k` pages from page `first` on.
  abbrev pub browse : ℕ → ℕ → CacheTab → List A → List A
  browse zero first s records = []
  browse (suc k) first s records =
      let s' = (update s (set_page first)).0 in
      items_of (caches records (tab_params s')) ++ browse k (first + 1) s' records

  browse-drop :
      (k first : ℕ) (s : CacheTab) (records : List A)
      → 1 ≤ first
      → length records + 50 < usize_mod
      → (first + k) * 50 < usize_mod
      → length records ≤ (first - 1 + k) * 50
      → browse k first s records ≡ drop ((first - 1) * 50) records
  unfolding update
  browse-drop zero first s records h small far enough =
      sym (drop_of_length-le _ records (omega arith))
  browse-drop (suc k) first s records h small far enough =
      let s' = (update s (set_page first)).0 in
      let next : (first + 1 - 1) * 50 ≡ (first - 1) * 50 + 50 = omega arith in
      rw
        (
          caches-window_payload records (tab_params s') (omega arith),
          browse-drop k (first + 1) s' records (omega arith) small (omega arith) (omega arith),
          next,
        )
        (take-append-drop_next 50 ((first - 1) * 50) records)

  -- Going through the pages that the pagination control of the cache tab offers, from the first to
  -- the last, the server sends every cached record exactly once and in its order; the records
  -- number less than 2 ^ 53 - 200, so that the numbers of the tab are exact.
  pub browse-page_count :
      (s : CacheTab) (records : List A)
      → length records + 200 < 2 ^ 53
      → browse (page_count (length records)) 1 s records ≡ records
  browse-page_count s records small =
      browse-drop (page_count (length records)) 1 s records (omega arith) (omega arith)
        (omega arith) (omega arith)

-- What the query holds once the server's payload has arrived.
abbrev pub loaded : DataListPayload CacheEntry → Query CachesResponse
loaded p = record {
  value = some (record { count = p.count; total = p.total; items = p.items });
  is_loading = false;
  error = false;
}
