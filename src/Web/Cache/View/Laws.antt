-- ===== src/Web/Cache/View/Laws.antt =====
-- The controls of the cache tab, and what its table lists.
use smartdns_rs.Prelude.{Bool, List, [], arith, flat_map, if◌then◌else◌, ltb, refl, ◌++◌, ◌∷◌, ◌≡◌}
use smartdns_rs.Web.Api.{CacheEntry, CachesResponse, CacheConfigResponse}
use smartdns_rs.Web.Cache.{
  CacheMsg, CacheTab, set_page, handle_flush, close_snackbar, rows_per_page, filtered_caches,
}
use smartdns_rs.Web.Cache.View.{
  size_card, count_card, flush_card, search_field, pagination, cache_row, entry_table,
  entries_section, view, page_count, total_of,
}
use smartdns_rs.Web.Runtime.{Runtime, Query}
use smartdns_rs.Web.View.{num, on_select, presses, tagged}

module _ (js : Runtime) where
  presses-entry_table :
      (entries : List CacheEntry) → presses (entry_table {M = CacheMsg} js entries) ≡ []
  unfolding entry_table cache_row flat_map
  presses-entry_table [] = refl
  presses-entry_table (e ∷ es) = presses-entry_table es

  tagged-entry_table :
      (entries : List CacheEntry) → tagged "Pagination" (entry_table {M = CacheMsg} js entries) ≡ []
  unfolding entry_table cache_row
  tagged-entry_table [] = refl
  tagged-entry_table (e ∷ es) = tagged-entry_table es

  presses-entries_section :
      (s : CacheTab) (q : Query CachesResponse) → presses (entries_section js s q) ≡ []
  unfolding entries_section
  presses-entries_section s q =
      ground (arith, presses-entry_table (filtered_caches js.case_map s.search q.value))

  tagged-entries_section :
      (s : CacheTab) (q : Query CachesResponse) → tagged "Pagination" (entries_section js s q) ≡ []
  unfolding entries_section
  tagged-entries_section s q =
      ground (arith, tagged-entry_table (filtered_caches js.case_map s.search q.value))

  -- The tab has a pagination control just where the total exceeds 50: it offers that many pages of
  -- 50 as there are, shows the current page, and sends the page chosen.
  pub tagged-view :
      (s : CacheTab) (q : Query CachesResponse) (config : Query CacheConfigResponse)
      (pending : Bool)
      → tagged "Pagination" (view js s q config pending) ≡ (
          if ltb rows_per_page (total_of q.value)
          then (num "count" (page_count (total_of q.value))
              ∷ num "page" s.page
              ∷ on_select set_page
              ∷ [])
            ∷ []
          else [])
  unfolding view size_card count_card flush_card search_field pagination
  tagged-view s q config pending = rw (tagged-entries_section s q) (ground arith)

  -- The one button of the tab is the one that flushes the cache, disabled while a flush is pending,
  -- besides the close button of a message that is shown.
  pub presses-view :
      (s : CacheTab) (q : Query CachesResponse) (config : Query CacheConfigResponse)
      (pending : Bool)
      → presses (view js s q config pending)
        ≡ (if pending then [] else handle_flush ∷ [])
          ++ (if s.snackbar.opened then close_snackbar ∷ [] else [])
  unfolding view size_card count_card flush_card search_field pagination
  presses-view s q config pending = rw (presses-entries_section s q) (ground arith)
