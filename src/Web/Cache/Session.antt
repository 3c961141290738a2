-- ===== src/Web/Cache/Session.antt =====
-- Runs of the cache tab: the pages that it can reach, and a page that it cannot leave.
use smartdns_rs.Prelude.{
  List, [], arith, drop, drop_of_length-le, false, if◌then◌else◌, inl, inr, length, le→ltb, ltb,
  refl, ℕ, ◌+◌, ◌<◌, ◌^◌, ◌∷◌, ◌≡◌, ◌≤◌, ◌⊎◌,
}
use Prim.Native.String.{String}
use smartdns_rs.Server.Caches.{DataListPayload, sent, usize_mod, caches}
use smartdns_rs.Server.Caches.Paging.{caches-window_payload, window_payload}
use smartdns_rs.Web.Api.{CacheEntry, CacheConfigResponse}
use smartdns_rs.Web.Cache.{
  CacheTab, CacheMsg, set_search, set_page, handle_flush, flush_success, flush_error,
  close_snackbar, init, rows_per_page, offset, update, filtered_caches,
}
use smartdns_rs.Web.Cache.View.{view, page_count, entries_section, no_entries}
use smartdns_rs.Web.Cache.View.Laws.{tagged-view, presses-view}
use smartdns_rs.Web.Cache.Paging.{tab_params, loaded}
use smartdns_rs.Web.Runtime.{Runtime, Query}
use smartdns_rs.Web.View.{presses, tagged}

-- What the user and the data layer can do where no total above `n` is ever shown. The pagination
-- control stands there only for a total of more than one page, and offers its pages alone.
pub data Step (n : ℕ) : CacheTab → CacheMsg → Type 0 where
  search : {s : CacheTab} (text : String) → Step n s (set_search text)
  select :
      {s : CacheTab} (total page : ℕ)
      → total ≤ n
      → rows_per_page < total
      → 1 ≤ page
      → page ≤ page_count total
      → Step n s (set_page page)
  press_flush : {s : CacheTab} → Step n s handle_flush
  flushed : {s : CacheTab} → Step n s flush_success
  not_flushed : {s : CacheTab} → Step n s flush_error
  closed : {s : CacheTab} → Step n s close_snackbar

pub data Reach (n : ℕ) : CacheTab → Type 0 where
  here : Reach n init
  next : {s : CacheTab} {m : CacheMsg} → Reach n s → Step n s m → Reach n (update s m).0

-- The page exists, and is the first one or begins within the records.
pub record InRange (n : ℕ) (s : CacheTab) : Type 0 where
  pub positive : 1 ≤ s.page
  pub within : (s.page ≡ 1) ⊎ (offset s < n)

Step-InRange :
    {n : ℕ} {s : CacheTab} {m : CacheMsg} → Step n s m → InRange n s → InRange n (update s m).0
unfolding update
Step-InRange (search text) h = record { positive = h.positive; within = h.within }
Step-InRange (select total page le more lo hi) h = record {
  positive = lo;
  within = inr (omega arith);
}
Step-InRange press_flush h = record { positive = h.positive; within = h.within }
Step-InRange flushed h = record { positive = omega arith; within = inl refl }
Step-InRange not_flushed h = record { positive = h.positive; within = h.within }
Step-InRange closed h = record { positive = h.positive; within = h.within }

-- In every state that the tab can reach, its page is at least 1 and is the first or begins below
-- the greatest total that was shown.
pub Reach-InRange : {n : ℕ} {s : CacheTab} → Reach n s → InRange n s
Reach-InRange here = record { positive = omega arith; within = inl refl }
Reach-InRange (next r st) = Step-InRange st (Reach-InRange r)

-- In every state that the cache tab reaches while no total above n is shown, where n + 50 is below
-- 2 ^ 53, the server answers the listing that the tab asks for without a panic, by the window of at
-- most 50 records that begins at the offset of the tab, whatever records it holds by then.
pub Reach-caches :
    {n : ℕ} {s : CacheTab} {A : Type 0}
    → Reach n s
    → (records : List A) → n + 50 < 2 ^ 53
    → caches records (tab_params s) ≡ sent (window_payload records (offset s) 50)
Reach-caches {n} {s} r records small =
    let h = Reach-InRange r in caches-window_payload records (tab_params s) (bound h.within)
  where
    bound : (s.page ≡ 1) ⊎ (offset s < n) → offset s + 50 < usize_mod
    bound w = omega arith

-- On a later page of the cache tab, once at most 50 records are left in the cache, the server sends
-- an empty page, the tab says that there are no entries, no pagination control is shown, and the
-- only buttons are the one that flushes the cache and, while a message is shown, the one that
-- closes it.
pub later_page_stuck :
    (js : Runtime) (s : CacheTab) (records : List CacheEntry) (config : Query CacheConfigResponse)
    → 2 ≤ s.page
    → offset s + 50 < usize_mod
    → length records ≤ 50
    → (p : DataListPayload CacheEntry) × (caches records (tab_params s) ≡ sent p)
      × (entries_section js s (loaded p) ≡ no_entries js s.search)
      × (tagged "Pagination" (view js s (loaded p) config false) ≡ [])
      × (presses (view js s (loaded p) config false)
          ≡ handle_flush ∷ (if s.snackbar.opened then close_snackbar ∷ [] else []))
unfolding entries_section filtered_caches
later_page_stuck js s records config later small few =
    let p = window_payload records (offset s) 50 in
    let none_left : drop (offset s) records ≡ [] =
      drop_of_length-le (offset s) records (omega arith) in
    let few_left : ltb 50 (length records) ≡ false = le→ltb 50 (length records) few in
    (
      p,
      caches-window_payload records (tab_params s) small,
      rw none_left,
      rw (tagged-view js s (loaded p) config false, few_left),
      presses-view js s (loaded p) config false,
    )
