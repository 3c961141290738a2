-- ===== src/Web/Cache.antt =====
-- `CacheTab` of webui/src/app/dashboard/page.tsx: its state and handlers.
pub mod View
pub mod Paging
pub mod Session
use smartdns_rs.Prelude.{
  Bool, CaseMap, List, Option, [], includes, keep_if, none, some, ℕ, ◌*◌, ◌-◌, ◌∷◌,
}
use Prim.Native.String.{String}
use smartdns_rs.Web.Api.{CacheEntry, CachesResponse}
use smartdns_rs.Web.Api.Hooks.{MutationOptions, QueryOptions, use_flush_cache, use_caches}
use smartdns_rs.Web.Parts.{Snackbar, success, error, no_snackbar, notify, close}

pub record CacheTab : Type 0 where
  pub search : String
  pub page : ℕ
  pub snackbar : Snackbar

abbrev pub init : CacheTab
init = record { search = ""; page = 1; snackbar = no_snackbar }

abbrev pub rows_per_page : ℕ
rows_per_page = 50

-- The page is at least 1, so that the subtraction is exact.
abbrev pub offset : CacheTab → ℕ
offset s = (s.page - 1) * rows_per_page

-- The query that the tab makes.
pub caches_query : CacheTab → QueryOptions
caches_query s = use_caches (offset s) rows_per_page

pub data CacheMsg : Type 0 where
  set_search : String → CacheMsg
  set_page : ℕ → CacheMsg
  handle_flush : CacheMsg
  -- the callbacks of `flushCache.mutate`
  flush_success flush_error : CacheMsg
  close_snackbar : CacheMsg

-- The state after a handler, and the mutations that it starts.
unfoldable pub update : CacheTab → CacheMsg → CacheTab × List MutationOptions
update s (set_search text) = (record s { search = text }, [])
update s (set_page page) = (record s { page = page }, [])
update s handle_flush = (s, use_flush_cache ∷ [])
update s flush_success = (record s { page = 1; snackbar = notify "缓存已清空" success }, [])
update s flush_error = (record s { snackbar = notify "清空缓存失败" error }, [])
update s close_snackbar = (record s { snackbar = close s.snackbar }, [])

module _ (cm : CaseMap) where
  open cm use {to_lower}

  abbrev pub entry_matches : String → CacheEntry → Bool
  entry_matches search entry = includes (to_lower entry.name) (to_lower search)

  -- `filteredCaches`
  unfoldable pub filtered_caches : String → Option CachesResponse → List CacheEntry
  filtered_caches search none = []
  filtered_caches search (some caches) = keep_if (entry_matches search) caches.items
