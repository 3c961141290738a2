-- ===== src/Web/Cache/View.antt =====
-- What `CacheTab` shows.
pub mod Laws
use smartdns_rs.Prelude.{
  Bool, List, Option, [], if◌then◌else◌, is_empty, length, ltb, map, none, show, some, ℕ, ◌+◌, ◌-◌,
  ◌/◌, ◌==◌, ◌∷◌,
}
use Prim.Native.String.{String}
use smartdns_rs.Web.Api.{CacheEntry, CachesResponse, CacheConfigResponse}
use smartdns_rs.Web.Cache.{
  CacheTab, CacheMsg, set_search, set_page, handle_flush, close_snackbar, rows_per_page,
  filtered_caches,
}
use smartdns_rs.Web.Format.{format_query_type, format_timestamp}
use smartdns_rs.Web.Parts.{
  box, typography, skeleton, skeletons, error_alert, stat_card, card, cell, chip, table,
  snackbar_view,
}
use smartdns_rs.Web.Runtime.{Runtime, Json, Query}
use smartdns_rs.Web.View.{Node, prop, flag, num, on_click, on_input, on_select, text, tag}

-- `cacheConfig?.size ?? "-"`
abbrev config_size : Option CacheConfigResponse → String
config_size none = "-"
config_size (some config) = show config.size

abbrev pub total_of : Option CachesResponse → ℕ
total_of none = 0
total_of (some caches) = caches.total

unfoldable pub size_card : Query CacheConfigResponse → Node CacheMsg
size_card q =
    stat_card "缓存大小限制"
      (if q.is_loading then skeleton "text" else typography "h4" (config_size q.value))

unfoldable pub count_card : Query CachesResponse → Node CacheMsg
count_card q =
    stat_card "当前缓存条目"
      (if q.is_loading then skeleton "text" else typography "h4" (show (total_of q.value)))

unfoldable pub flush_card : Bool → Node CacheMsg
flush_card pending = tag "Grid" [] (
    card (
      tag "Button" (prop "color" "error" ∷ on_click handle_flush ∷ flag "disabled" pending ∷ []) (
        tag "startIcon" []
          ((if pending then tag "CircularProgress" [] [] else tag "DeleteSweepIcon" [] []) ∷ [])
        ∷ text "清空缓存"
        ∷ [])
      ∷ [])
    ∷ [])

unfoldable pub search_field : String → Node CacheMsg
search_field search =
    tag "TextField" (prop "placeholder" "搜索域名..." ∷ prop "value" search ∷ on_input set_search ∷ [])
      []

abbrev pub page_count : ℕ → ℕ
page_count total = (total + (rows_per_page - 1)) / rows_per_page

-- Shown only where there is more than one page.
unfoldable pub pagination : ℕ → Option CachesResponse → List (Node CacheMsg)
pagination page none = []
pagination page (some caches) =
    if ltb rows_per_page caches.total
    then box (
        tag "Pagination"
          (num "count" (page_count caches.total) ∷ num "page" page ∷ on_select set_page ∷ []) []
        ∷ [])
      ∷ []
    else []

-- The overview tab has the same table.
module _ {M : Type 0} (js : Runtime) where
  open js use {to_locale_string, locale_date, to_text}

  unfoldable pub cache_row : CacheEntry → Node M
  cache_row entry = tag "TableRow" [] (
      cell (typography "body2" entry.name)
      ∷ cell (chip (format_query_type to_text entry.query_type) "default" "outlined")
      ∷ cell (text (to_locale_string entry.hits))
      ∷ cell (text (format_timestamp locale_date entry.last_access))
      ∷ [])

  unfoldable pub entry_table : List CacheEntry → Node M
  entry_table entries = table ("域名" ∷ "类型" ∷ "命中次数" ∷ "最后访问" ∷ []) (map cache_row entries)

module _ (js : Runtime) where
  open js use {case_map}

  abbrev pub no_entries : String → Node CacheMsg
  no_entries search = typography "" (if is_empty search then "暂无缓存条目" else "未找到匹配的缓存条目")

  unfoldable pub entries_section : CacheTab → Query CachesResponse → Node CacheMsg
  entries_section s q =
      let filtered = filtered_caches case_map s.search q.value in
      if q.is_loading
      then skeletons 5
      else if q.error
      then error_alert "加载缓存数据失败"
      else if length filtered == 0
      then no_entries s.search
      else entry_table js filtered

  unfoldable pub view :
      CacheTab → Query CachesResponse → Query CacheConfigResponse → Bool → Node CacheMsg
  view s caches config pending = box (
      typography "h4" "缓存管理"
      ∷ tag "Grid" [] (size_card config ∷ count_card caches ∷ flush_card pending ∷ [])
      ∷ card (
          box (typography "h6" "缓存条目" ∷ search_field s.search ∷ [])
          ∷ entries_section s caches
          ∷ pagination s.page caches.value)
      ∷ snackbar_view close_snackbar s.snackbar
      ∷ [])
