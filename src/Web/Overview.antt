-- ===== src/Web/Overview.antt =====
-- `OverviewTab`, `MetricCard`, `TopDomainsList` and `ClientsList` of
-- webui/src/app/dashboard/page.tsx. They have no state and send nothing. The styling of the chart
-- is left out, its series are not.
pub mod Laws
use smartdns_rs.Prelude.{
  List, Option, [], if◌then◌else◌, length, map, none, show, some, take, ℕ, ◌*◌, ◌+◌, ◌<>◌, ◌==◌,
  ◌||◌, ◌∷◌,
}
use Prim.Native.String.{String}
use smartdns_rs.Web.Api.{StatsSnapshot, StatsResponse, CachesResponse, CacheEntry, NameCount}
use smartdns_rs.Web.Cache.View.{entry_table}
use smartdns_rs.Web.Cards.{Rendered, stat_cells, render_all}
use smartdns_rs.Web.Format.{format_uptime}
use smartdns_rs.Web.Parts.{box, typography, skeleton, skeletons, error_alert, card, chip}
use smartdns_rs.Web.Runtime.{Runtime, Query}
use smartdns_rs.Web.View.{Node, copies, num, prop, text, tag}

-- A point of the chart: milliseconds, and a number of queries.
pub record Point : Type 0 where
  pub x : ℕ
  pub y : ℕ

abbrev pub query_point : StatsSnapshot → Point
query_point p = record { x = p.timestamp * 1000; y = p.total_queries }

abbrev pub hit_point : StatsSnapshot → Point
hit_point p = record { x = p.timestamp * 1000; y = p.cache_hits }

module _ {N : Type 0} where
  abbrev from_stats : (StatsResponse N → ℕ) → Option (StatsResponse N) → ℕ
  from_stats field none = 0
  from_stats field (some stats) = field stats

  abbrev history_of : Option (StatsResponse N) → List StatsSnapshot
  history_of none = []
  history_of (some stats) = stats.history

  -- The history, or one snapshot of the current numbers where there is none.
  unfoldable pub chart_data : Option (StatsResponse N) → List StatsSnapshot
  chart_data stats =
      if length (history_of stats) == 0
      then record {
        timestamp = 0;
        total_queries = from_stats (λ s. s.total_queries) stats;
        cache_hits = from_stats (λ s. s.cache_hits) stats;
      }
        ∷ []
      else history_of stats

  -- `chartSeries`: the names of the series and their points.
  unfoldable pub chart_series : Option (StatsResponse N) → List (String × List Point)
  unfolding chart_data
  chart_series stats =
      ("总查询数", map query_point (chart_data stats)) ∷ ("缓存命中", map hit_point (chart_data stats)) ∷ []

module _ {M : Type 0} where
  abbrev point_nodes : List Point → List (Node M)
  point_nodes [] = []
  point_nodes (p ∷ ps) = tag "point" (num "x" p.x ∷ num "y" p.y ∷ []) [] ∷ point_nodes ps

  abbrev series_node : String × List Point → Node M
  series_node (name, points) = tag "series" (prop "name" name ∷ []) (point_nodes points)

abbrev cache_entries : Option CachesResponse → List CacheEntry
cache_entries none = []
cache_entries (some caches) = caches.items

module _ (js : Runtime) where
  open js use {Number, to_fixed}

  abbrev ranking : Option (List (NameCount Number)) → List (NameCount Number)
  ranking none = []
  ranking (some rows) = rows

module _ {M : Type 0} (js : Runtime) where
  open js use {Number, to_fixed, to_locale_string}

  unfoldable pub cache_section : Query CachesResponse → Node M
  cache_section q =
      let entries = cache_entries q.value in
      if q.is_loading
      then skeletons 5
      else if q.error
      then error_alert "加载缓存数据失败"
      else if length entries == 0
      then typography "" "暂无缓存条目"
      else entry_table js (take 10 entries)

  -- The rows of a ranking, numbered from `i + 1`.
  abbrev pub rank_rows : ℕ → List (NameCount Number) → List (Node M)
  rank_rows i [] = []
  rank_rows i (d ∷ ds) =
      tag "ListItem" [] (
        tag "ListItemText"
          (prop "secondary"
              (to_locale_string d.count <> " 次 · 平均 " <> to_fixed d.avg_time_ms 1 <> " ms")
            ∷ [])
          (tag "primary" [] (typography "body2" d.name ∷ []) ∷ [])
        ∷ chip ("#" <> show (i + 1)) "default" "outlined"
        ∷ [])
      ∷ rank_rows (i + 1) ds

  -- `TopDomainsList` and `ClientsList`, which differ only in the query.
  unfoldable pub rank_list : Query (List (NameCount Number)) → Node M
  rank_list q =
      if q.is_loading
      then box (copies 5 (skeleton "text"))
      else if q.error || length (ranking js q.value) == 0
      then typography "body2" "暂无数据"
      else tag "List" [] (rank_rows 0 (ranking js q.value))

  abbrev pub title_card : String → List (Node M) → Node M
  title_card title children = card (typography "h6" title ∷ children)

  -- The tab; its two rankings run queries of their own.
  unfoldable pub view :
      Query (StatsResponse Number)
      → Query CachesResponse
      → Query (List (NameCount Number))
      → Query (List (NameCount Number))
      → Rendered M
  unfolding stat_cells cache_section rank_list chart_series
  view stats caches domains clients = elim (render_all (stat_cells js stats)) [
    | none ↦ none
    | some cells ↦ some (
        box (
          typography "h4" "系统概览"
          ∷ tag "Grid" [] cells
          ∷ title_card "查询趋势" (
              box (
                tag "Chart" (prop "type" "area" ∷ []) (map series_node (chart_series stats.value))
                ∷ [])
              ∷ [])
          ∷ title_card "缓存条目" (cache_section caches ∷ [])
          ∷ tag "Grid" [] (
              tag "Grid" [] (title_card "热门域名 Top 10" (rank_list domains ∷ []) ∷ [])
              ∷ tag "Grid" [] (title_card "活跃客户端 Top 10" (rank_list clients ∷ []) ∷ [])
              ∷ [])
          ∷ []))
  ]
