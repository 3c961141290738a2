-- ===== src/Web/Cards.antt =====
-- The head of `OverviewTab` of webui/src/app/dashboard/page.tsx: `MetricCard`, its skeleton and the
-- ten cards, each with its own tests of the query.
use smartdns_rs.Prelude.{List, Option, [], if◌then◌else◌, none, show, some, ◌<>◌, ◌∷◌}
use Prim.Native.String.{String}
use smartdns_rs.Web.Api.{StatsResponse}
use smartdns_rs.Web.Format.{format_uptime}
use smartdns_rs.Web.Parts.{box, typography, skeleton, error_alert, card}
use smartdns_rs.Web.Runtime.{Runtime, Query}
use smartdns_rs.Web.View.{Node, tag}

-- What a component returns; `none` is a render that throws.
abbrev pub Rendered : Type 0 → Type 0
Rendered M = Option (Node M)

module _ {M : Type 0} where
  abbrev subtitle_line : Option String → List (Node M)
  subtitle_line none = []
  subtitle_line (some s) = typography "caption" s ∷ []

  unfoldable pub metric_card : String → String → Option String → Node M
  metric_card title value subtitle =
      card (box (typography "body2" title ∷ []) ∷ typography "h4" value ∷ subtitle_line subtitle)

  unfoldable pub metric_card_skeleton : Node M
  metric_card_skeleton = card (skeleton "rounded" ∷ skeleton "text" ∷ skeleton "text" ∷ [])

-- `stats!` in what is made of `stats`: it throws where there is no value.
abbrev pub with_value : {A B : Type 0} → (A → B) → Option A → Option B
with_value f none = none
with_value f (some x) = some (f x)

module _ (js : Runtime) where
  open js use {Number, to_fixed}

  -- `stats != null ? `${field.toFixed(1)}unit` : "—"`
  abbrev pub one_digit :
      (StatsResponse Number → Number) → String → Option (StatsResponse Number) → String
  one_digit field unit none = "—"
  one_digit field unit (some stats) = to_fixed (field stats) 1 <> unit

  unfoldable pub hit_rate_value : Option (StatsResponse Number) → String
  hit_rate_value = one_digit (λ s. s.cache_hit_rate) "%"

  unfoldable pub avg_time_value : Option (StatsResponse Number) → String
  avg_time_value = one_digit (λ s. s.avg_query_time_ms) " ms"

  unfoldable pub cache_hit_avg_time_value : Option (StatsResponse Number) → String
  cache_hit_avg_time_value = one_digit (λ s. s.cache_hit_avg_query_time_ms) " ms"

  unfoldable pub cache_miss_avg_time_value : Option (StatsResponse Number) → String
  cache_miss_avg_time_value = one_digit (λ s. s.cache_miss_avg_query_time_ms) " ms"

  unfoldable pub bg_avg_time_value : Option (StatsResponse Number) → String
  bg_avg_time_value = one_digit (λ s. s.bg_avg_query_time_ms) " ms"

module _ {M : Type 0} (js : Runtime) where
  open js use {Number, to_locale_string}

  -- The cards of the head; `stats!` throws where there is no value.
  unfoldable pub uptime_cell : Query (StatsResponse Number) → Rendered M
  unfolding metric_card metric_card_skeleton
  uptime_cell q =
      if q.is_loading
      then some metric_card_skeleton
      else if q.error
      then some (error_alert "加载失败")
      else with_value (λ s. metric_card "运行时间" (format_uptime s.uptime_secs) none) q.value

  unfoldable pub hit_rate_cell : Query (StatsResponse Number) → Rendered M
  unfolding metric_card metric_card_skeleton hit_rate_value
  hit_rate_cell q =
      if q.is_loading
      then some metric_card_skeleton
      else if q.error
      then some (error_alert "加载失败")
      else with_value
          (λ s. metric_card "缓存命中率" (hit_rate_value js q.value) (
            some (
              to_locale_string s.cache_query_hits
              <> " 命中 / "
              <> to_locale_string s.total_queries
              <> " 总查询")))
          q.value

  unfoldable pub avg_time_cell : Query (StatsResponse Number) → Rendered M
  unfolding metric_card metric_card_skeleton avg_time_value
  avg_time_cell q =
      if q.is_loading
      then some metric_card_skeleton
      else if q.error
      then some (error_alert "加载失败")
      else with_value
          (λ s. metric_card "综合平均查询时间" (avg_time_value js q.value) (
            some (
              to_locale_string s.cache_hit_queries
              <> " 命中 + "
              <> to_locale_string s.cache_miss_queries
              <> " 未命中")))
          q.value

  unfoldable pub cache_hit_time_cell : Query (StatsResponse Number) → Rendered M
  unfolding metric_card metric_card_skeleton cache_hit_avg_time_value
  cache_hit_time_cell q =
      if q.is_loading
      then some metric_card_skeleton
      else if q.error
      then some (error_alert "加载失败")
      else with_value
          (λ s.
            metric_card "缓存命中耗时" (cache_hit_avg_time_value js q.value)
              (some (to_locale_string s.cache_hit_queries <> " 次命中")))
          q.value

  unfoldable pub cache_miss_time_cell : Query (StatsResponse Number) → Rendered M
  unfolding metric_card metric_card_skeleton cache_miss_avg_time_value
  cache_miss_time_cell q =
      if q.is_loading
      then some metric_card_skeleton
      else if q.error
      then some (error_alert "加载失败")
      else with_value
          (λ s.
            metric_card "上游查询耗时" (cache_miss_avg_time_value js q.value)
              (some (to_locale_string s.cache_miss_queries <> " 次未命中")))
          q.value

  -- The one card that reads no `stats!`.
  unfoldable pub bg_time_cell : Query (StatsResponse Number) → Rendered M
  unfolding metric_card metric_card_skeleton bg_avg_time_value
  bg_time_cell q =
      if q.is_loading
      then some metric_card_skeleton
      else if q.error
      then some (error_alert "加载失败")
      else some (metric_card "后台预取耗时" (bg_avg_time_value js q.value) (some "缓存预取平均耗时"))

  unfoldable pub total_cell : Query (StatsResponse Number) → Rendered M
  unfolding metric_card metric_card_skeleton
  total_cell q =
      if q.is_loading
      then some metric_card_skeleton
      else if q.error
      then some (error_alert "加载失败")
      else with_value (λ s. metric_card "总查询数" (to_locale_string s.total_queries) none) q.value

  unfoldable pub bg_total_cell : Query (StatsResponse Number) → Rendered M
  unfolding metric_card metric_card_skeleton
  bg_total_cell q =
      if q.is_loading
      then some metric_card_skeleton
      else if q.error
      then some (error_alert "加载失败")
      else with_value
          (λ s. metric_card "后台查询数" (to_locale_string s.bg_total_queries) (some "缓存预取等后台任务"))
          q.value

  unfoldable pub cache_size_cell : Query (StatsResponse Number) → Rendered M
  unfolding metric_card metric_card_skeleton
  cache_size_cell q =
      if q.is_loading
      then some metric_card_skeleton
      else if q.error
      then some (error_alert "加载失败")
      else with_value (λ s. metric_card "缓存条目数" (to_locale_string s.cache_size) none) q.value

  unfoldable pub active_cell : Query (StatsResponse Number) → Rendered M
  unfolding metric_card metric_card_skeleton
  active_cell q =
      if q.is_loading
      then some metric_card_skeleton
      else if q.error
      then some (error_alert "加载失败")
      else with_value (λ s. metric_card "活跃查询数" (show s.active_queries) none) q.value

  -- The cards of the head, in order.
  unfoldable pub stat_cells : Query (StatsResponse Number) → List (Rendered M)
  unfolding uptime_cell hit_rate_cell avg_time_cell cache_hit_time_cell cache_miss_time_cell
      bg_time_cell total_cell bg_total_cell cache_size_cell active_cell
  stat_cells q =
      uptime_cell q
      ∷ hit_rate_cell q
      ∷ avg_time_cell q
      ∷ cache_hit_time_cell q
      ∷ cache_miss_time_cell q
      ∷ bg_time_cell q
      ∷ total_cell q
      ∷ bg_total_cell q
      ∷ cache_size_cell q
      ∷ active_cell q
      ∷ []

module _ {M : Type 0} where
  -- All of the cells, or none if one of them throws.
  abbrev pub render_all : List (Rendered M) → Option (List (Node M))
  render_all [] = some []
  render_all (none ∷ cs) = none
  render_all (some x ∷ cs) = with_value (λ xs. tag "Grid" [] (x ∷ []) ∷ xs) (render_all cs)
