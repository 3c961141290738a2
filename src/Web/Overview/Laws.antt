-- ===== src/Web/Overview/Laws.antt =====
-- When the overview tab can be shown, and its chart against the server's history.
use smartdns_rs.Prelude.{
  Bool, List, Option, Option-cases, [], arith, false, inl, inr, last_n, length, length-append,
  length-drop, length-map, map, none, not, some, true, ◌&&◌, ◌++◌, ◌+◌, ◌-◌, ◌==◌, ◌∷◌, ◌≡◌,
}
use Prim.Native.String.{String}
use smartdns_rs.Server.Ranking.{Float}
use smartdns_rs.Server.Stats
use smartdns_rs.Server.Stats.{Poll, DnsStats, history_max, stats}
use smartdns_rs.Server.Stats.History.{snapshot, stats-history}
use smartdns_rs.Web.Api.{StatsSnapshot, StatsResponse, CachesResponse, NameCount}
use smartdns_rs.Web.Cards.{stat_cells, render_all}
use smartdns_rs.Web.Overview.{chart_data, chart_series, query_point, hit_point, view}
use smartdns_rs.Web.Runtime.{Runtime, Query}

abbrev pub is_missing : {A : Type 0} → Option A → Bool
is_missing none = true
is_missing (some x) = false

-- A query that is neither loading nor in error, and has no value: it is paused.
abbrev pub is_paused : {A : Type 0} → Query A → Bool
is_paused q = not q.is_loading && not q.error && is_missing q.value

module _ (M : Type 0) (js : Runtime) where
  render_all-missing :
      (q : Query (StatsResponse js.Number))
      → is_missing (render_all {M = M} (stat_cells js q)) ≡ is_paused q
  unfolding stat_cells
  render_all-missing q = elim (Option-cases q.value) [
    | inl missing ↦ rw missing (ground arith)
    | inr (v, found) ↦ rw found (ground arith)
  ]

  -- The render of the overview tab, with the ten cards of its head each testing the query of the
  -- statistics, throws just where that query has no value and is neither loading nor in error; the
  -- other queries never make it throw.
  pub view-missing :
      (q : Query (StatsResponse js.Number)) (caches : Query CachesResponse)
      (domains clients : Query (List (NameCount js.Number)))
      → is_missing (view {M = M} js q caches domains clients) ≡ is_paused q
  unfolding view
  view-missing q caches domains clients =
      let head = render_all-missing q in
      elim (Option-cases (render_all {M = M} (stat_cells js q))) [
        | inl missing ↦ rw (missing, is_missing) (rw (missing, is_missing) at head)
        | inr (cells, found) ↦ rw (found, is_missing) (rw (found, is_missing) at head)
      ]

-- A snapshot and an answer as the console reads them; `number` reads a float of the JSON text.
abbrev pub received_snapshot : Stats.StatsSnapshot → StatsSnapshot
received_snapshot s = record {
  timestamp = s.timestamp;
  total_queries = s.total_queries;
  cache_hits = s.cache_hits;
}

module _ (fl : Float) {N : Type 0} (number : fl.F → N) where
  abbrev pub received : DnsStats fl.F → StatsResponse N
  received s = record {
    uptime_secs = s.uptime_secs;
    active_queries = s.active_queries;
    cache_size = s.cache_size;
    cache_hits = s.cache_hits;
    cache_query_hits = s.cache_query_hits;
    total_queries = s.total_queries;
    bg_total_queries = s.bg_total_queries;
    cache_hit_rate = number s.cache_hit_rate;
    avg_query_time_ms = number s.avg_query_time_ms;
    cache_hit_avg_query_time_ms = number s.cache_hit_avg_query_time_ms;
    cache_miss_avg_query_time_ms = number s.cache_miss_avg_query_time_ms;
    cache_hit_queries = s.cache_hit_queries;
    cache_miss_queries = s.cache_miss_queries;
    bg_avg_query_time_ms = number s.bg_avg_query_time_ms;
    version = s.version;
    history = map received_snapshot s.history;
  }

  -- After a call of the statistics the chart shows just the last 120 snapshots of all calls, that
  -- of the call the last, in both series; it never falls back to the single point.
  chart_series-stats :
      (version : String) (log : List Stats.StatsSnapshot) (p : Poll)
      → let shown = map received_snapshot (last_n history_max (log ++ snapshot p ∷ [])) in
        chart_series (some (received (stats fl version (last_n history_max log) p).1))
        ≡ ("总查询数", map query_point shown) ∷ ("缓存命中", map hit_point shown) ∷ []
  unfolding chart_series chart_data
  chart_series-stats version log p =
      let all = log ++ snapshot p ∷ [] in
      let grown : length all ≡ length log + 1 = length-append log (snapshot p ∷ []) in
      let cut = length-drop (length all - history_max) all in
      let some_left : (length (map received_snapshot (last_n history_max all)) == 0) ≡ false =
        ground (arith, length-map received_snapshot (last_n history_max all)) in
      rw (stats-history fl version log p, some_left)
