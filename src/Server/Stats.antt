-- ===== src/Server/Stats.antt =====
-- src/api/stats.rs: the handler `stats`; src/app.rs: the averages that it reads and the history of
-- snapshots that each call extends.
pub mod History
use smartdns_rs.Prelude.{
  List, Option, [], drop, if◌then◌else◌, length, ltb, none, some, ℕ, ◌++◌, ◌==◌, ◌∷◌,
}
use Prim.Native.String.{String}
use smartdns_rs.Server.Ranking.{Float}

pub record StatsSnapshot : Type 0 where
  pub timestamp : ℕ
  pub total_queries : ℕ
  pub cache_hits : ℕ

-- The fields of `AppState` that the statistics read.
pub record Counters : Type 0 where
  pub active_queries : ℕ
  pub total_queries : ℕ
  pub total_query_time_ns : ℕ
  pub cache_hit_queries : ℕ
  pub cache_hit_query_time_ns : ℕ
  pub cache_miss_queries : ℕ
  pub cache_miss_query_time_ns : ℕ
  pub bg_total_queries : ℕ
  pub bg_total_query_time_ns : ℕ

-- What a call finds: the uptime and the clock in seconds, the counters, and the number of entries
-- and of hits of the cache, if there is one.
pub record Poll : Type 0 where
  pub uptime_secs : ℕ
  pub now : ℕ
  pub counters : Counters
  pub cache : Option (ℕ × ℕ)

abbrev pub history_max : ℕ
history_max = 120

-- `history.push(…)`, then `history.remove(0)` if it is too long.
unfoldable pub add_stats_snapshot : List StatsSnapshot → ℕ → ℕ → ℕ → List StatsSnapshot
add_stats_snapshot history now total query_hits =
    let entry : StatsSnapshot = record {
      timestamp = now;
      total_queries = total;
      cache_hits = query_hits;
    } in
    let grown = history ++ entry ∷ [] in
    if ltb history_max (length grown) then drop 1 grown else grown

abbrev pub cache_size : Option (ℕ × ℕ) → ℕ
cache_size none = 0
cache_size (some (size, hits)) = size

abbrev pub query_hits : Option (ℕ × ℕ) → ℕ
query_hits none = 0
query_hits (some (size, hits)) = hits

pub record DnsStats (F : Type 0) : Type 0 where
  pub uptime_secs : ℕ
  pub active_queries : ℕ
  pub cache_size : ℕ
  pub cache_hits : ℕ
  pub cache_query_hits : ℕ
  pub total_queries : ℕ
  pub bg_total_queries : ℕ
  pub cache_hit_rate : F
  pub avg_query_time_ms : F
  pub cache_hit_avg_query_time_ms : F
  pub cache_miss_avg_query_time_ms : F
  pub cache_hit_queries : ℕ
  pub cache_miss_queries : ℕ
  pub bg_avg_query_time_ms : F
  pub version : String
  pub history : List StatsSnapshot

module _ (fl : Float) where
  open fl use {F, zero_f, div, mul, min_f, of_nat}

  -- The four averages differ only in the counters that they read.
  abbrev pub avg_ms : ℕ → ℕ → F
  avg_ms count time_ns =
      if count == 0 then zero_f else div (div (of_nat time_ns) (of_nat count)) (of_nat 1000000)

  unfoldable pub cache_hit_rate : ℕ → ℕ → F
  cache_hit_rate hits total =
      if ltb 0 total
      then min_f (mul (div (of_nat hits) (of_nat total)) (of_nat 100)) (of_nat 100)
      else zero_f

  -- The history after the call, and its answer; `version` is the build's.
  unfoldable pub stats : String → List StatsSnapshot → Poll → List StatsSnapshot × DnsStats F
  stats version history poll =
      let c = poll.counters in
      let hits = query_hits poll.cache in
      let history' = add_stats_snapshot history poll.now c.total_queries hits in
      (
        history',
        record {
          uptime_secs = poll.uptime_secs;
          active_queries = c.active_queries;
          cache_size = cache_size poll.cache;
          cache_hits = hits;
          cache_query_hits = hits;
          total_queries = c.total_queries;
          bg_total_queries = c.bg_total_queries;
          cache_hit_rate = cache_hit_rate hits c.total_queries;
          avg_query_time_ms = avg_ms c.total_queries c.total_query_time_ns;
          cache_hit_avg_query_time_ms = avg_ms c.cache_hit_queries c.cache_hit_query_time_ns;
          cache_miss_avg_query_time_ms = avg_ms c.cache_miss_queries c.cache_miss_query_time_ns;
          cache_hit_queries = c.cache_hit_queries;
          cache_miss_queries = c.cache_miss_queries;
          bg_avg_query_time_ms = avg_ms c.bg_total_queries c.bg_total_query_time_ns;
          version = version;
          history = history';
        },
      )
