-- ===== src/Server/Stats/History.antt =====
-- The history of snapshots over a sequence of calls.
use smartdns_rs.Prelude.{
  List, [], append-nil, append_assoc, last_n, last_n-push, map, ◌++◌, ◌∷◌, ◌≡◌,
}
use Prim.Native.String.{String}
use smartdns_rs.Server.Ranking.{Float}
use smartdns_rs.Server.Stats.{
  StatsSnapshot, Poll, history_max, add_stats_snapshot, query_hits, stats,
}

-- The counts that a call finds.
abbrev pub snapshot : Poll → StatsSnapshot
snapshot poll = record {
  timestamp = poll.now;
  total_queries = poll.counters.total_queries;
  cache_hits = query_hits poll.cache;
}

module _ (fl : Float) (version : String) where
  -- The calls in their order: the last history, and the histories that were sent.
  pub poll_all : List StatsSnapshot → List Poll → List StatsSnapshot × List (List StatsSnapshot)
  poll_all history [] = (history, [])
  poll_all history (p ∷ ps) =
      let (history', answer) = stats fl version history p in
      let (last, sent) = poll_all history' ps in (last, answer.history ∷ sent)

  -- The windows of the snapshots up to each call.
  abbrev pub windows : List StatsSnapshot → List Poll → List (List StatsSnapshot)
  windows log [] = []
  windows log (p ∷ ps) =
      last_n history_max (log ++ snapshot p ∷ []) ∷ windows (log ++ snapshot p ∷ []) ps

  stats-last_n :
      (log : List StatsSnapshot) (p : Poll)
      → (stats fl version (last_n history_max log) p).0
        ≡ last_n history_max (log ++ snapshot p ∷ [])
  unfolding stats add_stats_snapshot
  stats-last_n log p = last_n-push history_max log (snapshot p)

  pub stats-history :
      (log : List StatsSnapshot) (p : Poll)
      → (stats fl version (last_n history_max log) p).1.history
        ≡ last_n history_max (log ++ snapshot p ∷ [])
  unfolding stats add_stats_snapshot
  stats-history log p = last_n-push history_max log (snapshot p)

  -- Over any sequence of calls of the statistics, started from the window of earlier snapshots, the
  -- history kept is the last 120 snapshots of all calls, and each call is answered by the last 120
  -- up to its own.
  pub poll_all-last_n :
      (log : List StatsSnapshot) (ps : List Poll)
      → poll_all (last_n history_max log) ps
        ≡ (last_n history_max (log ++ map snapshot ps), windows log ps)
  unfolding poll_all
  poll_all-last_n log [] = rw (append-nil log)
  poll_all-last_n log (p ∷ ps) = rw (
    stats-last_n log p,
    stats-history log p,
    poll_all-last_n (log ++ snapshot p ∷ []) ps,
    append_assoc,
  )
