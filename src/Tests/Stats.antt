-- ===== src/Tests/Stats.antt =====
-- Concrete inputs for the theorems on the statistics.
use smartdns_rs.Prelude.{
  All, Bool, List, [], arith, compare, drop, false, keep_if, last_n, length, map, min, none, refl,
  some, true, ℕ, ◌*◌, ◌++◌, ◌+◌, ◌/◌, ◌∷◌, ◌≡◌, ◌≤◌,
}
use Prim.Native.String.{String}
use mathlib.Core.List.{Permᴰ}
use smartdns_rs.Server.Nameservers.{NameServer, NameServerInfo, udp, nameservers, is_enabled}
use smartdns_rs.Server.Nameservers.Laws.{all_of, summary, nameservers-summary}
use smartdns_rs.Server.Stats.{Poll, history_max}
use smartdns_rs.Server.Stats.History.{snapshot, poll_all, windows, poll_all-last_n}
use smartdns_rs.Server.Ranking.{Float, NameCount, aggregate, rank_limit, top_domains}
use smartdns_rs.Server.Ranking.Order.{IsRanked, aggregate-IsRanked}
use smartdns_rs.Server.Ranking.Counts.{count_named, occurrences, count_named-aggregate}
use smartdns_rs.Tests.Server.{ring}

-- Times are whole milliseconds here, and an average is rounded down.
abbrev pub fl : Float
fl = record {
  F = ℕ;
  zero_f = 0;
  add = λ x y. x + y;
  div = λ x y. x / y;
  mul = λ x y. x * y;
  min_f = min;
  of_nat = λ n. n;
  partial_cmp = λ x y. some (compare x y);
}

same_order : {A : Type 0} (xs : List A) → Permᴰ xs xs
same_order [] = Permᴰ.nil
same_order (x ∷ xs) = Permᴰ.cons refl (same_order xs)

count_named-aggregate_example :
    count_named fl "a.example" (aggregate fl (λ ts. ts) ring (λ e. some e.domain))
    ≡ occurrences fl "a.example" (λ e. some e.domain) ring
count_named-aggregate_example =
    count_named-aggregate fl "a.example" (λ ts. ts) (λ ts. same_order ts) ring (λ e. some e.domain)

aggregate-IsRanked_example :
    let rows = aggregate fl (λ ts. ts) ring (λ e. some e.domain) in
    let shown = top_domains fl (λ ts. ts) ring (some 1) in
    IsRanked fl rows
    × (shown ++ drop (rank_limit (some 1)) rows ≡ rows)
    × All
        (λ (r : NameCount ℕ).
          All (λ (out : NameCount ℕ). out.count ≤ r.count) (drop (rank_limit (some 1)) rows))
        shown
    × (length shown ≤ 100)
aggregate-IsRanked_example = aggregate-IsRanked fl (λ ts. ts) ring (some 1)

-- One upstream that runs in two groups, and one without traffic.
abbrev name_server : String → ℕ → Bool → NameServer
name_server key n failing = record {
  stats_key = key;
  query_count = n + 1;
  success_count = n;
  failure_count = 1;
  total_time_ns = n;
  is_failing = failing;
}

abbrev info : String → Bool → NameServerInfo
info key enabled = record {
  stats_key = key;
  enabled = enabled;
  name = none;
  server = key;
  group = [];
  proto = udp;
  is_encrypted = false;
  ip = none;
  host = "dns.example";
  port = 53;
}

abbrev pub groups : List (List NameServer)
groups =
    (name_server "u1" 3 false ∷ []) ∷ (name_server "u1" 4 true ∷ name_server "u2" 0 false ∷ []) ∷ []

abbrev pub servers : List NameServerInfo
servers = info "u1" true ∷ info "u3" false ∷ info "u2" true ∷ []

nameservers-summary_example :
    (nameservers fl groups servers).items
    ≡ map (summary fl (all_of groups)) (keep_if is_enabled servers)
nameservers-summary_example =
    nameservers-summary fl groups servers (omega arith, omega arith, omega arith, omega arith)

abbrev pub poll : ℕ → Poll
poll n = record {
  uptime_secs = n;
  now = n;
  counters = record {
    active_queries = 1;
    total_queries = n;
    total_query_time_ns = n;
    cache_hit_queries = 0;
    cache_hit_query_time_ns = 0;
    cache_miss_queries = n;
    cache_miss_query_time_ns = n;
    bg_total_queries = 0;
    bg_total_query_time_ns = 0;
  };
  cache = some (2, n);
}

poll_all-last_n_example : poll_all fl "1.0" (last_n history_max []) (poll 1 ∷ poll 2 ∷ []) ≡ (
  last_n history_max ([] ++ map snapshot (poll 1 ∷ poll 2 ∷ [])),
  windows fl "1.0" [] (poll 1 ∷ poll 2 ∷ []),
)
poll_all-last_n_example = poll_all-last_n fl "1.0" [] (poll 1 ∷ poll 2 ∷ [])
