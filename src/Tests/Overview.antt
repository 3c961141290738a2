-- ===== src/Tests/Overview.antt =====
-- Concrete inputs for the theorems on the tabs that show statistics.
use smartdns_rs.Prelude.{arith, false, map, none, refl, true, ◌≡◌}
use smartdns_rs.Web.Runtime.{Query}
use smartdns_rs.Server.Nameservers.{nameservers}
use smartdns_rs.Tests.Stats.{fl, groups, servers}
use smartdns_rs.Web.Upstream.{total_queries, total_success, total_failure}
use smartdns_rs.Web.Upstream.Laws.{received, totals-nameservers}
use smartdns_rs.Web.Overview as OverviewTab
use smartdns_rs.Web.Overview.{chart_series, query_point, hit_point}
use smartdns_rs.Web.Overview.Laws.{is_missing, view-missing}
use smartdns_rs.Tests.Web.{js}

totals-nameservers_example :
    let rows = map (received fl js (λ n. n)) (nameservers fl groups servers).items in
    (total_queries js rows ≡ 10) × (total_success js rows ≡ 7) × (total_failure js rows ≡ 3)
totals-nameservers_example =
    totals-nameservers fl js (λ n. n) groups servers (λ n h. refl)
      (omega arith, omega arith, omega arith, omega arith) (refl, (refl, (refl, tt)))

-- A query that waits for the network.
abbrev paused : {A : Type 0} → Query A
paused = record { value = none; is_loading = false; error = false }

view-missing_example :
    is_missing (OverviewTab.view {M = Unit} js paused paused paused paused) ≡ true
view-missing_example = view-missing Unit js paused paused paused paused
