-- ===== src/Server/Dispatch/Loss.antt =====
-- Foreground batches that find no permit: what becomes of them and of later queries.
use smartdns_rs.Prelude.{
  Bool, List, [], arith, false, length, refl, reverse, true, ◌+◌, ◌∷◌, ◌≡◌, ◌≤◌,
}
use smartdns_rs.Server.Dispatch.{
  Dispatcher, Sorting, sort_one, sort_requests, spawn_background, spawn_foreground, reap,
  begin_sorting, receive, count_foreground, foreground_permits,
}
use smartdns_rs.Server.Dispatch.Totals.{sort_requests-counts, count_foreground-reverse}

-- Without a query limit nothing is refused.
sort_requests-unlimited :
    (v : Sorting) (rs : List Bool) → (sort_requests 0 v rs).refused ≡ v.refused
unfolding sort_requests sort_one
sort_requests-unlimited v [] = refl
sort_requests-unlimited v (true ∷ rs) = sort_requests-unlimited (sort_one 0 v true) rs
sort_requests-unlimited v (false ∷ rs) = sort_requests-unlimited (sort_one 0 v false) rs

-- While 64 foreground tasks run and no query limit is configured, every foreground query that
-- arrives is dropped: it is in no task, is not refused, and counts as lost.
pub receive_dropped :
    (d : Dispatcher) (requests : List Bool)
    → foreground_permits ≤ length d.fg_tasks
    → ((receive 0 d requests).fg_tasks ≡ d.fg_tasks)
      × ((receive 0 d requests).refused ≡ d.refused)
      × ((receive 0 d requests).lost ≡ d.lost + count_foreground requests)
unfolding receive spawn_foreground spawn_background reap
receive_dropped d [] full = (refl, refl, omega arith)
receive_dropped d (r ∷ rs) full =
    let requests = r ∷ rs in
    let first = begin_sorting d (length requests) in
    let v = sort_requests 0 first (reverse requests) in
    let counts = sort_requests-counts 0 first (reverse requests) in
    let none_refused : v.refused ≡ 0 = sort_requests-unlimited first (reverse requests) in
    let same = count_foreground-reverse requests in (ground arith, ground arith, ground arith)
