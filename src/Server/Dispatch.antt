-- ===== src/Server/Dispatch.antt =====
-- src/app.rs: the loop of `serve` that takes the incoming requests in batches, refuses some, spawns
-- the others as tasks and reaps the finished ones, with the counters that the statistics show.
-- The tasks' work and their ends are events; a task that panics is left out.
pub mod Tasks
pub mod Balance
pub mod Totals
pub mod Loss
use smartdns_rs.Prelude.{
  Bool, List, [], false, if◌then◌else◌, length, ltb, not, reverse, suc, true, ℕ, ◌%◌, ◌&&◌, ◌+◌,
  ◌-◌, ◌^◌, ◌∷◌,
}

-- A spawned batch: its requests, and those of them not answered yet.
pub record Task : Type 0 where
  pub size : ℕ
  pub remaining : ℕ

pub record Dispatcher : Type 0 where
  pub active : ℕ
  pub total : ℕ
  pub bg_total : ℕ
  pub hit : ℕ
  pub miss : ℕ
  -- background requests that wait for a permit
  pub bg_batch : ℕ
  -- tasks that hold a permit
  pub bg_tasks : List Task
  pub fg_tasks : List Task
  -- requests of ended tasks that are not reaped
  pub finished : ℕ
  -- for the statements alone: the refused requests, and the foreground requests whose batch was
  -- dropped without a permit
  pub refused : ℕ
  pub lost : ℕ

abbrev pub start : Dispatcher
start = record {
  active = 0;
  total = 0;
  bg_total = 0;
  hit = 0;
  miss = 0;
  bg_batch = 0;
  bg_tasks = [];
  fg_tasks = [];
  finished = 0;
  refused = 0;
  lost = 0;
}

-- The counters are atomics of 64 bits, which wrap around.
abbrev pub word : ℕ
word = 2 ^ 64

abbrev pub fetch_add : ℕ → ℕ → ℕ
fetch_add a n = (a + n) % word

abbrev pub fetch_sub : ℕ → ℕ → ℕ
fetch_sub a n = (a + word - n % word) % word

abbrev pub background_permits : ℕ
background_permits = 4

abbrev pub foreground_permits : ℕ
foreground_permits = 64

unfoldable pub should_refuse_query : ℕ → Bool → ℕ → Bool
should_refuse_query max_query_limit is_background active_queries =
    ltb 0 max_query_limit && not is_background && ltb max_query_limit active_queries

-- A request is whether it is a background one.
abbrev pub count_foreground : List Bool → ℕ
count_foreground [] = 0
count_foreground (true ∷ rs) = count_foreground rs
count_foreground (false ∷ rs) = suc (count_foreground rs)

abbrev pub count_background : List Bool → ℕ
count_background [] = 0
count_background (true ∷ rs) = suc (count_background rs)
count_background (false ∷ rs) = count_background rs

-- The variables of the inner loop.
pub record Sorting : Type 0 where
  pub active : ℕ
  pub batch : ℕ
  pub bg_batch : ℕ
  pub refused : ℕ

-- One round of the inner loop.
unfoldable pub sort_one : ℕ → Sorting → Bool → Sorting
unfolding should_refuse_query
sort_one limit v is_background =
    if should_refuse_query limit is_background v.active
    then record v { active = fetch_sub v.active 1; refused = v.refused + 1 }
    else if is_background
    then record v { bg_batch = v.bg_batch + 1 }
    else record v { batch = v.batch + 1 }

-- `while let Some(…) = requests.pop()`: the requests from the last to the first.
unfoldable pub sort_requests : ℕ → Sorting → List Bool → Sorting
sort_requests limit v [] = v
sort_requests limit v (r ∷ rs) = sort_requests limit (sort_one limit v r) rs

abbrev pub whole : ℕ → Task
whole n = record { size = n; remaining = n }

-- Background requests get a task if a permit is free, and wait if not.
unfoldable pub spawn_background : Dispatcher → Dispatcher
spawn_background d =
    if ltb 0 d.bg_batch && ltb (length d.bg_tasks) background_permits
    then record d { bg_batch = 0; bg_tasks = whole d.bg_batch ∷ d.bg_tasks }
    else d

-- A foreground batch gets a task if a permit is free, and is dropped if not.
unfoldable pub spawn_foreground : ℕ → Dispatcher → Dispatcher
spawn_foreground batch d =
    if ltb 0 batch
    then if ltb (length d.fg_tasks) foreground_permits
      then record d { fg_tasks = whole batch ∷ d.fg_tasks }
      else record d { lost = d.lost + batch }
    else d

unfoldable pub reap : Dispatcher → Dispatcher
reap d = record d { active = fetch_sub d.active d.finished; finished = 0 }

-- The state after the inner loop.
abbrev pub after_sorting : Dispatcher → List Bool → Sorting → Dispatcher
after_sorting d requests v = record d {
  active = v.active;
  total = fetch_add d.total (count_foreground requests);
  bg_total = fetch_add d.bg_total (count_background requests);
  bg_batch = v.bg_batch;
  refused = d.refused + v.refused;
}

abbrev pub begin_sorting : Dispatcher → ℕ → Sorting
begin_sorting d count = record {
  active = fetch_add d.active count;
  batch = 0;
  bg_batch = d.bg_batch;
  refused = 0;
}

-- One round of the outer loop; `requests` is what `recv_many` returned.
unfoldable pub receive : ℕ → Dispatcher → List Bool → Dispatcher
receive limit d [] = d
receive limit d (r ∷ rs) =
    let requests = r ∷ rs in
    let v = sort_requests limit (begin_sorting d (length requests)) (reverse requests) in
    reap (spawn_foreground v.batch (spawn_background (after_sorting d requests v)))
