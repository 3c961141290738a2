-- ===== src/Server/Dispatch/Tasks.antt =====
-- The work and the ends of the spawned tasks, and the runs of the dispatcher.
use smartdns_rs.Prelude.{Bool, List, [], arith, refl, ℕ, ◌+◌, ◌-◌, ◌<◌, ◌∷◌, ◌≡◌}
use smartdns_rs.Server.Dispatch.{Task, Dispatcher, fetch_add, receive}

abbrev pub sizes : List Task → ℕ
sizes [] = 0
sizes (t ∷ ts) = t.size + sizes ts

abbrev pub open_requests : List Task → ℕ
open_requests [] = 0
open_requests (t ∷ ts) = t.remaining + open_requests ts

-- A request of a task is answered.
pub data Answers : List Task → List Task → Type 0 where
  first :
      {t : Task} {ts : List Task}
      → 0 < t.remaining
      → Answers (t ∷ ts) (record t { remaining = t.remaining - 1 } ∷ ts)
  later : {t : Task} {ts us : List Task} → Answers ts us → Answers (t ∷ ts) (t ∷ us)

-- A task without open requests ends, and leaves its size.
pub data Ends (n : ℕ) : List Task → List Task → Type 0 where
  first : {t : Task} {ts : List Task} → t.remaining ≡ 0 → t.size ≡ n → Ends n (t ∷ ts) ts
  later : {t : Task} {ts us : List Task} → Ends n ts us → Ends n (t ∷ ts) (t ∷ us)

pub Answers-counts :
    {ts us : List Task}
    → Answers ts us
    → (sizes us ≡ sizes ts) × (open_requests ts ≡ open_requests us + 1)
Answers-counts (first h) = (refl, omega arith)
Answers-counts (later a) = let (s, o) = Answers-counts a in omega arith

pub Ends-counts :
    {n : ℕ} {ts us : List Task}
    → Ends n ts us
    → (sizes ts ≡ sizes us + n) × (open_requests ts ≡ open_requests us)
Ends-counts (first r s) = omega arith
Ends-counts (later e) = let (s, o) = Ends-counts e in omega arith

-- What can happen: a batch arrives, a request is answered, a task ends.
pub data Step (limit : ℕ) (d : Dispatcher) : Dispatcher → Type 0 where
  receives : (requests : List Bool) → Step limit d (receive limit d requests)
  -- answered from the cache, or by an upstream server
  answers_hit :
      {us : List Task}
      → Answers d.fg_tasks us
      → Step limit d (record d { fg_tasks = us; hit = fetch_add d.hit 1 })
  answers_miss :
      {us : List Task}
      → Answers d.fg_tasks us
      → Step limit d (record d { fg_tasks = us; miss = fetch_add d.miss 1 })
  answers_background :
      {us : List Task} → Answers d.bg_tasks us → Step limit d (record d { bg_tasks = us })
  ends_foreground :
      {n : ℕ} {us : List Task}
      → Ends n d.fg_tasks us
      → Step limit d (record d { fg_tasks = us; finished = d.finished + n })
  ends_background :
      {n : ℕ} {us : List Task}
      → Ends n d.bg_tasks us
      → Step limit d (record d { bg_tasks = us; finished = d.finished + n })

pub data Reach (limit : ℕ) (d : Dispatcher) : Dispatcher → Type 0 where
  here : Reach limit d d
  next : {e f : Dispatcher} → Reach limit d e → Step limit e f → Reach limit d f
