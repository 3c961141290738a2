-- ===== src/Server/Dispatch/Totals.antt =====
-- The counters of foreground queries.
use smartdns_rs.Prelude.{
  Bool, List, [], arith, false, length, refl, reverse, true, ℕ, ◌%◌, ◌++◌, ◌+◌, ◌∷◌, ◌≡◌,
}
use mathlib.Core.List.{reverse-cons}
use smartdns_rs.Server.Dispatch.{
  Dispatcher, Sorting, start, word, sort_one, sort_requests, spawn_background, spawn_foreground,
  reap, after_sorting, begin_sorting, receive, count_foreground, count_background,
}
use smartdns_rs.Server.Dispatch.Tasks.{
  open_requests, Answers-counts, Ends-counts, Step, receives, answers_hit, answers_miss,
  answers_background, ends_foreground, ends_background, Reach, here, next,
}

sort_one-counts :
    (limit : ℕ) (v : Sorting) (r : Bool) (rs : List Bool)
    → let w = sort_one limit v r in
      (w.batch + w.refused + count_foreground rs ≡ v.batch + v.refused + count_foreground (r ∷ rs))
      × (w.bg_batch + count_background rs ≡ v.bg_batch + count_background (r ∷ rs))
unfolding sort_one
sort_one-counts limit v true rs = ground arith
sort_one-counts limit v false rs = ground arith

-- The inner loop puts every foreground request into the batch or refuses it, and every background
-- request into the waiting batch.
pub sort_requests-counts :
    (limit : ℕ) (v : Sorting) (rs : List Bool)
    → let w = sort_requests limit v rs in
      (w.batch + w.refused ≡ v.batch + v.refused + count_foreground rs)
      × (w.bg_batch ≡ v.bg_batch + count_background rs)
unfolding sort_requests
sort_requests-counts limit v [] = omega arith
sort_requests-counts limit v (r ∷ rs) =
    let (f, b) = sort_one-counts limit v r rs in
    let (f', b') = sort_requests-counts limit (sort_one limit v r) rs in omega arith

count_foreground-append :
    (xs ys : List Bool) → count_foreground (xs ++ ys) ≡ count_foreground xs + count_foreground ys
count_foreground-append [] ys = omega arith
count_foreground-append (true ∷ xs) ys = count_foreground-append xs ys
count_foreground-append (false ∷ xs) ys = omega (arith, count_foreground-append xs ys)

pub count_foreground-reverse :
    (xs : List Bool) → count_foreground (reverse xs) ≡ count_foreground xs
count_foreground-reverse [] = refl
count_foreground-reverse (true ∷ xs) =
    rw (reverse-cons true xs, count_foreground-append (reverse xs) (true ∷ []))
      (omega (arith, count_foreground-reverse xs))
count_foreground-reverse (false ∷ xs) =
    rw (reverse-cons false xs, count_foreground-append (reverse xs) (false ∷ []))
      (omega (arith, count_foreground-reverse xs))

-- The foreground queries that have met their fate or are in a running task.
abbrev pub accounted : Dispatcher → ℕ
accounted d = d.hit + d.miss + d.refused + open_requests d.fg_tasks + d.lost

abbrev pub IsCounted : Dispatcher → Type 0
IsCounted d = d.total ≡ accounted d % word

spawn_foreground-IsCounted :
    (n : ℕ) (d : Dispatcher) → d.total ≡ (accounted d + n) % word → IsCounted (spawn_foreground n d)
unfolding spawn_foreground
spawn_foreground-IsCounted n d h = ground arith

spawn_background-total :
    (n : ℕ) (d : Dispatcher)
    → d.total ≡ (accounted d + n) % word
    → (spawn_background d).total ≡ (accounted (spawn_background d) + n) % word
unfolding spawn_background
spawn_background-total n d h = ground arith

receive-IsCounted :
    (limit : ℕ) (d : Dispatcher) (requests : List Bool)
    → IsCounted d
    → IsCounted (receive limit d requests)
unfolding receive reap
receive-IsCounted limit d [] h = h
receive-IsCounted limit d (r ∷ rs) h =
    let requests = r ∷ rs in
    let first = begin_sorting d (length requests) in
    let v = sort_requests limit first (reverse requests) in
    let (f, b) = sort_requests-counts limit first (reverse requests) in
    let same = count_foreground-reverse requests in
    let e = after_sorting d requests v in
    spawn_foreground-IsCounted v.batch (spawn_background e)
      (spawn_background-total v.batch e (omega arith))

Step-IsCounted : {limit : ℕ} {d e : Dispatcher} → Step limit d e → IsCounted d → IsCounted e
Step-IsCounted {limit} {d} (receives requests) h = receive-IsCounted limit d requests h
Step-IsCounted (answers_hit a) h = omega (arith, (Answers-counts a).1)
Step-IsCounted (answers_miss a) h = omega (arith, (Answers-counts a).1)
Step-IsCounted (answers_background a) h = h
Step-IsCounted (ends_foreground e) h = omega (arith, (Ends-counts e).1)
Step-IsCounted (ends_background e) h = h

-- In every state that the dispatcher reaches, the total of foreground queries is, in its 64 bits,
-- the number of those answered from the cache, answered otherwise, refused, not yet answered in a
-- running task, or dropped with their batch.
pub Reach-IsCounted : {limit : ℕ} {d : Dispatcher} → Reach limit start d → IsCounted d
Reach-IsCounted here = omega arith
Reach-IsCounted (next r st) = Step-IsCounted st (Reach-IsCounted r)
