-- ===== src/Server/Dispatch/Balance.antt =====
-- The counter of active queries against the requests that the dispatcher holds.
use smartdns_rs.Prelude.{
  Bool, List, [], arith, length, length-reverse, reverse, suc, ℕ, ◌%◌, ◌+◌, ◌∷◌, ◌≡◌,
}
use smartdns_rs.Server.Dispatch.{
  Dispatcher, Sorting, start, word, sort_one, sort_requests, spawn_background, spawn_foreground,
  reap, after_sorting, begin_sorting, receive,
}
use smartdns_rs.Server.Dispatch.Tasks.{
  sizes, Answers-counts, Ends-counts, Step, receives, answers_hit, answers_miss, answers_background,
  ends_foreground, ends_background, Reach, here, next,
}

-- The requests that wait, run, are ended and not reaped, or were dropped.
abbrev pub held : Dispatcher → ℕ
held d = d.bg_batch + sizes d.bg_tasks + sizes d.fg_tasks + d.finished + d.lost

sort_one-balance :
    (limit base : ℕ) (v : Sorting) (r : Bool) (n : ℕ)
    → v.active ≡ (base + v.batch + v.bg_batch + suc n) % word
    → let w = sort_one limit v r in w.active ≡ (base + w.batch + w.bg_batch + n) % word
unfolding sort_one
sort_one-balance limit base v r n h = ground arith

-- The inner loop keeps the balance of the counter and the requests not yet looked at.
sort_requests-balance :
    (limit base : ℕ) (v : Sorting) (rs : List Bool)
    → v.active ≡ (base + v.batch + v.bg_batch + length rs) % word
    → let w = sort_requests limit v rs in w.active ≡ (base + w.batch + w.bg_batch) % word
unfolding sort_requests
sort_requests-balance limit base v [] h = omega arith
sort_requests-balance limit base v (r ∷ rs) h =
    sort_requests-balance limit base (sort_one limit v r) rs
      (sort_one-balance limit base v r (length rs) h)

spawn_background-balance :
    (n : ℕ) (d : Dispatcher)
    → d.active ≡ (held d + n) % word
    → (spawn_background d).active ≡ (held (spawn_background d) + n) % word
unfolding spawn_background
spawn_background-balance n d h = ground arith

spawn_foreground-balance :
    (n : ℕ) (d : Dispatcher)
    → d.active ≡ (held d + n) % word
    → (spawn_foreground n d).active ≡ held (spawn_foreground n d) % word
unfolding spawn_foreground
spawn_foreground-balance n d h = ground arith

reap-balance : (d : Dispatcher) → d.active ≡ held d % word → (reap d).active ≡ held (reap d) % word
unfolding reap
reap-balance d h = omega arith

-- The counter of active queries is the number of requests that the dispatcher holds.
abbrev pub IsBalanced : Dispatcher → Type 0
IsBalanced d = d.active ≡ held d % word

receive-IsBalanced :
    (limit : ℕ) (d : Dispatcher) (requests : List Bool)
    → IsBalanced d
    → IsBalanced (receive limit d requests)
unfolding receive
receive-IsBalanced limit d [] h = h
receive-IsBalanced limit d (r ∷ rs) h =
    let requests = r ∷ rs in
    let first = begin_sorting d (length requests) in
    let v = sort_requests limit first (reverse requests) in
    let base = sizes d.bg_tasks + sizes d.fg_tasks + d.finished + d.lost in
    let sorted : v.active ≡ (base + v.batch + v.bg_batch) % word =
      sort_requests-balance limit base first (reverse requests)
        (omega (arith, length-reverse requests)) in
    let e = after_sorting d requests v in
    let spawned = spawn_background-balance v.batch e (omega arith) in
    reap-balance _ (spawn_foreground-balance v.batch (spawn_background e) spawned)

pub Step-IsBalanced : {limit : ℕ} {d e : Dispatcher} → Step limit d e → IsBalanced d → IsBalanced e
Step-IsBalanced {limit} {d} (receives requests) h = receive-IsBalanced limit d requests h
Step-IsBalanced (answers_hit a) h = omega (arith, (Answers-counts a).0)
Step-IsBalanced (answers_miss a) h = omega (arith, (Answers-counts a).0)
Step-IsBalanced (answers_background a) h = omega (arith, (Answers-counts a).0)
Step-IsBalanced (ends_foreground e) h = omega (arith, (Ends-counts e).0)
Step-IsBalanced (ends_background e) h = omega (arith, (Ends-counts e).0)

-- In every state that the dispatcher reaches, the counter of active queries is, in its 64 bits, the
-- number of requests that wait, are in a task, are in an ended task not yet reaped, or were dropped
-- with their batch.
pub Reach-IsBalanced : {limit : ℕ} {d : Dispatcher} → Reach limit start d → IsBalanced d
Reach-IsBalanced here = omega arith
Reach-IsBalanced (next r st) = Step-IsBalanced st (Reach-IsBalanced r)
