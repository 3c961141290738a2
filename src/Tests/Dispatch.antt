-- ===== src/Tests/Dispatch.antt =====
-- Concrete inputs for the theorems on the dispatcher.
use smartdns_rs.Prelude.{[], arith, false, refl, suc, true, zero, ℕ, ◌+◌, ◌∷◌, ◌≡◌}
use smartdns_rs.Server.Dispatch.{
  sort_requests, sort_one, spawn_background, spawn_foreground, reap, Dispatcher, start, receive,
}
use smartdns_rs.Server.Dispatch.Balance.{IsBalanced, Reach-IsBalanced}
use smartdns_rs.Server.Dispatch.Loss.{receive_dropped}
use smartdns_rs.Server.Dispatch.Tasks.{Reach, here, next, receives}
use smartdns_rs.Server.Dispatch.Totals.{IsCounted, Reach-IsCounted}

-- One query arrives alone, several times.
abbrev arrivals : ℕ → Dispatcher
arrivals zero = start
arrivals (suc n) = receive 0 (arrivals n) (false ∷ [])

reaches : (n : ℕ) → Reach 0 start (arrivals n)
reaches zero = here
reaches (suc n) = next (reaches n) (receives (false ∷ []))

Reach-IsBalanced_example : IsBalanced (arrivals 65)
Reach-IsBalanced_example = Reach-IsBalanced (reaches 65)

Reach-IsCounted_example : IsCounted (arrivals 65)
Reach-IsCounted_example = Reach-IsCounted (reaches 65)

-- The sixty-fifth query alone is lost.
last_lost : (arrivals 65).lost ≡ 1
unfolding receive sort_requests sort_one spawn_background spawn_foreground reap
last_lost = refl

receive_dropped_example :
    ((receive 0 (arrivals 64) (false ∷ true ∷ [])).fg_tasks ≡ (arrivals 64).fg_tasks)
    × ((receive 0 (arrivals 64) (false ∷ true ∷ [])).refused ≡ (arrivals 64).refused)
    × ((receive 0 (arrivals 64) (false ∷ true ∷ [])).lost ≡ (arrivals 64).lost + 1)
unfolding receive sort_requests sort_one spawn_background spawn_foreground reap
receive_dropped_example = receive_dropped (arrivals 64) (false ∷ true ∷ []) (omega arith)
