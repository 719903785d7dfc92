-- ===== src/Examples/Pumps.antt =====
-- The pumps of app/scheduler/worker.py with a cap of 2.
use gitlab_reviewer.Prelude.{◌+◌, ◌-◌, ◌<◌, ◌≡◌, refl, List, [], ◌∷◌, All, arith}
use gitlab_reviewer.Worker.Pump.{
  Semaphore, Turns, turn, done, pumps, looping, claims_one, cap_of, live_workers, IsCapped,
  reached-IsCapped, two_pumps-live_workers,
}

one_claimed : Turns 2 [] (looping 1 1 ∷ [])
one_claimed = turn (pumps tt refl) (claims_one 2 2 0 [] (omega arith) done)

reached-IsCapped_example : All (IsCapped 2) (looping 1 1 ∷ [])
reached-IsCapped_example = reached-IsCapped 2 one_claimed

two_pumps-live_workers_example :
    (all : List Semaphore) × Turns 2 [] all
    × (live_workers all ≡ 2 + (2 - 1))
    × (cap_of 2 < live_workers all)
two_pumps-live_workers_example = two_pumps-live_workers 2 (omega arith)
