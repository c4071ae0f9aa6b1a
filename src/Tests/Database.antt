-- ===== src/Tests/Database.antt =====
-- Witnesses for the pool of connections.
use realtime_chat.Common.{length, ℕ, ◌+◌, ◌≤◌, ◌≡◌, refl, false, List, [], ◌∷◌, codes}
use realtime_chat.Database.Pool.{
  Opening, opens, fails, Pool, make_connection, fill, slots, new_pool, occurs, remove_one,
  take_front, take_idle, check_out, Step, takes, checks, step, steps,
}
use realtime_chat.Database.Pool.Leases.{leases-unshared}
use realtime_chat.Database.Pool.Starvation.{lost-starves}

abbrev all_open : ℕ → Opening
all_open n = opens

abbrev two_idle : Pool
two_idle = record {
  size = 2;
  idle = 0 ∷ 1 ∷ [];
  shutting_down = false;
  checking = [];
  leased = [];
  opened = 2;
  lost = 0;
}

abbrev one_idle : Pool
one_idle = record two_idle { size = 1; idle = 0 ∷ []; opened = 1 }

-- A dead connection is replaced by a new one.
abbrev replacing : List Step
replacing = takes ∷ checks 0 false opens ∷ []

replacing-leased : (steps replacing two_idle).leased ≡ 2 ∷ []
unfolding steps step take_idle take_front check_out occurs remove_one make_connection
replacing-leased = refl

abbrev losing : List Step
losing = takes ∷ checks 0 false (fails (codes "down")) ∷ []

abbrev retrying : List Step
retrying = takes ∷ []

leases-unshared_example :
    ((c : ℕ)
      → occurs c (steps replacing two_idle).idle
          + occurs c (steps replacing two_idle).checking
          + occurs c (steps replacing two_idle).leased
        ≤ 1)
    × ((steps replacing two_idle).shutting_down ≡ false
        → length (steps replacing two_idle).idle
            + length (steps replacing two_idle).checking
            + length (steps replacing two_idle).leased
            + (steps replacing two_idle).lost
          ≡ slots 2)
unfolding new_pool fill make_connection
leases-unshared_example = leases-unshared all_open 2 two_idle replacing refl

lost-starves_example :
    ((steps retrying (steps losing one_idle)).leased ≡ [])
    × ((steps retrying (steps losing one_idle)).idle ≡ [])
unfolding new_pool fill steps step take_idle take_front check_out occurs remove_one make_connection
lost-starves_example = lost-starves all_open 1 one_idle losing retrying refl refl
