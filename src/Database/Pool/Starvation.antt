-- ===== src/Database/Pool/Starvation.antt =====
-- What becomes of a pool whose database is away for as many leases as the pool has slots.
use realtime_chat.Common.{length, ℕ, ◌≡◌, refl, ap, List, [], ◌∷◌, arith}
use realtime_chat.Errors.{ok}
use realtime_chat.Database.Pool.{
  Opening, Pool, make_connection, slots, new_pool, occurs, take_front, take_idle, check_out,
  release, shut_down, Step, takes, shuts_down, checks, releases, step, steps,
}
use realtime_chat.Database.Pool.Leases.{new_pool-IsOwned, steps-IsOwned, size-steps}

record IsStarved (p : Pool) : Type 0 where
  no_idle : p.idle ≡ []
  no_checking : p.checking ≡ []
  no_lease : p.leased ≡ []

step-IsStarved : (s : Step) (p : Pool) → IsStarved p → IsStarved (step s p)
unfolding step take_idle take_front check_out release shut_down make_connection occurs
step-IsStarved takes p h = ground (arith, ap (λ i. take_front i p) h.no_idle)
step-IsStarved shuts_down p h = ground arith
step-IsStarved (checks c o opening) p h = ground (arith, ap (occurs c) h.no_checking)
step-IsStarved (releases c) p h = ground (arith, ap (occurs c) h.no_lease)

steps-IsStarved : (ss : List Step) (p : Pool) → IsStarved p → IsStarved (steps ss p)
unfolding steps
steps-IsStarved [] p h = h
steps-IsStarved (s ∷ ss) p h = steps-IsStarved ss (step s p) (step-IsStarved s p h)

length-none : (xs : List ℕ) → length xs ≡ 0 → xs ≡ []
length-none [] h = refl
length-none (x ∷ xs) h = ground arith

-- A pool that was built, of which as many calls of `acquire` as it has slots have taken a dead
-- connection and could not open another, gives no lease ever after, whatever the database does then.
pub lost-starves :
    (openings : ℕ → Opening) (size : ℕ) (p : Pool) (before after : List Step)
    → new_pool openings size ≡ ok p
    → (steps before p).lost ≡ slots size
    → ((steps after (steps before p)).leased ≡ []) × ((steps after (steps before p)).idle ≡ [])
lost-starves openings size p before after e all_lost =
    let (owned, sized) = new_pool-IsOwned openings size p e in
    let h = steps-IsOwned before p owned in
    let s = size-steps before p in
    let starved : IsStarved (steps before p) = record {
      no_idle = length-none (steps before p).idle (ground (arith, h.no_more));
      no_checking = length-none (steps before p).checking (ground (arith, h.no_more));
      no_lease = length-none (steps before p).leased (ground (arith, h.no_more));
    } in
    let r = steps-IsStarved after (steps before p) starved in (r.no_lease, r.no_idle)
