-- ===== src/Database/Pool.antt =====
-- The pool of database connections: include/rtc/database/connection_pool.hpp and
-- src/database/connection_pool.cpp, as the steps of its threads. A connection is a number, given in
-- the order of opening. `acquire` is two steps, since it unlocks the mutex before it looks at the
-- connection. What pqxx does (whether a connection is open, how an attempt to open one ends) comes
-- with the step.
pub mod Leases
pub mod Starvation
use realtime_chat.Common.{
  ℕ, zero, suc, ◌+◌, Bool, true, false, not, List, [], ◌∷◌, ◌++◌, if◌then◌else◌, Bytes, ◌==◌,
  bytes_eq, nat_eq,
}
use realtime_chat.Errors.{Result, ok, err, throw, database}

pub data Opening : Type 0 where
  opens not_open : Opening
  fails : Bytes → Opening

pub record Pool : Type 0 where
  pub size : ℕ
  pub idle : List ℕ
  pub shutting_down : Bool
  -- Taken from the queue by an `acquire` that has not returned; held by a lease.
  pub checking : List ℕ
  pub leased : List ℕ
  -- The connections opened so far, and the calls of `acquire` that threw after taking one.
  pub opened : ℕ
  pub lost : ℕ

unfoldable pub make_connection : Opening → ℕ → Result ℕ
make_connection opens n = ok n
make_connection not_open n = throw database "Database connection is not open" []
make_connection (fails what) n = throw database "Failed to open database connection" what

abbrev pub push_new : Result ℕ → Pool → Result Pool
push_new (ok c) p = ok (record p { idle = p.idle ++ (c ∷ []); opened = p.opened + 1 })
push_new (err e) p = err e

abbrev pub and_then : Result Pool → (Pool → Result Pool) → Result Pool
and_then (ok p) k = k p
and_then (err e) k = err e

-- The loop of the constructor; `openings n` is how the opening of connection `n` ends.
unfoldable pub fill : (ℕ → Opening) → ℕ → Pool → Result Pool
unfolding make_connection
fill openings zero p = ok p
fill openings (suc n) p =
    and_then (push_new (make_connection (openings p.opened) p.opened) p) (fill openings n)

abbrev pub slots : ℕ → ℕ
slots size = if size == 0 then 1 else size

-- The pool at the start of the constructor's body.
abbrev pub unfilled : ℕ → Pool
unfilled size = record {
  size = slots size;
  idle = [];
  shutting_down = false;
  checking = [];
  leased = [];
  opened = 0;
  lost = 0;
}

unfoldable pub new_pool : (ℕ → Opening) → ℕ → Result Pool
unfolding fill
new_pool openings size = fill openings (slots size) (unfilled size)

unfoldable pub occurs : ℕ → List ℕ → ℕ
occurs c [] = 0
occurs c (x ∷ xs) = if x == c then 1 + occurs c xs else occurs c xs

unfoldable pub remove_one : ℕ → List ℕ → List ℕ
remove_one c [] = []
remove_one c (x ∷ xs) = if x == c then xs else x ∷ remove_one c xs

-- The first half of `acquire`: it waits while nothing is idle, and throws when shutting down.
unfoldable pub take_front : List ℕ → Pool → Pool
take_front [] p = p
take_front (c ∷ cs) p = record p { idle = cs; checking = c ∷ p.checking }

unfoldable pub take_idle : Pool → Pool
unfolding take_front
take_idle p = if p.shutting_down then p else take_front p.idle p

abbrev pub replaced : Result ℕ → Pool → Pool
replaced (ok c) p = record p { leased = c ∷ p.leased; opened = p.opened + 1 }
replaced (err e) p = record p { lost = p.lost + 1 }

-- The second half, for the connection taken: a lease, on a new connection if the old one is dead.
unfoldable pub check_out : ℕ → Bool → Opening → Pool → Pool
unfolding make_connection
check_out c is_open opening p =
    let taken = record p { checking = remove_one c p.checking } in
    if occurs c p.checking == 0
    then p
    else if is_open
    then record taken { leased = c ∷ p.leased }
    else replaced (make_connection opening p.opened) taken

-- The end of a lease.
unfoldable pub release : ℕ → Pool → Pool
release c p =
    let ended = record p { leased = remove_one c p.leased } in
    if occurs c p.leased == 0
    then p
    else if p.shutting_down
    then ended
    else record ended { idle = p.idle ++ (c ∷ []) }

unfoldable pub shut_down : Pool → Pool
shut_down p = record p { shutting_down = true; idle = [] }

pub data Step : Type 0 where
  takes shuts_down : Step
  checks : ℕ → Bool → Opening → Step
  releases : ℕ → Step

unfoldable pub step : Step → Pool → Pool
unfolding take_idle check_out release shut_down
step takes p = take_idle p
step shuts_down p = shut_down p
step (checks c is_open opening) p = check_out c is_open opening p
step (releases c) p = release c p

unfoldable pub steps : List Step → Pool → Pool
steps [] p = p
steps (s ∷ ss) p = steps ss (step s p)
