-- ===== src/Database/Pool/Leases.antt =====
-- No connection has two holders, and a slot is lost for good when a replacement cannot be opened.
use realtime_chat.Common.{
  length, length-append, ℕ, zero, suc, ◌+◌, ◌≤◌, ◌≡◌, refl, ap, ◌∙◌, inl, inr, Bool, false, List,
  [], ◌∷◌, ◌++◌, arith, if◌then◌else◌, Bool-cases, ◌==◌, bytes_eq, nat_eq,
}
use realtime_chat.Errors.{Result, ok, err}
use realtime_chat.Database.Pool.{
  and_then, unfilled, push_new, Opening, opens, Pool, make_connection, fill, slots, new_pool,
  occurs, remove_one, take_front, take_idle, check_out, release, shut_down, Step, takes, shuts_down,
  checks, releases, step, steps,
}

abbrev pub holders : ℕ → Pool → ℕ
holders c p = occurs c p.idle + occurs c p.checking + occurs c p.leased

pub record IsOwned (p : Pool) : Type 0 where
  pub one_holder : (c : ℕ) → holders c p ≤ 1
  pub not_yet : (c : ℕ) → p.opened ≤ c → holders c p ≡ 0
  pub no_more : length p.idle + length p.checking + length p.leased + p.lost ≤ p.size
  pub slots_kept :
      p.shutting_down ≡ false
      → length p.idle + length p.checking + length p.leased + p.lost ≡ p.size

occurs-append : (c : ℕ) (xs ys : List ℕ) → occurs c (xs ++ ys) ≡ occurs c xs + occurs c ys
unfolding occurs
occurs-append c [] ys = omega arith
occurs-append c (x ∷ xs) ys = ground (arith, occurs-append c xs ys)

occurs-remove_one :
    (c x : ℕ) (xs : List ℕ)
    → (occurs x xs == 0) ≡ false
    → occurs c (remove_one x xs) + (if x == c then 1 else 0) ≡ occurs c xs
unfolding occurs remove_one
occurs-remove_one c x [] h = ground arith
occurs-remove_one c x (y ∷ xs) h = ground (arith, occurs-remove_one c x xs)

length-remove_one :
    (x : ℕ) (xs : List ℕ) → (occurs x xs == 0) ≡ false → length (remove_one x xs) + 1 ≡ length xs
unfolding occurs remove_one
length-remove_one x [] h = ground arith
length-remove_one x (y ∷ xs) h = ground (arith, length-remove_one x xs)

take_front-IsOwned : (cs : List ℕ) (p : Pool) → p.idle ≡ cs → IsOwned p → IsOwned (take_front cs p)
unfolding take_front occurs
take_front-IsOwned [] p q h = h
take_front-IsOwned (c ∷ cs) p q h = record {
  one_holder = λ x. ground (arith, h.one_holder x, ap (occurs x) q);
  not_yet = λ x l. ground (arith, h.not_yet x l, ap (occurs x) q);
  no_more = ground (arith, h.no_more, ap length q);
  slots_kept = λ r. ground (arith, h.slots_kept r, ap length q);
}

take_idle-IsOwned : (p : Pool) → IsOwned p → IsOwned (take_idle p)
unfolding take_idle
take_idle-IsOwned p h = elim (Bool-cases p.shutting_down) [
  | inl e ↦ simp e h
  | inr e ↦ simp e (take_front-IsOwned p.idle p refl h)
]

abbrev same : ℕ → ℕ → ℕ
same x c = if x == c then 1 else 0

occurs-cons : (c x : ℕ) (xs : List ℕ) → occurs c (x ∷ xs) ≡ same x c + occurs c xs
unfolding occurs
occurs-cons c x xs = ground arith

same_refl : (c : ℕ) → same c c ≡ 1
same_refl c = ground arith

occurs-push : (c x : ℕ) (xs : List ℕ) → occurs c (xs ++ (x ∷ [])) ≡ occurs c xs + same x c
unfolding occurs
occurs-push c x xs = ground (arith, occurs-append c xs (x ∷ []))

check_out-IsOwned :
    (c : ℕ) (is_open : Bool) (opening : Opening) (p : Pool)
    → IsOwned p
    → IsOwned (check_out c is_open opening p)
unfolding check_out make_connection
check_out-IsOwned c o opens p h = record {
  one_holder = λ x. ground (
    arith,
    h.one_holder x,
    h.not_yet x,
    occurs-remove_one x c p.checking,
    occurs-cons x c p.leased,
    occurs-cons x p.opened p.leased,
  );
  not_yet = λ x l. ground (
    arith,
    h.not_yet x,
    occurs-remove_one x c p.checking,
    occurs-cons x c p.leased,
    occurs-cons x p.opened p.leased,
  );
  no_more = ground (arith, h.no_more, length-remove_one c p.checking);
  slots_kept = λ r. ground (arith, h.slots_kept, length-remove_one c p.checking);
}
check_out-IsOwned c o _ p h = record {
  one_holder = λ x.
      ground (arith, h.one_holder x, occurs-remove_one x c p.checking, occurs-cons x c p.leased);
  not_yet = λ x l.
      ground (arith, h.not_yet x, occurs-remove_one x c p.checking, occurs-cons x c p.leased);
  no_more = ground (arith, h.no_more, length-remove_one c p.checking);
  slots_kept = λ r. ground (arith, h.slots_kept, length-remove_one c p.checking);
}

release-IsOwned : (c : ℕ) (p : Pool) → IsOwned p → IsOwned (release c p)
unfolding release
release-IsOwned c p h = record {
  one_holder =
      λ x. ground (arith, h.one_holder x, occurs-remove_one x c p.leased, occurs-push x c p.idle);
  not_yet =
      λ x l. ground (arith, h.not_yet x, occurs-remove_one x c p.leased, occurs-push x c p.idle);
  no_more = ground (arith, h.no_more, length-remove_one c p.leased, length-append p.idle (c ∷ []));
  slots_kept = λ r.
      ground (arith, h.slots_kept, length-remove_one c p.leased, length-append p.idle (c ∷ []));
}

shut_down-IsOwned : (p : Pool) → IsOwned p → IsOwned (shut_down p)
unfolding shut_down occurs
shut_down-IsOwned p h = record {
  one_holder = λ x. ground (arith, h.one_holder x);
  not_yet = λ x l. ground (arith, h.not_yet x);
  no_more = ground arith;
  slots_kept = λ r. ground arith;
}

step-IsOwned : (s : Step) (p : Pool) → IsOwned p → IsOwned (step s p)
unfolding step
step-IsOwned takes p h = take_idle-IsOwned p h
step-IsOwned shuts_down p h = shut_down-IsOwned p h
step-IsOwned (checks c o opening) p h = check_out-IsOwned c o opening p h
step-IsOwned (releases c) p h = release-IsOwned c p h

pub steps-IsOwned : (ss : List Step) (p : Pool) → IsOwned p → IsOwned (steps ss p)
unfolding steps
steps-IsOwned [] p h = h
steps-IsOwned (s ∷ ss) p h = steps-IsOwned ss (step s p) (step-IsOwned s p h)

-- A pool in construction: nothing is taken, and `n` connections are to come.
record IsFilling (n : ℕ) (p : Pool) : Type 0 where
  at_most_once : (c : ℕ) → occurs c p.idle ≤ 1
  none_above : (c : ℕ) → p.opened ≤ c → occurs c p.idle ≡ 0
  to_come : length p.idle + n ≡ p.size
  none_taken : p.checking ≡ []
  none_leased : p.leased ≡ []
  none_lost : p.lost ≡ 0

IsFilling-IsOwned : (p : Pool) → IsFilling 0 p → IsOwned p
unfolding occurs
IsFilling-IsOwned p h = record {
  one_holder = λ x.
      ground (arith, h.at_most_once x, ap (occurs x) h.none_taken, ap (occurs x) h.none_leased);
  not_yet = λ x l.
      ground (arith, h.none_above x l, ap (occurs x) h.none_taken, ap (occurs x) h.none_leased);
  no_more = ground (arith, h.to_come, h.none_lost, ap length h.none_taken, ap length h.none_leased);
  slots_kept =
      λ r. ground (arith, h.to_come, h.none_lost, ap length h.none_taken, ap length h.none_leased);
}

abbrev FillsTo : ℕ → Result Pool → Type 0
FillsTo size (ok q) = IsFilling 0 q × (q.size ≡ size)
FillsTo size (err e) = Unit

push-IsFilling :
    (n : ℕ) (p : Pool)
    → IsFilling (suc n) p
    → IsFilling n (record p { idle = p.idle ++ (p.opened ∷ []); opened = p.opened + 1 })
push-IsFilling n p h = record {
  at_most_once =
      λ c. ground (arith, h.at_most_once c, h.none_above c, occurs-push c p.opened p.idle);
  none_above = λ c l. ground (arith, h.none_above c, occurs-push c p.opened p.idle);
  to_come = ground (arith, h.to_come, length-append p.idle (p.opened ∷ []));
  none_taken = h.none_taken;
  none_leased = h.none_leased;
  none_lost = h.none_lost;
}

fill-FillsTo :
    (openings : ℕ → Opening) (n : ℕ) (p : Pool) → IsFilling n p → FillsTo p.size (fill openings n p)
unfolding fill make_connection
fill-FillsTo openings zero p h = (h, refl)
fill-FillsTo openings (suc n) p h = go (fill-FillsTo openings n) (openings p.opened)
  where
    go :
        ((q : Pool) → IsFilling n q → FillsTo q.size (fill openings n q))
        → (o : Opening)
        → FillsTo p.size (and_then (push_new (make_connection o p.opened) p) (fill openings n))
    go filled opens =
        filled (record p { idle = p.idle ++ (p.opened ∷ []); opened = p.opened + 1 })
          (push-IsFilling n p h)
    go filled _ = tt

unfilled-IsFilling : (size : ℕ) → IsFilling (slots size) (unfilled size)
unfolding occurs
unfilled-IsFilling size = record {
  at_most_once = λ c. ground arith;
  none_above = λ c l. refl;
  to_come = ground arith;
  none_taken = refl;
  none_leased = refl;
  none_lost = refl;
}

pub new_pool-IsOwned :
    (openings : ℕ → Opening) (size : ℕ) (p : Pool)
    → new_pool openings size ≡ ok p
    → IsOwned p × (p.size ≡ slots size)
unfolding new_pool
new_pool-IsOwned openings size p e =
    let (filled, sized) =
      rw e at (fill-FillsTo openings (slots size) (unfilled size) (unfilled-IsFilling size)) in
    (IsFilling-IsOwned p filled, sized)

size-take_front : (cs : List ℕ) (p : Pool) → (take_front cs p).size ≡ p.size
unfolding take_front
size-take_front [] p = refl
size-take_front (c ∷ cs) p = refl

size-step : (s : Step) (p : Pool) → (step s p).size ≡ p.size
unfolding step take_idle check_out release shut_down make_connection
size-step takes p = ground (arith, size-take_front p.idle p)
size-step shuts_down p = refl
size-step (checks c o opens) p = ground arith
size-step (checks c o _) p = ground arith
size-step (releases c) p = ground arith

pub size-steps : (ss : List Step) (p : Pool) → (steps ss p).size ≡ p.size
unfolding steps
size-steps [] p = refl
size-steps (s ∷ ss) p = ground (arith, size-steps ss (step s p), size-step s p)

-- In every interleaving of a pool that was built, no connection is at once idle, taken and leased,
-- or in one of these twice; and until the pool shuts down its slots are the idle connections, the
-- ones taken, the leased ones, and those lost to an `acquire` that threw.
pub leases-unshared :
    (openings : ℕ → Opening) (size : ℕ) (p : Pool) (interleaving : List Step)
    → new_pool openings size ≡ ok p
    → ((c : ℕ)
        → occurs c (steps interleaving p).idle
            + occurs c (steps interleaving p).checking
            + occurs c (steps interleaving p).leased
          ≤ 1)
      × ((steps interleaving p).shutting_down ≡ false
          → length (steps interleaving p).idle
              + length (steps interleaving p).checking
              + length (steps interleaving p).leased
              + (steps interleaving p).lost
            ≡ slots size)
leases-unshared openings size p interleaving e =
    let (owned, sized) = new_pool-IsOwned openings size p e in
    let h = steps-IsOwned interleaving p owned in
    (h.one_holder, λ r. h.slots_kept r ∙ size-steps interleaving p ∙ sized)
