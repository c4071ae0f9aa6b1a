-- ===== src/RateLimit/Window.antt =====
-- How many requests a window lets through, and whom a request is counted against.
use native.Mathlib.Nat.{add-zero}
use realtime_chat.Common.{
  length, int64_max, to_string, ℕ, suc, ◌+◌, ◌*◌, ◌≤◌, ◌<◌, ◌≡◌, ◌≢◌, ◌↔◌, Bool, true, false, none,
  some, List, [], ◌∷◌, ◌++◌, arith, contains, leb, nat_eq, Bytes, codes, bytes_eq, ℤ, pos,
}
use realtime_chat.Errors.{ok, exception, err, rate_limited}
use realtime_chat.Cache.Store.{Store, ticks_per_second, is_expired, deadline}
use realtime_chat.Cache.Store.View.{value_at}
use realtime_chat.Cache.Store.Counters.{IsCounting, incr_fresh, incr-IsCounting, value_at-incr_ne}
use realtime_chat.RateLimit.{limit_key, check, enforce}

-- Requests of one identity in one bucket, at the given times.
pub hits : Bytes → Bytes → ℤ → ℤ → List ℕ → Store → Store
hits bucket identity max window [] st = st
hits bucket identity max window (now ∷ times) st =
    hits bucket identity max window times (check true now bucket identity max window st).1

abbrev pub AllBefore : ℕ → List ℕ → Type 0
AllBefore bound [] = Unit {0}
AllBefore bound (t ∷ ts) = (t < bound) × AllBefore bound ts

module _ (bucket identity : Bytes) (m w : ℕ) where
  check-IsCounting :
      (now n expiry : ℕ) (st : Store)
      → n ≤ int64_max
      → now < expiry
      → IsCounting (limit_key bucket identity) n (some expiry) st
      → ((check true now bucket identity (pos (suc m)) (pos (suc w)) st).0.allowed
          ≡ leb (suc n) (suc m))
        × IsCounting
            (limit_key bucket identity)
            (suc n)
            (some expiry)
            (check true now bucket identity (pos (suc m)) (pos (suc w)) st).1
  unfolding check is_expired
  check-IsCounting now n expiry st b h c = ground (
    arith,
    incr-IsCounting now (limit_key bucket identity) (pos (suc w)) n (some expiry) st b
        (ground arith) c,
  )

  hits-IsCounting :
      (times : List ℕ) (n expiry : ℕ) (st : Store)
      → n + length times ≤ int64_max
      → AllBefore expiry times
      → IsCounting (limit_key bucket identity) n (some expiry) st
      → IsCounting
          (limit_key bucket identity)
          (n + length times)
          (some expiry)
          (hits bucket identity (pos (suc m)) (pos (suc w)) times st)
  unfolding hits
  hits-IsCounting [] n expiry st b h c = rw (add-zero n) c
  hits-IsCounting (t ∷ times) n expiry st b h c =
      let counted = check-IsCounting t n expiry st (omega arith) h.0 c in
      let later =
        hits-IsCounting times (suc n) expiry
          (check true t bucket identity (pos (suc m)) (pos (suc w)) st).1 (omega arith) h.1
          counted.1 in
      let e : n + suc (length times) ≡ suc n + length times = omega arith in rw e later

  check_fresh :
      (now : ℕ) (st : Store)
      → value_at now (limit_key bucket identity) st ≡ none
      → ((check true now bucket identity (pos (suc m)) (pos (suc w)) st).0.allowed ≡ true)
        × IsCounting
            (limit_key bucket identity)
            1
            (some (now + suc w * ticks_per_second))
            (check true now bucket identity (pos (suc m)) (pos (suc w)) st).1
  unfolding check deadline
  check_fresh now st h =
      ground (arith, incr_fresh now (limit_key bucket identity) (pos (suc w)) st h)

  -- The counter after the first request of a window and those that followed.
  window-IsCounting :
      (start : ℕ) (times : List ℕ) (st : Store)
      → length times < int64_max
      → value_at start (limit_key bucket identity) st ≡ none
      → AllBefore (start + suc w * ticks_per_second) times
      → IsCounting
          (limit_key bucket identity)
          (1 + length times)
          (some (start + suc w * ticks_per_second))
          (hits bucket identity (pos (suc m)) (pos (suc w)) (start ∷ times) st)
  unfolding hits
  window-IsCounting start times st b fresh before =
      hits-IsCounting times 1 (start + suc w * ticks_per_second) _ (omega arith) before
        (check_fresh start st fresh).1

-- Let a key stand for nothing when its first request arrives, and let fewer requests than the
-- greatest 64-bit integer follow before the window of that request ends. A further request
-- within the window is let through exactly while the number of requests so far, itself included,
-- is at most the maximum.
pub check-window :
    (bucket identity : Bytes) (m w start now : ℕ) (times : List ℕ) (st : Store)
    → length times < int64_max
    → value_at start (limit_key bucket identity) st ≡ none
    → AllBefore (start + suc w * ticks_per_second) times
    → now < start + suc w * ticks_per_second
    → (check true now bucket identity
        (pos (suc m))
        (pos (suc w))
        (hits bucket identity (pos (suc m)) (pos (suc w)) (start ∷ times) st)).0.allowed
      ≡ leb (length times + 2) (suc m)
check-window bucket identity m w start now times st b fresh before h =
    let e : suc (1 + length times) ≡ length times + 2 = omega arith in
    rw e at (
      (check-IsCounting bucket identity m w now (1 + length times)
        (start + suc w * ticks_per_second)
        (hits bucket identity (pos (suc m)) (pos (suc w)) (start ∷ times) st) (omega arith) h
        (window-IsCounting bucket identity m w start times st b fresh before)).0)

-- Let a key stand for nothing when its first request arrives, and let fewer requests than the
-- greatest 64-bit integer follow before the window of that request ends. The next request after
-- the window has ended is let through.
pub check-after_window :
    (bucket identity : Bytes) (m w start now : ℕ) (times : List ℕ) (st : Store)
    → length times < int64_max
    → value_at start (limit_key bucket identity) st ≡ none
    → AllBefore (start + suc w * ticks_per_second) times
    → start + suc w * ticks_per_second ≤ now
    → (check true now bucket identity
        (pos (suc m))
        (pos (suc w))
        (hits bucket identity (pos (suc m)) (pos (suc w)) (start ∷ times) st)).0.allowed
      ≡ true
unfolding is_expired
check-after_window bucket identity m w start now times st b fresh before h =
    (check_fresh bucket identity m w now _
      (rw (window-IsCounting bucket identity m w start times st b fresh before) (ground arith))).0

-- `enforce` throws the rate-limit exception exactly when `check` does not allow the request, and
-- otherwise returns what `check` returned; either way the request has been counted.
pub enforce-check :
    (enabled : Bool) (now : ℕ) (bucket identity : Bytes) (max window : ℤ) (st : Store)
    → (((enforce enabled now bucket identity max window st).0
          ≡ err (
              exception rate_limited "Rate limit exceeded, please retry later" (
                codes "retry_after="
                ++ to_string
                    (check enabled now bucket identity max window st).0.retry_after_seconds)))
        ↔ ((check enabled now bucket identity max window st).0.allowed ≡ false))
      × (((check enabled now bucket identity max window st).0.allowed ≡ true)
          → (enforce enabled now bucket identity max window st).0
            ≡ ok (check enabled now bucket identity max window st).0)
      × ((enforce enabled now bucket identity max window st).1
          ≡ (check enabled now bucket identity max window st).1)
unfolding enforce
enforce-check enabled now bucket identity max window st = ground arith

split_at_colon :
    (b c i j : Bytes)
    → contains b':' b ≡ false
    → contains b':' c ≡ false
    → b ++ (b':' ∷ i) ≡ c ++ (b':' ∷ j)
    → (b ≡ c) × (i ≡ j)
unfolding contains
split_at_colon [] [] i j hb hc e = ground arith
split_at_colon [] (y ∷ c) i j hb hc e = absurd (ground arith)
split_at_colon (x ∷ b) [] i j hb hc e = absurd (ground arith)
split_at_colon (x ∷ b) (y ∷ c) i j hb hc e = ground (arith, split_at_colon b c i j)

-- Buckets without a colon never share a counter: the key determines the bucket and the identity.
pub limit_key-injective :
    (b c i j : Bytes)
    → contains b':' b ≡ false
    → contains b':' c ≡ false
    → limit_key b i ≡ limit_key c j
    → (b ≡ c) × (i ≡ j)
unfolding limit_key
limit_key-injective b c i j hb hc e = split_at_colon b c i j hb hc (ground arith)

-- A request of another key changes neither the answer to a request nor whether its window is over.
pub value_at-check_ne :
    (now later : ℕ) (b c i j : Bytes) (max window : ℤ) (st : Store)
    → limit_key c j ≢ limit_key b i
    → value_at later (limit_key c j) (check true now b i max window st).1
      ≡ value_at later (limit_key c j) st
unfolding check
value_at-check_ne now later b c i j max window st ne =
    ground (arith, value_at-incr_ne now later (limit_key b i) (limit_key c j) window st ne)
