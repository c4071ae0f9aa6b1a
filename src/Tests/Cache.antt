-- ===== src/Tests/Cache.antt =====
-- Witnesses for the cache store, the rate limiter and the authorization cache.
use realtime_chat.Common.{
  length, keep_if, ℕ, suc, ◌+◌, ◌≡◌, refl, true, false, not, ◌&&◌, ◌||◌, none, some, List, [], ◌∷◌,
  arith, lookup, ltb, leb, if◌then◌else◌, codes, ◌==◌, bytes_eq, nat_eq, pos,
}
use realtime_chat.Security.Role.{admin}
use realtime_chat.Cache.Store.{Store, empty_store, is_expired, sadd, sismember, purge_expired}
use realtime_chat.Cache.Store.View.{value_at, members_at, is_dead, IsWellFormed}
use realtime_chat.Cache.Store.Laws.{lasts, sismember-sadd}
use realtime_chat.Cache.Store.Purge.{purge-view}
use realtime_chat.RateLimit.{limit_key, check}
use realtime_chat.RateLimit.Window.{hits, check-window}
use realtime_chat.Authorization.{Users, State, ban_key, role_of, is_banned, invalidate}
use realtime_chat.Authorization.Freshness.{
  table_role, table_banned, invalidate-reads_table, check_each, AllLast, is_banned-staleness,
}
use realtime_chat.Cache.Presence.{is_online}
use realtime_chat.Cache.Presence.Replay.{
  Change, opened, closed, apply_all, count_all, AreIds, online_iff_connected,
}

-- A value with a deadline, one without, and a set whose deadline has passed at 20.
abbrev sample : Store
sample = record {
  strings =
      (codes "a", record { value = codes "x"; expires_at = some 10 })
      ∷ (codes "b", record { value = codes "y"; expires_at = none })
      ∷ [];
  sets = (codes "s", record { members = codes "m" ∷ []; expires_at = some 20 }) ∷ [];
}

sample-IsWellFormed : IsWellFormed sample
unfolding lookup
sample-IsWellFormed = record { strings_keyed = (refl, (refl, tt)); sets_keyed = (refl, tt) }

abbrev retries : List ℕ
retries = 7 ∷ 8 ∷ []

abbrev users : Users
users = record { find_role = λ u. some admin; is_banned = λ u. some (u == 7) }

abbrev forgiving : Users
forgiving = record { find_role = λ u. none; is_banned = λ u. some false }

-- Checks 3 and 4 nanoseconds after the first.
abbrev rechecks : List (ℕ × Users)
rechecks = (18, forgiving) ∷ (19, forgiving) ∷ []

rechecks-AllLast : AllLast 15 (pos 30) rechecks
unfolding AllLast
rechecks-AllLast = (refl, (refl, tt))

abbrev fresh : State
fresh = record { cache = sample; cache_ttl = pos 30; hits = 0; misses = 0; announced = [] }

abbrev two_devices : List Change
two_devices = opened 10 7 ∷ opened 11 7 ∷ closed 12 8 ∷ closed 13 7 ∷ []

two_devices-AreIds : AreIds two_devices
unfolding AreIds
two_devices-AreIds = (omega arith, (omega arith, (omega arith, (omega arith, tt))))

purge-view_example :
    (lookup (codes "a") (purge_expired 20 sample).1.strings
      ≡ keep_if (λ entry. not (is_expired 20 entry.expires_at)) (lookup (codes "a") sample.strings))
    × (lookup (codes "a") (purge_expired 20 sample).1.sets
        ≡ keep_if (λ entry. not (is_expired 20 entry.expires_at)) (lookup (codes "a") sample.sets))
    × (value_at 21 (codes "a") (purge_expired 20 sample).1 ≡ value_at 21 (codes "a") sample)
    × (members_at 21 (codes "a") (purge_expired 20 sample).1 ≡ members_at 21 (codes "a") sample)
    × (length (purge_expired 20 sample).1.strings
          + length (purge_expired 20 sample).1.sets
          + (purge_expired 20 sample).0
        ≡ length sample.strings + length sample.sets)
    × IsWellFormed (purge_expired 20 sample).1
purge-view_example = purge-view 20 21 (codes "a") sample (omega arith) sample-IsWellFormed

sismember-sadd_example :
    sismember 25 (codes "s") (codes "n") (sadd (codes "s") (codes "n") sample) ≡ (
      if (codes "s") == (codes "s")
      then not (is_dead 25 (lookup (codes "s") sample.sets))
        && ((codes "n") == (codes "n") || sismember 25 (codes "s") (codes "n") sample)
      else sismember 25 (codes "s") (codes "n") sample)
sismember-sadd_example = sismember-sadd 25 (codes "s") (codes "s") (codes "n") (codes "n") sample

check-window_example :
    (check true 9 (codes "login") (codes "ip") (pos (suc 1)) (pos (suc 59)) (
      hits
        (codes "login")
        (codes "ip")
        (pos (suc 1))
        (pos (suc 59))
        (5 ∷ retries)
        sample)).0.allowed
    ≡ leb (length retries + 2) (suc 1)
unfolding lookup limit_key
check-window_example =
    check-window (codes "login") (codes "ip") 1 59 5 9 retries sample (omega arith) refl
      (omega arith, (omega arith, tt)) (omega arith)

invalidate-reads_table_example :
    ((role_of 15 users 7 (invalidate 7 fresh)).0 ≡ table_role users 7)
    × ((is_banned 15 users 7 (invalidate 7 fresh)).0 ≡ table_banned users 7)
invalidate-reads_table_example = invalidate-reads_table 15 users 7 fresh

is_banned-staleness_example :
    (is_banned 16 forgiving 7 (check_each 7 rechecks (is_banned 15 users 7 fresh).1)).0
    ≡ (if lasts 15 fresh.cache_ttl 16 then table_banned users 7 else table_banned forgiving 7)
unfolding lookup ban_key
is_banned-staleness_example =
    is_banned-staleness 15 16 users forgiving 7 rechecks fresh refl rechecks-AllLast

online_iff_connected_example :
    is_online 99 7 (apply_all two_devices empty_store) ≡ ltb 0 (count_all 7 two_devices 0)
online_iff_connected_example =
    online_iff_connected 7 two_devices 99 (omega arith) two_devices-AreIds (omega arith)
