-- ===== src/Cache/Presence.antt =====
-- The presence counts shared by the instances: include/rtc/cache/presence_cache.hpp and
-- src/cache/presence_cache.cpp, over the process-local store. `now` is the reading of the store's
-- clock. A method here makes several calls of the store; it is modelled as run on its own, without
-- the calls of another instance in between.
pub mod Tally
pub mod Users
pub mod Replay
use realtime_chat.Common.{
  to_string, from_chars, ℕ, zero, suc, Bool, true, false, Option, none, some, List, [], ◌∷◌, ◌++◌,
  Bytes, codes, ℤ, ◌+ℤ◌, pos, negsuc,
}
use realtime_chat.Cache.Store.{Store, get, set, del, incr, sadd, srem, sismember, smembers, scard}

abbrev pub online_set : Bytes
online_set = codes "presence:online"

abbrev pub id_text : ℕ → Bytes
id_text user_id = to_string (pos user_id)

abbrev pub conn_key : ℕ → Bytes
conn_key user_id = codes "presence:conn:" ++ id_text user_id

abbrev pub or_zero : Option ℤ → ℤ
or_zero none = pos 0
or_zero (some n) = n

-- A text that is no number leaves the zero.
abbrev pub to_int : Bytes → ℤ
to_int s = or_zero (from_chars s)

abbrev pub is_one : ℤ → Bool
is_one (pos (suc zero)) = true
is_one _ = false

unfoldable pub add_connection : ℕ → ℕ → Store → Bool × Store
add_connection now user_id st =
    let counted = incr now (conn_key user_id) (pos 0) st in
    (is_one counted.0, sadd online_set (id_text user_id) counted.1)

-- What is left after one connection less.
abbrev pub remaining : Option Bytes → ℤ
remaining none = pos 0
remaining (some current) = to_int current +ℤ negsuc 0

unfoldable pub went_offline : ℕ → Store → Bool × Store
went_offline user_id st = (true, srem online_set (id_text user_id) (del (conn_key user_id) st).1)

unfoldable pub leave_with : ℕ → ℕ → ℤ → Store → Bool × Store
unfolding went_offline
leave_with now user_id (pos (suc n)) st =
    (false, set now (conn_key user_id) (to_string (pos (suc n))) (pos 0) st)
leave_with now user_id (pos zero) st = went_offline user_id st
leave_with now user_id (negsuc n) st = went_offline user_id st

unfoldable pub remove_connection : ℕ → ℕ → Store → Bool × Store
remove_connection now user_id st =
    let current = get now (conn_key user_id) st in
    leave_with now user_id (remaining current.0) current.1

unfoldable pub is_online : ℕ → ℕ → Store → Bool
is_online now user_id st = sismember now online_set (id_text user_id) st

unfoldable pub to_ints : List Bytes → List ℤ
to_ints [] = []
to_ints (member ∷ members) = to_int member ∷ to_ints members

unfoldable pub online_user_ids : ℕ → Store → List ℤ
unfolding to_ints
online_user_ids now st = to_ints (smembers now online_set st)

unfoldable pub online_count : ℕ → Store → ℕ
online_count now st = scard now online_set st
