-- ===== src/Realtime/Sessions/Live.antt =====
-- How many open sessions a user has.
use realtime_chat.Common.{
  HasUniqueKeys, insert-HasUniqueKeys, erase-HasUniqueKeys, ℕ, ◌+◌, ◌≡◌, refl, ap, inl, inr, Option,
  none, some, [], ◌∷◌, arith, Assoc, lookup, insert, erase, if◌then◌else◌, nat_beq_iff,
  Option-cases, Bytes, ◌==◌, bytes_eq, nat_eq,
}
use realtime_chat.Realtime.Sessions.{Session, SessionManager, add_session, remove_session, touch}
use realtime_chat.Realtime.Protocol.{Version}

abbrev pub Open : Type 0
Open = Assoc ℕ Session

-- The open sessions of a user.
unfoldable pub live : ℕ → Open → ℕ
live user [] = 0
live user ((conn, s) ∷ m) = (if s.user_id == user then 1 else 0) + live user m

live-insert-new :
    (user conn : ℕ) (s : Session) (m : Open)
    → lookup conn m ≡ none
    → live user (insert conn s m) ≡ live user m + (if s.user_id == user then 1 else 0)
unfolding live insert lookup
live-insert-new user conn s [] h = ground arith
live-insert-new user conn s ((c, t) ∷ m) h = ground (arith, live-insert-new user conn s m)

live-insert-old :
    (user conn : ℕ) (s s' : Session) (m : Open)
    → lookup conn m ≡ some s
    → s'.user_id ≡ s.user_id
    → live user (insert conn s' m) ≡ live user m
unfolding live insert lookup
live-insert-old user conn s s' [] h e = ground arith
live-insert-old user conn s s' ((c, t) ∷ m) h e =
    ground (arith, live-insert-old user conn s s' m, ap (λ (x : Session). x.user_id))

live-erase-none :
    (user conn : ℕ) (m : Open) → lookup conn m ≡ none → live user (erase conn m) ≡ live user m
unfolding live erase lookup
live-erase-none user conn [] h = refl
live-erase-none user conn ((c, t) ∷ m) h = ground (arith, live-erase-none user conn m)

live-erase :
    (user conn : ℕ) (s : Session) (m : Open)
    → HasUniqueKeys m
    → lookup conn m ≡ some s
    → live user (erase conn m) + (if s.user_id == user then 1 else 0) ≡ live user m
unfolding live erase lookup
live-erase user conn s [] u h = ground arith
live-erase user conn s ((c, t) ∷ m) u h = ground (
  arith,
  live-erase user conn s m u.1,
  live-erase-none user conn m,
  nat_beq_iff conn c,
  ap (λ k. lookup k m),
)

pub live-touch :
    (user conn now_ms : ℕ) (sm : SessionManager)
    → live user (touch conn now_ms sm).by_connection ≡ live user sm.by_connection
unfolding touch live
live-touch user conn now_ms sm = elim (Option-cases (lookup conn sm.by_connection)) [
  | inl e ↦ rw (e, touch)
  | inr (s, e) ↦
      rw (e, touch)
        (live-insert-old user conn s (record s { last_activity_ms = now_ms }) sm.by_connection e
          refl)
]

pub touch-HasUniqueKeys :
    (conn now_ms : ℕ) (sm : SessionManager)
    → HasUniqueKeys sm.by_connection
    → HasUniqueKeys (touch conn now_ms sm).by_connection
unfolding touch
touch-HasUniqueKeys conn now_ms sm u = elim (Option-cases (lookup conn sm.by_connection)) [
  | inl e ↦ rw (e, touch) u
  | inr (s, e) ↦
      rw (e, touch)
        (insert-HasUniqueKeys conn (record s { last_activity_ms = now_ms }) sm.by_connection u)
]

pub live-add_session :
    (other conn user : ℕ) (name : Bytes) (version : Version) (sm : SessionManager)
    → lookup conn sm.by_connection ≡ none
    → live other (add_session conn user name version sm).1.by_connection
      ≡ live other sm.by_connection + (if user == other then 1 else 0)
unfolding add_session
live-add_session other conn user name version sm e =
    live-insert-new other conn (add_session conn user name version sm).0 sm.by_connection e

pub add_session-HasUniqueKeys :
    (conn user : ℕ) (name : Bytes) (version : Version) (sm : SessionManager)
    → HasUniqueKeys sm.by_connection
    → HasUniqueKeys (add_session conn user name version sm).1.by_connection
unfolding add_session
add_session-HasUniqueKeys conn user name version sm u =
    insert-HasUniqueKeys conn (add_session conn user name version sm).0 sm.by_connection u

-- The sessions after a removal that returns `r`.
abbrev pub LeavesOut : Option Session → SessionManager → SessionManager → Type 0
LeavesOut none sm sm' = sm' ≡ sm
LeavesOut (some s) sm sm' =
    HasUniqueKeys sm'.by_connection
    × ((user : ℕ)
        → live user sm'.by_connection + (if s.user_id == user then 1 else 0)
          ≡ live user sm.by_connection)

pub remove_session-LeavesOut :
    (conn : ℕ) (sm : SessionManager)
    → HasUniqueKeys sm.by_connection
    → LeavesOut (remove_session conn sm).0 sm (remove_session conn sm).1
unfolding remove_session
remove_session-LeavesOut conn sm u = elim (Option-cases (lookup conn sm.by_connection)) [
  | inl e ↦ rw (e, remove_session) refl
  | inr (s, e) ↦
      rw (e, remove_session)
        (
          erase-HasUniqueKeys conn sm.by_connection u,
          λ user. live-erase user conn s sm.by_connection u e,
        )
]
