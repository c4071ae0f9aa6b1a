-- ===== src/Presence/Replication.antt =====
-- What a peer knows of an instance from its announcements.
use realtime_chat.Common.{
  ℕ, zero, suc, ◌+◌, ◌≡◌, refl, ap, ◌∙◌, ◌≢◌, inl, inr, Bool, true, false, Option, none, some, List,
  [], ◌∷◌, ◌++◌, arith, lookup-insert, lookup-erase, contains-add, contains-remove, lookup, insert,
  erase, contains, add, remove, nat_beq, if◌then◌else◌, nat_beq_iff, Option-cases, Bytes,
  bytes_beq_iff, bytes_eq, nat_eq,
}
use realtime_chat.Presence.{
  PresenceDelta, Presence, nobody, is_online_locally, online_remotely, any_node, count_of,
  connect_locked, disconnect_locked, pick, publish, one_session_less, apply_remote, users_or_none,
  is_none,
}

-- Whether a peer believes that a node has a user online.
abbrev pub is_reported : Bytes → ℕ → Presence → Bool
is_reported node user p = contains user (users_or_none (lookup node p.remote))

pub apply_all : ℕ → Bytes → List PresenceDelta → Presence → Presence
apply_all now node [] p = p
apply_all now node (d ∷ ds) p = apply_all now node ds (apply_remote now node d p)

contains-is_none : (u : ℕ) (s : List ℕ) → is_none s ≡ true → contains u s ≡ false
unfolding contains
contains-is_none u [] h = refl
contains-is_none u (x ∷ s) h = cc

-- One announcement sets what the peer believes of its user at its node, and of nobody else there.
pub is_reported-apply_remote :
    (now : ℕ) (node : Bytes) (d : PresenceDelta) (user : ℕ) (p : Presence)
    → is_reported node user (apply_remote now node d p)
      ≡ (if nat_beq user d.user_id then d.online else is_reported node user p)
unfolding apply_remote contains
is_reported-apply_remote now node d user p = elim (Option-cases (lookup node p.remote)) [
  | inl e ↦ ground (
    arith,
    bytes_beq_iff node node,
    lookup-insert node node (add d.user_id []) p.remote,
    contains-add user d.user_id [],
  )
  | inr (users, e) ↦ ground (
    arith,
    bytes_beq_iff node node,
    lookup-insert node node (add d.user_id users) p.remote,
    lookup-insert node node (remove d.user_id users) p.remote,
    lookup-erase node node p.remote,
    contains-add user d.user_id users,
    contains-remove user d.user_id users,
    contains-is_none user (remove d.user_id users),
  )
]

-- What the last of the deltas about a user says, or else `before`.
abbrev pub last_word : ℕ → List PresenceDelta → Bool → Bool
last_word user [] before = before
last_word user (d ∷ ds) before =
    last_word user ds (if nat_beq user d.user_id then d.online else before)

is_reported-apply_all :
    (now : ℕ) (node : Bytes) (ds : List PresenceDelta) (user : ℕ) (p : Presence)
    → is_reported node user (apply_all now node ds p) ≡ last_word user ds (is_reported node user p)
unfolding apply_all
is_reported-apply_all now node [] user p = refl
is_reported-apply_all now node (d ∷ ds) user p =
    is_reported-apply_all now node ds user (apply_remote now node d p)
    ∙ ap (last_word user ds) (is_reported-apply_remote now node d user p)

last_word-append :
    (user : ℕ) (ds es : List PresenceDelta) (b : Bool)
    → last_word user (ds ++ es) b ≡ last_word user es (last_word user ds b)
last_word-append user [] es b = refl
last_word-append user (d ∷ ds) es b = last_word-append user ds es _

-- The delta at a place is the first of its user.
abbrev pub IsFirst : ℕ → List PresenceDelta → Type 0
IsFirst i [] = Unit
IsFirst zero (d ∷ ds) = Unit
IsFirst (suc i) (d ∷ ds) =
    ((e : PresenceDelta) (es : List PresenceDelta)
      → pick i ds ≡ some (e, es)
      → e.user_id ≢ d.user_id)
    × IsFirst i ds

-- Moving what was picked to the front changes no last word.
abbrev Moves : ℕ → List PresenceDelta → Bool → Option (PresenceDelta × List PresenceDelta) → Type 0
Moves user ds b none = Unit
Moves user ds b (some (e, es)) = last_word user (e ∷ es) b ≡ last_word user ds b

abbrev after_head :
    PresenceDelta
    → Option (PresenceDelta × List PresenceDelta)
    → Option (PresenceDelta × List PresenceDelta)
after_head d none = none
after_head d (some (e, es)) = some (e, d ∷ es)

Moves-after_head :
    (user : ℕ) (d : PresenceDelta) (ds : List PresenceDelta) (b : Bool)
    (o : Option (PresenceDelta × List PresenceDelta))
    → ((e : PresenceDelta) (es : List PresenceDelta) → o ≡ some (e, es) → e.user_id ≢ d.user_id)
    → Moves user ds (if nat_beq user d.user_id then d.online else b) o
    → Moves user (d ∷ ds) b (after_head d o)
Moves-after_head user d ds b none f h = tt
Moves-after_head user d ds b (some (e, es)) f h =
    let swap : (if nat_beq user d.user_id
          then d.online
          else if nat_beq user e.user_id
          then e.online
          else b)
        ≡ (if nat_beq user e.user_id
            then e.online
            else if nat_beq user d.user_id
            then d.online
            else b) =
      ground (arith, f e es refl, nat_beq_iff user d.user_id, nat_beq_iff user e.user_id) in
    ap (last_word user es) swap ∙ h

pick-Moves :
    (user i : ℕ) (ds : List PresenceDelta) (b : Bool) → IsFirst i ds → Moves user ds b (pick i ds)
unfolding pick
pick-Moves user i [] b f = tt
pick-Moves user zero (d ∷ ds) b f = refl
pick-Moves user (suc i) (d ∷ ds) b f =
    Moves-after_head user d ds b (pick i ds) f.0 (pick-Moves user i ds _ f.1)

-- The steps of the threads of an instance.
pub data Step : Type 0 where
  connects disconnects publishes : ℕ → Step

unfoldable pub step : ℕ → Step → Presence → Presence
step now (connects user) p = (connect_locked now user p).1
step now (disconnects user) p = (disconnect_locked now now user p).1
step now (publishes i) p = publish i p

unfoldable pub run : ℕ → List Step → Presence → Presence
run now [] p = p
run now (e ∷ es) p = run now es (step now e p)

-- No thread publishes a delta before an earlier one about the same user is published.
unfoldable pub KeepsOrder : ℕ → List Step → Presence → Type 0
unfolding step
KeepsOrder now [] p = Unit
KeepsOrder now (connects user ∷ es) p = KeepsOrder now es (step now (connects user) p)
KeepsOrder now (disconnects user ∷ es) p = KeepsOrder now es (step now (disconnects user) p)
KeepsOrder now (publishes i ∷ es) p =
    IsFirst i p.pending × KeepsOrder now es (step now (publishes i) p)

-- What is published and what is pending tell a peer the local users.
abbrev pub InSync : (ℕ → Bool) → Presence → Type 0
InSync before q =
    (user : ℕ)
    → last_word user q.pending (last_word user q.announced (before user)) ≡ is_online_locally user q

connect_locked-InSync :
    (now user : ℕ) (before : ℕ → Bool) (q : Presence)
    → InSync before q
    → InSync before (connect_locked now user q).1
unfolding connect_locked is_online_locally
connect_locked-InSync now user before q h u =
    let delta : PresenceDelta = record { user_id = user; online = true; at_ms = now } in
    ground (
      arith,
      h u,
      last_word-append u q.pending (delta ∷ []) (last_word u q.announced (before u)),
      lookup-insert u user (count_of (lookup user q.sessions) + 1) q.sessions,
    )

one_session_less-InSync :
    (now user n : ℕ) (before : ℕ → Bool) (q : Presence)
    → count_of (lookup user q.sessions) ≡ n
    → InSync before q
    → InSync before (one_session_less now now user n q).1
unfolding one_session_less is_online_locally
one_session_less-InSync now user zero before q e h u = h u
one_session_less-InSync now user (suc zero) before q e h u =
    let delta : PresenceDelta = record { user_id = user; online = false; at_ms = now } in
    ground (
      arith,
      h u,
      last_word-append u q.pending (delta ∷ []) (last_word u q.announced (before u)),
      lookup-erase u user q.sessions,
    )
one_session_less-InSync now user (suc (suc n)) before q e h u =
    ground (arith, h u, lookup-insert u user (suc n) q.sessions)

publish-InSync :
    (i : ℕ) (before : ℕ → Bool) (q : Presence)
    → IsFirst i q.pending
    → InSync before q
    → InSync before (publish i q)
unfolding publish is_online_locally
publish-InSync i before q f h u = elim (Option-cases (pick i q.pending)) [
  | inl e ↦ rw (publish, e) (h u)
  | inr ((d, rest), e) ↦
      let b = last_word u q.announced (before u) in
      let moved : last_word u (d ∷ rest) b ≡ last_word u q.pending b =
        rw e at (pick-Moves u i q.pending b f) in
      rw (publish, e)
        (ap (last_word u rest) (last_word-append u q.announced (d ∷ []) (before u)) ∙ (moved ∙ h u))
]

run-InSync :
    (now : ℕ) (es : List Step) (before : ℕ → Bool) (q : Presence)
    → KeepsOrder now es q
    → InSync before q
    → InSync before (run now es q)
unfolding run step KeepsOrder disconnect_locked
run-InSync now [] before q o h = h
run-InSync now (connects user ∷ es) before q o h =
    run-InSync now es before (connect_locked now user q).1 o
      (connect_locked-InSync now user before q h)
run-InSync now (disconnects user ∷ es) before q o h =
    run-InSync now es before (disconnect_locked now now user q).1 o
      (one_session_less-InSync now user (count_of (lookup user q.sessions)) before q refl h)
run-InSync now (publishes i ∷ es) before q o h =
    run-InSync now es before (publish i q) o.1 (publish-InSync i before q o.0 h)

nobody-InSync :
    (node : Bytes) (p : Presence)
    → lookup node p.remote ≡ none
    → InSync (λ user. is_reported node user p) nobody
unfolding is_online_locally lookup contains
nobody-InSync node p unknown user = rw unknown

-- The threads of an instance open and close sessions and publish the announcements after they have
-- left the lock, in any interleaving in which two announcements about the same user are published in
-- the order in which the lock was left. When no announcement is outstanding, a peer that knew nothing
-- of the instance and applies what was published, in order, believes a user online there exactly when
-- the user has a session there.
pub announcements_replicate :
    (now : ℕ) (node : Bytes) (es : List Step) (p : Presence) (user : ℕ)
    → lookup node p.remote ≡ none
    → KeepsOrder now es nobody
    → (run now es nobody).pending ≡ []
    → is_reported node user (apply_all now node (run now es nobody).announced p)
      ≡ is_online_locally user (run now es nobody)
unfolding run
announcements_replicate now node es p user unknown order settled =
    let q = run now es nobody in
    let synced : last_word user q.pending (last_word user q.announced (is_reported node user p))
        ≡ is_online_locally user q =
      run-InSync now es (λ u. is_reported node u p) nobody order (nobody-InSync node p unknown)
        user in
    let told : last_word user q.announced (is_reported node user p) ≡ is_online_locally user q =
      rw settled at synced in
    is_reported-apply_all now node q.announced user p ∙ told

-- The presence of an instance with nothing but one session.
abbrev one_session : ℕ → ℕ → Presence
one_session now user = record nobody {
  sessions = (user, 1) ∷ [];
  pending = record { user_id = user; online = true; at_ms = now } ∷ [];
}

count_one_session :
    (now user : ℕ)
    → (count_of (lookup user (one_session now user).sessions) ≡ 1)
      × (erase user (one_session now user).sessions ≡ [])
unfolding lookup erase
count_one_session now user = ground (arith, nat_beq_iff user user)

last_closed :
    (now user : ℕ)
    → (disconnect_locked now now user (one_session now user)).1 ≡ record nobody {
      last_seen_times = (user, now) ∷ [];
      pending =
          record { user_id = user; online = true; at_ms = now }
          ∷ record { user_id = user; online = false; at_ms = now }
          ∷ [];
    }
unfolding disconnect_locked one_session_less insert online_remotely any_node
last_closed now user =
    rw (disconnect_locked, (count_one_session now user).0)
      (rw (one_session_less, (count_one_session now user).1) refl)

crossed :
    (now user : ℕ)
    → run now (connects user ∷ disconnects user ∷ publishes 1 ∷ publishes 0 ∷ []) nobody
      ≡ record nobody {
        last_seen_times = (user, now) ∷ [];
        announced =
            record { user_id = user; online = false; at_ms = now }
            ∷ record { user_id = user; online = true; at_ms = now }
            ∷ [];
      }
unfolding run step connect_locked publish pick lookup insert
crossed now user = ap (λ p. publish 0 (publish 1 p)) (last_closed now user)

-- Out of that order they mislead: where a session opens and closes and the second announcement
-- overtakes the first, nothing is outstanding, the user has no session, and the peer goes on believing
-- the user online.
pub announcements_may_cross :
    (now : ℕ) (node : Bytes) (user : ℕ)
    → let q = run now (connects user ∷ disconnects user ∷ publishes 1 ∷ publishes 0 ∷ []) nobody in
      (q.pending ≡ [])
      × (is_online_locally user q ≡ false)
      × (is_reported node user (apply_all now node q.announced nobody) ≡ true)
unfolding is_online_locally lookup
announcements_may_cross now node user =
    let q = run now (connects user ∷ disconnects user ∷ publishes 1 ∷ publishes 0 ∷ []) nobody in
    let same = crossed now user in
    (
      rw same refl,
      rw same refl,
      is_reported-apply_all now node q.announced user nobody
          ∙ rw same (ground (arith, nat_beq_iff user user)),
    )
