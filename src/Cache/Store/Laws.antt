-- ===== src/Cache/Store/Laws.antt =====
-- Each method of the in-memory store against the view of its state.
use realtime_chat.Common.{
  length, ℕ, zero, suc, ◌+◌, ◌*◌, ◌≤◌, ◌≡◌, refl, inl, inr, Bool, true, not, ◌&&◌, ◌||◌, Option,
  none, some, [], ◌∷◌, arith, lookup-insert, lookup-erase, contains-add, contains-remove, lookup,
  contains, add, remove, ltb, if◌then◌else◌, Option-cases, ◌==◌, nat_eq, Bytes, bytes_beq_iff,
  bytes_eq, ℤ, pos, negsuc,
}
use realtime_chat.Cache.Store.{
  StringEntry, Store, ticks_per_second, is_expired, deadline, set, get, is_some, del, exists,
  expire, sadd, srem, smembers, sismember, scard,
}
use realtime_chat.Cache.Store.View.{value_at, members_at, is_dead, live_string_mono}

-- Whether what was written at `now` with a time to live is still there at time `later`.
abbrev pub lasts : ℕ → ℤ → ℕ → Bool
lasts now (pos zero) later = true
lasts now (pos (suc n)) later = ltb later (now + suc n * ticks_per_second)
lasts now (negsuc n) later = true

deadline-lasts :
    (now : ℕ) (ttl : ℤ) (later : ℕ)
    → is_expired later (deadline now ttl) ≡ not (lasts now ttl later)
unfolding is_expired deadline
deadline-lasts now (pos zero) later = refl
deadline-lasts now (pos (suc n)) later = ground arith
deadline-lasts now (negsuc n) later = refl

-- `get` returns the value that the key stands for, and what it cleans up changes no later answer.
pub get-view :
    (now later : ℕ) (key j : Bytes) (st : Store)
    → now ≤ later
    → ((get now key st).0 ≡ value_at now key st)
      × (value_at later j (get now key st).1 ≡ value_at later j st)
      × (members_at later j (get now key st).1 ≡ members_at later j st)
unfolding get
get-view now later key j st h = ground (
  arith,
  bytes_beq_iff j key,
  lookup-erase j key st.strings,
  live_string_mono now later (lookup key st.strings) h,
)

-- `exists` tells whether the key stands for a value, and changes no later answer either.
pub exists-view :
    (now later : ℕ) (key j : Bytes) (st : Store)
    → now ≤ later
    → ((exists now key st).0 ≡ is_some (value_at now key st))
      × (value_at later j (exists now key st).1 ≡ value_at later j st)
unfolding exists
exists-view now later key j st h = ground (
  arith,
  bytes_beq_iff j key,
  lookup-erase j key st.strings,
  live_string_mono now later (lookup key st.strings) h,
)

-- After `set` the key stands for the value until its time to live is over, and every other key for
-- what it stood for.
pub value_at-set :
    (now later : ℕ) (key j value : Bytes) (ttl : ℤ) (st : Store)
    → value_at later j (set now key value ttl st)
      ≡ (if j == key then if lasts now ttl later then some value else none else value_at later j st)
unfolding set
value_at-set now later key j value ttl st =
    rw (lookup-insert j key _ st.strings) (ground (arith, deadline-lasts now ttl later))

-- `del` removes the value and the set of its key, tells whether either was stored, and leaves the
-- other keys alone.
pub del-view :
    (later : ℕ) (key j : Bytes) (st : Store)
    → ((del key st).0 ≡ (is_some (lookup key st.strings) || is_some (lookup key st.sets)))
      × (value_at later j (del key st).1 ≡ (if j == key then none else value_at later j st))
      × (members_at later j (del key st).1 ≡ (if j == key then [] else members_at later j st))
unfolding del
del-view later key j st = (
  refl,
  ground (arith, lookup-erase j key st.strings),
  ground (arith, lookup-erase j key st.sets),
)

abbrev pub stored_value : Option StringEntry → Option Bytes
stored_value none = none
stored_value (some entry) = some entry.value

-- `expire` gives a stored value a new lifetime, also one that was already over, and leaves the
-- other keys alone.
pub value_at-expire :
    (now later : ℕ) (key j : Bytes) (ttl : ℤ) (st : Store)
    → value_at later j (expire now key ttl st) ≡ (
        if j == key
        then if lasts now ttl later then stored_value (lookup key st.strings) else none
        else value_at later j st)
unfolding expire
value_at-expire now later key j ttl st = elim (Option-cases (lookup key st.strings)) [
  | inl e ↦ ground (arith, bytes_beq_iff j key)
  | inr (entry, e) ↦ ground (
    arith,
    deadline-lasts now ttl later,
    bytes_beq_iff j key,
    lookup-insert j key (record entry { expires_at = deadline now ttl }) st.strings,
  )
]

-- The four readers of a set agree on its elements.
pub readers-agree :
    (now : ℕ) (key member : Bytes) (st : Store)
    → (smembers now key st ≡ members_at now key st)
      × (sismember now key member st ≡ contains member (smembers now key st))
      × (scard now key st ≡ length (smembers now key st))
unfolding smembers sismember scard contains
readers-agree now key member st = ground arith

-- After `sadd` an element is in a set exactly when it was added or was there before, unless the set
-- had expired and was not cleaned up: then the set reads as empty, and the element added is lost.
pub sismember-sadd :
    (now : ℕ) (key j added member : Bytes) (st : Store)
    → sismember now j member (sadd key added st) ≡ (
        if j == key
        then not (is_dead now (lookup key st.sets))
          && (member == added || sismember now key member st)
        else sismember now j member st)
unfolding sadd sismember contains is_expired
sismember-sadd now key j added member st = elim (Option-cases (lookup key st.sets)) [
  | inl e ↦ ground (
    arith,
    bytes_beq_iff j key,
    lookup-insert j key (record { members = added ∷ []; expires_at = none }) st.sets,
  )
  | inr (entry, e) ↦ ground (
    arith,
    bytes_beq_iff j key,
    contains-add member added entry.members,
    lookup-insert j key (record entry { members = add added entry.members }) st.sets,
  )
]

-- After `srem` an element is in a set exactly when it was there before and was not the one removed.
pub sismember-srem :
    (now : ℕ) (key j removed member : Bytes) (st : Store)
    → sismember now j member (srem key removed st) ≡ (
        if j == key
        then not (member == removed) && sismember now key member st
        else sismember now j member st)
unfolding srem sismember
sismember-srem now key j removed member st = elim (Option-cases (lookup key st.sets)) [
  | inl e ↦ ground (arith, bytes_beq_iff j key)
  | inr (entry, e) ↦ ground (
    arith,
    bytes_beq_iff j key,
    contains-remove member removed entry.members,
    lookup-insert j key (record entry { members = remove removed entry.members }) st.sets,
  )
]
