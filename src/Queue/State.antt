-- ===== src/Queue/State.antt =====
-- The state of `JobQueue` in packages/queue/src/queue.ts, and the methods that change it without
-- scheduling anything: events, store writes, settling, history and idleness.
-- An entry is an object that several collections share: a number names it, and `heap` holds it.
use seo_optimizer.Prelude.{
  ℕ, suc, ◌+◌, String, Bool, false, not, ◌&&◌, ◌||◌, Option, none, some, List, [], ◌∷◌, ◌++◌, ◌==◌,
  ltb, str_eq, if◌then◌else◌, length, has, filter, delete,
}
use seo_optimizer.Queue.Types.{
  JobState, Cause, Outcome, Job, JobEvent, StoreCall, Entry, resolved, rejected, is_lost,
  is_in_memory, snapshot, stored_of, message_of,
}

-- What the constructor keeps of its options. `can_acquire` and `can_adopt` say whether the store has
-- these methods, and `has_policy` whether a retry policy was given. `heartbeat_ms` is set only with a
-- store that renews. `revive_lane` is the identity on the stored lane where no `reviveLane` is given.
pub record Config (P : Type 0) : Type 0 where
  pub concurrency : ℕ
  pub history_limit : ℕ
  pub heartbeat_ms : Option ℕ
  pub has_store : Bool
  pub can_acquire : Bool
  pub can_adopt : Bool
  pub has_policy : Bool
  pub revive_lane : P → Option String → Option String

-- A failed job whose retry policy has not answered: the entry, what its handler threw, and whether
-- `#retryDelay` went on to ask the policy.
pub record Deciding : Type 0 where
  pub entry : ℕ
  pub cause : Cause
  pub asked : Bool

pub record Queue (P R : Type 0) : Type 0 where
  pub config : Config P
  pub open config use *
  -- Entries are numbered in order of creation; the cells from `next` on are not in use.
  pub heap : ℕ → Entry P R
  pub next : ℕ
  pub queued : List ℕ
  pub active : List ℕ
  pub starting : List ℕ
  pub busy_lanes : List String
  pub by_id : List (String × ℕ)
  pub finished : List String
  -- `#idleWaiters`, and how many of them have been resolved.
  pub idle_waiters : ℕ
  pub drained : ℕ
  pub paused : Bool
  pub closed : Bool
  -- `#deciding` is the number of these.
  pub deciding : List Deciding
  pub writes : ℕ
  pub recovered : Bool
  -- When the timer is due; whether the heartbeat's is set.
  pub retry_timer : Option ℕ
  pub heartbeat_timer : Bool
  -- What `onEvent` has been called with.
  pub events : List (JobEvent P)

-- Sets and arrays of entries.
abbrev pub has_ref : List ℕ → ℕ → Bool
has_ref [] r = false
has_ref (s ∷ ss) r = s == r || has_ref ss r

abbrev pub count_ref : ℕ → List ℕ → ℕ
count_ref r [] = 0
count_ref r (s ∷ ss) = if s == r then suc (count_ref r ss) else count_ref r ss

-- `splice(indexOf(r), 1)`, or `Set.delete` on a set.
abbrev pub erase_ref : ℕ → List ℕ → List ℕ
erase_ref r [] = []
erase_ref r (s ∷ ss) = if s == r then ss else s ∷ erase_ref r ss

abbrev pub add_ref : List ℕ → ℕ → List ℕ
add_ref ss r = if has_ref ss r then ss else ss ++ r ∷ []

abbrev pub deciding_refs : List Deciding → List ℕ
deciding_refs [] = []
deciding_refs (d ∷ ds) = d.entry ∷ deciding_refs ds

abbrev pub erase_deciding : ℕ → List Deciding → List Deciding
erase_deciding r [] = []
erase_deciding r (d ∷ ds) = if d.entry == r then ds else d ∷ erase_deciding r ds

-- `#busyLanes`, a set. A job without a lane takes none.
abbrev pub add_lane : Option String → List String → List String
add_lane none busy = busy
add_lane (some lane) busy = if has busy lane then busy else lane ∷ busy

abbrev pub drop_lane : Option String → List String → List String
drop_lane none busy = busy
drop_lane (some lane) busy = filter (λ l. not (str_eq l lane)) busy

abbrev pub lane_busy : Option String → List String → Bool
lane_busy none busy = false
lane_busy (some lane) busy = has busy lane

pub data WriteKind : Type 0 where
  save_op remove_op : WriteKind

-- The loop of `#remember`: evicts the oldest of the finished while they are too many.
abbrev pub evict : ℕ → List String → List (String × ℕ) → List String × List (String × ℕ)
evict limit [] by_id = ([], by_id)
evict limit (id ∷ ids) by_id =
    let rest = evict limit ids (delete id by_id) in
    if ltb limit (length (id ∷ ids)) then rest else (id ∷ ids, by_id)

pub data Settlement (R : Type 0) : Type 0 where
  completes : R → Settlement R
  fails cancels : Cause → Settlement R

-- A promise settles once: a later `resolve` or `reject` does nothing.
abbrev pub settle_once : {R : Type 0} → Option (Outcome R) → Outcome R → Option (Outcome R)
settle_once none outcome = some outcome
settle_once (some first) outcome = some first

abbrev pub settled_state : {R : Type 0} → Settlement R → JobState
settled_state (completes result) = JobState.complete
settled_state (fails cause) = JobState.failed
settled_state (cancels cause) = JobState.cancelled

abbrev pub settled_outcome : {R : Type 0} → Settlement R → Outcome R
settled_outcome (completes result) = resolved result
settled_outcome (fails cause) = rejected cause
settled_outcome (cancels cause) = rejected cause

-- `entry.error`, which only a failure sets.
abbrev pub settled_error : {R : Type 0} → Settlement R → Option String → Option String
settled_error (completes result) error = error
settled_error (fails cause) error = some (message_of cause)
settled_error (cancels cause) error = error

module _ {P R : Type 0} where
  -- Assigns to an entry.
  abbrev pub modify : ℕ → (Entry P R → Entry P R) → Queue P R → Queue P R
  modify r f q = record q { heap = λ s. if s == r then f (q.heap s) else q.heap s }

  -- `#emit`. What the listener throws is swallowed.
  abbrev pub emit : JobEvent P → Queue P R → Queue P R
  emit event q = record q { events = q.events ++ event ∷ [] }

  abbrev pub store_call : WriteKind → Entry P R → StoreCall P
  store_call save_op e = StoreCall.save (stored_of e)
  store_call remove_op e = StoreCall.remove e.id

  -- `#persist`.
  unfoldable pub persist : ℕ → WriteKind → Queue P R → Queue P R
  persist r op q =
      if not q.has_store || is_in_memory (q.heap r).durability
      then q
      else if is_lost (q.heap r).durability
      then q
      else modify r (λ e. record e { store_chain = e.store_chain ++ store_call op e ∷ [] })
          (record q { writes = q.writes + 1 })

  unfoldable pub remember : String → Queue P R → Queue P R
  remember id q =
      let kept = evict q.history_limit (q.finished ++ id ∷ []) q.by_id in
      record q { finished = kept.0; by_id = kept.1 }

  abbrev pub settled_event : Settlement R → Job P → JobEvent P
  settled_event (completes result) job = JobEvent.completed job
  settled_event (fails cause) job = JobEvent.failed job cause
  settled_event (cancels cause) job = JobEvent.cancelled job

  abbrev pub settle_entry : Settlement R → ℕ → Entry P R → Entry P R
  settle_entry s stamp e = record e {
    state = settled_state s;
    finished_at = some stamp;
    error = settled_error s e.error;
    outcome = settle_once e.outcome (settled_outcome s);
  }

  -- `#settle`, at the injected clock's `stamp`.
  unfoldable pub settle : ℕ → Settlement R → ℕ → Queue P R → Queue P R
  settle r s stamp q =
      let marked = modify r (settle_entry s stamp) q in
      let told = emit (settled_event s (snapshot (marked.heap r))) marked in
      remember (q.heap r).id (persist r remove_op told)

  unfoldable pub idle : Queue P R → Bool
  idle q =
      length q.queued == 0
      && length q.starting == 0
      && length q.active == 0
      && length q.deciding == 0
      && q.writes == 0

  -- `#checkIdle`.
  unfoldable pub check_idle : Queue P R → Queue P R
  check_idle q =
      if idle q then record q { idle_waiters = 0; drained = q.drained + q.idle_waiters } else q
