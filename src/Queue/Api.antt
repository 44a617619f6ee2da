-- ===== src/Queue/Api.antt =====
-- packages/queue/src/queue.ts: the methods that a caller uses, and the timers' callbacks.
use seo_optimizer.Prelude.{
  ℕ, suc, ◌+◌, String, Bool, true, false, not, Option, none, some, List, [], ◌∷◌, ◌++◌, ltb,
  if◌then◌else◌, lookup, insert, is_some,
}
use seo_optimizer.Prelude.Int.{ℤ}
use seo_optimizer.Queue.Types.{
  JobState, JobEvent, StoredJob, StoreCall, Entry, Durability, job_cancelled, is_terminal,
  is_queued, snapshot, stored_of,
}
use seo_optimizer.Queue.State.{Config, Queue, cancels, erase_ref, modify, emit, settle, idle}
use seo_optimizer.Queue.Schedule.{Clock, pump, schedule_wake, schedule_heartbeat}
use seo_optimizer.Queue.Handlers.{Reply, returned, threw, lose, abort_with}

-- What a new entry is made from.
pub record Seed (P : Type 0) : Type 0 where
  pub id : String
  pub payload : P
  pub lane : Option String
  pub priority : ℤ
  pub enqueued_at : ℕ
  pub attempt : ℕ
  pub not_before : Option ℕ
  pub error : Option String

-- `Math.max`.
abbrev pub later : ℕ → ℕ → ℕ
later a b = if ltb a b then b else a

abbrev pub restored_due : Option ℕ → ℕ → Option ℕ
restored_due none now = none
restored_due (some next) now = some (later now next)

abbrev pub seed_of : {P : Type 0} → String → P → Option String → ℤ → ℕ → Seed P
seed_of id payload lane priority stamp = record {
  id = id;
  payload = payload;
  lane = lane;
  priority = priority;
  enqueued_at = stamp;
  attempt = 0;
  not_before = none;
  error = none;
}

module _ {P R : Type 0} where
  abbrev pub fresh_queue : Config P → Bool → Entry P R → Queue P R
  fresh_queue config paused blank = record {
    config = config;
    heap = λ r. blank;
    next = 0;
    queued = [];
    active = [];
    starting = [];
    busy_lanes = [];
    by_id = [];
    finished = [];
    idle_waiters = 0;
    drained = 0;
    paused = paused;
    closed = false;
    deciding = [];
    writes = 0;
    recovered = false;
    retry_timer = none;
    heartbeat_timer = false;
    events = [];
  }

  -- The constructor, which refuses a concurrency below 1. `blank` fills the cells not in use.
  unfoldable pub init : Config P → Bool → Entry P R → Option (Queue P R)
  init config paused blank =
      if ltb config.concurrency 1 then none else some (fresh_queue config paused blank)

  -- `#newEntry`.
  abbrev pub new_entry : Bool → Seed P → Entry P R
  new_entry has_store seed = record {
    id = seed.id;
    payload = seed.payload;
    lane = seed.lane;
    priority = seed.priority;
    enqueued_at = seed.enqueued_at;
    aborted = none;
    outcome = none;
    state = JobState.queued;
    attempt = seed.attempt;
    started_at = none;
    finished_at = none;
    not_before = seed.not_before;
    due_at = none;
    error = seed.error;
    cancel_requested = false;
    lease_lost = false;
    durability = if has_store then Durability.pending else Durability.in_memory;
    store_chain = [];
  }

  abbrev pub admitted : Entry P R → Queue P R → Queue P R
  admitted entry q = record (modify q.next (λ _. entry) q) {
    next = suc q.next;
    by_id = insert entry.id q.next q.by_id;
    queued = q.queued ++ q.next ∷ [];
  }

  -- `#admit` of a new entry, which takes the next number.
  unfoldable pub admit : Entry P R → Clock → Queue P R → Queue P R
  admit entry clock q = pump clock (emit (JobEvent.enqueued (snapshot entry)) (admitted entry q))

  -- What `#create` has done by the time that it returns: its write is under way.
  abbrev pub creating : Bool → Entry P R → Entry P R
  creating has_store e =
      if has_store
      then record e { store_chain = e.store_chain ++ StoreCall.create (stored_of e) ∷ [] }
      else e

  abbrev pub enqueued_entry : Bool → Seed P → Entry P R
  enqueued_entry has_store seed = creating has_store (new_entry has_store seed)

  -- `enqueue`; `none` for the error of a closed queue or of an id that is there. The defaults of the
  -- options are the caller's.
  unfoldable pub enqueue : String → P → Option String → ℤ → Clock → Queue P R → Option (Queue P R)
  enqueue id payload lane priority clock q =
      if q.closed
      then none
      else if is_some (lookup id q.by_id)
      then none
      else some (
          admit (enqueued_entry q.has_store (seed_of id payload lane priority clock.stamp)) clock
            (record q { writes = if q.has_store then q.writes + 1 else q.writes }))

  abbrev pub restored_entry : Bool → Option String → Clock → StoredJob P → Entry P R
  restored_entry has_store lane clock job =
      record (new_entry has_store (record {
        id = job.id;
        payload = job.payload;
        lane = lane;
        priority = job.priority;
        enqueued_at = job.enqueued_at;
        attempt = job.attempt;
        not_before = job.next_attempt_at;
        error = job.error;
      })) { durability = Durability.stored; due_at = restored_due job.next_attempt_at clock.ms }

  -- `#restore`: nothing is done for an id that is here already.
  unfoldable pub restore : StoredJob P → Clock → Queue P R → Queue P R
  restore job clock q =
      if is_some (lookup job.id q.by_id)
      then q
      else admit (restored_entry q.has_store (q.revive_lane job.payload job.lane) clock job) clock q

  abbrev pub restore_all : List (StoredJob P) → Clock → Queue P R → Queue P R
  restore_all [] clock q = q
  restore_all (job ∷ jobs) clock q = restore_all jobs clock (restore job clock q)

  -- `recover` up to its `await`, with a store: `none` for its two errors.
  unfoldable pub recover : Queue P R → Option (Queue P R)
  recover q =
      if q.recovered then none else if q.closed then none else some (record q { recovered = true })

  -- `recover` once the store has loaded the jobs.
  unfoldable pub loaded : List (StoredJob P) → Clock → Queue P R → Queue P R
  loaded jobs clock q = schedule_heartbeat (restore_all jobs clock q)

  abbrev pub request_cancel : Entry P R → Entry P R
  request_cancel e = record (abort_with (job_cancelled e.id) e) { cancel_requested = true }

  -- `cancel` of an entry that was found by its id, and whether it could be cancelled.
  unfoldable pub cancel_entry : ℕ → Clock → Queue P R → Queue P R
  cancel_entry r clock q =
      if is_terminal (q.heap r).state
      then q
      else if is_queued (q.heap r).state
      then pump clock (
          settle r (cancels (job_cancelled (q.heap r).id)) clock.stamp
            (record q { queued = erase_ref r q.queued }))
      else modify r request_cancel q

  unfoldable pub cancel : String → Clock → Queue P R → Queue P R × Bool
  cancel id clock q = elim (lookup id q.by_id) [
    | none ↦ (q, false)
    | some r ↦ (cancel_entry r clock q, not (is_terminal (q.heap r).state))
  ]

  unfoldable pub pause : Queue P R → Queue P R
  pause q = record q { paused = true }

  -- `resume`; `none` for the error of a closed queue.
  unfoldable pub resume : Clock → Queue P R → Option (Queue P R)
  resume clock q = if q.closed then none else some (pump clock (record q { paused = false }))

  -- `drain`: a promise that is resolved at once, or that waits to be.
  unfoldable pub drain : Queue P R → Queue P R
  drain q =
      if idle q
      then record q { drained = q.drained + 1 }
      else record q { idle_waiters = q.idle_waiters + 1 }

  abbrev pub cancel_refs : List ℕ → Clock → Queue P R → Queue P R
  cancel_refs [] clock q = q
  cancel_refs (r ∷ rs) clock q = cancel_refs rs clock (cancel (q.heap r).id clock q).0

  -- `close` up to its `await`; each loop goes over a copy of the collection as it is then.
  unfoldable pub close : Clock → Queue P R → Queue P R
  close clock q =
      let shut = record (schedule_wake clock.ms (record q { paused = true; closed = true })) {
        heartbeat_timer = false;
      } in
      let first = cancel_refs shut.queued clock shut in
      let second = cancel_refs first.starting clock first in
      let third = cancel_refs second.active clock second in
      if idle third then third else drain third

  -- The retry timer's callback.
  unfoldable pub woken : Clock → Queue P R → Queue P R
  woken clock q = pump clock (record q { retry_timer = none })

  abbrev pub lose_all : List String → ℕ → Queue P R → Queue P R
  lose_all [] stamp q = q
  lose_all (id ∷ ids) stamp q = lose_all ids stamp (lose id stamp q)

  -- The heartbeat's callback, `#beat`, in the three pieces that its two `await`s make: the timer goes
  -- off, the renewal answers with what is lost, and the adoption answers.
  unfoldable pub beat_begins : Queue P R → Queue P R
  beat_begins q = record q { heartbeat_timer = false }

  unfoldable pub renewed : Reply (List String) → ℕ → Queue P R → Queue P R
  renewed (returned lost) stamp q = lose_all lost stamp q
  renewed (threw error) stamp q = q

  -- `entry === undefined`, or the `adopted` event behind `#restore`.
  unfoldable pub adopt_one : StoredJob P → Clock → Queue P R → Queue P R
  adopt_one job clock q =
      let after = restore job clock q in
      if is_some (lookup job.id q.by_id)
      then q
      else emit (JobEvent.adopted (snapshot (after.heap q.next))) after

  abbrev pub adopt_all : List (StoredJob P) → Clock → Queue P R → Queue P R
  adopt_all [] clock q = q
  adopt_all (job ∷ jobs) clock q = adopt_all jobs clock (adopt_one job clock q)

  -- The rest of `#beat` once `#adopt` is over: `none` where it did not ask, or the store threw.
  unfoldable pub beat_ends : List (StoredJob P) → Clock → Queue P R → Queue P R
  beat_ends jobs clock q = pump clock (schedule_heartbeat (adopt_all jobs clock q))
