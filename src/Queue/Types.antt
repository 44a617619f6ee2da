-- ===== src/Queue/Types.antt =====
-- packages/queue/src/types.ts, the records of store.ts and the entry of queue.ts.
-- A payload, a handler's result and a `Date` are opaque: `P`, `R` and milliseconds.
use seo_optimizer.Prelude.{ℕ, String, Bool, true, false, Option, List, concat, [], ◌∷◌}
use seo_optimizer.Prelude.Int.{ℤ}

pub data JobState : Type 0 where
  queued running complete failed cancelled : JobState

-- `TERMINAL.has(state)`.
abbrev pub is_terminal : JobState → Bool
is_terminal queued = false
is_terminal running = false
is_terminal complete = true
is_terminal failed = true
is_terminal cancelled = true

-- Why a job ended: the queue's own two errors, or what a handler, a policy or a store threw, by its
-- message.
pub data Cause : Type 0 where
  job_cancelled : (job_id : String) → Cause
  job_lease_lost : (job_id : String) → Cause
  thrown : (message : String) → Cause

unfoldable pub message_of : Cause → String
message_of (job_cancelled id) = concat ("job " ∷ id ∷ " was cancelled" ∷ [])
message_of (job_lease_lost id) =
    concat ("job " ∷ id ∷ " lost its lease and is now held by another worker" ∷ [])
message_of (thrown message) = message

-- What a job's promise settles to.
pub data Outcome (R : Type 0) : Type 0 where
  resolved : R → Outcome R
  rejected : Cause → Outcome R

-- A caller's snapshot of a job.
pub record Job (P : Type 0) : Type 0 where
  pub id : String
  pub payload : P
  pub lane : Option String
  pub priority : ℤ
  pub state : JobState
  pub attempt : ℕ
  pub enqueued_at : ℕ
  pub started_at : Option ℕ
  pub finished_at : Option ℕ
  pub next_attempt_at : Option ℕ
  pub error : Option String

pub data JobEvent (P : Type 0) : Type 0 where
  enqueued started completed cancelled lease_lost lane_held adopted : Job P → JobEvent P
  failed : Job P → Cause → JobEvent P
  retrying : Job P → Cause → (delay_ms : ℕ) → JobEvent P

pub record StoredJob (P : Type 0) : Type 0 where
  pub id : String
  pub payload : P
  pub lane : Option String
  pub priority : ℤ
  pub state : JobState
  pub attempt : ℕ
  pub enqueued_at : ℕ
  pub next_attempt_at : Option ℕ
  pub error : Option String

-- The calls of the store that stand in a job's `storeChain`, oldest first.
pub data StoreCall (P : Type 0) : Type 0 where
  create save acquire : StoredJob P → StoreCall P
  remove : String → StoreCall P

-- `in_memory` is the source's 'none'.
pub data Durability : Type 0 where
  in_memory pending stored lost : Durability

pub record Entry (P R : Type 0) : Type 0 where
  pub id : String
  pub payload : P
  pub lane : Option String
  pub priority : ℤ
  pub enqueued_at : ℕ
  -- The reason that `controller` was aborted with, if it was.
  pub aborted : Option Cause
  -- What `done` has settled to; `resolve` and `reject` set it.
  pub outcome : Option (Outcome R)
  pub state : JobState
  pub attempt : ℕ
  pub started_at : Option ℕ
  pub finished_at : Option ℕ
  pub not_before : Option ℕ
  pub due_at : Option ℕ
  pub error : Option String
  pub cancel_requested : Bool
  pub lease_lost : Bool
  pub durability : Durability
  pub store_chain : List (StoreCall P)

abbrev pub is_pending : Durability → Bool
is_pending pending = true
is_pending _ = false

abbrev pub is_stored : Durability → Bool
is_stored stored = true
is_stored _ = false

abbrev pub is_lost : Durability → Bool
is_lost lost = true
is_lost _ = false

abbrev pub is_in_memory : Durability → Bool
is_in_memory in_memory = true
is_in_memory _ = false

abbrev pub is_queued : JobState → Bool
is_queued queued = true
is_queued _ = false

abbrev pub is_running : JobState → Bool
is_running running = true
is_running _ = false

unfoldable pub snapshot : {P R : Type 0} → Entry P R → Job P
snapshot e = record {
  id = e.id;
  payload = e.payload;
  lane = e.lane;
  priority = e.priority;
  state = e.state;
  attempt = e.attempt;
  enqueued_at = e.enqueued_at;
  started_at = e.started_at;
  finished_at = e.finished_at;
  next_attempt_at = e.not_before;
  error = e.error;
}

-- `#stored`.
unfoldable pub stored_of : {P R : Type 0} → Entry P R → StoredJob P
stored_of e = record {
  id = e.id;
  payload = e.payload;
  lane = e.lane;
  priority = e.priority;
  state = e.state;
  attempt = e.attempt;
  enqueued_at = e.enqueued_at;
  next_attempt_at = e.not_before;
  error = e.error;
}
