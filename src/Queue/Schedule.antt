-- ===== src/Queue/Schedule.antt =====
-- packages/queue/src/queue.ts: `#take`, the start of a job, and `#pump`.
pub mod Choice
pub mod Dispatch
use seo_optimizer.Prelude.{
  ℕ, zero, suc, ◌+◌, ◌-◌, String, Bool, true, false, not, ◌&&◌, ◌||◌, Option, none, some, List, [],
  ◌∷◌, ◌++◌, ◌==◌, ltb, leb, if◌then◌else◌, length, is_some, filter_map,
}
use seo_optimizer.Prelude.Int.{ℤ, ltb_ℤ}
use seo_optimizer.Queue.Types.{
  JobState, JobEvent, StoredJob, StoreCall, Entry, is_pending, is_stored, is_terminal, snapshot,
  stored_of,
}
use seo_optimizer.Queue.State.{
  Queue, has_ref, erase_ref, add_ref, add_lane, lane_busy, modify, emit, persist, save_op,
  check_idle,
}

-- A reading of the two clocks: the injected `now()` and `Date.now()`.
pub record Clock : Type 0 where
  pub stamp : ℕ
  pub ms : ℕ

-- `value !== null && value > now`.
abbrev pub is_after : Option ℕ → ℕ → Bool
is_after none now = false
is_after (some due) now = ltb now due

-- The earlier of a due time and the earliest so far.
abbrev pub earlier : Option ℕ → Option ℕ → Option ℕ
earlier none earliest = earliest
earlier (some due) none = some due
earlier (some due) (some earliest) = if ltb due earliest then some due else some earliest

module _ {P R : Type 0} where
  -- The three tests of the loop of `#take`.
  abbrev pub is_eligible : ℕ → List String → Entry P R → Bool
  is_eligible now busy e =
      not (is_pending e.durability) && not (lane_busy e.lane busy) && not (is_after e.due_at now)

  -- Whether a candidate takes the place of the best so far.
  abbrev pub beats : (ℕ → Entry P R) → ℕ → Option ℕ → Bool
  beats heap candidate none = true
  beats heap candidate (some incumbent) = ltb_ℤ (heap incumbent).priority (heap candidate).priority

  -- The loop of `#take`: `best` is the entry at the index that the source keeps.
  unfoldable pub scan : (ℕ → Entry P R) → List String → ℕ → Option ℕ → List ℕ → Option ℕ
  scan heap busy now best [] = best
  scan heap busy now best (c ∷ cs) =
      scan heap busy now
        (if is_eligible now busy (heap c) && beats heap c best then some c else best) cs

  -- `#take`: the entry taken, if one was, and the queue without it.
  unfoldable pub take_next : ℕ → Queue P R → Option (ℕ × Queue P R)
  unfolding scan
  take_next now q = elim (scan q.heap q.busy_lanes now none q.queued) [
    | none ↦ none
    | some r ↦ some (r, record q { queued = erase_ref r q.queued })
  ]

  -- `#sharesLanes`.
  unfoldable pub shares_lanes : Queue P R → Entry P R → Bool
  shares_lanes q e =
      is_some e.lane && is_stored e.durability && is_some q.heartbeat_ms && q.can_acquire

  -- The claim that `#start` asks the store for.
  abbrev pub claim_of : Entry P R → StoredJob P
  claim_of e = record (stored_of e) {
    state = JobState.running;
    attempt = e.attempt + 1;
    next_attempt_at = none;
  }

  -- `#start` up to its `await`: the job holds a slot and its lane while the store is asked. It is only
  -- called where the lane and `acquire` are there.
  unfoldable pub start : ℕ → Queue P R → Queue P R
  start r q =
      modify r
        (λ e. record e { store_chain = e.store_chain ++ StoreCall.acquire (claim_of e) ∷ [] })
        (record q {
          starting = add_ref q.starting r;
          busy_lanes = add_lane (q.heap r).lane q.busy_lanes;
        })

  abbrev pub run_entry : ℕ → Entry P R → Entry P R
  run_entry stamp e = record e {
    state = JobState.running;
    attempt = e.attempt + 1;
    started_at = some stamp;
    not_before = none;
    due_at = none;
  }

  -- `#run` up to the call of the handler.
  unfoldable pub run : ℕ → (claimed : Bool) → ℕ → Queue P R → Queue P R
  run r claimed stamp q =
      let going = record (modify r (run_entry stamp) q) {
        active = add_ref q.active r;
        busy_lanes = add_lane (q.heap r).lane q.busy_lanes;
      } in
      let written = (if claimed then going else persist r save_op going) in
      emit (JobEvent.started (snapshot (written.heap r))) written

  -- What the loop of `#pump` does with an entry taken.
  unfoldable pub launch : ℕ → ℕ → Queue P R → Queue P R
  unfolding run start shares_lanes
  launch r stamp q = if shares_lanes q (q.heap r) then start r q else run r false stamp q

  abbrev pub has_slot : Queue P R → Bool
  has_slot q = not q.paused && ltb (length q.active + length q.starting) q.concurrency

  -- The `while` loop of `#pump`; each round takes an entry from `queued`.
  unfoldable pub fill : ℕ → Clock → Queue P R → Queue P R
  fill zero clock q = q
  fill (suc fuel) clock q = if not (has_slot q) then q else elim (take_next clock.ms q) [
    | none ↦ q
    | some (r, q') ↦ fill fuel clock (launch r clock.stamp q')
  ]

  -- One round of the loop of `#scheduleWake`: an entry that is not pending and falls due later.
  abbrev pub sooner : ℕ → Entry P R → Option ℕ → Option ℕ
  sooner now e earliest =
      if is_pending e.durability || not (is_after e.due_at now)
      then earliest
      else earlier e.due_at earliest

  abbrev pub earliest_due : (ℕ → Entry P R) → ℕ → Option ℕ → List ℕ → Option ℕ
  earliest_due heap now earliest [] = earliest
  earliest_due heap now earliest (r ∷ rs) = earliest_due heap now (sooner now (heap r) earliest) rs

  -- `#scheduleWake`: the timer that was set is cleared first.
  unfoldable pub schedule_wake : ℕ → Queue P R → Queue P R
  schedule_wake now q = record q {
    retry_timer = if q.paused || q.closed then none else earliest_due q.heap now none q.queued;
  }

  -- `#held`, as the entries and as their ids.
  abbrev pub holds_entry : Entry P R → Bool
  holds_entry e = not (is_terminal e.state) && is_stored e.durability

  unfoldable pub held : Queue P R → List String
  held q = filter_map (λ (id, r). if holds_entry (q.heap r) then some id else none) q.by_id

  -- `#scheduleHeartbeat`.
  unfoldable pub schedule_heartbeat : Queue P R → Queue P R
  unfolding held
  schedule_heartbeat q =
      if q.heartbeat_timer || not (is_some q.heartbeat_ms) || q.closed
      then q
      else if ltb 0 (length (held q)) || q.can_adopt && not q.paused
      then record q { heartbeat_timer = true }
      else q

  -- `#pump`, with one reading of the clock. A round for each queued entry is enough.
  unfoldable pub pump : Clock → Queue P R → Queue P R
  unfolding fill schedule_wake schedule_heartbeat check_idle
  pump clock q =
      check_idle (schedule_heartbeat (schedule_wake clock.ms (fill (length q.queued) clock q)))
