-- ===== src/Queue/Handlers.antt =====
-- packages/queue/src/queue.ts: what the queue does when something that it awaits comes back: a store
-- write, the store's answer about a lane, a handler, a retry policy.
pub mod Closing
use seo_optimizer.Prelude.{
  ℕ, suc, ◌+◌, ◌-◌, String, Bool, true, false, not, ◌&&◌, ◌||◌, Option, none, some, List, [], ◌∷◌,
  ◌++◌, ◌==◌, if◌then◌else◌, lookup, get_or,
}
use seo_optimizer.Queue.Types.{
  JobState, JobEvent, Cause, StoreCall, Entry, Durability, job_cancelled, job_lease_lost, thrown,
  is_terminal, is_lost, is_queued, snapshot, message_of,
}
use seo_optimizer.Queue.State.{
  Queue, Deciding, Settlement, completes, fails, cancels, erase_ref, erase_deciding, drop_lane,
  modify, emit, persist, save_op, settle, check_idle,
}
use seo_optimizer.Queue.Schedule.{Clock, run, pump}

-- What a call of the store, a handler or a policy comes back with.
pub data Reply (A : Type 0) : Type 0 where
  returned : A → Reply A
  threw : Cause → Reply A

-- What a retry policy answers with; a number that is not finite or is negative is `unusable`.
pub data Verdict : Type 0 where
  wait_ms : ℕ → Verdict
  no_retry unusable policy_threw : Verdict

-- `#retryDelay`.
abbrev pub retry_delay : Bool → Verdict → Option ℕ
retry_delay false answer = none
retry_delay true (wait_ms delay) = some delay
retry_delay true no_retry = none
retry_delay true unusable = none
retry_delay true policy_threw = none

abbrev pub after_first {ℓ} : {A : Type ℓ} → List A → List A
after_first [] = []
after_first (x ∷ xs) = xs

module _ {P R : Type 0} where
  -- The oldest of the entry's store calls is over.
  abbrev pub advance_chain : Entry P R → Entry P R
  advance_chain e = record e { store_chain = after_first e.store_chain }

  abbrev pub mark_lost : Entry P R → Entry P R
  mark_lost e = record e { durability = Durability.lost; lease_lost = true }

  abbrev pub told_lost : ℕ → Queue P R → Queue P R
  told_lost r q =
      emit (JobEvent.lease_lost (snapshot ((modify r mark_lost q).heap r))) (modify r mark_lost q)

  -- `controller.abort`: the first reason stays.
  abbrev pub abort_with : Cause → Entry P R → Entry P R
  abort_with cause e = record e { aborted = some (get_or e.aborted cause) }

  -- `#lose`, for an entry that was found by its id.
  unfoldable pub lose_entry : ℕ → ℕ → Queue P R → Queue P R
  lose_entry r stamp q =
      if is_terminal (q.heap r).state || is_lost (q.heap r).durability
      then q
      else if is_queued (q.heap r).state
      then settle r (fails (job_lease_lost (q.heap r).id)) stamp
          (record (told_lost r q) { queued = erase_ref r q.queued })
      else modify r (abort_with (job_lease_lost (q.heap r).id)) (told_lost r q)

  unfoldable pub lose : String → ℕ → Queue P R → Queue P R
  unfolding lose_entry
  lose id stamp q = elim (lookup id q.by_id) [ none ↦ q | some r ↦ lose_entry r stamp q ]

  -- A create that failed: nothing has started, so there is nothing to stop.
  unfoldable pub create_failed : ℕ → Cause → ℕ → Queue P R → Queue P R
  create_failed r error stamp q =
      if is_terminal (q.heap r).state then q else settle r (fails error) stamp q

  abbrev pub durable_entry : Entry P R → Entry P R
  durable_entry e = record (advance_chain e) { durability = Durability.stored }

  -- The create of `#create` is over: the job is durable, or it never runs.
  unfoldable pub create_returned : ℕ → Reply Unit → Clock → Queue P R → Queue P R
  unfolding create_failed
  create_returned r (returned _) clock q =
      pump clock (record (modify r durable_entry q) { writes = q.writes - 1 })
  create_returned r (threw error) clock q =
      let failed =
        create_failed r error clock.stamp
          (record (modify r advance_chain q) { queued = erase_ref r q.queued }) in
      pump clock (record failed { writes = failed.writes - 1 })

  -- What a store call's error does beyond the report to `onStoreError`.
  unfoldable pub store_error : String → Cause → ℕ → Queue P R → Queue P R
  unfolding lose
  store_error id (job_lease_lost lost) stamp q = lose id stamp q
  store_error id (job_cancelled other) stamp q = q
  store_error id (thrown message) stamp q = q

  -- A write of `#persist` is over.
  unfoldable pub write_returned : ℕ → Reply Unit → ℕ → Queue P R → Queue P R
  write_returned r (returned _) stamp q =
      check_idle (record (modify r advance_chain q) { writes = q.writes - 1 })
  write_returned r (threw error) stamp q =
      let after = store_error (q.heap r).id error stamp (modify r advance_chain q) in
      check_idle (record after { writes = after.writes - 1 })

  abbrev pub unstarted : ℕ → Queue P R → Queue P R
  unstarted r q = record q {
    starting = erase_ref r q.starting;
    busy_lanes = drop_lane (q.heap r).lane q.busy_lanes;
  }

  abbrev pub ask_later : ℕ → Entry P R → Entry P R
  ask_later due e = record e { due_at = some due }

  abbrev pub refused : ℕ → Clock → Queue P R → Queue P R
  refused r clock q = record (modify r (ask_later (clock.ms + get_or q.heartbeat_ms 0)) q) {
    queued = q.queued ++ r ∷ [];
  }

  -- `#start` behind its `await`, the answer known.
  unfoldable pub acquire_decided : ℕ → (granted : Bool) → Clock → Queue P R → Queue P R
  acquire_decided r granted clock q =
      if is_terminal (q.heap r).state
      then pump clock (unstarted r q)
      else if granted
      then run r true clock.stamp (unstarted r q)
      else pump clock (
          emit (JobEvent.lane_held (snapshot ((refused r clock (unstarted r q)).heap r)))
            (refused r clock (unstarted r q)))

  -- A store that cannot answer is a refusal.
  unfoldable pub acquire_returned : ℕ → Reply Bool → Clock → Queue P R → Queue P R
  unfolding acquire_decided store_error
  acquire_returned r (returned granted) clock q =
      acquire_decided r granted clock (modify r advance_chain q)
  acquire_returned r (threw error) clock q =
      acquire_decided r false clock
        (store_error (q.heap r).id error clock.stamp (modify r advance_chain q))

  abbrev pub back_entry : Cause → ℕ → Clock → Entry P R → Entry P R
  back_entry cause delay clock e = record e {
    state = JobState.queued;
    started_at = none;
    finished_at = none;
    error = some (message_of cause);
    not_before = some (clock.stamp + delay);
    due_at = some (clock.ms + delay);
  }

  -- `#requeue`.
  unfoldable pub requeue : ℕ → Cause → ℕ → Clock → Queue P R → Queue P R
  unfolding persist
  requeue r cause delay clock q =
      let back = record (modify r (back_entry cause delay clock) q) {
        queued = q.queued ++ r ∷ [];
      } in
      let written = persist r save_op back in
      emit (JobEvent.retrying (snapshot (written.heap r)) cause delay) written

  -- What the queue asks of the retry policy.
  abbrev pub question : ℕ → Cause → Queue P R → Deciding
  question r cause q = record { entry = r; cause = cause; asked = q.has_policy && not q.closed }

  -- The slot and the lane are given back before anything else.
  abbrev pub inactive : ℕ → Queue P R → Queue P R
  inactive r q = record q {
    active = erase_ref r q.active;
    busy_lanes = drop_lane (q.heap r).lane q.busy_lanes;
  }

  -- A handler that was neither cancelled nor displaced: done, or the retry policy is asked.
  unfoldable pub handler_answered : ℕ → Reply R → Clock → Queue P R → Queue P R
  handler_answered r (returned result) clock q =
      pump clock (settle r (completes result) clock.stamp q)
  handler_answered r (threw cause) clock q = record q { deciding = question r cause q ∷ q.deciding }

  -- `#run` once the handler is over.
  unfoldable pub handler_returned : ℕ → Reply R → Clock → Queue P R → Queue P R
  unfolding handler_answered
  handler_returned r reply clock q =
      if (q.heap r).lease_lost
      then pump clock (settle r (fails (job_lease_lost (q.heap r).id)) clock.stamp (inactive r q))
      else if (q.heap r).cancel_requested
      then pump clock (settle r (cancels (job_cancelled (q.heap r).id)) clock.stamp (inactive r q))
      else handler_answered r reply clock (inactive r q)

  -- The usable delay, or `null`.
  unfoldable pub decide_delay : Deciding → Option ℕ → Clock → Queue P R → Queue P R
  decide_delay d none clock q = settle d.entry (fails d.cause) clock.stamp q
  decide_delay d (some delay) clock q = requeue d.entry d.cause delay clock q

  abbrev pub undecided : ℕ → Queue P R → Queue P R
  undecided r q = record q { deciding = erase_deciding r q.deciding }

  -- The answer about an entry whose decision was pending; `#deciding` falls when it is dealt with.
  unfoldable pub decide : Deciding → Verdict → Clock → Queue P R → Queue P R
  unfolding decide_delay
  decide d answer clock q =
      if (q.heap d.entry).cancel_requested
      then settle d.entry (cancels (job_cancelled (q.heap d.entry).id)) clock.stamp
          (undecided d.entry q)
      else decide_delay d (retry_delay d.asked answer) clock (undecided d.entry q)

  unfoldable pub policy_returned : Deciding → Verdict → Clock → Queue P R → Queue P R
  unfolding decide
  policy_returned d answer clock q = pump clock (decide d answer clock q)
