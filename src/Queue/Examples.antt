-- ===== src/Queue/Examples.antt =====
-- The results on packages/queue/src at a queue of two slots, and at a store that two workers share.
use seo_optimizer.Prelude.{
  ℕ, ◌+◌, ◌≡◌, ◌≤◌, ◌<◌, refl, String, true, false, not, Option, none, some, [], ◌∷◌, arith, length,
  all, has, is_some, if◌then◌else◌, ◌==◌,
}
use seo_optimizer.Prelude.Int.{pos}
use seo_optimizer.Queue.Types.{
  Entry, JobState, Durability, StoredJob, thrown, job_lease_lost, is_terminal,
}
use seo_optimizer.Queue.State.{
  Config, Queue, Deciding, count_ref, deciding_refs, remember, idle, persist,
}
use seo_optimizer.Queue.Schedule.{Clock, take_next, has_slot, pump, launch}
use seo_optimizer.Queue.Schedule.Choice.{Picked, take_next-Picked}
use seo_optimizer.Queue.Schedule.Dispatch.{is_accounted, pump-accounted}
use seo_optimizer.Queue.Handlers.{returned, threw, wait_ms, policy_returned}
use seo_optimizer.Queue.Handlers.Closing.{policy_returned-strands}
use seo_optimizer.Queue.Api.{init, fresh_queue, enqueue, admit}
use seo_optimizer.Queue.Step.{enqueues, Reach, start, next}
use seo_optimizer.Queue.Invariant.{same_lane}
use seo_optimizer.Queue.Invariant.Runs.{run-bounded, run-lanes, run-places, run-settled}
use seo_optimizer.Queue.History.{IsEvicted, remember-IsEvicted}
use seo_optimizer.Queue.MemoryStore.{Handle, Rows, abandoned, save, acquire, remove, renew, adopt}
use seo_optimizer.Queue.MemoryStore.Leases.{claimed-refuses}
use seo_optimizer.Queue.MemoryStore.Lanes.{acquire-excludes}
use seo_optimizer.Queue.MemoryStore.Adoption.{ids_of, adopt_lem, adopt-disjoint}

abbrev two_slots : Config ℕ
two_slots = record {
  concurrency = 2;
  history_limit = 1;
  heartbeat_ms = none;
  has_store = false;
  can_acquire = false;
  can_adopt = false;
  has_policy = true;
  revive_lane = λ payload lane. lane;
}

abbrev blank : Entry ℕ ℕ
blank = record {
  id = "";
  payload = 0;
  lane = none;
  priority = pos 0;
  enqueued_at = 0;
  aborted = none;
  outcome = none;
  state = JobState.queued;
  attempt = 0;
  started_at = none;
  finished_at = none;
  not_before = none;
  due_at = none;
  error = none;
  cancel_requested = false;
  lease_lost = false;
  durability = Durability.in_memory;
  store_chain = [];
}

abbrev at : ℕ → Clock
at ms = record { stamp = ms; ms = ms }

abbrev first : Queue ℕ ℕ
first = fresh_queue two_slots false blank

first_made : init two_slots false blank ≡ some first
unfolding init
first_made = refl

-- The queue that a call gives, which is there.
abbrev given : Queue ℕ ℕ → Option (Queue ℕ ℕ) → Queue ℕ ℕ
given q none = q
given q (some q') = q'

abbrev after_a : Queue ℕ ℕ
after_a = given first (enqueue "a" 1 (some "x.example") (pos 0) (at 10) first)

abbrev after_b : Queue ℕ ℕ
after_b = given after_a (enqueue "b" 2 (some "y.example") (pos 0) (at 20) after_a)

a_enqueued : enqueue "a" 1 (some "x.example") (pos 0) (at 10) first ≡ some after_a
unfolding enqueue
a_enqueued = refl

b_enqueued : enqueue "b" 2 (some "y.example") (pos 0) (at 20) after_a ≡ some after_b
unfolding enqueue admit pump idle take_next launch persist
b_enqueued = refl

both_run : Reach first after_b
both_run =
    next (next start (enqueues "a" 1 (some "x.example") (pos 0) (at 10) a_enqueued))
      (enqueues "b" 2 (some "y.example") (pos 0) (at 20) b_enqueued)

a_holds : 0 < count_ref 0 after_b.starting + count_ref 0 after_b.active
unfolding enqueue admit pump idle take_next launch persist
a_holds = omega arith

b_holds : 0 < count_ref 1 after_b.starting + count_ref 1 after_b.active
unfolding enqueue admit pump idle take_next launch persist
b_holds = omega arith

run-lanes_example : same_lane (after_b.heap 0).lane (after_b.heap 1).lane ≡ false
run-lanes_example =
    run-lanes two_slots false blank first after_b first_made both_run 0 1 (omega arith) a_holds
      b_holds

run-bounded_example : length after_b.active + length after_b.starting ≤ after_b.concurrency
run-bounded_example = run-bounded two_slots false blank first after_b first_made both_run

run-places_example :
    count_ref 1 after_b.queued
      + count_ref 1 after_b.starting
      + count_ref 1 after_b.active
      + count_ref 1 (deciding_refs after_b.deciding)
    ≤ 1
run-places_example = (run-places two_slots false blank first after_b first_made both_run 1).0

known : 0 < after_b.next
unfolding enqueue admit pump idle take_next launch persist
known = omega arith

run-settled_example : is_some (after_b.heap 0).outcome ≡ is_terminal (after_b.heap 0).state
run-settled_example = run-settled two_slots false blank first after_b first_made both_run 0 known

-- A line of three: the second has the highest priority, and the third shares its lane with nobody.
abbrev line_heap : ℕ → Entry ℕ ℕ
line_heap r =
    if r == 1
    then record blank { priority = pos 5 }
    else if r == 2
    then record blank { due_at = some 90; durability = Durability.stored }
    else blank

abbrev in_line : Queue ℕ ℕ
in_line = record first { heap = line_heap; next = 3; queued = 0 ∷ 1 ∷ 2 ∷ [] }

take_next-Picked_example : Picked 50 in_line (take_next 50 in_line)
take_next-Picked_example = take_next-Picked 50 in_line

abbrev one_later : Queue ℕ ℕ
one_later = record first { heap = line_heap; next = 3; queued = 2 ∷ [] }

still_open : (pump (at 50) one_later).closed ≡ false
unfolding pump idle take_next launch persist
still_open = refl

still_free : has_slot (pump (at 50) one_later) ≡ true
unfolding pump idle take_next launch persist
still_free = refl

pump-accounted_example :
    all (is_accounted (pump (at 50) one_later) 50) (pump (at 50) one_later).queued ≡ true
pump-accounted_example = pump-accounted (at 50) one_later still_open still_free

remember-IsEvicted_example :
    IsEvicted 1
      ("a" ∷ "b" ∷ [])
      (remember "b" (record first { finished = "a" ∷ [] })).finished
      (remember "b" (record first { finished = "a" ∷ [] })).by_id
remember-IsEvicted_example = remember-IsEvicted "b" (record first { finished = "a" ∷ [] })

abbrev decision : Deciding
decision = record { entry = 0; cause = thrown "boom"; asked = true }

abbrev shut : Queue ℕ ℕ
shut = record first {
  heap = λ r. record blank { state = JobState.running };
  next = 1;
  deciding = decision ∷ [];
  paused = true;
  closed = true;
  idle_waiters = 1;
}

policy_returned-strands_example :
    (0 < count_ref 0 (policy_returned decision (wait_ms 5) (at 50) shut).queued)
    × ((policy_returned decision (wait_ms 5) (at 50) shut).paused ≡ true)
    × ((policy_returned decision (wait_ms 5) (at 50) shut).closed ≡ true)
    × ((policy_returned decision (wait_ms 5) (at 50) shut).drained ≡ 0)
policy_returned-strands_example =
    policy_returned-strands decision 5 (at 50) shut refl refl refl refl

abbrev ada : Handle
ada = record { owner = "ada"; lease_ms = some 100 }

abbrev bob : Handle
bob = record { owner = "bob"; lease_ms = some 100 }

abbrev stored_job : String → StoredJob ℕ
stored_job id = record {
  id = id;
  payload = 0;
  lane = some "x.example";
  priority = pos 0;
  state = JobState.running;
  attempt = 1;
  enqueued_at = 5;
  next_attempt_at = none;
  error = none;
}

abbrev no_rows : Rows ℕ
no_rows = record { jobs = []; leases = [] }

abbrev ada_rows : Rows ℕ
ada_rows = record {
  jobs = ("j", stored_job "j") ∷ [];
  leases = ("j", record { owner = "ada"; leased_at = 10 }) ∷ [];
}

claimed-refuses_example :
    (save bob 20 (stored_job "j") ada_rows ≡ (threw (job_lease_lost "j"), ada_rows))
    × (remove bob 20 "j" ada_rows ≡ ada_rows)
    × (renew bob 20 ("j" ∷ []) ada_rows ≡ ("j" ∷ [], ada_rows))
claimed-refuses_example =
    claimed-refuses ada bob 100 10 20 (stored_job "j") ada_rows refl refl (omega arith) refl

ada_granted : (acquire ada 10 (stored_job "j") no_rows).0 ≡ returned true
unfolding acquire save
ada_granted = refl

acquire-excludes_example :
    acquire bob 20 (stored_job "k") (acquire ada 10 (stored_job "j") no_rows).1
    ≡ (returned false, (acquire ada 10 (stored_job "j") no_rows).1)
acquire-excludes_example =
    acquire-excludes ada bob 100 10 20 "x.example" (stored_job "j") (stored_job "k") no_rows refl
      refl (omega arith) refl refl refl refl ada_granted

adopt_lem_example : all (λ j. abandoned bob 200 ada_rows j.id) (adopt bob 200 ada_rows).0 ≡ true
adopt_lem_example = (adopt_lem bob 200 ada_rows).1

adopt-disjoint_example :
    all
      (λ j. not (has (ids_of (adopt bob 200 ada_rows).0) j.id))
      (adopt ada 210 (adopt bob 200 ada_rows).1).0
    ≡ true
adopt-disjoint_example = adopt-disjoint bob ada 100 200 210 ada_rows refl (omega arith)
