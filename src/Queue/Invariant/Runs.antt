-- ===== src/Queue/Invariant/Runs.antt =====
-- Every run of a queue keeps the invariant, and what that says of what runs at once.
use seo_optimizer.Prelude.{ℕ, ◌+◌, ◌≡◌, ◌≢◌, ◌≤◌, ◌<◌, ap, Bool, true, false, some, length, is_some}
use seo_optimizer.Queue.Types.{Entry, is_terminal, is_queued, is_running}
use seo_optimizer.Queue.State.{Config, Queue, count_ref, deciding_refs}
use seo_optimizer.Queue.Api.{init}
use seo_optimizer.Queue.Step.{
  Step, enqueues, recovers, loads, cancels, pauses, resumes, drains, closes, creates, writes,
  acquires, handles, decides, wakes, beats, renews, ends_beat, Reach, start, next,
}
use seo_optimizer.Queue.Invariant.{Inv, same_lane, starts_create}
use seo_optimizer.Queue.Invariant.Losses.{write_returned-Inv}
use seo_optimizer.Queue.Invariant.Answers.{handler_returned-Inv, policy_returned-Inv}
use seo_optimizer.Queue.Invariant.Stores.{create_returned-Inv, acquire_returned-Inv}
use seo_optimizer.Queue.Invariant.Admission.{init-Inv, enqueue-Inv, recover-Inv, loaded-Inv}
use seo_optimizer.Queue.Invariant.Methods.{
  cancel-Inv, pause-Inv, resume-Inv, drain-Inv, close-Inv, woken-Inv, beat_begins-Inv, renewed-Inv,
  beat_ends-Inv,
}

module _ {P R : Type 0} where
  -- Every step, whatever comes back and in whatever order, keeps the invariant.
  pub Step-Inv : {q q' : Queue P R} → Step q q' → Inv q → Inv q'
  Step-Inv {q} {q'} (enqueues id payload lane priority clock e) v =
      enqueue-Inv id payload lane priority clock q q' e v
  Step-Inv {q} {q'} (recovers e) v = recover-Inv q q' e v
  Step-Inv {q} (loads jobs clock) v = loaded-Inv jobs clock q v
  Step-Inv {q} (cancels id clock) v = cancel-Inv id clock q v
  Step-Inv {q} pauses v = pause-Inv q v
  Step-Inv {q} {q'} (resumes clock e) v = resume-Inv clock q q' e v
  Step-Inv {q} drains v = drain-Inv q v
  Step-Inv {q} (closes clock) v = close-Inv clock q v
  Step-Inv {q} (creates r job later reply clock known e) v =
      create_returned-Inv r reply clock q known (ap starts_create e) v
  Step-Inv {q} (writes r call later reply stamp known w e) v = write_returned-Inv r reply stamp q v
  Step-Inv {q} (acquires r job later reply clock h e) v = acquire_returned-Inv r reply clock q h v
  Step-Inv {q} (handles r reply clock h) v = handler_returned-Inv r reply clock q h v
  Step-Inv {q} (decides d answer clock m) v = policy_returned-Inv d answer clock q m v
  Step-Inv {q} (wakes clock) v = woken-Inv clock q v
  Step-Inv {q} beats v = beat_begins-Inv q v
  Step-Inv {q} (renews reply stamp) v = renewed-Inv reply stamp q v
  Step-Inv {q} (ends_beat jobs clock) v = beat_ends-Inv jobs clock q v

  Reach-Inv : {first q : Queue P R} → Reach first q → Inv first → Inv q
  Reach-Inv start v = v
  Reach-Inv (next run step) v = Step-Inv step (Reach-Inv run v)

  module _ (config : Config P) (paused : Bool) (blank : Entry P R) (first q : Queue P R)
      (made : init config paused blank ≡ some first) (run : Reach first q) where
    run-Inv : Inv q
    run-Inv = Reach-Inv run (init-Inv config paused blank first made)

    -- In every queue that a new one may become, the jobs that run and those whose lane is being asked
    -- for are together at most `concurrency`.
    pub run-bounded : length q.active + length q.starting ≤ q.concurrency
    run-bounded = run-Inv.slots

    -- In every queue that a new one may become, two different jobs that each hold a slot never share a
    -- lane.
    pub run-lanes :
        (r s : ℕ)
        → r ≢ s
        → 0 < count_ref r q.starting + count_ref r q.active
        → 0 < count_ref s q.starting + count_ref s q.active
        → same_lane (q.heap r).lane (q.heap s).lane ≡ false
    run-lanes r s n hr hs = run-Inv.apart r s n hr hs

    -- In every queue that a new one may become, a job stands at most once in the line, the slots, the
    -- lane claims and the pending decisions together; where it stands in the line its state is queued,
    -- and where it runs or its retry is being decided its state is running.
    pub run-places :
        (r : ℕ)
        → (count_ref r q.queued
              + count_ref r q.starting
              + count_ref r q.active
              + count_ref r (deciding_refs q.deciding)
            ≤ 1)
          × (0 < count_ref r q.queued → is_queued (q.heap r).state ≡ true)
          × (0 < count_ref r q.active + count_ref r (deciding_refs q.deciding)
              → is_running (q.heap r).state ≡ true)
    run-places r = let p = run-Inv.placed r in (p.once, p.queued_state, p.running_state)

    -- In every queue that a new one may become, a job's promise has settled exactly when its state is
    -- complete, failed or cancelled.
    pub run-settled :
        (r : ℕ) → r < q.next → is_some (q.heap r).outcome ≡ is_terminal (q.heap r).state
    run-settled r known = (run-Inv.sound r known).settled
