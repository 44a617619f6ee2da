-- ===== src/Queue/Invariant/Methods.antt =====
-- The other methods of `Api` and the timers' callbacks keep the invariant.
use seo_optimizer.Prelude.{
  ℕ, ◌+◌, ◌≡◌, refl, Bool, true, false, not, Option, none, some, List, [], ◌∷◌, String, arith,
  lookup, is_some,
}
use seo_optimizer.Queue.Types.{Entry, StoredJob, job_cancelled, is_queued, is_terminal}
use seo_optimizer.Queue.State.{Queue, cancels, idle}
use seo_optimizer.Queue.Schedule.{Clock, schedule_wake}
use seo_optimizer.Queue.Handlers.{Reply, returned, threw, lose}
use seo_optimizer.Queue.Api.{
  request_cancel, cancel_entry, cancel, pause, resume, drain, cancel_refs, close, woken, lose_all,
  beat_begins, renewed, adopt_one, adopt_all, beat_ends,
}
use seo_optimizer.Queue.Invariant.{IsSound, Inv}
use seo_optimizer.Queue.Invariant.Lists.{count-erase}
use seo_optimizer.Queue.Invariant.Frames.{
  emit-Inv, modify-Inv, test-Inv, paused-Inv, waiters-Inv, timers-Inv, schedule_wake-Inv,
  schedule_heartbeat-Inv,
}
use seo_optimizer.Queue.Invariant.Starts.{dequeued, dequeued-Inv, pump-Inv}
use seo_optimizer.Queue.Invariant.Ends.{IsAside, settle-Inv}
use seo_optimizer.Queue.Invariant.Losses.{lose-Inv}
use seo_optimizer.Queue.Invariant.Admission.{some_if-Inv, some-Inv, restore-Inv}

module _ {P R : Type 0} where
  request-IsSound : (e : Entry P R) → IsSound e → IsSound (request_cancel e)
  request-IsSound e s = record {
    running_durable = s.running_durable;
    one_create = s.one_create;
    create_first = s.create_first;
    settled = s.settled;
  }

  dequeued-IsAside :
      (r : ℕ) (q : Queue P R) → is_queued (q.heap r).state ≡ true → Inv q → IsAside (dequeued r q) r
  dequeued-IsAside r q waits v =
      ground (arith, count-erase r r q.queued, (v.placed r).once, (v.placed r).running_state)

  pub cancel_entry-Inv :
      (r : ℕ) (clock : Clock) (q : Queue P R) → Inv q → Inv (cancel_entry r clock q)
  unfolding cancel_entry
  cancel_entry-Inv r clock q v =
      test-Inv (is_terminal (q.heap r).state) (λ e. v)
        (λ e.
          test-Inv (is_queued (q.heap r).state)
            (λ f. pump-Inv clock _ (
              settle-Inv r (cancels (job_cancelled (q.heap r).id)) clock.stamp (dequeued r q)
                (dequeued-IsAside r q f v) (dequeued-Inv r q v)))
            (λ f. modify-Inv r request_cancel q (λ e. (refl, refl, λ p. p, request-IsSound e)) v))

  pub cancel-Inv : (id : String) (clock : Clock) (q : Queue P R) → Inv q → Inv (cancel id clock q).0
  unfolding cancel
  cancel-Inv id clock q v = found (lookup id q.by_id)
    where
      found :
          (o : Option ℕ)
          → Inv (
              let p : Queue P R × Bool = elim o [
                | none ↦ (q, false)
                | some r ↦ (cancel_entry r clock q, not (is_terminal (q.heap r).state))
              ] in
              p.0)
      found none = v
      found (some r) = cancel_entry-Inv r clock q v

  pub pause-Inv : (q : Queue P R) → Inv q → Inv (pause q)
  unfolding pause
  pause-Inv q = paused-Inv true q.closed q

  pub resume-Inv : (clock : Clock) (q q' : Queue P R) → resume clock q ≡ some q' → Inv q → Inv q'
  unfolding resume
  resume-Inv clock q q' h v =
      some_if-Inv q.closed _ q'
        (λ _ p k. some-Inv _ p (pump-Inv clock _ (paused-Inv false q.closed q v)) k) h

  pub drain-Inv : (q : Queue P R) → Inv q → Inv (drain q)
  unfolding drain
  drain-Inv q v =
      test-Inv (idle q) (λ e. waiters-Inv q.idle_waiters (q.drained + 1) q v)
        (λ e. waiters-Inv (q.idle_waiters + 1) q.drained q v)

  pub cancel_refs-Inv :
      (rs : List ℕ) (clock : Clock) (q : Queue P R) → Inv q → Inv (cancel_refs rs clock q)
  cancel_refs-Inv [] clock q v = v
  cancel_refs-Inv (r ∷ rs) clock q v =
      cancel_refs-Inv rs clock (cancel (q.heap r).id clock q).0 (cancel-Inv (q.heap r).id clock q v)

  pub close-Inv : (clock : Clock) (q : Queue P R) → Inv q → Inv (close clock q)
  unfolding close
  close-Inv clock q v =
      let stopped = schedule_wake clock.ms (record q { paused = true; closed = true }) in
      let shut = record stopped { heartbeat_timer = false } in
      let first = cancel_refs shut.queued clock shut in
      let second = cancel_refs first.starting clock first in
      let third = cancel_refs second.active clock second in
      let v0 =
        timers-Inv stopped.retry_timer false stopped
          (schedule_wake-Inv clock.ms _ (paused-Inv true true q v)) in
      let v1 = cancel_refs-Inv shut.queued clock shut v0 in
      let v2 = cancel_refs-Inv first.starting clock first v1 in
      let v3 = cancel_refs-Inv second.active clock second v2 in
      test-Inv (idle third) (λ e. v3) (λ e. drain-Inv third v3)

  pub woken-Inv : (clock : Clock) (q : Queue P R) → Inv q → Inv (woken clock q)
  unfolding woken
  woken-Inv clock q v = pump-Inv clock _ (timers-Inv none q.heartbeat_timer q v)

  pub lose_all-Inv :
      (ids : List String) (stamp : ℕ) (q : Queue P R) → Inv q → Inv (lose_all ids stamp q)
  lose_all-Inv [] stamp q v = v
  lose_all-Inv (id ∷ ids) stamp q v =
      lose_all-Inv ids stamp (lose id stamp q) (lose-Inv id stamp q v)

  pub beat_begins-Inv : (q : Queue P R) → Inv q → Inv (beat_begins q)
  unfolding beat_begins
  beat_begins-Inv q = timers-Inv q.retry_timer false q

  pub renewed-Inv :
      (reply : Reply (List String)) (stamp : ℕ) (q : Queue P R)
      → Inv q
      → Inv (renewed reply stamp q)
  unfolding renewed
  renewed-Inv (returned lost) stamp q v = lose_all-Inv lost stamp q v
  renewed-Inv (threw error) stamp q v = v

  adopt_one-Inv :
      (job : StoredJob P) (clock : Clock) (q : Queue P R) → Inv q → Inv (adopt_one job clock q)
  unfolding adopt_one
  adopt_one-Inv job clock q v =
      test-Inv (is_some (lookup job.id q.by_id)) (λ e. v)
        (λ e. emit-Inv _ _ (restore-Inv job clock q v))

  adopt_all-Inv :
      (jobs : List (StoredJob P)) (clock : Clock) (q : Queue P R)
      → Inv q
      → Inv (adopt_all jobs clock q)
  adopt_all-Inv [] clock q v = v
  adopt_all-Inv (job ∷ jobs) clock q v =
      adopt_all-Inv jobs clock (adopt_one job clock q) (adopt_one-Inv job clock q v)

  pub beat_ends-Inv :
      (jobs : List (StoredJob P)) (clock : Clock) (q : Queue P R)
      → Inv q
      → Inv (beat_ends jobs clock q)
  unfolding beat_ends
  beat_ends-Inv jobs clock q v =
      pump-Inv clock _ (schedule_heartbeat-Inv _ (adopt_all-Inv jobs clock q v))
