-- ===== src/Queue/Invariant/Answers.antt =====
-- What a handler or a retry policy comes back with keeps the invariant.
use seo_optimizer.Prelude.{ℕ, ◌≡◌, ◌<◌, refl, ◌∙◌, true, Option, none, some, List, [], ◌∷◌, arith}
use seo_optimizer.Queue.Types.{Entry, Cause, job_lease_lost, job_cancelled, is_queued, is_running}
use seo_optimizer.Queue.State.{
  Queue, Deciding, completes, fails, cancels, count_ref, deciding_refs, save_op,
}
use seo_optimizer.Queue.Schedule.{Clock}
use seo_optimizer.Queue.Handlers.{
  Reply, returned, threw, Verdict, back_entry, question, inactive, undecided, handler_answered,
  decide_delay, retry_delay, requeue, handler_returned, decide, policy_returned,
}
use seo_optimizer.Queue.Step.{IsIn, here, there}
use seo_optimizer.Queue.Invariant.{IsSound, Inv, starts_create}
use seo_optimizer.Queue.Invariant.Frames.{persist-Inv, emit-Inv, test-Inv}
use seo_optimizer.Queue.Invariant.Starts.{IsLoose, pump-Inv}
use seo_optimizer.Queue.Invariant.Ends.{settle-Inv, requeued, requeued-Inv}
use seo_optimizer.Queue.Invariant.Slots.{
  inactive-Inv, deciding_pushed-Inv, undecided-Inv, loose-IsAside,
}

IsIn-count :
    (d : Deciding) (ds : List Deciding) → IsIn d ds → 0 < count_ref d.entry (deciding_refs ds)
IsIn-count d [] m = elim m [ ]
IsIn-count d (c ∷ ds) (here _) = ground arith
IsIn-count d (c ∷ ds) (there _ _ m) = ground (arith, IsIn-count d ds m)

module _ {P R : Type 0} where
  -- A running job that is put back in line is sound.
  back_IsSound :
      (e f : Entry P R)
      → is_running e.state ≡ true
      → is_queued f.state ≡ true
      → f.store_chain ≡ e.store_chain
      → f.outcome ≡ e.outcome
      → IsSound e
      → IsSound f
  back_IsSound e f running waits chain out s = record {
    running_durable = λ k. ground arith;
    one_create = rw chain s.one_create;
    create_first = λ k. absurd (no_start (rw chain at k));
    settled = rw out (s.settled ∙ ground arith);
  }
    where
      no_start : starts_create e.store_chain ≡ true → ⊥
      no_start k = ground (arith, s.create_first k, s.running_durable running)

  requeue-Inv :
      (r : ℕ) (cause : Cause) (delay : ℕ) (clock : Clock) (q : Queue P R)
      → IsLoose q r
      → is_running (q.heap r).state ≡ true
      → Inv q
      → Inv (requeue r cause delay clock q)
  unfolding requeue
  requeue-Inv r cause delay clock q l running v = emit-Inv _ _ (
      persist-Inv r save_op (requeued r (back_entry cause delay clock) q) (
        requeued-Inv r (back_entry cause delay clock) q l refl
          (back_IsSound (q.heap r) (back_entry cause delay clock (q.heap r)) running refl refl refl
            (v.sound r l.known))
          v))

  decide_delay-Inv :
      (d : Deciding) (delay : Option ℕ) (clock : Clock) (q : Queue P R)
      → IsLoose q d.entry
      → is_running (q.heap d.entry).state ≡ true
      → Inv q
      → Inv (decide_delay d delay clock q)
  unfolding decide_delay
  decide_delay-Inv d none clock q l running v =
      settle-Inv d.entry (fails d.cause) clock.stamp q (loose-IsAside q d.entry l) v
  decide_delay-Inv d (some delay) clock q l running v =
      requeue-Inv d.entry d.cause delay clock q l running v

  pub decide-Inv :
      (d : Deciding) (answer : Verdict) (clock : Clock) (q : Queue P R)
      → IsIn d q.deciding
      → Inv q
      → Inv (decide d answer clock q)
  unfolding decide
  decide-Inv d answer clock q m v =
      let (w, l) = undecided-Inv d.entry q (IsIn-count d q.deciding m) v in
      let running = (v.placed d.entry).running_state (omega (arith, IsIn-count d q.deciding m)) in
      test-Inv (q.heap d.entry).cancel_requested
        (λ e.
          settle-Inv d.entry (cancels (job_cancelled (q.heap d.entry).id)) clock.stamp
            (undecided d.entry q) (loose-IsAside (undecided d.entry q) d.entry l) w)
        (λ e.
          decide_delay-Inv d (retry_delay d.asked answer) clock (undecided d.entry q) l running w)

  pub policy_returned-Inv :
      (d : Deciding) (answer : Verdict) (clock : Clock) (q : Queue P R)
      → IsIn d q.deciding
      → Inv q
      → Inv (policy_returned d answer clock q)
  unfolding policy_returned
  policy_returned-Inv d answer clock q m v = pump-Inv clock _ (decide-Inv d answer clock q m v)

  handler_answered-Inv :
      (r : ℕ) (reply : Reply R) (clock : Clock) (q : Queue P R)
      → IsLoose q r
      → is_running (q.heap r).state ≡ true
      → Inv q
      → Inv (handler_answered r reply clock q)
  unfolding handler_answered
  handler_answered-Inv r (returned result) clock q l running v =
      pump-Inv clock _ (settle-Inv r (completes result) clock.stamp q (loose-IsAside q r l) v)
  handler_answered-Inv r (threw cause) clock q l running v =
      deciding_pushed-Inv (question r cause q) q l running v

  pub handler_returned-Inv :
      (r : ℕ) (reply : Reply R) (clock : Clock) (q : Queue P R)
      → 0 < count_ref r q.active
      → Inv q
      → Inv (handler_returned r reply clock q)
  unfolding handler_returned
  handler_returned-Inv r reply clock q h v =
      let (w, l) = inactive-Inv r q h v in
      let aside = loose-IsAside (inactive r q) r l in
      test-Inv (q.heap r).lease_lost
        (λ e.
          pump-Inv clock _ (
            settle-Inv r (fails (job_lease_lost (q.heap r).id)) clock.stamp (inactive r q) aside w))
        (λ e.
          test-Inv (q.heap r).cancel_requested
            (λ f. pump-Inv clock _ (
              settle-Inv r (cancels (job_cancelled (q.heap r).id)) clock.stamp (inactive r q) aside
                w))
            (λ f.
              handler_answered-Inv r reply clock (inactive r q) l
                ((v.placed r).running_state (omega arith)) w))
