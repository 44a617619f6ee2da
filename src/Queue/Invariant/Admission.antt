-- ===== src/Queue/Invariant/Admission.antt =====
-- A new queue has the invariant, and every way in keeps it: `enqueue`, `recover` and a restore.
use seo_optimizer.Prelude.{
  ◌≡◌, refl, ap, subst, Bool, true, false, Option, none, some, List, [], ◌∷◌, String, arith, ltb,
  if◌then◌else◌, lookup, get_or, is_some,
}
use seo_optimizer.Prelude.Int.{ℤ}
use seo_optimizer.Queue.Types.{Entry, StoredJob, is_queued}
use seo_optimizer.Queue.State.{Config, Queue}
use seo_optimizer.Queue.Schedule.{Clock}
use seo_optimizer.Queue.Api.{
  Seed, fresh_queue, init, admitted, admit, enqueued_entry, seed_of, enqueue, restored_entry,
  restore, restore_all, recover, loaded,
}
use seo_optimizer.Queue.Invariant.{IsSound, Inv}
use seo_optimizer.Queue.Invariant.Lists.{count-snoc}
use seo_optimizer.Queue.Invariant.Moves.{moved-Inv, modify_self, modify_ne}
use seo_optimizer.Queue.Invariant.Frames.{
  emit-Inv, writes-Inv, test-Inv, recovered-Inv, schedule_heartbeat-Inv,
}
use seo_optimizer.Queue.Invariant.Starts.{pump-Inv}

module _ {P R : Type 0} where
  fresh_queue-Inv :
      (config : Config P) (paused : Bool) (blank : Entry P R)
      → Inv (fresh_queue config paused blank)
  fresh_queue-Inv config paused blank = record {
    sound = λ r h. absurd (omega arith);
    placed = λ r. record {
      once = omega arith;
      fresh = λ h. refl;
      queued_state = λ h. absurd (omega arith);
      running_state = λ h. absurd (omega arith);
      starting_state = λ h. absurd (omega arith);
      starting_durable = λ h. absurd (omega arith);
      lane_held = λ h. absurd (omega arith);
    };
    apart = λ r s n h k. absurd (omega arith);
    slots = omega arith;
  }

  -- A call that gives a queue or an error.
  pub some_if-Inv :
      (b : Bool) (o : Option (Queue P R)) (q' : Queue P R)
      → (b ≡ false → (p : Queue P R) → o ≡ some p → Inv p)
      → (if b then none else o) ≡ some q'
      → Inv q'
  some_if-Inv true o q' k h = cc
  some_if-Inv false o q' k h = k refl q' h

  pub some-Inv : (p q' : Queue P R) → Inv p → some p ≡ some q' → Inv q'
  some-Inv p q' v h = subst Inv (ap (λ o. get_or o p) h) v

  -- A queue that the constructor gives has the invariant.
  pub init-Inv :
      (config : Config P) (paused : Bool) (blank : Entry P R) (q : Queue P R)
      → init config paused blank ≡ some q
      → Inv q
  unfolding init
  init-Inv config paused blank q h =
      some_if-Inv (ltb config.concurrency 1) _ q
        (λ _ p k. some-Inv _ p (fresh_queue-Inv config paused blank) k) h

  admitted-Inv :
      (entry : Entry P R) (q : Queue P R)
      → is_queued entry.state ≡ true
      → IsSound entry
      → Inv q
      → Inv (admitted entry q)
  admitted-Inv entry q waits sound v =
      let r = q.next in
      let f : Entry P R → Entry P R = λ _. entry in
      let none_here = (v.placed r).fresh (omega arith) in
      let c = count-snoc r q.queued r in
      moved-Inv q (admitted entry q) r v (omega arith)
        (λ s n. record {
          queued_same = ground (arith, count-snoc s q.queued r);
          starting_same = refl;
          active_same = refl;
          deciding_same = refl;
          lane_same = ap (λ (e : Entry P R). e.lane) (modify_ne r s f q n);
          state_same = ap (λ (e : Entry P R). e.state) (modify_ne r s f q n);
          pending_less = λ h. rw (modify_ne r s f q n) h;
          sound_kept = λ h. rw (modify_ne r s f q n) h;
        })
        (λ s n k. omega arith) (λ k. rw (modify_self r f q) sound)
        (record {
          once = ground (arith, none_here, c);
          fresh = λ k. absurd (omega arith);
          queued_state = λ k. rw (modify_self r f q) waits;
          running_state = λ k. absurd (omega arith);
          starting_state = λ k. absurd (omega arith);
          starting_durable = λ k. absurd (omega arith);
          lane_held = λ k. absurd (omega arith);
        })
        (λ s n k. (v.placed s).lane_held k) (λ k s n m. absurd (omega arith)) v.slots

  admit-Inv :
      (entry : Entry P R) (clock : Clock) (q : Queue P R)
      → is_queued entry.state ≡ true
      → IsSound entry
      → Inv q
      → Inv (admit entry clock q)
  unfolding admit
  admit-Inv entry clock q waits sound v =
      pump-Inv clock _ (emit-Inv _ _ (admitted-Inv entry q waits sound v))

  enqueued_IsSound :
      (has_store : Bool) (seed : Seed P)
      → (is_queued (enqueued_entry {R = R} has_store seed).state ≡ true)
        × IsSound (enqueued_entry {R = R} has_store seed)
  enqueued_IsSound true seed = (refl, ground arith)
  enqueued_IsSound false seed = (refl, ground arith)

  pub enqueue-Inv :
      (id : String) (payload : P) (lane : Option String) (priority : ℤ) (clock : Clock)
      (q q' : Queue P R)
      → enqueue id payload lane priority clock q ≡ some q'
      → Inv q
      → Inv q'
  unfolding enqueue
  enqueue-Inv id payload lane priority clock q q' h v =
      let seed = seed_of id payload lane priority clock.stamp in
      let e = enqueued_IsSound q.has_store seed in
      some_if-Inv q.closed _ q'
        (λ _ p k.
          some_if-Inv (is_some (lookup id q.by_id)) _ p
            (λ _ p' k'.
              some-Inv _ p'
                (admit-Inv (enqueued_entry q.has_store seed) clock _ e.0 e.1 (writes-Inv _ q v)) k')
            k)
        h

  restored_IsSound :
      (has_store : Bool) (lane : Option String) (clock : Clock) (job : StoredJob P)
      → IsSound (restored_entry {R = R} has_store lane clock job)
  restored_IsSound has_store lane clock job = ground arith

  pub restore-Inv :
      (job : StoredJob P) (clock : Clock) (q : Queue P R) → Inv q → Inv (restore job clock q)
  unfolding restore
  restore-Inv job clock q v =
      test-Inv (is_some (lookup job.id q.by_id)) (λ e. v)
        (λ e.
          admit-Inv _ clock q refl
            (restored_IsSound q.has_store (q.revive_lane job.payload job.lane) clock job) v)

  pub restore_all-Inv :
      (jobs : List (StoredJob P)) (clock : Clock) (q : Queue P R)
      → Inv q
      → Inv (restore_all jobs clock q)
  restore_all-Inv [] clock q v = v
  restore_all-Inv (job ∷ jobs) clock q v =
      restore_all-Inv jobs clock (restore job clock q) (restore-Inv job clock q v)

  pub recover-Inv : (q q' : Queue P R) → recover q ≡ some q' → Inv q → Inv q'
  unfolding recover
  recover-Inv q q' h v =
      some_if-Inv q.recovered _ q'
        (λ _ p k. some_if-Inv q.closed _ p (λ _ p' k'. some-Inv _ p' (recovered-Inv true q v) k') k)
        h

  pub loaded-Inv :
      (jobs : List (StoredJob P)) (clock : Clock) (q : Queue P R)
      → Inv q
      → Inv (loaded jobs clock q)
  unfolding loaded
  loaded-Inv jobs clock q v = schedule_heartbeat-Inv _ (restore_all-Inv jobs clock q v)
