-- ===== src/Queue/Invariant/Stores.antt =====
-- What comes back from the store about a new job or about a lane keeps the invariant.
use seo_optimizer.Prelude.{
  ℕ, ◌+◌, ◌≡◌, ◌<◌, refl, sym, ap, ◌∙◌, Bool, true, false, Option, none, some, List, String, arith,
  lookup,
}
use seo_optimizer.Queue.Types.{
  Entry, Cause, job_lease_lost, job_cancelled, thrown, is_queued, is_terminal,
}
use seo_optimizer.Queue.State.{
  Queue, Settlement, fails, count_ref, deciding_refs, erase_ref, modify, settle, persist, remember,
  remove_op,
}
use seo_optimizer.Queue.Schedule.{Clock}
use seo_optimizer.Queue.Handlers.{
  Reply, returned, threw, advance_chain, lose_entry, lose, told_lost, create_failed, durable_entry,
  create_returned, store_error, unstarted, refused, ask_later, acquire_decided, acquire_returned,
}
use seo_optimizer.Queue.Invariant.{Inv, starts_create}
use seo_optimizer.Queue.Invariant.Lists.{count-erase, drop_lane_free}
use seo_optimizer.Queue.Invariant.Entries.{durable-IsSound}
use seo_optimizer.Queue.Invariant.Moves.{modify_self}
use seo_optimizer.Queue.Invariant.Frames.{emit-Inv, writes-Inv, advance-Inv, test-Inv}
use seo_optimizer.Queue.Invariant.Starts.{IsLoose, dequeued, dequeued-Inv, run-Inv, pump-Inv}
use seo_optimizer.Queue.Invariant.Ends.{IsAside, same_place-Inv, settle-Inv, requeued-Inv}
use seo_optimizer.Queue.Invariant.Slots.{unstarted-Inv}
use seo_optimizer.Queue.Invariant.Losses.{store_error-Inv}

module _ {P R : Type 0} where
  -- A job whose create is awaited runs nowhere.
  awaited_aside :
      (r : ℕ) (q : Queue P R)
      → r < q.next
      → starts_create (q.heap r).store_chain ≡ true
      → is_terminal (q.heap r).state ≡ false
      → Inv q
      → count_ref r q.active + count_ref r (deciding_refs q.deciding) ≡ 0
  awaited_aside r q known first unsettled v = ground (
    arith,
    (v.placed r).running_state,
    (v.sound r known).create_first first,
    (v.sound r known).running_durable,
  )

  create_failed-Inv :
      (r : ℕ) (error : Cause) (stamp : ℕ) (q : Queue P R)
      → (is_terminal (q.heap r).state ≡ false → IsAside q r)
      → Inv q
      → Inv (create_failed r error stamp q)
  unfolding create_failed
  create_failed-Inv r error stamp q a v =
      test-Inv (is_terminal (q.heap r).state) (λ e. v)
        (λ e. settle-Inv r (fails error) stamp q (a e) v)

  pub create_returned-Inv :
      (r : ℕ) (reply : Reply Unit) (clock : Clock) (q : Queue P R)
      → r < q.next
      → starts_create (q.heap r).store_chain ≡ true
      → Inv q
      → Inv (create_returned r reply clock q)
  unfolding create_returned
  create_returned-Inv r (returned _) clock q known first v = pump-Inv clock _ (
      writes-Inv _ (modify r durable_entry q) (
        same_place-Inv r durable_entry q (refl, refl, λ p. refl)
          (λ k. durable-IsSound (q.heap r) (v.sound r k)) v))
  create_returned-Inv r (threw error) clock q known first v =
      let advanced = modify r advance_chain q in
      pump-Inv clock _ (
        writes-Inv _ _ (
          create_failed-Inv r error clock.stamp (dequeued r advanced)
            (λ unsettled. dropped_aside (
              awaited_aside r q known first
                (ap (λ (e : Entry P R). is_terminal e.state) (sym (modify_self r advance_chain q))
                  ∙ unsettled)
                v))
            (dequeued-Inv r advanced (advance-Inv r q v))))
    where
      dropped_aside :
          count_ref r q.active + count_ref r (deciding_refs q.deciding) ≡ 0
          → IsAside (dequeued r (modify r advance_chain q)) r
      dropped_aside a = ground (arith, count-erase r r q.queued, (v.placed r).once)

  refused-Inv :
      (r : ℕ) (clock : Clock) (q : Queue P R)
      → IsLoose q r
      → is_queued (q.heap r).state ≡ true
      → Inv q
      → Inv (refused r clock q)
  refused-Inv r clock q l waits v =
      requeued-Inv r (ask_later _) q l waits
        (let s = v.sound r l.known in
          record {
            running_durable = s.running_durable;
            one_create = s.one_create;
            create_first = s.create_first;
            settled = s.settled;
          })
        v

  acquire_decided-Inv :
      (r : ℕ) (granted : Bool) (clock : Clock) (q : Queue P R)
      → 0 < count_ref r q.starting
      → Inv q
      → Inv (acquire_decided r granted clock q)
  unfolding acquire_decided
  acquire_decided-Inv r granted clock q h v =
      let (w, l, room) = unstarted-Inv r q h v in
      let p = v.placed r in
      let waits : is_terminal (q.heap r).state ≡ false → is_queued (q.heap r).state ≡ true =
        λ e. ground (arith, p.starting_state h) in
      test-Inv (is_terminal (q.heap r).state) (λ e. pump-Inv clock _ w)
        (λ e.
          test-Inv granted
            (λ g.
              run-Inv r true clock.stamp (unstarted r q)
                (record {
                  loose = l;
                  waiting = waits e;
                  durable = p.starting_durable h;
                  free_lane = drop_lane_free (q.heap r).lane q.busy_lanes;
                })
                room w)
            (λ g.
              pump-Inv clock _ (emit-Inv _ _ (refused-Inv r clock (unstarted r q) l (waits e) w))))

  -- Losing a lease takes nobody out of `starting`.
  persist-starting : (r : ℕ) (q : Queue P R) → (persist r remove_op q).starting ≡ q.starting
  unfolding persist
  persist-starting r q = ground arith

  settle-starting :
      (r : ℕ) (x : Settlement R) (stamp : ℕ) (q : Queue P R)
      → (settle r x stamp q).starting ≡ q.starting
  unfolding settle remember
  settle-starting r x stamp q = persist-starting r _

  lose_entry-starting : (r stamp : ℕ) (q : Queue P R) → (lose_entry r stamp q).starting ≡ q.starting
  unfolding lose_entry
  lose_entry-starting r stamp q = ground (
    arith,
    settle-starting r (fails (job_lease_lost (q.heap r).id)) stamp
        (record (told_lost r q) { queued = erase_ref r q.queued }),
  )

  store_error-starting :
      (id : String) (cause : Cause) (stamp : ℕ) (q : Queue P R)
      → (store_error id cause stamp q).starting ≡ q.starting
  unfolding store_error lose
  store_error-starting id (job_lease_lost lost) stamp q = found (lookup id q.by_id)
    where
      found :
          (o : Option ℕ)
          → ◌≡◌ {A = List ℕ}
              (let q' : Queue P R = elim o [ none ↦ q | some r ↦ lose_entry r stamp q ] in
                q'.starting)
              q.starting
      found none = refl
      found (some r) = lose_entry-starting r stamp q
  store_error-starting id (job_cancelled other) stamp q = refl
  store_error-starting id (thrown message) stamp q = refl

  pub acquire_returned-Inv :
      (r : ℕ) (reply : Reply Bool) (clock : Clock) (q : Queue P R)
      → 0 < count_ref r q.starting
      → Inv q
      → Inv (acquire_returned r reply clock q)
  unfolding acquire_returned
  acquire_returned-Inv r (returned granted) clock q h v =
      acquire_decided-Inv r granted clock _ h (advance-Inv r q v)
  acquire_returned-Inv r (threw error) clock q h v =
      let advanced = modify r advance_chain q in
      acquire_decided-Inv r false clock _
        (rw (store_error-starting (q.heap r).id error clock.stamp advanced) h)
        (store_error-Inv (q.heap r).id error clock.stamp advanced (advance-Inv r q v))
