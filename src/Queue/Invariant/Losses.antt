-- ===== src/Queue/Invariant/Losses.antt =====
-- Losing a lease, and the end of a store write, keep the invariant.
use seo_optimizer.Prelude.{
  ℕ, ◌+◌, ◌≡◌, ◌≢◌, refl, sym, ap, ◌∙◌, true, false, ◌||◌, Option, none, some, String, arith,
  lookup,
}
use seo_optimizer.Queue.Types.{
  Entry, Cause, job_lease_lost, job_cancelled, thrown, is_queued, is_running, is_terminal, is_lost,
}
use seo_optimizer.Queue.State.{
  Queue, Settlement, completes, fails, cancels, count_ref, deciding_refs, erase_ref, modify,
  remove_op, settle, settle_entry,
}
use seo_optimizer.Queue.Handlers.{
  Reply, returned, threw, mark_lost, told_lost, abort_with, lose_entry, lose, store_error,
  write_returned,
}
use seo_optimizer.Queue.Invariant.{IsSound, Inv}
use seo_optimizer.Queue.Invariant.Lists.{count-erase}
use seo_optimizer.Queue.Invariant.Moves.{moved-Inv, modify_self, modify_ne}
use seo_optimizer.Queue.Invariant.Frames.{
  persist-Inv, emit-Inv, remember-Inv, writes-Inv, check_idle-Inv, modify-Inv, advance-Inv,
  test-Inv,
}
use seo_optimizer.Queue.Invariant.Ends.{same_place-Inv}

module _ {P R : Type 0} where
  lost_IsSound :
      (x : Settlement R) (stamp : ℕ) (e : Entry P R)
      → IsSound e
      → IsSound (settle_entry x stamp (mark_lost e))
  lost_IsSound (completes result) stamp e s = ground arith
  lost_IsSound (fails cause) stamp e s = ground arith
  lost_IsSound (cancels cause) stamp e s = ground arith

  not_running :
      (x : Settlement R) (stamp : ℕ) (e : Entry P R)
      → is_running (settle_entry x stamp e).state ≡ false
  not_running (completes result) stamp e = refl
  not_running (fails cause) stamp e = refl
  not_running (cancels cause) stamp e = refl

  abbrev lost_line : ℕ → Queue P R → Queue P R
  lost_line r q = record (told_lost r q) { queued = erase_ref r q.queued }

  lost_others :
      (r s : ℕ) (f : Entry P R → Entry P R) (q : Queue P R)
      → s ≢ r
      → (modify r f (lost_line r q)).heap s ≡ q.heap s
  lost_others r s f q n = modify_ne r s f (lost_line r q) n ∙ modify_ne r s mark_lost q n

  lost_self :
      (r : ℕ) (f : Entry P R → Entry P R) (q : Queue P R)
      → (modify r f (lost_line r q)).heap r ≡ f (mark_lost (q.heap r))
  lost_self r f q = modify_self r f (lost_line r q) ∙ ap f (modify_self r mark_lost q)

  lost_over-Inv :
      (r stamp : ℕ) (x : Settlement R) (q : Queue P R)
      → is_queued (q.heap r).state ≡ true
      → Inv q
      → Inv (modify r (settle_entry x stamp) (lost_line r q))
  lost_over-Inv r stamp x q waits v =
      let f : Entry P R → Entry P R = settle_entry x stamp in
      let p = v.placed r in
      let c = count-erase r r q.queued in
      let idle_here : count_ref r q.active + count_ref r (deciding_refs q.deciding) ≡ 0 =
        ground (arith, p.running_state) in
      let self = lost_self r f q in
      moved-Inv q (modify r f (lost_line r q)) r v (omega arith)
        (λ s n. record {
          queued_same = ground (arith, count-erase s r q.queued);
          starting_same = refl;
          active_same = refl;
          deciding_same = refl;
          lane_same = ap (λ (e : Entry P R). e.lane) (lost_others r s f q n);
          state_same = ap (λ (e : Entry P R). e.state) (lost_others r s f q n);
          pending_less = λ k. rw (lost_others r s f q n) k;
          sound_kept = λ k. rw (lost_others r s f q n) k;
        })
        (λ s n k. k) (λ k. rw self (lost_IsSound x stamp (q.heap r) (v.sound r k)))
        (record {
          once = ground (arith, p.once, c);
          fresh = λ k. ground (arith, p.fresh k, c);
          queued_state = λ k. absurd (ground (arith, p.once, c));
          running_state = λ k. absurd (omega arith);
          starting_state = λ k. rw self (not_running x stamp (mark_lost (q.heap r)));
          starting_durable = λ k. rw self refl;
          lane_held = λ k. rw self (p.lane_held k);
        })
        (λ s n k. (v.placed s).lane_held k)
        (λ k s n l. rw self (v.apart r s (λ e. n (sym e)) k l, v.apart s r n l k)) v.slots

  lost_settled-Inv :
      (r stamp : ℕ) (x : Settlement R) (q : Queue P R)
      → is_queued (q.heap r).state ≡ true
      → Inv q
      → Inv (settle r x stamp (lost_line r q))
  unfolding settle
  lost_settled-Inv r stamp x q waits v =
      remember-Inv _ _
        (persist-Inv r remove_op _ (emit-Inv _ _ (lost_over-Inv r stamp x q waits v)))

  lost_running-IsSound :
      (e : Entry P R) → is_running e.state ≡ true → IsSound e → IsSound (mark_lost e)
  lost_running-IsSound e running s = record {
    running_durable = λ k. refl;
    one_create = s.one_create;
    create_first = λ k. ground (arith, s.create_first k, s.running_durable running);
    settled = s.settled;
  }

  abort-IsSound : (cause : Cause) (e : Entry P R) → IsSound e → IsSound (abort_with cause e)
  abort-IsSound cause e s = record {
    running_durable = s.running_durable;
    one_create = s.one_create;
    create_first = s.create_first;
    settled = s.settled;
  }

  pub abort-Inv :
      (r : ℕ) (cause : Cause) (q : Queue P R) → Inv q → Inv (modify r (abort_with cause) q)
  abort-Inv r cause q =
      modify-Inv r (abort_with cause) q λ e. (refl, refl, λ p. p, abort-IsSound cause e)

  told_lost-Inv :
      (r : ℕ) (q : Queue P R) → is_running (q.heap r).state ≡ true → Inv q → Inv (told_lost r q)
  told_lost-Inv r q running v = emit-Inv _ _ (
      same_place-Inv r mark_lost q (refl, refl, λ p. refl)
        (λ k. lost_running-IsSound (q.heap r) running (v.sound r k)) v)

  pub lose_entry-Inv : (r stamp : ℕ) (q : Queue P R) → Inv q → Inv (lose_entry r stamp q)
  unfolding lose_entry
  lose_entry-Inv r stamp q v =
      test-Inv (is_terminal (q.heap r).state || is_lost (q.heap r).durability) (λ e. v)
        (λ e.
          test-Inv (is_queued (q.heap r).state)
            (λ f. lost_settled-Inv r stamp (fails (job_lease_lost (q.heap r).id)) q f v)
            (λ f.
              abort-Inv r (job_lease_lost (q.heap r).id) (told_lost r q)
                (told_lost-Inv r q (ground arith) v)))

  pub lose-Inv : (id : String) (stamp : ℕ) (q : Queue P R) → Inv q → Inv (lose id stamp q)
  unfolding lose
  lose-Inv id stamp q v = found (lookup id q.by_id)
    where
      found : (o : Option ℕ) → Inv (elim o [ none ↦ q | some r ↦ lose_entry r stamp q ])
      found none = v
      found (some r) = lose_entry-Inv r stamp q v

  pub store_error-Inv :
      (id : String) (cause : Cause) (stamp : ℕ) (q : Queue P R)
      → Inv q
      → Inv (store_error id cause stamp q)
  unfolding store_error
  store_error-Inv id (job_lease_lost lost) stamp q v = lose-Inv id stamp q v
  store_error-Inv id (job_cancelled other) stamp q v = v
  store_error-Inv id (thrown message) stamp q v = v

  pub write_returned-Inv :
      (r : ℕ) (reply : Reply Unit) (stamp : ℕ) (q : Queue P R)
      → Inv q
      → Inv (write_returned r reply stamp q)
  unfolding write_returned
  write_returned-Inv r (returned _) stamp q v =
      check_idle-Inv _ (writes-Inv _ _ (advance-Inv r q v))
  write_returned-Inv r (threw error) stamp q v =
      check_idle-Inv _
        (writes-Inv _ _ (store_error-Inv (q.heap r).id error stamp _ (advance-Inv r q v)))
