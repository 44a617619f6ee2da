-- ===== src/Queue/Invariant/Ends.antt =====
-- Settling, leaving a slot and going back in line keep the invariant.
use seo_optimizer.Prelude.{ℕ, ◌+◌, ◌≡◌, ◌≢◌, ◌<◌, refl, sym, ap, true, false, [], ◌∷◌, ◌++◌, arith}
use seo_optimizer.Queue.Types.{Entry, is_queued, is_running, is_pending}
use seo_optimizer.Queue.State.{
  Queue, Settlement, completes, fails, cancels, count_ref, deciding_refs, modify, remove_op,
  settle_entry, settle,
}
use seo_optimizer.Queue.Invariant.{IsSound, Inv}
use seo_optimizer.Queue.Invariant.Lists.{count-snoc}
use seo_optimizer.Queue.Invariant.Entries.{settle_entry-IsSound}
use seo_optimizer.Queue.Invariant.Moves.{Unmoved, moved-Inv, modify_self, modify_ne}
use seo_optimizer.Queue.Invariant.Frames.{persist-Inv, emit-Inv, remember-Inv}
use seo_optimizer.Queue.Invariant.Starts.{IsLoose}

module _ {P R : Type 0} where
  -- An entry changed in place, all others as they were.
  pub changed-Unmoved :
      (r s : ℕ) (f : Entry P R → Entry P R) (q : Queue P R) → s ≢ r → Unmoved q (modify r f q) s
  changed-Unmoved r s f q n = record {
    queued_same = refl;
    starting_same = refl;
    active_same = refl;
    deciding_same = refl;
    lane_same = ap (λ (e : Entry P R). e.lane) (modify_ne r s f q n);
    state_same = ap (λ (e : Entry P R). e.state) (modify_ne r s f q n);
    pending_less = λ h. rw (modify_ne r s f q n) h;
    sound_kept = λ h. rw (modify_ne r s f q n) h;
  }

  -- Out of the line, out of its slot and decided: at most the store is still asked for its lane.
  abbrev pub IsAside : Queue P R → ℕ → Type 0
  IsAside q r =
      count_ref r q.queued + count_ref r q.active + count_ref r (deciding_refs q.deciding) ≡ 0

  -- Assigning to such an entry a state that is not running.
  pub aside-Inv :
      (r : ℕ) (f : Entry P R → Entry P R) (q : Queue P R)
      → IsAside q r
      → (is_running (f (q.heap r)).state ≡ false)
        × ((f (q.heap r)).lane ≡ (q.heap r).lane)
        × (is_pending (q.heap r).durability ≡ false → is_pending (f (q.heap r)).durability ≡ false)
      → (r < q.next → IsSound (f (q.heap r)))
      → Inv q
      → Inv (modify r f q)
  aside-Inv r f q a h sound v =
      moved-Inv q (modify r f q) r v (omega arith) (λ s n. changed-Unmoved r s f q n) (λ s n k. k)
        (λ k. rw (modify_self r f q) (sound k))
        (let p = v.placed r in
          record {
            once = p.once;
            fresh = p.fresh;
            queued_state = λ k. absurd (omega arith);
            running_state = λ k. absurd (omega arith);
            starting_state = λ k. rw (modify_self r f q) h.0;
            starting_durable = λ k. rw (modify_self r f q) (h.2 (p.starting_durable k));
            lane_held = λ k. rw (modify_self r f q, h.1) (p.lane_held k);
          })
        (λ s n k. (v.placed s).lane_held k)
        (λ k s n l.
          rw (modify_self r f q, h.1) (v.apart r s (λ e. n (sym e)) k l, v.apart s r n l k))
        v.slots

  pub settle-Inv :
      (r : ℕ) (x : Settlement R) (stamp : ℕ) (q : Queue P R)
      → IsAside q r
      → Inv q
      → Inv (settle r x stamp q)
  unfolding settle
  settle-Inv r x stamp q a v = remember-Inv _ _ (
      persist-Inv r remove_op _ (
        emit-Inv _ _ (
          aside-Inv r (settle_entry x stamp) q a (over x)
            (λ h. settle_entry-IsSound x stamp (q.heap r) (v.sound r h)) v)))
    where
      over :
          (y : Settlement R)
          → (is_running (settle_entry y stamp (q.heap r)).state ≡ false)
            × ((q.heap r).lane ≡ (q.heap r).lane)
            × (is_pending (q.heap r).durability ≡ false → is_pending (q.heap r).durability ≡ false)
      over (completes result) = (refl, refl, λ h. h)
      over (fails cause) = (refl, refl, λ h. h)
      over (cancels cause) = (refl, refl, λ h. h)

  -- Back in line.
  abbrev pub requeued : ℕ → (Entry P R → Entry P R) → Queue P R → Queue P R
  requeued r f q = record (modify r f q) { queued = q.queued ++ r ∷ [] }

  pub requeued-Inv :
      (r : ℕ) (f : Entry P R → Entry P R) (q : Queue P R)
      → IsLoose q r
      → is_queued (f (q.heap r)).state ≡ true
      → IsSound (f (q.heap r))
      → Inv q
      → Inv (requeued r f q)
  requeued-Inv r f q l waits sound v =
      let c = count-snoc r q.queued r in
      moved-Inv q (requeued r f q) r v (omega arith)
        (λ s n. record {
          queued_same = ground (arith, count-snoc s q.queued r);
          starting_same = refl;
          active_same = refl;
          deciding_same = refl;
          lane_same = ap (λ (e : Entry P R). e.lane) (modify_ne r s f q n);
          state_same = ap (λ (e : Entry P R). e.state) (modify_ne r s f q n);
          pending_less = λ h. rw (modify_ne r s f q n) h;
          sound_kept = λ h. rw (modify_ne r s f q n) h;
        })
        (λ s n k. k) (λ k. rw (modify_self r f q) sound)
        (record {
          once = ground (arith, l.nowhere, c);
          fresh = λ k. absurd (omega (arith, l.known));
          queued_state = λ k. rw (modify_self r f q) waits;
          running_state = λ k. absurd (omega (arith, l.nowhere));
          starting_state = λ k. absurd (omega (arith, l.nowhere));
          starting_durable = λ k. absurd (omega (arith, l.nowhere));
          lane_held = λ k. absurd (omega (arith, l.nowhere));
        })
        (λ s n k. (v.placed s).lane_held k) (λ k s n m. absurd (omega (arith, l.nowhere))) v.slots

  -- An entry that stays where it is, in the same state and lane.
  pub same_place-Inv :
      (r : ℕ) (f : Entry P R → Entry P R) (q : Queue P R)
      → ((f (q.heap r)).lane ≡ (q.heap r).lane)
        × ((f (q.heap r)).state ≡ (q.heap r).state)
        × (is_pending (q.heap r).durability ≡ false → is_pending (f (q.heap r)).durability ≡ false)
      → (r < q.next → IsSound (f (q.heap r)))
      → Inv q
      → Inv (modify r f q)
  same_place-Inv r f q h sound v =
      moved-Inv q (modify r f q) r v (omega arith) (λ s n. changed-Unmoved r s f q n) (λ s n k. k)
        (λ k. rw (modify_self r f q) (sound k))
        (let p = v.placed r in
          record {
            once = p.once;
            fresh = p.fresh;
            queued_state = λ k. rw (modify_self r f q, h.1) (p.queued_state k);
            running_state = λ k. rw (modify_self r f q, h.1) (p.running_state k);
            starting_state = λ k. rw (modify_self r f q, h.1) (p.starting_state k);
            starting_durable = λ k. rw (modify_self r f q) (h.2 (p.starting_durable k));
            lane_held = λ k. rw (modify_self r f q, h.0) (p.lane_held k);
          })
        (λ s n k. (v.placed s).lane_held k)
        (λ k s n l.
          rw (modify_self r f q, h.0) (v.apart r s (λ e. n (sym e)) k l, v.apart s r n l k))
        v.slots
