-- ===== src/Queue/Invariant/Starts.antt =====
-- Taking, starting and pumping keep the invariant.
use seo_optimizer.Prelude.{
  ℕ, zero, suc, ◌+◌, ◌≡◌, ◌<◌, ◌⊎◌, inl, inr, refl, sym, ap, subst, Bool, true, false, ◌&&◌, Option,
  none, some, List, [], ◌∷◌, ◌++◌, String, arith, length, if◌then◌else◌, Bool-cases, Option-cases,
}
use seo_optimizer.Queue.Types.{Entry, StoreCall, is_queued, is_pending}
use seo_optimizer.Queue.State.{
  Queue, count_ref, erase_ref, add_ref, add_lane, lane_busy, modify, persist, save_op,
}
use seo_optimizer.Queue.Schedule.{
  Clock, is_eligible, beats, scan, take_next, shares_lanes, claim_of, start, run_entry, run, launch,
  has_slot, fill, pump,
}
use seo_optimizer.Queue.Invariant.{Inv, places}
use seo_optimizer.Queue.Invariant.Lists.{
  count-erase, count-add, length-add_ref, add_lane_taken, add_lane_keeps, free_apart,
}
use seo_optimizer.Queue.Invariant.Entries.{run_entry-IsSound, chained-IsSound}
use seo_optimizer.Queue.Invariant.Moves.{moved-Inv, modify_self, modify_ne}
use seo_optimizer.Queue.Invariant.Frames.{
  persist-Inv, emit-Inv, check_idle-Inv, schedule_wake-Inv, schedule_heartbeat-Inv,
}

module _ {P R : Type 0} where
  -- An entry of the queue that stands nowhere.
  pub record IsLoose (q : Queue P R) (r : ℕ) : Type 0 where
    pub known : r < q.next
    pub nowhere : places q r ≡ 0

  -- An entry that may be started: it stands nowhere, is neither running nor over nor waiting to be
  -- durable, and its lane is free.
  pub record IsReady (q : Queue P R) (r : ℕ) : Type 0 where
    pub loose : IsLoose q r
    pub waiting : is_queued (q.heap r).state ≡ true
    pub durable : is_pending (q.heap r).durability ≡ false
    pub free_lane : lane_busy (q.heap r).lane q.busy_lanes ≡ false

  scan_lem :
      (heap : ℕ → Entry P R) (busy : List String) (now : ℕ) (best : Option ℕ) (rs : List ℕ) (r : ℕ)
      → scan heap busy now best rs ≡ some r
      → (best ≡ some r) ⊎ ((0 < count_ref r rs) × (is_eligible now busy (heap r) ≡ true))
  unfolding scan
  scan_lem heap busy now best [] r h = inl h
  scan_lem heap busy now best (c ∷ cs) r h =
      elim (Bool-cases (is_eligible now busy (heap c) && beats heap c best)) [
        | inl e ↦ elim (scan_lem heap busy now (some c) cs r (rw e at h)) [
          | inl same ↦ inr (ground arith, ground arith)
          | inr (n, ok) ↦ inr (ground arith, ok)
        ]
        | inr e ↦ elim (scan_lem heap busy now best cs r (rw e at h)) [
          | inl same ↦ inl same
          | inr (n, ok) ↦ inr (ground arith, ok)
        ]
      ]

  -- Leaving the line.
  abbrev pub dequeued : ℕ → Queue P R → Queue P R
  dequeued r q = record q { queued = erase_ref r q.queued }

  pub dequeued-Inv : (r : ℕ) (q : Queue P R) → Inv q → Inv (dequeued r q)
  dequeued-Inv r q v =
      moved-Inv q (dequeued r q) r v (omega arith)
        (λ s n. record {
          queued_same = ground (arith, count-erase s r q.queued);
          starting_same = refl;
          active_same = refl;
          deciding_same = refl;
          lane_same = refl;
          state_same = refl;
          pending_less = λ h. h;
          sound_kept = λ h. h;
        })
        (λ s n h. h) (v.sound r)
        (let p = v.placed r in
          let c = count-erase r r q.queued in
          record {
            once = ground (arith, p.once, c);
            fresh = λ h. ground (arith, p.fresh h, c);
            queued_state = λ h. p.queued_state (ground (arith, c));
            running_state = p.running_state;
            starting_state = p.starting_state;
            starting_durable = p.starting_durable;
            lane_held = p.lane_held;
          })
        (λ s n h. (v.placed s).lane_held h)
        (λ h s n k. (v.apart r s (λ e. n (sym e)) h k, v.apart s r n k h)) v.slots

  scanned-IsReady :
      (now : ℕ) (q : Queue P R) (r : ℕ)
      → scan q.heap q.busy_lanes now none q.queued ≡ some r
      → Inv q
      → IsReady (dequeued r q) r
  scanned-IsReady now q r e v = elim (scan_lem q.heap q.busy_lanes now none q.queued r e) [
    | inl k ↦ cc
    | inr (n, ok) ↦
        let p = v.placed r in
        record {
          loose = record {
            known = ground (arith, p.fresh);
            nowhere = ground (arith, p.once, count-erase r r q.queued);
          };
          waiting = p.queued_state n;
          durable = ground arith;
          free_lane = ground arith;
        }
  ]

  -- What `#take` hands over has left the line and is ready to start.
  abbrev pub IsTaken : Queue P R → Option (ℕ × Queue P R) → Type 0
  IsTaken q none = Unit {0}
  IsTaken q (some (r, q')) = (q' ≡ dequeued r q) × Inv q' × IsReady q' r

  pub take_next-IsTaken : (now : ℕ) (q : Queue P R) → Inv q → IsTaken q (take_next now q)
  unfolding take_next
  take_next-IsTaken now q v = elim (Option-cases (scan q.heap q.busy_lanes now none q.queued)) [
    | inl e ↦ rw (e, take_next) tt
    | inr (r, e) ↦ rw (e, take_next) (refl, dequeued-Inv r q v, scanned-IsReady now q r e v)
  ]

  -- A slot is open.
  abbrev pub HasRoom : Queue P R → Type 0
  HasRoom q = length q.active + length q.starting < q.concurrency

  abbrev going : ℕ → ℕ → Queue P R → Queue P R
  going r stamp q = record (modify r (run_entry stamp) q) {
    active = add_ref q.active r;
    busy_lanes = add_lane (q.heap r).lane q.busy_lanes;
  }

  count-active : (q : Queue P R) (r : ℕ) → places q r ≡ 0 → count_ref r q.active ≡ 0
  count-active q r h = omega arith

  going-Inv :
      (r stamp : ℕ) (q : Queue P R) → IsReady q r → HasRoom q → Inv q → Inv (going r stamp q)
  going-Inv r stamp q y room v =
      let none_active = count-active q r y.loose.nowhere in
      moved-Inv q (going r stamp q) r v (omega arith)
        (λ s n. record {
          queued_same = refl;
          starting_same = refl;
          active_same = ground (arith, count-add s r q.active none_active);
          deciding_same = refl;
          lane_same = ground arith;
          state_same = ground arith;
          pending_less = λ h. ground arith;
          sound_kept = λ h. rw (modify_ne r s (run_entry stamp) q n) h;
        })
        (λ s n h. h)
        (λ h.
          rw (modify_self r (run_entry stamp) q) (
            run_entry-IsSound stamp (q.heap r) (ground (arith, y.waiting)) y.durable (v.sound r h)))
        (record {
          once = ground (arith, y.loose.nowhere, count-add r r q.active none_active);
          fresh = λ h. ground (arith, y.loose.known);
          queued_state = λ h. ground (arith, y.loose.nowhere);
          running_state = λ h. ground arith;
          starting_state = λ h. ground (arith, y.loose.nowhere);
          starting_durable = λ h. ground (arith, y.loose.nowhere);
          lane_held = λ h. ground (arith, add_lane_taken (q.heap r).lane q.busy_lanes);
        })
        (λ s n h.
          add_lane_keeps (q.heap r).lane (q.heap s).lane q.busy_lanes ((v.placed s).lane_held h))
        (λ h s n k. rw (modify_self r (run_entry stamp) q) (
          free_apart (q.heap r).lane (q.heap s).lane q.busy_lanes y.free_lane
            ((v.placed s).lane_held k)))
        (omega (arith, length-add_ref q.active r))

  -- A ready job is run.
  pub run-Inv :
      (r : ℕ) (claimed : Bool) (stamp : ℕ) (q : Queue P R)
      → IsReady q r
      → HasRoom q
      → Inv q
      → Inv (run r claimed stamp q)
  unfolding run
  run-Inv r claimed stamp q y room v = emit-Inv _ _ (written claimed)
    where
      written :
          (c : Bool) → Inv (if c then going r stamp q else persist r save_op (going r stamp q))
      written true = going-Inv r stamp q y room v
      written false = persist-Inv r save_op _ (going-Inv r stamp q y room v)

  asking : Entry P R → Entry P R
  asking e = record e { store_chain = e.store_chain ++ StoreCall.acquire (claim_of e) ∷ [] }

  -- A ready job whose lane the store is asked for.
  pub start-Inv : (r : ℕ) (q : Queue P R) → IsReady q r → HasRoom q → Inv q → Inv (start r q)
  unfolding start asking
  start-Inv r q y room v =
      moved-Inv q (start r q) r v (omega arith)
        (λ s n. record {
          queued_same = refl;
          starting_same = ground (arith, count-add s r q.starting (omega (arith, y.loose.nowhere)));
          active_same = refl;
          deciding_same = refl;
          lane_same = ap (λ (e : Entry P R). e.lane) (modify_ne r s asking q n);
          state_same = ap (λ (e : Entry P R). e.state) (modify_ne r s asking q n);
          pending_less = λ h. rw (modify_ne r s asking q n) h;
          sound_kept = λ h. rw (modify_ne r s asking q n) h;
        })
        (λ s n h. h)
        (λ h.
          rw (modify_self r asking q) (
            chained-IsSound (q.heap r) (StoreCall.acquire (claim_of (q.heap r))) refl
              (v.sound r h)))
        (let c = count-add r r q.starting (omega (arith, y.loose.nowhere)) in
          record {
            once = ground (arith, y.loose.nowhere, c);
            fresh = λ h. absurd (omega (arith, y.loose.known));
            queued_state = λ h. absurd (omega (arith, y.loose.nowhere));
            running_state = λ h. absurd (omega (arith, y.loose.nowhere));
            starting_state = λ h. rw (modify_self r asking q) (ground (arith, y.waiting));
            starting_durable = λ h. rw (modify_self r asking q) y.durable;
            lane_held =
                λ h. rw (modify_self r asking q) (add_lane_taken (q.heap r).lane q.busy_lanes);
          })
        (λ s n h.
          add_lane_keeps (q.heap r).lane (q.heap s).lane q.busy_lanes ((v.placed s).lane_held h))
        (λ h s n k. rw (modify_self r asking q) (
          free_apart (q.heap r).lane (q.heap s).lane q.busy_lanes y.free_lane
            ((v.placed s).lane_held k)))
        (omega (arith, length-add_ref q.starting r))

  launch-Inv :
      (r stamp : ℕ) (q : Queue P R) → IsReady q r → HasRoom q → Inv q → Inv (launch r stamp q)
  unfolding launch
  launch-Inv r stamp q y room v = pick (shares_lanes q (q.heap r))
    where
      pick : (b : Bool) → Inv (if b then start r q else run r false stamp q)
      pick true = start-Inv r q y room v
      pick false = run-Inv r false stamp q y room v

  fill_round :
      (fuel : ℕ) (clock : Clock) (q : Queue P R)
      → ((q' : Queue P R) → Inv q' → Inv (fill fuel clock q'))
      → HasRoom q
      → (t : Option (ℕ × Queue P R)) → IsTaken q t
      → Inv q
      → Inv (elim t [ none ↦ q | some (r, q') ↦ fill fuel clock (launch r clock.stamp q') ])
  fill_round fuel clock q rec room none k v = v
  fill_round fuel clock q rec room (some (r, q')) k v =
      rec (launch r clock.stamp q')
        (launch-Inv r clock.stamp q' k.2 (subst HasRoom (sym k.0) room) k.1)

  fill-Inv : (fuel : ℕ) (clock : Clock) (q : Queue P R) → Inv q → Inv (fill fuel clock q)
  unfolding fill
  fill-Inv zero clock q v = v
  fill-Inv (suc fuel) clock q v = elim (Bool-cases (has_slot q)) [
    | inl e ↦
        rw (e, fill)
          (fill_round fuel clock q (fill-Inv fuel clock) (ground arith) (take_next clock.ms q)
            (take_next-IsTaken clock.ms q v) v)
    | inr e ↦ rw (e, fill) v
  ]

  pub pump-Inv : (clock : Clock) (q : Queue P R) → Inv q → Inv (pump clock q)
  unfolding pump
  pump-Inv clock q v = check_idle-Inv _ (
      schedule_heartbeat-Inv _
        (schedule_wake-Inv clock.ms _ (fill-Inv (length q.queued) clock q v)))
