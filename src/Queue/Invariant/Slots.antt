-- ===== src/Queue/Invariant/Slots.antt =====
-- Giving back a slot, a lane claim or a pending decision keeps the invariant.
use seo_optimizer.Prelude.{ℕ, ◌≡◌, ◌≢◌, ◌<◌, refl, sym, true, ◌∷◌, arith}
use seo_optimizer.Queue.Types.{is_running}
use seo_optimizer.Queue.State.{Queue, Deciding, count_ref, deciding_refs, drop_lane}
use seo_optimizer.Queue.Handlers.{inactive, unstarted, undecided}
use seo_optimizer.Queue.Invariant.{Inv, holding, lane_taken}
use seo_optimizer.Queue.Invariant.Lists.{
  count-erase, count-erase_deciding, length-erase, length-erase-le, drop_lane_keeps,
}
use seo_optimizer.Queue.Invariant.Moves.{moved-Inv}
use seo_optimizer.Queue.Invariant.Starts.{IsLoose, HasRoom}
use seo_optimizer.Queue.Invariant.Ends.{IsAside}

module _ {P R : Type 0} where
  kept_lanes :
      (r : ℕ) (q : Queue P R) (s : ℕ)
      → 0 < holding q r
      → s ≢ r
      → 0 < holding q s
      → Inv q
      → lane_taken (q.heap s).lane (drop_lane (q.heap r).lane q.busy_lanes) ≡ true
  kept_lanes r q s hr n hs v =
      drop_lane_keeps (q.heap r).lane (q.heap s).lane q.busy_lanes
        (v.apart r s (λ e. n (sym e)) hr hs) ((v.placed s).lane_held hs)

  pub unstarted-Inv :
      (r : ℕ) (q : Queue P R)
      → 0 < count_ref r q.starting
      → Inv q
      → Inv (unstarted r q) × IsLoose (unstarted r q) r × HasRoom (unstarted r q)
  unstarted-Inv r q h v =
      let p = v.placed r in
      let c = count-erase r r q.starting in
      (
        moved-Inv q (unstarted r q) r v (omega arith)
            (λ s n. record {
              queued_same = refl;
              starting_same = ground (arith, count-erase s r q.starting);
              active_same = refl;
              deciding_same = refl;
              lane_same = refl;
              state_same = refl;
              pending_less = λ k. k;
              sound_kept = λ k. k;
            })
            (λ s n k. k) (v.sound r)
            (record {
              once = ground (arith, p.once, c);
              fresh = λ k. ground (arith, p.fresh k, c);
              queued_state = p.queued_state;
              running_state = p.running_state;
              starting_state = λ k. p.starting_state h;
              starting_durable = λ k. p.starting_durable h;
              lane_held = λ k. absurd (ground (arith, p.once, c));
            })
            (λ s n k. kept_lanes r q s (omega arith) n k v)
            (λ k s n l. absurd (ground (arith, p.once, c)))
            (omega (arith, v.slots, length-erase r q.starting h)),
        record { known = ground (arith, p.fresh); nowhere = ground (arith, p.once, c) },
        omega (arith, v.slots, length-erase r q.starting h),
      )

  pub inactive-Inv :
      (r : ℕ) (q : Queue P R)
      → 0 < count_ref r q.active
      → Inv q
      → Inv (inactive r q) × IsLoose (inactive r q) r
  inactive-Inv r q h v =
      let p = v.placed r in
      let c = count-erase r r q.active in
      (
        moved-Inv q (inactive r q) r v (omega arith)
            (λ s n. record {
              queued_same = refl;
              starting_same = refl;
              active_same = ground (arith, count-erase s r q.active);
              deciding_same = refl;
              lane_same = refl;
              state_same = refl;
              pending_less = λ k. k;
              sound_kept = λ k. k;
            })
            (λ s n k. k) (v.sound r)
            (record {
              once = ground (arith, p.once, c);
              fresh = λ k. ground (arith, p.fresh k, c);
              queued_state = p.queued_state;
              running_state = λ k. p.running_state (omega arith);
              starting_state = p.starting_state;
              starting_durable = p.starting_durable;
              lane_held = λ k. absurd (ground (arith, p.once, c));
            })
            (λ s n k. kept_lanes r q s (omega arith) n k v)
            (λ k s n l. absurd (ground (arith, p.once, c)))
            (omega (arith, v.slots, length-erase-le r q.active)),
        record { known = ground (arith, p.fresh); nowhere = ground (arith, p.once, c) },
      )

  pub deciding_pushed-Inv :
      (d : Deciding) (q : Queue P R)
      → IsLoose q d.entry
      → is_running (q.heap d.entry).state ≡ true
      → Inv q
      → Inv (record q { deciding = d ∷ q.deciding })
  deciding_pushed-Inv d q l running v =
      moved-Inv q (record q { deciding = d ∷ q.deciding }) d.entry v (omega arith)
        (λ s n. record {
          queued_same = refl;
          starting_same = refl;
          active_same = refl;
          deciding_same = ground arith;
          lane_same = refl;
          state_same = refl;
          pending_less = λ k. k;
          sound_kept = λ k. k;
        })
        (λ s n k. k) (v.sound d.entry)
        (record {
          once = ground (arith, l.nowhere);
          fresh = λ k. absurd (omega (arith, l.known));
          queued_state = λ k. absurd (omega (arith, l.nowhere));
          running_state = λ k. running;
          starting_state = λ k. absurd (omega (arith, l.nowhere));
          starting_durable = λ k. absurd (omega (arith, l.nowhere));
          lane_held = λ k. absurd (omega (arith, l.nowhere));
        })
        (λ s n k. (v.placed s).lane_held k) (λ k s n m. absurd (omega (arith, l.nowhere))) v.slots

  pub undecided-Inv :
      (r : ℕ) (q : Queue P R)
      → 0 < count_ref r (deciding_refs q.deciding)
      → Inv q
      → Inv (undecided r q) × IsLoose (undecided r q) r
  undecided-Inv r q h v =
      let p = v.placed r in
      let c = count-erase_deciding r r q.deciding in
      (
        moved-Inv q (undecided r q) r v (omega arith)
            (λ s n. record {
              queued_same = refl;
              starting_same = refl;
              active_same = refl;
              deciding_same = ground (arith, count-erase_deciding s r q.deciding);
              lane_same = refl;
              state_same = refl;
              pending_less = λ k. k;
              sound_kept = λ k. k;
            })
            (λ s n k. k) (v.sound r)
            (record {
              once = ground (arith, p.once, c);
              fresh = λ k. ground (arith, p.fresh k, c);
              queued_state = p.queued_state;
              running_state = λ k. p.running_state (omega arith);
              starting_state = p.starting_state;
              starting_durable = p.starting_durable;
              lane_held = p.lane_held;
            })
            (λ s n k. (v.placed s).lane_held k)
            (λ k s n l. (v.apart r s (λ e. n (sym e)) k l, v.apart s r n l k)) v.slots,
        record { known = ground (arith, p.fresh); nowhere = ground (arith, p.once, c) },
      )

  pub loose-IsAside : (q : Queue P R) (r : ℕ) → IsLoose q r → IsAside q r
  loose-IsAside q r l = omega (arith, l.nowhere)
