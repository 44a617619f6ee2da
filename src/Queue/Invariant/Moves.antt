-- ===== src/Queue/Invariant/Moves.antt =====
-- The invariant is kept where no entry moves, and where one does.
use seo_optimizer.Prelude.{
  ℕ, ◌+◌, ◌≡◌, ◌≢◌, ◌≤◌, ◌<◌, sym, ◌∙◌, subst, arith, length, ◌==◌, true, false,
}
use seo_optimizer.Queue.Types.{Entry, is_pending}
use seo_optimizer.Queue.State.{Queue, count_ref, deciding_refs, modify}
use seo_optimizer.Queue.Invariant.{IsSound, IsPlaced, AreApart, Inv, holding, same_lane, lane_taken}
use native.Mathlib.Decide.{ℕ_discrete}

==_refl : (n : ℕ) → (n == n) ≡ true
==_refl n = ground arith

ne-== : (m n : ℕ) → m ≢ n → (m == n) ≡ false
ne-== m n h = ground arith

module _ {P R : Type 0} where
  pub modify_self :
      (r : ℕ) (f : Entry P R → Entry P R) (q : Queue P R) → (modify r f q).heap r ≡ f (q.heap r)
  modify_self r f q = rw (==_refl r)

  pub modify_ne :
      (r s : ℕ) (f : Entry P R → Entry P R) (q : Queue P R)
      → s ≢ r
      → (modify r f q).heap s ≡ q.heap s
  modify_ne r s f q n = rw (ne-== s r n)

  -- What the invariant reads of an entry's place is as it was.
  pub record Unmoved (q q' : Queue P R) (s : ℕ) : Type 0 where
    pub queued_same : count_ref s q'.queued ≡ count_ref s q.queued
    pub starting_same : count_ref s q'.starting ≡ count_ref s q.starting
    pub active_same : count_ref s q'.active ≡ count_ref s q.active
    pub deciding_same :
        count_ref s (deciding_refs q'.deciding) ≡ count_ref s (deciding_refs q.deciding)
    pub lane_same : (q'.heap s).lane ≡ (q.heap s).lane
    pub state_same : (q'.heap s).state ≡ (q.heap s).state
    pub pending_less :
        is_pending (q.heap s).durability ≡ false → is_pending (q'.heap s).durability ≡ false
    pub sound_kept : IsSound (q.heap s) → IsSound (q'.heap s)

  -- The busy lanes still hold the lane of every holder but the one that moved.
  abbrev pub KeepsLanes : Queue P R → Queue P R → ℕ → Type 0
  KeepsLanes q q' r =
      (s : ℕ) → s ≢ r → 0 < holding q s → lane_taken (q.heap s).lane q'.busy_lanes ≡ true

  -- The entry that moved shares no lane with another holder.
  abbrev pub ClearOf : Queue P R → Queue P R → ℕ → Type 0
  ClearOf q q' r =
      0 < holding q' r
      → (s : ℕ) → s ≢ r
      → 0 < holding q s
      → (same_lane (q'.heap r).lane (q.heap s).lane ≡ false)
        × (same_lane (q.heap s).lane (q'.heap r).lane ≡ false)

  pub Unmoved-IsPlaced :
      (q q' : Queue P R) (s : ℕ)
      → Unmoved q q' s
      → q.next ≤ q'.next
      → (0 < holding q s → lane_taken (q.heap s).lane q'.busy_lanes ≡ true)
      → IsPlaced q s
      → IsPlaced q' s
  Unmoved-IsPlaced q q' s u n k p = record {
    once = omega (arith, p.once, u.queued_same, u.starting_same, u.active_same, u.deciding_same);
    fresh = λ h. ground arith;
    queued_state = λ h. ground arith;
    running_state = λ h. ground arith;
    starting_state = λ h. ground arith;
    starting_durable = λ h. ground arith;
    lane_held = λ h. ground arith;
  }

  pub Unmoved-AreApart :
      (q q' : Queue P R) (s t : ℕ)
      → Unmoved q q' s
      → Unmoved q q' t
      → AreApart q s t
      → AreApart q' s t
  Unmoved-AreApart q q' s t us ut a ne ps pt =
      rw (us.lane_same, ut.lane_same)
        (a ne (omega (arith, us.starting_same, us.active_same))
          (omega (arith, ut.starting_same, ut.active_same)))

  module _ (q q' : Queue P R) (r : ℕ) (v : Inv q) (fewer : q.next ≤ q'.next)
      (others : (s : ℕ) → s ≢ r → Unmoved q q' s) where
    moved-apart : ClearOf q q' r → (s t : ℕ) → AreApart q' s t
    moved-apart clear s t ne ps pt = elim (ℕ_discrete s r) [
      | yes es ↦ elim (ℕ_discrete t r) [
        | yes et ↦ absurd (ne (es ∙ sym et))
        | no nt ↦
            let ut = others t nt in
            rw (es, ut.lane_same)
              (clear (rw es at ps) t nt (omega (arith, ut.starting_same, ut.active_same))).0
      ]
      | no ns ↦ elim (ℕ_discrete t r) [
        | yes et ↦
            let us = others s ns in
            rw (et, us.lane_same)
              (clear (rw et at pt) s ns (omega (arith, us.starting_same, us.active_same))).1
        | no nt ↦ Unmoved-AreApart q q' s t (others s ns) (others t nt) (v.apart s t) ne ps pt
      ]
    ]

    -- One entry moves, or a new one comes.
    pub moved-Inv :
        ((s : ℕ) → s ≢ r → s < q'.next → s < q.next)
        → (r < q'.next → IsSound (q'.heap r))
        → IsPlaced q' r
        → KeepsLanes q q' r
        → ClearOf q q' r
        → length q'.active + length q'.starting ≤ q'.concurrency
        → Inv q'
    moved-Inv known sound placed keeps clear slots = record {
      sound = λ s h. elim (ℕ_discrete s r) [
        | yes e ↦ subst (λ k. IsSound (q'.heap k)) (sym e) (sound (rw e at h))
        | no n ↦ (others s n).sound_kept (v.sound s (known s n h))
      ];
      placed = λ s. elim (ℕ_discrete s r) [
        | yes e ↦ subst (IsPlaced q') (sym e) placed
        | no n ↦ Unmoved-IsPlaced q q' s (others s n) fewer (keeps s n) (v.placed s)
      ];
      apart = moved-apart clear;
      slots = slots;
    }
