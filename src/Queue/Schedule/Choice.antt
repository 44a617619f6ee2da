-- ===== src/Queue/Schedule/Choice.antt =====
-- What `#take` picks.
use seo_optimizer.Prelude.{
  ℕ, ◌≡◌, inl, inr, refl, String, Bool, true, false, not, ◌&&◌, ◌||◌, Option, none, some, List, [],
  ◌∷◌, ◌==◌, all, arith, Bool-cases,
}
use seo_optimizer.Prelude.Int.{ℤ, ltb_ℤ}
use seo_optimizer.Queue.Types.{Entry}
use seo_optimizer.Queue.State.{Queue, erase_ref}
use seo_optimizer.Queue.Schedule.{is_eligible, beats, scan, take_next}

ltb_ℤ-trans : (x y z : ℤ) → ltb_ℤ x y ≡ true → ltb_ℤ y z ≡ true → ltb_ℤ x z ≡ true
ltb_ℤ-trans x y z h k = ground arith

ltb_ℤ-above : (x y z : ℤ) → ltb_ℤ y x ≡ false → ltb_ℤ y z ≡ true → ltb_ℤ x z ≡ true
ltb_ℤ-above x y z h k = ground arith

module _ {P R : Type 0} (heap : ℕ → Entry P R) (busy : List String) (now : ℕ) where
  abbrev eligible : ℕ → Bool
  eligible c = is_eligible now busy (heap c)

  -- `c` is no choice against an incumbent `b`, or `c` gives way to `b` even where it comes first.
  abbrev pub no_better : ℕ → ℕ → Bool
  no_better b c = not (eligible c) || not (ltb_ℤ (heap b).priority (heap c).priority)

  abbrev pub gives_way : ℕ → ℕ → Bool
  gives_way b c = not (eligible c) || ltb_ℤ (heap c).priority (heap b).priority

  -- `r` stands in the line, it may run now, what may run before it is of lower priority and what may
  -- run behind it is of no higher one.
  abbrev pub first_best : ℕ → List ℕ → Bool
  first_best r [] = false
  first_best r (c ∷ cs) =
      c == r && eligible c && all (no_better r) cs || gives_way r c && first_best r cs

  -- What the loop ends with, from an incumbent or from nothing.
  abbrev chosen_over : ℕ → Option ℕ → List ℕ → Bool
  chosen_over b none cs = false
  chosen_over b (some r) cs =
      r == b && all (no_better b) cs || first_best r cs && ltb_ℤ (heap b).priority (heap r).priority

  abbrev chosen : Option ℕ → List ℕ → Bool
  chosen none cs = all (λ c. not (eligible c)) cs
  chosen (some r) cs = first_best r cs

  chosen_over-keep :
      (b c : ℕ) (o : Option ℕ) (cs : List ℕ)
      → eligible c && ltb_ℤ (heap b).priority (heap c).priority ≡ false
      → chosen_over b o cs ≡ true
      → chosen_over b o (c ∷ cs) ≡ true
  chosen_over-keep b c none cs k h = absurd (ground arith)
  chosen_over-keep b c (some r) cs k h =
      ground (arith, ltb_ℤ-above (heap c).priority (heap b).priority (heap r).priority)

  chosen_over-take :
      (b c : ℕ) (o : Option ℕ) (cs : List ℕ)
      → eligible c ≡ true
      → ltb_ℤ (heap b).priority (heap c).priority ≡ true
      → chosen_over c o cs ≡ true
      → chosen_over b o (c ∷ cs) ≡ true
  chosen_over-take b c none cs e k h = absurd (ground arith)
  chosen_over-take b c (some r) cs e k h =
      ground (arith, ltb_ℤ-trans (heap b).priority (heap c).priority (heap r).priority)

  scan_over : (b : ℕ) (cs : List ℕ) → chosen_over b (scan heap busy now (some b) cs) cs ≡ true
  unfolding scan
  scan_over b [] = ground arith
  scan_over b (c ∷ cs) = elim (Bool-cases (eligible c && beats heap c (some b))) [
    | inl e ↦ rw e (
        chosen_over-take b c (scan heap busy now (some c) cs) cs (ground arith) (ground arith)
          (scan_over c cs))
    | inr e ↦ rw e (chosen_over-keep b c (scan heap busy now (some b) cs) cs e (scan_over b cs))
  ]

  over_none :
      (c : ℕ) (o : Option ℕ) (cs : List ℕ)
      → eligible c ≡ true
      → chosen_over c o cs ≡ true
      → chosen o (c ∷ cs) ≡ true
  over_none c none cs e h = absurd (ground arith)
  over_none c (some r) cs e h = ground arith

  skip_none :
      (c : ℕ) (o : Option ℕ) (cs : List ℕ)
      → eligible c ≡ false
      → chosen o cs ≡ true
      → chosen o (c ∷ cs) ≡ true
  skip_none c none cs e h = ground arith
  skip_none c (some r) cs e h = ground arith

  pub scan-chosen : (cs : List ℕ) → chosen (scan heap busy now none cs) cs ≡ true
  unfolding scan
  scan-chosen [] = refl
  scan-chosen (c ∷ cs) = elim (Bool-cases (eligible c)) [
    | inl e ↦ rw e (over_none c (scan heap busy now (some c) cs) cs e (scan_over c cs))
    | inr e ↦ rw e (skip_none c (scan heap busy now none cs) cs e (scan-chosen cs))
  ]

module _ {P R : Type 0} where
  abbrev pub Picked : (now : ℕ) (q : Queue P R) → Option (ℕ × Queue P R) → Type 0
  Picked now q none = all (λ c. not (is_eligible now q.busy_lanes (q.heap c))) q.queued ≡ true
  Picked now q (some (r, q')) =
      (first_best q.heap q.busy_lanes now r q.queued ≡ true)
      × (q' ≡ record q { queued = erase_ref r q.queued })

  -- `#take` gives nothing only where no job in the line may run now. What it gives may run now,
  -- every job before it in the line that may run now is of lower priority, none behind it is of a
  -- higher one, and it is the only job that leaves the line.
  pub take_next-Picked : (now : ℕ) (q : Queue P R) → Picked now q (take_next now q)
  unfolding take_next
  take_next-Picked now q =
      found (scan q.heap q.busy_lanes now none q.queued)
        (scan-chosen q.heap q.busy_lanes now q.queued)
    where
      found :
          (o : Option ℕ)
          → chosen q.heap q.busy_lanes now o q.queued ≡ true
          → Picked now q (elim o [
            | none ↦ none
            | some r ↦ some (r, record q { queued = erase_ref r q.queued })
          ])
      found none h = h
      found (some r) h = (h, refl)
