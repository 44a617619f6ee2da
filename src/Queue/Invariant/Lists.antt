-- ===== src/Queue/Invariant/Lists.antt =====
-- Counting in the queue's collections, and its set of busy lanes.
use seo_optimizer.Prelude.{
  ℕ, suc, ◌+◌, ◌-◌, ◌≡◌, ◌≤◌, ◌<◌, inl, inr, ap, Bool-cases, refl, String, true, false, not, Option,
  none, some, List, [], ◌∷◌, ◌++◌, ◌==◌, arith, length, length-append, has, filter, str_eq, eq_iff,
  if◌then◌else◌,
}
use seo_optimizer.Queue.State.{
  Deciding, has_ref, count_ref, erase_ref, add_ref, deciding_refs, erase_deciding, add_lane,
  drop_lane, lane_busy,
}
use seo_optimizer.Queue.Invariant.{same_lane, lane_taken}

pub count-append :
    (r : ℕ) (xs ys : List ℕ) → count_ref r (xs ++ ys) ≡ count_ref r xs + count_ref r ys
count-append r [] ys = omega arith
count-append r (x ∷ xs) ys = ground (arith, count-append r xs ys)

pub count-snoc :
    (r : ℕ) (xs : List ℕ) (x : ℕ)
    → count_ref r (xs ++ x ∷ []) ≡ (if x == r then suc (count_ref r xs) else count_ref r xs)
count-snoc r xs x = ground (arith, count-append r xs (x ∷ []))

pub count-erase :
    (r s : ℕ) (xs : List ℕ)
    → count_ref r (erase_ref s xs) ≡ (if s == r then count_ref r xs - 1 else count_ref r xs)
count-erase r s [] = ground arith
count-erase r s (x ∷ xs) = ground (arith, count-erase r s xs)

pub has-count : (xs : List ℕ) (r : ℕ) → has_ref xs r ≡ true → 0 < count_ref r xs
has-count [] r h = cc
has-count (x ∷ xs) r h = ground (arith, has-count xs r)

pub count-add :
    (r s : ℕ) (xs : List ℕ)
    → count_ref s xs ≡ 0
    → count_ref r (add_ref xs s) ≡ (if s == r then suc (count_ref r xs) else count_ref r xs)
count-add r s xs h = ground (arith, has-count xs s, count-snoc r xs s)

pub length-add_ref : (xs : List ℕ) (r : ℕ) → length (add_ref xs r) ≤ length xs + 1
length-add_ref xs r = ground (arith, length-append xs (r ∷ []))

pub length-erase :
    (r : ℕ) (xs : List ℕ) → 0 < count_ref r xs → length (erase_ref r xs) + 1 ≡ length xs
length-erase r [] h = elim h [ ]
length-erase r (x ∷ xs) h = ground (arith, length-erase r xs)

pub length-erase-le : (r : ℕ) (xs : List ℕ) → length (erase_ref r xs) ≤ length xs
length-erase-le r [] = omega arith
length-erase-le r (x ∷ xs) = ground (arith, length-erase-le r xs)

pub erase_deciding_refs :
    (s : ℕ) (ds : List Deciding)
    → deciding_refs (erase_deciding s ds) ≡ erase_ref s (deciding_refs ds)
erase_deciding_refs s [] = refl
erase_deciding_refs s (d ∷ ds) = elim (Bool-cases (d.entry == s)) [
  | inl e ↦ rw e
  | inr e ↦ rw e (ap (◌∷◌ d.entry) (erase_deciding_refs s ds))
]

pub count-erase_deciding :
    (r s : ℕ) (ds : List Deciding)
    → count_ref r (deciding_refs (erase_deciding s ds))
      ≡ (if s == r then count_ref r (deciding_refs ds) - 1 else count_ref r (deciding_refs ds))
count-erase_deciding r s ds = rw erase_deciding_refs (count-erase r s (deciding_refs ds))

has-filter :
    (l m : String) (busy : List String)
    → has (filter (λ k. not (str_eq k l)) busy) m ≡ (if str_eq l m then false else has busy m)
has-filter l m [] = ground arith
has-filter l m (k ∷ busy) = ground (arith, has-filter l m busy, eq_iff k l, eq_iff k m, eq_iff l m)

pub add_lane_taken :
    (l : Option String) (busy : List String) → lane_taken l (add_lane l busy) ≡ true
add_lane_taken none busy = refl
add_lane_taken (some l) busy = ground (arith, eq_iff l l)

pub add_lane_keeps :
    (l m : Option String) (busy : List String)
    → lane_taken m busy ≡ true
    → lane_taken m (add_lane l busy) ≡ true
add_lane_keeps none m busy h = h
add_lane_keeps (some l) none busy h = refl
add_lane_keeps (some l) (some m) busy h = ground arith

pub drop_lane_keeps :
    (l m : Option String) (busy : List String)
    → same_lane l m ≡ false
    → lane_taken m busy ≡ true
    → lane_taken m (drop_lane l busy) ≡ true
drop_lane_keeps none m busy e h = h
drop_lane_keeps (some l) none busy e h = refl
drop_lane_keeps (some l) (some m) busy e h = ground (arith, has-filter l m busy)

-- A free lane is not one that a marked holder has.
pub free_apart :
    (l m : Option String) (busy : List String)
    → lane_busy l busy ≡ false
    → lane_taken m busy ≡ true
    → (same_lane l m ≡ false) × (same_lane m l ≡ false)
free_apart none none busy e h = (refl, refl)
free_apart none (some m) busy e h = (refl, refl)
free_apart (some l) none busy e h = (refl, refl)
free_apart (some l) (some m) busy e h = (ground (arith, eq_iff l m), ground (arith, eq_iff m l))

pub drop_lane_free :
    (l : Option String) (busy : List String) → lane_busy l (drop_lane l busy) ≡ false
drop_lane_free none busy = refl
drop_lane_free (some l) busy = ground (arith, has-filter l l busy, eq_iff l l)
