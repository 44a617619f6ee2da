-- ===== src/Crawler/Loading/Draws.antt =====
-- Drawing the next document from the lanes.
use seo_optimizer.Prelude.{
  ℕ, zero, suc, ◌+◌, ◌*◌, ◌≡◌, ◌≤◌, ◌<◌, refl, ◌∙◌, inl, inr, String, Bool, true, false, ◌||◌, none,
  some, List, [], ◌∷◌, subst, has, str_eq, length, length-append, any, arith, Bool-cases, eq_iff,
}
use seo_optimizer.Crawler.Loading.{Draw, draw, enough, total, is_waiting, snoc}

-- The URL waits in a lane.
abbrev pub in_lanes : List (List String) → String → Bool
in_lanes lanes url = any (λ lane. has lane url) lanes

pub in_lanes-snoc :
    (lanes : List (List String)) (lane : List String) (url : String)
    → in_lanes (snoc lanes lane) url ≡ (in_lanes lanes url || has lane url)
in_lanes-snoc [] lane url = ground arith
in_lanes-snoc (l ∷ lanes) lane url = ground (arith, in_lanes-snoc lanes lane url)

total-snoc :
    (lanes : List (List String)) (lane : List String)
    → total (snoc lanes lane) ≡ total lanes + length lane
total-snoc [] lane = omega arith
total-snoc (l ∷ lanes) lane = omega (arith, total-snoc lanes lane)

-- The empty lanes before the first that is not.
abbrev lead : List (List String) → ℕ
lead [] = 0
lead ([] ∷ lanes) = suc (lead lanes)
lead ((url ∷ lane) ∷ lanes) = 0

lead-le-length : (lanes : List (List String)) → lead lanes ≤ length lanes
lead-le-length [] = omega arith
lead-le-length ([] ∷ lanes) = omega (arith, lead-le-length lanes)
lead-le-length ((url ∷ lane) ∷ lanes) = omega arith

lead-snoc :
    (lanes : List (List String)) (lane : List String)
    → any is_waiting lanes ≡ true
    → lead (snoc lanes lane) ≡ lead lanes
lead-snoc [] lane h = cc
lead-snoc ([] ∷ lanes) lane h = omega (arith, lead-snoc lanes lane h)
lead-snoc ((url ∷ l) ∷ lanes) lane h = refl

abbrev measure : List (List String) → ℕ
measure lanes = total lanes * suc (length lanes) + lead lanes

pub none_waiting :
    (lanes : List (List String)) (url : String)
    → any is_waiting lanes ≡ false
    → in_lanes lanes url ≡ false
none_waiting [] url h = refl
none_waiting ([] ∷ lanes) url h = none_waiting lanes url h
none_waiting ((u ∷ lane) ∷ lanes) url h = cc

empty_falls :
    (others : List (List String))
    → any is_waiting others ≡ true
    → suc (measure (snoc others [])) ≡ measure ([] ∷ others)
empty_falls others h =
    rw (total-snoc others [], length-append others ([] ∷ [])) (omega (arith, lead-snoc others [] h))

seen_falls :
    (next : String) (lane : List String) (others : List (List String))
    → measure (snoc others lane) < measure ((next ∷ lane) ∷ others)
seen_falls next lane others =
    rw (total-snoc others lane, length-append others (lane ∷ [])) (grind (arith, bound))
  where
    bound : lead (snoc others lane) ≤ suc (length others)
    bound = omega (arith, lead-le-length (snoc others lane), length-append {0} others (lane ∷ []))

-- Where a draw finds nothing, all that waited was asked for before.
drawn_out :
    (fuel : ℕ) (seen : List String) (lanes : List (List String)) (url : String)
    → measure lanes < fuel
    → draw fuel seen lanes ≡ none
    → in_lanes lanes url ≡ true
    → has seen url ≡ true
unfolding draw
drawn_out zero seen lanes url m e h = absurd (omega (arith, m))
drawn_out (suc fuel) seen [] url m e h = cc
drawn_out (suc fuel) seen ([] ∷ others) url m e h = elim (Bool-cases (any is_waiting others)) [
  | inl w ↦
      drawn_out fuel seen (snoc others []) url (omega (arith, m, empty_falls others w)) (rw w at e)
        (in_lanes-snoc others [] url ∙ ground (arith, h))
  | inr w ↦ cc (none_waiting others url w)
]
drawn_out (suc fuel) seen ((next ∷ lane) ∷ others) url m e h = elim (Bool-cases (has seen next)) [
  | inl w ↦ elim (Bool-cases (str_eq next url)) [
    | inl same ↦ subst (λ x. has seen x ≡ true) ((eq_iff next url).0 same) w
    | inr other ↦
        drawn_out fuel seen (snoc others lane) url (omega (arith, m, seen_falls next lane others))
          (rw w at e) (in_lanes-snoc others lane url ∙ ground (arith, h, other))
  ]
  | inr w ↦ ground (arith, e, w)
]

pub draw-none :
    (seen : List String) (lanes : List (List String)) (url : String)
    → draw (enough lanes) seen lanes ≡ none
    → in_lanes lanes url ≡ true
    → has seen url ≡ true
draw-none seen lanes url e h =
    drawn_out (enough lanes) seen lanes url (omega (arith, lead-le-length lanes)) e h

-- A document that is drawn was not asked for, and what else waited still waits or was asked for.
pub record IsDrawn (seen : List String) (lanes : List (List String)) (d : Draw) : Type 0 where
  pub fresh : has seen d.next ≡ false
  pub kept :
      (url : String)
      → in_lanes lanes url ≡ true
      → (has seen url || str_eq d.next url || in_lanes (snoc d.others d.lane) url) ≡ true

pub draw-IsDrawn :
    (fuel : ℕ) (seen : List String) (lanes : List (List String)) {d : Draw}
    → draw fuel seen lanes ≡ some d
    → IsDrawn seen lanes d
unfolding draw
draw-IsDrawn zero seen lanes e = cc
draw-IsDrawn (suc fuel) seen [] e = cc
draw-IsDrawn (suc fuel) seen ([] ∷ others) {d} e = elim (Bool-cases (any is_waiting others)) [
  | inl w ↦
      let later = draw-IsDrawn fuel seen (snoc others []) {d = d} (rw w at e) in
      record {
        fresh = later.fresh;
        kept = λ url h. later.kept url (in_lanes-snoc others [] url ∙ ground (arith, h));
      }
  | inr w ↦ ground (arith, e, w)
]
draw-IsDrawn (suc fuel) seen ((next ∷ lane) ∷ others) {d} e = elim (Bool-cases (has seen next)) [
  | inl w ↦
      let later = draw-IsDrawn fuel seen (snoc others lane) {d = d} (rw w at e) in
      record {
        fresh = later.fresh;
        kept = λ url h. elim (Bool-cases (str_eq next url)) [
          | inl same ↦ rw (subst (λ x. has seen x ≡ true) ((eq_iff next url).0 same) w) refl
          | inr other ↦ later.kept url (in_lanes-snoc others lane url ∙ ground (arith, h, other))
        ];
      }
  | inr w ↦
      let here : record { next = next; lane = lane; others = others } ≡ d = ground (arith, e, w) in
      subst (IsDrawn seen ((next ∷ lane) ∷ others)) here (record {
        fresh = w;
        kept = λ url h. rw (in_lanes-snoc others lane url) (ground (arith, h));
      })
]
