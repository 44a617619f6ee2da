-- ===== src/Crawler/Frontier/Turns.antt =====
-- What taking the next entry does to the lanes.
use seo_optimizer.Prelude.{◌≡◌, refl, true, false, Bool, none, some, List, [], ◌∷◌, arith}
use seo_optimizer.Crawler.Frontier.{QueueEntry, Frontier, next_entry, take_turn}

pub record Keeps (f g : Frontier) : Type 0 where
  pub queued : g.queued ≡ f.queued
  pub blocked : g.blocked ≡ f.blocked
  pub beyond_depth : g.beyond_depth ≡ f.beyond_depth

-- The entry was at the head of a lane.
pub data Took (e : QueueEntry) (f g : Frontier) : Type 0 where
  from_walk : f.walk ≡ e ∷ g.walk → g.listed ≡ f.listed → Keeps f g → Took e f g
  from_listed : f.listed ≡ e ∷ g.listed → g.walk ≡ f.walk → Keeps f g → Took e f g

take_turn-Took :
    (turn : Bool) (walk listed : List QueueEntry) (f : Frontier) {entry : QueueEntry} {g : Frontier}
    → f.walk ≡ walk
    → f.listed ≡ listed
    → take_turn turn walk listed f ≡ some (entry, g)
    → Took entry f g
take_turn-Took false (e ∷ walk) listed f w l h =
    from_walk (ground arith) (ground arith)
      (record { queued = ground arith; blocked = ground arith; beyond_depth = ground arith })
take_turn-Took false [] (e ∷ listed) f w l h =
    from_listed (ground arith) (ground arith)
      (record { queued = ground arith; blocked = ground arith; beyond_depth = ground arith })
take_turn-Took true walk (e ∷ listed) f w l h =
    from_listed (ground arith) (ground arith)
      (record { queued = ground arith; blocked = ground arith; beyond_depth = ground arith })
take_turn-Took true (e ∷ walk) [] f w l h =
    from_walk (ground arith) (ground arith)
      (record { queued = ground arith; blocked = ground arith; beyond_depth = ground arith })
take_turn-Took false [] [] f w l h = cc
take_turn-Took true [] [] f w l h = cc

pub next_entry-Took :
    (f : Frontier) {entry : QueueEntry} {g : Frontier}
    → next_entry f ≡ some (entry, g)
    → Took entry f g
unfolding next_entry
next_entry-Took f h = take_turn-Took f.turn f.walk f.listed f refl refl h

take_turn-none :
    (turn : Bool) (walk listed : List QueueEntry) (f : Frontier)
    → take_turn turn walk listed f ≡ none
    → (walk ≡ []) × (listed ≡ [])
take_turn-none false (e ∷ walk) listed f h = cc
take_turn-none false [] (e ∷ listed) f h = cc
take_turn-none false [] [] f h = (refl, refl)
take_turn-none true walk (e ∷ listed) f h = cc
take_turn-none true (e ∷ walk) [] f h = cc
take_turn-none true [] [] f h = (refl, refl)

pub next_entry-none : (f : Frontier) → next_entry f ≡ none → (f.walk ≡ []) × (f.listed ≡ [])
unfolding next_entry
next_entry-none f h = take_turn-none f.turn f.walk f.listed f h
