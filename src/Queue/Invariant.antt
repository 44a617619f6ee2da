-- ===== src/Queue/Invariant.antt =====
-- What holds of a queue between two steps: where an entry may stand, who holds a slot and a lane, and
-- what an entry's own fields say together.
pub mod Lists
pub mod Entries
pub mod Moves
pub mod Frames
pub mod Starts
pub mod Ends
pub mod Slots
pub mod Answers
pub mod Losses
pub mod Stores
pub mod Admission
pub mod Methods
pub mod Runs
use seo_optimizer.Prelude.{
  ℕ, suc, ◌+◌, ◌≡◌, ◌≢◌, ◌≤◌, ◌<◌, ◌⊎◌, String, Bool, true, false, ◌&&◌, ◌||◌, Option, none, some,
  List, [], ◌∷◌, length, has, str_eq, is_some,
}
use seo_optimizer.Queue.Types.{StoreCall, Entry, is_terminal, is_queued, is_running, is_pending}
use seo_optimizer.Queue.State.{Queue, count_ref, deciding_refs}

abbrev pub same_lane : Option String → Option String → Bool
same_lane none m = false
same_lane (some l) none = false
same_lane (some l) (some m) = str_eq l m

-- The lane, if there is one, is marked busy.
abbrev pub lane_taken : Option String → List String → Bool
lane_taken none busy = true
lane_taken (some l) busy = has busy l

abbrev pub is_create : {P : Type 0} → StoreCall P → Bool
is_create (StoreCall.create job) = true
is_create _ = false

abbrev pub no_create : {P : Type 0} → List (StoreCall P) → Bool
no_create [] = true
no_create (StoreCall.create job ∷ calls) = false
no_create (StoreCall.save job ∷ calls) = no_create calls
no_create (StoreCall.acquire job ∷ calls) = no_create calls
no_create (StoreCall.remove id ∷ calls) = no_create calls

-- Whether the create is what a chain waits for, and whether one stands further on.
abbrev pub starts_create : {P : Type 0} → List (StoreCall P) → Bool
starts_create [] = false
starts_create (call ∷ calls) = is_create call

abbrev pub tail_clean : {P : Type 0} → List (StoreCall P) → Bool
tail_clean [] = true
tail_clean (call ∷ calls) = no_create calls

module _ {P R : Type 0} where
  -- A running job is durable; only the first call of a chain is a create, and it is awaited only while
  -- the job is pending or over; the promise is settled exactly when the state is terminal.
  pub record IsSound (e : Entry P R) : Type 0 where
    pub running_durable : is_running e.state ≡ true → is_pending e.durability ≡ false
    pub one_create : tail_clean e.store_chain ≡ true
    pub create_first :
        starts_create e.store_chain ≡ true → (is_terminal e.state || is_pending e.durability) ≡ true
    pub settled : is_some e.outcome ≡ is_terminal e.state

  -- How often an entry stands in a slot, and in all.
  abbrev pub holding : Queue P R → ℕ → ℕ
  holding q r = count_ref r q.starting + count_ref r q.active

  abbrev pub places : Queue P R → ℕ → ℕ
  places q r =
      count_ref r q.queued
      + count_ref r q.starting
      + count_ref r q.active
      + count_ref r (deciding_refs q.deciding)

  -- An entry stands in one collection at most, and its state says in which.
  pub record IsPlaced (q : Queue P R) (r : ℕ) : Type 0 where
    pub once : places q r ≤ 1
    pub fresh : q.next ≤ r → places q r ≡ 0
    pub queued_state : 0 < count_ref r q.queued → is_queued (q.heap r).state ≡ true
    pub running_state :
        0 < count_ref r q.active + count_ref r (deciding_refs q.deciding)
        → is_running (q.heap r).state ≡ true
    pub starting_state : 0 < count_ref r q.starting → is_running (q.heap r).state ≡ false
    pub starting_durable : 0 < count_ref r q.starting → is_pending (q.heap r).durability ≡ false
    pub lane_held : 0 < holding q r → lane_taken (q.heap r).lane q.busy_lanes ≡ true

  -- Two entries that hold slots share no lane.
  abbrev pub AreApart : Queue P R → ℕ → ℕ → Type 0
  AreApart q r s =
      r ≢ s → 0 < holding q r → 0 < holding q s → same_lane (q.heap r).lane (q.heap s).lane ≡ false

  pub record Inv (q : Queue P R) : Type 0 where
    pub sound : (r : ℕ) → r < q.next → IsSound (q.heap r)
    pub placed : (r : ℕ) → IsPlaced q r
    pub apart : (r s : ℕ) → AreApart q r s
    pub slots : length q.active + length q.starting ≤ q.concurrency
