-- ===== src/Queue/Schedule/Dispatch.antt =====
-- What `#pump` leaves behind: no slot is free for a job that may run, and the timer is set for the
-- others.
use seo_optimizer.Prelude.{
  ℕ, zero, suc, ◌+◌, ◌≡◌, ◌≤◌, ◌⊎◌, inl, inr, refl, ap, String, Bool, true, false, not, ◌&&◌, ◌||◌,
  Option, none, some, List, [], ◌∷◌, ltb, leb, if◌then◌else◌, all, arith, length, is_some,
}
use seo_optimizer.Queue.Types.{Entry, is_pending}
use seo_optimizer.Queue.State.{Queue, erase_ref, persist, save_op, check_idle, lane_busy, idle}
use seo_optimizer.Queue.Schedule.{
  Clock, is_eligible, is_after, earlier, sooner, earliest_due, take_next, start, run, launch,
  has_slot, fill, held, schedule_wake, schedule_heartbeat, pump,
}
use seo_optimizer.Queue.Schedule.Choice.{first_best, Picked, take_next-Picked}

module _ {P R : Type 0} where
  -- Starting a job leaves the line as it is.
  persist-queued : (r : ℕ) (q : Queue P R) → (persist r save_op q).queued ≡ q.queued
  unfolding persist
  persist-queued r q = ground arith

  run-queued :
      (r : ℕ) (claimed : Bool) (stamp : ℕ) (q : Queue P R)
      → (run r claimed stamp q).queued ≡ q.queued
  unfolding run
  run-queued r true stamp q = refl
  run-queued r false stamp q = persist-queued r _

  launch-queued : (r stamp : ℕ) (q : Queue P R) → (launch r stamp q).queued ≡ q.queued
  unfolding launch start
  launch-queued r stamp q = ground (arith, run-queued r false stamp q)

  first_best-length :
      (heap : ℕ → Entry P R) (busy : List String) (now r : ℕ) (line : List ℕ)
      → first_best heap busy now r line ≡ true
      → suc (length (erase_ref r line)) ≡ length line
  first_best-length heap busy now r [] h = absurd (ground arith)
  first_best-length heap busy now r (c ∷ cs) h =
      ground (arith, first_best-length heap busy now r cs)

  -- The queue is paused or has no free slot, or nobody in the line may run.
  abbrev pub IsFull : ℕ → Queue P R → Type 0
  IsFull now q =
      (has_slot q ≡ false)
      ⊎ (all (λ c. not (is_eligible now q.busy_lanes (q.heap c))) q.queued ≡ true)

  round-IsFull :
      (fuel : ℕ) (clock : Clock) (q : Queue P R)
      → length q.queued ≤ suc fuel
      → ((p : Queue P R) → length p.queued ≤ fuel → IsFull clock.ms (fill fuel clock p))
      → (o : Option (ℕ × Queue P R)) → Picked clock.ms q o
      → (b : Bool) → has_slot q ≡ b
      → IsFull clock.ms (
          if not b
          then q
          else elim o [ none ↦ q | some (r, q') ↦ fill fuel clock (launch r clock.stamp q') ])
  round-IsFull fuel clock q h ih o k false e = inl e
  round-IsFull fuel clock q h ih none k true e = inr k
  round-IsFull fuel clock q h ih (some (r, q')) k true e = ih (launch r clock.stamp q') (
      omega (
        arith,
        ap length (launch-queued r clock.stamp q'),
        ap (λ (p : Queue P R). length p.queued) k.1,
        first_best-length q.heap q.busy_lanes clock.ms r q.queued k.0,
      ))

  fill-IsFull :
      (fuel : ℕ) (clock : Clock) (q : Queue P R)
      → length q.queued ≤ fuel
      → IsFull clock.ms (fill fuel clock q)
  unfolding fill
  fill-IsFull zero clock q h = inr (nobody q.queued h)
    where
      nobody :
          (line : List ℕ)
          → length line ≤ 0
          → all (λ c. not (is_eligible clock.ms q.busy_lanes (q.heap c))) line ≡ true
      nobody [] h = refl
      nobody (c ∷ cs) h = absurd (omega arith)
  fill-IsFull (suc fuel) clock q h =
      round-IsFull fuel clock q h (fill-IsFull fuel clock) (take_next clock.ms q)
        (take_next-Picked clock.ms q) (has_slot q) refl

  if_either :
      (F : Queue P R → Type 0) (b : Bool) {q q' : Queue P R} → F q → F q' → F (if b then q else q')
  if_either F true v w = v
  if_either F false v w = w

  -- What does not read the heartbeat's timer or the waiters is told of the queue that `#pump` leaves
  -- once its loop is over and the retry timer is set.
  pump_lem :
      (F : Queue P R → Type 0) (clock : Clock) (q : Queue P R)
      → ((p : Queue P R) (b : Bool) (m n : ℕ)
          → F p
          → F (record p { heartbeat_timer = b; idle_waiters = m; drained = n }))
      → F (schedule_wake clock.ms (fill (length q.queued) clock q))
      → F (pump clock q)
  unfolding pump check_idle schedule_heartbeat
  pump_lem F clock q k v =
      let woken = schedule_wake clock.ms (fill (length q.queued) clock q) in
      let w : F (schedule_heartbeat woken) =
        if_either F (woken.heartbeat_timer || not (is_some woken.heartbeat_ms) || woken.closed) v (
          if_either F (ltb 0 (length (held woken)) || woken.can_adopt && not woken.paused)
            (k woken true woken.idle_waiters woken.drained v) v) in
      let p = schedule_heartbeat woken in
      if_either F (idle p) (k p p.heartbeat_timer 0 (p.drained + p.idle_waiters) w) w

  -- Once `#pump` is over, the queue is paused or has no free slot, or no job in the line may run.
  pub pump-IsFull : (clock : Clock) (q : Queue P R) → IsFull clock.ms (pump clock q)
  unfolding schedule_wake
  pump-IsFull clock q =
      pump_lem (IsFull clock.ms) clock q (λ p b m n v. v)
        (fill-IsFull (length q.queued) clock q (omega arith))

-- The timer goes off by the due time, if there is one.
abbrev pub covers : Option ℕ → Option ℕ → Bool
covers timer none = true
covers none (some due) = false
covers (some t) (some due) = leb t due

covers_trans : (a b c : Option ℕ) → covers a b ≡ true → covers b c ≡ true → covers a c ≡ true
covers_trans a b none h k = refl
covers_trans a none (some c) h k = absurd (ground arith)
covers_trans none (some b) (some c) h k = absurd (ground arith)
covers_trans (some a) (some b) (some c) h k = ground arith

covers_self : (a : Option ℕ) → covers a a ≡ true
covers_self none = refl
covers_self (some t) = ground arith

earlier-covers :
    (due best : Option ℕ)
    → (covers (earlier due best) due ≡ true) × (covers (earlier due best) best ≡ true)
earlier-covers none best = (refl, covers_self best)
earlier-covers (some d) none = (ground arith, refl)
earlier-covers (some d) (some b) = (ground arith, ground arith)

module _ {P R : Type 0} where
  sooner-covers :
      (now : ℕ) (e : Entry P R) (best : Option ℕ)
      → (covers (sooner now e best) best ≡ true)
        × (is_pending e.durability
              || not (is_after e.due_at now)
              || covers (sooner now e best) e.due_at
            ≡ true)
  sooner-covers now e best = split (is_pending e.durability || not (is_after e.due_at now)) refl
    where
      split :
          (b : Bool)
          → is_pending e.durability || not (is_after e.due_at now) ≡ b
          → (covers (if b then best else earlier e.due_at best) best ≡ true)
            × (is_pending e.durability
                  || not (is_after e.due_at now)
                  || covers (if b then best else earlier e.due_at best) e.due_at
                ≡ true)
      split true k = (covers_self best, ground arith)
      split false k =
          let (mine, others) = earlier-covers e.due_at best in (others, ground (arith, mine))

  abbrev pub waits_timed : Option ℕ → (ℕ → Entry P R) → ℕ → ℕ → Bool
  waits_timed timer heap now r =
      is_pending (heap r).durability
      || not (is_after (heap r).due_at now)
      || covers timer (heap r).due_at

  waits_trans :
      (a b : Option ℕ) (heap : ℕ → Entry P R) (now r : ℕ)
      → covers a b ≡ true
      → waits_timed b heap now r ≡ true
      → waits_timed a heap now r ≡ true
  waits_trans a b heap now r h k = ground (arith, covers_trans a b (heap r).due_at h)

  earliest_due-covers :
      (heap : ℕ → Entry P R) (now : ℕ) (best : Option ℕ) (line : List ℕ)
      → (covers (earliest_due heap now best line) best ≡ true)
        × (all (waits_timed (earliest_due heap now best line) heap now) line ≡ true)
  earliest_due-covers heap now best [] = (covers_self best, refl)
  earliest_due-covers heap now best (r ∷ rs) =
      let s = sooner now (heap r) best in
      let (far, rest) = earliest_due-covers heap now s rs in
      let (near, here) = sooner-covers now (heap r) best in
      (covers_trans _ s best far near, rw (waits_trans _ s heap now r far here, rest))

  abbrev IsTimed : ℕ → Queue P R → Type 0
  IsTimed now q =
      q.paused ≡ false
      → q.closed ≡ false
      → all (waits_timed q.retry_timer q.heap now) q.queued ≡ true

  wake-IsTimed : (now : ℕ) (q : Queue P R) → IsTimed now (schedule_wake now q)
  unfolding schedule_wake
  wake-IsTimed now q h k = rw (h, k) ((earliest_due-covers q.heap now none q.queued).1)

  -- Why a job in the line does not run: its create is not back, its lane is taken, or it is due later
  -- and the timer goes off by then.
  abbrev pub is_accounted : Queue P R → ℕ → ℕ → Bool
  is_accounted q now r =
      is_pending (q.heap r).durability
      || lane_busy (q.heap r).lane q.busy_lanes
      || is_after (q.heap r).due_at now && covers q.retry_timer (q.heap r).due_at

  timed-accounted :
      (q : Queue P R) (now : ℕ) (line : List ℕ)
      → all (λ c. not (is_eligible now q.busy_lanes (q.heap c))) line ≡ true
      → all (waits_timed q.retry_timer q.heap now) line ≡ true
      → all (is_accounted q now) line ≡ true
  timed-accounted q now [] h k = refl
  timed-accounted q now (r ∷ rs) h k = ground (arith, timed-accounted q now rs)

  -- When `#pump` leaves a queue neither paused nor closed and with a slot free, every job still in the
  -- line waits for its create, or for a lane that is taken, or for a later due time by which the retry
  -- timer goes off.
  pub pump-accounted :
      (clock : Clock) (q : Queue P R)
      → (pump clock q).closed ≡ false
      → has_slot (pump clock q) ≡ true
      → all (is_accounted (pump clock q) clock.ms) (pump clock q).queued ≡ true
  pump-accounted clock q open_ slot =
      let p = pump clock q in
      let timed : IsTimed clock.ms p =
        pump_lem (IsTimed clock.ms) clock q (λ _ b m n v. v) (wake-IsTimed clock.ms _) in
      let going : p.paused ≡ false = ground arith in
      elim (pump-IsFull clock q) [
        | inl e ↦ absurd (ground arith)
        | inr e ↦ timed-accounted p clock.ms p.queued e (timed going open_)
      ]
