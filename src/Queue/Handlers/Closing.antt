-- ===== src/Queue/Handlers/Closing.antt =====
-- What a retry policy's late answer does to a queue that was closed while the policy was asked.
use seo_optimizer.Prelude.{
  ℕ, zero, suc, ◌≡◌, ◌<◌, refl, Bool, true, false, List, [], ◌∷◌, ◌++◌, if◌then◌else◌, length,
  arith,
}
use seo_optimizer.Queue.Types.{Cause}
use seo_optimizer.Queue.State.{
  Queue, Deciding, count_ref, persist, save_op, check_idle, idle, modify,
}
use seo_optimizer.Queue.Schedule.{Clock, fill, pump, schedule_wake, schedule_heartbeat}
use seo_optimizer.Queue.Handlers.{
  wait_ms, requeue, decide_delay, decide, policy_returned, undecided, back_entry,
}

count_snoc : (r : ℕ) (line : List ℕ) → 0 < count_ref r (line ++ r ∷ [])
count_snoc r [] = ground arith
count_snoc r (s ∷ line) = ground (arith, count_snoc r line)

module _ {P R : Type 0} where
  fill-paused : (fuel : ℕ) (clock : Clock) (q : Queue P R) → q.paused ≡ true → fill fuel clock q ≡ q
  unfolding fill
  fill-paused zero clock q h = refl
  fill-paused (suc fuel) clock q h = rw h refl

  -- What is left of a job's line and of the waiters where nothing is started.
  abbrev Waits : ℕ → ℕ → Queue P R → Type 0
  Waits r drained q =
      (0 < count_ref r q.queued) × (q.paused ≡ true) × (q.closed ≡ true) × (q.drained ≡ drained)

  persist-Waits :
      (s r drained : ℕ) (q : Queue P R) → Waits r drained q → Waits r drained (persist s save_op q)
  unfolding persist
  persist-Waits s r drained q w = ground (arith, w)

  if-Waits :
      (r drained : ℕ) (b : Bool) (q q' : Queue P R)
      → Waits r drained q
      → Waits r drained q'
      → Waits r drained (if b then q else q')
  if-Waits r drained true q q' v w = v
  if-Waits r drained false q q' v w = w

  not_idle : (q : Queue P R) (r : ℕ) → 0 < count_ref r q.queued → idle q ≡ false
  unfolding idle
  not_idle q r h = ground (arith, nonempty q.queued h)
    where
      nonempty : (line : List ℕ) → 0 < count_ref r line → 0 < length line
      nonempty [] k = k
      nonempty (s ∷ line) k = omega arith

  heartbeat-Waits :
      (r drained : ℕ) (q : Queue P R) → Waits r drained q → Waits r drained (schedule_heartbeat q)
  unfolding schedule_heartbeat
  heartbeat-Waits r drained q w = ground (arith, w)

  pump-Waits :
      (r drained : ℕ) (clock : Clock) (q : Queue P R)
      → Waits r drained q
      → Waits r drained (pump clock q)
  unfolding pump schedule_wake check_idle
  pump-Waits r drained clock q w =
      let filled = fill (length q.queued) clock q in
      let same : filled ≡ q = fill-paused (length q.queued) clock q w.1 in
      let start : Waits r drained (schedule_wake clock.ms filled) = rw same w in
      let beaten = heartbeat-Waits r drained (schedule_wake clock.ms filled) start in
      rw (not_idle (schedule_heartbeat (schedule_wake clock.ms filled)) r beaten.0) beaten

  requeue-Waits :
      (r : ℕ) (cause : Cause) (delay : ℕ) (clock : Clock) (q : Queue P R)
      → q.paused ≡ true
      → q.closed ≡ true
      → Waits r q.drained (requeue r cause delay clock q)
  unfolding requeue
  requeue-Waits r cause delay clock q p c =
      persist-Waits r r q.drained
        (record (modify r (back_entry cause delay clock) q) { queued = q.queued ++ r ∷ [] })
        (count_snoc r q.queued, p, c, refl)

  -- On a queue that is closed and paused, a usable delay from a policy that had been asked before, about
  -- a job that nobody cancelled, puts the job back in line, where nothing starts it; no waiter of the
  -- drain is resolved.
  pub policy_returned-strands :
      (d : Deciding) (delay : ℕ) (clock : Clock) (q : Queue P R)
      → q.closed ≡ true
      → q.paused ≡ true
      → d.asked ≡ true
      → (q.heap d.entry).cancel_requested ≡ false
      → let q' = policy_returned d (wait_ms delay) clock q in
        (0 < count_ref d.entry q'.queued)
        × (q'.paused ≡ true)
        × (q'.closed ≡ true)
        × (q'.drained ≡ q.drained)
  unfolding policy_returned decide decide_delay
  policy_returned-strands d delay clock q c p a n =
      rw (n, a)
        (pump-Waits d.entry q.drained clock
          (requeue d.entry d.cause delay clock (undecided d.entry q))
          (requeue-Waits d.entry d.cause delay clock (undecided d.entry q) p c))
