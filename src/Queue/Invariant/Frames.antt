-- ===== src/Queue/Invariant/Frames.antt =====
-- The operations that move no entry keep the invariant: events, store writes, history, timers, flags.
use seo_optimizer.Prelude.{
  ℕ, ◌+◌, ◌≡◌, refl, ap, Bool, true, false, not, ◌||◌, Option, [], ◌∷◌, ◌++◌, String, arith, length,
  ◌==◌, if◌then◌else◌, is_some,
}
use seo_optimizer.Queue.Types.{Entry, JobEvent, is_pending, is_in_memory, is_lost}
use seo_optimizer.Queue.State.{
  Queue, WriteKind, count_ref, deciding_refs, modify, emit, persist, store_call, remember,
  check_idle, idle,
}
use seo_optimizer.Queue.Schedule.{schedule_wake, schedule_heartbeat}
use seo_optimizer.Queue.Handlers.{advance_chain}
use seo_optimizer.Queue.Invariant.{IsSound, Inv}
use seo_optimizer.Queue.Invariant.Entries.{
  store_call-ne-create, chained-IsSound, advance_chain-IsSound,
}
use seo_optimizer.Queue.Invariant.Moves.{Unmoved, Unmoved-IsPlaced, Unmoved-AreApart}

module _ {P R : Type 0} where
  -- Nothing that the invariant reads has changed.
  pub record Frame (q q' : Queue P R) : Type 0 where
    pub next_same : q'.next ≡ q.next
    pub busy_same : q'.busy_lanes ≡ q.busy_lanes
    pub queued_is : q'.queued ≡ q.queued
    pub starting_is : q'.starting ≡ q.starting
    pub active_is : q'.active ≡ q.active
    pub deciding_is : q'.deciding ≡ q.deciding
    pub concurrency_is : q'.concurrency ≡ q.concurrency
    pub lane_is : (s : ℕ) → (q'.heap s).lane ≡ (q.heap s).lane
    pub state_is : (s : ℕ) → (q'.heap s).state ≡ (q.heap s).state
    pub pending_is :
        (s : ℕ)
        → is_pending (q.heap s).durability ≡ false
        → is_pending (q'.heap s).durability ≡ false
    pub sound_is : (s : ℕ) → IsSound (q.heap s) → IsSound (q'.heap s)

  Frame-Unmoved : (q q' : Queue P R) → Frame q q' → (s : ℕ) → Unmoved q q' s
  Frame-Unmoved q q' f s = record {
    queued_same = ap (count_ref s) f.queued_is;
    starting_same = ap (count_ref s) f.starting_is;
    active_same = ap (count_ref s) f.active_is;
    deciding_same = ap (λ ds. count_ref s (deciding_refs ds)) f.deciding_is;
    lane_same = f.lane_is s;
    state_same = f.state_is s;
    pending_less = f.pending_is s;
    sound_kept = f.sound_is s;
  }

  pub Frame-Inv : (q q' : Queue P R) → Frame q q' → Inv q → Inv q'
  Frame-Inv q q' f v = record {
    sound = λ s h. f.sound_is s (v.sound s (rw f.next_same at h));
    placed = λ s.
        Unmoved-IsPlaced q q' s (Frame-Unmoved q q' f s) (omega (arith, f.next_same))
          (λ h. rw f.busy_same ((v.placed s).lane_held h)) (v.placed s);
    apart = λ s t.
        Unmoved-AreApart q q' s t (Frame-Unmoved q q' f s) (Frame-Unmoved q q' f t) (v.apart s t);
    slots =
        omega (arith, v.slots, ap length f.active_is, ap length f.starting_is, f.concurrency_is);
  }

  -- An entry changes in what the invariant does not read, or stays sound.
  modify-Frame :
      (r : ℕ) (f : Entry P R → Entry P R) (q : Queue P R)
      → ((e : Entry P R)
          → ((f e).lane ≡ e.lane)
            × ((f e).state ≡ e.state)
            × (is_pending e.durability ≡ false → is_pending (f e).durability ≡ false)
            × (IsSound e → IsSound (f e)))
      → Frame q (modify r f q)
  modify-Frame r f q h = record {
    next_same = refl;
    busy_same = refl;
    queued_is = refl;
    starting_is = refl;
    active_is = refl;
    deciding_is = refl;
    concurrency_is = refl;
    lane_is = λ s. ground (arith, h (q.heap s));
    state_is = λ s. ground (arith, h (q.heap s));
    pending_is = λ s p. ground (arith, (h (q.heap s)).2 p);
    sound_is = λ s p. if_sound s p;
  }
    where
      pick :
          (b : Bool) (s : ℕ) → IsSound (q.heap s) → IsSound (if b then f (q.heap s) else q.heap s)
      pick true s p = (h (q.heap s)).3 p
      pick false s p = p

      if_sound : (s : ℕ) → IsSound (q.heap s) → IsSound (if s == r then f (q.heap s) else q.heap s)
      if_sound s p = pick (s == r) s p

  same_Frame :
      (q q' : Queue P R)
      → q'.next ≡ q.next
      → q'.busy_lanes ≡ q.busy_lanes
      → q'.queued ≡ q.queued
      → q'.starting ≡ q.starting
      → q'.active ≡ q.active
      → q'.deciding ≡ q.deciding
      → q'.concurrency ≡ q.concurrency
      → q'.heap ≡ q.heap
      → Frame q q'
  same_Frame q q' n b qu st ac de co he = record {
    next_same = n;
    busy_same = b;
    queued_is = qu;
    starting_is = st;
    active_is = ac;
    deciding_is = de;
    concurrency_is = co;
    lane_is = λ s. ap (λ (h : ℕ → Entry P R). (h s).lane) he;
    state_is = λ s. ap (λ (h : ℕ → Entry P R). (h s).state) he;
    pending_is = λ s p. rw he p;
    sound_is = λ s p. rw he p;
  }

  pub persist-Inv : (r : ℕ) (op : WriteKind) (q : Queue P R) → Inv q → Inv (persist r op q)
  unfolding persist
  persist-Inv r op q v =
      pick (not q.has_store || is_in_memory (q.heap r).durability) (is_lost (q.heap r).durability)
    where
      wrote : Queue P R
      wrote =
          modify r (λ e. record e { store_chain = e.store_chain ++ store_call op e ∷ [] })
            (record q { writes = q.writes + 1 })

      wrote-Inv : Inv wrote
      wrote-Inv =
          Frame-Inv (record q { writes = q.writes + 1 }) wrote
            (modify-Frame r _ _ λ e.
              (refl, refl, λ p. p, chained-IsSound e (store_call op e) (store_call-ne-create op e)))
            (Frame-Inv q _ (same_Frame q _ refl refl refl refl refl refl refl refl) v)

      pick : (a b : Bool) → Inv (if a then q else if b then q else wrote)
      pick true b = v
      pick false true = v
      pick false false = wrote-Inv

  pub emit-Inv : (event : JobEvent P) (q : Queue P R) → Inv q → Inv (emit event q)
  emit-Inv event q = Frame-Inv q _ (same_Frame q _ refl refl refl refl refl refl refl refl)

  pub remember-Inv : (id : String) (q : Queue P R) → Inv q → Inv (remember id q)
  unfolding remember
  remember-Inv id q = Frame-Inv q _ (same_Frame q _ refl refl refl refl refl refl refl refl)

  pub writes-Inv : (n : ℕ) (q : Queue P R) → Inv q → Inv (record q { writes = n })
  writes-Inv n q = Frame-Inv q _ (same_Frame q _ refl refl refl refl refl refl refl refl)

  pub paused-Inv : (b c : Bool) (q : Queue P R) → Inv q → Inv (record q { paused = b; closed = c })
  paused-Inv b c q = Frame-Inv q _ (same_Frame q _ refl refl refl refl refl refl refl refl)

  pub recovered-Inv : (b : Bool) (q : Queue P R) → Inv q → Inv (record q { recovered = b })
  recovered-Inv b q = Frame-Inv q _ (same_Frame q _ refl refl refl refl refl refl refl refl)

  pub waiters-Inv :
      (m n : ℕ) (q : Queue P R) → Inv q → Inv (record q { idle_waiters = m; drained = n })
  waiters-Inv m n q = Frame-Inv q _ (same_Frame q _ refl refl refl refl refl refl refl refl)

  pub timers-Inv :
      (due : Option ℕ) (beat : Bool) (q : Queue P R)
      → Inv q
      → Inv (record q { retry_timer = due; heartbeat_timer = beat })
  timers-Inv due beat q = Frame-Inv q _ (same_Frame q _ refl refl refl refl refl refl refl refl)

  if-Inv : (b : Bool) (q q' : Queue P R) → Inv q → Inv q' → Inv (if b then q else q')
  if-Inv true q q' v w = v
  if-Inv false q q' v w = w

  pub test-Inv :
      (b : Bool) {q q' : Queue P R}
      → (b ≡ true → Inv q)
      → (b ≡ false → Inv q')
      → Inv (if b then q else q')
  test-Inv true v w = v refl
  test-Inv false v w = w refl

  pub check_idle-Inv : (q : Queue P R) → Inv q → Inv (check_idle q)
  unfolding check_idle
  check_idle-Inv q v = if-Inv (idle q) _ q (waiters-Inv 0 _ q v) v

  pub schedule_wake-Inv : (now : ℕ) (q : Queue P R) → Inv q → Inv (schedule_wake now q)
  unfolding schedule_wake
  schedule_wake-Inv now q = timers-Inv _ q.heartbeat_timer q

  pub schedule_heartbeat-Inv : (q : Queue P R) → Inv q → Inv (schedule_heartbeat q)
  unfolding schedule_heartbeat
  schedule_heartbeat-Inv q v =
      if-Inv (q.heartbeat_timer || not (is_some q.heartbeat_ms) || q.closed) q _ v
        (if-Inv _ _ q (timers-Inv q.retry_timer true q v) v)

  pub modify-Inv :
      (r : ℕ) (f : Entry P R → Entry P R) (q : Queue P R)
      → ((e : Entry P R)
          → ((f e).lane ≡ e.lane)
            × ((f e).state ≡ e.state)
            × (is_pending e.durability ≡ false → is_pending (f e).durability ≡ false)
            × (IsSound e → IsSound (f e)))
      → Inv q
      → Inv (modify r f q)
  modify-Inv r f q h = Frame-Inv q _ (modify-Frame r f q h)

  pub advance-Inv : (r : ℕ) (q : Queue P R) → Inv q → Inv (modify r advance_chain q)
  advance-Inv r q = modify-Inv r advance_chain q λ e. (refl, refl, λ p. p, advance_chain-IsSound e)
