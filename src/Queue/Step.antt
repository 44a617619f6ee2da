-- ===== src/Queue/Step.antt =====
-- The runs of a queue: what a caller, the store, a handler, a retry policy and the timers may do next.
-- JavaScript runs each piece of code between two `await`s to its end, so each is one step; the
-- callbacks that hang on one promise are taken together. A handler, a listener or a policy that
-- calls the queue back does so in a step of its own.
use seo_optimizer.Prelude.{ℕ, ◌≡◌, ◌<◌, String, Bool, Option, some, List, ◌∷◌}
use seo_optimizer.Prelude.Int.{ℤ}
use seo_optimizer.Queue.Types.{StoredJob, StoreCall}
use seo_optimizer.Queue.State.{Queue, Deciding, count_ref}
use seo_optimizer.Queue.Schedule.{Clock}
use seo_optimizer.Queue.Handlers.{
  Reply, Verdict, create_returned, write_returned, acquire_returned, handler_returned,
  policy_returned,
}
use seo_optimizer.Queue.Api.{
  enqueue, recover, loaded, cancel, pause, resume, drain, close, woken, beat_begins, renewed,
  beat_ends,
}

pub data IsIn (d : Deciding) : List Deciding → Type 0 where
  here : (ds : List Deciding) → IsIn d (d ∷ ds)
  there : (c : Deciding) (ds : List Deciding) → IsIn d ds → IsIn d (c ∷ ds)

-- A write that `#persist` began.
pub data IsWrite {P : Type 0} : StoreCall P → Type 0 where
  saving : (job : StoredJob P) → IsWrite (StoreCall.save job)
  removing : (id : String) → IsWrite (StoreCall.remove id)

module _ {P R : Type 0} where
  -- An answer comes only to what is waited for: the oldest store call of an entry, a running handler,
  -- a pending decision.
  pub data Step (q : Queue P R) : Queue P R → Type 0 where
    enqueues :
        (id : String) (payload : P) (lane : Option String) (priority : ℤ) (clock : Clock)
        {q' : Queue P R}
        → enqueue id payload lane priority clock q ≡ some q'
        → Step q q'
    recovers : {q' : Queue P R} → recover q ≡ some q' → Step q q'
    loads : (jobs : List (StoredJob P)) (clock : Clock) → Step q (loaded jobs clock q)
    cancels : (id : String) (clock : Clock) → Step q (cancel id clock q).0
    pauses : Step q (pause q)
    resumes : (clock : Clock) {q' : Queue P R} → resume clock q ≡ some q' → Step q q'
    drains : Step q (drain q)
    closes : (clock : Clock) → Step q (close clock q)
    creates :
        (r : ℕ) (job : StoredJob P) (later : List (StoreCall P)) (reply : Reply Unit)
        (clock : Clock)
        → r < q.next
        → (q.heap r).store_chain ≡ StoreCall.create job ∷ later
        → Step q (create_returned r reply clock q)
    writes :
        (r : ℕ) (call : StoreCall P) (later : List (StoreCall P)) (reply : Reply Unit) (stamp : ℕ)
        → r < q.next
        → IsWrite call
        → (q.heap r).store_chain ≡ call ∷ later
        → Step q (write_returned r reply stamp q)
    acquires :
        (r : ℕ) (job : StoredJob P) (later : List (StoreCall P)) (reply : Reply Bool)
        (clock : Clock)
        → 0 < count_ref r q.starting
        → (q.heap r).store_chain ≡ StoreCall.acquire job ∷ later
        → Step q (acquire_returned r reply clock q)
    handles :
        (r : ℕ) (reply : Reply R) (clock : Clock)
        → 0 < count_ref r q.active
        → Step q (handler_returned r reply clock q)
    decides :
        (d : Deciding) (answer : Verdict) (clock : Clock)
        → IsIn d q.deciding
        → Step q (policy_returned d answer clock q)
    wakes : (clock : Clock) → Step q (woken clock q)
    beats : Step q (beat_begins q)
    renews : (reply : Reply (List String)) (stamp : ℕ) → Step q (renewed reply stamp q)
    ends_beat : (jobs : List (StoredJob P)) (clock : Clock) → Step q (beat_ends jobs clock q)

  -- The queues that a new one may become.
  pub data Reach (first : Queue P R) : Queue P R → Type 0 where
    start : Reach first first
    next : {q q' : Queue P R} → Reach first q → Step q q' → Reach first q'
