-- ===== src/JobStore/Examples.antt =====
-- Two workers on one table: the second waits for the lane, and takes over when the first no longer renews.
use seo_optimizer.Prelude.{ℕ, ◌≡◌, refl, String, true, false, none, some, List, [], ◌∷◌, arith}
use seo_optimizer.Prelude.Int.{pos}
use seo_optimizer.Queue.Types.{StoredJob, JobState}
use seo_optimizer.Queue.Handlers.{returned}
use seo_optimizer.Queue.MemoryStore.{Rows, by_age}
use seo_optimizer.JobStore.{
  PostgresJobStore, adopt_rows, save_row, acquire_row, remove_row, renew_rows,
}
use seo_optimizer.JobStore.Shown.{IsShown}
use seo_optimizer.JobStore.Ordering.{by_age-IsOrdering}
use seo_optimizer.JobStore.Refines.{
  Turn, Call, adopts, acquires, removes, renews, saves, jobs, saved, granted, removed, lost,
  AreProper, run_table, run_memory, run_table-refines,
}

abbrev job_named : String → JobState → ℕ → StoredJob ℕ
job_named id state age = record {
  id = id;
  payload = 0;
  lane = some "shop.example";
  priority = pos 0;
  state = state;
  attempt = 1;
  enqueued_at = age;
  next_attempt_at = none;
  error = none;
}

abbrev first_worker : PostgresJobStore
first_worker = record { owner = "a"; lease_ms = some 10 }

abbrev second_worker : PostgresJobStore
second_worker = record { owner = "b"; lease_ms = some 10 }

abbrev turn : PostgresJobStore → ℕ → Call ℕ → Turn ℕ
turn worker now call = record { worker = worker; now = now; order_by = by_age; call = call }

abbrev turns : List (Turn ℕ)
turns =
    turn first_worker 0 (acquires (job_named "j" JobState.running 4))
    ∷ turn first_worker 0 (saves (job_named "i" JobState.queued 2))
    ∷ turn second_worker 10 (acquires (job_named "k" JobState.running 5))
    ∷ turn second_worker 11 adopts
    ∷ turn first_worker 12 (renews ("j" ∷ []))
    ∷ turn second_worker 13 (removes "j")
    ∷ []

abbrev no_rows : Rows ℕ
no_rows = record { jobs = []; leases = [] }

-- A claim still stands when its age is the lease.
taken_over :
    (run_table turns []).0
    ≡ granted (returned true)
      ∷ saved (returned tt)
      ∷ granted (returned false)
      ∷ jobs (job_named "i" JobState.queued 2 ∷ job_named "j" JobState.queued 4 ∷ [])
      ∷ lost ("j" ∷ [])
      ∷ removed
      ∷ []
unfolding run_table acquire_row save_row adopt_rows renew_rows remove_row
taken_over = refl

turns-AreProper : AreProper turns []
unfolding acquire_row save_row adopt_rows renew_rows remove_row
turns-AreProper = (
  record { outstanding = refl; same_age = λ row e. ground (arith, e) },
  (
    record { outstanding = refl; same_age = λ row e. ground (arith, e) },
    (
      record { outstanding = refl; same_age = λ row e. ground (arith, e) },
      ((by_age-IsOrdering, ((refl, tt), (tt, tt))), ((refl, tt), (tt, tt))),
    ),
  ),
)

run_table-refines_example :
    ((run_table turns []).0 ≡ (run_memory turns no_rows).0)
    × IsShown (run_table turns []).1 (run_memory turns no_rows).1
run_table-refines_example =
    run_table-refines turns [] no_rows turns-AreProper
      (record { jobs = refl; leases = λ id. refl; rows_of = tt })
