-- ===== src/JobStore.antt =====
-- packages/job-store/src/postgres.ts: a `JobStore` on the `jobs` table. `Table` is the rows of one queue's
-- name, by id: the primary key is the name and the id, and every statement asks for the name. A statement or
-- a transaction is one function: those of several workers are taken one after the other, so `SKIP LOCKED`
-- skips nothing. The columns are those of a stored job, `owner` and
-- `leasedAt`; `updatedAt` is never read. A payload is one that JSON keeps, and `revive` is the default. `now` is
-- the database's clock, in units of which the lease is a whole number. `ORDER BY` is the database's, a
-- parameter `order_by` of the two queries that use it: `Ordering` says what is documented of it, and which of
-- two rows of one age comes first is left open.
pub mod Shown
pub mod Writes
pub mod Renewals
pub mod Taking
pub mod Ordering
pub mod Loads
pub mod Refines
pub mod Examples
use seo_optimizer.Prelude.{
  ℕ, ◌+◌, String, Bool, true, false, not, ◌&&◌, ◌||◌, Option, none, some, List, [], ◌∷◌, ltb, leb,
  str_eq, opt_str_eq, if◌then◌else◌, filter, any, take, map, has, is_some, lookup, insert, delete,
  values,
}
use seo_optimizer.Queue.Types.{
  JobState, queued, running, complete, failed, cancelled, StoredJob, job_lease_lost, is_running,
}
use seo_optimizer.Queue.Handlers.{Reply, returned, threw}
use seo_optimizer.Queue.MemoryStore.{adoption_batch, requeued_row}

pub record Row (P : Type 0) : Type 0 where
  pub job : StoredJob P
  pub owner : Option String
  pub leased_at : Option ℕ

abbrev pub Table : Type 0 → Type 0
Table P = List (String × Row P)

-- `PostgresJobStore`: who it speaks for, and how long a claim stands.
pub record PostgresJobStore : Type 0 where
  pub owner : String
  pub lease_ms : Option ℕ

-- `inArray(jobs.state, OUTSTANDING)`.
abbrev pub is_outstanding : JobState → Bool
is_outstanding queued = true
is_outstanding running = true
is_outstanding complete = false
is_outstanding failed = false
is_outstanding cancelled = false

-- `eq(jobs.owner, owner)`: null is not equal to a name.
abbrev pub is_owner : String → Option String → Bool
is_owner me none = false
is_owner me (some owner) = str_eq owner me

-- `ne(jobs.owner, owner)`: nor is it unequal.
abbrev pub is_other : String → Option String → Bool
is_other me none = false
is_other me (some owner) = not (str_eq owner me)

-- `lt(jobs.leasedAt, now() - leaseMs)`.
abbrev pub aged_out : ℕ → ℕ → Option ℕ → Bool
aged_out now ms none = false
aged_out now ms (some at) = ltb (at + ms) now

-- `gte(jobs.leasedAt, now() - leaseMs)`.
abbrev pub is_live : ℕ → ℕ → Option ℕ → Bool
is_live now ms none = false
is_live now ms (some at) = leb now (at + ms)

-- `ORDER BY`: what a query selects, in the order in which the database gives it.
abbrev pub OrderBy : Type 0 → Type 0
OrderBy P = List (StoredJob P) → List (StoredJob P)

module _ {P : Type 0} where
  -- `#claimable`.
  abbrev pub claimable : PostgresJobStore → ℕ → Row P → Bool
  claimable s now row = elim s.lease_ms [
    | none ↦ true
    | some ms ↦
        not (is_some row.owner)
        || is_owner s.owner row.owner
        || not (is_some row.leased_at)
        || aged_out now ms row.leased_at
  ]

  -- `UPDATE`.
  abbrev pub update_where : (String → Row P → Bool) → (Row P → Row P) → Table P → Table P
  update_where p f [] = []
  update_where p f ((id, row) ∷ t) = (id, if p id row then f row else row) ∷ update_where p f t

  -- Claimed, and written back as queued.
  abbrev pub taken : PostgresJobStore → ℕ → Row P → Row P
  taken s now row = record row {
    job = requeued_row row.job;
    owner = some s.owner;
    leased_at = some now;
  }

  abbrev pub id_of : StoredJob P → String
  id_of job = job.id

  abbrev pub job_of : Row P → StoredJob P
  job_of row = row.job

  abbrev pub take_rows : PostgresJobStore → ℕ → List (StoredJob P) → Table P → Table P
  take_rows s now jobs t = update_where (λ id row. has (map id_of jobs) id) (taken s now) t

  abbrev pub loadable : PostgresJobStore → ℕ → Table P → List (StoredJob P)
  loadable s now t =
      map job_of (filter (λ row. is_outstanding row.job.state && claimable s now row) (values t))

  unfoldable pub load_rows :
      OrderBy P → PostgresJobStore → ℕ → Table P → List (StoredJob P) × Table P
  load_rows order_by s now t =
      let jobs = order_by (loadable s now t) in (jobs, take_rows s now jobs t)

  abbrev pub is_abandoned : PostgresJobStore → ℕ → ℕ → Row P → Bool
  is_abandoned s ms now row =
      (not (is_some row.owner) || is_other s.owner row.owner)
      && (not (is_some row.leased_at) || aged_out now ms row.leased_at)

  abbrev pub adoptable_rows : PostgresJobStore → ℕ → ℕ → Table P → List (StoredJob P)
  adoptable_rows s ms now t =
      map job_of
        (filter (λ row. is_outstanding row.job.state && is_abandoned s ms now row) (values t))

  abbrev pub adopt_batch :
      OrderBy P → PostgresJobStore → ℕ → ℕ → Table P → List (StoredJob P) × Table P
  adopt_batch order_by s ms now t =
      let jobs = take adoption_batch (order_by (adoptable_rows s ms now t)) in
      (map requeued_row jobs, take_rows s now jobs t)

  unfoldable pub adopt_rows :
      OrderBy P → PostgresJobStore → ℕ → Table P → List (StoredJob P) × Table P
  adopt_rows order_by s now t = elim s.lease_ms [
    | none ↦ ([], t)
    | some ms ↦ adopt_batch order_by s ms now t
  ]

  -- The row that is inserted, and the one that a conflict leaves: it keeps its age.
  abbrev pub new_row : PostgresJobStore → ℕ → StoredJob P → Row P
  new_row s now job = record { job = job; owner = some s.owner; leased_at = some now }

  abbrev pub merged_row : PostgresJobStore → ℕ → StoredJob P → Row P → Row P
  merged_row s now job row = new_row s now (record job { enqueued_at = row.job.enqueued_at })

  abbrev pub write_over :
      PostgresJobStore → ℕ → StoredJob P → Option (Row P) → Table P → Reply Unit × Table P
  write_over s now job none t = (returned tt, insert job.id (new_row s now job) t)
  write_over s now job (some row) t =
      if claimable s now row
      then (returned tt, insert job.id (merged_row s now job row) t)
      else (threw (job_lease_lost job.id), t)

  -- `save` and `#write`.
  unfoldable pub save_row : PostgresJobStore → ℕ → StoredJob P → Table P → Reply Unit × Table P
  save_row s now job t = write_over s now job (lookup job.id t) t

  -- The row of a job that another worker is running on the lane.
  abbrev pub holds_lane : PostgresJobStore → ℕ → ℕ → String → StoredJob P → Row P → Bool
  holds_lane s ms now lane job row =
      opt_str_eq row.job.lane (some lane)
      && is_running row.job.state
      && not (str_eq row.job.id job.id)
      && is_other s.owner row.owner
      && is_live now ms row.leased_at

  abbrev pub granted_row : Reply Unit × Table P → Reply Bool × Table P
  granted_row (returned _, t) = (returned true, t)
  granted_row (threw cause, t) = (threw cause, t)

  abbrev pub lane_held :
      PostgresJobStore → ℕ → StoredJob P → Option String → Option ℕ → Table P → Bool
  lane_held s now job none ms t = false
  lane_held s now job (some lane) none t = false
  lane_held s now job (some lane) (some ms) t = any (holds_lane s ms now lane job) (values t)

  unfoldable pub acquire_row : PostgresJobStore → ℕ → StoredJob P → Table P → Reply Bool × Table P
  unfolding save_row
  acquire_row s now job t =
      if lane_held s now job job.lane s.lease_ms t
      then (returned false, t)
      else granted_row (save_row s now job t)

  abbrev delete_found : PostgresJobStore → ℕ → String → Option (Row P) → Table P → Table P
  delete_found s now id none t = t
  delete_found s now id (some row) t = if claimable s now row then delete id t else t

  unfoldable pub remove_row : PostgresJobStore → ℕ → String → Table P → Table P
  remove_row s now id t = delete_found s now id (lookup id t) t

  abbrev pub is_mine : PostgresJobStore → Option (Row P) → Bool
  is_mine s none = false
  is_mine s (some row) = is_owner s.owner row.owner

  abbrev pub renewed : ℕ → Row P → Row P
  renewed now row = record row { leased_at = some now }

  unfoldable pub renew_rows : PostgresJobStore → ℕ → List String → Table P → List String × Table P
  renew_rows s now ids t = (
    filter (λ id. not (is_mine s (lookup id t))) ids,
    update_where (λ id row. has ids id && is_owner s.owner row.owner) (renewed now) t,
  )
