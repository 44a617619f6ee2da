-- ===== src/Queue/MemoryStore.antt =====
-- packages/queue/src/store.ts: `MemoryJobStore`, the lease rules that a durable store follows too.
-- The jobs and the leases are what several handles share; a handle is its owner and its lease time. The
-- clock is an argument, and `now - leasedAt < leaseMs` is written without the difference.
pub mod Leases
pub mod Lanes
pub mod Adoption
use seo_optimizer.Prelude.{
  ℕ, zero, suc, ◌+◌, String, Bool, true, false, not, ◌&&◌, ◌||◌, Option, none, some, List, [], ◌∷◌,
  ◌++◌, ltb, leb, str_eq, opt_str_eq, if◌then◌else◌, filter, any, take, map, is_some, lookup,
  insert, delete, values,
}
use seo_optimizer.Queue.Types.{JobState, StoredJob, Cause, job_lease_lost, is_running}
use seo_optimizer.Queue.Handlers.{Reply, returned, threw}

pub record Lease : Type 0 where
  pub owner : String
  pub leased_at : ℕ

pub record Handle : Type 0 where
  pub owner : String
  pub lease_ms : Option ℕ

pub record Rows (P : Type 0) : Type 0 where
  pub jobs : List (String × StoredJob P)
  pub leases : List (String × Lease)

-- `ADOPTION_BATCH`.
abbrev pub adoption_batch : ℕ
adoption_batch = 25

abbrev pub stands : ℕ → ℕ → Lease → Bool
stands now ms lease = ltb now (lease.leased_at + ms)

abbrev pub held_lease : String → ℕ → ℕ → Option Lease → Bool
held_lease owner ms now none = false
held_lease owner ms now (some lease) = not (str_eq lease.owner owner) && stands now ms lease

abbrev pub abandoned_lease : String → ℕ → ℕ → Option Lease → Bool
abandoned_lease owner ms now none = true
abandoned_lease owner ms now (some lease) =
    not (str_eq lease.owner owner) && not (stands now ms lease)

-- `sort` by `enqueuedAt`, which keeps the order of equals.
abbrev pub insert_by_age : {P : Type 0} → StoredJob P → List (StoredJob P) → List (StoredJob P)
insert_by_age job [] = job ∷ []
insert_by_age job (j ∷ js) =
    let rest = j ∷ insert_by_age job js in
    if leb job.enqueued_at j.enqueued_at then job ∷ j ∷ js else rest

abbrev pub by_age : {P : Type 0} → List (StoredJob P) → List (StoredJob P)
by_age [] = []
by_age (job ∷ jobs) = insert_by_age job (by_age jobs)

module _ {P : Type 0} where
  -- `#heldByAnother`.
  abbrev pub held_by_another : Handle → ℕ → Rows P → String → Bool
  held_by_another h now rows id = elim h.lease_ms [
    | none ↦ false
    | some ms ↦ held_lease h.owner ms now (lookup id rows.leases)
  ]

  -- `#claim`.
  abbrev pub claim : Handle → ℕ → String → Rows P → Rows P
  claim h now id rows = record rows {
    leases = insert id (record { owner = h.owner; leased_at = now }) rows.leases;
  }

  abbrev pub put : StoredJob P → Rows P → Rows P
  put job rows = record rows { jobs = insert job.id job rows.jobs }

  abbrev pub requeued_row : StoredJob P → StoredJob P
  requeued_row job = record job { state = JobState.queued }

  -- The loops of `load` and `adopt`: each job is claimed and written down as queued.
  abbrev pub claim_all : Handle → ℕ → List (StoredJob P) → Rows P → Rows P
  claim_all h now [] rows = rows
  claim_all h now (job ∷ jobs) rows =
      claim_all h now jobs (put (requeued_row job) (claim h now job.id rows))

  unfoldable pub load : Handle → ℕ → Rows P → List (StoredJob P) × Rows P
  load h now rows =
      let jobs = by_age (filter (λ j. not (held_by_another h now rows j.id)) (values rows.jobs)) in
      (jobs, claim_all h now jobs rows)

  unfoldable pub save : Handle → ℕ → StoredJob P → Rows P → Reply Unit × Rows P
  save h now job rows =
      if held_by_another h now rows job.id
      then (threw (job_lease_lost job.id), rows)
      else (returned tt, claim h now job.id (put job rows))

  -- A running job on the lane that somebody else holds.
  abbrev pub blocks : Handle → ℕ → Rows P → StoredJob P → StoredJob P → Bool
  blocks h now rows job other =
      not (
        str_eq other.id job.id
        || not (opt_str_eq other.lane job.lane)
        || not (is_running other.state))
      && held_by_another h now rows other.id

  abbrev pub granted : Reply Unit × Rows P → Reply Bool × Rows P
  granted (returned _, rows) = (returned true, rows)
  granted (threw cause, rows) = (threw cause, rows)

  unfoldable pub acquire : Handle → ℕ → StoredJob P → Rows P → Reply Bool × Rows P
  unfolding save
  acquire h now job rows =
      if is_some job.lane && is_some h.lease_ms && any (blocks h now rows job) (values rows.jobs)
      then (returned false, rows)
      else granted (save h now job rows)

  unfoldable pub remove : Handle → ℕ → String → Rows P → Rows P
  remove h now id rows =
      if held_by_another h now rows id
      then rows
      else record { jobs = delete id rows.jobs; leases = delete id rows.leases }

  unfoldable pub renew : Handle → ℕ → List String → Rows P → List String × Rows P
  renew h now [] rows = ([], rows)
  renew h now (id ∷ ids) rows =
      let skipped = renew h now ids rows in
      let claimed = renew h now ids (claim h now id rows) in
      if not (is_some (lookup id rows.jobs)) || held_by_another h now rows id
      then (id ∷ skipped.0, skipped.1)
      else claimed

  -- `#abandoned`.
  abbrev pub abandoned : Handle → ℕ → Rows P → String → Bool
  abandoned h now rows id = elim h.lease_ms [
    | none ↦ false
    | some ms ↦ abandoned_lease h.owner ms now (lookup id rows.leases)
  ]

  abbrev pub adoptable : Handle → ℕ → Rows P → List (StoredJob P)
  adoptable h now rows =
      map requeued_row
        (take adoption_batch (by_age (filter (λ j. abandoned h now rows j.id) (values rows.jobs))))

  unfoldable pub adopt : Handle → ℕ → Rows P → List (StoredJob P) × Rows P
  adopt h now rows =
      if is_some h.lease_ms
      then (adoptable h now rows, claim_all h now (adoptable h now rows) rows)
      else ([], rows)
