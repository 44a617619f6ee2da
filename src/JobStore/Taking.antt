-- ===== src/JobStore/Taking.antt =====
-- Taking rows of the table, and claiming the same jobs in the in-memory store.
use seo_optimizer.Prelude.{
  ℕ, ◌≡◌, refl, sym, ap, ◌∙◌, inl, inr, false, none, some, List, [], ◌∷◌, str_eq, if◌then◌else◌,
  lookup, insert, lookup-insert, map, has, arith, eq_iff, str_eq_refl, Bool-cases, All,
}
use seo_optimizer.Queue.Types.{StoredJob}
use seo_optimizer.Queue.MemoryStore.{Rows, claim, put, claim_all, requeued_row}
use seo_optimizer.JobStore.{Row, Table, PostgresJobStore, id_of, taken, take_rows, update_where}
use seo_optimizer.JobStore.Shown.{
  handle_of, jobs_of, jobs_of-insert, AreRows, AreRows-insert, row_of, lookup-update_where, IsShown,
}

module _ {P : Type 0} where
  -- A job as it stands in the table, up to its state.
  abbrev pub IsCurrent : Table P → StoredJob P → Type 0
  IsCurrent t job =
      (row : Row P) × (lookup job.id t ≡ some row) × (requeued_row row.job ≡ requeued_row job)

module _ {P : Type 0} (s : PostgresJobStore) (now : ℕ) where
  abbrev take_one : StoredJob P → Table P → Table P
  take_one job t = update_where (λ id row. str_eq job.id id) (taken s now) t

  -- The rows after the jobs were taken one by one.
  abbrev take_each : List (StoredJob P) → Table P → Table P
  take_each [] t = t
  take_each (job ∷ jobs) t = take_each jobs (take_one job t)

  take_rows-one :
      (job : StoredJob P) (jobs : List (StoredJob P)) (t : Table P)
      → take_rows s now jobs (take_one job t) ≡ take_rows s now (job ∷ jobs) t
  take_rows-one job jobs [] = refl
  take_rows-one job jobs ((id, row) ∷ t) = elim (Bool-cases (str_eq job.id id)) [
    | inl c ↦ elim (Bool-cases (has (map id_of jobs) id)) [
      | inl d ↦ rw (c, d, take_rows-one job jobs t) refl
      | inr d ↦ rw (c, d, take_rows-one job jobs t) refl
    ]
    | inr c ↦ rw (c, take_rows-one job jobs t) refl
  ]

  take_rows-none : (t : Table P) → take_rows s now [] t ≡ t
  take_rows-none [] = refl
  take_rows-none ((id, row) ∷ t) = rw (take_rows-none t) refl

  take_rows-each :
      (jobs : List (StoredJob P)) (t : Table P) → take_rows s now jobs t ≡ take_each jobs t
  take_rows-each [] t = take_rows-none t
  take_rows-each (job ∷ jobs) t =
      sym (take_rows-one job jobs t) ∙ take_rows-each jobs (take_one job t)

  take_one-absent : (job : StoredJob P) (u : Table P) → lookup job.id u ≡ none → take_one job u ≡ u
  take_one-absent job [] l = refl
  take_one-absent job ((j, r) ∷ u) l =
      ground (arith, l, eq_iff job.id j, eq_iff j job.id, take_one-absent job u)

  -- To take a row is to put the taken row in its place.
  take_one-insert :
      (job : StoredJob P) (t u : Table P) (row : Row P)
      → AreRows t u
      → lookup job.id u ≡ some row
      → take_one job u ≡ insert job.id (taken s now row) u
  take_one-insert job t [] row h l = absurd (ground (arith, l))
  take_one-insert job t ((j, r) ∷ u) row (f, i, o, n, h) l = elim (Bool-cases (str_eq j job.id)) [
    | inl c ↦
        let same : j ≡ job.id = (eq_iff j job.id).0 c in
        let this : r ≡ row = ground (arith, l, c) in
        rw (c, same, str_eq_refl job.id, this, take_one-absent job u (rw same at n)) refl
    | inr c ↦
        let other : str_eq job.id j ≡ false = ground (arith, c, eq_iff job.id j, eq_iff j job.id) in
        rw (c, other, take_one-insert job t u row h (ground (arith, l, c))) refl
  ]

  -- One job.
  taken-IsShown :
      (job : StoredJob P) (t : Table P) (rows : Rows P)
      → IsCurrent t job
      → IsShown t rows
      → IsShown (take_one job t) (put (requeued_row job) (claim (handle_of s) now job.id rows))
  taken-IsShown job t rows (row, e, same) shown =
      rw (take_one-insert job t t row shown.rows_of e) (record {
        jobs =
            ap (insert job.id (requeued_row job)) shown.jobs
            ∙ (ap (λ j. insert job.id j (jobs_of t)) (sym same)
                ∙ sym (jobs_of-insert job.id (taken s now row) t));
        leases = λ id. ground (
          arith,
          lookup-insert job.id id (taken s now row) t,
          lookup-insert job.id id (record { owner = s.owner; leased_at = now }) rows.leases,
          shown.leases id,
        );
        rows_of =
            AreRows-insert job.id (taken s now row) t t (row_of t t job.id row shown.rows_of e).0
              refl shown.rows_of;
      })

  still-IsCurrent :
      (job other : StoredJob P) (t : Table P) → IsCurrent t other → IsCurrent (take_one job t) other
  still-IsCurrent job other t (r, f, same) = elim (Bool-cases (str_eq job.id other.id)) [
    | inl c ↦ (taken s now r, rw (found, f, c) refl, same)
    | inr c ↦ (r, rw (found, f, c) refl, same)
  ]
    where
      found : lookup other.id (take_one job t) ≡ elim (lookup other.id t) [
        | none ↦ none
        | some row ↦ some (if str_eq job.id other.id then taken s now row else row)
      ]
      found = lookup-update_where (λ id row. str_eq job.id id) (taken s now) other.id t

  all-IsCurrent :
      (job : StoredJob P) (jobs : List (StoredJob P)) (t : Table P)
      → All (IsCurrent t) jobs
      → All (IsCurrent (take_one job t)) jobs
  all-IsCurrent job [] t k = tt
  all-IsCurrent job (other ∷ jobs) t (k, ks) =
      (still-IsCurrent job other t k, all-IsCurrent job jobs t ks)

  taken_all-IsShown :
      (jobs : List (StoredJob P)) (t : Table P) (rows : Rows P)
      → All (IsCurrent t) jobs
      → IsShown t rows
      → IsShown (take_each jobs t) (claim_all (handle_of s) now jobs rows)
  taken_all-IsShown [] t rows k shown = shown
  taken_all-IsShown (job ∷ jobs) t rows (k, ks) shown =
      taken_all-IsShown jobs (take_one job t)
        (put (requeued_row job) (claim (handle_of s) now job.id rows)) (all-IsCurrent job jobs t ks)
        (taken-IsShown job t rows k shown)

  pub took-IsShown :
      (jobs : List (StoredJob P)) (t : Table P) (rows : Rows P)
      → All (IsCurrent t) jobs
      → IsShown t rows
      → IsShown (take_rows s now jobs t) (claim_all (handle_of s) now jobs rows)
  took-IsShown jobs t rows k shown =
      rw (take_rows-each jobs t) (taken_all-IsShown jobs t rows k shown)
