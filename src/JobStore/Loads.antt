-- ===== src/JobStore/Loads.antt =====
-- Loading and adopting from the table and from the in-memory store.
use seo_optimizer.Prelude.{
  ℕ, zero, suc, ◌≡◌, refl, sym, ap, subst, ◌∙◌, inl, inr, String, Bool, true, not, ◌&&◌, ◌||◌,
  Option, none, some, List, [], ◌∷◌, lookup, filter, map, take, has, values, is_some, arith,
  Bool-cases, Option-cases, All,
}
use seo_optimizer.Queue.Types.{StoredJob}
use seo_optimizer.Queue.MemoryStore.{
  Rows, held_by_another, abandoned, claim_all, by_age, adoption_batch, adoptable, requeued_row,
  load, adopt, abandoned_lease,
}
use seo_optimizer.JobStore.{
  Row, Table, PostgresJobStore, claimable, is_abandoned, is_outstanding, is_other, aged_out, job_of,
  id_of, taken, take_rows, loadable, load_rows, adoptable_rows, adopt_batch, adopt_rows,
  update_where, OrderBy,
}
use seo_optimizer.JobStore.Ordering.{IsOrdering, HaveOwnAges, All-IsArranged, ordered-by_age}
use seo_optimizer.JobStore.Shown.{
  handle_of, lease_from, jobs_of, AreRows, is_sound, are_both, IsShown, claimable-held_by_another,
}
use seo_optimizer.JobStore.Taking.{IsCurrent, took-IsShown}

module _ {P : Type 0} (s : PostgresJobStore) (now : ℕ) where
  take-IsCurrent :
      (n : ℕ) (t : Table P) (jobs : List (StoredJob P))
      → All (IsCurrent t) jobs
      → All (IsCurrent t) (take n jobs)
  take-IsCurrent zero t jobs k = tt
  take-IsCurrent (suc n) t [] k = tt
  take-IsCurrent (suc n) t (job ∷ jobs) (k, ks) = (k, take-IsCurrent n t jobs ks)

  filter-IsCurrent :
      (p : Row P → Bool) (t u : Table P)
      → AreRows t u
      → All (IsCurrent t) (map job_of (filter p (values u)))
  filter-IsCurrent p t [] h = tt
  filter-IsCurrent p t ((id, row) ∷ u) (f, i, o, n, h) = elim (Bool-cases (p row)) [
    | inl c ↦ rw c ((row, ap (λ k. lookup k t) i ∙ f, refl), filter-IsCurrent p t u h)
    | inr c ↦ rw c (filter-IsCurrent p t u h)
  ]

  -- Where a test of rows is one of jobs, both stores list the same.
  listed :
      (p : Row P → Bool) (q : StoredJob P → Bool) (t u : Table P)
      → ((row : Row P) → lookup row.job.id t ≡ some row → is_sound row ≡ true → p row ≡ q row.job)
      → AreRows t u
      → map job_of (filter p (values u)) ≡ filter q (values (jobs_of u))
  listed p q t [] same h = refl
  listed p q t ((id, row) ∷ u) same (f, i, o, n, h) =
      let here : p row ≡ q row.job = same row (ap (λ k. lookup k t) i ∙ f) o in
      elim (Bool-cases (q row.job)) [
        | inl c ↦ rw (here, c, listed p q t u same h) refl
        | inr c ↦ rw (here, c, listed p q t u same h) refl
      ]

  abbrev Agrees : List (StoredJob P) × Table P → List (StoredJob P) × Rows P → Type 0
  Agrees (a, t) (b, rows) = (a ≡ b) × IsShown t rows

  pub load-Agrees :
      {order_by : OrderBy P}
      → IsOrdering order_by
      → (t : Table P) (rows : Rows P) → HaveOwnAges (loadable s now t)
      → IsShown t rows
      → Agrees (load_rows order_by s now t) (load (handle_of s) now rows)
  unfolding load_rows load
  load-Agrees {order_by} o t rows own shown =
      let free = λ (j : StoredJob P). not (held_by_another (handle_of s) now rows j.id) in
      let same : order_by (loadable s now t) ≡ by_age (filter free (values rows.jobs)) =
        ordered-by_age o (loadable s now t) own
        ∙ ap by_age (
            listed (λ row. is_outstanding row.job.state && claimable s now row) free t t
              (λ row l o.
                ground (arith, o, claimable-held_by_another s now t rows row.job.id row shown l))
              shown.rows_of
            ∙ ap (λ jobs. filter free (values jobs)) (sym shown.jobs)) in
      (
        same,
        subst
            (λ jobs.
              IsShown (take_rows s now (order_by (loadable s now t)) t)
                (claim_all (handle_of s) now jobs rows))
            same
            (took-IsShown s now (order_by (loadable s now t)) t rows
              (All-IsArranged (IsCurrent t) (loadable s now t) _ (o.arranges (loadable s now t)) (
                filter-IsCurrent (λ row. is_outstanding row.job.state && claimable s now row) t t
                  shown.rows_of))
              shown),
      )

  abandoned_from :
      (ms : ℕ) (row : Row P)
      → are_both row.owner row.leased_at ≡ true
      → is_abandoned s ms now row
        ≡ abandoned_lease s.owner (suc ms) now (lease_from row.owner row.leased_at)
  abandoned_from ms row = cases row.owner row.leased_at
    where
      cases :
          (owner : Option String) (at : Option ℕ)
          → are_both owner at ≡ true
          → ((not (is_some owner) || is_other s.owner owner)
              && (not (is_some at) || aged_out now ms at))
            ≡ abandoned_lease s.owner (suc ms) now (lease_from owner at)
      cases none none b = refl
      cases none (some at) b = absurd (ground (arith, b))
      cases (some owner) none b = absurd (ground (arith, b))
      cases (some owner) (some at) b = ground arith

  requeued-IsCurrent :
      (t : Table P) (jobs : List (StoredJob P))
      → All (IsCurrent t) jobs
      → All (IsCurrent t) (map requeued_row jobs)
  requeued-IsCurrent t [] k = tt
  requeued-IsCurrent t (job ∷ jobs) ((row, e, same), ks) =
      ((row, e, same), requeued-IsCurrent t jobs ks)

  ids_requeued : (jobs : List (StoredJob P)) → map id_of (map requeued_row jobs) ≡ map id_of jobs
  ids_requeued [] = refl
  ids_requeued (job ∷ jobs) = ap (λ ids. job.id ∷ ids) (ids_requeued jobs)

  adopted-Agrees :
      {order_by : OrderBy P}
      → IsOrdering order_by
      → (ms : ℕ) (t : Table P) (rows : Rows P) → HaveOwnAges (adoptable_rows s ms now t)
      → s.lease_ms ≡ some ms
      → IsShown t rows
      → Agrees (adopt_batch order_by s ms now t) (
        adoptable (handle_of s) now rows,
        claim_all (handle_of s) now (adoptable (handle_of s) now rows) rows,
      )
  adopted-Agrees {order_by} o ms t rows own e shown =
      let p = λ (row : Row P). is_outstanding row.job.state && is_abandoned s ms now row in
      let q = λ (j : StoredJob P). abandoned (handle_of s) now rows j.id in
      let alike : (row : Row P)
          → lookup row.job.id t ≡ some row
          → is_sound row ≡ true
          → p row ≡ q row.job =
        λ row l o.
          rw (e, shown.leases row.job.id, l)
            (ground (arith, o, abandoned_from ms row (ground (arith, o)))) in
      let found = adoptable_rows s ms now t in
      let batch = take adoption_batch (order_by found) in
      let same : map requeued_row batch ≡ adoptable (handle_of s) now rows =
        ap (λ jobs. map requeued_row (take adoption_batch jobs))
          (ordered-by_age o found own
            ∙ ap by_age (
                listed p q t t alike shown.rows_of
                ∙ ap (λ jobs. filter q (values jobs)) (sym shown.jobs))) in
      let current : All (IsCurrent t) batch = take-IsCurrent adoption_batch t _ (
        All-IsArranged (IsCurrent t) found _ (o.arranges found)
          (filter-IsCurrent p t t shown.rows_of)) in
      let took =
        took-IsShown s now (map requeued_row batch) t rows (requeued-IsCurrent t batch current)
          shown in
      (
        same,
        subst (λ jobs. IsShown (take_rows s now batch t) (claim_all (handle_of s) now jobs rows))
            same
            (subst
              (λ ids.
                IsShown (update_where (λ id row. has ids id) (taken s now) t)
                  (claim_all (handle_of s) now (map requeued_row batch) rows))
              (ids_requeued batch) took),
      )

  -- No two of the rows that an adoption selects have one age.
  abbrev pub HaveOwnAdoptable : Table P → Type 0
  HaveOwnAdoptable t = elim s.lease_ms [
    | none ↦ Unit
    | some ms ↦ HaveOwnAges (adoptable_rows s ms now t)
  ]

  pub adopt-Agrees :
      {order_by : OrderBy P}
      → IsOrdering order_by
      → (t : Table P) (rows : Rows P) → HaveOwnAdoptable t
      → IsShown t rows
      → Agrees (adopt_rows order_by s now t) (adopt (handle_of s) now rows)
  unfolding adopt_rows adopt
  adopt-Agrees {order_by} o t rows own shown = elim (Option-cases s.lease_ms) [
    | inl e ↦ rw e (refl, shown)
    | inr (ms, e) ↦
        let here : adopt_rows order_by s now t ≡ adopt_batch order_by s ms now t = rw e refl in
        let there : adopt (handle_of s) now rows ≡ (
          adoptable (handle_of s) now rows,
          claim_all (handle_of s) now (adoptable (handle_of s) now rows) rows,
        ) =
          rw e refl in
        subst (λ x. Agrees x (adopt (handle_of s) now rows)) (sym here)
          (subst (λ y. Agrees (adopt_batch order_by s ms now t) y) (sym there)
            (adopted-Agrees o ms t rows (rw e at own) e shown))
  ]
