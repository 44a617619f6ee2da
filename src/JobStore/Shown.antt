-- ===== src/JobStore/Shown.antt =====
-- When the rows of the in-memory store show a table, and what keeps it so.
use seo_optimizer.Prelude.{
  ℕ, suc, ◌≡◌, refl, ap, subst, ◌∙◌, inl, inr, String, Bool, true, false, not, ◌&&◌, ◌||◌, Option,
  none, some, List, [], ◌∷◌, str_eq, if◌then◌else◌, lookup, insert, delete, lookup-insert,
  lookup-delete, arith, eq_iff, str_eq_refl, Bool-cases, Option-cases, is_some,
}
use seo_optimizer.Queue.Types.{StoredJob}
use seo_optimizer.Queue.MemoryStore.{Lease, Handle, Rows, held_by_another, held_lease}
use seo_optimizer.JobStore.{
  Row, Table, PostgresJobStore, claimable, is_outstanding, update_where, is_owner, is_other,
  is_live, aged_out,
}

abbrev pub lease_from : Option String → Option ℕ → Option Lease
lease_from (some owner) (some at) = some (record { owner = owner; leased_at = at })
lease_from (some owner) none = none
lease_from none at = none

-- The in-memory store's handle: a claim ends just when its age reaches the lease there, and a unit later here.
abbrev pub handle_of : PostgresJobStore → Handle
handle_of s = record {
  owner = s.owner;
  lease_ms = elim s.lease_ms [ none ↦ none | some ms ↦ some (suc ms) ];
}

-- A lease of the in-memory store stands just where the row's is live.
pub held_lease_from :
    (me : String) (ms now : ℕ) (owner : Option String) (at : Option ℕ)
    → held_lease me (suc ms) now (lease_from owner at) ≡ (is_other me owner && is_live now ms at)
held_lease_from me ms now none at = refl
held_lease_from me ms now (some owner) none = ground arith
held_lease_from me ms now (some owner) (some at) = ground arith

abbrev pub are_both : Option String → Option ℕ → Bool
are_both none none = true
are_both none (some at) = false
are_both (some owner) none = false
are_both (some owner) (some at) = true

module _ {P : Type 0} where
  abbrev pub lease_of : Option (Row P) → Option Lease
  lease_of none = none
  lease_of (some row) = lease_from row.owner row.leased_at

  abbrev pub jobs_of : Table P → List (String × StoredJob P)
  jobs_of [] = []
  jobs_of ((id, row) ∷ t) = (id, row.job) ∷ jobs_of t

  -- An outstanding job, that has an owner just where it has a claim's time.
  abbrev pub is_sound : Row P → Bool
  is_sound row = is_outstanding row.job.state && are_both row.owner row.leased_at

  -- Each of these rows is the table's row of its id, and sound.
  abbrev pub AreRows : Table P → Table P → Type 0
  AreRows t [] = Unit
  AreRows t ((id, row) ∷ u) =
      (lookup id t ≡ some row)
      × (row.job.id ≡ id)
      × (is_sound row ≡ true)
      × (lookup id u ≡ none)
      × AreRows t u

  -- The same jobs, with the same claims on them.
  pub record IsShown (t : Table P) (rows : Rows P) : Type 0 where
    pub jobs : rows.jobs ≡ jobs_of t
    pub leases : (id : String) → lookup id rows.leases ≡ lease_of (lookup id t)
    pub rows_of : AreRows t t

  pub jobs_of-insert :
      (id : String) (row : Row P) (t : Table P)
      → jobs_of (insert id row t) ≡ insert id row.job (jobs_of t)
  jobs_of-insert id row [] = refl
  jobs_of-insert id row ((j, r) ∷ t) = ground (arith, jobs_of-insert id row t)

  pub jobs_of-delete : (id : String) (t : Table P) → jobs_of (delete id t) ≡ delete id (jobs_of t)
  jobs_of-delete id [] = refl
  jobs_of-delete id ((j, r) ∷ t) = ground (arith, jobs_of-delete id t)

  -- Rows of other ids are not touched by an insertion.
  AreRows-fresh :
      (id : String) (row : Row P) (t u : Table P)
      → lookup id u ≡ none
      → AreRows t u
      → AreRows (insert id row t) u
  AreRows-fresh id row t [] f h = tt
  AreRows-fresh id row t ((j, r) ∷ u) f (l, i, s, n, h) = elim (Bool-cases (str_eq j id)) [
    | inl c ↦ absurd (ground (arith, f, c))
    | inr c ↦ (
      ground (arith, lookup-insert id j row t, eq_iff id j, eq_iff j id, l, c),
      i,
      s,
      n,
      AreRows-fresh id row t u (ground (arith, f, c)) h,
    )
  ]

  pub AreRows-insert :
      (id : String) (row : Row P) (t u : Table P)
      → row.job.id ≡ id
      → is_sound row ≡ true
      → AreRows t u
      → AreRows (insert id row t) (insert id row u)
  AreRows-insert id row t [] e o h =
      (rw (lookup-insert id id row t, str_eq_refl id) refl, e, o, refl, tt)
  AreRows-insert id row t ((j, r) ∷ u) e o (l, i, s, n, h) = elim (Bool-cases (str_eq j id)) [
    | inl c ↦ rw c (
      rw (lookup-insert id id row t, str_eq_refl id) refl,
      e,
      o,
      rw ((eq_iff j id).0 c) at n,
      AreRows-fresh id row t u (rw ((eq_iff j id).0 c) at n) h,
    )
    | inr c ↦ rw c (
      ground (arith, lookup-insert id j row t, eq_iff id j, eq_iff j id, l, c),
      i,
      s,
      ground (arith, lookup-insert id j row u, eq_iff id j, eq_iff j id, n, c),
      AreRows-insert id row t u e o h,
    )
  ]

  pub AreRows-delete :
      (id : String) (t u : Table P) → AreRows t u → AreRows (delete id t) (delete id u)
  AreRows-delete id t [] h = tt
  AreRows-delete id t ((j, r) ∷ u) (l, i, s, n, h) = elim (Bool-cases (str_eq j id)) [
    | inl c ↦ rw c (AreRows-delete id t u h)
    | inr c ↦ rw c (
      ground (arith, lookup-delete id j t, eq_iff j id, eq_iff id j, l, c),
      i,
      s,
      ground (arith, lookup-delete id j u, eq_iff j id, eq_iff id j, n, c),
      AreRows-delete id t u h,
    )
  ]

  -- A change of rows that keeps their ids.
  pub lookup-update_where :
      (p : String → Row P → Bool) (f : Row P → Row P) (id : String) (t : Table P)
      → lookup id (update_where p f t)
        ≡ elim (lookup id t) [ none ↦ none | some row ↦ some (if p id row then f row else row) ]
  lookup-update_where p f id [] = refl
  lookup-update_where p f id ((j, r) ∷ t) = elim (Bool-cases (str_eq j id)) [
    | inl c ↦ rw c (rw ((eq_iff j id).0 c) refl)
    | inr c ↦ rw c (lookup-update_where p f id t)
  ]

  pub AreRows-update_where :
      (p : String → Row P → Bool) (f : Row P → Row P) (t u : Table P)
      → ((row : Row P) → (f row).job.id ≡ row.job.id)
      → ((id : String) (row : Row P)
          → p id row ≡ true
          → is_sound row ≡ true
          → is_sound (f row) ≡ true)
      → AreRows t u
      → AreRows (update_where p f t) (update_where p f u)
  AreRows-update_where p f t [] same still h = tt
  AreRows-update_where p f t ((j, r) ∷ u) same still (l, i, s, n, h) = (
    rw (lookup-update_where p f j t, l) refl,
    ground (arith, same r, i),
    still_sound,
    rw (lookup-update_where p f j u, n) refl,
    AreRows-update_where p f t u same still h,
  )
    where
      still_sound : is_sound (if p j r then f r else r) ≡ true
      still_sound = elim (Bool-cases (p j r)) [ inl c ↦ rw c (still j r c s) | inr c ↦ rw c s ]

  -- A row is claimable just where no other worker holds its job.
  pub claimable-held_by_another :
      (s : PostgresJobStore) (now : ℕ) (t : Table P) (rows : Rows P) (id : String) (row : Row P)
      → IsShown t rows
      → lookup id t ≡ some row
      → claimable s now row ≡ not (held_by_another (handle_of s) now rows id)
  claimable-held_by_another s now t rows id row shown l = elim (Option-cases s.lease_ms) [
    | inl e ↦ rw e refl
    | inr (ms, e) ↦ rw (e, shown.leases id, l) (held_row ms row.owner row.leased_at)
  ]
    where
      held_row :
          (ms : ℕ) (owner : Option String) (at : Option ℕ)
          → (not (is_some owner)
              || is_owner s.owner owner
              || not (is_some at)
              || aged_out now ms at)
            ≡ not (held_lease s.owner (suc ms) now (lease_from owner at))
      held_row ms none at = refl
      held_row ms (some owner) none = ground arith
      held_row ms (some owner) (some at) = ground arith

  -- Nobody holds a job that has no row.
  pub unheld :
      (s : PostgresJobStore) (now : ℕ) (t : Table P) (rows : Rows P) (id : String)
      → IsShown t rows
      → lookup id t ≡ none
      → held_by_another (handle_of s) now rows id ≡ false
  unheld s now t rows id shown l = elim (Option-cases s.lease_ms) [
    | inl e ↦ rw e refl
    | inr (ms, e) ↦ rw (e, shown.leases id, l) refl
  ]

  pub delete_absent : (id : String) (t : Table P) → lookup id t ≡ none → delete id t ≡ t
  delete_absent id [] l = refl
  delete_absent id ((j, r) ∷ t) l = elim (Bool-cases (str_eq j id)) [
    | inl c ↦ absurd (ground (arith, l, c))
    | inr c ↦ rw c (ap (λ u. (j, r) ∷ u) (delete_absent id t (ground (arith, l, c))))
  ]

  pub row_of :
      (t u : Table P) (id : String) (row : Row P)
      → AreRows t u
      → lookup id u ≡ some row
      → (row.job.id ≡ id) × (is_sound row ≡ true)
  row_of t [] id row h l = absurd (ground (arith, l))
  row_of t ((j, r) ∷ u) id row (f, i, o, n, h) l = elim (Bool-cases (str_eq j id)) [
    | inl c ↦
        let this : r ≡ row = ground (arith, l, c) in
        (
          subst (λ x. x.job.id ≡ id) this (i ∙ (eq_iff j id).0 c),
          subst (λ x. is_sound x ≡ true) this o,
        )
    | inr c ↦ row_of t u id row h (ground (arith, l, c))
  ]
