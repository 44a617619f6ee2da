-- ===== src/JobStore/Renewals.antt =====
-- Renewing claims in the table and in the in-memory store.
use seo_optimizer.Prelude.{
  ℕ, ◌≡◌, refl, sym, ap, subst, ◌∙◌, inl, inr, String, Bool, true, false, not, ◌&&◌, ◌||◌, Option,
  none, some, List, [], ◌∷◌, str_eq, if◌then◌else◌, lookup, insert, lookup-insert, filter, has,
  is_some, arith, eq_iff, Bool-cases, Option-cases, All,
}
use seo_optimizer.Queue.MemoryStore.{Rows, held_by_another, claim, renew}
use seo_optimizer.JobStore.{
  Row, Table, PostgresJobStore, claimable, is_owner, is_mine, renewed, renew_rows, update_where,
  is_outstanding,
}
use seo_optimizer.JobStore.Shown.{
  handle_of, lease_from, lease_of, jobs_of, AreRows, AreRows-update_where, lookup-update_where,
  IsShown, is_sound, are_both, claimable-held_by_another,
}

owner_lease :
    (me : String) (now : ℕ) (owner : Option String)
    → is_owner me owner ≡ true
    → lease_from owner (some now) ≡ some (record { owner = me; leased_at = now })
owner_lease me now none h = absurd (ground (arith, h))
owner_lease me now (some owner) h = rw ((eq_iff owner me).0 h) refl

module _ {P : Type 0} (s : PostgresJobStore) (now : ℕ) where
  -- No row, a row of the worker's, or one that another worker's live claim holds.
  abbrev pub is_kept : Option (Row P) → Bool
  is_kept none = true
  is_kept (some row) = is_owner s.owner row.owner || not (claimable s now row)

  abbrev pub AreKept : List String → Table P → Type 0
  AreKept ids t = All (λ id. is_kept (lookup id t) ≡ true) ids

  jobs_of-renewed :
      (p : String → Row P → Bool) (t : Table P)
      → jobs_of (update_where p (renewed now) t) ≡ jobs_of t
  jobs_of-renewed p [] = refl
  jobs_of-renewed p ((id, row) ∷ t) = ground (arith, jobs_of-renewed p t)

  abbrev at_id : String → String → Row P → Bool
  at_id id j row = str_eq id j && is_owner s.owner row.owner

  -- The statement for one id.
  abbrev renew_one : String → Table P → Table P
  renew_one id t = update_where (at_id id) (renewed now) t

  abbrev renew_all : List String → Table P → Table P
  renew_all ids t = update_where (λ j row. has ids j && is_owner s.owner row.owner) (renewed now) t

  renew_all-one :
      (id : String) (ids : List String) (t : Table P)
      → renew_all ids (renew_one id t) ≡ renew_all (id ∷ ids) t
  renew_all-one id ids [] = refl
  renew_all-one id ids ((j, row) ∷ t) = ground (arith, renew_all-one id ids t)

  lookup-renew_one :
      (id j : String) (t : Table P)
      → (is_mine s (lookup j (renew_one id t)) ≡ is_mine s (lookup j t))
        × (is_kept (lookup j t) ≡ true → is_kept (lookup j (renew_one id t)) ≡ true)
  lookup-renew_one id j t = elim (Option-cases (lookup j t)) [
    | inl e ↦ rw (lookup-update_where (at_id id) (renewed now) j t, e) (refl, λ h. refl)
    | inr (row, e) ↦ elim (Bool-cases (at_id id j row)) [
      | inl c ↦
          rw (lookup-update_where (at_id id) (renewed now) j t, e, c) (refl, λ h. ground (arith, c))
      | inr c ↦ rw (lookup-update_where (at_id id) (renewed now) j t, e, c) (refl, λ h. h)
    ]
  ]

  same_mine :
      (id : String) (ids : List String) (t : Table P)
      → filter (λ j. not (is_mine s (lookup j (renew_one id t)))) ids
        ≡ filter (λ j. not (is_mine s (lookup j t))) ids
  same_mine id [] t = refl
  same_mine id (j ∷ ids) t = rw ((lookup-renew_one id j t).0, same_mine id ids t) refl

  still_kept :
      (id : String) (ids : List String) (t : Table P) → AreKept ids t → AreKept ids (renew_one id t)
  still_kept id [] t k = tt
  still_kept id (j ∷ ids) t (k, ks) = ((lookup-renew_one id j t).1 k, still_kept id ids t ks)

  still_sound :
      (id j : String) (row : Row P)
      → at_id id j row ≡ true
      → is_sound row ≡ true
      → is_sound (renewed now row) ≡ true
  still_sound id j row c o =
      owned row.owner row.leased_at (ground (arith, c)) (ground (arith, o)) (ground (arith, o))
    where
      owned :
          (owner : Option String) (at : Option ℕ)
          → is_owner s.owner owner ≡ true
          → is_outstanding row.job.state ≡ true
          → are_both owner at ≡ true
          → (is_outstanding row.job.state && are_both owner (some now)) ≡ true
      owned none at m o b = absurd (ground (arith, m))
      owned (some owner) at m o b = ground (arith, o)

  rows_renewed :
      (id : String) (t : Table P) → AreRows t t → AreRows (renew_one id t) (renew_one id t)
  rows_renewed id t h =
      AreRows-update_where (at_id id) (renewed now) t t (λ row. refl) (still_sound id) h

  -- A statement for an id that is not the worker's changes nothing that is shown.
  skipped-IsShown :
      (id : String) (t : Table P) (rows : Rows P)
      → is_mine s (lookup id t) ≡ false
      → IsShown t rows
      → IsShown (renew_one id t) rows
  skipped-IsShown id t rows m shown = record {
    jobs = shown.jobs ∙ sym (jobs_of-renewed (at_id id) t);
    leases = λ j. shown.leases j ∙ sym (same_lease j);
    rows_of = rows_renewed id t shown.rows_of;
  }
    where
      same_lease : (j : String) → lease_of (lookup j (renew_one id t)) ≡ lease_of (lookup j t)
      same_lease j = elim (Option-cases (lookup j t)) [
        | inl e ↦ rw (lookup-update_where (at_id id) (renewed now) j t, e) refl
        | inr (row, e) ↦ elim (Bool-cases (at_id id j row)) [
          | inl c ↦ absurd (ground (arith, eq_iff id j, c, m, e))
          | inr c ↦ rw (lookup-update_where (at_id id) (renewed now) j t, e, c) refl
        ]
      ]

  claimed-IsShown :
      (id : String) (t : Table P) (rows : Rows P) (row : Row P)
      → lookup id t ≡ some row
      → is_owner s.owner row.owner ≡ true
      → IsShown t rows
      → IsShown (renew_one id t) (claim (handle_of s) now id rows)
  claimed-IsShown id t rows row l m shown = record {
    jobs = shown.jobs ∙ sym (jobs_of-renewed (at_id id) t);
    leases = λ j. renewed_lease j;
    rows_of = rows_renewed id t shown.rows_of;
  }
    where
      renewed_lease :
          (j : String)
          → lookup j (insert id (record { owner = s.owner; leased_at = now }) rows.leases)
            ≡ lease_of (lookup j (renew_one id t))
      renewed_lease j = elim (Bool-cases (str_eq id j)) [
        | inl c ↦
            let there : lookup j t ≡ some row =
              ap (λ k. lookup k t) (sym ((eq_iff id j).0 c)) ∙ l in
            rw
              (
                lookup-insert id j (record { owner = s.owner; leased_at = now }) rows.leases,
                lookup-update_where (at_id id) (renewed now) j t,
                there,
              )
              (rw (c, m) (sym (owner_lease s.owner now row.owner m)))
        | inr c ↦
            rw
              (
                lookup-insert id j (record { owner = s.owner; leased_at = now }) rows.leases,
                lookup-update_where (at_id id) (renewed now) j t,
              )
              (rw (c, shown.leases j) (unchanged (lookup j t) c))
      ]
        where
          unchanged :
              (o : Option (Row P))
              → str_eq id j ≡ false
              → lease_of o
                ≡ lease_of (elim o [
                  | none ↦ none
                  | some r ↦ some (if at_id id j r then renewed now r else r)
                ])
          unchanged none d = refl
          unchanged (some r) d = rw d refl

  lookup-jobs_of :
      (id : String) (t : Table P) → is_some (lookup id (jobs_of t)) ≡ is_some (lookup id t)
  lookup-jobs_of id [] = refl
  lookup-jobs_of id ((j, row) ∷ t) = ground (arith, lookup-jobs_of id t)

  renew_none : (t : Table P) → renew_all [] t ≡ t
  renew_none [] = refl
  renew_none ((id, row) ∷ t) = rw (renew_none t) refl

  mine_there :
      (o o' : Option (Row P))
      → o ≡ o'
      → is_mine s o' ≡ true
      → (row : Row P) × (o ≡ some row) × (is_owner s.owner row.owner ≡ true)
  mine_there o none e m = absurd (ground (arith, m))
  mine_there o (some row) e m = (row, e, m)

  -- What the in-memory store finds of a job: whether it is lost.
  abbrev is_lost : String → Rows P → Bool
  is_lost id rows = not (is_some (lookup id rows.jobs)) || held_by_another (handle_of s) now rows id

  lost-row :
      (id : String) (t : Table P) (rows : Rows P)
      → IsShown t rows
      → is_lost id rows ≡ elim (lookup id t) [ none ↦ true | some row ↦ not (claimable s now row) ]
  lost-row id t rows shown = elim (Option-cases (lookup id t)) [
    | inl e ↦
        let gone : is_some (lookup id rows.jobs) ≡ false =
          ap (λ jobs. is_some (lookup id jobs)) shown.jobs ∙ (lookup-jobs_of id t ∙ ap is_some e) in
        rw (gone, e) refl
    | inr (row, e) ↦
        let there : is_some (lookup id rows.jobs) ≡ true =
          ap (λ jobs. is_some (lookup id jobs)) shown.jobs ∙ (lookup-jobs_of id t ∙ ap is_some e) in
        rw (there, e, claimable-held_by_another s now t rows id row shown e) (ground arith)
  ]

  claimable_mine : (row : Row P) → is_owner s.owner row.owner ≡ true → claimable s now row ≡ true
  claimable_mine row m = elim (Option-cases s.lease_ms) [
    | inl e ↦ rw e refl
    | inr (ms, e) ↦ rw (e, m) (ground arith)
  ]

  kept_mine :
      (id : String) (t : Table P) (rows : Rows P)
      → is_mine s (lookup id t) ≡ true
      → IsShown t rows
      → is_lost id rows ≡ false
  kept_mine id t rows m shown = elim (Option-cases (lookup id t)) [
    | inl e ↦ absurd (ground (arith, m, e))
    | inr (row, e) ↦
        let mine : is_owner s.owner row.owner ≡ true = rw e at m in
        lost-row id t rows shown ∙ rw (e, claimable_mine row mine) refl
  ]

  lost_other :
      (id : String) (t : Table P) (rows : Rows P)
      → is_kept (lookup id t) ≡ true
      → is_mine s (lookup id t) ≡ false
      → IsShown t rows
      → is_lost id rows ≡ true
  lost_other id t rows k m shown = elim (Option-cases (lookup id t)) [
    | inl e ↦ lost-row id t rows shown ∙ rw e refl
    | inr (row, e) ↦
        let kept : is_kept (some row) ≡ true = rw e at k in
        let other : is_owner s.owner row.owner ≡ false = rw e at m in
        lost-row id t rows shown ∙ rw e (ground (arith, kept, other))
  ]

  abbrev Agrees : List String × Table P → List String × Rows P → Type 0
  Agrees (a, t) (b, rows) = (a ≡ b) × IsShown t rows

  pub renew-Agrees :
      (ids : List String) (t : Table P) (rows : Rows P)
      → AreKept ids t
      → IsShown t rows
      → Agrees (renew_rows s now ids t) (renew (handle_of s) now ids rows)
  unfolding renew_rows renew
  renew-Agrees [] t rows k shown = (refl, rw (renew_none t) shown)
  renew-Agrees (id ∷ ids) t rows (k, ks) shown = elim (Bool-cases (is_mine s (lookup id t))) [
    | inl m ↦
        let there = mine_there (lookup id t) (lookup id t) refl m in
        let rest =
          renew-Agrees ids (renew_one id t) (claim (handle_of s) now id rows)
            (still_kept id ids t ks) (claimed-IsShown id t rows there.0 there.1 there.2 shown) in
        rw (m, kept_mine id t rows m shown)
          (
            sym (same_mine id ids t) ∙ rest.0,
            subst (λ u. IsShown u (renew (handle_of s) now ids (claim (handle_of s) now id rows)).1)
                (renew_all-one id ids t) rest.1,
          )
    | inr m ↦
        let rest =
          renew-Agrees ids (renew_one id t) rows (still_kept id ids t ks)
            (skipped-IsShown id t rows m shown) in
        rw (m, lost_other id t rows k m shown)
          (
            ap (λ js. id ∷ js) (sym (same_mine id ids t) ∙ rest.0),
            subst (λ u. IsShown u (renew (handle_of s) now ids rows).1) (renew_all-one id ids t)
                rest.1,
          )
  ]
