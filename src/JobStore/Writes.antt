-- ===== src/JobStore/Writes.antt =====
-- The table and the in-memory store, call by call.
use seo_optimizer.Prelude.{
  ℕ, ◌≡◌, refl, sym, ap, subst, ◌∙◌, inl, inr, String, Bool, true, ◌&&◌, some, [], ◌∷◌, lookup,
  insert, delete, lookup-insert, lookup-delete, values, any, is_some, arith, Bool-cases,
  Option-cases,
}
use seo_optimizer.Queue.Types.{StoredJob}
use seo_optimizer.Queue.Handlers.{Reply, returned, threw}
use seo_optimizer.Queue.MemoryStore.{
  Rows, held_by_another, claim, put, blocks, granted, save, acquire, remove,
}
use seo_optimizer.JobStore.{
  Row, Table, PostgresJobStore, is_outstanding, new_row, save_row, holds_lane, lane_held,
  granted_row, acquire_row, remove_row,
}
use seo_optimizer.JobStore.Shown.{
  handle_of, held_lease_from, jobs_of, jobs_of-insert, jobs_of-delete, AreRows, AreRows-insert,
  AreRows-delete, IsShown, claimable-held_by_another, unheld, delete_absent,
}

module _ {P : Type 0} where
  -- A job that the queue writes: it is outstanding, and as old as the row that is there.
  pub record IsWritable (job : StoredJob P) (t : Table P) : Type 0 where
    pub outstanding : is_outstanding job.state ≡ true
    pub same_age :
        (row : Row P) → lookup job.id t ≡ some row → row.job.enqueued_at ≡ job.enqueued_at

module _ {P : Type 0} (s : PostgresJobStore) (now : ℕ) where
  abbrev Agrees : {A : Type 0} → A × Table P → A × Rows P → Type 0
  Agrees (a, t) (b, rows) = (a ≡ b) × IsShown t rows

  written-IsShown :
      (job : StoredJob P) (t : Table P) (rows : Rows P)
      → is_outstanding job.state ≡ true
      → IsShown t rows
      → IsShown
          (insert job.id (new_row s now job) t)
          (claim (handle_of s) now job.id (put job rows))
  written-IsShown job t rows o shown = record {
    jobs = ap (insert job.id job) shown.jobs ∙ sym (jobs_of-insert job.id (new_row s now job) t);
    leases = λ id. ground (
      arith,
      lookup-insert job.id id (new_row s now job) t,
      lookup-insert job.id id (record { owner = s.owner; leased_at = now }) rows.leases,
      shown.leases id,
    );
    rows_of = AreRows-insert job.id (new_row s now job) t t refl (ground (arith, o)) shown.rows_of;
  }

  pub save-Agrees :
      (job : StoredJob P) (t : Table P) (rows : Rows P)
      → IsWritable job t
      → IsShown t rows
      → Agrees (save_row s now job t) (save (handle_of s) now job rows)
  unfolding save_row save
  save-Agrees job t rows w shown = elim (Option-cases (lookup job.id t)) [
    | inl e ↦
        rw (e, unheld s now t rows job.id shown e)
          (refl, written-IsShown job t rows w.outstanding shown)
    | inr (row, e) ↦ elim (Bool-cases (held_by_another (handle_of s) now rows job.id)) [
      | inl h ↦ rw (e, claimable-held_by_another s now t rows job.id row shown e, h) (refl, shown)
      | inr h ↦
          rw (e, claimable-held_by_another s now t rows job.id row shown e, h)
            (refl, rw (w.same_age row e) (written-IsShown job t rows w.outstanding shown))
    ]
  ]

  pub remove-Agrees :
      (id : String) (t : Table P) (rows : Rows P)
      → IsShown t rows
      → IsShown (remove_row s now id t) (remove (handle_of s) now id rows)
  unfolding remove_row remove
  remove-Agrees id t rows shown = elim (Option-cases (lookup id t)) [
    | inl e ↦ rw (e, unheld s now t rows id shown e) (rw (delete_absent id t e) at deleted-IsShown)
    | inr (row, e) ↦ elim (Bool-cases (held_by_another (handle_of s) now rows id)) [
      | inl h ↦ rw (e, claimable-held_by_another s now t rows id row shown e, h) shown
      | inr h ↦ rw (e, claimable-held_by_another s now t rows id row shown e, h) (deleted-IsShown)
    ]
  ]
    where
      deleted-IsShown :
          IsShown
            (delete id t)
            (record { jobs = delete id rows.jobs; leases = delete id rows.leases })
      deleted-IsShown = record {
        jobs = ap (delete id) shown.jobs ∙ sym (jobs_of-delete id t);
        leases = λ j.
            ground (arith, lookup-delete id j t, lookup-delete id j rows.leases, shown.leases j);
        rows_of = AreRows-delete id t t shown.rows_of;
      }

  -- A row keeps a lane from the worker just where its job does.
  holds_lane-blocks :
      (ms : ℕ) (lane : String) (job : StoredJob P) (t : Table P) (rows : Rows P) (row : Row P)
      → s.lease_ms ≡ some ms
      → job.lane ≡ some lane
      → IsShown t rows
      → lookup row.job.id t ≡ some row
      → holds_lane s ms now lane job row ≡ blocks (handle_of s) now rows job row.job
  holds_lane-blocks ms lane job t rows row e l shown f =
      rw (e, l, shown.leases row.job.id, f, held_lease_from s.owner ms now row.owner row.leased_at)
        (ground arith)

  any-blocks :
      (ms : ℕ) (lane : String) (job : StoredJob P) (t u : Table P) (rows : Rows P)
      → s.lease_ms ≡ some ms
      → job.lane ≡ some lane
      → IsShown t rows
      → AreRows t u
      → any (holds_lane s ms now lane job) (values u)
        ≡ any (blocks (handle_of s) now rows job) (values (jobs_of u))
  any-blocks ms lane job t [] rows e l shown h = refl
  any-blocks ms lane job t ((id, row) ∷ u) rows e l shown (f, i, o, n, h) =
      rw
        (
          holds_lane-blocks ms lane job t rows row e l shown (ap (λ k. lookup k t) i ∙ f),
          any-blocks ms lane job t u rows e l shown h,
        )
        refl

  lane_held_lem :
      (job : StoredJob P) (t : Table P) (rows : Rows P)
      → IsShown t rows
      → lane_held s now job job.lane s.lease_ms t ≡ (
          is_some job.lane
          && is_some (handle_of s).lease_ms
          && any (blocks (handle_of s) now rows job) (values rows.jobs))
  lane_held_lem job t rows shown = elim (Option-cases job.lane) [
    | inl l ↦ rw l refl
    | inr (lane, l) ↦ elim (Option-cases s.lease_ms) [
      | inl e ↦ rw (l, e) refl
      | inr (ms, e) ↦
          let asked : (b : Bool) → (is_some job.lane && is_some (handle_of s).lease_ms && b) ≡ b =
            λ b. rw (l, e) refl in
          let on_lane : lane_held s now job job.lane s.lease_ms t
              ≡ any (holds_lane s ms now lane job) (values t) =
            rw (l, e) refl in
          on_lane
          ∙ (any-blocks ms lane job t t rows e l shown shown.rows_of
              ∙ (ap (λ jobs. any (blocks (handle_of s) now rows job) (values jobs)) (sym shown.jobs)
                  ∙ sym (asked (any (blocks (handle_of s) now rows job) (values rows.jobs)))))
    ]
  ]

  granted-Agrees :
      (r r' : Reply Unit) (t : Table P) (rows : Rows P)
      → Agrees (r, t) (r', rows)
      → Agrees (granted_row (r, t)) (granted (r', rows))
  granted-Agrees r r' t rows (e, shown) =
      subst (λ x. Agrees (granted_row (r, t)) (granted (x, rows))) e (same r)
    where
      same : (x : Reply Unit) → Agrees (granted_row (x, t)) (granted (x, rows))
      same (returned u) = (refl, shown)
      same (threw cause) = (refl, shown)

  pub acquire-Agrees :
      (job : StoredJob P) (t : Table P) (rows : Rows P)
      → IsWritable job t
      → IsShown t rows
      → Agrees (acquire_row s now job t) (acquire (handle_of s) now job rows)
  unfolding acquire_row acquire
  acquire-Agrees job t rows w shown =
      rw (lane_held_lem job t rows shown)
        (elim (Bool-cases (
          is_some job.lane
          && is_some (handle_of s).lease_ms
          && any (blocks (handle_of s) now rows job) (values rows.jobs))) [
            | inl b ↦ rw b (refl, shown)
            | inr b ↦ rw b (granted-Agrees _ _ _ _ (save-Agrees job t rows w shown))
          ])
