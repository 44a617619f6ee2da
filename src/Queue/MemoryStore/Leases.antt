-- ===== src/Queue/MemoryStore/Leases.antt =====
-- Who may write a job down: a claim that stands keeps the others out.
use seo_optimizer.Prelude.{
  ℕ, ◌+◌, ◌≡◌, ◌<◌, refl, String, true, false, some, [], ◌∷◌, str_eq, str_eq_refl, lookup,
  lookup-insert, arith,
}
use seo_optimizer.Queue.Types.{StoredJob, job_lease_lost}
use seo_optimizer.Queue.Handlers.{returned, threw}
use seo_optimizer.Queue.MemoryStore.{Lease, Handle, Rows, held_by_another, save, remove, renew}

-- The claim that a worker makes.
abbrev pub claimed_at : Handle → ℕ → Lease
claimed_at h now = record { owner = h.owner; leased_at = now }

module _ {P : Type 0} where
  pub claim_held :
      (h h' : Handle) (ms now now' : ℕ) (id : String) (rows : Rows P)
      → h'.lease_ms ≡ some ms
      → str_eq h.owner h'.owner ≡ false
      → now' < now + ms
      → lookup id rows.leases ≡ some (claimed_at h now)
      → held_by_another h' now' rows id ≡ true
  claim_held h h' ms now now' id rows e n t l = rw (e, l) (ground arith)

  -- A save is refused, and changes nothing, just where another worker's claim on the job stands; else
  -- the job is stored as given and claimed from now on.
  pub save_lem :
      (h : Handle) (now : ℕ) (job : StoredJob P) (rows : Rows P)
      → (held_by_another h now rows job.id ≡ true
          → save h now job rows ≡ (threw (job_lease_lost job.id), rows))
        × (held_by_another h now rows job.id ≡ false
            → ((save h now job rows).0 ≡ returned tt)
              × (lookup job.id (save h now job rows).1.jobs ≡ some job)
              × (lookup job.id (save h now job rows).1.leases ≡ some (claimed_at h now)))
  unfolding save
  save_lem h now job rows = (
    λ e. rw e refl,
    λ e. rw e (
      refl,
      rw (lookup-insert job.id job.id job rows.jobs, str_eq_refl job.id) refl,
      rw (lookup-insert job.id job.id (claimed_at h now) rows.leases, str_eq_refl job.id) refl,
    ),
  )

  -- While a worker's claim stands, no other worker on the store can save the job, take it away, or keep
  -- it by a renewal: the save is refused, the removal does nothing, and the renewal reports it lost.
  pub claimed-refuses :
      (h h' : Handle) (ms now now' : ℕ) (job : StoredJob P) (rows : Rows P)
      → h'.lease_ms ≡ some ms
      → str_eq h.owner h'.owner ≡ false
      → now' < now + ms
      → lookup job.id rows.leases ≡ some (claimed_at h now)
      → (save h' now' job rows ≡ (threw (job_lease_lost job.id), rows))
        × (remove h' now' job.id rows ≡ rows)
        × (renew h' now' (job.id ∷ []) rows ≡ (job.id ∷ [], rows))
  unfolding remove renew
  claimed-refuses h h' ms now now' job rows e n t l =
      let held = claim_held h h' ms now now' job.id rows e n t l in
      ((save_lem h' now' job rows).0 held, rw held refl, ground arith)
