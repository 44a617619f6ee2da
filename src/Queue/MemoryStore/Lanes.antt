-- ===== src/Queue/MemoryStore/Lanes.antt =====
-- What a granted claim on a lane keeps out.
use seo_optimizer.Prelude.{
  ℕ, ◌+◌, ◌≡◌, ◌<◌, inl, inr, refl, String, Bool, true, false, ◌&&◌, some, List, [], ◌∷◌, str_eq,
  str_eq_refl, if◌then◌else◌, is_some, any, lookup, values, arith, Bool-cases,
}
use seo_optimizer.Queue.Types.{StoredJob, is_running, job_lease_lost}
use seo_optimizer.Queue.Handlers.{Reply, returned, threw}
use seo_optimizer.Queue.MemoryStore.{
  Handle, Rows, held_by_another, blocks, granted, claim, put, acquire,
}
use seo_optimizer.Queue.MemoryStore.Leases.{claimed_at, claim_held, save_lem}

any-lookup :
    {A : Type 0} (p : A → Bool) (k : String) (v : A) (m : List (String × A))
    → lookup k m ≡ some v
    → p v ≡ true
    → any p (values m) ≡ true
any-lookup p k v [] h e = absurd (ground arith)
any-lookup p k v ((j, w) ∷ m) h e = elim (Bool-cases (str_eq j k)) [
  | inl c ↦ ground arith
  | inr c ↦ ground (arith, any-lookup p k v m)
]

module _ {P : Type 0} where
  -- A job that was granted is stored and claimed.
  abbrev IsStored : Handle → ℕ → StoredJob P → Rows P → Type 0
  IsStored h now job rows =
      (lookup job.id rows.jobs ≡ some job) × (lookup job.id rows.leases ≡ some (claimed_at h now))

  acquire-IsStored :
      (h : Handle) (now : ℕ) (job : StoredJob P) (rows : Rows P)
      → (acquire h now job rows).0 ≡ returned true
      → IsStored h now job (acquire h now job rows).1
  unfolding acquire
  acquire-IsStored h now job rows =
      answered
        (is_some job.lane && is_some h.lease_ms && any (blocks h now rows job) (values rows.jobs))
        (held_by_another h now rows job.id) refl
    where
      answered :
          (b c : Bool)
          → held_by_another h now rows job.id ≡ c
          → (let result : Reply Bool × Rows P =
                if b
                then (returned false, rows)
                else granted (
                    if c
                    then (threw (job_lease_lost job.id), rows)
                    else (returned tt, claim h now job.id (put job rows))) in
              result.0 ≡ returned true → IsStored h now job result.1)
      answered true c e g = absurd (ground arith)
      answered false true e g = absurd (ground arith)
      answered false false e g = let k = (save_lem h now job rows).1 e in (rw e at k.1, rw e at k.2)

  refused :
      (h h' : Handle) (ms now now' : ℕ) (lane : String) (job other : StoredJob P) (rows : Rows P)
      → h'.lease_ms ≡ some ms
      → str_eq h.owner h'.owner ≡ false
      → now' < now + ms
      → job.lane ≡ some lane
      → other.lane ≡ some lane
      → is_running job.state ≡ true
      → str_eq job.id other.id ≡ false
      → IsStored h now job rows
      → acquire h' now' other rows ≡ (returned false, rows)
  unfolding acquire
  refused h h' ms now now' lane job other rows e n t l l' running different k =
      let held = claim_held h h' ms now now' job.id rows e n t k.1 in
      let blocked : blocks h' now' rows other job ≡ true =
        rw (different, l, l', running, held, str_eq_refl lane) refl in
      let found = any-lookup (blocks h' now' rows other) job.id job rows.jobs k.0 blocked in
      let stop : is_some other.lane
            && is_some h'.lease_ms
            && any (blocks h' now' rows other) (values rows.jobs)
          ≡ true =
        rw (found, l', e) refl in
      rw stop refl

  -- Once a worker has been granted a job, stored as running on a lane, no other worker on the store is
  -- granted another job of that lane while the claim stands, and its asking changes nothing.
  pub acquire-excludes :
      (h h' : Handle) (ms now now' : ℕ) (lane : String) (job other : StoredJob P) (rows : Rows P)
      → h'.lease_ms ≡ some ms
      → str_eq h.owner h'.owner ≡ false
      → now' < now + ms
      → job.lane ≡ some lane
      → other.lane ≡ some lane
      → is_running job.state ≡ true
      → str_eq job.id other.id ≡ false
      → (acquire h now job rows).0 ≡ returned true
      → acquire h' now' other (acquire h now job rows).1
        ≡ (returned false, (acquire h now job rows).1)
  acquire-excludes h h' ms now now' lane job other rows e n t l l' running different g =
      refused h h' ms now now' lane job other (acquire h now job rows).1 e n t l l' running
        different (acquire-IsStored h now job rows g)
