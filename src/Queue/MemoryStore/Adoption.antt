-- ===== src/Queue/MemoryStore/Adoption.antt =====
-- How live workers divide what a dead one has left.
use seo_optimizer.Prelude.{
  ℕ, zero, suc, ◌+◌, ◌≡◌, ◌≤◌, ◌<◌, refl, ap, ◌∙◌, inl, inr, String, Bool, true, false, not, none,
  some, List, [], ◌∷◌, if◌then◌else◌, is_some, filter, all, take, map, length, has, lookup,
  lookup-insert, values, arith, Bool-cases,
}
use seo_optimizer.Queue.Types.{StoredJob}
use seo_optimizer.Queue.MemoryStore.{
  Handle, Rows, adoption_batch, abandoned, insert_by_age, by_age, requeued_row, claim, put,
  claim_all, adoptable, adopt,
}
use seo_optimizer.Queue.MemoryStore.Leases.{claimed_at}

abbrev pub ids_of : {P : Type 0} → List (StoredJob P) → List String
ids_of [] = []
ids_of (job ∷ jobs) = job.id ∷ ids_of jobs

length-take_le : {A : Type 0} (n : ℕ) (xs : List A) → length (take n xs) ≤ n
length-take_le zero xs = omega arith
length-take_le (suc n) [] = omega arith
length-take_le (suc n) (x ∷ xs) = omega (arith, length-take_le n xs)

length-map : {A B : Type 0} (f : A → B) (xs : List A) → length (map f xs) ≡ length xs
length-map f [] = refl
length-map f (x ∷ xs) = ap suc (length-map f xs)

all-filter : {A : Type 0} (p : A → Bool) (xs : List A) → all p (filter p xs) ≡ true
all-filter p [] = refl
all-filter p (x ∷ xs) = ground (arith, all-filter p xs)

all-take :
    {A : Type 0} (p : A → Bool) (n : ℕ) (xs : List A) → all p xs ≡ true → all p (take n xs) ≡ true
all-take p zero xs h = refl
all-take p (suc n) [] h = refl
all-take p (suc n) (x ∷ xs) h = ground (arith, all-take p n xs)

module _ {P : Type 0} where
  all-insert_by_age :
      (p : StoredJob P → Bool) (job : StoredJob P) (jobs : List (StoredJob P))
      → p job ≡ true
      → all p jobs ≡ true
      → all p (insert_by_age job jobs) ≡ true
  all-insert_by_age p job [] h k = ground arith
  all-insert_by_age p job (j ∷ js) h k = ground (arith, all-insert_by_age p job js)

  all-by_age :
      (p : StoredJob P → Bool) (jobs : List (StoredJob P))
      → all p jobs ≡ true
      → all p (by_age jobs) ≡ true
  all-by_age p [] h = refl
  all-by_age p (job ∷ jobs) h =
      all-insert_by_age p job (by_age jobs) (ground arith) (all-by_age p jobs (ground arith))

  all-requeued :
      (p : String → Bool) (jobs : List (StoredJob P))
      → all (λ j. p j.id) jobs ≡ true
      → all (λ j. p j.id) (map requeued_row jobs) ≡ true
  all-requeued p [] h = refl
  all-requeued p (job ∷ jobs) h = ground (arith, all-requeued p jobs)

  adoptable-abandoned :
      (h : Handle) (now : ℕ) (rows : Rows P)
      → all (λ j. abandoned h now rows j.id) (adoptable h now rows) ≡ true
  adoptable-abandoned h now rows =
      let p : StoredJob P → Bool = λ j. abandoned h now rows j.id in
      all-requeued (abandoned h now rows)
        (take adoption_batch (by_age (filter p (values rows.jobs))))
        (all-take p adoption_batch (by_age (filter p (values rows.jobs)))
          (all-by_age p (filter p (values rows.jobs)) (all-filter p (values rows.jobs))))

  claim_all-leases :
      (h : Handle) (now : ℕ) (jobs : List (StoredJob P)) (rows : Rows P) (id : String)
      → lookup id (claim_all h now jobs rows).leases
        ≡ (if has (ids_of jobs) id then some (claimed_at h now) else lookup id rows.leases)
  claim_all-leases h now [] rows id = refl
  claim_all-leases h now (job ∷ jobs) rows id =
      claim_all-leases h now jobs (put (requeued_row job) (claim h now job.id rows)) id
      ∙ ground (arith, lookup-insert job.id id (claimed_at h now) rows.leases)

  -- What a worker adopts is at most 25 jobs that nobody alive held, and it holds every one of them from
  -- then on; a store without leases gives none.
  pub adopt_lem :
      (h : Handle) (now : ℕ) (rows : Rows P)
      → (length (adopt h now rows).0 ≤ 25)
        × (all (λ j. abandoned h now rows j.id) (adopt h now rows).0 ≡ true)
        × ((id : String)
            → has (ids_of (adopt h now rows).0) id ≡ true
            → lookup id (adopt h now rows).1.leases ≡ some (claimed_at h now))
        × (h.lease_ms ≡ none → (adopt h now rows).0 ≡ [])
  unfolding adopt
  adopt_lem h now rows = with_leases (is_some h.lease_ms) refl
    where
      few : length (adoptable h now rows) ≤ 25
      few =
          let free = by_age (filter (λ j. abandoned h now rows j.id) (values rows.jobs)) in
          omega (
            arith,
            length-map requeued_row (take adoption_batch free),
            length-take_le adoption_batch free,
          )

      with_leases :
          (b : Bool)
          → is_some h.lease_ms ≡ b
          → (let result : List (StoredJob P) × Rows P =
                if b
                then (adoptable h now rows, claim_all h now (adoptable h now rows) rows)
                else ([], rows) in
              (length result.0 ≤ 25)
              × (all (λ j. abandoned h now rows j.id) result.0 ≡ true)
              × ((id : String)
                  → has (ids_of result.0) id ≡ true
                  → lookup id result.1.leases ≡ some (claimed_at h now))
              × (h.lease_ms ≡ none → result.0 ≡ []))
      with_leases false e = (omega arith, refl, λ id k. absurd (ground arith), λ k. refl)
      with_leases true e = (
        few,
        adoptable-abandoned h now rows,
        λ id k. rw (claim_all-leases h now (adoptable h now rows) rows id, k) refl,
        λ k. absurd (ground arith),
      )

  abandoned_free :
      (h h' : Handle) (ms now now' : ℕ) (rows : Rows P) (id : String)
      → h'.lease_ms ≡ some ms
      → now' < now + ms
      → lookup id rows.leases ≡ some (claimed_at h now)
      → abandoned h' now' rows id ≡ false
  abandoned_free h h' ms now now' rows id e t l = rw (e, l) (ground arith)

  -- While the claims of one worker's adoption stand, another adoption, by whichever worker, gives none
  -- of the same jobs.
  pub adopt-disjoint :
      (h h' : Handle) (ms now now' : ℕ) (rows : Rows P)
      → h'.lease_ms ≡ some ms
      → now' < now + ms
      → all
          (λ j. not (has (ids_of (adopt h now rows).0) j.id))
          (adopt h' now' (adopt h now rows).1).0
        ≡ true
  adopt-disjoint h h' ms now now' rows e t =
      let after = adopt h now rows in
      apart (adopt h' now' after.1).0 ((adopt_lem h' now' after.1).1)
    where
      apart :
          (jobs : List (StoredJob P))
          → all (λ j. abandoned h' now' (adopt h now rows).1 j.id) jobs ≡ true
          → all (λ j. not (has (ids_of (adopt h now rows).0) j.id)) jobs ≡ true
      apart [] k = refl
      apart (j ∷ js) k = elim (Bool-cases (has (ids_of (adopt h now rows).0) j.id)) [
        | inl c ↦ absurd (
            ground (
              arith,
              abandoned_free h h' ms now now' (adopt h now rows).1 j.id e t
                  ((adopt_lem h now rows).2 j.id c),
            ))
        | inr c ↦ ground (arith, apart js)
      ]
