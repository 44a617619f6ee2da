-- ===== src/JobStore/Ordering.antt =====
-- `ORDER BY enqueued_at` of postgres.ts: what the database documents of it, and that it leaves no choice where
-- no two rows have one age.
use seo_optimizer.Prelude.{
  ℕ, ◌≡◌, refl, sym, ap, subst, ◌∙◌, ◌≤◌, ◌==◌, inl, inr, true, false, List, [], ◌∷◌, ◌++◌, leb,
  arith, Bool-cases, All,
}
use seo_optimizer.Queue.Types.{StoredJob}
use seo_optimizer.Queue.MemoryStore.{by_age, insert_by_age}
use seo_optimizer.JobStore.{OrderBy}

module _ {P : Type 0} where
  -- The second list has the jobs of the first, each as often, in some order.
  abbrev pub IsArranged : List (StoredJob P) → List (StoredJob P) → Type 0
  IsArranged [] ys = ys ≡ []
  IsArranged (x ∷ xs) ys =
      (l : List (StoredJob P)) × (r : List (StoredJob P)) × IsArranged xs (l ++ r)
      × (ys ≡ l ++ (x ∷ r))

  -- No job stands before an older one.
  abbrev pub IsAscending : List (StoredJob P) → Type 0
  IsAscending [] = Unit
  IsAscending (x ∷ xs) = All (λ y. x.enqueued_at ≤ y.enqueued_at) xs × IsAscending xs

  abbrev pub HaveOwnAges : List (StoredJob P) → Type 0
  HaveOwnAges [] = Unit
  HaveOwnAges (x ∷ xs) = All (λ y. (y.enqueued_at == x.enqueued_at) ≡ false) xs × HaveOwnAges xs

  -- What `ORDER BY` promises: the rows selected, the oldest first.
  pub record IsOrdering (order_by : OrderBy P) : Type 0 where
    pub arranges : (jobs : List (StoredJob P)) → IsArranged jobs (order_by jobs)
    pub ascends : (jobs : List (StoredJob P)) → IsAscending (order_by jobs)

  module _ (Q : StoredJob P → Type 0) where
    All-middle :
        (l r : List (StoredJob P)) (x : StoredJob P) → All Q (l ++ (x ∷ r)) → Q x × All Q (l ++ r)
    All-middle [] r x h = h
    All-middle (y ∷ l) r x (k, h) = let (m, o) = All-middle l r x h in (m, (k, o))

    All-put :
        (l r : List (StoredJob P)) (x : StoredJob P) → Q x → All Q (l ++ r) → All Q (l ++ (x ∷ r))
    All-put [] r x k h = (k, h)
    All-put (y ∷ l) r x k (m, h) = (m, All-put l r x k h)

    pub All-IsArranged : (xs ys : List (StoredJob P)) → IsArranged xs ys → All Q xs → All Q ys
    All-IsArranged [] ys e h = subst (All Q) (sym e) tt
    All-IsArranged (x ∷ xs) ys (l, r, a, e) (k, h) =
        subst (All Q) (sym e) (All-put l r x k (All-IsArranged xs (l ++ r) a h))

  IsAscending-without :
      (l r : List (StoredJob P)) (x : StoredJob P)
      → IsAscending (l ++ (x ∷ r))
      → IsAscending (l ++ r)
  IsAscending-without [] r x (k, h) = h
  IsAscending-without (y ∷ l) r x (k, h) =
      ((All-middle (λ z. y.enqueued_at ≤ z.enqueued_at) l r x k).1, IsAscending-without l r x h)

  -- A job of an age of its own goes back where it stood.
  insert_by_age-back :
      (l r : List (StoredJob P)) (x : StoredJob P)
      → IsAscending (l ++ (x ∷ r))
      → All (λ y. (y.enqueued_at == x.enqueued_at) ≡ false) (l ++ r)
      → insert_by_age x (l ++ r) ≡ l ++ (x ∷ r)
  insert_by_age-back [] [] x a o = refl
  insert_by_age-back [] (y ∷ r) x ((k, ks), a) o =
      let first : leb x.enqueued_at y.enqueued_at ≡ true = ground (arith, k) in rw first refl
  insert_by_age-back (y ∷ l) r x (k, a) (m, o) =
      let here = (All-middle (λ z. y.enqueued_at ≤ z.enqueued_at) l r x k).0 in
      let later : leb x.enqueued_at y.enqueued_at ≡ false = ground (arith, here, m) in
      rw later (ap (λ js. y ∷ js) (insert_by_age-back l r x a o))

  arranged-by_age :
      (xs ys : List (StoredJob P))
      → IsArranged xs ys
      → IsAscending ys
      → HaveOwnAges xs
      → ys ≡ by_age xs
  arranged-by_age [] ys e a h = e
  arranged-by_age (x ∷ xs) ys (l, r, a, e) s (k, h) =
      let ascending = subst IsAscending e s in
      let rest = arranged-by_age xs (l ++ r) a (IsAscending-without l r x ascending) h in
      let own = All-IsArranged (λ y. (y.enqueued_at == x.enqueued_at) ≡ false) xs (l ++ r) a k in
      e ∙ sym (insert_by_age-back l r x ascending own) ∙ ap (insert_by_age x) rest

  insert_by_age-split :
      (x : StoredJob P) (ys : List (StoredJob P))
      → (l : List (StoredJob P)) × (r : List (StoredJob P)) × (ys ≡ l ++ r)
        × (insert_by_age x ys ≡ l ++ (x ∷ r))
  insert_by_age-split x [] = ([], [], refl, refl)
  insert_by_age-split x (y ∷ ys) = elim (Bool-cases (leb x.enqueued_at y.enqueued_at)) [
    | inl c ↦ ([], y ∷ ys, refl, rw c refl)
    | inr c ↦
        let (l, r, e, f) = insert_by_age-split x ys in
        (y ∷ l, r, ap (λ js. y ∷ js) e, rw c (ap (λ js. y ∷ js) f))
  ]

  by_age-IsArranged : (jobs : List (StoredJob P)) → IsArranged jobs (by_age jobs)
  by_age-IsArranged [] = refl
  by_age-IsArranged (x ∷ xs) =
      let (l, r, e, f) = insert_by_age-split x (by_age xs) in
      (l, r, subst (IsArranged xs) e (by_age-IsArranged xs), f)

  older_all :
      (n m : ℕ) (ys : List (StoredJob P))
      → n ≤ m
      → All (λ y. m ≤ y.enqueued_at) ys
      → All (λ y. n ≤ y.enqueued_at) ys
  older_all n m [] c h = tt
  older_all n m (y ∷ ys) c (k, h) = (omega arith, older_all n m ys c h)

  insert_by_age-All :
      (Q : StoredJob P → Type 0) (x : StoredJob P) (ys : List (StoredJob P))
      → Q x
      → All Q ys
      → All Q (insert_by_age x ys)
  insert_by_age-All Q x ys k h =
      let (l, r, e, f) = insert_by_age-split x ys in
      subst (All Q) (sym f) (All-put Q l r x k (subst (All Q) e h))

  insert_by_age-IsAscending :
      (x : StoredJob P) (ys : List (StoredJob P))
      → IsAscending ys
      → IsAscending (insert_by_age x ys)
  insert_by_age-IsAscending x [] h = (tt, tt)
  insert_by_age-IsAscending x (y ∷ ys) (k, h) =
      elim (Bool-cases (leb x.enqueued_at y.enqueued_at)) [
        | inl c ↦
            let first : x.enqueued_at ≤ y.enqueued_at = ground (arith, c) in
            rw c ((first, older_all x.enqueued_at y.enqueued_at ys first k), (k, h))
        | inr c ↦
            let later : y.enqueued_at ≤ x.enqueued_at = ground (arith, c) in
            rw c (
              insert_by_age-All (λ z. y.enqueued_at ≤ z.enqueued_at) x ys later k,
              insert_by_age-IsAscending x ys h,
            )
      ]

  by_age-IsAscending : (jobs : List (StoredJob P)) → IsAscending (by_age jobs)
  by_age-IsAscending [] = tt
  by_age-IsAscending (x ∷ xs) = insert_by_age-IsAscending x (by_age xs) (by_age-IsAscending xs)

  -- The in-memory store's sort is one of those that a database may use.
  pub by_age-IsOrdering : IsOrdering by_age
  by_age-IsOrdering = record { arranges = by_age-IsArranged; ascends = by_age-IsAscending }

  -- Of jobs with an age of their own each, the database gives what the in-memory store's sort gives.
  pub ordered-by_age :
      {order_by : OrderBy P}
      → IsOrdering order_by
      → (jobs : List (StoredJob P)) → HaveOwnAges jobs
      → order_by jobs ≡ by_age jobs
  ordered-by_age {order_by} o jobs h =
      arranged-by_age jobs (order_by jobs) (o.arranges jobs) (o.ascends jobs) h
