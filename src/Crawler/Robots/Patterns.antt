-- ===== src/Crawler/Robots/Patterns.antt =====
-- The texts that a path pattern stands for, and that `matches` tests for them.
use seo_optimizer.Prelude.{
  ℕ, ◌≡◌, ◌↔◌, refl, sym, ap, subst, ◌∙◌, inl, inr, String, Bool, true, false, not, List, [], ◌∷◌,
  ◌++◌, ◌==◌, all, ==_iff, arith, Bool-cases,
}
use seo_optimizer.Prelude.Codes.{codes}
use seo_optimizer.Crawler.Robots.{is_line_end, star, star_from, glob, anchored, body, matches}
use mathlib.Core.List.{append_assoc}

abbrev in_line : ℕ → Bool
in_line n = not (is_line_end n)

-- A character stands for itself, a `*` for any text within a line.
pub data Denotes : List ℕ → List ℕ → Type 0 where
  done : Denotes [] []
  literal : (c : ℕ) (p s : List ℕ) → c == star ≡ false → Denotes p s → Denotes (c ∷ p) (c ∷ s)
  wild : (p t s : List ℕ) → all in_line t ≡ true → Denotes p s → Denotes (star ∷ p) (t ++ s)

-- A beginning of the path is of the pattern, and the whole path where the pattern is anchored.
abbrev pub Begins : List ℕ → Bool → List ℕ → Type 0
Begins p whole s = (u v : List ℕ) × (s ≡ u ++ v) × Denotes p u × (whole ≡ true → v ≡ [])

star_from-splits :
    (rest : List ℕ → Bool) (s : List ℕ)
    → star_from rest s ≡ true
    → (t r : List ℕ) × (s ≡ t ++ r) × (all in_line t ≡ true) × (rest r ≡ true)
star_from-splits rest [] h = ([], [], refl, refl, h)
star_from-splits rest (d ∷ s) h = elim (Bool-cases (rest (d ∷ s))) [
  | inl e ↦ ([], d ∷ s, refl, refl, e)
  | inr e ↦
      let (t, r, eq, line, k) = star_from-splits rest s (ground arith) in
      (d ∷ t, r, ap (λ l. d ∷ l) eq, ground arith, k)
]

star_from-joins :
    (rest : List ℕ → Bool) (t r : List ℕ)
    → all in_line t ≡ true
    → rest r ≡ true
    → star_from rest (t ++ r) ≡ true
star_from-joins rest [] [] h k = k
star_from-joins rest [] (d ∷ r) h k = ground arith
star_from-joins rest (d ∷ t) r h k = ground (arith, star_from-joins rest t r)

wild-Begins :
    (c : ℕ) (p t r s : List ℕ) (whole : Bool)
    → c == star ≡ true
    → s ≡ t ++ r
    → all in_line t ≡ true
    → Begins p whole r
    → Begins (c ∷ p) whole s
wild-Begins c p t r s whole e eq line (u, v, split, d, last) = (
  t ++ u,
  v,
  eq ∙ ap (λ l. t ++ l) split ∙ sym (append_assoc t u v),
  subst (λ k. Denotes (k ∷ p) (t ++ u)) (sym ((==_iff c star).0 e)) (wild p t u line d),
  last,
)

glob-Begins : (p : List ℕ) (whole : Bool) (s : List ℕ) → glob p whole s ≡ true → Begins p whole s
unfolding glob
glob-Begins [] whole [] h = ([], [], refl, done, λ e. refl)
glob-Begins [] whole (d ∷ s) h = ([], d ∷ s, refl, done, λ e. absurd (ground arith))
glob-Begins (c ∷ p) whole [] h =
    wild-Begins c p [] [] [] whole (ground arith) refl refl (glob-Begins p whole [] (ground arith))
glob-Begins (c ∷ p) whole (d ∷ s) h = elim (Bool-cases (c == star)) [
  | inl e ↦
      let (t, r, eq, line, k) = star_from-splits (glob p whole) (d ∷ s) (ground arith) in
      wild-Begins c p t r (d ∷ s) whole e eq line (glob-Begins p whole r k)
  | inr e ↦
      let (u, v, split, m, last) = glob-Begins p whole s (ground arith) in
      let same : d ≡ c = ground arith in
      (c ∷ u, v, rw same (ap (λ l. c ∷ l) split), literal c p u e m, last)
]

star-glob :
    (p : List ℕ) (whole : Bool) (s : List ℕ)
    → star_from (glob p whole) s ≡ true
    → glob (star ∷ p) whole s ≡ true
unfolding glob
star-glob p whole [] h = h
star-glob p whole (d ∷ s) h = h

glob_of :
    (p u v : List ℕ) (whole : Bool)
    → Denotes p u
    → (whole ≡ true → v ≡ [])
    → glob p whole (u ++ v) ≡ true
unfolding glob
glob_of [] [] [] whole done last = refl
glob_of [] [] (d ∷ v) whole done last = elim (Bool-cases whole) [
  | inl e ↦ absurd (not_nil (last e))
  | inr e ↦ rw e refl
]
  where
    not_nil : d ∷ v ≡ [] → ⊥
    not_nil e = cc
glob_of _ _ v whole (literal c p s e m) last = ground (arith, glob_of p s v whole m last)
glob_of _ _ v whole (wild p t s line m) last = rw (append_assoc t s v) (
    star-glob p whole (t ++ (s ++ v))
      (star_from-joins (glob p whole) t (s ++ v) line (glob_of p s v whole m last)))

-- A path pattern matches a path exactly where the pattern without its final `$` stands for a beginning of
-- the path, and for the whole of it where there was a `$`.
pub matches-Begins :
    (pattern path : String)
    → (matches pattern path ≡ true)
      ↔ Begins (body (codes pattern)) (anchored (codes pattern)) (codes path)
unfolding matches
matches-Begins pattern path =
    let p = body (codes pattern) in
    let whole = anchored (codes pattern) in
    (
      glob-Begins p whole (codes path),
      λ (u, v, split, m, last). rw split (glob_of p u v whole m last),
    )
