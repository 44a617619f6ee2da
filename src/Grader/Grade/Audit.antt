-- ===== src/Grader/Grade/Audit.antt =====
-- What `gradeAudit` says of a whole corpus.
use seo_optimizer.Prelude.{
  ℕ, ◌≡◌, refl, sym, ap, ◌∙◌, String, true, false, ◌&&◌, Option, none, some, List, [], ◌∷◌, map,
  ◌⊎◌, inl, inr, arith, flat_map, lookup, insert, insert_all, lookup-insert, All, any, str_eq_refl,
  Bool-cases, Option-cases, subst, str_eq,
}
use seo_optimizer.Prelude.Int.{ℤ}
use seo_optimizer.Core.Check.{
  Check, CheckState, Applicability, in_scope, excluded, review, is_excluded, is_skipped,
  is_attested,
}
use seo_optimizer.Core.Readiness.{States, state_of, effective_state, lacks_rationale, go}
use seo_optimizer.Core.Readiness.Launch.{
  effective_state_lem, violations_of, compute_launch_readiness-counts, decision-go_iff, Clears,
}
use seo_optimizer.Grader.Types.{GradedCheck, to_check_state}
use seo_optimizer.Grader.Scope.{ScopeDecision, resolve_scope, resolve_scope-rationale}
use seo_optimizer.Grader.Grade.{
  Grouped, GradeInput, grade_scoped, graded_checks, states_of, grade_check, grade_audit,
  group_evidence,
}
use seo_optimizer.Grader.Grade.Verdicts.{
  IsCleared, grade_check-verdict, grade_check-passed_iff, profile_scope,
}

-- A predicate that every value of a map has.
abbrev AllValues : (CheckState → Type 0) → States → Type 0
AllValues P m = (k : String) (v : CheckState) → lookup k m ≡ some v → P v

insert-AllValues :
    (P : CheckState → Type 0) (k : String) (v : CheckState) (m : States)
    → P v
    → AllValues P m
    → AllValues P (insert k v m)
insert-AllValues P k v m pv pm j w h = elim (Bool-cases (str_eq k j)) [
  | inl e ↦ subst P (ground (arith, lookup-insert k j v m)) pv
  | inr e ↦ pm j w (ground (arith, lookup-insert k j v m))
]

insert_all-AllValues :
    (P : CheckState → Type 0) (gs : List GradedCheck) (m : States)
    → All (λ g. P (to_check_state g none)) gs
    → AllValues P m
    → AllValues P (insert_all (map (λ g. (g.check_id, to_check_state g none)) gs) m)
insert_all-AllValues P [] m ps pm = pm
insert_all-AllValues P (g ∷ gs) m ps pm =
    insert_all-AllValues P gs _ ps.1 (insert-AllValues P g.check_id _ m ps.0 pm)

-- Neither excluded without a rationale, nor skipped, nor attested.
abbrev IsLawful : CheckState → Type 0
IsLawful s =
    ((is_excluded s.applicability && lacks_rationale s.applicability_rationale) ≡ false)
    × (is_skipped s.status ≡ false)
    × (is_attested s.coverage ≡ false)

grade_scoped-IsLawful :
    (check : Check) (scope : ScopeDecision) (a : Applicability) (groups : Grouped)
    (implemented : List String)
    → (a ≡ excluded → lacks_rationale scope.rationale ≡ false)
    → IsLawful (to_check_state (grade_scoped check scope a groups implemented) none)
unfolding grade_scoped to_check_state lacks_rationale
grade_scoped-IsLawful check scope excluded groups implemented h = (h refl, refl, refl)
grade_scoped-IsLawful check scope review groups implemented h = (refl, refl, refl)
grade_scoped-IsLawful check scope in_scope groups implemented h = ground arith

grade_check-IsLawful :
    (check : Check) (flags : List String) (groups : Grouped) (implemented : List String)
    → IsLawful (to_check_state (grade_check check flags groups implemented) none)
unfolding grade_check
grade_check-IsLawful check flags groups implemented =
    grade_scoped-IsLawful check (resolve_scope check flags) _ groups implemented
      (resolve_scope-rationale check flags)

graded_All :
    (check_all : List Check) (flags : List String) (groups : Grouped) (implemented : List String)
    → All
        (λ g. IsLawful (to_check_state g none))
        (map (λ check. grade_check check flags groups implemented) check_all)
graded_All [] flags groups implemented = tt
graded_All (c ∷ cs) flags groups implemented =
    (grade_check-IsLawful c flags groups implemented, graded_All cs flags groups implemented)

module _ (date_parse : String → Option ℤ) where
  effective_state-IsLawful :
      (s : CheckState) (at : Option String)
      → IsLawful s
      → IsLawful (effective_state date_parse s at)
  unfolding effective_state
  effective_state-IsLawful s none h = h
  effective_state-IsLawful s (some at) h = ground arith

  state_of-IsLawful :
      (m : States) (check : Check) → AllValues IsLawful m → IsLawful (state_of m check)
  unfolding state_of
  state_of-IsLawful m check h = elim (Option-cases (lookup check.id m)) [
    | inl e ↦ rw (e, state_of) (ground arith)
    | inr (v, e) ↦ rw (e, state_of) (h check.id v e)
  ]

  no_violations :
      (m : States) (at : Option String) (cs : List Check)
      → AllValues IsLawful m
      → flat_map (violations_of date_parse m at) cs ≡ []
  no_violations m at [] h = refl
  no_violations m at (c ∷ cs) h = ground (
    arith,
    no_violations m at cs h,
    effective_state-IsLawful (state_of m c) at (state_of-IsLawful m c h),
  )

  -- A grade never breaks the integrity rules: no verdict skips a gate, and a check is never put out
  -- of scope without a rationale that says something.
  pub grade_audit-violations :
      (percent : ℕ → ℕ → ℕ) (input : GradeInput)
      → (grade_audit date_parse percent input).readiness.violations ≡ []
  unfolding grade_audit
  grade_audit-violations percent input =
      (compute_launch_readiness-counts date_parse (states_of (graded_checks input))
        (some input.graded_at) input.corpus.checks).4
      ∙ no_violations (states_of (graded_checks input)) (some input.graded_at) input.corpus.checks (
          insert_all-AllValues IsLawful (graded_checks input) []
            (graded_All input.corpus.checks input.flags (group_evidence [] input.evidence)
              input.implemented)
            (λ k v e. cc))

-- The ids of a corpus are distinct.
abbrev pub DistinctIds : List Check → Type 0
DistinctIds [] = Unit
DistinctIds (c ∷ cs) = (any (λ d. str_eq d.id c.id) cs ≡ false) × DistinctIds cs

module _ (grade : Check → GradedCheck) (grade_id : (c : Check) → (grade c).check_id ≡ c.id) where
  abbrev entries : List Check → States
  entries cs = map (λ g. (g.check_id, to_check_state g none)) (map grade cs)

  insert_all_miss :
      (cs : List Check) (k : String) (m : States)
      → any (λ d. str_eq d.id k) cs ≡ false
      → lookup k (insert_all (entries cs) m) ≡ lookup k m
  insert_all_miss [] k m h = refl
  insert_all_miss (c ∷ cs) k m h =
      insert_all_miss cs k _ (ground arith)
      ∙ ground
          (arith, grade_id c, lookup-insert (grade c).check_id k (to_check_state (grade c) none) m)

  insert_all_hit :
      (cs : List Check) (m : States)
      → DistinctIds cs
      → All (λ c. lookup c.id (insert_all (entries cs) m) ≡ some (to_check_state (grade c) none)) cs
  insert_all_hit [] m d = tt
  insert_all_hit (c ∷ cs) m d = (
    insert_all_miss cs c.id _ d.0
        ∙ ground (
          arith,
          grade_id c,
          str_eq_refl c.id,
          lookup-insert (grade c).check_id c.id (to_check_state (grade c) none) m,
        ),
    insert_all_hit cs _ d.1,
  )

grade_check-id :
    (check : Check) (flags : List String) (groups : Grouped) (implemented : List String)
    → (grade_check check flags groups implemented).check_id ≡ check.id
unfolding grade_check
grade_check-id check flags groups implemented = scoped _
  where
    scoped :
        (a : Applicability)
        → (grade_scoped check (resolve_scope check flags) a groups implemented).check_id ≡ check.id
    scoped excluded = refl
    scoped review = refl
    scoped in_scope = ground arith

module _ (date_parse : String → Option ℤ) (percent : ℕ → ℕ → ℕ) (input : GradeInput) where
  -- What stands behind a launch gate when a machine's grade alone says GO.
  abbrev pub StandsBehind : Check → Type 0
  StandsBehind check =
      check.launch_gate ≡ true
      → (profile_scope check input.flags ≡ excluded)
        ⊎ IsCleared input.evidence check input.flags input.implemented

  state_of-some :
      (m : States) (c : Check) (s : CheckState) → lookup c.id m ≡ some s → state_of m c ≡ s
  unfolding state_of
  state_of-some m c s e = rw (e, state_of)

  gate_stands :
      (m : States) (c : Check)
      → lookup c.id m
        ≡ some (
            to_check_state
              (grade_check c input.flags (group_evidence [] input.evidence) input.implemented)
              none)
      → Clears date_parse m (some input.graded_at) c
      → StandsBehind c
  unfolding to_check_state
  gate_stands m c found clear gate =
      let g = grade_check c input.flags (group_evidence [] input.evidence) input.implemented in
      let e = state_of-some m c _ found in
      let (_, scope, status, _, _, _) =
        effective_state_lem date_parse (state_of m c) (some input.graded_at) in
      let v = grade_check-verdict input.evidence c input.flags input.implemented in
      elim (clear gate) [
        | inl out ↦
            inl (sym v.0 ∙ sym (ap (λ (s : CheckState). s.applicability) e) ∙ sym scope ∙ out)
        | inr (_, done) ↦ inr (
            (grade_check-passed_iff input.evidence c input.flags input.implemented).0
              (sym (ap (λ (s : CheckState). s.status) e) ∙ status done))
      ]

  stands_behind :
      (m : States) (cs : List Check)
      → All
          (λ c.
            lookup c.id m
            ≡ some (
                to_check_state
                  (grade_check c input.flags (group_evidence [] input.evidence) input.implemented)
                  none))
          cs
      → All (Clears date_parse m (some input.graded_at)) cs
      → All StandsBehind cs
  stands_behind m [] found clear = tt
  stands_behind m (c ∷ cs) found clear =
      (gate_stands m c found.0 clear.0, stands_behind m cs found.1 clear.1)

  -- With distinct check ids, a grade that says GO has, for each launch gate of the corpus, a profile
  -- that puts the gate out of scope or evidence that clears it.
  pub grade_audit-go :
      DistinctIds input.corpus.checks
      → (grade_audit date_parse percent input).readiness.decision ≡ go
      → All StandsBehind input.corpus.checks
  unfolding grade_audit
  grade_audit-go distinct said =
      stands_behind (states_of (graded_checks input)) input.corpus.checks
        (insert_all_hit
          (λ c. grade_check c input.flags (group_evidence [] input.evidence) input.implemented)
          (λ c. grade_check-id c input.flags (group_evidence [] input.evidence) input.implemented)
          input.corpus.checks [] distinct)
        ((decision-go_iff date_parse (states_of (graded_checks input)) (some input.graded_at)
            input.corpus.checks).0
          said)
