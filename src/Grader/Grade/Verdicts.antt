-- ===== src/Grader/Grade/Verdicts.antt =====
-- The verdict on one check, read off the evidence, the site's flags and the detectors at hand.
use seo_optimizer.Prelude.{
  ◌+◌, ◌≡◌, refl, sym, ◌∙◌, String, Bool, true, false, not, ◌&&◌, ◌||◌, List, [], ◌∷◌, ◌++◌, ◌↔◌,
  arith, filter, count_if, flat_map, has, if◌then◌else◌, length, any, all, ltb, ◌==◌,
}
use seo_optimizer.Core.Check.{
  Check, Applicability, CheckStatus, Coverage, automated, in_scope, excluded, review, not_started,
  in_progress, passed, failed, unknown, verified, not_applicable,
}
use seo_optimizer.Grader.Types.{Outcome, Evidence}
use seo_optimizer.Grader.Scope.{resolve_scope, matches_profile}
use seo_optimizer.Grader.Grade.{
  Grouped, found_for, group_evidence, is_fail, is_attested_only, is_assisted, grade_check,
  grade_scoped, grade_in_scope, grade_evidence,
}
use seo_optimizer.Grader.Grade.Grouping.{
  is_from, is_pass, is_warn, is_error, found_for-group_evidence, count_of_lem,
}

-- Some observation of a detector of the check has an outcome that passes the test.
abbrev pub was_seen : (Outcome → Bool) → Check → List Evidence → Bool
was_seen p check evidence =
    any (λ d. any (λ e. is_from d e && p e.run.outcome) evidence) check.detectors

-- Every detector of the check made an observation.
abbrev pub all_heard : Check → List Evidence → Bool
all_heard check evidence = all (λ d. any (is_from d) evidence) check.detectors

abbrev pub all_implemented : Check → List String → Bool
all_implemented check implemented = all (has implemented) check.detectors

ltb-length-filter {ℓ} :
    {A : Type ℓ} (p : A → Bool) (xs : List A) → ltb 0 (length (filter p xs)) ≡ any p xs
ltb-length-filter p [] = refl
ltb-length-filter p (x ∷ xs) = ground (arith, ltb-length-filter p xs)

-- The scope that a site's profile gives a check.
abbrev pub profile_scope : Check → List String → Applicability
profile_scope check [] = if matches_profile check [] then in_scope else review
profile_scope check (flag ∷ flags) =
    if matches_profile check (flag ∷ flags) then in_scope else excluded

pub resolve_scope-applicability :
    (check : Check) (flags : List String)
    → (resolve_scope check flags).applicability ≡ profile_scope check flags
unfolding resolve_scope
resolve_scope-applicability check [] =
    ground (arith, ltb-length-filter (has []) check.applicability.any_of)
resolve_scope-applicability check (flag ∷ flags) =
    ground (arith, ltb-length-filter (has (flag ∷ flags)) check.applicability.any_of)

missing_lem :
    (implemented ds : List String)
    → ltb 0 (length (filter (λ d. not (has implemented d)) ds)) ≡ not (all (has implemented) ds)
missing_lem implemented [] = refl
missing_lem implemented (d ∷ ds) = ground (arith, missing_lem implemented ds)

filter-any :
    (d : String) (evidence : List Evidence)
    → (length (filter (is_from d) evidence) == 0) ≡ not (any (is_from d) evidence)
filter-any d [] = refl
filter-any d (e ∷ es) = ground (arith, filter-any d es)

count_if-append :
    (p : Evidence → Bool) (xs ys : List Evidence)
    → count_if p (xs ++ ys) ≡ count_if p xs + count_if p ys
count_if-append p [] ys = omega arith
count_if-append p (x ∷ xs) ys = ground (arith, count_if-append p xs ys)

count_if-filter :
    (p : Outcome → Bool) (d : String) (evidence : List Evidence)
    → ltb 0 (count_if (λ e. p e.run.outcome) (filter (is_from d) evidence))
      ≡ any (λ e. is_from d e && p e.run.outcome) evidence
count_if-filter p d [] = refl
count_if-filter p d (e ∷ es) = ground (arith, count_if-filter p d es)

grade_evidence-applicability :
    (check : Check) (groups : Grouped) → (grade_evidence check groups).applicability ≡ in_scope
unfolding grade_evidence
grade_evidence-applicability check groups = ground arith

module _ (evidence : List Evidence) where
  abbrev pub groups : Grouped
  groups = group_evidence [] evidence

  silent_lem :
      (ds : List String)
      → ltb 0 (length (filter (λ d. length (found_for groups d) == 0) ds))
        ≡ not (all (λ d. any (is_from d) evidence) ds)
  silent_lem [] = refl
  silent_lem (d ∷ ds) =
      ground (arith, silent_lem ds, filter-any d evidence, found_for-group_evidence [] evidence d)

  seen_lem :
      (p : Outcome → Bool) (ds : List String)
      → ltb 0 (count_if (λ e. p e.run.outcome) (flat_map (found_for groups) ds))
        ≡ any (λ d. any (λ e. is_from d e && p e.run.outcome) evidence) ds
  seen_lem p [] = refl
  seen_lem p (d ∷ ds) = ground (
    arith,
    seen_lem p ds,
    count_if-filter p d evidence,
    found_for-group_evidence [] evidence d,
    count_if-append (λ e. p e.run.outcome) (found_for groups d) (flat_map (found_for groups) ds),
  )

  -- The status and the coverage that the evidence supports, by the tests in the order of the table.
  abbrev pub evidence_verdict : Check → CheckStatus × Coverage
  evidence_verdict check =
      if not (all_heard check evidence) || was_seen is_error check evidence
      then (not_started, unknown)
      else if was_seen is_fail check evidence
      then (failed, verified)
      else if was_seen is_warn check evidence || is_assisted check.automation
      then (in_progress, unknown)
      else if was_seen is_pass check evidence
      then (passed, verified)
      else (passed, not_applicable)

  abbrev scope_verdict : Check → List String → Applicability → CheckStatus × Coverage
  scope_verdict check implemented excluded = (not_started, not_applicable)
  scope_verdict check implemented review = (not_started, unknown)
  scope_verdict check implemented in_scope =
      if is_attested_only check.automation || not (all_implemented check implemented)
      then (not_started, unknown)
      else evidence_verdict check

  abbrev pub expected_verdict : Check → List String → List String → CheckStatus × Coverage
  expected_verdict check flags implemented =
      scope_verdict check implemented (profile_scope check flags)

  grade_evidence-status :
      (check : Check) → (grade_evidence check groups).status ≡ (evidence_verdict check).0
  unfolding grade_evidence
  grade_evidence-status check = ground (
    arith,
    count_of_lem (flat_map (found_for groups) check.detectors),
    silent_lem check.detectors,
    seen_lem is_error check.detectors,
    seen_lem is_fail check.detectors,
    seen_lem is_warn check.detectors,
    seen_lem is_pass check.detectors,
  )

  grade_evidence-coverage :
      (check : Check) → (grade_evidence check groups).coverage ≡ (evidence_verdict check).1
  unfolding grade_evidence
  grade_evidence-coverage check = ground (
    arith,
    count_of_lem (flat_map (found_for groups) check.detectors),
    silent_lem check.detectors,
    seen_lem is_error check.detectors,
    seen_lem is_fail check.detectors,
    seen_lem is_warn check.detectors,
    seen_lem is_pass check.detectors,
  )

  grade_in_scope_lem :
      (check : Check) (implemented : List String)
      → let g = grade_in_scope check groups implemented in
        (g.applicability ≡ in_scope)
        × (g.status ≡ (scope_verdict check implemented in_scope).0)
        × (g.coverage ≡ (scope_verdict check implemented in_scope).1)
  unfolding grade_in_scope
  grade_in_scope_lem check implemented =
      let missing = missing_lem implemented check.detectors in
      (
        ground (arith, missing, grade_evidence-applicability check groups),
        ground (arith, missing, grade_evidence-status check),
        ground (arith, missing, grade_evidence-coverage check),
      )

  grade_scoped_lem :
      (check : Check) (flags implemented : List String) (a : Applicability)
      → let g = grade_scoped check (resolve_scope check flags) a groups implemented in
        (g.applicability ≡ a)
        × (g.status ≡ (scope_verdict check implemented a).0)
        × (g.coverage ≡ (scope_verdict check implemented a).1)
  unfolding grade_scoped
  grade_scoped_lem check flags implemented excluded = (refl, refl, refl)
  grade_scoped_lem check flags implemented review = (refl, refl, refl)
  grade_scoped_lem check flags implemented in_scope = grade_in_scope_lem check implemented

  -- The scope of a verdict is the profile's; its status and coverage are what the table gives for
  -- that scope, the check's automation tier, the detectors at hand and the evidence.
  pub grade_check-verdict :
      (check : Check) (flags implemented : List String)
      → let g = grade_check check flags groups implemented in
        (g.applicability ≡ profile_scope check flags)
        × (g.status ≡ (expected_verdict check flags implemented).0)
        × (g.coverage ≡ (expected_verdict check flags implemented).1)
  unfolding grade_check
  grade_check-verdict check flags implemented =
      rw (← resolve_scope-applicability check flags)
        (grade_scoped_lem check flags implemented (resolve_scope check flags).applicability)

  -- The check is in scope, wholly machine-verifiable, implemented and heard, with no bad observation.
  pub record IsCleared (check : Check) (flags implemented : List String) : Type 0 where
    pub scoped : matches_profile check flags ≡ true
    pub tier : check.automation ≡ automated
    pub has_detectors : all_implemented check implemented ≡ true
    pub heard : all_heard check evidence ≡ true
    pub no_fail : was_seen is_fail check evidence ≡ false
    pub no_warn : was_seen is_warn check evidence ≡ false
    pub no_error : was_seen is_error check evidence ≡ false

  profile_scope-in_scope :
      (check : Check) (flags : List String)
      → (profile_scope check flags ≡ in_scope) ↔ (matches_profile check flags ≡ true)
  profile_scope-in_scope check [] = (λ h. ground arith, λ h. ground arith)
  profile_scope-in_scope check (flag ∷ flags) = (λ h. ground arith, λ h. ground arith)

  passed_table :
      (check : Check) (flags implemented : List String)
      → (expected_verdict check flags implemented).0 ≡ passed
      → IsCleared check flags implemented
  passed_table check flags implemented h = ground (arith, profile_scope-in_scope check flags)

  failed_table :
      (check : Check) (flags implemented : List String)
      → (expected_verdict check flags implemented).0 ≡ failed
      → ((matches_profile check flags ≡ true)
          × (is_attested_only check.automation ≡ false)
          × (all_implemented check implemented ≡ true)
          × (all_heard check evidence ≡ true)
          × (was_seen is_error check evidence ≡ false)
          × (was_seen is_fail check evidence ≡ true))
  failed_table check flags implemented h = ground (arith, profile_scope-in_scope check flags)

  -- A machine passes a check exactly when it is cleared: only an `automated` one, in scope, with every
  -- detector implemented and heard, and none of their observations a fail, a warning or an error.
  pub grade_check-passed_iff :
      (check : Check) (flags implemented : List String)
      → ((grade_check check flags groups implemented).status ≡ passed)
        ↔ IsCleared check flags implemented
  grade_check-passed_iff check flags implemented =
      let v = grade_check-verdict check flags implemented in
      let s = profile_scope-in_scope check flags in
      (
        λ h. passed_table check flags implemented (sym v.1 ∙ h),
        λ c.
            v.1
            ∙ ground (
              arith,
              s.1 c.scoped,
              c.tier,
              c.has_detectors,
              c.heard,
              c.no_fail,
              c.no_warn,
              c.no_error,
            ),
      )

  -- A machine fails a check exactly when it is in scope and not left to attestation, every detector
  -- is implemented and heard, none of their observations is an error and one is a fail.
  pub grade_check-failed_iff :
      (check : Check) (flags implemented : List String)
      → ((grade_check check flags groups implemented).status ≡ failed) ↔ (
          (matches_profile check flags ≡ true)
          × (is_attested_only check.automation ≡ false)
          × (all_implemented check implemented ≡ true)
          × (all_heard check evidence ≡ true)
          × (was_seen is_error check evidence ≡ false)
          × (was_seen is_fail check evidence ≡ true))
  grade_check-failed_iff check flags implemented =
      let v = grade_check-verdict check flags implemented in
      let s = profile_scope-in_scope check flags in
      (λ h. failed_table check flags implemented (sym v.1 ∙ h), λ c. v.1 ∙ ground (arith, s.1 c.0))
