-- ===== src/Grader/Scope.antt =====
-- packages/grader/src/scope.ts.
use seo_optimizer.Prelude.{
  String, Bool, false, ◌||◌, Option, none, some, List, [], ◌∷◌, ◌≡◌, refl, arith, any, has, join,
  concat, concat-nonempty, if◌then◌else◌, filter, ltb, length,
}
use seo_optimizer.Core.Readiness.{lacks_rationale}
use seo_optimizer.Core.Check.{Applicability, Check, in_scope, excluded, review}

pub record ScopeDecision : Type 0 where
  pub applicability : Applicability
  pub rationale : Option String

abbrev pub narrowing_rationale : Check → List String → String
narrowing_rationale check flags = concat (
    "the check applies to sites flagged "
    ∷ join ", " check.applicability.any_of
    ∷ "; this site's profile declares "
    ∷ join ", " flags
    ∷ [])

-- The branches behind the match of flags.
unmatched_scope : Check → List String → ScopeDecision
unmatched_scope check [] = record { applicability = review; rationale = none }
unmatched_scope check (flag ∷ flags) = record {
  applicability = excluded;
  rationale = some (narrowing_rationale check (flag ∷ flags));
}

unfoldable pub resolve_scope : Check → List String → ScopeDecision
unfolding unmatched_scope
resolve_scope check flags =
    if check.applicability.universal
    then record { applicability = in_scope; rationale = none }
    else let matched = filter (has flags) check.applicability.any_of in
      if ltb 0 (length matched)
      then record { applicability = in_scope; rationale = none }
      else unmatched_scope check flags

-- A check put out of scope has a rationale, and it is not empty.
pub resolve_scope-rationale :
    (check : Check) (flags : List String)
    → (resolve_scope check flags).applicability ≡ excluded
    → lacks_rationale (resolve_scope check flags).rationale ≡ false
unfolding resolve_scope lacks_rationale
resolve_scope-rationale check [] h = ground arith
resolve_scope-rationale check (flag ∷ flags) h = ground (
  arith,
  concat-nonempty "the check applies to sites flagged "
      (join ", " check.applicability.any_of
        ∷ "; this site's profile declares "
        ∷ join ", " (flag ∷ flags)
        ∷ [])
      refl,
)

-- Whether the site's profile puts the check in scope.
abbrev pub matches_profile : Check → List String → Bool
matches_profile check flags =
    check.applicability.universal || any (has flags) check.applicability.any_of
