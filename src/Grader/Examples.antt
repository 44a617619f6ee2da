-- ===== src/Grader/Examples.antt =====
-- The results on packages/grader/src at one check with two detectors.
use seo_optimizer.Prelude.{
  sort, distinct_from, ℕ, ◌≡◌, refl, String, true, false, Option, none, some, List, [], ◌∷◌, All,
  ◌*◌, ◌/◌,
}
use seo_optimizer.Prelude.Int.{ℤ}
use seo_optimizer.Core.Check.{Check, CheckStatus, excluded, passed, automated}
use seo_optimizer.Core.Readiness.{
  go, compute_launch_readiness, state_of, effective_state, lacks_rationale,
}
use seo_optimizer.Grader.Types.{ProbeRun, Evidence, Outcome, to_check_state}
use seo_optimizer.Grader.Scope.{resolve_scope, resolve_scope-rationale}
use seo_optimizer.Grader.Grade.{
  to_evidence, GradeInput, group_evidence, count_of, failing_detectors, found_for, grade_check,
  grade_audit, is_fail,
}
use seo_optimizer.Grader.Grade.Pairing.{Pairs, to_evidence_lem}
use seo_optimizer.Grader.Grade.Grouping.{found_for-group_evidence, count_of_lem}
use seo_optimizer.Grader.Grade.Verdicts.{
  IsCleared, was_seen, profile_scope, grade_check-verdict, grade_check-passed_iff,
  grade_check-failed_iff,
}
use seo_optimizer.Grader.Grade.Audit.{StandsBehind, grade_audit-violations, grade_audit-go}

abbrev no_dates : String → Option ℤ
no_dates text = none

abbrev whole_percent : ℕ → ℕ → ℕ
whole_percent part whole = part * 100 / whole

abbrev shop_check : Check
shop_check = record {
  id = "2.3";
  phase = 2;
  launch_gate = true;
  applicability = record { universal = false; any_of = "shop" ∷ [] };
  automation = automated;
  detectors = "titles" ∷ "robots" ∷ [];
}

abbrev seen : String → Outcome → Evidence
seen probe outcome = record {
  run = record { probe_id = probe; outcome = outcome };
  result_id = some probe;
}

abbrev good : List Evidence
good =
    seen "robots" Outcome.pass
    ∷ seen "titles" Outcome.pass
    ∷ seen "titles" Outcome.not_applicable
    ∷ []

abbrev bad : List Evidence
bad = seen "titles" Outcome.fail ∷ seen "robots" Outcome.warn ∷ []

abbrev detectors : List String
detectors = "robots" ∷ "titles" ∷ []

abbrev audit : GradeInput
audit = record {
  corpus = record { version = "5.0"; checks = shop_check ∷ [] };
  flags = "shop" ∷ [];
  evidence = good;
  implemented = detectors;
  graded_at = "now";
}

passes : (grade_check shop_check ("shop" ∷ []) (group_evidence [] good) detectors).status ≡ passed
unfolding grade_check resolve_scope group_evidence count_of
passes = refl

fails :
    (grade_check shop_check ("shop" ∷ []) (group_evidence [] bad) detectors).status
    ≡ CheckStatus.failed
unfolding grade_check resolve_scope group_evidence count_of
fails = refl

named_failing : failing_detectors bad ≡ "titles" ∷ []
unfolding failing_detectors sort distinct_from
named_failing = refl

audit_goes : (grade_audit no_dates whole_percent audit).readiness.decision ≡ go
unfolding grade_audit grade_check resolve_scope group_evidence count_of compute_launch_readiness
    state_of effective_state to_check_state
audit_goes = refl

out_of_shop : (resolve_scope shop_check ("blog" ∷ [])).applicability ≡ excluded
unfolding resolve_scope
out_of_shop = refl

grade_check-verdict_example :
    (grade_check shop_check ("shop" ∷ []) (group_evidence [] good) detectors).applicability
    ≡ profile_scope shop_check ("shop" ∷ [])
grade_check-verdict_example = (grade_check-verdict good shop_check ("shop" ∷ []) detectors).0

grade_check-passed_iff_example : IsCleared good shop_check ("shop" ∷ []) detectors
grade_check-passed_iff_example =
    (grade_check-passed_iff good shop_check ("shop" ∷ []) detectors).0 passes

grade_check-failed_iff_example : was_seen is_fail shop_check bad ≡ true
grade_check-failed_iff_example =
    ((grade_check-failed_iff bad shop_check ("shop" ∷ []) detectors).0 fails).5

grade_audit-violations_example :
    (grade_audit no_dates whole_percent audit).readiness.violations ≡ []
grade_audit-violations_example = grade_audit-violations no_dates whole_percent audit

grade_audit-go_example : All (StandsBehind no_dates whole_percent audit) (shop_check ∷ [])
grade_audit-go_example = grade_audit-go no_dates whole_percent audit (refl, tt) audit_goes

found_for-group_evidence_example :
    found_for (group_evidence [] good) "titles"
    ≡ seen "titles" Outcome.pass ∷ seen "titles" Outcome.not_applicable ∷ []
found_for-group_evidence_example = found_for-group_evidence [] good "titles"

count_of_lem_example : (count_of good).pass ≡ 2
count_of_lem_example = (count_of_lem good).0

resolve_scope-rationale_example :
    lacks_rationale (resolve_scope shop_check ("blog" ∷ [])).rationale ≡ false
resolve_scope-rationale_example = resolve_scope-rationale shop_check ("blog" ∷ []) out_of_shop

abbrev one_run : List ProbeRun
one_run = record { probe_id = "titles"; outcome = Outcome.pass } ∷ []

to_evidence_lem_example :
    (evidence : List Evidence) × (to_evidence one_run ("row" ∷ []) ≡ some evidence)
    × Pairs one_run ("row" ∷ []) evidence
to_evidence_lem_example = (to_evidence_lem one_run ("row" ∷ [])).1 refl
