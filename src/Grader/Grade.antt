-- ===== src/Grader/Grade.antt =====
-- packages/grader/src/grade.ts.
pub mod Grouping
pub mod Verdicts
pub mod Audit
pub mod Pairing
use seo_optimizer.Prelude.{
  ℕ, suc, ◌+◌, String, Bool, true, false, not, ◌&&◌, Option, none, some, List, [], ◌∷◌, ◌++◌, map,
  ◌==◌, ltb, str_eq, if◌then◌else◌, has, join, concat, decimal, filter, filter_map, flat_map,
  length, lookup, insert, insert_all, distinct_from, sort, get_or,
}
use seo_optimizer.Prelude.Int.{ℤ}
use seo_optimizer.Core.Check.{
  Applicability, CheckStatus, Coverage, Check, CheckState, Corpus, in_scope, excluded, review,
  not_started, in_progress, passed, failed, verified, unknown, not_applicable, automated, assisted,
  AutomationTier,
}
use seo_optimizer.Core.Readiness.{
  States, LaunchReadiness, PhaseProgress, compute_launch_readiness, compute_progress,
}
use seo_optimizer.Grader.Types.{
  Outcome, ProbeRun, Evidence, GradeBasis, ObservationCounts, GradedCheck, to_check_state,
  out_of_scope, scope_undecided, detectors_missing, probe_error, no_observation, verified_fail,
  verified_pass, nothing_to_verify, held_by_warning, awaiting_confirmation,
}
use seo_optimizer.Grader.Scope.{ScopeDecision, resolve_scope}

abbrev pub no_counts : ObservationCounts
no_counts = record { pass = 0; fail = 0; warn = 0; not_applicable = 0; error = 0 }

-- The map from a detector to its observations, `byDetector`.
abbrev pub Grouped : Type 0
Grouped = List (String × List Evidence)

abbrev pub found_for : Grouped → String → List Evidence
found_for groups id = elim (lookup id groups) [ none ↦ [] | some found ↦ found ]

abbrev group_one : Grouped → Evidence → Grouped
group_one groups item =
    insert item.run.probe_id (found_for groups item.run.probe_id ++ item ∷ []) groups

unfoldable pub group_evidence : Grouped → List Evidence → Grouped
group_evidence groups [] = groups
group_evidence groups (item ∷ items) = group_evidence (group_one groups item) items

count_outcome : ObservationCounts → Outcome → ObservationCounts
count_outcome c Outcome.pass = record c { pass = c.pass + 1 }
count_outcome c Outcome.fail = record c { fail = c.fail + 1 }
count_outcome c Outcome.warn = record c { warn = c.warn + 1 }
count_outcome c Outcome.not_applicable = record c { not_applicable = c.not_applicable + 1 }
count_outcome c Outcome.error = record c { error = c.error + 1 }

count_from : ObservationCounts → List Evidence → ObservationCounts
unfolding count_outcome
count_from c [] = c
count_from c (item ∷ items) = count_from (count_outcome c item.run.outcome) items

unfoldable pub count_of : List Evidence → ObservationCounts
unfolding count_from
count_of observations = count_from no_counts observations

abbrev pub is_fail : Outcome → Bool
is_fail Outcome.fail = true
is_fail _ = false

unfoldable pub failing_detectors : List Evidence → List String
failing_detectors observations = sort (
    distinct_from []
      (map (λ item. item.run.probe_id) (filter (λ item. is_fail item.run.outcome) observations)))

-- `ungraded`, with its optional arguments given.
ungraded :
    Check
    → Applicability
    → Option String
    → GradeBasis
    → String
    → Coverage
    → List String
    → ObservationCounts
    → GradedCheck
ungraded check applicability rationale basis summary coverage evidence_ids counts = record {
  check_id = check.id;
  applicability = applicability;
  applicability_rationale = rationale;
  status = not_started;
  coverage = coverage;
  basis = basis;
  summary = summary;
  evidence_ids = evidence_ids;
  counts = counts;
}

-- A verdict of the second half of `gradeCheck`.
verdict :
    Check
    → CheckStatus
    → Coverage
    → GradeBasis
    → String
    → List String
    → ObservationCounts
    → GradedCheck
verdict check status coverage basis summary evidence_ids counts = record {
  check_id = check.id;
  applicability = in_scope;
  applicability_rationale = none;
  status = status;
  coverage = coverage;
  basis = basis;
  summary = summary;
  evidence_ids = evidence_ids;
  counts = counts;
}

abbrev pub is_assisted : AutomationTier → Bool
is_assisted assisted = true
is_assisted _ = false

abbrev pub is_attested_only : AutomationTier → Bool
is_attested_only AutomationTier.attested_only = true
is_attested_only _ = false

-- `gradeCheck` once every detector has been heard and none failed to run.
grade_observed : Check → List Evidence → List String → ObservationCounts → GradedCheck
unfolding verdict
grade_observed check observations evidence_ids counts =
    let total = length observations in
    if ltb 0 counts.fail
    then verdict check failed verified verified_fail
        (concat (
          "failed: "
          ∷ decimal counts.fail
          ∷ " of "
          ∷ decimal total
          ∷ " observations failed ("
          ∷ join ", " (failing_detectors observations)
          ∷ ")"
          ∷ []))
        evidence_ids counts
    else if ltb 0 counts.warn
    then verdict check in_progress unknown held_by_warning
        (concat (
          "held: "
          ∷ decimal counts.warn
          ∷ " of "
          ∷ decimal total
          ∷ " observations warned — short of a defect, but not something a machine will clear"
          ∷ (if is_assisted check.automation then "; a human must also confirm this check" else "")
          ∷ []))
        evidence_ids counts
    else if is_assisted check.automation
    then verdict check in_progress unknown awaiting_confirmation
        (concat (
          "proposed: "
          ∷ decimal total
          ∷ " observations, none failed or warned; this check needs a human to confirm"
          ∷ []))
        evidence_ids counts
    else if counts.pass == 0
    then verdict check passed not_applicable nothing_to_verify
        (concat
          ("nothing to verify: all " ∷ decimal total ∷ " observations found no subject here" ∷ []))
        evidence_ids counts
    else verdict check passed verified verified_pass
        (concat (
          "verified: "
          ∷ decimal counts.pass
          ∷ " of "
          ∷ decimal total
          ∷ " observations passed"
          ∷ (if ltb 0 counts.not_applicable
              then concat (", " ∷ decimal counts.not_applicable ∷ " found no subject" ∷ [])
              else "")
          ∷ []))
        evidence_ids counts

-- The detectors of a check that made no observation.
abbrev pub silent_detectors : Check → Grouped → List String
silent_detectors check groups = filter (λ d. length (found_for groups d) == 0) check.detectors

-- `gradeCheck` once every detector is known to be implemented.
grade_evidence : Check → Grouped → GradedCheck
unfolding grade_observed ungraded
grade_evidence check groups =
    let observations = flat_map (found_for groups) check.detectors in
    let evidence_ids = filter_map (λ item. item.result_id) observations in
    let counts = count_of observations in
    let silent = silent_detectors check groups in
    if ltb 0 (length silent)
    then ungraded check in_scope none no_observation
        (concat ("not graded: no observation from " ∷ join ", " silent ∷ " on this crawl" ∷ []))
        unknown evidence_ids counts
    else if ltb 0 counts.error
    then ungraded check in_scope none probe_error
        (concat (
          "not graded: "
          ∷ decimal counts.error
          ∷ " of "
          ∷ decimal (length observations)
          ∷ " observations could not be made because a probe failed to run"
          ∷ []))
        unknown evidence_ids counts
    else grade_observed check observations evidence_ids counts

grade_in_scope : Check → Grouped → List String → GradedCheck
unfolding grade_evidence
grade_in_scope check groups implemented =
    let missing = filter (λ d. not (has implemented d)) check.detectors in
    if is_attested_only check.automation
    then ungraded check in_scope none GradeBasis.attested_only
        "no machine can verify this check; it needs a human attestation" unknown [] no_counts
    else if ltb 0 (length missing)
    then ungraded check in_scope none detectors_missing
        (concat (
          "not graded: "
          ∷ decimal (length missing)
          ∷ " of "
          ∷ decimal (length check.detectors)
          ∷ " detectors are not implemented ("
          ∷ join ", " missing
          ∷ ")"
          ∷ []))
        unknown [] no_counts
    else grade_evidence check groups

grade_scoped : Check → ScopeDecision → Applicability → Grouped → List String → GradedCheck
unfolding grade_in_scope ungraded
grade_scoped check scope excluded groups implemented =
    ungraded check excluded scope.rationale out_of_scope
      (concat ("out of scope: " ∷ get_or scope.rationale "" ∷ [])) not_applicable [] no_counts
grade_scoped check scope review groups implemented =
    ungraded check review none scope_undecided
      (concat (
        "scope undecided: the check applies to sites flagged "
        ∷ join ", " check.applicability.any_of
        ∷ ", and this site's profile is empty"
        ∷ []))
      unknown [] no_counts
grade_scoped check scope in_scope groups implemented = grade_in_scope check groups implemented

unfoldable pub grade_check : Check → List String → Grouped → List String → GradedCheck
unfolding grade_scoped
grade_check check flags groups implemented =
    let scope = resolve_scope check flags in
    grade_scoped check scope scope.applicability groups implemented

pub record GradeInput : Type 0 where
  pub corpus : Corpus
  pub flags : List String
  pub evidence : List Evidence
  -- `implementedDetectors`, or the ids of the probe registry.
  pub implemented : List String
  -- `gradedAt`, as an ISO string.
  pub graded_at : String

pub record GradeResult : Type 0 where
  pub corpus_version : String
  pub graded_at : String
  pub checks : List GradedCheck
  pub readiness : LaunchReadiness
  pub progress : List PhaseProgress

abbrev pub graded_checks : GradeInput → List GradedCheck
graded_checks input =
    map
      (λ check. grade_check check input.flags (group_evidence [] input.evidence) input.implemented)
      input.corpus.checks

abbrev pub states_of : List GradedCheck → States
states_of graded = insert_all (map (λ g. (g.check_id, to_check_state g none)) graded) []

module _ (date_parse : String → Option ℤ) (percent : ℕ → ℕ → ℕ) where
  unfoldable pub readiness_of : Corpus → States → String → LaunchReadiness × List PhaseProgress
  readiness_of corpus states graded_at = (
    compute_launch_readiness date_parse corpus.checks states (some graded_at),
    compute_progress date_parse percent corpus.checks states (some graded_at),
  )

  unfoldable pub grade_audit : GradeInput → GradeResult
  unfolding readiness_of
  grade_audit input =
      let checks = graded_checks input in
      let r = readiness_of input.corpus (states_of checks) input.graded_at in
      record {
        corpus_version = input.corpus.version;
        graded_at = input.graded_at;
        checks = checks;
        readiness = r.0;
        progress = r.1;
      }

-- `toEvidence`: `none` for the error that it throws when the lengths differ.
pair_evidence : List ProbeRun → List String → List Evidence
pair_evidence [] ids = []
pair_evidence (run ∷ runs) [] = record { run = run; result_id = none } ∷ pair_evidence runs []
pair_evidence (run ∷ runs) (id ∷ ids) =
    record { run = run; result_id = some id } ∷ pair_evidence runs ids

unfoldable pub to_evidence : List ProbeRun → List String → Option (List Evidence)
unfolding pair_evidence
to_evidence runs result_ids =
    if length runs == length result_ids then some (pair_evidence runs result_ids) else none
