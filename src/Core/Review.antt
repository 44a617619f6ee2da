-- ===== src/Core/Review.antt =====
-- packages/core/src/review.ts: the data checks on a review run, and the review state of a check.
pub mod Current
use seo_optimizer.Prelude.{
  ℕ, zero, suc, String, Bool, true, false, not, ◌&&◌, ◌||◌, Option, none, some, List, [], ◌∷◌, ◌==◌,
  ltb, leb, str_eq, opt_str_eq, has, if◌then◌else◌, filter, any, count_if, length, is_some, concat,
  trim, lower_is, has_wildcard,
}
use seo_optimizer.Prelude.Int.{ℤ, pos, negsuc}
use seo_optimizer.Core.Check.{
  CheckStatus, Check, CheckState, not_started, in_progress, passed, skipped, is_passed,
}
use seo_optimizer.Core.ReviewLog.{
  EvidenceClass, ReviewEnvironment, ReviewResult, ReviewRun, ReviewState, ReviewContext,
  ReviewReading, evidence_class_of, environment_fits, is_production, live, invalid, overdue,
  reconcile, unfinished, current, ambiguous, review_required, not_reviewed,
}

abbrev says_something : String → Bool
says_something text = not (str_eq text "") && not (lower_is text "tbd") && not (lower_is text "n/a")

-- A no-break space is white space for `trim` as well.
unfoldable pub filled : Option String → Bool
filled none = false
filled (some value) = says_something (trim value)

abbrev pub is_value : Option String → String → Bool
is_value none value = false
is_value (some expected) value = str_eq value expected

abbrev pub cites_evidence : ReviewRun → CheckState → Bool
cites_evidence run state =
    is_value state.evidence run.evidence
    || filled state.evidence_ref && is_value state.evidence_ref run.evidence

abbrev positive : Option ℤ → Option ℕ
positive (some (pos (suc n))) = some (suc n)
positive (some (pos zero)) = none
positive (some (negsuc n)) = none
positive none = none

abbrev pub is_passed_result : ReviewResult → Bool
is_passed_result (ReviewResult.status s) = is_passed s
is_passed_result ReviewResult.reopened = false
is_passed_result (ReviewResult.other_result name) = false

abbrev pub is_reopened : ReviewResult → Bool
is_reopened ReviewResult.reopened = true
is_reopened _ = false

abbrev is_failed_result : ReviewResult → Bool
is_failed_result (ReviewResult.status CheckStatus.failed) = true
is_failed_result _ = false

abbrev same_status : CheckStatus → CheckStatus → Bool
same_status not_started not_started = true
same_status in_progress in_progress = true
same_status passed passed = true
same_status CheckStatus.failed CheckStatus.failed = true
same_status skipped skipped = true
same_status _ _ = false

-- `state.status === run.result`.
abbrev pub is_result : ReviewResult → CheckStatus → Bool
is_result (ReviewResult.status s) t = same_status t s
is_result _ t = false

-- The first of the required fields that is not filled.
abbrev missing : List (String × String) → Option String
missing [] = none
missing ((field, value) ∷ fields) =
    let rest = missing fields in
    if not (filled (some value)) then some (concat ("missing " ∷ field ∷ [])) else rest

abbrev required : ReviewRun → List (String × String)
required run =
    ("runId", run.run_id)
    ∷ ("checkId", run.check_id)
    ∷ ("releaseId", run.release_id)
    ∷ ("scopeRevision", run.scope_revision)
    ∷ ("criteriaRevision", run.criteria_revision)
    ∷ ("origin", run.origin)
    ∷ ("tester", run.tester)
    ∷ ("evidence", run.evidence)
    ∷ ("reviewedBy", run.reviewed_by)
    ∷ []

-- `unknown environment` and `unknown result`.
abbrev unknown_environment : ReviewEnvironment → Option String
unknown_environment (ReviewEnvironment.other_environment name) =
    some (concat ("unknown environment " ∷ name ∷ []))
unknown_environment _ = none

abbrev unknown_result : ReviewResult → Option String
unknown_result (ReviewResult.other_result name) = some (concat ("unknown result " ∷ name ∷ []))
unknown_result _ = none

-- `a === null || ...`.
abbrev pub null_or : Option ℕ → (ℕ → Bool) → Bool
null_or none p = true
null_or (some n) p = p n

-- The first problem of two.
abbrev or_else : Option String → Option String → Option String
or_else none b = b
or_else (some problem) b = some problem

abbrev problem_if : Bool → String → Option String
problem_if b problem = if b then some problem else none

unfoldable pub in_current_context : ReviewRun → Check → ReviewContext → Bool
in_current_context run check context =
    filled context.release_id
    && is_value context.release_id run.release_id
    && filled context.scope_revision
    && is_value context.scope_revision run.scope_revision
    && filled context.origin
    && is_value context.origin run.origin
    && str_eq run.criteria_revision (context.criteria_revision check)
    && environment_fits (evidence_class_of check) run.environment

-- `Math.max` of two instants; `none` is -Infinity.
abbrev later_of : Option ℕ → Option ℕ → Option ℕ
later_of none b = b
later_of (some a) none = some a
later_of (some a) (some b) = if ltb a b then some b else some a

abbrev pub same_instant : Option ℕ → Option ℕ → Bool
same_instant none b = false
same_instant (some a) none = false
same_instant (some a) (some b) = a == b

-- What `readReview` says without a latest run.
abbrev pub unread : CheckStatus → ReviewReading
unread recorded = record {
  state = if is_passed recorded then review_required else not_reviewed;
  latest = none;
}

abbrev pub is_overdue : Option ℕ → Option ℕ → Bool
is_overdue none assessed = false
is_overdue (some next) none = false
is_overdue (some next) (some assessed) = ltb next assessed

abbrev pub own_runs : Check → List ReviewRun → List ReviewRun
own_runs check runs = filter (λ run. str_eq run.check_id check.id) runs

abbrev pub current_runs : Check → ReviewContext → List ReviewRun → List ReviewRun
current_runs check context runs =
    filter (λ run. in_current_context run check context) (own_runs check runs)

module _ (date_parse : String → Option ℤ) where
  unfoldable pub instant : Option String → Option ℕ
  instant none = none
  instant (some value) = if str_eq (trim value) "" then none else positive (date_parse value)

  abbrev time_problem : ReviewRun → Option String → Option String
  time_problem run assessed_at =
      let tested = instant (some run.tested_at) in
      let reviewed = instant (some run.reviewed_at) in
      or_else (problem_if (not (is_some tested)) "invalid tested time") (
        or_else
          (problem_if (null_or reviewed (λ r. null_or tested (λ t. ltb r t)))
            "review time missing or before the test")
          (problem_if (null_or (instant assessed_at) (λ a. null_or reviewed (λ r. ltb a r)))
            "review time after the assessment"))

  -- `run.nextReviewAt !== undefined && run.nextReviewAt !== ''`, and then not after the test.
  abbrev next_problem : ReviewRun → Option String → Option String
  next_problem run none = none
  next_problem run (some text) =
      problem_if
        (not (str_eq text "")
          && null_or (instant (some text))
              (λ n. null_or (instant (some run.tested_at)) (λ t. leb n t)))
        "next review not after the test"

  abbrev result_problem : ReviewRun → Option String
  result_problem run =
      or_else
        (problem_if
          (is_passed_result run.result
            && not (is_some (instant run.next_review_at))
            && not (filled run.event_trigger))
          "a passed run needs a next review time or an event trigger")
        (problem_if (is_reopened run.result && not (filled run.event_trigger))
          "a reopened run needs the event that reopened it")

  unfoldable pub review_run_problem : ReviewRun → List String → Option String → Option String
  review_run_problem run known_checks assessed_at = or_else (missing (required run)) (
      or_else (problem_if (has_wildcard run.run_id) "run id holds a wildcard character") (
        or_else
          (problem_if (not (has known_checks run.check_id))
            (concat ("unknown check " ∷ run.check_id ∷ [])))
          (or_else (unknown_environment run.environment) (
            or_else (unknown_result run.result) (
              or_else (time_problem run assessed_at)
                (or_else (next_problem run run.next_review_at) (result_problem run)))))))

  -- The loop for `newest`, and the runs that were tested then.
  abbrev newest_of : Option ℕ → List ReviewRun → Option ℕ
  newest_of newest [] = newest
  newest_of newest (run ∷ runs) = newest_of (later_of newest (instant (some run.tested_at))) runs

  abbrev pub latest_of : List ReviewRun → List ReviewRun
  latest_of runs =
      filter (λ run. same_instant (instant (some run.tested_at)) (newest_of none runs)) runs

  -- A run that the data checks refuse, or whose id is not its own. The map `ids` counts the runs by id.
  abbrev pub is_broken : List ReviewRun → List String → Option String → ReviewRun → Bool
  is_broken runs known_checks assessed_at run =
      ltb 1 (count_if (λ other. str_eq other.run_id run.run_id) runs)
      || is_some (review_run_problem run known_checks assessed_at)

  -- The tests on the one latest run, in order.
  abbrev pub state_of_run : Bool → CheckState → ReviewContext → ReviewRun → ReviewState
  state_of_run broken state context run =
      if broken
      then invalid
      else if is_reopened run.result
      then ReviewState.reopened
      else if is_failed_result run.result
      then ReviewState.failed
      else if is_overdue (instant run.next_review_at) (instant context.assessed_at)
      then overdue
      else if not (is_result run.result state.status) || not (cites_evidence run state)
      then reconcile
      else if is_passed_result run.result
      then current
      else unfinished

  abbrev pub read_latest : CheckState → ReviewContext → Bool → List ReviewRun → ReviewReading
  read_latest state context broken [] = unread state.status
  read_latest state context broken (run ∷ []) = record {
    state = state_of_run broken state context run;
    latest = some run;
  }
  read_latest state context broken (run ∷ other ∷ more) = record {
    state = ambiguous;
    latest = none;
  }

  unfoldable pub read_review :
      Check → CheckState → List ReviewRun → ReviewContext → List String → ReviewReading
  unfolding instant review_run_problem
  read_review check state runs context known_checks =
      read_latest state context
        (any (is_broken runs known_checks context.assessed_at) (own_runs check runs))
        (latest_of (current_runs check context runs))
