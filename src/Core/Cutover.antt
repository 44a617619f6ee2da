-- ===== src/Core/Cutover.antt =====
-- packages/core/src/cutover.ts: both assessments of a release.
pub mod Ready
pub mod Preflight
use seo_optimizer.Prelude.{
  ℕ, zero, suc, ◌+◌, String, Bool, true, false, not, ◌&&◌, ◌||◌, Option, none, some, List, [], ◌∷◌,
  ◌++◌, map, ◌==◌, ltb, leb, str_eq, opt_str_eq, if◌then◌else◌, filter, length, get_or, is_some,
  lookup, concat, is_https_origin,
}
use seo_optimizer.Prelude.Int.{ℤ}
use seo_optimizer.Core.Check.{Check, CheckState, Corpus, is_passed, is_excluded, is_in_scope}
use seo_optimizer.Core.Readiness.{
  States, Decision, go, hold, LaunchReadiness, state_of, effective_state, compute_launch_readiness,
}
use seo_optimizer.Core.Review.{filled, instant, is_broken, read_review, null_or}
use seo_optimizer.Core.ReviewLog.{
  EvidenceClass, live, ReviewRun, ReviewState, ReviewContext, ReviewReading, evidence_class_of,
}
use seo_optimizer.Core.Release.{
  Binding, CutoverAuthorization, OwnerDecision, LaunchDecision, ReleaseRecord, ready_for_cutover,
  GateBlocker, Assessment, ready, not_ready, DecisionReading, no_decision, recorded, agrees,
  conflict, CutoverReadiness, owner_go, owner_hold, rollback,
}

-- The variables that the loop updates.
pub record GateTally : Type 0 where
  pub scope_errors : ℕ
  pub pre_outstanding : ℕ
  pub live_outstanding : ℕ
  pub pre_incomplete : ℕ
  pub live_incomplete : ℕ
  pub blockers : List GateBlocker

abbrev pub no_gates : ℕ → GateTally
no_gates scope_errors = record {
  scope_errors = scope_errors;
  pre_outstanding = 0;
  live_outstanding = 0;
  pre_incomplete = 0;
  live_incomplete = 0;
  blockers = [];
}

abbrev pub is_live : EvidenceClass → Bool
is_live live = true
is_live _ = false

abbrev pub is_current : ReviewState → Bool
is_current ReviewState.current = true
is_current _ = false

abbrev pub state_name : ReviewState → String
state_name ReviewState.not_reviewed = "not-reviewed"
state_name ReviewState.review_required = "review-required"
state_name ReviewState.ambiguous = "ambiguous"
state_name ReviewState.invalid = "invalid"
state_name ReviewState.reopened = "reopened"
state_name ReviewState.failed = "failed"
state_name ReviewState.overdue = "overdue"
state_name ReviewState.reconcile = "reconcile"
state_name ReviewState.unfinished = "unfinished"
state_name ReviewState.current = "current"

-- `isOrigin`.
abbrev is_origin : Option String → Bool
is_origin none = false
is_origin (some value) = filled (some value) && is_https_origin value

abbrev problem_unless : Bool → String → List String
problem_unless ok problem = if ok then [] else problem ∷ []

-- The two members that a gate's evidence may fail on.
abbrev pub late_or_missing : Option ℕ → Option ℕ → Bool
late_or_missing none tested = true
late_or_missing (some actual) tested = ltb (get_or tested 0) actual

abbrev add_if : Bool → ℕ → ℕ
add_if b n = if b then n + 1 else n

abbrev bound_to : ReleaseRecord → Option Binding → Bool
bound_to release none = false
bound_to release (some binding) =
    opt_str_eq binding.release_id release.release_id
    && opt_str_eq binding.scope_revision release.scope_revision
    && opt_str_eq binding.origin release.origin
    && opt_str_eq binding.assessment (some ready_for_cutover)

-- `approved <= authorized && authorized <= actual && actual <= assessed`, with the four there.
abbrev in_order : Option ℕ → Option ℕ → Option ℕ → Option ℕ → Bool
in_order (some approved) (some authorized) (some actual) (some assessed) =
    leb approved authorized && leb authorized actual && leb actual assessed
in_order _ _ _ _ = false

-- The counters and the list of one applicable gate.
abbrev pub tally_applicable : GateTally → Check → Bool → ReviewReading → String → GateTally
tally_applicable t check outstanding reading problem =
    let at_live = is_live (evidence_class_of check) in
    let incomplete = not (str_eq problem "") in
    record t {
      live_outstanding = add_if (outstanding && at_live) t.live_outstanding;
      pre_outstanding = add_if (outstanding && not at_live) t.pre_outstanding;
      live_incomplete = add_if (incomplete && at_live) t.live_incomplete;
      pre_incomplete = add_if (incomplete && not at_live) t.pre_incomplete;
      blockers =
          if outstanding || incomplete
          then t.blockers
            ++ record {
              check_id = check.id;
              evidence_class = evidence_class_of check;
              outstanding = outstanding;
              review_state = reading.state;
              evidence_problem = problem;
            }
              ∷ []
          else t.blockers;
    }

abbrev pub assessment_of : ℕ → GateTally → LaunchReadiness → Assessment
assessment_of input_errors t launch =
    if input_errors == 0
      && t.scope_errors == 0
      && launch.applicability_decisions_outstanding == 0
      && t.pre_outstanding == 0
      && t.pre_incomplete == 0
    then ready
    else not_ready

abbrev pub final_of : Assessment → GateTally → LaunchReadiness → (record_valid : Bool) → Decision
final_of not_ready t launch record_valid = hold
final_of ready t launch record_valid =
    if launch.gates_outstanding == 0 && t.live_incomplete == 0 && record_valid then go else hold

abbrev read_decision : OwnerDecision → Decision → DecisionReading
read_decision owner_go go = agrees
read_decision owner_go hold = conflict
read_decision owner_hold final = recorded
read_decision rollback final = recorded

abbrev pub decision_reading : Option LaunchDecision → Decision → DecisionReading
decision_reading none final = no_decision
decision_reading (some record_) final = read_decision record_.decision final

abbrev pub context_of : Corpus → ReleaseRecord → ReviewContext
context_of corpus release = record {
  release_id = release.release_id;
  scope_revision = release.scope_revision;
  origin = release.origin;
  assessed_at = release.assessed_at;
  criteria_revision = λ check. get_or (lookup check.id release.criteria) corpus.version;
}

abbrev pub known_ids : Corpus → List String
known_ids corpus = map (λ (check : Check). check.id) corpus.checks

module _ (date_parse : String → Option ℤ) where
  -- `releaseProblems`.
  unfoldable pub release_problems : ReleaseRecord → List String
  unfolding instant filled
  release_problems release =
      let assessed = instant date_parse release.assessed_at in
      let approved = instant date_parse release.scope_approved_at in
      problem_unless (filled release.release_id) "release id"
      ++ problem_unless (filled release.scope_revision) "scope revision"
      ++ problem_unless (is_origin release.origin) "target production origin"
      ++ problem_unless (filled release.scope_approver) "scope approver"
      ++ problem_unless (not (null_or approved (λ a. null_or assessed (λ n. ltb n a))))
          "scope approval time"
      ++ problem_unless (filled release.scope_approval_evidence) "scope approval evidence"
      ++ problem_unless (filled release.decision_owner) "decision owner"
      ++ problem_unless (is_some assessed) "assessment time"

  unfoldable pub cutover_record_valid : ReleaseRecord → Bool
  unfolding instant filled
  cutover_record_valid release = elim release.cutover [
    | none ↦ false
    | some cutover ↦
        in_order (instant date_parse release.scope_approved_at)
          (instant date_parse cutover.authorized_at) (instant date_parse cutover.cutover_at)
          (instant date_parse release.assessed_at)
        && filled cutover.authorizer
        && filled cutover.decision_reference
        && bound_to release cutover.binding
  ]

  abbrev pub tested_time : Option ReviewRun → Option ℕ
  tested_time none = none
  tested_time (some run) = instant date_parse (some run.tested_at)

  -- `evidenceProblem`, empty where the evidence is complete.
  abbrev pub evidence_problem : Option ℕ → Check → ReviewReading → String
  evidence_problem cutover_at check reading =
      if not (is_current reading.state)
      then concat ("current review required: " ∷ state_name reading.state ∷ [])
      else if is_live (evidence_class_of check)
          && late_or_missing cutover_at (tested_time reading.latest)
      then "live test predates or lacks actual cutover"
      else ""

  abbrev pub cutover_time : ReleaseRecord → Option ℕ
  cutover_time release = elim release.cutover [
    | none ↦ none
    | some cutover ↦ instant date_parse cutover.cutover_at
  ]

  -- One round of the loop, for a check with its effective state.
  abbrev pub tally_gate : GateTally → Check → CheckState → ReviewReading → Option ℕ → GateTally
  tally_gate t check state reading cutover_at =
      if not check.launch_gate
      then t
      else if is_excluded state.applicability
      then record t {
        scope_errors = add_if (not (filled state.applicability_rationale)) t.scope_errors;
      }
      else if not (is_in_scope state.applicability)
      then t
      else tally_applicable t check (not (is_passed state.status)) reading
          (evidence_problem cutover_at check reading)

  unfoldable pub gate_state : States → ReleaseRecord → Check → CheckState
  gate_state states release check =
      effective_state date_parse (state_of states check) release.assessed_at

  unfoldable pub gate_review : Corpus → States → ReleaseRecord → Check → ReviewReading
  unfolding gate_state
  gate_review corpus states release check =
      read_review date_parse check (gate_state states release check) release.reviews
        (context_of corpus release) (known_ids corpus)

  unfoldable pub tally_gates : Corpus → States → ReleaseRecord → GateTally → List Check → GateTally
  unfolding gate_state gate_review
  tally_gates corpus states release t [] = t
  tally_gates corpus states release t (check ∷ checks) =
      tally_gates corpus states release
        (tally_gate t check (gate_state states release check)
          (gate_review corpus states release check) (cutover_time release))
        checks

  abbrev pub input_errors_of : Corpus → ReleaseRecord → ℕ
  input_errors_of corpus release = length (
      filter (is_broken date_parse release.reviews (known_ids corpus) release.assessed_at)
        release.reviews)

  unfoldable pub compute_cutover_readiness : Corpus → States → ReleaseRecord → CutoverReadiness
  unfolding tally_gates release_problems cutover_record_valid
  compute_cutover_readiness corpus states release =
      let first = compute_launch_readiness date_parse corpus.checks states release.assessed_at in
      let problems = release_problems release in
      let t = tally_gates corpus states release (no_gates (length problems)) corpus.checks in
      let errors = input_errors_of corpus release in
      let assessment = assessment_of errors t first in
      let valid = cutover_record_valid release in
      let final = final_of assessment t first valid in
      record {
        cutover = assessment;
        final = final;
        input_errors = errors;
        pre_cutover_gates_outstanding = t.pre_outstanding;
        live_gates_outstanding = t.live_outstanding;
        pre_cutover_evidence_incomplete = t.pre_incomplete;
        live_evidence_incomplete = t.live_incomplete;
        cutover_record_valid = valid;
        scope_errors = t.scope_errors;
        scope_problems = problems;
        launch = first;
        blockers = t.blockers;
        launch_decision = decision_reading release.launch_decision final;
      }
