-- ===== src/Core/Examples.antt =====
-- The results on packages/core/src at a small site: a preflight gate, a live gate, and a release with a
-- review of each.
use seo_optimizer.Prelude.{
  ℕ, ◌≡◌, refl, String, true, Option, none, some, List, [], ◌∷◌, str_eq, if◌then◌else◌, length,
  count_if, All,
}
use seo_optimizer.Prelude.Int.{ℤ, pos}
use seo_optimizer.Core.Check.{Check, CheckState, Corpus, in_scope, passed, automated, attested}
use seo_optimizer.Core.Readiness.{States, go, state_of, compute_launch_readiness, effective_state}
use seo_optimizer.Core.Readiness.Launch.{
  Clears, is_outstanding, compute_launch_readiness-counts, decision-go_iff, decision-go_unlapsed,
  effective_state_lem,
}
use seo_optimizer.Core.ReviewLog.{ReviewRun, ReviewEnvironment, ReviewResult, current}
use seo_optimizer.Core.Review.{read_review, in_current_context, instant, filled}
use seo_optimizer.Core.Review.Current.{read_review-IsCurrent, IsCurrent}
use seo_optimizer.Core.Release.{ReleaseRecord, ready}
use seo_optimizer.Core.Cutover.{
  compute_cutover_readiness, release_problems, cutover_record_valid, gate_state, gate_review,
  known_ids, context_of,
}
use seo_optimizer.Core.Cutover.Preflight.{Prepared, cutover-ready_iff}
use seo_optimizer.Core.Cutover.Ready.{Proved, final-go_iff}

-- A clock that reads six instants.
abbrev dates : String → Option ℤ
dates text =
    if str_eq text "t1"
    then some (pos 1000)
    else if str_eq text "t2"
    then some (pos 2000)
    else if str_eq text "t3"
    then some (pos 3000)
    else if str_eq text "t4"
    then some (pos 4000)
    else if str_eq text "t5"
    then some (pos 5000)
    else if str_eq text "t6"
    then some (pos 6000)
    else none

abbrev gate : String → ℕ → Check
gate id phase = record {
  id = id;
  phase = phase;
  launch_gate = true;
  applicability = record { universal = true; any_of = [] };
  automation = automated;
  detectors = [];
}

abbrev corpus : Corpus
corpus = record { version = "5.0"; checks = gate "4.1" 4 ∷ gate "5.1" 5 ∷ [] }

abbrev passed_state : String → CheckState
passed_state id = record {
  check_id = id;
  applicability = in_scope;
  applicability_rationale = none;
  status = passed;
  coverage = attested;
  evidence = some "ticket 12";
  evidence_ref = none;
  attestation_expires_at = some "t6";
}

abbrev states : States
states = ("4.1", passed_state "4.1") ∷ ("5.1", passed_state "5.1") ∷ []

abbrev run_of : String → String → String → ReviewEnvironment → String → String → ReviewRun
run_of run_id check_id criteria environment tested reviewed = record {
  run_id = run_id;
  check_id = check_id;
  release_id = "r1";
  scope_revision = "s1";
  criteria_revision = criteria;
  origin = "https://shop.example";
  environment = environment;
  tested_at = tested;
  tester = "Ada";
  result = ReviewResult.status passed;
  evidence = "ticket 12";
  reviewed_by = "Grace";
  reviewed_at = reviewed;
  next_review_at = some "t6";
  event_trigger = none;
}

abbrev runs : List ReviewRun
runs =
    run_of "a" "4.1" "5.0" ReviewEnvironment.pre_production "t1" "t2"
    ∷ run_of "b" "5.1" "5.0" ReviewEnvironment.production "t4" "t5"
    ∷ []

abbrev release : ReleaseRecord
release = record {
  release_id = some "r1";
  scope_revision = some "s1";
  origin = some "https://shop.example";
  scope_approver = some "Grace";
  scope_approved_at = some "t1";
  scope_approval_evidence = some "ticket 3";
  decision_owner = some "Ada";
  assessed_at = some "t5";
  criteria = [];
  cutover = some (record {
    authorizer = some "Ada";
    authorized_at = some "t2";
    decision_reference = some "ticket 9";
    cutover_at = some "t3";
    binding = some (record {
      release_id = some "r1";
      scope_revision = some "s1";
      origin = some "https://shop.example";
      assessment = some "READY FOR CUTOVER";
    });
  });
  launch_decision = none;
  reviews = runs;
}

says_go : (compute_cutover_readiness dates corpus states release).final ≡ go
unfolding compute_cutover_readiness compute_launch_readiness gate_state gate_review read_review
    effective_state instant filled state_of in_current_context
says_go = refl

launches : (compute_launch_readiness dates corpus.checks states (some "t5")).decision ≡ go
unfolding compute_launch_readiness effective_state state_of
launches = refl

final-go_iff_example :
    ((compute_cutover_readiness dates corpus states release).input_errors ≡ 0)
    × (length (release_problems dates release) ≡ 0)
    × (cutover_record_valid dates release ≡ true)
    × All (Proved dates corpus states release) corpus.checks
final-go_iff_example = (final-go_iff dates corpus states release).0 says_go

compute_launch_readiness-counts_example :
    (compute_launch_readiness dates corpus.checks states (some "t5")).gates_outstanding
    ≡ count_if (is_outstanding dates states (some "t5")) corpus.checks
compute_launch_readiness-counts_example =
    (compute_launch_readiness-counts dates states (some "t5") corpus.checks).0

decision-go_iff_example : All (Clears dates states (some "t5")) corpus.checks
decision-go_iff_example = (decision-go_iff dates states (some "t5") corpus.checks).0 launches

decision-go_unlapsed_example :
    ((compute_launch_readiness dates corpus.checks states (some "t5")).attestations_lapsed ≡ 0)
    × ((compute_launch_readiness dates corpus.checks states none).decision ≡ go)
decision-go_unlapsed_example = decision-go_unlapsed dates states (some "t5") corpus.checks launches

reads_current :
    (read_review dates
      (gate "4.1" 4)
      (passed_state "4.1")
      runs
      (context_of corpus release)
      (known_ids corpus)).state
    ≡ current
unfolding read_review instant filled in_current_context
reads_current = refl

read_review-IsCurrent_example :
    (run : ReviewRun) × ((read_review dates
        (gate "4.1" 4)
        (passed_state "4.1")
        runs
        (context_of corpus release)
        (known_ids corpus)).latest
      ≡ some run)
    × IsCurrent dates
        (gate "4.1" 4)
        (passed_state "4.1")
        runs
        (context_of corpus release)
        (known_ids corpus)
        run
read_review-IsCurrent_example =
    read_review-IsCurrent dates (gate "4.1" 4) (passed_state "4.1") runs (context_of corpus release)
      (known_ids corpus) reads_current

-- An attestation that ran out at t6, read then.
effective_state_lem_example :
    (effective_state dates (passed_state "4.1") (some "t6")).applicability ≡ in_scope
effective_state_lem_example = (effective_state_lem dates (passed_state "4.1") (some "t6")).1

is_ready : (compute_cutover_readiness dates corpus states release).cutover ≡ ready
unfolding compute_cutover_readiness compute_launch_readiness gate_state gate_review read_review
    effective_state instant filled state_of in_current_context
is_ready = refl

cutover-ready_iff_example :
    ((compute_cutover_readiness dates corpus states release).input_errors ≡ 0)
    × (length (release_problems dates release) ≡ 0)
    × All (Prepared dates corpus states release) corpus.checks
cutover-ready_iff_example = (cutover-ready_iff dates corpus states release).0 is_ready
