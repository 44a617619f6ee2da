-- ===== src/Grader/Types.antt =====
-- packages/grader/src/types.ts, and of packages/probes/src/types.ts what the grader reads.
use seo_optimizer.Prelude.{
  ℕ, String, Option, none, some, List, [], ◌∷◌, concat, str_eq, if◌then◌else◌,
}
use seo_optimizer.Core.Check.{Applicability, CheckStatus, Coverage, CheckState}

pub data Outcome : Type 0 where
  pass fail warn not_applicable error : Outcome

-- An observation's other fields are the report's.
pub record ProbeRun : Type 0 where
  pub probe_id : String
  pub outcome : Outcome

pub record Evidence : Type 0 where
  pub run : ProbeRun
  pub result_id : Option String

pub data GradeBasis : Type 0 where
  out_of_scope scope_undecided attested_only detectors_missing probe_error : GradeBasis
  no_observation verified_fail verified_pass nothing_to_verify : GradeBasis
  held_by_warning awaiting_confirmation : GradeBasis

pub record ObservationCounts : Type 0 where
  pub pass : ℕ
  pub fail : ℕ
  pub warn : ℕ
  pub not_applicable : ℕ
  pub error : ℕ

pub record GradedCheck : Type 0 where
  pub check_id : String
  pub applicability : Applicability
  pub applicability_rationale : Option String
  pub status : CheckStatus
  pub coverage : Coverage
  pub basis : GradeBasis
  pub summary : String
  pub evidence_ids : List String
  pub counts : ObservationCounts

-- core/src/review.ts, `evidenceReference`.
unfoldable pub evidence_reference : String → String → String
evidence_reference audit_id check_id = concat ("audit:" ∷ audit_id ∷ "#" ∷ check_id ∷ [])

unfoldable pub to_check_state : GradedCheck → Option String → CheckState
unfolding evidence_reference
to_check_state graded audit_id = record {
  check_id = graded.check_id;
  applicability = graded.applicability;
  applicability_rationale = graded.applicability_rationale;
  status = graded.status;
  coverage = graded.coverage;
  evidence = if str_eq graded.summary "" then none else some graded.summary;
  evidence_ref = elim audit_id [
    | none ↦ none
    | some audit ↦ some (evidence_reference audit graded.check_id)
  ];
  attestation_expires_at = none;
}
