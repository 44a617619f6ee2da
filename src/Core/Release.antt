-- ===== src/Core/Release.antt =====
-- packages/core/src/cutover.ts: the release record and what is read of it. An absent `criteria` or
-- `reviews` is an empty one.
use seo_optimizer.Prelude.{ℕ, String, Bool, Option, List}
use seo_optimizer.Core.Readiness.{Decision, LaunchReadiness}
use seo_optimizer.Core.ReviewLog.{EvidenceClass, ReviewRun, ReviewState}

pub record Binding : Type 0 where
  pub release_id : Option String
  pub scope_revision : Option String
  pub origin : Option String
  pub assessment : Option String

pub record CutoverAuthorization : Type 0 where
  pub authorizer : Option String
  pub authorized_at : Option String
  pub decision_reference : Option String
  pub cutover_at : Option String
  pub binding : Option Binding

pub data OwnerDecision : Type 0 where
  owner_go owner_hold rollback : OwnerDecision

pub record LaunchDecision : Type 0 where
  pub decision : OwnerDecision
  pub decided_by : String
  pub decided_at : String

pub record ReleaseRecord : Type 0 where
  pub release_id : Option String
  pub scope_revision : Option String
  pub origin : Option String
  pub scope_approver : Option String
  pub scope_approved_at : Option String
  pub scope_approval_evidence : Option String
  pub decision_owner : Option String
  pub assessed_at : Option String
  pub criteria : List (String × String)
  pub cutover : Option CutoverAuthorization
  pub launch_decision : Option LaunchDecision
  pub reviews : List ReviewRun

abbrev pub ready_for_cutover : String
ready_for_cutover = "READY FOR CUTOVER"

pub record GateBlocker : Type 0 where
  pub check_id : String
  pub evidence_class : EvidenceClass
  pub outstanding : Bool
  pub review_state : ReviewState
  pub evidence_problem : String

pub data Assessment : Type 0 where
  ready not_ready : Assessment

-- `'none'`, `'recorded'`, `'agrees'` and `'conflict'`.
pub data DecisionReading : Type 0 where
  no_decision recorded agrees conflict : DecisionReading

pub record CutoverReadiness : Type 0 where
  pub cutover : Assessment
  pub final : Decision
  pub input_errors : ℕ
  pub pre_cutover_gates_outstanding : ℕ
  pub live_gates_outstanding : ℕ
  pub pre_cutover_evidence_incomplete : ℕ
  pub live_evidence_incomplete : ℕ
  pub cutover_record_valid : Bool
  pub scope_errors : ℕ
  pub scope_problems : List String
  pub launch : LaunchReadiness
  pub blockers : List GateBlocker
  pub launch_decision : DecisionReading
