-- ===== src/Core/ReviewLog.antt =====
-- packages/core/src/review.ts: the review log's records. Environments and results come from stored rows,
-- so a value that is none of the known ones is possible.
use seo_optimizer.Prelude.{String, Bool, true, false, Option, ◌==◌, if◌then◌else◌}
use seo_optimizer.Core.Check.{CheckStatus, Check}

pub data EvidenceClass : Type 0 where
  planning preflight live : EvidenceClass

abbrev pub evidence_class_of : Check → EvidenceClass
evidence_class_of check =
    if check.phase == 0
    then EvidenceClass.planning
    else if check.phase == 5
    then EvidenceClass.live
    else EvidenceClass.preflight

pub data ReviewEnvironment : Type 0 where
  planning pre_production production : ReviewEnvironment
  other_environment : String → ReviewEnvironment

abbrev pub is_production : ReviewEnvironment → Bool
is_production ReviewEnvironment.production = true
is_production _ = false

abbrev pub environment_fits : EvidenceClass → ReviewEnvironment → Bool
environment_fits EvidenceClass.planning ReviewEnvironment.planning = true
environment_fits EvidenceClass.planning _ = false
environment_fits EvidenceClass.live environment = is_production environment
environment_fits EvidenceClass.preflight ReviewEnvironment.pre_production = true
environment_fits EvidenceClass.preflight environment = is_production environment

pub data ReviewResult : Type 0 where
  status : CheckStatus → ReviewResult
  reopened : ReviewResult
  other_result : String → ReviewResult

pub record ReviewRun : Type 0 where
  pub run_id : String
  pub check_id : String
  pub release_id : String
  pub scope_revision : String
  pub criteria_revision : String
  pub origin : String
  pub environment : ReviewEnvironment
  pub tested_at : String
  pub tester : String
  pub result : ReviewResult
  pub evidence : String
  pub reviewed_by : String
  pub reviewed_at : String
  pub next_review_at : Option String
  pub event_trigger : Option String

pub data ReviewState : Type 0 where
  not_reviewed review_required ambiguous invalid reopened failed overdue reconcile unfinished
        current :
      ReviewState

pub record ReviewContext : Type 0 where
  pub release_id : Option String
  pub scope_revision : Option String
  pub origin : Option String
  pub assessed_at : Option String
  pub criteria_revision : Check → String

-- The latest run is kept when exactly one exists.
pub record ReviewReading : Type 0 where
  pub state : ReviewState
  pub latest : Option ReviewRun
