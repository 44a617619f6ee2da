-- ===== src/Core/Check.antt =====
-- packages/core/src/check.ts and state.ts. The fields that only a report prints are left out
-- (`phaseLabel`, `priority`, `profile`, `task`, `whatToDo`, `doneWhen`, `owners`, `ownerSource`,
-- `tools`, `cadence`, `notes`, `remediationClass`, `sources`, and the rule's `source`).
use seo_optimizer.Prelude.{ℕ, String, Bool, true, false, Option, List}

pub data Applicability : Type 0 where
  in_scope excluded review : Applicability

pub data CheckStatus : Type 0 where
  not_started in_progress passed failed skipped : CheckStatus

pub data AutomationTier : Type 0 where
  automated assisted attested_only : AutomationTier

pub data Coverage : Type 0 where
  verified attested unknown not_applicable : Coverage

pub record ApplicabilityRule : Type 0 where
  pub universal : Bool
  pub any_of : List String

pub record Check : Type 0 where
  pub id : String
  pub phase : ℕ
  pub launch_gate : Bool
  pub applicability : ApplicabilityRule
  pub automation : AutomationTier
  pub detectors : List String

pub record Corpus : Type 0 where
  pub version : String
  pub checks : List Check

pub record CheckState : Type 0 where
  pub check_id : String
  pub applicability : Applicability
  pub applicability_rationale : Option String
  pub status : CheckStatus
  pub coverage : Coverage
  pub evidence : Option String
  pub evidence_ref : Option String
  pub attestation_expires_at : Option String

abbrev pub is_passed : CheckStatus → Bool
is_passed passed = true
is_passed _ = false

abbrev pub is_failed : CheckStatus → Bool
is_failed failed = true
is_failed _ = false

abbrev pub is_skipped : CheckStatus → Bool
is_skipped skipped = true
is_skipped _ = false

abbrev pub is_excluded : Applicability → Bool
is_excluded excluded = true
is_excluded _ = false

abbrev pub is_review : Applicability → Bool
is_review review = true
is_review _ = false

abbrev pub is_in_scope : Applicability → Bool
is_in_scope in_scope = true
is_in_scope _ = false

abbrev pub is_attested : Coverage → Bool
is_attested attested = true
is_attested _ = false
