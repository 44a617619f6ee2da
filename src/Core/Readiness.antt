-- ===== src/Core/Readiness.antt =====
-- packages/core/src/readiness.ts. `date_parse` is the engine's `Date.parse`, `none` for NaN.
-- `percent passed active` is the rounded quotient `Math.round((passed / active) * 100)`, computed
-- in floating point.
pub mod Launch
use seo_optimizer.Prelude.{
  ℕ, suc, ◌+◌, String, Bool, true, false, not, ◌&&◌, ◌||◌, Option, none, some, List, [], ◌∷◌, ◌++◌,
  map, ◌==◌, leb, ltb, str_eq, if◌then◌else◌, lookup, filter, concat,
}
use seo_optimizer.Prelude.Int.{ℤ, leb_ℤ}
use seo_optimizer.Core.Check.{
  Applicability, CheckStatus, Coverage, Check, CheckState, in_scope, excluded, review, not_started,
  in_progress, passed, failed, skipped, unknown, is_passed, is_failed, is_skipped, is_excluded,
  is_review, is_in_scope, is_attested,
}

pub data ViolationKind : Type 0 where
  skipped_applicable_gate excluded_without_rationale : ViolationKind

pub record IntegrityViolation : Type 0 where
  pub check_id : String
  pub kind : ViolationKind
  pub message : String

pub data Decision : Type 0 where
  go hold : Decision

pub record LaunchReadiness : Type 0 where
  pub decision : Decision
  pub gates_outstanding : ℕ
  pub gates_failed : ℕ
  pub applicability_decisions_outstanding : ℕ
  pub attestations_lapsed : ℕ
  pub violations : List IntegrityViolation

pub record PhaseProgress : Type 0 where
  pub phase : ℕ
  pub active : ℕ
  pub not_started : ℕ
  pub in_progress : ℕ
  pub passed : ℕ
  pub failed : ℕ
  pub skipped : ℕ
  pub percent_complete : ℕ
  pub scope_review : ℕ

abbrev pub States : Type 0
States = List (String × CheckState)

default_state : Check → CheckState
default_state check = record {
  check_id = check.id;
  applicability = if check.applicability.universal then in_scope else review;
  applicability_rationale = none;
  status = not_started;
  coverage = unknown;
  evidence = none;
  evidence_ref = none;
  attestation_expires_at = none;
}

unfoldable pub state_of : States → Check → CheckState
unfolding default_state
state_of states check = elim (lookup check.id states) [
  | none ↦ default_state check
  | some state ↦ state
]

module _ (date_parse : String → Option ℤ) where
  -- The part of `attestationLapsed` behind its guards, at the parsed assessment time.
  expired_by : Option String → ℤ → Bool
  expired_by none now = true
  expired_by (some text) now = elim (date_parse text) [
    | none ↦ true
    | some expires ↦ leb_ℤ expires now
  ]

  unfoldable pub attestation_lapsed : CheckState → Option String → Bool
  unfolding expired_by
  attestation_lapsed state none = false
  attestation_lapsed state (some assessed_at) =
      if not (is_attested state.coverage) then false else elim (date_parse assessed_at) [
        | none ↦ false
        | some now ↦ expired_by state.attestation_expires_at now
      ]

  unfoldable pub effective_state : CheckState → Option String → CheckState
  unfolding attestation_lapsed
  effective_state state assessed_at =
      if not (attestation_lapsed state assessed_at) then state else record state {
        status = if is_passed state.status then in_progress else state.status;
        coverage = unknown;
      }

-- `!state.applicabilityRationale`: absent, or the empty string.
unfoldable pub lacks_rationale : Option String → Bool
lacks_rationale none = true
lacks_rationale (some text) = str_eq text ""

-- The variables that the loop of `computeLaunchReadiness` updates.
pub record Tally : Type 0 where
  pub gates_outstanding : ℕ
  pub gates_failed : ℕ
  pub applicability_decisions_outstanding : ℕ
  pub attestations_lapsed : ℕ
  pub violations : List IntegrityViolation

abbrev pub no_tally : Tally
no_tally = record {
  gates_outstanding = 0;
  gates_failed = 0;
  applicability_decisions_outstanding = 0;
  attestations_lapsed = 0;
  violations = [];
}

abbrev pub excluded_violation : Check → IntegrityViolation
excluded_violation check = record {
  check_id = check.id;
  kind = excluded_without_rationale;
  message =
      concat ("Check " ∷ check.id ∷ " was excluded from scope without a recorded rationale." ∷ []);
}

abbrev pub skipped_violation : Check → IntegrityViolation
skipped_violation check = record {
  check_id = check.id;
  kind = skipped_applicable_gate;
  message = concat (
      "Check " ∷ check.id ∷ " is an applicable launch gate and cannot be cleared "
      ∷ "with \"skipped\". Set applicability to \"no\" with a rationale instead." ∷ []);
}

-- The body of the loop, from the guard on `launchGate` on: an applicable launch gate.
tally_gate : Tally → Check → CheckState → CheckState → Tally
tally_gate t check recorded state = record t {
  gates_failed = if is_failed state.status then t.gates_failed + 1 else t.gates_failed;
  violations =
      if is_skipped state.status
      then t.violations ++ skipped_violation check ∷ []
      else t.violations;
  gates_outstanding =
      if not (is_passed state.status) then t.gates_outstanding + 1 else t.gates_outstanding;
  attestations_lapsed =
      if is_passed recorded.status && not (is_passed state.status)
      then t.attestations_lapsed + 1
      else t.attestations_lapsed;
}

tally_excluded : Tally → Check → CheckState → Tally
tally_excluded t check state =
    if is_excluded state.applicability && lacks_rationale state.applicability_rationale
    then record t { violations = t.violations ++ excluded_violation check ∷ [] }
    else t

tally_scoped : Tally → Check → CheckState → CheckState → Tally
unfolding tally_gate
tally_scoped t check recorded state =
    if not check.launch_gate
    then t
    else if is_review state.applicability
    then record t {
      applicability_decisions_outstanding = t.applicability_decisions_outstanding + 1;
    }
    else if is_excluded state.applicability
    then t
    else tally_gate t check recorded state

module _ (date_parse : String → Option ℤ) where
  -- One round of the loop.
  tally_check : States → Option String → Tally → Check → Tally
  unfolding tally_excluded tally_scoped
  tally_check states assessed_at t check =
      let recorded = state_of states check in
      let state = effective_state date_parse recorded assessed_at in
      tally_scoped (tally_excluded t check state) check recorded state

  tally_checks : States → Option String → Tally → List Check → Tally
  unfolding tally_check
  tally_checks states assessed_at t [] = t
  tally_checks states assessed_at t (check ∷ checks) =
      tally_checks states assessed_at (tally_check states assessed_at t check) checks

  unfoldable pub compute_launch_readiness : List Check → States → Option String → LaunchReadiness
  unfolding tally_checks
  compute_launch_readiness checks states assessed_at =
      let t = tally_checks states assessed_at no_tally checks in
      record {
        decision =
            if t.gates_outstanding == 0
              && t.gates_failed == 0
              && t.applicability_decisions_outstanding == 0
            then go
            else hold;
        gates_outstanding = t.gates_outstanding;
        gates_failed = t.gates_failed;
        applicability_decisions_outstanding = t.applicability_decisions_outstanding;
        attestations_lapsed = t.attestations_lapsed;
        violations = t.violations;
      }

-- `[...new Set(phases)].sort((a, b) => a - b)`.
has_phase : List ℕ → ℕ → Bool
has_phase [] n = false
has_phase (m ∷ ms) n = m == n || has_phase ms n

insert_phase : ℕ → List ℕ → List ℕ
insert_phase n [] = n ∷ []
insert_phase n (m ∷ ms) = if leb n m then n ∷ m ∷ ms else m ∷ insert_phase n ms

phases_of : List Check → List ℕ
phases_of [] = []
phases_of (check ∷ checks) =
    let rest = phases_of checks in
    if has_phase rest check.phase then rest else insert_phase check.phase rest

no_progress : ℕ → PhaseProgress
no_progress phase = record {
  phase = phase;
  active = 0;
  not_started = 0;
  in_progress = 0;
  passed = 0;
  failed = 0;
  skipped = 0;
  percent_complete = 0;
  scope_review = 0;
}

count_status : PhaseProgress → CheckStatus → PhaseProgress
count_status p not_started = record p { not_started = p.not_started + 1 }
count_status p in_progress = record p { in_progress = p.in_progress + 1 }
count_status p passed = record p { passed = p.passed + 1 }
count_status p failed = record p { failed = p.failed + 1 }
count_status p skipped = record p { skipped = p.skipped + 1 }

count_scoped : PhaseProgress → CheckState → PhaseProgress
unfolding count_status
count_scoped p state =
    let reviewed =
      (if is_review state.applicability
        then record p { scope_review = p.scope_review + 1 }
        else p) in
    if not (is_in_scope state.applicability)
    then reviewed
    else count_status (record reviewed { active = reviewed.active + 1 }) state.status

module _ (date_parse : String → Option ℤ) (percent : ℕ → ℕ → ℕ) where
  count_checks : States → Option String → PhaseProgress → List Check → PhaseProgress
  unfolding count_scoped
  count_checks states assessed_at p [] = p
  count_checks states assessed_at p (check ∷ checks) =
      count_checks states assessed_at
        (count_scoped p (effective_state date_parse (state_of states check) assessed_at)) checks

  phase_progress : List Check → States → Option String → ℕ → PhaseProgress
  unfolding count_checks no_progress
  phase_progress checks states assessed_at phase =
      let in_phase = filter (λ check. check.phase == phase) checks in
      let p = count_checks states assessed_at (no_progress phase) in_phase in
      record p { percent_complete = if p.active == 0 then 0 else percent p.passed p.active }

  unfoldable pub compute_progress : List Check → States → Option String → List PhaseProgress
  unfolding phase_progress phases_of insert_phase has_phase
  compute_progress checks states assessed_at =
      map (phase_progress checks states assessed_at) (phases_of checks)
