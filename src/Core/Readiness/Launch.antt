-- ===== src/Core/Readiness/Launch.antt =====
-- What `computeLaunchReadiness` decides, against a description that looks at each check alone.
use seo_optimizer.Prelude.{
  suc, ◌+◌, ◌≡◌, refl, sym, ap, ◌∙◌, String, Bool, true, false, not, ◌&&◌, Option, none, some, List,
  [], ◌∷◌, ◌++◌, ◌↔◌, ◌⊎◌, inl, inr, arith, count_if, All, Bool-cases, if◌then◌else◌, flat_map,
}
use seo_optimizer.Prelude.Int.{ℤ}
use seo_optimizer.Core.Check.{
  Check, CheckState, in_scope, excluded, passed, in_progress, unknown, is_passed, is_failed,
  is_skipped, is_excluded, is_review, is_in_scope,
}
use seo_optimizer.Core.Readiness.{
  States, Tally, IntegrityViolation, go, state_of, attestation_lapsed, effective_state,
  lacks_rationale, excluded_violation, skipped_violation, tally_check, tally_checks, no_tally,
  compute_launch_readiness,
}
use mathlib.Core.List.{append-nil, append_assoc}

module _ (date_parse : String → Option ℤ) (states : States) (assessed_at : Option String) where
  -- The state of a check as the assessment reads it.
  abbrev pub read_state : Check → CheckState
  read_state check = effective_state date_parse (state_of states check) assessed_at

  abbrev pub is_outstanding : Check → Bool
  is_outstanding check =
      check.launch_gate
      && is_in_scope (read_state check).applicability
      && not (is_passed (read_state check).status)

  abbrev pub is_failed_gate : Check → Bool
  is_failed_gate check =
      check.launch_gate
      && is_in_scope (read_state check).applicability
      && is_failed (read_state check).status

  abbrev pub is_undecided : Check → Bool
  is_undecided check = check.launch_gate && is_review (read_state check).applicability

  abbrev pub is_lapsed_gate : Check → Bool
  is_lapsed_gate check =
      check.launch_gate
      && is_in_scope (read_state check).applicability
      && is_passed (state_of states check).status
      && not (is_passed (read_state check).status)

  -- The violations of one check, each by the rule that it breaks.
  abbrev pub violations_of : Check → List IntegrityViolation
  violations_of check =
      (if is_excluded (read_state check).applicability
          && lacks_rationale (read_state check).applicability_rationale
        then excluded_violation check ∷ []
        else [])
      ++ (if check.launch_gate
            && is_in_scope (read_state check).applicability
            && is_skipped (read_state check).status
          then skipped_violation check ∷ []
          else [])

  tally_check-outstanding :
      (t : Tally) (c : Check)
      → (tally_check date_parse states assessed_at t c).gates_outstanding
        ≡ (if is_outstanding c then suc t.gates_outstanding else t.gates_outstanding)
  unfolding tally_check
  tally_check-outstanding t c = ground arith

  tally_check-failed :
      (t : Tally) (c : Check)
      → (tally_check date_parse states assessed_at t c).gates_failed
        ≡ (if is_failed_gate c then suc t.gates_failed else t.gates_failed)
  unfolding tally_check
  tally_check-failed t c = ground arith

  tally_check-undecided :
      (t : Tally) (c : Check)
      → (tally_check date_parse states assessed_at t c).applicability_decisions_outstanding ≡ (
          if is_undecided c
          then suc t.applicability_decisions_outstanding
          else t.applicability_decisions_outstanding)
  unfolding tally_check
  tally_check-undecided t c = ground arith

  tally_check-lapsed :
      (t : Tally) (c : Check)
      → (tally_check date_parse states assessed_at t c).attestations_lapsed
        ≡ (if is_lapsed_gate c then suc t.attestations_lapsed else t.attestations_lapsed)
  unfolding tally_check
  tally_check-lapsed t c = ground arith

  tally_check-violations :
      (t : Tally) (c : Check)
      → (tally_check date_parse states assessed_at t c).violations ≡ t.violations ++ violations_of c
  unfolding tally_check
  tally_check-violations t c = ground (
    arith,
    append-nil t.violations,
    append_assoc t.violations (excluded_violation c ∷ []) (skipped_violation c ∷ []),
  )

  tally_checks-outstanding :
      (t : Tally) (cs : List Check)
      → (tally_checks date_parse states assessed_at t cs).gates_outstanding
        ≡ t.gates_outstanding + count_if is_outstanding cs
  unfolding tally_checks
  tally_checks-outstanding t [] = omega arith
  tally_checks-outstanding t (c ∷ cs) = ground (
    arith,
    tally_checks-outstanding (tally_check date_parse states assessed_at t c) cs,
    tally_check-outstanding t c,
  )

  tally_checks-failed :
      (t : Tally) (cs : List Check)
      → (tally_checks date_parse states assessed_at t cs).gates_failed
        ≡ t.gates_failed + count_if is_failed_gate cs
  unfolding tally_checks
  tally_checks-failed t [] = omega arith
  tally_checks-failed t (c ∷ cs) = ground (
    arith,
    tally_checks-failed (tally_check date_parse states assessed_at t c) cs,
    tally_check-failed t c,
  )

  tally_checks-undecided :
      (t : Tally) (cs : List Check)
      → (tally_checks date_parse states assessed_at t cs).applicability_decisions_outstanding
        ≡ t.applicability_decisions_outstanding + count_if is_undecided cs
  unfolding tally_checks
  tally_checks-undecided t [] = omega arith
  tally_checks-undecided t (c ∷ cs) = ground (
    arith,
    tally_checks-undecided (tally_check date_parse states assessed_at t c) cs,
    tally_check-undecided t c,
  )

  tally_checks-lapsed :
      (t : Tally) (cs : List Check)
      → (tally_checks date_parse states assessed_at t cs).attestations_lapsed
        ≡ t.attestations_lapsed + count_if is_lapsed_gate cs
  unfolding tally_checks
  tally_checks-lapsed t [] = omega arith
  tally_checks-lapsed t (c ∷ cs) = ground (
    arith,
    tally_checks-lapsed (tally_check date_parse states assessed_at t c) cs,
    tally_check-lapsed t c,
  )

  tally_checks-violations :
      (t : Tally) (cs : List Check)
      → (tally_checks date_parse states assessed_at t cs).violations
        ≡ t.violations ++ flat_map violations_of cs
  unfolding tally_checks
  tally_checks-violations t [] = sym (append-nil t.violations)
  tally_checks-violations t (c ∷ cs) =
      tally_checks-violations (tally_check date_parse states assessed_at t c) cs
      ∙ ap (λ vs. vs ++ flat_map violations_of cs) (tally_check-violations t c)
      ∙ append_assoc t.violations (violations_of c) (flat_map violations_of cs)

  -- Each figure of the result counts the checks that it describes, and the violations are those of
  -- the checks one by one, in corpus order.
  pub compute_launch_readiness-counts :
      (checks : List Check)
      → let r = compute_launch_readiness date_parse checks states assessed_at in
        (r.gates_outstanding ≡ count_if is_outstanding checks)
        × (r.gates_failed ≡ count_if is_failed_gate checks)
        × (r.applicability_decisions_outstanding ≡ count_if is_undecided checks)
        × (r.attestations_lapsed ≡ count_if is_lapsed_gate checks)
        × (r.violations ≡ flat_map violations_of checks)
  unfolding compute_launch_readiness
  compute_launch_readiness-counts checks = (
    omega (arith, tally_checks-outstanding no_tally checks),
    omega (arith, tally_checks-failed no_tally checks),
    omega (arith, tally_checks-undecided no_tally checks),
    omega (arith, tally_checks-lapsed no_tally checks),
    tally_checks-violations no_tally checks,
  )

  -- A launch gate that lets the launch go: out of scope, or in scope and passed.
  abbrev pub Clears : Check → Type 0
  Clears check =
      check.launch_gate ≡ true
      → ((read_state check).applicability ≡ excluded)
        ⊎ ((read_state check).applicability ≡ in_scope) × ((read_state check).status ≡ passed)

  Clears-of : (c : Check) → is_outstanding c ≡ false → is_undecided c ≡ false → Clears c
  Clears-of c h k gate = ground arith

  counts_of_Clears :
      (c : Check)
      → Clears c
      → (is_outstanding c ≡ false) × (is_failed_gate c ≡ false) × (is_undecided c ≡ false)
  counts_of_Clears c h = elim (Bool-cases c.launch_gate) [
    | inl gate ↦ (ground (arith, h gate), ground (arith, h gate), ground (arith, h gate))
    | inr other ↦ (rw other, rw other, rw other)
  ]

  All-Clears :
      (cs : List Check)
      → count_if is_outstanding cs ≡ 0
      → count_if is_undecided cs ≡ 0
      → All Clears cs
  All-Clears [] h k = tt
  All-Clears (c ∷ cs) h k = elim (Bool-cases (is_outstanding c)) [
    | inl e ↦ ground arith
    | inr e ↦ elim (Bool-cases (is_undecided c)) [
      | inl f ↦ ground arith
      | inr f ↦ (Clears-of c e f, All-Clears cs (ground arith) (ground arith))
    ]
  ]

  counts_of_All :
      (cs : List Check)
      → All Clears cs
      → (count_if is_outstanding cs ≡ 0)
        × (count_if is_failed_gate cs ≡ 0)
        × (count_if is_undecided cs ≡ 0)
  counts_of_All [] h = (refl, refl, refl)
  counts_of_All (c ∷ cs) h =
      let (o, f, u) = counts_of_Clears c h.0 in
      let (os, fs, us) = counts_of_All cs h.1 in (rw o os, rw f fs, rw u us)

  -- GO exactly when every launch gate of the corpus is out of scope, or in scope and passed.
  pub decision-go_iff :
      (checks : List Check)
      → ((compute_launch_readiness date_parse checks states assessed_at).decision ≡ go)
        ↔ All Clears checks
  unfolding compute_launch_readiness
  decision-go_iff checks = (
    λ e.
        All-Clears checks (ground (arith, tally_checks-outstanding no_tally checks))
          (ground (arith, tally_checks-undecided no_tally checks)),
    λ h. ground (
      arith,
      counts_of_All checks h,
      tally_checks-outstanding no_tally checks,
      tally_checks-failed no_tally checks,
      tally_checks-undecided no_tally checks,
    ),
  )

unknown_unlapsed :
    (date_parse : String → Option ℤ) (s : CheckState) (assessed_at : Option String)
    → attestation_lapsed date_parse
        (record s {
          status = if is_passed s.status then in_progress else s.status;
          coverage = unknown;
        })
        assessed_at
      ≡ false
unfolding attestation_lapsed
unknown_unlapsed date_parse s none = refl
unknown_unlapsed date_parse s (some at) = refl

effective_state-unlapsed :
    (date_parse : String → Option ℤ) (s : CheckState) (assessed_at : Option String)
    → attestation_lapsed date_parse (effective_state date_parse s assessed_at) assessed_at ≡ false
unfolding effective_state
effective_state-unlapsed date_parse s assessed_at =
    elim (Bool-cases (attestation_lapsed date_parse s assessed_at)) [
      | inl e ↦ rw e (unknown_unlapsed date_parse s assessed_at)
      | inr e ↦ rw e e
    ]

-- With no assessment time a state is read as recorded. At one, the scope is the recorded one, a pass is read
-- only where one is recorded, and a recorded status that is no pass is read as it stands: only a pass can be
-- taken back. A state as read has not lapsed at that time, so that reading it again changes nothing.
pub effective_state_lem :
    (date_parse : String → Option ℤ) (s : CheckState) (assessed_at : Option String)
    → (effective_state date_parse s none ≡ s)
      × ((effective_state date_parse s assessed_at).applicability ≡ s.applicability)
      × ((effective_state date_parse s assessed_at).status ≡ passed → s.status ≡ passed)
      × (is_passed s.status ≡ false → (effective_state date_parse s assessed_at).status ≡ s.status)
      × (attestation_lapsed date_parse (effective_state date_parse s assessed_at) assessed_at
          ≡ false)
      × (effective_state date_parse (effective_state date_parse s assessed_at) assessed_at
          ≡ effective_state date_parse s assessed_at)
unfolding effective_state
effective_state_lem date_parse s assessed_at = (
  refl,
  ground arith,
  λ h. ground arith,
  λ h. ground (arith, h),
  effective_state-unlapsed date_parse s assessed_at,
  rw (effective_state-unlapsed date_parse s assessed_at) refl,
)

-- A lapse takes nothing from a launch that is cleared: with GO at an assessment time no gate's
-- attestation has lapsed, and the same states assessed with no lapse give GO too.
pub decision-go_unlapsed :
    (date_parse : String → Option ℤ) (states : States) (assessed_at : Option String)
    (checks : List Check)
    → (compute_launch_readiness date_parse checks states assessed_at).decision ≡ go
    → ((compute_launch_readiness date_parse checks states assessed_at).attestations_lapsed ≡ 0)
      × ((compute_launch_readiness date_parse checks states none).decision ≡ go)
decision-go_unlapsed date_parse states assessed_at checks h = (
  (compute_launch_readiness-counts date_parse states assessed_at checks).3
      ∙ no_lapse checks ((decision-go_iff date_parse states assessed_at checks).0 h),
  (decision-go_iff date_parse states none checks).1
      (relax checks ((decision-go_iff date_parse states assessed_at checks).0 h)),
)
  where
    clears_unlapsed :
        (c : Check)
        → Clears date_parse states assessed_at c
        → is_lapsed_gate date_parse states assessed_at c ≡ false
    clears_unlapsed c k = elim (Bool-cases c.launch_gate) [
      | inl gate ↦ ground (arith, k gate)
      | inr other ↦ rw other
    ]

    no_lapse :
        (cs : List Check)
        → All (Clears date_parse states assessed_at) cs
        → count_if (is_lapsed_gate date_parse states assessed_at) cs ≡ 0
    no_lapse [] k = refl
    no_lapse (c ∷ cs) k = rw (clears_unlapsed c k.0) (no_lapse cs k.1)

    clears_relax :
        (c : Check) → Clears date_parse states assessed_at c → Clears date_parse states none c
    clears_relax c k gate =
        ground (arith, k gate, effective_state_lem date_parse (state_of states c) assessed_at)

    relax :
        (cs : List Check)
        → All (Clears date_parse states assessed_at) cs
        → All (Clears date_parse states none) cs
    relax [] k = tt
    relax (c ∷ cs) k = (clears_relax c k.0, relax cs k.1)
