-- ===== src/Core/Cutover/Ready.antt =====
-- What READY FOR CUTOVER and the final GO rest on, gate by gate.
use seo_optimizer.Prelude.{
  ℕ, ◌+◌, ◌≡◌, refl, ◌↔◌, ◌⊎◌, inl, inr, String, Bool, true, false, not, ◌&&◌, Option, List, [],
  ◌∷◌, str_eq, concat, concat-nonempty, if◌then◌else◌, length, count_if, arith, Bool-cases, All,
}
use seo_optimizer.Prelude.Int.{ℤ}
use seo_optimizer.Core.Check.{
  Check, CheckState, Corpus, is_passed, is_excluded, is_in_scope, excluded, in_scope, passed,
}
use seo_optimizer.Core.Readiness.{States, go, LaunchReadiness, compute_launch_readiness}
use seo_optimizer.Core.Readiness.Launch.{
  is_outstanding, is_undecided, compute_launch_readiness-counts,
}
use seo_optimizer.Core.Review.{filled}
use seo_optimizer.Core.ReviewLog.{ReviewReading, evidence_class_of}
use seo_optimizer.Core.Cutover.{
  GateTally, is_live, is_current, late_or_missing, evidence_problem, state_name, tested_time,
  cutover_time, tally_gate, tally_gates, gate_state, gate_review, no_gates, release_problems,
  cutover_record_valid, assessment_of, final_of, input_errors_of, compute_cutover_readiness,
}
use seo_optimizer.Core.Release.{ReleaseRecord}

pub count-head :
    (p : Check → Bool) (c : Check) (cs : List Check)
    → count_if p (c ∷ cs) ≡ 0
    → (p c ≡ false) × (count_if p cs ≡ 0)
count-head p c cs h = (ground arith, ground arith)

-- The two messages are not empty.
clear_text :
    (current late : Bool) (name : String)
    → str_eq
        (if not current
          then concat ("current review required: " ∷ name ∷ [])
          else if late
          then "live test predates or lacks actual cutover"
          else "")
        ""
      ≡ true
    → (current ≡ true) × (late ≡ false)
clear_text true true name h = absurd (ground arith)
clear_text true false name h = (refl, refl)
clear_text false late name h =
    absurd (ground (arith, concat-nonempty "current review required: " (name ∷ []) refl))

pub text_clear :
    (current late : Bool) (name : String)
    → current ≡ true
    → late ≡ false
    → str_eq
        (if not current
          then concat ("current review required: " ∷ name ∷ [])
          else if late
          then "live test predates or lacks actual cutover"
          else "")
        ""
      ≡ true
text_clear true true name h k = absurd (ground arith)
text_clear true false name h k = refl
text_clear false late name h k = absurd (ground arith)

-- What the counters say of the final assessment.
abbrev AllZero : ℕ → GateTally → LaunchReadiness → Type 0
AllZero errors t launch =
    (errors ≡ 0)
    × (t.scope_errors ≡ 0)
    × (launch.applicability_decisions_outstanding ≡ 0)
    × (t.pre_outstanding ≡ 0)
    × (t.pre_incomplete ≡ 0)
    × (launch.gates_outstanding ≡ 0)
    × (t.live_incomplete ≡ 0)

zero_of_go :
    (errors : ℕ) (t : GateTally) (launch : LaunchReadiness) (valid : Bool)
    → final_of (assessment_of errors t launch) t launch valid ≡ go
    → (valid ≡ true) × AllZero errors t launch
zero_of_go errors t launch valid h = (
  ground arith,
  (
    ground arith,
    ground arith,
    ground arith,
    ground arith,
    ground arith,
    ground arith,
    ground arith,
  ),
)

go_of_zero :
    (errors : ℕ) (t : GateTally) (launch : LaunchReadiness) (valid : Bool)
    → valid ≡ true
    → AllZero errors t launch
    → final_of (assessment_of errors t launch) t launch valid ≡ go
go_of_zero errors t launch valid v z = ground arith

module _ (date_parse : String → Option ℤ) (corpus : Corpus) (states : States)
    (release : ReleaseRecord) where
  abbrev pub state_at : Check → CheckState
  state_at check = gate_state date_parse states release check

  abbrev pub review_at : Check → ReviewReading
  review_at check = gate_review date_parse corpus states release check

  abbrev pub problem_at : Check → String
  problem_at check =
      evidence_problem date_parse (cutover_time date_parse release) check (review_at check)

  -- A launch gate in scope.
  abbrev applies : Check → Bool
  applies check = check.launch_gate && is_in_scope (state_at check).applicability

  abbrev pub no_reason : Check → Bool
  no_reason check =
      check.launch_gate
      && is_excluded (state_at check).applicability
      && not (filled (state_at check).applicability_rationale)

  abbrev pub open_gate : Bool → Check → Bool
  open_gate at_live check =
      applies check
      && not (is_passed (state_at check).status)
      && (if at_live
          then is_live (evidence_class_of check)
          else not (is_live (evidence_class_of check)))

  abbrev pub unproved : Bool → Check → Bool
  unproved at_live check =
      applies check
      && not (str_eq (problem_at check) "")
      && (if at_live
          then is_live (evidence_class_of check)
          else not (is_live (evidence_class_of check)))

  pub tally_gates-counts :
      (t : GateTally) (checks : List Check)
      → let r = tally_gates date_parse corpus states release t checks in
        (r.scope_errors ≡ t.scope_errors + count_if no_reason checks)
        × (r.pre_outstanding ≡ t.pre_outstanding + count_if (open_gate false) checks)
        × (r.live_outstanding ≡ t.live_outstanding + count_if (open_gate true) checks)
        × (r.pre_incomplete ≡ t.pre_incomplete + count_if (unproved false) checks)
        × (r.live_incomplete ≡ t.live_incomplete + count_if (unproved true) checks)
  unfolding tally_gates
  tally_gates-counts t [] = (omega arith, omega arith, omega arith, omega arith, omega arith)
  tally_gates-counts t (check ∷ checks) =
      let t' =
        tally_gate date_parse t check (state_at check) (review_at check)
          (cutover_time date_parse release) in
      let ih = tally_gates-counts t' checks in
      (
        ground (arith, ih.0),
        ground (arith, ih.1),
        ground (arith, ih.2),
        ground (arith, ih.3),
        ground (arith, ih.4),
      )

  -- A gate that nothing is held against: out of scope with a reason, or in scope, passed, with a
  -- current review, which for a live gate was tested no earlier than the cutover.
  abbrev pub Proved : Check → Type 0
  Proved check =
      check.launch_gate ≡ true
      → ((state_at check).applicability ≡ excluded)
          × (filled (state_at check).applicability_rationale ≡ true)
        ⊎ ((state_at check).applicability ≡ in_scope)
          × ((state_at check).status ≡ passed)
          × (is_current (review_at check).state ≡ true)
          × (is_live (evidence_class_of check)
                && late_or_missing (cutover_time date_parse release)
                    (tested_time date_parse (review_at check).latest)
              ≡ false)

  pub problem_clear :
      (check : Check)
      → str_eq (problem_at check) "" ≡ true
      → (is_current (review_at check).state ≡ true)
        × (is_live (evidence_class_of check)
              && late_or_missing
                  (cutover_time date_parse release)
                  (tested_time date_parse (review_at check).latest)
            ≡ false)
  problem_clear check h = clear_text _ _ (state_name (review_at check).state) h

  Proved-of :
      (c : Check)
      → no_reason c ≡ false
      → is_outstanding date_parse states release.assessed_at c ≡ false
      → unproved false c ≡ false
      → unproved true c ≡ false
      → is_undecided date_parse states release.assessed_at c ≡ false
      → Proved c
  unfolding gate_state
  Proved-of c n o f t u gate = ground (arith, problem_clear c)

  -- Nothing is counted against a gate that is proved.
  abbrev Uncounted : Check → Type 0
  Uncounted c =
      (no_reason c ≡ false)
      × (is_outstanding date_parse states release.assessed_at c ≡ false)
      × (unproved false c ≡ false)
      × (unproved true c ≡ false)
      × (is_undecided date_parse states release.assessed_at c ≡ false)
      × (open_gate false c ≡ false)

  Uncounted-of : (c : Check) → Proved c → Uncounted c
  unfolding gate_state
  Uncounted-of c h = elim (Bool-cases c.launch_gate) [
    | inr other ↦ (rw other, rw other, rw other, rw other, rw other, rw other)
    | inl gate ↦ elim (h gate) [
      | inl out ↦
          (ground arith, ground arith, ground arith, ground arith, ground arith, ground arith)
      | inr k ↦
          let clear = text_clear _ _ (state_name (review_at c).state) k.2 k.3 in
          (
            ground arith,
            ground arith,
            ground (arith, clear),
            ground (arith, clear),
            ground arith,
            ground arith,
          )
    ]
  ]

  All-Proved :
      (cs : List Check)
      → count_if no_reason cs ≡ 0
      → count_if (is_outstanding date_parse states release.assessed_at) cs ≡ 0
      → count_if (unproved false) cs ≡ 0
      → count_if (unproved true) cs ≡ 0
      → count_if (is_undecided date_parse states release.assessed_at) cs ≡ 0
      → All Proved cs
  All-Proved [] n o f t u = tt
  All-Proved (c ∷ cs) n o f t u =
      let (n0, ns) = count-head no_reason c cs n in
      let (o0, os) = count-head (is_outstanding date_parse states release.assessed_at) c cs o in
      let (f0, fs) = count-head (unproved false) c cs f in
      let (t0, ts) = count-head (unproved true) c cs t in
      let (u0, us) = count-head (is_undecided date_parse states release.assessed_at) c cs u in
      (Proved-of c n0 o0 f0 t0 u0, All-Proved cs ns os fs ts us)

  counts_of_Proved :
      (cs : List Check)
      → All Proved cs
      → (count_if no_reason cs ≡ 0)
        × (count_if (is_outstanding date_parse states release.assessed_at) cs ≡ 0)
        × (count_if (unproved false) cs ≡ 0)
        × (count_if (unproved true) cs ≡ 0)
        × (count_if (is_undecided date_parse states release.assessed_at) cs ≡ 0)
        × (count_if (open_gate false) cs ≡ 0)
  counts_of_Proved [] h = (refl, refl, refl, refl, refl, refl)
  counts_of_Proved (c ∷ cs) h =
      let k = Uncounted-of c h.0 in
      let ih = counts_of_Proved cs h.1 in
      (rw k.0 ih.0, rw k.1 ih.1, rw k.2 ih.2, rw k.3 ih.3, rw k.4 ih.4, rw k.5 ih.5)

  -- The final assessment is GO exactly when no review run of the log is broken, no release field is
  -- missing, the cutover record is valid, and every launch gate is out of scope with a reason, or in
  -- scope, passed and currently reviewed, a live gate on a test no earlier than the cutover.
  pub final-go_iff :
      ((compute_cutover_readiness date_parse corpus states release).final ≡ go)
      ↔ ((compute_cutover_readiness date_parse corpus states release).input_errors ≡ 0)
        × (length (release_problems date_parse release) ≡ 0)
        × (cutover_record_valid date_parse release ≡ true)
        × All Proved corpus.checks
  unfolding compute_cutover_readiness
  final-go_iff =
      let first = compute_launch_readiness date_parse corpus.checks states release.assessed_at in
      let t0 = no_gates (length (release_problems date_parse release)) in
      let t = tally_gates date_parse corpus states release t0 corpus.checks in
      let errors = input_errors_of date_parse corpus release in
      let valid = cutover_record_valid date_parse release in
      let c = tally_gates-counts t0 corpus.checks in
      let l = compute_launch_readiness-counts date_parse states release.assessed_at corpus.checks in
      (
        λ e.
            let (v, z) = zero_of_go errors t first valid e in
            (
              z.0,
              omega (arith, c.0, z.1),
              v,
              All-Proved corpus.checks (omega (arith, c.0, z.1)) (omega (arith, l.0, z.5))
                  (omega (arith, c.3, z.4)) (omega (arith, c.4, z.6)) (omega (arith, l.2, z.2)),
            ),
        λ h.
            let k = counts_of_Proved corpus.checks h.3 in
            go_of_zero errors t first valid h.2 (
              h.0,
              omega (arith, c.0, k.0, h.1),
              omega (arith, l.2, k.4),
              omega (arith, c.1, k.5),
              omega (arith, c.3, k.2),
              omega (arith, l.0, k.1),
              omega (arith, c.4, k.3),
            ),
      )
