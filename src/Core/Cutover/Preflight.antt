-- ===== src/Core/Cutover/Preflight.antt =====
-- What READY FOR CUTOVER alone rests on.
use seo_optimizer.Prelude.{
  ℕ, ◌≡◌, refl, ◌↔◌, ◌⊎◌, inl, inr, String, Bool, true, false, ◌&&◌, Option, List, [], ◌∷◌, length,
  count_if, arith, Bool-cases, All,
}
use seo_optimizer.Prelude.Int.{ℤ}
use seo_optimizer.Core.Check.{Check, Corpus, excluded, in_scope, passed}
use seo_optimizer.Core.Readiness.{States, LaunchReadiness, compute_launch_readiness}
use seo_optimizer.Core.Readiness.Launch.{is_undecided, compute_launch_readiness-counts}
use seo_optimizer.Core.Review.{filled}
use seo_optimizer.Core.ReviewLog.{evidence_class_of}
use seo_optimizer.Core.Cutover.{
  GateTally, is_live, is_current, late_or_missing, state_name, tested_time, cutover_time,
  tally_gates, gate_state, no_gates, release_problems, assessment_of, ready, input_errors_of,
  compute_cutover_readiness,
}
use seo_optimizer.Core.Release.{ReleaseRecord}
use seo_optimizer.Core.Cutover.Ready.{
  state_at, review_at, no_reason, open_gate, unproved, tally_gates-counts, problem_clear,
  count-head, text_clear,
}

-- What the counters say of the assessment.
abbrev NothingOpen : ℕ → GateTally → LaunchReadiness → Type 0
NothingOpen errors t launch =
    (errors ≡ 0)
    × (t.scope_errors ≡ 0)
    × (launch.applicability_decisions_outstanding ≡ 0)
    × (t.pre_outstanding ≡ 0)
    × (t.pre_incomplete ≡ 0)

open_of_ready :
    (errors : ℕ) (t : GateTally) (launch : LaunchReadiness)
    → assessment_of errors t launch ≡ ready
    → NothingOpen errors t launch
open_of_ready errors t launch h =
    (ground arith, ground arith, ground arith, ground arith, ground arith)

ready_of_open :
    (errors : ℕ) (t : GateTally) (launch : LaunchReadiness)
    → NothingOpen errors t launch
    → assessment_of errors t launch ≡ ready
ready_of_open errors t launch z = ground arith

not_live : (b late : Bool) → b ≡ false → b && late ≡ false
not_live b late e = ground arith

module _ (date_parse : String → Option ℤ) (corpus : Corpus) (states : States)
    (release : ReleaseRecord) where
  -- A gate that does not stand in the way of a cutover: out of scope with a reason, or in scope, and
  -- unless it is a live gate passed and currently reviewed.
  abbrev pub Prepared : Check → Type 0
  Prepared check =
      check.launch_gate ≡ true
      → ((state_at date_parse corpus states release check).applicability ≡ excluded)
          × (filled (state_at date_parse corpus states release check).applicability_rationale
              ≡ true)
        ⊎ ((state_at date_parse corpus states release check).applicability ≡ in_scope)
          × ((is_live (evidence_class_of check) ≡ true)
              ⊎ ((state_at date_parse corpus states release check).status ≡ passed)
                × (is_current (review_at date_parse corpus states release check).state ≡ true))

  Prepared-of :
      (c : Check)
      → no_reason date_parse corpus states release c ≡ false
      → open_gate date_parse corpus states release false c ≡ false
      → unproved date_parse corpus states release false c ≡ false
      → is_undecided date_parse states release.assessed_at c ≡ false
      → Prepared c
  unfolding gate_state
  Prepared-of c n o f u gate = ground (arith, problem_clear date_parse corpus states release c)

  -- Nothing of what the assessment counts is counted against a prepared gate.
  abbrev Uncharged : Check → Type 0
  Uncharged c =
      (no_reason date_parse corpus states release c ≡ false)
      × (open_gate date_parse corpus states release false c ≡ false)
      × (unproved date_parse corpus states release false c ≡ false)
      × (is_undecided date_parse states release.assessed_at c ≡ false)

  Uncharged-of : (c : Check) → Prepared c → Uncharged c
  unfolding gate_state
  Uncharged-of c h = elim (Bool-cases c.launch_gate) [
    | inr other ↦ (rw other, rw other, rw other, rw other)
    | inl gate ↦ elim (h gate) [
      | inl out ↦ (ground arith, ground arith, ground arith, ground arith)
      | inr (scoped, inl live_) ↦ (ground arith, ground arith, ground arith, ground arith)
      | inr (scoped, inr k) ↦ elim (Bool-cases (is_live (evidence_class_of c))) [
        | inl live_ ↦ (ground arith, ground arith, ground arith, ground arith)
        | inr early ↦
            let clear =
              text_clear (is_current (review_at date_parse corpus states release c).state)
                (is_live (evidence_class_of c)
                  && late_or_missing (cutover_time date_parse release) (
                      tested_time date_parse (review_at date_parse corpus states release c).latest))
                (state_name (review_at date_parse corpus states release c).state) k.1
                (not_live (is_live (evidence_class_of c)) _ early) in
            (ground arith, ground arith, ground (arith, clear), ground arith)
      ]
    ]
  ]

  All-Prepared :
      (cs : List Check)
      → count_if (no_reason date_parse corpus states release) cs ≡ 0
      → count_if (open_gate date_parse corpus states release false) cs ≡ 0
      → count_if (unproved date_parse corpus states release false) cs ≡ 0
      → count_if (is_undecided date_parse states release.assessed_at) cs ≡ 0
      → All Prepared cs
  All-Prepared [] n o f u = tt
  All-Prepared (c ∷ cs) n o f u =
      let (n0, ns) = count-head (no_reason date_parse corpus states release) c cs n in
      let (o0, os) = count-head (open_gate date_parse corpus states release false) c cs o in
      let (f0, fs) = count-head (unproved date_parse corpus states release false) c cs f in
      let (u0, us) = count-head (is_undecided date_parse states release.assessed_at) c cs u in
      (Prepared-of c n0 o0 f0 u0, All-Prepared cs ns os fs us)

  counts_of_Prepared :
      (cs : List Check)
      → All Prepared cs
      → (count_if (no_reason date_parse corpus states release) cs ≡ 0)
        × (count_if (open_gate date_parse corpus states release false) cs ≡ 0)
        × (count_if (unproved date_parse corpus states release false) cs ≡ 0)
        × (count_if (is_undecided date_parse states release.assessed_at) cs ≡ 0)
  counts_of_Prepared [] h = (refl, refl, refl, refl)
  counts_of_Prepared (c ∷ cs) h =
      let k = Uncharged-of c h.0 in
      let ih = counts_of_Prepared cs h.1 in (rw k.0 ih.0, rw k.1 ih.1, rw k.2 ih.2, rw k.3 ih.3)

  -- The assessment is READY FOR CUTOVER exactly when no review run of the log is broken, no release field
  -- is missing, and every launch gate is out of scope with a reason, or in scope and either live or
  -- passed and currently reviewed.
  pub cutover-ready_iff :
      ((compute_cutover_readiness date_parse corpus states release).cutover ≡ ready)
      ↔ ((compute_cutover_readiness date_parse corpus states release).input_errors ≡ 0)
        × (length (release_problems date_parse release) ≡ 0)
        × All Prepared corpus.checks
  unfolding compute_cutover_readiness
  cutover-ready_iff =
      let first = compute_launch_readiness date_parse corpus.checks states release.assessed_at in
      let t0 = no_gates (length (release_problems date_parse release)) in
      let t = tally_gates date_parse corpus states release t0 corpus.checks in
      let errors = input_errors_of date_parse corpus release in
      let c = tally_gates-counts date_parse corpus states release t0 corpus.checks in
      let l = compute_launch_readiness-counts date_parse states release.assessed_at corpus.checks in
      (
        λ e.
            let z = open_of_ready errors t first e in
            (
              z.0,
              omega (arith, c.0, z.1),
              All-Prepared corpus.checks (omega (arith, c.0, z.1)) (omega (arith, c.1, z.3))
                  (omega (arith, c.3, z.4)) (omega (arith, l.2, z.2)),
            ),
        λ h.
            let k = counts_of_Prepared corpus.checks h.2 in
            ready_of_open errors t first (
              h.0,
              omega (arith, c.0, k.0, h.1),
              omega (arith, l.2, k.3),
              omega (arith, c.1, k.1),
              omega (arith, c.3, k.2),
            ),
      )
