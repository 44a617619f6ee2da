-- ===== src/Grader/Grade/Pairing.antt =====
-- packages/grader/src/grade.ts: `toEvidence` pairs each run with the row that it was stored as.
use seo_optimizer.Prelude.{
  ◌≡◌, refl, ap, true, false, String, none, some, List, [], ◌∷◌, map, length, ◌==◌, arith,
}
use seo_optimizer.Grader.Types.{ProbeRun, Evidence}
use seo_optimizer.Grader.Grade.{pair_evidence, to_evidence}

pair_evidence_lem :
    (runs : List ProbeRun) (ids : List String)
    → length runs == length ids ≡ true
    → (map (λ (e : Evidence). e.run) (pair_evidence runs ids) ≡ runs)
      × (map (λ (e : Evidence). e.result_id) (pair_evidence runs ids) ≡ map some ids)
unfolding pair_evidence
pair_evidence_lem [] [] h = (refl, refl)
pair_evidence_lem [] (id ∷ ids) h = absurd (ground arith)
pair_evidence_lem (run ∷ runs) [] h = absurd (ground arith)
pair_evidence_lem (run ∷ runs) (id ∷ ids) h =
    let (k, m) = pair_evidence_lem runs ids (ground arith) in
    (ap (λ l. run ∷ l) k, ap (λ l. some id ∷ l) m)

-- The pieces of evidence carry the runs and the ids, each in its order.
abbrev pub Pairs : List ProbeRun → List String → List Evidence → Type 0
Pairs runs ids evidence =
    (map (λ (e : Evidence). e.run) evidence ≡ runs)
    × (map (λ (e : Evidence). e.result_id) evidence ≡ map some ids)

-- `toEvidence` throws exactly where the runs and the ids differ in number; else the evidence has the runs
-- and the ids, all of them and in their order.
pub to_evidence_lem :
    (runs : List ProbeRun) (ids : List String)
    → (length runs == length ids ≡ false → to_evidence runs ids ≡ none)
      × (length runs == length ids ≡ true
          → (evidence : List Evidence) × (to_evidence runs ids ≡ some evidence)
            × Pairs runs ids evidence)
unfolding to_evidence
to_evidence_lem runs ids =
    (λ e. rw e refl, λ e. (pair_evidence runs ids, rw e refl, pair_evidence_lem runs ids e))
