-- ===== src/Grader/Grade/Grouping.antt =====
-- The evidence as the grader groups and counts it.
use seo_optimizer.Prelude.{
  ◌+◌, ◌≡◌, sym, String, Bool, true, false, List, [], ◌∷◌, ◌++◌, arith, filter, count_if, insert,
  str_eq, eq_iff, if◌then◌else◌, lookup-insert,
}
use seo_optimizer.Grader.Types.{Outcome, Evidence, ObservationCounts}
use seo_optimizer.Grader.Grade.{
  Grouped, found_for, group_one, group_evidence, count_outcome, count_from, count_of, no_counts,
  is_fail,
}
use mathlib.Core.List.{append-nil, append_assoc}

abbrev pub is_pass : Outcome → Bool
is_pass Outcome.pass = true
is_pass _ = false

abbrev pub is_warn : Outcome → Bool
is_warn Outcome.warn = true
is_warn _ = false

abbrev pub is_error : Outcome → Bool
is_error Outcome.error = true
is_error _ = false

abbrev pub is_not_applicable : Outcome → Bool
is_not_applicable Outcome.not_applicable = true
is_not_applicable _ = false

-- The observations of one detector.
abbrev pub is_from : String → Evidence → Bool
is_from id item = str_eq item.run.probe_id id

found_for-insert :
    (k d : String) (v : List Evidence) (groups : Grouped)
    → found_for (insert k v groups) d ≡ (if str_eq k d then v else found_for groups d)
found_for-insert k d v groups = ground (arith, lookup-insert k d v groups)

found_for-group_one :
    (groups : Grouped) (item : Evidence) (d : String)
    → found_for (group_one groups item) d
      ≡ (if is_from d item then found_for groups d ++ item ∷ [] else found_for groups d)
found_for-group_one groups item d = ground (
  arith,
  found_for-insert item.run.probe_id d (found_for groups item.run.probe_id ++ item ∷ []) groups,
  eq_iff item.run.probe_id d,
)

-- Grouping loses and reorders nothing: what is found for a detector is what was found before and
-- then its own observations, in the order of the evidence.
pub found_for-group_evidence :
    (groups : Grouped) (items : List Evidence) (d : String)
    → found_for (group_evidence groups items) d ≡ found_for groups d ++ filter (is_from d) items
unfolding group_evidence
found_for-group_evidence groups [] d = sym (append-nil (found_for groups d))
found_for-group_evidence groups (item ∷ items) d = ground (
  arith,
  found_for-group_evidence (group_one groups item) items d,
  found_for-group_one groups item d,
  append_assoc (found_for groups d) (item ∷ []) (filter (is_from d) items),
)

abbrev pub outcome_of : Evidence → Outcome
outcome_of item = item.run.outcome

count_from_lem :
    (c : ObservationCounts) (items : List Evidence)
    → ((count_from c items).pass ≡ c.pass + count_if (λ e. is_pass e.run.outcome) items)
      × ((count_from c items).fail ≡ c.fail + count_if (λ e. is_fail e.run.outcome) items)
      × ((count_from c items).warn ≡ c.warn + count_if (λ e. is_warn e.run.outcome) items)
      × ((count_from c items).not_applicable
          ≡ c.not_applicable + count_if (λ e. is_not_applicable e.run.outcome) items)
      × ((count_from c items).error ≡ c.error + count_if (λ e. is_error e.run.outcome) items)
unfolding count_from
count_from_lem c [] = omega arith
count_from_lem c (item ∷ items) =
    ground (arith, count_from_lem (count_outcome c item.run.outcome) items)

-- Each figure counts the observations of its outcome.
pub count_of_lem :
    (items : List Evidence)
    → ((count_of items).pass ≡ count_if (λ e. is_pass e.run.outcome) items)
      × ((count_of items).fail ≡ count_if (λ e. is_fail e.run.outcome) items)
      × ((count_of items).warn ≡ count_if (λ e. is_warn e.run.outcome) items)
      × ((count_of items).not_applicable ≡ count_if (λ e. is_not_applicable e.run.outcome) items)
      × ((count_of items).error ≡ count_if (λ e. is_error e.run.outcome) items)
unfolding count_of
count_of_lem items = omega (arith, count_from_lem no_counts items)
