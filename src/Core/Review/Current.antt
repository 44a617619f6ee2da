-- ===== src/Core/Review/Current.antt =====
-- What stands behind a current review.
use seo_optimizer.Prelude.{
  ℕ, ◌≡◌, refl, sym, ap, subst, ◌∙◌, String, Bool, true, false, Option, none, some, List, [], ◌∷◌,
  leb, str_eq, if◌then◌else◌, filter, any, arith,
}
use seo_optimizer.Prelude.Int.{ℤ}
use mathlib.Core.List.{Memᴰ}
use mathlib.Core.List.Memᴰ.{head, tail, not-nil}
use seo_optimizer.Core.Check.{Check, CheckState, is_passed}
use seo_optimizer.Core.Review.{
  instant, in_current_context, cites_evidence, is_passed_result, is_result, is_overdue, is_broken,
  later_of, newest_of, latest_of, state_of_run, read_latest, own_runs, current_runs, read_review,
  same_instant,
}
use seo_optimizer.Core.ReviewLog.{ReviewRun, ReviewContext, ReviewReading, current}

module _ {A : Type 0} (p : A → Bool) (x : A) where
  mem_if :
      (b : Bool) (y : A) (xs ys : List A)
      → p y ≡ b
      → Memᴰ x (if b then y ∷ ys else ys)
      → (Memᴰ x ys → Memᴰ x xs × (p x ≡ true))
      → Memᴰ x (y ∷ xs) × (p x ≡ true)
  mem_if true y xs ys e (head k) ih = (head k, ap p k ∙ e)
  mem_if true y xs ys e (tail m) ih = let (n, t) = ih m in (tail n, t)
  mem_if false y xs ys e m ih = let (n, t) = ih m in (tail n, t)

  pub mem-filter : (xs : List A) → Memᴰ x (filter p xs) → Memᴰ x xs × (p x ≡ true)
  mem-filter [] m = absurd (not-nil m)
  mem-filter (y ∷ xs) m = mem_if (p y) y xs (filter p xs) refl m (mem-filter xs)

  pub any-mem : (xs : List A) → any p xs ≡ false → Memᴰ x xs → p x ≡ false
  any-mem [] h m = absurd (not-nil m)
  any-mem (y ∷ xs) h (head e) = ap p e ∙ ground arith
  any-mem (y ∷ xs) h (tail m) = any-mem xs (ground arith) m

  pub mem-filter_of : (xs : List A) → Memᴰ x xs → p x ≡ true → Memᴰ x (filter p xs)
  mem-filter_of [] m h = absurd (not-nil m)
  mem-filter_of (y ∷ xs) (head e) h = rw (ap p (sym e) ∙ h) (head e)
  mem-filter_of (y ∷ xs) (tail m) h = kept (p y) (mem-filter_of xs m h)
    where
      kept : (b : Bool) → Memᴰ x (filter p xs) → Memᴰ x (if b then y ∷ filter p xs else filter p xs)
      kept true k = tail k
      kept false k = k

-- No later than; `none` is -Infinity.
abbrev pub at_most : Option ℕ → Option ℕ → Bool
at_most none b = true
at_most (some a) none = false
at_most (some a) (some b) = leb a b

later_of-bounds :
    (a b : Option ℕ) → (at_most a (later_of a b) ≡ true) × (at_most b (later_of a b) ≡ true)
later_of-bounds none none = (refl, refl)
later_of-bounds none (some b) = (refl, ground arith)
later_of-bounds (some a) none = (ground arith, refl)
later_of-bounds (some a) (some b) = (ground arith, ground arith)

at_most_trans : (a b c : Option ℕ) → at_most a b ≡ true → at_most b c ≡ true → at_most a c ≡ true
at_most_trans none b c h k = refl
at_most_trans (some a) none c h k = absurd (ground arith)
at_most_trans (some a) (some b) none h k = absurd (ground arith)
at_most_trans (some a) (some b) (some c) h k = ground arith

at_most_self : (a : Option ℕ) → at_most a a ≡ true
at_most_self none = refl
at_most_self (some a) = ground arith

same_instant_trans :
    (a b c : Option ℕ) → same_instant a b ≡ true → same_instant b c ≡ true → same_instant a c ≡ true
same_instant_trans none b c h k = absurd (ground arith)
same_instant_trans (some a) none c h k = absurd (ground arith)
same_instant_trans (some a) (some b) none h k = absurd (ground arith)
same_instant_trans (some a) (some b) (some c) h k = ground arith

at_most_same :
    (a b c : Option ℕ) → same_instant b c ≡ true → at_most a c ≡ true → at_most a b ≡ true
at_most_same a none c h k = absurd (ground arith)
at_most_same a (some b) none h k = absurd (ground arith)
at_most_same none (some b) (some c) h k = refl
at_most_same (some a) (some b) (some c) h k = ground arith

module _ (date_parse : String → Option ℤ) where
  abbrev pub tested_at : ReviewRun → Option ℕ
  unfolding instant
  tested_at run = instant date_parse (some run.tested_at)

  newest_of-start :
      (best : Option ℕ) (runs : List ReviewRun)
      → at_most best (newest_of date_parse best runs) ≡ true
  unfolding instant
  newest_of-start best [] = at_most_self best
  newest_of-start best (run ∷ runs) =
      at_most_trans best (later_of best (tested_at run)) _
        ((later_of-bounds best (tested_at run)).0)
        (newest_of-start (later_of best (tested_at run)) runs)

  newest_of-bounds :
      (best : Option ℕ) (runs : List ReviewRun) (run : ReviewRun)
      → Memᴰ run runs
      → at_most (tested_at run) (newest_of date_parse best runs) ≡ true
  unfolding instant
  newest_of-bounds best [] run m = absurd (not-nil m)
  newest_of-bounds best (other ∷ runs) run (head e) =
      at_most_trans (tested_at run) (later_of best (tested_at other)) _
        (rw e ((later_of-bounds best (tested_at other)).1))
        (newest_of-start (later_of best (tested_at other)) runs)
  newest_of-bounds best (other ∷ runs) run (tail m) =
      newest_of-bounds (later_of best (tested_at other)) runs run m

  module _ (check : Check) (state : CheckState) (runs : List ReviewRun) (context : ReviewContext)
      (known_checks : List String) where
    -- A passed run of the check in the context, that the check's status and evidence agree with, not
    -- past its next review, newest of its kind, in a history that the data checks accept.
    pub record IsCurrent (run : ReviewRun) : Type 0 where
      pub listed : Memᴰ run runs
      pub own : str_eq run.check_id check.id ≡ true
      pub fits : in_current_context run check context ≡ true
      pub passed_run : is_passed_result run.result ≡ true
      pub passed_state : is_passed state.status ≡ true
      pub cited : cites_evidence run state ≡ true
      pub on_time :
          is_overdue
            (instant date_parse run.next_review_at)
            (instant date_parse context.assessed_at)
          ≡ false
      pub clean :
          (other : ReviewRun)
          → Memᴰ other runs
          → str_eq other.check_id check.id ≡ true
          → is_broken date_parse runs known_checks context.assessed_at other ≡ false
      pub newest :
          (other : ReviewRun)
          → Memᴰ other runs
          → str_eq other.check_id check.id ≡ true
          → in_current_context other check context ≡ true
          → (at_most (tested_at other) (tested_at run) ≡ true)
            × (same_instant (tested_at other) (tested_at run) ≡ true → other ≡ run)

    state_of_run-current :
        (broken : Bool) (run : ReviewRun)
        → state_of_run date_parse broken state context run ≡ current
        → (broken ≡ false)
          × (is_overdue
                (instant date_parse run.next_review_at)
                (instant date_parse context.assessed_at)
              ≡ false)
          × (is_result run.result state.status ≡ true)
          × (cites_evidence run state ≡ true)
          × (is_passed_result run.result ≡ true)
    state_of_run-current broken run h =
        (ground arith, ground arith, ground arith, ground arith, ground arith)

    -- The latest runs are among those of the check that fit the context.
    in_line :
        (run : ReviewRun)
        → Memᴰ run (current_runs check context runs)
        → Memᴰ run runs
          × (str_eq run.check_id check.id ≡ true)
          × (in_current_context run check context ≡ true)
    in_line run m =
        let (here, fits) =
          mem-filter (λ r. in_current_context r check context) run (own_runs check runs) m in
        let (listed, own) = mem-filter (λ r. str_eq r.check_id check.id) run runs here in
        (listed, own, fits)

    of_line :
        (run : ReviewRun)
        → Memᴰ run runs
        → str_eq run.check_id check.id ≡ true
        → in_current_context run check context ≡ true
        → Memᴰ run (current_runs check context runs)
    of_line run listed own fits =
        mem-filter_of (λ r. in_current_context r check context) run (own_runs check runs)
          (mem-filter_of (λ r. str_eq r.check_id check.id) run runs listed own) fits

    newest_run :
        (run other : ReviewRun)
        → run ∷ [] ≡ latest_of date_parse (current_runs check context runs)
        → Memᴰ other runs
        → str_eq other.check_id check.id ≡ true
        → in_current_context other check context ≡ true
        → (at_most (tested_at other) (tested_at run) ≡ true)
          × (same_instant (tested_at other) (tested_at run) ≡ true → other ≡ run)
    unfolding instant
    newest_run run other e listed own fits =
        let line = current_runs check context runs in
        let best = newest_of date_parse none line in
        let at_best : ReviewRun → Bool = λ r. same_instant (tested_at r) best in
        let m = of_line other listed own fits in
        let (_, same) = mem-filter at_best run line (subst (Memᴰ run) e (head refl)) in
        (
          at_most_same (tested_at other) (tested_at run) best same
              (newest_of-bounds none line other m),
          λ k. only (
              subst (Memᴰ other) (sym e) (
                mem-filter_of at_best other line m
                  (same_instant_trans (tested_at other) (tested_at run) best k same))),
        )
      where
        only : Memᴰ other (run ∷ []) → other ≡ run
        only (head k) = k
        only (tail m) = absurd (not-nil m)

    passed_status :
        (run : ReviewRun)
        → is_result run.result state.status ≡ true
        → is_passed_result run.result ≡ true
        → is_passed state.status ≡ true
    passed_status run h k = ground arith

    current_of :
        (run : ReviewRun)
        → run ∷ [] ≡ latest_of date_parse (current_runs check context runs)
        → state_of_run date_parse
            (any (is_broken date_parse runs known_checks context.assessed_at) (own_runs check runs))
            state
            context
            run
          ≡ current
        → IsCurrent run
    unfolding instant
    current_of run e h =
        let line = current_runs check context runs in
        let broken = is_broken date_parse runs known_checks context.assessed_at in
        let k = state_of_run-current (any broken (own_runs check runs)) run h in
        let at_best : ReviewRun → Bool =
          λ r. same_instant (tested_at r) (newest_of date_parse none line) in
        let place =
          in_line run ((mem-filter at_best run line (subst (Memᴰ run) e (head refl))).0) in
        record {
          listed = place.0;
          own = place.1;
          fits = place.2;
          passed_run = k.4;
          passed_state = passed_status run k.2 k.4;
          cited = k.3;
          on_time = k.1;
          clean = λ other m own.
              any-mem broken other (own_runs check runs) k.0
                (mem-filter_of (λ r. str_eq r.check_id check.id) other runs m own);
          newest = λ other. newest_run run other e;
        }

    -- A review reads as current only on a run of the check in the release context that passed, that the
    -- check's passed status and its evidence agree with, that is not past its next review, and that
    -- every other run of the check in the context was tested before, while no run of the check has a
    -- data problem or an id of another run's.
    pub read_review-IsCurrent :
        (read_review date_parse check state runs context known_checks).state ≡ current
        → (run : ReviewRun) × ((read_review date_parse check state runs context known_checks).latest
            ≡ some run)
          × IsCurrent run
    unfolding read_review
    read_review-IsCurrent = found (latest_of date_parse (current_runs check context runs)) refl
      where
        found :
            (line : List ReviewRun)
            → line ≡ latest_of date_parse (current_runs check context runs)
            → (let reading : ReviewReading =
                  read_latest date_parse state context
                    (any
                      (is_broken date_parse runs known_checks context.assessed_at)
                      (own_runs check runs))
                    line in
                reading.state ≡ current
                → (run : ReviewRun) × (reading.latest ≡ some run) × IsCurrent run)
        found [] e h = absurd (ground arith)
        found (run ∷ []) e h = (run, refl, current_of run e h)
        found (run ∷ other ∷ more) e h = absurd (ground arith)
