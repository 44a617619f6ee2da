-- ===== src/JobStore/Refines.antt =====
-- Workers that share a table see what they would see of the in-memory store.
use seo_optimizer.Prelude.{ℕ, ◌≡◌, refl, ap, ◌∙◌, String, Bool, List, [], ◌∷◌}
use seo_optimizer.Queue.Types.{StoredJob}
use seo_optimizer.Queue.Handlers.{Reply}
use seo_optimizer.Queue.MemoryStore.{Rows, load, adopt, save, acquire, remove, renew}
use seo_optimizer.JobStore.{
  Table, PostgresJobStore, OrderBy, loadable, load_rows, adopt_rows, save_row, acquire_row,
  remove_row, renew_rows,
}
use seo_optimizer.JobStore.Shown.{handle_of, IsShown}
use seo_optimizer.JobStore.Writes.{IsWritable, save-Agrees, acquire-Agrees, remove-Agrees}
use seo_optimizer.JobStore.Renewals.{AreKept, renew-Agrees}
use seo_optimizer.JobStore.Ordering.{IsOrdering, HaveOwnAges}
use seo_optimizer.JobStore.Loads.{HaveOwnAdoptable, load-Agrees, adopt-Agrees}

-- The methods of `JobStore`.
pub data Call (P : Type 0) : Type 0 where
  loads adopts : Call P
  saves acquires : StoredJob P → Call P
  removes : String → Call P
  renews : List String → Call P

pub data Answer (P : Type 0) : Type 0 where
  jobs : List (StoredJob P) → Answer P
  saved : Reply Unit → Answer P
  granted : Reply Bool → Answer P
  removed : Answer P
  lost : List String → Answer P

-- A worker calls the store, the database's clock reads so much, and it sorts rows so.
pub record Turn (P : Type 0) : Type 0 where
  pub worker : PostgresJobStore
  pub now : ℕ
  pub order_by : OrderBy P
  pub call : Call P

module _ {P : Type 0} where
  abbrev answer_with : {S A : Type 0} → (A → Answer P) → A × S → Answer P × S
  answer_with f (a, state) = (f a, state)

  abbrev pub on_table : Turn P → Table P → Answer P × Table P
  on_table turn t = elim turn.call [
    | loads ↦ answer_with jobs (load_rows turn.order_by turn.worker turn.now t)
    | adopts ↦ answer_with jobs (adopt_rows turn.order_by turn.worker turn.now t)
    | saves job ↦ answer_with saved (save_row turn.worker turn.now job t)
    | acquires job ↦ answer_with granted (acquire_row turn.worker turn.now job t)
    | removes id ↦ (removed, remove_row turn.worker turn.now id t)
    | renews ids ↦ answer_with lost (renew_rows turn.worker turn.now ids t)
  ]

  abbrev pub in_memory : Turn P → Rows P → Answer P × Rows P
  in_memory turn rows = elim turn.call [
    | loads ↦ answer_with jobs (load (handle_of turn.worker) turn.now rows)
    | adopts ↦ answer_with jobs (adopt (handle_of turn.worker) turn.now rows)
    | saves job ↦ answer_with saved (save (handle_of turn.worker) turn.now job rows)
    | acquires job ↦ answer_with granted (acquire (handle_of turn.worker) turn.now job rows)
    | removes id ↦ (removed, remove (handle_of turn.worker) turn.now id rows)
    | renews ids ↦ answer_with lost (renew (handle_of turn.worker) turn.now ids rows)
  ]

  -- What the queue keeps to: it writes down outstanding jobs, whose age does not change, and renews jobs that
  -- are its own still, or gone, or taken over by a worker whose claim is live. Of a query that sorts: the
  -- database gives the rows selected, the oldest first, and no two of them have one age.
  abbrev pub IsProper : Turn P → Table P → Type 0
  IsProper turn t = elim turn.call [
    | loads ↦ IsOrdering turn.order_by × HaveOwnAges (loadable turn.worker turn.now t)
    | adopts ↦ IsOrdering turn.order_by × HaveOwnAdoptable turn.worker turn.now t
    | saves job ↦ IsWritable job t
    | acquires job ↦ IsWritable job t
    | removes id ↦ Unit
    | renews ids ↦ AreKept turn.worker turn.now ids t
  ]

  -- Every turn is proper when it comes.
  abbrev pub AreProper : List (Turn P) → Table P → Type 0
  AreProper [] t = Unit
  AreProper (turn ∷ turns) t = IsProper turn t × AreProper turns (on_table turn t).1

  unfoldable pub run_table : List (Turn P) → Table P → List (Answer P) × Table P
  run_table [] t = ([], t)
  run_table (turn ∷ turns) t =
      let rest = run_table turns (on_table turn t).1 in ((on_table turn t).0 ∷ rest.0, rest.1)

  unfoldable pub run_memory : List (Turn P) → Rows P → List (Answer P) × Rows P
  run_memory [] rows = ([], rows)
  run_memory (turn ∷ turns) rows =
      let rest = run_memory turns (in_memory turn rows).1 in
      ((in_memory turn rows).0 ∷ rest.0, rest.1)

  turn-Agrees :
      (turn : Turn P) (t : Table P) (rows : Rows P)
      → IsProper turn t
      → IsShown t rows
      → ((on_table turn t).0 ≡ (in_memory turn rows).0)
        × IsShown (on_table turn t).1 (in_memory turn rows).1
  turn-Agrees turn t rows p shown = by_call turn.worker turn.now turn.order_by turn.call p
    where
      by_call :
          (worker : PostgresJobStore) (now : ℕ) (order_by : OrderBy P) (call : Call P)
          → let this : Turn P = record {
            worker = worker;
            now = now;
            order_by = order_by;
            call = call;
          } in
            IsProper this t
            → ((on_table this t).0 ≡ (in_memory this rows).0)
              × IsShown (on_table this t).1 (in_memory this rows).1
      by_call worker now order_by loads (o, own) =
          let a = load-Agrees worker now o t rows own shown in (ap jobs a.0, a.1)
      by_call worker now order_by adopts (o, own) =
          let a = adopt-Agrees worker now o t rows own shown in (ap jobs a.0, a.1)
      by_call worker now order_by (saves job) p =
          let a = save-Agrees worker now job t rows p shown in (ap saved a.0, a.1)
      by_call worker now order_by (acquires job) p =
          let a = acquire-Agrees worker now job t rows p shown in (ap granted a.0, a.1)
      by_call worker now order_by (removes id) p = (refl, remove-Agrees worker now id t rows shown)
      by_call worker now order_by (renews ids) p =
          let a = renew-Agrees worker now ids t rows p shown in (ap lost a.0, a.1)

  -- Workers call a table in any order, one transaction after the other (so that no row is locked when a query
  -- comes to it), each under its own name and lease, at any times of the database's clock. They write down
  -- outstanding jobs only, a job keeps its age, and a worker renews no row that nobody owns and none of another
  -- worker's whose claim has aged out. A load or an adoption finds no two rows of one age among those it
  -- selects, and the database gives these the oldest first. An in-memory store shows the same jobs with the
  -- same claims at the start, and its leases are one unit of time longer. Then each call answers the same on
  -- both, and the store shows the table at the end.
  pub run_table-refines :
      (turns : List (Turn P)) (t : Table P) (rows : Rows P)
      → AreProper turns t
      → IsShown t rows
      → ((run_table turns t).0 ≡ (run_memory turns rows).0)
        × IsShown (run_table turns t).1 (run_memory turns rows).1
  unfolding run_table run_memory
  run_table-refines [] t rows p shown = (refl, shown)
  run_table-refines (turn ∷ turns) t rows (p, ps) shown =
      let here = turn-Agrees turn t rows p shown in
      let rest = run_table-refines turns (on_table turn t).1 (in_memory turn rows).1 ps here.1 in
      (
        ap (λ a. a ∷ (run_table turns (on_table turn t).1).0) here.0
            ∙ ap (λ answers. (in_memory turn rows).0 ∷ answers) rest.0,
        rest.1,
      )
