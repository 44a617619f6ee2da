-- ===== src/Queue/Invariant/Entries.antt =====
-- The changes of one entry keep it sound.
use seo_optimizer.Prelude.{ℕ, ◌≡◌, refl, true, false, List, [], ◌∷◌, ◌++◌, arith}
use seo_optimizer.Queue.Types.{StoreCall, Entry, Durability, is_terminal, is_pending}
use seo_optimizer.Queue.State.{
  WriteKind, save_op, remove_op, store_call, Settlement, completes, fails, cancels, settle_entry,
}
use seo_optimizer.Queue.Schedule.{run_entry}
use seo_optimizer.Queue.Handlers.{after_first, advance_chain}
use seo_optimizer.Queue.Invariant.{IsSound, is_create, no_create, starts_create, tail_clean}

no_create-snoc :
    {P : Type 0} (cs : List (StoreCall P)) (c : StoreCall P)
    → is_create c ≡ false
    → no_create (cs ++ c ∷ []) ≡ no_create cs
no_create-snoc [] c h = ground arith
no_create-snoc (StoreCall.create job ∷ cs) c h = refl
no_create-snoc (StoreCall.save job ∷ cs) c h = no_create-snoc cs c h
no_create-snoc (StoreCall.acquire job ∷ cs) c h = no_create-snoc cs c h
no_create-snoc (StoreCall.remove id ∷ cs) c h = no_create-snoc cs c h

chain-snoc :
    {P : Type 0} (cs : List (StoreCall P)) (c : StoreCall P)
    → is_create c ≡ false
    → (tail_clean (cs ++ c ∷ []) ≡ tail_clean cs)
      × (starts_create (cs ++ c ∷ []) ≡ starts_create cs)
chain-snoc [] c h = (refl, h)
chain-snoc (d ∷ cs) c h = (no_create-snoc cs c h, refl)

starts_of_clean :
    {P : Type 0} (cs : List (StoreCall P)) → no_create cs ≡ true → starts_create cs ≡ false
starts_of_clean [] h = refl
starts_of_clean (c ∷ cs) h = ground arith

tail_of_clean : {P : Type 0} (cs : List (StoreCall P)) → no_create cs ≡ true → tail_clean cs ≡ true
tail_of_clean [] h = refl
tail_of_clean (StoreCall.create job ∷ cs) h = cc
tail_of_clean (StoreCall.save job ∷ cs) h = h
tail_of_clean (StoreCall.acquire job ∷ cs) h = h
tail_of_clean (StoreCall.remove id ∷ cs) h = h

chain-after_first :
    {P : Type 0} (cs : List (StoreCall P))
    → tail_clean cs ≡ true
    → (tail_clean (after_first cs) ≡ true) × (starts_create (after_first cs) ≡ false)
chain-after_first [] h = (refl, refl)
chain-after_first (c ∷ cs) h = (tail_of_clean cs h, starts_of_clean cs h)

module _ {P R : Type 0} where
  pub store_call-ne-create : (op : WriteKind) (e : Entry P R) → is_create (store_call op e) ≡ false
  store_call-ne-create save_op e = refl
  store_call-ne-create remove_op e = refl

  pub chained-IsSound :
      (e : Entry P R) (c : StoreCall P)
      → is_create c ≡ false
      → IsSound e
      → IsSound (record e { store_chain = e.store_chain ++ c ∷ [] })
  chained-IsSound e c h s = ground (arith, chain-snoc e.store_chain c h)

  pub advance_chain-IsSound : (e : Entry P R) → IsSound e → IsSound (advance_chain e)
  advance_chain-IsSound e s = ground (arith, chain-after_first e.store_chain s.one_create)

  pub durable-IsSound :
      (e : Entry P R)
      → IsSound e
      → IsSound (record (advance_chain e) { durability = Durability.stored })
  durable-IsSound e s = ground (arith, chain-after_first e.store_chain s.one_create)

  pub run_entry-IsSound :
      (stamp : ℕ) (e : Entry P R)
      → is_terminal e.state ≡ false
      → is_pending e.durability ≡ false
      → IsSound e
      → IsSound (run_entry stamp e)
  run_entry-IsSound stamp e t p s = ground arith

  pub settle_entry-IsSound :
      (x : Settlement R) (stamp : ℕ) (e : Entry P R) → IsSound e → IsSound (settle_entry x stamp e)
  settle_entry-IsSound (completes result) stamp e s = ground arith
  settle_entry-IsSound (fails cause) stamp e s = ground arith
  settle_entry-IsSound (cancels cause) stamp e s = ground arith
