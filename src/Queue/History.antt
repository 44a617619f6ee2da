-- ===== src/Queue/History.antt =====
-- packages/queue/src/queue.ts: what `#remember` keeps of the finished jobs.
use seo_optimizer.Prelude.{
  ℕ, ◌≡◌, ◌≤◌, ◌<◌, refl, ap, inl, inr, String, true, false, not, List, [], ◌∷◌, ◌++◌, ltb,
  str_eq_refl, length, length-append, all, is_some, lookup, delete, lookup-delete, arith,
  Bool-cases,
}
use seo_optimizer.Queue.State.{Queue, evict, remember}

-- The oldest ids are dropped, and with them what is known of them; what is left is as many as may be.
pub record IsEvicted (limit : ℕ) (ids : List String) (kept : List String)
    (by_id : List (String × ℕ)) : Type 0 where
  pub dropped : List String
  pub split : ids ≡ dropped ++ kept
  pub few : length kept ≤ limit
  pub no_more : 0 < length dropped → length kept ≡ limit
  pub gone : all (λ id. not (is_some (lookup id by_id))) dropped ≡ true

evict-keeps_none :
    (limit : ℕ) (ids : List String) (by_id : List (String × ℕ)) (id : String)
    → is_some (lookup id by_id) ≡ false
    → is_some (lookup id (evict limit ids by_id).1) ≡ false
evict-keeps_none limit [] by_id id h = h
evict-keeps_none limit (i ∷ ids) by_id id h =
    ground (arith, evict-keeps_none limit ids (delete i by_id) id, lookup-delete i id by_id)

zero_of : (n : ℕ) → ltb 0 n ≡ false → n ≡ 0
zero_of n h = ground arith

evict_lem :
    (limit : ℕ) (ids : List String) (by_id : List (String × ℕ))
    → IsEvicted limit ids (evict limit ids by_id).0 (evict limit ids by_id).1
evict_lem limit [] by_id = record {
  dropped = [];
  split = refl;
  few = omega arith;
  no_more = λ h. absurd (omega arith);
  gone = refl;
}
evict_lem limit (id ∷ ids) by_id = elim (Bool-cases (ltb limit (length (id ∷ ids)))) [
  | inl e ↦
      let ih = evict_lem limit ids (delete id by_id) in
      rw e (record {
        dropped = id ∷ ih.dropped;
        split = ap (λ rest. id ∷ rest) ih.split;
        few = ih.few;
        no_more = λ h. full ih (ground arith);
        gone = ground (
          arith,
          ih.gone,
          evict-keeps_none limit ids (delete id by_id) id,
          lookup-delete id id by_id,
          str_eq_refl id,
        );
      })
  | inr e ↦ rw e (record {
    dropped = [];
    split = refl;
    few = ground arith;
    no_more = λ h. absurd (omega arith);
    gone = refl;
  })
]
  where
    full :
        IsEvicted limit ids
          (evict limit ids (delete id by_id)).0
          (evict limit ids (delete id by_id)).1
        → limit ≤ length ids
        → length (evict limit ids (delete id by_id)).0 ≡ limit
    full ih h = elim (Bool-cases (ltb 0 (length ih.dropped))) [
      | inl some_ ↦ ih.no_more (ground arith)
      | inr none_ ↦ omega (
        arith,
        ih.few,
        ap length ih.split,
        length-append ih.dropped (evict limit ids (delete id by_id)).0,
        zero_of (length ih.dropped) none_,
      )
    ]

module _ {P R : Type 0} where
  -- After a job is remembered the history is the newest ids, at most `historyLimit` of them; an id that
  -- was dropped is no longer known by the queue, and none is dropped while there is room.
  pub remember-IsEvicted :
      (id : String) (q : Queue P R)
      → IsEvicted q.history_limit
          (q.finished ++ id ∷ [])
          (remember id q).finished
          (remember id q).by_id
  unfolding remember
  remember-IsEvicted id q = evict_lem q.history_limit (q.finished ++ id ∷ []) q.by_id
