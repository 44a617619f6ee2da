-- ===== src/Crawler/Frontier/Scope.antt =====
-- What may stand in a lane.
use seo_optimizer.Prelude.{
  ℕ, ◌≡◌, ◌≤◌, inl, inr, subst, String, true, false, Option, some, List, [], ◌∷◌, ◌++◌, has, ltb,
  All, arith, Bool-cases,
}
use seo_optimizer.Crawler.Frontier.{
  QueueEntry, Site, Lane, to_walk, to_listed, Frontier, admit, enqueue, target, enqueue_rule,
  may_fetch, push,
}
use seo_optimizer.Crawler.Frontier.Turns.{Took, from_walk, from_listed}

-- The entry is a page of the site, within the depth budget, that robots.txt allows.
pub record IsInScope (site : Site) (e : QueueEntry) : Type 0 where
  pub normal : target site e.url ≡ some e.normalized_url
  pub within : e.depth ≤ site.max_depth
  pub allowed : may_fetch site e.normalized_url ≡ true

pub record IsScoped (site : Site) (f : Frontier) : Type 0 where
  pub walk : All (IsInScope site) f.walk
  pub listed : All (IsInScope site) f.listed
  pub blocked : All (λ s. may_fetch site s ≡ false) f.blocked

pub All-snoc {ℓ κ} :
    {A : Type ℓ} (P : A → Type κ) (xs : List A) {x : A} → All P xs → P x → All P (xs ++ x ∷ [])
All-snoc P [] h p = (p, tt)
All-snoc P (x ∷ xs) h p = (h.0, All-snoc P xs h.1 p)

module _ (site : Site) where
  pushed :
      (lane : Lane) {entry : QueueEntry} (f : Frontier) (key : String)
      → IsInScope site entry
      → IsScoped site f
      → IsScoped site (push lane entry (record f { queued = key ∷ f.queued }))
  pushed to_walk f key e h = record {
    walk = All-snoc (IsInScope site) f.walk h.walk e;
    listed = h.listed;
    blocked = h.blocked;
  }
  pushed to_listed f key e h = record {
    walk = h.walk;
    listed = All-snoc (IsInScope site) f.listed h.listed e;
    blocked = h.blocked;
  }

  admit-IsScoped :
      (lane : Lane) (url normalized : String) (depth : ℕ) (from : Option String) (f : Frontier)
      → target site url ≡ some normalized
      → IsScoped site f
      → IsScoped site (admit site lane url normalized depth from f)
  unfolding admit
  admit-IsScoped lane url normalized depth from f t h =
      elim (Bool-cases (has f.queued normalized)) [
        | inl e ↦ rw e h
        | inr e ↦ rw e (elim (Bool-cases (ltb site.max_depth depth)) [
          | inl d ↦ rw d (record { walk = h.walk; listed = h.listed; blocked = h.blocked })
          | inr d ↦ rw d (elim (Bool-cases (may_fetch site normalized)) [
            | inl m ↦ rw m (
                pushed lane f normalized (record { normal = t; within = ground arith; allowed = m })
                  h)
            | inr m ↦ rw m (record {
              walk = h.walk;
              listed = h.listed;
              blocked = All-snoc (λ s. may_fetch site s ≡ false) f.blocked h.blocked m;
            })
          ])
        ])
      ]

  pub enqueue-IsScoped :
      (lane : Lane) (url : String) (depth : ℕ) (from : Option String) (f : Frontier)
      → IsScoped site f
      → IsScoped site (enqueue site lane url depth from f)
  enqueue-IsScoped lane url depth from f h =
      enqueue_rule (IsScoped site) site lane url depth from f h
        (λ normalized e. admit-IsScoped lane url normalized depth from f e h)

  pub Took-IsScoped :
      {entry : QueueEntry} {f g : Frontier}
      → Took entry f g
      → IsScoped site f
      → IsInScope site entry × IsScoped site g
  Took-IsScoped {entry} {f} {g} (from_walk w l k) h =
      let held : All (IsInScope site) (entry ∷ g.walk) = subst (All (IsInScope site)) w h.walk in
      (held.0, record { walk = held.1; listed = rw l h.listed; blocked = rw k.blocked h.blocked })
  Took-IsScoped {entry} {f} {g} (from_listed l w k) h =
      let held : All (IsInScope site) (entry ∷ g.listed) =
        subst (All (IsInScope site)) l h.listed in
      (held.0, record { walk = rw w h.walk; listed = held.1; blocked = rw k.blocked h.blocked })
