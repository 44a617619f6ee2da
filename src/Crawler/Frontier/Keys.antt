-- ===== src/Crawler/Frontier/Keys.antt =====
-- Where a URL that was queued stands: each stands in one place, once.
use seo_optimizer.Prelude.{
  ℕ, ◌+◌, ◌≡◌, String, Bool, Option, List, [], ◌∷◌, ◌++◌, str_eq, has, if◌then◌else◌, count_if,
  count_if-append, arith, eq_iff,
}
use seo_optimizer.Crawler.Frontier.{
  QueueEntry, Site, Lane, to_walk, to_listed, Frontier, admit, enqueue, entry_of, enqueue_rule,
}
use seo_optimizer.Crawler.Frontier.Turns.{Took, from_walk, from_listed}

abbrev pub is_key : String → QueueEntry → Bool
is_key key e = str_eq e.normalized_url key

abbrev pub is_text : String → String → Bool
is_text key s = str_eq s key

-- How often a URL stands among the entries taken, in a lane or among the blocked.
abbrev pub places : String → List QueueEntry → Frontier → ℕ
places key taken f =
    count_if (is_key key) taken
    + count_if (is_key key) f.walk
    + count_if (is_key key) f.listed
    + count_if (is_text key) f.blocked

abbrev pub IsCounted : List QueueEntry → Frontier → String → Type 0
IsCounted taken f key = places key taken f ≡ (if has f.queued key then 1 else 0)

module _ (site : Site) (taken : List QueueEntry) (key : String) where
  admit-IsCounted :
      (lane : Lane) (url normalized : String) (depth : ℕ) (from : Option String) (f : Frontier)
      → IsCounted taken f key
      → IsCounted taken (admit site lane url normalized depth from f) key
  unfolding admit
  admit-IsCounted to_walk url normalized depth from f h = ground (
    arith,
    eq_iff normalized key,
    count_if-append {0} (is_key key) f.walk (entry_of url normalized depth from ∷ []),
    count_if-append {0} (is_text key) f.blocked (normalized ∷ []),
  )
  admit-IsCounted to_listed url normalized depth from f h = ground (
    arith,
    eq_iff normalized key,
    count_if-append {0} (is_key key) f.listed (entry_of url normalized depth from ∷ []),
    count_if-append {0} (is_text key) f.blocked (normalized ∷ []),
  )

  pub enqueue-IsCounted :
      (lane : Lane) (url : String) (depth : ℕ) (from : Option String) (f : Frontier)
      → IsCounted taken f key
      → IsCounted taken (enqueue site lane url depth from f) key
  enqueue-IsCounted lane url depth from f h =
      enqueue_rule (λ g. IsCounted taken g key) site lane url depth from f h
        (λ normalized e. admit-IsCounted lane url normalized depth from f h)

-- An entry that is taken out of a lane stands among the taken.
pub Took-IsCounted :
    (taken : List QueueEntry) (key : String) {entry : QueueEntry} {f g : Frontier}
    → Took entry f g
    → IsCounted taken f key
    → IsCounted (taken ++ entry ∷ []) g key
Took-IsCounted taken key {entry} (from_walk w l k) c =
    ground (arith, w, l, k.queued, k.blocked, count_if-append {0} (is_key key) taken (entry ∷ []))
Took-IsCounted taken key {entry} (from_listed l w k) c =
    ground (arith, w, l, k.queued, k.blocked, count_if-append {0} (is_key key) taken (entry ∷ []))
