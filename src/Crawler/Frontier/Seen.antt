-- ===== src/Crawler/Frontier/Seen.antt =====
-- What `enqueue` remembers of a URL: that it was queued, or that it lies too deep.
use seo_optimizer.Prelude.{
  ℕ, ◌≡◌, refl, String, Bool, true, ◌&&◌, ◌||◌, Option, none, some, List, [], ◌∷◌, ◌++◌, str_eq,
  has, ltb, arith, eq_iff,
}
use seo_optimizer.Crawler.Frontier.{
  Site, Lane, to_walk, to_listed, Frontier, admit, enqueue, target, enqueue_rule, admit_target,
}

-- The flag says that the URL was met too deep.
abbrev pub is_seen : Bool → Frontier → Option String → Bool
is_seen deep f none = true
is_seen deep f (some n) = has f.queued n || deep && has f.beyond_depth n

-- What was seen stays seen.
abbrev pub Grows : Frontier → Frontier → Type 0
Grows f g = (deep : Bool) (o : Option String) → is_seen deep f o ≡ true → is_seen deep g o ≡ true

pub Grows-refl : (f : Frontier) → Grows f f
Grows-refl f deep o h = h

pub Grows-trans : (f g h : Frontier) → Grows f g → Grows g h → Grows f h
Grows-trans f g h p q deep o s = q deep o (p deep o s)

has-snoc : (xs : List String) (y n : String) → has (xs ++ y ∷ []) n ≡ (has xs n || str_eq y n)
has-snoc [] y n = ground arith
has-snoc (x ∷ xs) y n = ground (arith, has-snoc xs y n)

module _ (site : Site) where
  admit-Grows :
      (lane : Lane) (url normalized : String) (depth : ℕ) (from : Option String) (f : Frontier)
      → Grows f (admit site lane url normalized depth from f)
  unfolding admit
  admit-Grows lane url normalized depth from f deep none h = refl
  admit-Grows to_walk url normalized depth from f deep (some n) h =
      ground (arith, has-snoc f.beyond_depth normalized n)
  admit-Grows to_listed url normalized depth from f deep (some n) h =
      ground (arith, has-snoc f.beyond_depth normalized n)

  admit-is_seen :
      (lane : Lane) (url normalized : String) (depth : ℕ) (from : Option String) (f : Frontier)
      → is_seen
          (ltb site.max_depth depth)
          (admit site lane url normalized depth from f)
          (some normalized)
        ≡ true
  unfolding admit
  admit-is_seen to_walk url normalized depth from f =
      ground (arith, has-snoc f.beyond_depth normalized normalized, eq_iff normalized normalized)
  admit-is_seen to_listed url normalized depth from f =
      ground (arith, has-snoc f.beyond_depth normalized normalized, eq_iff normalized normalized)

  pub enqueue-Grows :
      (lane : Lane) (url : String) (depth : ℕ) (from : Option String) (f : Frontier)
      → Grows f (enqueue site lane url depth from f)
  enqueue-Grows lane url depth from f =
      enqueue_rule (Grows f) site lane url depth from f (Grows-refl f)
        (λ normalized e. admit-Grows lane url normalized depth from f)

  pub enqueue-is_seen :
      (lane : Lane) (url : String) (depth : ℕ) (from : Option String) (f : Frontier)
      → is_seen (ltb site.max_depth depth) (enqueue site lane url depth from f) (target site url)
        ≡ true
  unfolding enqueue
  enqueue-is_seen lane url depth from f = admitted (target site url)
    where
      admitted :
          (o : Option String)
          → is_seen (ltb site.max_depth depth) (admit_target site lane url o depth from f) o ≡ true
      admitted none = refl
      admitted (some normalized) = admit-is_seen lane url normalized depth from f
