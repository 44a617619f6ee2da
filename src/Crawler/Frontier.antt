-- ===== src/Crawler/Frontier.antt =====
-- The lanes of packages/crawler/src/crawl.ts: which URLs wait to be fetched, and which comes next. Of the
-- set `queued` only membership is asked, so its order is not the source's.
pub mod Scope
pub mod Keys
pub mod Turns
pub mod Seen
use seo_optimizer.Prelude.{
  ℕ, String, Bool, true, false, not, ◌||◌, Option, none, some, List, [], ◌∷◌, ◌++◌, ltb, has,
  str_eq, if◌then◌else◌, concat, ◌≡◌, inl, inr, Option-cases,
}
use seo_optimizer.Crawler.Url.{Url, UrlStandard, normalize_url, is_same_site}
use seo_optimizer.Crawler.Robots.{Robots, is_allowed}

pub record QueueEntry : Type 0 where
  pub url : String
  pub normalized_url : String
  pub depth : ℕ
  pub discovered_from : Option String

-- What `enqueue` reads of the crawl around it. `standard` stands for the platform's `URL`.
pub record Site : Type 0 where
  pub standard : UrlStandard
  pub first_seed : String
  pub max_depth : ℕ
  pub respect_robots : Bool
  pub robots : Robots
  pub user_agent : String

pub data Lane : Type 0 where
  to_walk to_listed : Lane

-- `turn` is true where `listed` comes next.
pub record Frontier : Type 0 where
  pub walk : List QueueEntry
  pub listed : List QueueEntry
  pub queued : List String
  pub blocked : List String
  pub beyond_depth : List String
  pub turn : Bool

abbrev search_text : Option String → String
search_text none = ""
search_text (some q) = if str_eq q "" then "" else concat ("?" ∷ q ∷ [])

-- `parsed.pathname + parsed.search`.
abbrev path_text : Option Url → Option String
path_text none = none
path_text (some u) = some (concat (u.path_name ∷ search_text u.query ∷ []))

unfoldable pub path_of : UrlStandard → String → Option String
path_of standard url = path_text (standard.parse url)

-- `isAllowed`, where the crawl asks it.
unfoldable pub may_fetch : Site → String → Bool
may_fetch site url =
    not site.respect_robots || is_allowed (path_of site.standard) site.robots site.user_agent url

abbrev pub entry_of : String → String → ℕ → Option String → QueueEntry
entry_of url normalized depth from = record {
  url = url;
  normalized_url = normalized;
  depth = depth;
  discovered_from = from;
}

abbrev pub push : Lane → QueueEntry → Frontier → Frontier
push Lane.to_walk entry f = record f { walk = f.walk ++ entry ∷ [] }
push Lane.to_listed entry f = record f { listed = f.listed ++ entry ∷ [] }

-- `enqueue` behind the test for the site.
unfoldable pub admit : Site → Lane → String → String → ℕ → Option String → Frontier → Frontier
admit site lane url normalized depth from f =
    if has f.queued normalized
    then f
    else if ltb site.max_depth depth
    then record f {
      beyond_depth =
          if has f.beyond_depth normalized
          then f.beyond_depth
          else f.beyond_depth ++ normalized ∷ [];
    }
    else if not (may_fetch site normalized)
    then record f { queued = normalized ∷ f.queued; blocked = f.blocked ++ normalized ∷ [] }
    else push lane (entry_of url normalized depth from)
        (record f { queued = normalized ∷ f.queued })

-- The normal form of a URL that is on the site of the first seed.
abbrev on_site : Site → Option String → Option String
on_site site none = none
on_site site (some normalized) =
    if not (is_same_site site.standard normalized site.first_seed) then none else some normalized

unfoldable pub target : Site → String → Option String
target site url = on_site site (normalize_url site.standard true url)

abbrev admit_target : Site → Lane → String → Option String → ℕ → Option String → Frontier → Frontier
admit_target site lane url none depth from f = f
admit_target site lane url (some normalized) depth from f =
    admit site lane url normalized depth from f

unfoldable pub enqueue : Site → Lane → String → ℕ → Option String → Frontier → Frontier
enqueue site lane url depth from f = admit_target site lane url (target site url) depth from f

-- `nextEntry`: the lane whose turn it is, or else the other.
abbrev pub take_turn :
    (turn : Bool) → List QueueEntry → List QueueEntry → Frontier → Option (QueueEntry × Frontier)
take_turn false (e ∷ walk) listed f = some (e, record f { walk = walk; turn = true })
take_turn false [] (e ∷ listed) f = some (e, record f { listed = listed; turn = false })
take_turn false [] [] f = none
take_turn true walk (e ∷ listed) f = some (e, record f { listed = listed; turn = false })
take_turn true (e ∷ walk) [] f = some (e, record f { walk = walk; turn = true })
take_turn true [] [] f = none

unfoldable pub next_entry : Frontier → Option (QueueEntry × Frontier)
next_entry f = take_turn f.turn f.walk f.listed f

-- `enqueue` leaves the frontier as it is, or admits the URL's normal form.
pub enqueue_rule {ℓ} :
    (P : Frontier → Type ℓ) (site : Site) (lane : Lane) (url : String) (depth : ℕ)
    (from : Option String) (f : Frontier)
    → P f
    → ((normalized : String)
        → target site url ≡ some normalized
        → P (admit site lane url normalized depth from f))
    → P (enqueue site lane url depth from f)
unfolding enqueue
enqueue_rule P site lane url depth from f same admitted = elim (Option-cases (target site url)) [
  | inl e ↦ rw e same
  | inr (normalized, e) ↦ rw e (admitted normalized e)
]
