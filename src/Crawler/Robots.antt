-- ===== src/Crawler/Robots.antt =====
-- packages/crawler/src/robots.ts, from the parsed file on: the group for an agent, its delay, whether a path
-- pattern matches, and whether a URL may be fetched. A group's delay is kept in milliseconds, rounded; the
-- source keeps seconds, and rounds where the delay is read. `path_of` stands for `new URL(url)`: its `pathname` and
-- `search` joined, or `none` where it throws. Texts are read as the list of their characters' codes.
pub mod Patterns
pub mod Rules
pub mod Groups
pub mod Parse
use seo_optimizer.Prelude.{
  ℕ, suc, ◌+◌, String, Bool, true, false, not, ◌&&◌, ◌||◌, Option, none, some, List, [], ◌∷◌, ◌==◌,
  ltb, str_eq, if◌then◌else◌, get_or,
}
use seo_optimizer.Prelude.Int.{ℤ, pos}
use seo_optimizer.Prelude.Codes.{codes, lower_codes, includes, utf16_length}

pub record RobotsRule : Type 0 where
  pub allow : Bool
  pub path : String

pub record RobotsGroup : Type 0 where
  pub agents : List String
  pub rules : List RobotsRule
  pub crawl_delay : Option ℤ

pub record Robots : Type 0 where
  pub groups : List RobotsGroup
  pub sitemaps : List String
  pub absent : Bool

-- The variables of the loop of `groupFor`; `none` is null, and `best_length` is one more than the source's,
-- which begins at -1.
pub record Choice : Type 0 where
  pub best : Option RobotsGroup
  pub best_length : ℕ
  pub wildcard : Option RobotsGroup

abbrev pub first_of : Option RobotsGroup → RobotsGroup → Option RobotsGroup
first_of none group = some group
first_of (some first) group = some first

abbrev pub consider : List ℕ → RobotsGroup → Choice → String → Choice
consider agent group c candidate =
    if str_eq candidate "*"
    then record c { wildcard = first_of c.wildcard group }
    else if includes agent (codes candidate)
        && ltb c.best_length (suc (utf16_length (codes candidate)))
    then record c { best = some group; best_length = suc (utf16_length (codes candidate)) }
    else c

abbrev pub consider_agents : List ℕ → RobotsGroup → Choice → List String → Choice
consider_agents agent group c [] = c
consider_agents agent group c (candidate ∷ candidates) =
    consider_agents agent group (consider agent group c candidate) candidates

abbrev pub consider_groups : List ℕ → Choice → List RobotsGroup → Choice
consider_groups agent c [] = c
consider_groups agent c (group ∷ groups) =
    consider_groups agent (consider_agents agent group c group.agents) groups

abbrev pub either_group : Option RobotsGroup → Option RobotsGroup → Option RobotsGroup
either_group none wildcard = wildcard
either_group (some best) wildcard = some best

unfoldable pub group_for : Robots → String → Option RobotsGroup
group_for robots user_agent =
    let c =
      consider_groups (lower_codes (codes user_agent))
        (record { best = none; best_length = 0; wildcard = none }) robots.groups in
    either_group c.best c.wildcard

-- `.` matches no line end.
abbrev pub is_line_end : ℕ → Bool
is_line_end n = n == 10 || n == 13 || n == 8232 || n == 8233

abbrev pub star : ℕ
star = 42

-- `.*` and what follows it.
abbrev pub star_from : (List ℕ → Bool) → List ℕ → Bool
star_from rest [] = rest []
star_from rest (d ∷ s) = rest (d ∷ s) || not (is_line_end d) && star_from rest s

-- The expression that `matches` builds, from the start of the path: a `*` is `.*`, every other character
-- is itself, and `$` stands at the end where the pattern is anchored.
unfoldable pub glob : List ℕ → Bool → List ℕ → Bool
glob [] anchored [] = true
glob [] anchored (d ∷ s) = not anchored
glob (c ∷ p) anchored [] = c == star && glob p anchored []
glob (c ∷ p) anchored (d ∷ s) =
    let skip = star_from (glob p anchored) (d ∷ s) in
    let step = glob p anchored s in if c == star then skip else c == d && step

-- `pattern.endsWith('$')`, and the pattern without it.
abbrev pub anchored : List ℕ → Bool
anchored [] = false
anchored (c ∷ []) = c == 36
anchored (c ∷ d ∷ p) = anchored (d ∷ p)

abbrev pub body : List ℕ → List ℕ
body [] = []
body (c ∷ []) = if c == 36 then [] else c ∷ []
body (c ∷ d ∷ p) = c ∷ body (d ∷ p)

unfoldable pub matches : String → String → Bool
unfolding glob
matches pattern path = glob (body (codes pattern)) (anchored (codes pattern)) (codes path)

-- The variables of the loop of `isAllowed`; `winning` is `none` for -1.
pub record Ruling : Type 0 where
  pub decision : Bool
  pub winning : Option ℕ

abbrev pub rule_length : RobotsRule → ℕ
rule_length rule = utf16_length (codes rule.path)

abbrev pub wins : RobotsRule → Option ℕ → Bool
wins rule none = true
wins rule (some winning) =
    ltb winning (rule_length rule) || rule_length rule == winning && rule.allow

unfoldable pub decide_rules : String → Ruling → List RobotsRule → Ruling
unfolding matches
decide_rules path r [] = r
decide_rules path r (rule ∷ rules) =
    if matches rule.path path && wins rule r.winning
    then decide_rules path (record { decision = rule.allow; winning = some (rule_length rule) })
        rules
    else decide_rules path r rules

-- `isAllowed` behind its guards, of which each that holds allows.
unfoldable pub judged : (absent : Bool) → Option RobotsGroup → Option String → Bool
unfolding decide_rules
judged true group path = true
judged false none path = true
judged false (some group) none = true
judged false (some group) (some path) =
    (decide_rules path (record { decision = true; winning = none }) group.rules).decision

unfoldable pub is_allowed : (path_of : String → Option String) → Robots → String → String → Bool
unfolding judged
is_allowed path_of robots user_agent url =
    judged robots.absent (group_for robots user_agent) (path_of url)

abbrev pub delay_of : Option RobotsGroup → ℤ
delay_of none = pos 0
delay_of (some group) = get_or group.crawl_delay (pos 0)

unfoldable pub crawl_delay_ms : Robots → String → ℤ
crawl_delay_ms robots user_agent = delay_of (group_for robots user_agent)
