-- ===== src/Crawler/Robots/Parse.antt =====
-- `parseRobots` of packages/crawler/src/robots.ts: the lines of a robots.txt. `milliseconds` stands for
-- `Number.parseFloat`, `none` where that is not finite, times 1000 and rounded.
use Prim.Native.Char.{Char, code}
use Prim.Native.String.{[], ◌∷◌}
use seo_optimizer.Prelude.{
  String, Bool, true, false, not, ◌&&◌, ◌||◌, Option, none, some, List, ◌++◌, ◌==◌, str_eq,
  if◌then◌else◌, trim, to_lower_case,
}
use seo_optimizer.Prelude.Int.{ℤ}
use seo_optimizer.Crawler.Robots.{RobotsRule, RobotsGroup, Robots, is_line_end}

-- `text.split(/\r?\n/)`.
abbrev starts_line : String → Bool
starts_line [] = false
starts_line (c ∷ s) = code c == 10

abbrev onto_first : Char → List String → List String
onto_first c List.[] = List.[]
onto_first c (List.◌∷◌ line lines) = List.◌∷◌ (c ∷ line) lines

abbrev pub split_lines : String → List String
split_lines [] = List.◌∷◌ "" List.[]
split_lines (c ∷ s) =
    let rest = split_lines s in
    if code c == 10
    then List.◌∷◌ "" rest
    else if code c == 13 && starts_line s
    then rest
    else onto_first c rest

abbrev one_line : String → Bool
one_line [] = true
one_line (c ∷ s) = not (is_line_end (code c)) && one_line s

-- `raw.replace(/#.*$/, '')`: `.` stops at a line end, which may stand inside a line of the file.
abbrev pub strip_comment : String → String
strip_comment [] = ""
strip_comment (c ∷ s) =
    let rest = strip_comment s in if code c == b'#' && one_line s then "" else c ∷ rest

abbrev onto_field : Char → Option (String × String) → Option (String × String)
onto_field c none = none
onto_field c (some (field, value)) = some (c ∷ field, value)

-- The line before and after its first colon.
abbrev pub split_colon : String → Option (String × String)
split_colon [] = none
split_colon (c ∷ s) =
    let rest = onto_field c (split_colon s) in if code c == b':' then some ("", s) else rest

-- The variables of the loop of `parseRobots`.
pub record Parsing : Type 0 where
  pub groups : List RobotsGroup
  pub sitemaps : List String
  pub agents : List String
  pub rules : List RobotsRule
  pub crawl_delay : Option ℤ
  pub collecting_agents : Bool

abbrev no_agents : List String → Bool
no_agents List.[] = true
no_agents (List.◌∷◌ agent agents) = false

abbrev flushed : Parsing → List RobotsGroup
flushed p =
    if no_agents p.agents
    then p.groups
    else p.groups
      ++ List.◌∷◌ (record { agents = p.agents; rules = p.rules; crawl_delay = p.crawl_delay })
          List.[]

unfoldable pub flush : Parsing → Parsing
flush p = record p { groups = flushed p; agents = List.[]; rules = List.[]; crawl_delay = none }

abbrev begin_agents : Parsing → Parsing
begin_agents p =
    if not p.collecting_agents then record (flush p) { collecting_agents = true } else p

abbrev add_agent : String → Parsing → Parsing
add_agent agent p = record p { agents = p.agents ++ List.◌∷◌ agent List.[] }

abbrev add_rule : Bool → String → Parsing → Parsing
add_rule allow path p = record p {
  collecting_agents = false;
  rules =
      if not (str_eq path "")
      then p.rules ++ List.◌∷◌ (record { allow = allow; path = path }) List.[]
      else p.rules;
}

-- A delay that is no number leaves the one before it.
abbrev later_of : Option ℤ → Option ℤ → Option ℤ
later_of none old = old
later_of (some new) old = some new

module _ (milliseconds : String → Option ℤ) where
  abbrev set_delay : String → Parsing → Parsing
  set_delay value p = record p {
    collecting_agents = false;
    crawl_delay = later_of (milliseconds value) p.crawl_delay;
  }

  -- The `switch` on the field.
  unfoldable pub read_field : String → String → Parsing → Parsing
  unfolding flush
  read_field field value p =
      if str_eq field "user-agent"
      then add_agent (to_lower_case value) (begin_agents p)
      else if str_eq field "allow" || str_eq field "disallow"
      then add_rule (str_eq field "allow") value p
      else if str_eq field "crawl-delay"
      then set_delay value p
      else if str_eq field "sitemap"
      then record p { sitemaps = p.sitemaps ++ List.◌∷◌ value List.[] }
      else p

  abbrev read_parts : Option (String × String) → Parsing → Parsing
  read_parts none p = p
  read_parts (some (field, value)) p = read_field (to_lower_case (trim field)) (trim value) p

  -- One round of the loop; an empty line has no colon.
  unfoldable pub read_line : Parsing → String → Parsing
  unfolding read_field
  read_line p raw = read_parts (split_colon (trim (strip_comment raw))) p

  unfoldable pub read_lines : Parsing → List String → Parsing
  unfolding read_line
  read_lines p List.[] = p
  read_lines p (List.◌∷◌ line lines) = read_lines (read_line p line) lines

  abbrev pub nothing_read : Parsing
  nothing_read = record {
    groups = List.[];
    sitemaps = List.[];
    agents = List.[];
    rules = List.[];
    crawl_delay = none;
    collecting_agents = false;
  }

  abbrev pub parsed_of : Parsing → Robots
  parsed_of p = record { groups = p.groups; sitemaps = p.sitemaps; absent = false }

  unfoldable pub parse_robots : String → Robots
  unfolding read_lines flush
  parse_robots text = parsed_of (flush (read_lines nothing_read (split_lines text)))
