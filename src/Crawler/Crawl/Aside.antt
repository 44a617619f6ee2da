-- ===== src/Crawler/Crawl/Aside.antt =====
-- The requests of packages/crawler/src/crawl.ts outside the walk: before it the seed's other spellings, other
-- agents and the environments; after it icons, links off the site, a redirect map, a key file and assets,
-- and the two lookups about the host, whose answers are left out. Lanes of links off the site are drawn as
-- in `Crawler.Loading`: the one whose turn it is stands first.
use seo_optimizer.Prelude.{
  ℕ, zero, suc, String, true, not, ◌&&◌, Option, none, some, List, [], ◌∷◌, ◌++◌, map, filter_map,
  ltb, has, str_eq, if◌then◌else◌, length, get_or, any, take, lookup, insert, values, is_some,
  flat_map, distinct_from,
}
use text.Mathlib.Text.{starts_with}
use seo_optimizer.Crawler.Hosts.{host_variants, registrable_domain, strip_port}
use seo_optimizer.Crawler.Url.{Url, UrlStandard, normalize_url, host}
use seo_optimizer.Crawler.Frontier.{QueueEntry}
use seo_optimizer.Crawler.Crawl.{
  Web, Setting, CrawledPage, FetchResult, ExtractedLink, AuxiliaryReason, Act, M, ◌>>=◌, ◌>>◌, pure,
  act, negotiates, looks_up, goes, stop_if_cancelled, pace, ask, host_variant, icon,
  user_agent_test, external_link, asset, environment, redirect_map, indexnow_key,
}
use seo_optimizer.Crawler.Crawl.Walk.{links_of}
use seo_optimizer.Crawler.Loading.{is_waiting, snoc}

abbrev pub max_icon_fetches : ℕ
max_icon_fetches = 3

abbrev pub max_ua_tests : ℕ
max_ua_tests = 12

abbrev pub max_environments : ℕ
max_environments = 2

abbrev pub max_redirect_map_fetches : ℕ
max_redirect_map_fetches = 500

abbrev pub max_external_link_fetches : ℕ
max_external_link_fetches = 30

abbrev pub max_external_links_per_host : ℕ
max_external_links_per_host = 3

abbrev pub max_asset_fetches : ℕ
max_asset_fetches = 20

-- `[...new Set(xs)]`.
abbrev distinct : List String → List String
distinct xs = distinct_from [] xs

abbrev host_text : UrlStandard → Option Url → Option String
host_text standard none = none
host_text standard (some u) = some (host standard u)

unfoldable pub host_of : UrlStandard → String → Option String
host_of standard url = host_text standard (standard.parse url)

-- A request that an `extra` asks for under another agent, or for an environment.
pub record Errand : Type 0 where
  pub reason : AuxiliaryReason
  pub url : String
  pub environment : Option String
  pub user_agent : Option String

abbrev pub plain : AuxiliaryReason → String → Errand
plain reason url = record { reason = reason; url = url; environment = none; user_agent = none }

-- The lanes of links off the site: for a page's links, a lane for each host.
abbrev add_target : List String → String → List String
add_target lane url =
    if ltb (length lane) max_external_links_per_host && not (has lane url)
    then snoc lane url
    else lane

abbrev add_external :
    List String → List (String × List String) → String → Option String → List (String × List String)
add_external site_hosts lanes url none = lanes
add_external site_hosts lanes url (some h) =
    if has site_hosts h then lanes else insert h (add_target (get_or (lookup h lanes) []) url) lanes

-- The draws of the loop, up to a link or the end.
unfoldable pub draw_external : ℕ → List (List String) → Option (String × List (List String))
draw_external zero lanes = none
draw_external (suc fuel) [] = none
draw_external (suc fuel) ([] ∷ others) =
    let later = draw_external fuel (snoc others []) in if any is_waiting others then later else none
draw_external (suc fuel) ((next ∷ lane) ∷ others) = some (next, snoc others lane)

-- The page of least depth, the first among equals.
abbrev shallower : CrawledPage → CrawledPage → CrawledPage
shallower a b = if ltb b.entry.depth a.entry.depth then b else a

abbrev root_from : CrawledPage → List CrawledPage → CrawledPage
root_from best [] = best
root_from best (page ∷ pages) = root_from (shallower best page) pages

abbrev pub root_of : List CrawledPage → Option CrawledPage
root_of [] = none
root_of (page ∷ pages) = some (root_from page pages)

abbrev icons_of : Option CrawledPage → List String
icons_of none = []
icons_of (some page) = elim page.extracted [ none ↦ [] | some x ↦ x.icons ]

abbrev assets_of : CrawledPage → List String
assets_of page = elim page.extracted [ none ↦ [] | some x ↦ x.stylesheets ++ x.scripts ]

-- `root?.fetch.error === null ? root.fetch.finalUrl : null`.
abbrev pub landed_of : Option CrawledPage → Option String
landed_of none = none
landed_of (some page) = if is_some page.fetch.error then none else some page.fetch.final_url

abbrev drawn_then :
    (List (List String) → List String) → Option (String × List (List String)) → List String
drawn_then rest none = []
drawn_then rest (some (url, lanes)) = url ∷ rest lanes

module _ (web : Web) (setting : Setting) where
  abbrev pub add_answer : Errand → FetchResult → M (Unit {0})
  add_answer e result c = goes tt (record c {
    auxiliary = snoc c.auxiliary (record {
      reason = e.reason;
      url = e.url;
      environment = e.environment;
      user_agent = e.user_agent;
      fetch = result;
    });
  })

  unfoldable pub aside : Errand → M (Unit {0})
  aside e = do
    pace web setting
    result ← ask web setting e.url (get_or e.user_agent setting.options.user_agent)
    add_answer e result

  -- A loop of errands, each behind the signal.
  unfoldable pub run_errands : List Errand → M (Unit {0})
  unfolding aside
  run_errands [] = pure tt
  run_errands (e ∷ errands) = do stop_if_cancelled web setting; aside e; run_errands errands

  abbrev agent_test : String → Errand
  agent_test agent = record {
    reason = user_agent_test;
    url = setting.site.first_seed;
    environment = none;
    user_agent = some agent;
  }

  abbrev environment_errand : String × String → Errand
  environment_errand (name, url) = record {
    reason = environment;
    url = url;
    environment = some name;
    user_agent = none;
  }

  -- Before the walk.
  abbrev pub errands_before : List Errand
  errands_before =
      map (plain host_variant) (host_variants web.standard setting.site.first_seed)
      ++ (map agent_test (take max_ua_tests (distinct setting.options.user_agent_tests))
          ++ map environment_errand (take max_environments setting.options.environments))

  abbrev site_hosts : List CrawledPage → List String
  site_hosts pages =
      filter_map (host_of web.standard)
        (setting.options.seeds ++ map (λ (page : CrawledPage). page.fetch.final_url) pages)

  abbrev external_target :
      QueueEntry
      → List String
      → List (String × List String)
      → Option String
      → List (String × List String)
  external_target e hosts lanes none = lanes
  external_target e hosts lanes (some url) =
      if str_eq url e.normalized_url
      then lanes
      else add_external hosts lanes url (host_of web.standard url)

  abbrev external_links :
      QueueEntry
      → List String
      → List (String × List String)
      → List ExtractedLink
      → List (String × List String)
  external_links e hosts lanes [] = lanes
  external_links e hosts lanes (link ∷ links) =
      external_links e hosts
        (external_target e hosts lanes (normalize_url web.standard true link.url)) links

  abbrev external_lanes :
      List String → List (String × List String) → List CrawledPage → List (String × List String)
  external_lanes hosts lanes [] = lanes
  external_lanes hosts lanes (page ∷ pages) =
      external_lanes hosts
        (external_links page.entry hosts lanes (links_of web setting page.extracted)) pages

  -- The links that the loop draws, at most so many.
  unfoldable pub external_draws : ℕ → List (List String) → List String
  unfolding draw_external
  external_draws zero lanes = []
  external_draws (suc budget) lanes =
      drawn_then (external_draws budget) (draw_external (suc (length lanes)) lanes)

  unfoldable pub external_of : List CrawledPage → List String
  unfolding external_draws
  external_of pages =
      external_draws max_external_link_fetches (values (external_lanes (site_hosts pages) [] pages))

  abbrev key_errands : Option String → List Errand
  key_errands none = []
  key_errands (some url) = plain indexnow_key url ∷ []

  -- After the walk.
  abbrev pub errands_after : List CrawledPage → List Errand
  errands_after pages =
      map (plain icon) (take max_icon_fetches (distinct (icons_of (root_of pages))))
      ++ (map (plain external_link) (external_of pages)
          ++ (map (plain redirect_map)
                (take max_redirect_map_fetches (distinct setting.options.redirect_map_urls))
              ++ (key_errands setting.options.index_now_key_url
                  ++ map (plain asset)
                      (take max_asset_fetches (distinct (flat_map assets_of pages))))))

  abbrev pub visit_host : Act → M (Unit {0})
  visit_host a = do stop_if_cancelled web setting; pace web setting; λ c. goes tt (act a c)

  abbrev pub negotiate_at : Option String → M (Unit {0})
  negotiate_at none = pure tt
  negotiate_at (some url) =
      if starts_with url "https://" then visit_host (negotiates url) else pure tt

  abbrev pub look_up_host : Option String → M (Unit {0})
  look_up_host none = pure tt
  look_up_host (some host) =
      if is_some (registrable_domain web.is_ip (strip_port host))
      then visit_host (looks_up (strip_port host))
      else pure tt

  abbrev pub host_landed : Option String → Option String
  host_landed none = none
  host_landed (some url) = host_of web.standard url

  unfoldable pub after_walk : M (Unit {0})
  unfolding run_errands external_of
  after_walk c =
      (do
        run_errands (errands_after c.pages)
        negotiate_at (landed_of (root_of c.pages))
        look_up_host (host_landed (landed_of (root_of c.pages))))
        c

  unfoldable pub before_walk : M (Unit {0})
  unfolding run_errands
  before_walk = run_errands errands_before
