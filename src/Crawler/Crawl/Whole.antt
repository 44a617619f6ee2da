-- ===== src/Crawler/Crawl/Whole.antt =====
-- `crawl` of packages/crawler/src/crawl.ts, from the options to the result. `crawledAt` and the copy of the
-- settings are left out of the result.
pub mod Frames
pub mod Reach
pub mod Accounts
pub mod Results
pub mod Pacing
use seo_optimizer.Prelude.{
  ℕ, String, Bool, true, false, not, ◌&&◌, Option, none, some, List, [], ◌∷◌, ◌++◌, map, filter,
  ltb, has, if◌then◌else◌,
}
use seo_optimizer.Prelude.Int.{ℤ, pos_part}
use seo_optimizer.Crawler.Robots.{Robots, crawl_delay_ms}
use seo_optimizer.Crawler.Frontier.{
  QueueEntry, Site, Lane, to_walk, to_listed, Frontier, enqueue, may_fetch,
}
use seo_optimizer.Crawler.Loading.{
  LoadedRobots, Sitemaps, SitemapFetch, SitemapVideoEntry, SitemapNewsEntry, Load, loads, cancels,
  fails, load_robots, load_sitemaps, nothing_loaded,
}
use seo_optimizer.Crawler.Crawl.{
  Act, Web, Setting, CrawlOptions, Crawling, CrawledPage, AuxiliaryFetch, Run, M, ◌>>=◌, ◌>>◌, pure,
  goes, stops,
}
use seo_optimizer.Crawler.Crawl.Walk.{walk}
use seo_optimizer.Crawler.Crawl.Aside.{before_walk, after_walk}

pub record CrawlResult : Type 0 where
  pub seeds : List String
  pub pages : List CrawledPage
  pub robots : LoadedRobots
  pub sitemaps : Sitemaps
  pub blocked_by_robots : List String
  pub not_reached : List String
  pub auxiliary : List AuxiliaryFetch
  pub trace : List Act

-- `crawl` throws without a seed, where an address cannot be made from the first one, and where it is
-- cancelled; what it did is done.
pub data CrawlOutcome : Type 0 where
  no_seed : CrawlOutcome
  unresolved : List Act → CrawlOutcome
  cancelled : List Act → List CrawledPage → CrawlOutcome
  crawled : CrawlResult → CrawlOutcome

-- `Math.max(requestDelayMs, crawlDelayMs(...))`.
abbrev pub longer_delay : ℕ → ℤ → ℕ
longer_delay ms delay = if ltb ms (pos_part delay) then pos_part delay else ms

abbrev pub enqueue_all : Site → Lane → List String → Frontier → Frontier
enqueue_all site lane [] f = f
enqueue_all site lane (url ∷ urls) f = enqueue_all site lane urls (enqueue site lane url 0 none f)

abbrev pub empty_frontier : Frontier
empty_frontier = record {
  walk = [];
  listed = [];
  queued = [];
  blocked = [];
  beyond_depth = [];
  turn = false;
}

abbrev pub normal_of : QueueEntry → String
normal_of e = e.normalized_url

abbrev pub unexplored : Site → Frontier → List String
unexplored site f =
    map normal_of f.walk
    ++ (map normal_of f.listed
        ++ filter (λ url. not (has f.queued url) && may_fetch site url) f.beyond_depth)

module _ (web : Web) where
  abbrev pub when : Bool → M (Unit {0}) → M (Unit {0})
  when false m = pure tt
  when true m = m

  abbrev pub setting_of : CrawlOptions → String → Robots → List Act → Setting
  setting_of options seed robots loaded = record {
    options = options;
    site = record {
      standard = web.standard;
      first_seed = seed;
      max_depth = options.max_depth;
      respect_robots = options.respect_robots;
      robots = robots;
      user_agent = options.user_agent;
    };
    delay_ms = longer_delay options.request_delay_ms (crawl_delay_ms robots options.user_agent);
    loaded = loaded;
  }

  abbrev pub begin : Setting → List String → Crawling
  begin setting urls = record {
    frontier =
        enqueue_all setting.site to_listed urls
          (enqueue_all setting.site to_walk setting.options.seeds empty_frontier);
    pages = [];
    auxiliary = [];
    first = true;
    trace = [];
  }

  -- All from the first request after robots.txt and the sitemaps.
  unfoldable pub explore : Setting → M (Unit {0})
  unfolding walk
  explore setting = do
    when setting.options.auxiliary (before_walk web setting)
    walk web setting setting.options.max_pages
    when setting.options.auxiliary (after_walk web setting)

  abbrev pub result_of : Setting → LoadedRobots → Sitemaps → Crawling → CrawlResult
  result_of setting loaded sitemaps c = record {
    seeds = setting.options.seeds;
    pages = c.pages;
    robots = loaded;
    sitemaps = sitemaps;
    blocked_by_robots = c.frontier.blocked;
    not_reached = unexplored setting.site c.frontier;
    auxiliary = c.auxiliary;
    trace = c.trace;
  }

  abbrev pub outcome_of : Setting → LoadedRobots → Sitemaps → Run (Unit {0}) → CrawlOutcome
  outcome_of setting loaded sitemaps (goes u c) = crawled (result_of setting loaded sitemaps c)
  outcome_of setting loaded sitemaps (stops c) = cancelled c.trace c.pages

  abbrev pub after_loading :
      (options : CrawlOptions) → String → LoadedRobots → Load web options → CrawlOutcome
  after_loading options seed loaded fails = unresolved loaded.trace
  after_loading options seed loaded (cancels s) = cancelled s.trace []
  after_loading options seed loaded (loads sitemaps) =
      let setting = setting_of options seed loaded.robots sitemaps.trace in
      outcome_of setting loaded sitemaps (explore setting (begin setting sitemaps.urls))

  abbrev pub sitemaps_of : (options : CrawlOptions) → String → LoadedRobots → Load web options
  sitemaps_of options seed loaded =
      if not options.follow_sitemaps
      then loads (nothing_loaded web options [] loaded.trace)
      else load_sitemaps web options loaded.robots seed loaded.trace

  abbrev pub crawl_with : CrawlOptions → String → Option LoadedRobots → CrawlOutcome
  crawl_with options seed none = unresolved []
  crawl_with options seed (some loaded) =
      after_loading options seed loaded (sitemaps_of options seed loaded)

  abbrev pub crawl_from : CrawlOptions → String → CrawlOutcome
  crawl_from options seed =
      if web.aborted []
      then cancelled [] []
      else crawl_with options seed (load_robots web options seed)

  abbrev pub crawl_seeds : CrawlOptions → List String → CrawlOutcome
  crawl_seeds options [] = no_seed
  crawl_seeds options (seed ∷ seeds) = crawl_from options seed

  unfoldable pub crawl : CrawlOptions → CrawlOutcome
  unfolding explore
  crawl options = crawl_seeds options options.seeds
