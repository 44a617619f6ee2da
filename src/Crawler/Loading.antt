-- ===== src/Crawler/Loading.antt =====
-- What packages/crawler/src/crawl.ts reads before the walk: robots.txt and the sitemaps. Of the lanes the one
-- whose turn it is stands first, and goes last when it is drawn from. A document's `fetchedAt` is left out.
pub mod Draws
pub mod Documents
use seo_optimizer.Prelude.{
  ℕ, zero, suc, ◌+◌, ◌*◌, ◌≡◌, String, Bool, true, false, not, ◌&&◌, ◌||◌, Option, none, some, List,
  [], ◌∷◌, ◌++◌, map, ltb, leb, has, if◌then◌else◌, length, get_or, any, ◌==◌,
}
use seo_optimizer.Prelude.Int.{ℤ, pos_part}
use seo_optimizer.Crawler.Url.{normalize_url}
use seo_optimizer.Crawler.Robots.{Robots, RobotsRule, RobotsGroup, crawl_delay_ms}
use seo_optimizer.Crawler.Robots.Parse.{parse_robots}
use seo_optimizer.Crawler.Sitemap.{ParsedSitemap, SitemapVideo, SitemapNews, read_sitemap}
use seo_optimizer.Crawler.Crawl.{Act, asks, Web, FetchResult, CrawlOptions}

abbrev pub allow_all : Robots
allow_all = record { groups = []; sitemaps = []; absent = true }

-- A site that cannot say what its rules are is stayed out of.
abbrev pub deny_all : Robots
deny_all = record {
  groups =
      record {
        agents = "*" ∷ [];
        rules = record { allow = false; path = "/" } ∷ [];
        crawl_delay = none;
      }
      ∷ [];
  sitemaps = [];
  absent = false;
}

-- `robots`, `text` and `status` of `loadRobots`; the outer `none` of the status is absent.
pub record LoadedRobots : Type 0 where
  pub robots : Robots
  pub text : Option String
  pub status : Option (Option ℕ)
  pub trace : List Act

pub record SitemapFetch : Type 0 where
  pub url : String
  pub status : Option ℕ
  pub url_count : ℕ
  pub video_count : ℕ
  pub news_count : ℕ
  pub truncated : Bool

pub record SitemapVideoEntry : Type 0 where
  pub video : SitemapVideo
  pub sitemap : String

pub record SitemapNewsEntry : Type 0 where
  pub item : SitemapNews
  pub sitemap : String

-- The variables of `loadSitemaps`; of the set `seen` only membership and size are asked.
pub record Sitemaps : Type 0 where
  pub lanes : List (List String)
  pub seen : List String
  pub urls : List String
  pub documents : List SitemapFetch
  pub videos : List SitemapVideoEntry
  pub news : List SitemapNewsEntry
  pub trace : List Act

abbrev pub max_sitemap_documents : ℕ
max_sitemap_documents = 50

abbrev pub snoc {ℓ} : {A : Type ℓ} → List A → A → List A
snoc xs x = xs ++ x ∷ []

abbrev pub is_waiting : List String → Bool
is_waiting [] = false
is_waiting (url ∷ lane) = true

abbrev pub total : List (List String) → ℕ
total [] = 0
total (lane ∷ lanes) = length lane + total lanes

-- A document that was not asked for yet, and the lanes after it: its own lane last.
pub record Draw : Type 0 where
  pub next : String
  pub lane : List String
  pub others : List (List String)

-- The rounds of the loop up to a document that is new; `none` where the lanes are empty.
unfoldable pub draw : ℕ → List String → List (List String) → Option Draw
draw zero seen lanes = none
draw (suc fuel) seen [] = none
draw (suc fuel) seen ([] ∷ others) =
    let later = draw fuel seen (snoc others []) in if any is_waiting others then later else none
draw (suc fuel) seen ((next ∷ lane) ∷ others) =
    let later = draw fuel seen (snoc others lane) in
    if has seen next then later else some (record { next = next; lane = lane; others = others })

-- Each round empties a lane by one or passes one that is empty.
abbrev pub enough : List (List String) → ℕ
enough lanes = total lanes * suc (length lanes) + length lanes + 1

abbrev pub add_normal : List String → Option String → List String
add_normal urls none = urls
add_normal urls (some url) = if has urls url then urls else snoc urls url

abbrev pub is_200 : Option ℕ → Bool
is_200 none = false
is_200 (some status) = status == 200

module _ (web : Web) (options : CrawlOptions) where
  abbrev robots_of : FetchResult → Option ℕ → List Act → LoadedRobots
  robots_of result none trace = record {
    robots = allow_all;
    text = none;
    status = some none;
    trace = trace;
  }
  robots_of result (some status) trace =
      if leb 500 status
      then record {
        robots = deny_all;
        text = some result.body;
        status = some (some status);
        trace = trace;
      }
      else if leb 400 status
      then record { robots = allow_all; text = none; status = some (some status); trace = trace }
      else record {
        robots = parse_robots web.milliseconds result.body;
        text = some result.body;
        status = some (some status);
        trace = trace;
      }

  abbrev ask_robots : Option String → Option LoadedRobots
  ask_robots none = none
  ask_robots (some url) =
      let result = web.request [] url options.user_agent in
      some (robots_of result result.status (asks url options.user_agent ∷ []))

  -- `none` where the address of robots.txt cannot be made, which throws.
  unfoldable pub load_robots : String → Option LoadedRobots
  load_robots origin =
      if not options.respect_robots
      then some (record { robots = allow_all; text = none; status = none; trace = [] })
      else ask_robots (web.resolve "/robots.txt" origin)

  abbrev add_urls : List String → List String → List String
  add_urls urls [] = urls
  add_urls urls (url ∷ more) = add_urls (add_normal urls (normalize_url web.standard true url)) more

  abbrev video_entry : String → SitemapVideo → SitemapVideoEntry
  video_entry sitemap v = record {
    video = record v { loc = get_or (normalize_url web.standard true v.loc) v.loc };
    sitemap = sitemap;
  }

  abbrev news_entry : String → SitemapNews → SitemapNewsEntry
  news_entry sitemap n = record {
    item = record n { loc = get_or (normalize_url web.standard true n.loc) n.loc };
    sitemap = sitemap;
  }

  abbrev pub parsed_of : FetchResult → ParsedSitemap
  parsed_of result =
      read_sitemap (not result.truncated) (web.xml_events result.body) (web.xml_ending result.body)

  abbrev pub failed_document : Draw → FetchResult → SitemapFetch
  failed_document d result = record {
    url = d.next;
    status = result.status;
    url_count = 0;
    video_count = 0;
    news_count = 0;
    truncated = result.truncated;
  }

  abbrev pub read_document : Draw → FetchResult → ParsedSitemap → SitemapFetch
  read_document d result parsed = record {
    url = d.next;
    status = result.status;
    url_count = length parsed.urls;
    video_count = length parsed.videos;
    news_count = length parsed.news;
    truncated = result.truncated;
  }

  -- What a document adds. `s` has it among the seen, and its lane taken out of the lanes.
  unfoldable pub add_document : Draw → FetchResult → ParsedSitemap → Sitemaps → Sitemaps
  add_document d result parsed s =
      if not (is_200 result.status)
      then record s {
        lanes = snoc d.others d.lane;
        documents = snoc s.documents (failed_document d result);
      }
      else record s {
        lanes = snoc d.others (d.lane ++ parsed.sitemaps);
        urls = add_urls s.urls parsed.urls;
        videos = s.videos ++ map (video_entry d.next) parsed.videos;
        news = s.news ++ map (news_entry d.next) parsed.news;
        documents = snoc s.documents (read_document d result parsed);
      }

  unfoldable pub fetch_document : Draw → Sitemaps → Sitemaps
  unfolding add_document
  fetch_document d s =
      let result = web.request s.trace d.next options.user_agent in
      add_document d result (parsed_of result)
        (record s { seen = d.next ∷ s.seen; trace = asks d.next options.user_agent ∷ s.trace })

  -- Goes on, is cancelled, or has no address to ask for, which throws.
  pub data Load : Type 0 where
    loads cancels : Sitemaps → Load
    fails : Load

  abbrev pub load_drawn : (Sitemaps → Load) → Sitemaps → Option Draw → Load
  load_drawn rest s none = loads (record s { lanes = [] })
  load_drawn rest s (some d) = rest (fetch_document d s)

  -- The loop, for as many documents as may still be asked for. The rounds of one `draw` ask nothing, so the
  -- signal that they all look at is one.
  unfoldable pub load_documents : ℕ → Sitemaps → Load
  unfolding fetch_document draw
  load_documents zero s = loads s
  load_documents (suc budget) s =
      if any is_waiting s.lanes
      then (if web.aborted s.trace
          then cancels s
          else load_drawn (load_documents budget) s (draw (enough s.lanes) s.seen s.lanes))
      else loads s

  abbrev pub one_lane : String → List String
  one_lane root = root ∷ []

  abbrev one_root : Option String → Option (List String)
  one_root none = none
  one_root (some root) = some (root ∷ [])

  abbrev pub roots_of : Robots → String → Option (List String)
  roots_of robots origin =
      if is_waiting robots.sitemaps
      then some robots.sitemaps
      else one_root (web.resolve "/sitemap.xml" origin)

  abbrev pub nothing_loaded : List String → List Act → Sitemaps
  nothing_loaded roots trace = record {
    lanes = map one_lane roots;
    seen = [];
    urls = [];
    documents = [];
    videos = [];
    news = [];
    trace = trace;
  }

  abbrev pub load_roots : List Act → Option (List String) → Load
  load_roots trace none = fails
  load_roots trace (some roots) = load_documents max_sitemap_documents (nothing_loaded roots trace)

  unfoldable pub load_sitemaps : Robots → String → List Act → Load
  unfolding load_documents
  load_sitemaps robots origin trace = load_roots trace (roots_of robots origin)
