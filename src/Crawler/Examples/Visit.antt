-- ===== src/Crawler/Examples/Visit.antt =====
-- The results on a whole crawl, at a small site.
use seo_optimizer.Prelude.{◌≡◌, refl, String, List, [], ◌∷◌, map, clean, concat}
use seo_optimizer.Crawler.Url.{normalize_url, is_same_site, strip_keys, strip_query, is_listed}
use seo_optimizer.Crawler.Robots.{is_allowed, group_for, judged, decide_rules, matches, glob}
use seo_optimizer.Crawler.Robots.Parse.{parse_robots, read_lines, read_line, read_field, flush}
use seo_optimizer.Crawler.Sitemap.{read_sitemap, read_events, on_event, local_name}
use seo_optimizer.Crawler.Frontier.{may_fetch, path_of, admit, target, enqueue, next_entry}
use seo_optimizer.Crawler.Loading.{
  load_robots, load_sitemaps, load_documents, draw, fetch_document, add_document, roots_of,
  allow_all,
}
use seo_optimizer.Crawler.Loading.Documents.{LoadEnds, load_sitemaps-ends}
use seo_optimizer.Crawler.Crawl.{CrawledPage, pace, sleep, ask, stop_if_cancelled}
use seo_optimizer.Crawler.Crawl.Walk.{walk, visit, fetch_entry, discover, enqueue_links}
use seo_optimizer.Crawler.Crawl.Walk.Invariant.{IsWithin}
use seo_optimizer.Crawler.Crawl.Whole.{
  CrawlOutcome, no_seed, unresolved, cancelled, crawled, crawl, explore, begin, setting_of,
}
use seo_optimizer.Crawler.Crawl.Whole.Results.{
  Ends, IsAccounted, site_of, crawl-IsWithin, crawl-IsAccounted,
}
use seo_optimizer.Crawler.Crawl.Whole.Pacing.{HasPaced, explore-HasPaced}
use seo_optimizer.Crawler.Examples.Shop.{web, options, home, mailed, cart}

abbrev fetched : CrawlOutcome → List String
fetched no_seed = []
fetched (unresolved trace) = []
fetched (cancelled trace pages) = []
fetched (crawled r) = map (λ (page : CrawledPage). page.entry.normalized_url) r.pages

abbrev kept_out : CrawlOutcome → List String
kept_out no_seed = []
kept_out (unresolved trace) = []
kept_out (cancelled trace pages) = []
kept_out (crawled r) = r.blocked_by_robots

-- The home page once, by either spelling, and the cart not.
home_once : fetched (crawl web options) ≡ home ∷ []
unfolding crawl explore load_robots load_sitemaps load_documents draw fetch_document add_document
    parse_robots read_lines read_line read_field flush read_sitemap read_events on_event clean
    local_name enqueue admit target normalize_url strip_query strip_keys is_listed is_same_site
    may_fetch path_of is_allowed group_for judged decide_rules matches glob walk visit fetch_entry
    discover enqueue_links pace sleep ask stop_if_cancelled next_entry concat
home_once = refl

cart_out : kept_out (crawl web options) ≡ cart ∷ []
unfolding crawl explore load_robots load_sitemaps load_documents draw fetch_document add_document
    parse_robots read_lines read_line read_field flush read_sitemap read_events on_event clean
    local_name enqueue admit target normalize_url strip_query strip_keys is_listed is_same_site
    may_fetch path_of is_allowed group_for judged decide_rules matches glob walk visit fetch_entry
    discover enqueue_links pace sleep ask stop_if_cancelled next_entry concat
cart_out = refl

load_sitemaps-ends_example :
    LoadEnds web options
      (roots_of web options allow_all mailed)
      []
      (load_sitemaps web options allow_all mailed [])
load_sitemaps-ends_example = load_sitemaps-ends web options allow_all mailed []

crawl-IsWithin_example :
    Ends web options mailed
      (λ pages. IsWithin (site_of web options mailed) 3 pages)
      (λ r. IsWithin (site_of web options mailed) 3 r.pages)
      (crawl web options)
crawl-IsWithin_example = crawl-IsWithin web options mailed [] refl

crawl-IsAccounted_example :
    Ends web options mailed (λ pages. Unit) (IsAccounted web options mailed) (crawl web options)
crawl-IsAccounted_example = crawl-IsAccounted web options mailed [] refl

explore-HasPaced_example : HasPaced web (setting_of web options mailed allow_all []) (
    explore web
      (setting_of web options mailed allow_all [])
      (begin web (setting_of web options mailed allow_all []) (cart ∷ [])))
explore-HasPaced_example =
    explore-HasPaced web (setting_of web options mailed allow_all []) (cart ∷ [])
