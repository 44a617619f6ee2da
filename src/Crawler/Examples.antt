-- ===== src/Crawler/Examples.antt =====
-- The results on packages/crawler/src at a small robots.txt.
mod Shop
mod Visit
use seo_optimizer.Prelude.{
  ◌≡◌, refl, String, true, false, Option, none, some, List, [], ◌∷◌, str_eq, if◌then◌else◌, clean,
}
use seo_optimizer.Prelude.Codes.{codes, lower_codes}
use seo_optimizer.Crawler.Robots.{
  RobotsRule, Robots, matches, glob, group_for, is_allowed, decide_rules, judged, anchored, body,
}
use seo_optimizer.Crawler.Robots.Parse.{parse_robots, read_lines, read_line, read_field, flush}
use seo_optimizer.Crawler.Sitemap.{
  XmlEvent, opens, texts, closes, read_sitemap, read_events, on_event, local_name,
}
use seo_optimizer.Crawler.Sitemap.Printing.{
  Tags, IsSpelled, WrittenVideo, WrittenNews, WrittenUrl, urlset_events, urlset_content,
}
use seo_optimizer.Crawler.Sitemap.RoundTrip.{read_sitemap-urlset_events}
use seo_optimizer.Crawler.Robots.Patterns.{Begins, matches-Begins}
use seo_optimizer.Crawler.Robots.Groups.{Applies, tokens, group_for-Applies}
use seo_optimizer.Crawler.Robots.Rules.{IsPermitted, is_allowed-IsPermitted}

abbrev shop_rules : List RobotsRule
shop_rules =
    record { allow = false; path = "/cart" }
    ∷ record { allow = true; path = "/cart/*.html$" }
    ∷ record { allow = false; path = "/*.php" }
    ∷ []

abbrev robots : Robots
robots = record {
  groups = record { agents = "*" ∷ []; rules = shop_rules; crawl_delay = none } ∷ [];
  sitemaps = [];
  absent = false;
}

abbrev path_in : String → Option String
path_in url = if str_eq url "https://shop.example/cart/a.html" then some "/cart/a.html" else none

page_matches : matches "/cart/*.html$" "/cart/a.html" ≡ true
unfolding matches glob
page_matches = refl

page_allowed : is_allowed path_in robots "Auditor" "https://shop.example/cart/a.html" ≡ true
unfolding is_allowed group_for judged decide_rules matches glob
page_allowed = refl

matches-Begins_example :
    Begins (body (codes "/cart/*.html$")) (anchored (codes "/cart/*.html$")) (codes "/cart/a.html")
matches-Begins_example = (matches-Begins "/cart/*.html$" "/cart/a.html").0 page_matches

is_allowed-IsPermitted_example :
    IsPermitted robots.absent
      (group_for robots "Auditor")
      (path_in "https://shop.example/cart/a.html")
      (is_allowed path_in robots "Auditor" "https://shop.example/cart/a.html")
is_allowed-IsPermitted_example =
    is_allowed-IsPermitted path_in robots "Auditor" "https://shop.example/cart/a.html"

group_for-Applies_example :
    Applies (lower_codes (codes "Auditor")) (tokens robots.groups) (group_for robots "Auditor")
group_for-Applies_example = group_for-Applies robots "Auditor"

-- A rule in each of two groups, a comment, an empty Disallow and a sitemap.
two_groups :
    parse_robots
      (λ s. none)
      "User-agent: A\nUSER-AGENT: b\nDisallow: /x # no\n\nUser-agent: *\r\nDisallow:\nAllow: /y\nSitemap: /s"
    ≡ record {
      groups =
          record {
            agents = "a" ∷ "b" ∷ [];
            rules = record { allow = false; path = "/x" } ∷ [];
            crawl_delay = none;
          }
          ∷ record {
            agents = "*" ∷ [];
            rules = record { allow = true; path = "/y" } ∷ [];
            crawl_delay = none;
          }
          ∷ [];
      sitemaps = "/s" ∷ [];
      absent = false;
    }
unfolding parse_robots read_lines read_line read_field flush
two_groups = refl

-- A page with a video, whose title comes in two pieces and whose player is blank.
abbrev video_sitemap : List XmlEvent
video_sitemap =
    opens "urlset"
    ∷ opens "url"
    ∷ opens "loc"
    ∷ texts " https://shop.example/v "
    ∷ closes "loc"
    ∷ opens "vid:Video"
    ∷ opens "vid:title"
    ∷ texts "A  fi"
    ∷ texts "lm"
    ∷ closes "vid:title"
    ∷ opens "vid:player_loc"
    ∷ texts "  "
    ∷ closes "vid:player_loc"
    ∷ closes "vid:Video"
    ∷ closes "url"
    ∷ closes "urlset"
    ∷ []

video_read : read_sitemap true video_sitemap [] ≡ record {
  urls = "https://shop.example/v" ∷ [];
  sitemaps = [];
  videos =
      record {
        loc = "https://shop.example/v";
        title = some "A film";
        description = none;
        thumbnail_url = none;
        content_url = none;
        player_url = none;
      }
      ∷ [];
  news = [];
}
unfolding read_sitemap read_events on_event clean local_name
video_read = refl

abbrev tags : Tags
tags = record {
  video = "video:video";
  title = "video:title";
  description = "video:description";
  thumbnail_loc = "video:thumbnail_loc";
  content_loc = "video:content_loc";
  player_loc = "VIDEO:player_loc";
  news = "news:news";
  publication = "news:publication";
  name = "news:name";
  language = "news:language";
  publication_date = "n:publication_date";
}

tags-IsSpelled : IsSpelled tags
unfolding local_name
tags-IsSpelled = record {
  video = refl;
  title = refl;
  description = refl;
  thumbnail_loc = refl;
  content_loc = refl;
  player_loc = refl;
  news = refl;
  publication = refl;
  name = refl;
  language = refl;
  publication_date = refl;
}

abbrev film : WrittenVideo
film = record {
  title = some ("A  fi" ∷ "lm" ∷ []);
  description = none;
  thumbnail_loc = none;
  content_loc = none;
  player_loc = some (" " ∷ []);
}

abbrev report : WrittenNews
report = record {
  name = some ("The Shop" ∷ []);
  language = none;
  publication_date = some ("2026-01-05" ∷ []);
  title = some ("Opening" ∷ []);
}

abbrev written : List WrittenUrl
written =
    record { loc = " /v " ∷ []; videos = film ∷ []; news = report ∷ [] }
    ∷ record { loc = []; videos = film ∷ []; news = [] }
    ∷ []

read_sitemap-urlset_events_example :
    read_sitemap true (urlset_events tags written) [] ≡ urlset_content written
read_sitemap-urlset_events_example = read_sitemap-urlset_events tags tags-IsSpelled written
