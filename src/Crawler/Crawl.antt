-- ===== src/Crawler/Crawl.antt =====
-- packages/crawler/src/crawl.ts: the state of a crawl and the walk. Requests, renders and the caller's signal
-- answer by all that the crawl has done so far, latest first, so a server may answer otherwise each time and
-- the signal may come at any `await`. A chunk handed to `onText` and a returned body are both `body`. Options
-- that are left out have the source's defaults; those that a request only passes on are left out.
pub mod Walk
pub mod Aside
pub mod Whole
use seo_optimizer.Prelude.{
  ℕ, zero, suc, ◌+◌, ◌≡◌, String, Bool, true, false, not, ◌&&◌, ◌||◌, Option, none, some, List, [],
  ◌∷◌, ◌++◌, ltb, leb, str_eq, opt_str_eq, if◌then◌else◌, length, is_some, lower_begins,
}
use seo_optimizer.Prelude.Int.{ℤ}
use seo_optimizer.Crawler.Url.{UrlStandard}
use seo_optimizer.Crawler.Robots.{Robots}
use seo_optimizer.Crawler.Sitemap.{XmlEvent}
use seo_optimizer.Crawler.Frontier.{QueueEntry, Site, Lane, to_walk, Frontier, enqueue, next_entry}

-- What a crawl does that others see.
pub data Act : Type 0 where
  asks : (url agent : String) → Act
  waits : ℕ → Act
  renders : (url : String) (mobile : Bool) → Act
  reports : (url : String) → Act
  negotiates looks_up : String → Act

pub record ExtractedLink : Type 0 where
  pub url : String
  pub nofollow : Bool

-- What a crawl reads of `Extracted`; `json_ld` is how many blocks there are, an icon its URL.
pub record Extracted : Type 0 where
  pub title : Option String
  pub canonical : Option String
  pub meta_robots : Option String
  pub word_count : ℕ
  pub links : List ExtractedLink
  pub json_ld : ℕ
  pub text : String
  pub icons : List String
  pub stylesheets : List String
  pub scripts : List String

-- What a crawl reads of `FetchResult`; of a redirect hop its URL.
pub record FetchResult : Type 0 where
  pub final_url : String
  pub status : Option ℕ
  pub redirect_chain : List String
  pub body : String
  pub truncated : Bool
  pub content_type : Option String
  pub error : Option String

pub record RenderResult : Type 0 where
  pub final_url : String
  pub html : String
  pub error : Option String

pub record RenderComparison : Type 0 where
  pub title_matches : Bool
  pub canonical_matches : Bool
  pub meta_robots_matches : Bool
  pub word_count_raw : ℕ
  pub word_count_rendered : ℕ
  pub link_count_raw : ℕ
  pub link_count_rendered : ℕ
  pub json_ld_count_raw : ℕ
  pub json_ld_count_rendered : ℕ
  pub text_matches : Bool

unfoldable pub compare_renders : Extracted → Extracted → RenderComparison
compare_renders raw rendered = record {
  title_matches = opt_str_eq raw.title rendered.title;
  canonical_matches = opt_str_eq raw.canonical rendered.canonical;
  meta_robots_matches = opt_str_eq raw.meta_robots rendered.meta_robots;
  word_count_raw = raw.word_count;
  word_count_rendered = rendered.word_count;
  link_count_raw = length raw.links;
  link_count_rendered = length rendered.links;
  json_ld_count_raw = raw.json_ld;
  json_ld_count_rendered = rendered.json_ld;
  text_matches = str_eq raw.text rendered.text;
}

pub record RenderedPage : Type 0 where
  pub render : RenderResult
  pub extracted : Option Extracted
  pub comparison : Option RenderComparison

-- A page keeps its entry's fields. Of the two renders, `none` is absent and `some none` is null.
pub record CrawledPage : Type 0 where
  pub entry : QueueEntry
  pub fetch : FetchResult
  pub extracted : Option Extracted
  pub rendered : Option (Option RenderedPage)
  pub rendered_mobile : Option (Option RenderedPage)

pub data AuxiliaryReason : Type 0 where
  host_variant icon user_agent_test external_link asset environment redirect_map indexnow_key :
      AuxiliaryReason

pub record AuxiliaryFetch : Type 0 where
  pub reason : AuxiliaryReason
  pub url : String
  pub environment : Option String
  pub user_agent : Option String
  pub fetch : FetchResult

-- Everything around the crawl: the platform, the network, a browser, the HTML reader, the XML parser (the
-- events of a text, and those of ending after it), `milliseconds` of a robots.txt, `isIP`, and the signal.
-- `resolve` is `new URL(path, origin).toString()`, `none` where it throws.
pub record Web : Type 0 where
  pub standard : UrlStandard
  pub resolve : String → String → Option String
  pub is_ip : String → Bool
  pub milliseconds : String → Option ℤ
  pub xml_events : String → List XmlEvent
  pub xml_ending : String → List XmlEvent
  pub request : List Act → String → String → FetchResult
  pub render : List Act → String → Bool → RenderResult
  pub extract : String → String → Extracted
  pub aborted : List Act → Bool

pub record CrawlOptions : Type 0 where
  pub seeds : List String
  pub user_agent : String
  pub max_pages : ℕ
  pub max_depth : ℕ
  pub request_delay_ms : ℕ
  pub respect_robots : Bool
  pub follow_sitemaps : Bool
  pub auxiliary : Bool
  pub user_agent_tests : List String
  pub environments : List (String × String)
  pub redirect_map_urls : List String
  pub index_now_key_url : Option String
  pub render_pages : Bool
  pub render_mobile : Bool

-- The constants of a crawl once robots.txt and the sitemaps are read; `loaded` is what that took.
pub record Setting : Type 0 where
  pub options : CrawlOptions
  pub site : Site
  pub delay_ms : ℕ
  pub loaded : List Act

-- The variables of `crawl`; `trace` is what was done since, latest first.
pub record Crawling : Type 0 where
  pub frontier : Frontier
  pub pages : List CrawledPage
  pub auxiliary : List AuxiliaryFetch
  pub first : Bool
  pub trace : List Act

-- A piece of the crawl goes on, or throws `CrawlCancelledError`.
pub data Run (A : Type 0) : Type 0 where
  goes : A → Crawling → Run A
  stops : Crawling → Run A

abbrev pub M : Type 0 → Type 0
M A = Crawling → Run A

infixl 5 ◌>>=◌ ◌>>◌
abbrev pub ◌>>=◌ : {A B : Type 0} → M A → (A → M B) → M B
◌>>=◌ m f c = elim (m c) [ goes a c' ↦ f a c' | stops c' ↦ stops c' ]

abbrev pub ◌>>◌ : {B : Type 0} → M (Unit {0}) → M B → M B
m >> k = m >>= λ _. k

abbrev pub pure : {A : Type 0} → A → M A
pure a c = goes a c

abbrev pub act : Act → Crawling → Crawling
act a c = record c { trace = a ∷ c.trace }

-- `HTML.test(contentType)`.
abbrev pub is_html : Option String → Bool
is_html none = false
is_html (some type) = lower_begins type "text/html" || lower_begins type "application/xhtml+xml"

module _ (web : Web) (setting : Setting) where
  abbrev pub history : Crawling → List Act
  history c = c.trace ++ setting.loaded

  unfoldable pub stop_if_cancelled : M (Unit {0})
  stop_if_cancelled c = if web.aborted (history c) then stops c else goes tt c

  abbrev pub waited : ℕ → M (Unit {0})
  waited ms c = if ltb 0 ms && web.aborted (history c) then stops c else goes tt c

  unfoldable pub sleep : M (Unit {0})
  unfolding stop_if_cancelled
  sleep = do
    stop_if_cancelled
    (λ c. goes tt (act (waits setting.delay_ms) c))
    waited setting.delay_ms

  -- `if (!first) await sleep(...); first = false;`.
  unfoldable pub pace : M (Unit {0})
  pace c = if c.first then goes tt (record c { first = false }) else sleep c

  unfoldable pub ask : String → String → M FetchResult
  ask url agent c = goes (web.request (history c) url agent) (act (asks url agent) c)
