-- ===== src/Crawler/Examples/Shop.antt =====
-- A small site for the results on packages/crawler/src: a home page, which is linked with a tracking parameter
-- too, a page that robots.txt disallows, and a sitemap.
use seo_optimizer.Prelude.{
  ◌≡◌, refl, ap, inl, inr, ◌⊎◌, String, Bool, true, false, not, Option, none, some, List, [], ◌∷◌,
  str_eq, filter, if◌then◌else◌, is_some, arith, Bool-cases,
}
use seo_optimizer.Crawler.Url.{
  Url, UrlStandard, normalize_url, is_listed, strip_keys, strip_query, set_identity,
}
use seo_optimizer.Crawler.Url.Identity.{IsMade, parsed, normalized, IsStandard, normalize_url_idem}
use seo_optimizer.Crawler.Sitemap.{XmlEvent, opens, texts, closes}
use seo_optimizer.Crawler.Crawl.{Act, Web, CrawlOptions, FetchResult, Extracted, ExtractedLink}

abbrev pub home : String
home = "https://shop.example/"

abbrev pub mailed : String
mailed = "https://shop.example/?utm_source=mail"

abbrev pub cart : String
cart = "https://shop.example/cart"

abbrev url_at : String → Option String → Url
url_at path query = record {
  protocol = "https:";
  credentials = "";
  host_name = "shop.example";
  port = "";
  path_name = path;
  query = query;
  fragment = none;
}

abbrev home_url : Url
home_url = url_at "/" none

abbrev mailed_url : Url
mailed_url = url_at "/" (some "utm_source=mail")

abbrev cart_url : Url
cart_url = url_at "/cart" none

abbrev parse : String → Option Url
parse s =
    if str_eq s home
    then some home_url
    else if str_eq s mailed
    then some mailed_url
    else if str_eq s cart
    then some cart_url
    else none

abbrev print : Url → String
print u = if is_some u.query then mailed else if str_eq u.path_name "/cart" then cart else home

abbrev keys : Option String → List String
keys none = []
keys (some query) = "utm_source" ∷ []

abbrev without : String → Option String → Option String
without key none = none
without key (some query) = if str_eq "utm_source" key then none else some query

abbrev pub standard : UrlStandard
standard = record { parse = parse; print = print; keys = keys; without = without }

abbrev robots_url : String
robots_url = "https://shop.example/robots.txt"

abbrev sitemap_url : String
sitemap_url = "https://shop.example/sitemap.xml"

-- Every page of the site links to the mailed spelling of the home page and to the cart.
abbrev links : List ExtractedLink
links = record { url = mailed; nofollow = false } ∷ record { url = cart; nofollow = false } ∷ []

abbrev page_of : String → Extracted
page_of body = record {
  title = some "Shop";
  canonical = none;
  meta_robots = none;
  word_count = 0;
  links = links;
  json_ld = 0;
  text = body;
  icons = [];
  stylesheets = [];
  scripts = [];
}

abbrev answer : String → String → Option String → FetchResult
answer url body type = record {
  final_url = url;
  status = some 200;
  redirect_chain = [];
  body = body;
  truncated = false;
  content_type = type;
  error = none;
}

abbrev serve : List Act → String → String → FetchResult
serve history url agent =
    if str_eq url robots_url
    then answer url "User-agent: *\nDisallow: /cart" (some "text/plain")
    else if str_eq url sitemap_url
    then answer url "map" (some "text/xml")
    else answer url "Welcome" (some "text/html")

abbrev sitemap_events : String → List XmlEvent
sitemap_events text =
    if str_eq text "map"
    then opens "urlset"
      ∷ opens "url"
      ∷ opens "loc"
      ∷ texts cart
      ∷ closes "loc"
      ∷ closes "url"
      ∷ closes "urlset"
      ∷ []
    else []

abbrev pub web : Web
web = record {
  standard = standard;
  resolve = λ path origin. if str_eq path "/robots.txt" then some robots_url else some sitemap_url;
  is_ip = λ host. false;
  milliseconds = λ value. none;
  xml_events = sitemap_events;
  xml_ending = λ text. [];
  request = serve;
  render = λ history url mobile. record { final_url = url; html = ""; error = none };
  extract = λ body url. page_of body;
  aborted = λ history. false;
}

abbrev pub options : CrawlOptions
options = record {
  seeds = mailed ∷ [];
  user_agent = "Auditor";
  max_pages = 3;
  max_depth = 2;
  request_delay_ms = 1000;
  respect_robots = true;
  follow_sitemaps = true;
  auxiliary = false;
  user_agent_tests = [];
  environments = [];
  redirect_map_urls = [];
  index_now_key_url = none;
  render_pages = false;
  render_mobile = false;
}

abbrev IsKnown : Url → Type 0
IsKnown u = (u ≡ home_url) ⊎ ((u ≡ mailed_url) ⊎ (u ≡ cart_url))

parse-IsKnown : (s : String) {u : Url} → parse s ≡ some u → IsKnown u
parse-IsKnown s {u} = elim (Bool-cases (str_eq s home)) [
  | inl e ↦ rw e (λ h. inl (cc h))
  | inr e ↦ rw e (elim (Bool-cases (str_eq s mailed)) [
    | inl e' ↦ rw e' (λ h. inr (inl (cc h)))
    | inr e' ↦ rw e' (elim (Bool-cases (str_eq s cart)) [
      | inl e'' ↦ rw e'' (λ h. inr (inr (cc h)))
      | inr e'' ↦ rw e'' (λ h. absurd (cc h))
    ])
  ])
]

set_identity-IsKnown :
    (strip : Bool) {u : Url} → IsKnown u → IsKnown (set_identity standard strip u)
unfolding strip_query strip_keys is_listed
set_identity-IsKnown true (inl e) = inl (ap (set_identity standard true) e)
set_identity-IsKnown false (inl e) = inl (ap (set_identity standard false) e)
set_identity-IsKnown true (inr (inl e)) = inl (ap (set_identity standard true) e)
set_identity-IsKnown false (inr (inl e)) = inr (inl (ap (set_identity standard false) e))
set_identity-IsKnown true (inr (inr e)) = inr (inr (ap (set_identity standard true) e))
set_identity-IsKnown false (inr (inr e)) = inr (inr (ap (set_identity standard false) e))

made_IsKnown : {u : Url} → IsMade standard u → IsKnown u
made_IsKnown (parsed s e) = parse-IsKnown s e
made_IsKnown (normalized strip m) = set_identity-IsKnown strip (made_IsKnown m)

parse_print : (u : Url) → IsKnown u → parse (print u) ≡ some u
parse_print u (inl e) = rw e refl
parse_print u (inr (inl e)) = rw e refl
parse_print u (inr (inr e)) = rw e refl

keys_without :
    (key : String) (query : Option String)
    → keys (without key query) ≡ filter (λ k. not (str_eq k key)) (keys query)
keys_without key none = refl
keys_without key (some query) = ground arith

standard-IsStandard : IsStandard standard
standard-IsStandard = record {
  parse_print = λ u m. parse_print u (made_IsKnown m);
  keys_without = keys_without;
  no_query = refl;
}

mailed_normal : normalize_url standard true mailed ≡ some home
unfolding normalize_url strip_query strip_keys is_listed
mailed_normal = refl

normalize_url_idem_example : normalize_url standard true home ≡ some home
normalize_url_idem_example =
    normalize_url_idem standard standard-IsStandard true mailed home mailed_normal
