-- ===== src/Crawler/Crawl/Whole/Accounts.antt =====
-- Where a URL that a crawl has seen stands in its result.
use seo_optimizer.Prelude.{
  ◌≡◌, refl, sym, ap, subst, ◌∙◌, inl, inr, String, Bool, true, not, ◌&&◌, ◌||◌, Option, none, some,
  List, [], ◌∷◌, map, filter, has, has-append, str_eq, ltb, count_if, All, all, arith, Bool-cases,
  eq_iff,
}
use seo_optimizer.Crawler.Frontier.{QueueEntry, Site, target, may_fetch}
use seo_optimizer.Crawler.Frontier.Keys.{is_key, is_text}
use seo_optimizer.Crawler.Frontier.Seen.{is_seen}
use seo_optimizer.Crawler.Loading.{LoadedRobots, Sitemaps}
use seo_optimizer.Crawler.Crawl.{Web, Setting, Crawling, CrawledPage}
use seo_optimizer.Crawler.Crawl.Walk.Invariant.{entries, IsWalked}
use seo_optimizer.Crawler.Crawl.Whole.{CrawlResult, unexplored, normal_of, result_of}
use seo_optimizer.Crawler.Crawl.Whole.Reach.{given}

has-keys :
    (es : List QueueEntry) (n : String) → has (map normal_of es) n ≡ ltb 0 (count_if (is_key n) es)
has-keys [] n = refl
has-keys (e ∷ es) n = ground (arith, has-keys es n)

has-texts : (ss : List String) (n : String) → has ss n ≡ ltb 0 (count_if (is_text n) ss)
has-texts [] n = refl
has-texts (s ∷ ss) n = ground (arith, has-texts ss n)

has-filter :
    (p : String → Bool) (ss : List String) (n : String)
    → has ss n ≡ true
    → p n ≡ true
    → has (filter p ss) n ≡ true
has-filter p [] n h k = cc
has-filter p (s ∷ ss) n h k = elim (Bool-cases (str_eq s n)) [
  | inl e ↦ rw (subst (λ x. p x ≡ true) (sym ((eq_iff s n).0 e)) k) (rw e refl)
  | inr e ↦ ground (arith, has-filter p ss n, h, k, e)
]

module _ (site : Site) (r : CrawlResult) where
  abbrev page_urls : List String
  page_urls = map normal_of (entries r.pages)

  -- A URL, if it is on the site, was fetched, is blocked or is reported as not reached; one that lies too
  -- deep may be none of these if robots.txt disallows it.
  abbrev pub is_accounted : Bool → Option String → Bool
  is_accounted deep none = true
  is_accounted deep (some n) =
      has page_urls n
      || has r.blocked_by_robots n
      || has r.not_reached n
      || deep && not (may_fetch site n)

  -- It was fetched or is blocked, unless it lies too deep.
  abbrev pub is_settled : Bool → Option String → Bool
  is_settled deep none = true
  is_settled deep (some n) = has page_urls n || has r.blocked_by_robots n || deep

module _ (web : Web) (setting : Setting) (loaded : LoadedRobots) (sitemaps : Sitemaps) where
  abbrev whole_given : List String
  whole_given = given web setting sitemaps.urls

  module _ (c : Crawling) (w : IsWalked web setting whole_given c) where
    abbrev result : CrawlResult
    result = result_of web setting loaded sitemaps c

    in_unexplored :
        (n : String)
        → has (unexplored setting.site c.frontier) n ≡ (
            has (map normal_of c.frontier.walk) n
            || (has (map normal_of c.frontier.listed) n
                || has
                    (filter
                      (λ url. not (has c.frontier.queued url) && may_fetch setting.site url)
                      c.frontier.beyond_depth)
                    n))
    in_unexplored n =
        has-append (map normal_of c.frontier.walk) _ n
        ∙ ap (λ b. has (map normal_of c.frontier.walk) n || b)
            (has-append (map normal_of c.frontier.listed) _ n)

    pub seen_accounted :
        (deep : Bool) (o : Option String)
        → is_seen deep c.frontier o ≡ true
        → is_accounted setting.site result deep o ≡ true
    seen_accounted deep none h = refl
    seen_accounted deep (some n) h = elim (Bool-cases (has c.frontier.queued n)) [
      | inl q ↦
          rw (has-keys (entries c.pages) n, has-texts c.frontier.blocked n, in_unexplored n)
            (rw (has-keys c.frontier.walk n, has-keys c.frontier.listed n)
              (ground (arith, w.counted n, q)))
      | inr q ↦ elim (Bool-cases (may_fetch setting.site n)) [
        | inl m ↦
            let beyond : has c.frontier.beyond_depth n ≡ true = ground (arith, h, q) in
            rw (in_unexplored n) (
              rw
                (has-filter (λ url. not (has c.frontier.queued url) && may_fetch setting.site url)
                  c.frontier.beyond_depth n beyond (rw (q, m) refl))
                (ground arith))
        | inr m ↦ ground (arith, h, q, m)
      ]
    ]

    -- With no URL waiting.
    pub seen_settled :
        c.frontier.walk ≡ []
        → c.frontier.listed ≡ []
        → (deep : Bool) (o : Option String) → is_seen deep c.frontier o ≡ true
        → is_settled setting.site result deep o ≡ true
    seen_settled no_walk no_listed deep none h = refl
    seen_settled no_walk no_listed deep (some n) h = elim (Bool-cases (has c.frontier.queued n)) [
      | inl q ↦
          rw (has-keys (entries c.pages) n, has-texts c.frontier.blocked n)
            (ground (arith, w.counted n, q, no_walk, no_listed))
      | inr q ↦ ground (arith, h, q)
    ]

pub All-mono :
    (P Q : CrawledPage → Bool) (pages : List CrawledPage)
    → ((page : CrawledPage) → P page ≡ true → Q page ≡ true)
    → All (λ page. P page ≡ true) pages
    → All (λ page. Q page ≡ true) pages
All-mono P Q [] k h = tt
All-mono P Q (page ∷ pages) k h = (k page h.0, All-mono P Q pages k h.1)

pub all_mono :
    (p q : Option String → Bool) (site : Site) (urls : List String)
    → ((o : Option String) → p o ≡ true → q o ≡ true)
    → all (λ url. p (target site url)) urls ≡ true
    → all (λ url. q (target site url)) urls ≡ true
all_mono p q site [] k h = refl
all_mono p q site (url ∷ urls) k h = ground (arith, k (target site url), all_mono p q site urls k)
