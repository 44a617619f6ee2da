-- ===== src/Crawler/Crawl/Whole/Results.antt =====
-- What the result of a crawl says.
use seo_optimizer.Prelude.{
  ◌≡◌, refl, ap, sym, subst, inl, inr, ◌⊎◌, String, Bool, true, false, not, ◌&&◌, is_some,
  if◌then◌else◌, Option-cases, Option, none, some, List, [], ◌∷◌, ◌++◌, length, All, all, arith,
  Bool-cases,
}
use seo_optimizer.Crawler.Robots.{Robots}
use seo_optimizer.Crawler.Frontier.{Site, target}
use seo_optimizer.Crawler.Frontier.Seen.{is_seen}
use seo_optimizer.Crawler.Loading.{
  LoadedRobots, Sitemaps, Load, loads, cancels, fails, load_robots, roots_of, is_waiting, allow_all,
}
use seo_optimizer.Crawler.Loading.Documents.{LoadEnds, load_sitemaps-ends}
use seo_optimizer.Crawler.Crawl.{Web, Setting, CrawlOptions, CrawledPage, Run, goes, stops}
use seo_optimizer.Crawler.Crawl.Walk.Discovery.{leads_to, leads_to_mono}
use seo_optimizer.Crawler.Crawl.Walk.Invariant.{IsWithin, IsSpent, IsWalked-IsWithin}
use seo_optimizer.Crawler.Crawl.Whole.{
  CrawlResult, CrawlOutcome, no_seed, unresolved, cancelled, crawled, crawl, explore, begin,
  setting_of, result_of, outcome_of, after_loading, sitemaps_of, crawl_with, crawl_from,
  crawl_seeds,
}
use seo_optimizer.Crawler.Crawl.Whole.Reach.{given, Explored, explore_ends, shallow}
use seo_optimizer.Crawler.Crawl.Whole.Accounts.{
  All-mono, all_mono, seen_accounted, seen_settled, is_accounted, is_settled,
}

-- The robots.txt that was read, if any could be asked for.
abbrev pub robots_read : Option LoadedRobots → LoadedRobots
robots_read none = record { robots = allow_all; text = none; status = none; trace = [] }
robots_read (some loaded) = loaded

module _ (web : Web) (options : CrawlOptions) (seed : String) where
  abbrev pub setting_in : CrawlResult → Setting
  setting_in r = setting_of web options seed r.robots.robots r.sitemaps.trace

  -- A test holds of all that the pages lead to, of the seeds and of the sitemaps' URLs.
  abbrev pub HoldsOfAll : CrawlResult → (Bool → Option String → Bool) → Type 0
  HoldsOfAll r p =
      All (λ page. leads_to web (setting_in r) p page ≡ true) r.pages
      × (all (λ url. p (shallow (setting_in r).site) (target (setting_in r).site url))
            (options.seeds ++ r.sitemaps.urls)
          ≡ true)

  pub record IsAccounted (r : CrawlResult) : Type 0 where
    pub accounted : HoldsOfAll r (is_accounted (setting_in r).site r)
    pub settled :
        (length r.pages ≡ options.max_pages) ⊎ HoldsOfAll r (is_settled (setting_in r).site r)

  abbrev pub site_of : Site
  site_of =
      (setting_of web options seed (robots_read (load_robots web options seed)).robots []).site

  -- An address that a crawl may need cannot be made from the seed.
  abbrev pub lacks_address : Bool
  lacks_address =
      not (is_some (web.resolve "/robots.txt" seed) && is_some (web.resolve "/sitemap.xml" seed))

  -- What is to hold of a crawl, stopped or finished.
  abbrev pub Ends : (List CrawledPage → Type 0) → (CrawlResult → Type 0) → CrawlOutcome → Type 0
  Ends Stopped Finished no_seed = ⊥
  Ends Stopped Finished (unresolved trace) = (lacks_address ≡ true) × Stopped []
  Ends Stopped Finished (cancelled trace pages) = Stopped pages
  Ends Stopped Finished (crawled r) = Finished r

  abbrev Within : List CrawledPage → Type 0
  Within pages = IsWithin site_of options.max_pages pages

  Explored-IsWithin :
      (sitemaps : Sitemaps)
      → let setting =
          setting_of web options seed
            (robots_read (load_robots web options seed)).robots
            sitemaps.trace in
        (run : Run (Unit {0}))
        → Explored web setting sitemaps.urls run
        → Ends Within
            (λ r. Within r.pages)
            (outcome_of web setting (robots_read (load_robots web options seed)) sitemaps run)
  Explored-IsWithin sitemaps (goes u c) h =
      IsWalked-IsWithin web
        (setting_of web options seed (robots_read (load_robots web options seed)).robots
          sitemaps.trace)
        _ c h.0
  Explored-IsWithin sitemaps (stops c) h = h

  abbrev loaded_here : LoadedRobots
  loaded_here = robots_read (load_robots web options seed)

  abbrev setting_at : Sitemaps → Setting
  setting_at sitemaps = setting_of web options seed loaded_here.robots sitemaps.trace

  Explored-IsAccounted :
      (sitemaps : Sitemaps) (run : Run (Unit {0}))
      → Explored web (setting_at sitemaps) sitemaps.urls run
      → Ends
          (λ pages. Unit)
          IsAccounted
          (outcome_of web (setting_at sitemaps) loaded_here sitemaps run)
  Explored-IsAccounted sitemaps (stops c) h = tt
  Explored-IsAccounted sitemaps (goes u c) (w, spent) = record {
    accounted = all_hold (is_accounted site r) accounted;
    settled = finished spent;
  }
    where
      setting : Setting
      setting = setting_at sitemaps

      site : Site
      site = setting.site

      r : CrawlResult
      r = result_of web setting loaded_here sitemaps c

      accounted :
          (deep : Bool) (o : Option String)
          → is_seen deep c.frontier o ≡ true
          → is_accounted site r deep o ≡ true
      accounted = seen_accounted web setting loaded_here sitemaps c w

      all_hold :
          (p : Bool → Option String → Bool)
          → ((deep : Bool) (o : Option String) → is_seen deep c.frontier o ≡ true → p deep o ≡ true)
          → HoldsOfAll r p
      all_hold p k = (
        All-mono (leads_to web setting (λ deep o. is_seen deep c.frontier o))
            (leads_to web setting p) c.pages
            (λ page. leads_to_mono web setting (λ deep o. is_seen deep c.frontier o) p page k)
            w.followed,
        all_mono (is_seen (shallow site) c.frontier) (p (shallow site)) site
            (options.seeds ++ sitemaps.urls) (k (shallow site)) w.known,
      )

      finished :
          IsSpent web setting (given web setting sitemaps.urls) c
          → (length c.pages ≡ options.max_pages) ⊎ HoldsOfAll r (is_settled site r)
      finished (inl e) = inl e
      finished (inr (no_walk, no_listed)) = inr (
          all_hold (is_settled site r)
            (seen_settled web setting loaded_here sitemaps c w no_walk no_listed))

  robots_unresolved : load_robots web options seed ≡ none → lacks_address ≡ true
  unfolding load_robots
  robots_unresolved h = elim (Bool-cases options.respect_robots) [
    | inl b ↦ elim (Option-cases (web.resolve "/robots.txt" seed)) [
      | inl e ↦ rw e refl
      | inr (url, e) ↦ absurd (ground (arith, h, b, e))
    ]
    | inr b ↦ absurd (ground (arith, h, b))
  ]

  loads_not_fails : {s : Sitemaps} → ¬ (Path (Load web options) (loads s) fails)
  loads_not_fails h = cc h

  chosen :
      (follows : Bool) (s : Sitemaps) {l : Load web options}
      → Path (Load web options) (if not follows then loads s else l) fails
      → l ≡ fails
  chosen true s h = h
  chosen false s h = absurd (loads_not_fails h)

  roots_lacking : (robots : Robots) → roots_of web options robots seed ≡ none → lacks_address ≡ true
  roots_lacking robots h = elim (Bool-cases (is_waiting robots.sitemaps)) [
    | inl w ↦ absurd (ground (arith, h, w))
    | inr w ↦ elim (Option-cases (web.resolve "/sitemap.xml" seed)) [
      | inl e ↦ rw e (ground arith)
      | inr (url, e) ↦ absurd (ground (arith, h, w, e))
    ]
  ]

  sitemap_unresolved :
      (loaded : LoadedRobots) → sitemaps_of web options seed loaded ≡ fails → lacks_address ≡ true
  sitemap_unresolved loaded h =
      let ends =
        subst (LoadEnds web options (roots_of web options loaded.robots seed) loaded.trace)
          (chosen options.follow_sitemaps _ h)
          (load_sitemaps-ends web options loaded.robots seed loaded.trace) in
      elim (Option-cases (roots_of web options loaded.robots seed)) [
        | inl e ↦ roots_lacking loaded.robots e
        | inr (roots, e) ↦ absurd (rw e at ends)
      ]

  -- What holds of every exploration holds of a crawl.
  crawl_rule :
      (Stopped : List CrawledPage → Type 0) (Finished : CrawlResult → Type 0) (seeds : List String)
      → options.seeds ≡ seed ∷ seeds
      → Stopped []
      → ((sitemaps : Sitemaps)
          → Ends Stopped Finished (
              outcome_of web (setting_at sitemaps) loaded_here sitemaps (
                explore web (setting_at sitemaps) (begin web (setting_at sitemaps) sitemaps.urls))))
      → Ends Stopped Finished (crawl web options)
  unfolding crawl
  crawl_rule Stopped Finished seeds e none_yet k =
      subst (λ ss. Ends Stopped Finished (crawl_seeds web options ss)) (sym e) from_seed
    where
      here :
          (loaded : LoadedRobots)
          → loaded_here ≡ loaded
          → (sitemaps : Sitemaps)
          → Ends Stopped Finished (after_loading web options seed loaded (loads sitemaps))
      here loaded e sitemaps =
          subst (λ l. Ends Stopped Finished (after_loading web options seed l (loads sitemaps))) e
            (k sitemaps)

      after :
          (loaded : LoadedRobots)
          → loaded_here ≡ loaded
          → (l : Load web options) → sitemaps_of web options seed loaded ≡ l
          → Ends Stopped Finished (after_loading web options seed loaded l)
      after loaded e fails h = (sitemap_unresolved loaded h, none_yet)
      after loaded e (cancels s) h = none_yet
      after loaded e (loads sitemaps) h = here loaded e sitemaps

      loaded_then :
          (o : Option LoadedRobots)
          → load_robots web options seed ≡ o
          → Ends Stopped Finished (crawl_with web options seed o)
      loaded_then none h = (robots_unresolved h, none_yet)
      loaded_then (some loaded) h =
          after loaded (ap robots_read h) (sitemaps_of web options seed loaded) refl

      from_seed : Ends Stopped Finished (crawl_from web options seed)
      from_seed = elim (Bool-cases (web.aborted [])) [
        | inl a ↦ rw a none_yet
        | inr a ↦ rw a (loaded_then (load_robots web options seed) refl)
      ]

-- The pages of a crawl, also of one that is cancelled, are no more than `maxPages`; each lies within
-- `maxDepth`; its normalized URL, which need not be the URL that was requested, is the normal form of that
-- URL, is on the first seed's host and is allowed by robots.txt where that is respected; and no two pages have
-- the same normalized URL. A crawl with a seed throws only where it is cancelled, or where the address of
-- robots.txt or of the sitemap cannot be made from the first seed, and then it has no pages.
pub crawl-IsWithin :
    (web : Web) (options : CrawlOptions) (seed : String) (seeds : List String)
    → options.seeds ≡ seed ∷ seeds
    → Ends web options seed
        (λ pages. IsWithin (site_of web options seed) options.max_pages pages)
        (λ r. IsWithin (site_of web options seed) options.max_pages r.pages)
        (crawl web options)
crawl-IsWithin web options seed seeds e =
    crawl_rule web options seed (IsWithin (site_of web options seed) options.max_pages)
      (λ r. IsWithin (site_of web options seed) options.max_pages r.pages) seeds e
      (record { in_scope = tt; once = λ key. omega arith; bounded = omega arith })
      (λ sitemaps.
        Explored-IsWithin web options seed sitemaps _
          (explore_ends web (setting_at web options seed sitemaps) sitemaps.urls))

-- A crawl with a seed is cancelled, or throws since the address of robots.txt or of the sitemap cannot be
-- made from the first seed, or it returns. Of one that returns: every seed, every URL of a sitemap, every
-- link that is not `nofollow` and every redirect's end that is on the site was fetched, or is in
-- `blockedByRobots` or in `notReached`; only one that lies past `maxDepth` may be in none of these, where
-- robots.txt disallows it. And the crawl has fetched `maxPages` pages, or else each of these URLs that does
-- not lie past `maxDepth` was fetched or is blocked.
pub crawl-IsAccounted :
    (web : Web) (options : CrawlOptions) (seed : String) (seeds : List String)
    → options.seeds ≡ seed ∷ seeds
    → Ends web options seed (λ pages. Unit) (IsAccounted web options seed) (crawl web options)
crawl-IsAccounted web options seed seeds e =
    crawl_rule web options seed (λ pages. Unit) (IsAccounted web options seed) seeds e tt
      (λ sitemaps.
        Explored-IsAccounted web options seed sitemaps _
          (explore_ends web (setting_at web options seed sitemaps) sitemaps.urls))
