-- ===== src/Crawler/Crawl/Walk/Invariant.antt =====
-- What holds between two rounds of the walk, and where it is stopped.
use seo_optimizer.Prelude.{
  ℕ, zero, suc, ◌+◌, ◌≤◌, ◌<◌, ◌≡◌, refl, ap, inl, inr, ◌⊎◌, String, true, false, Option, none,
  some, List, [], ◌∷◌, ◌++◌, ltb, length, length-append, count_if, all, All, arith, Bool-cases,
}
use seo_optimizer.Crawler.Frontier.{QueueEntry, Site, to_walk, Frontier, next_entry, target}
use seo_optimizer.Crawler.Frontier.Keys.{IsCounted, is_key, enqueue-IsCounted, Took-IsCounted}
use seo_optimizer.Crawler.Frontier.Scope.{
  IsInScope, IsScoped, enqueue-IsScoped, Took-IsScoped, All-snoc,
}
use seo_optimizer.Crawler.Frontier.Turns.{
  Took, from_walk, from_listed, next_entry-Took, next_entry-none,
}
use seo_optimizer.Crawler.Frontier.Seen.{Grows, is_seen}
use seo_optimizer.Crawler.Crawl.{
  Web, Setting, Crawling, CrawledPage, Run, M, ◌>>◌, goes, stops, stop_if_cancelled, history,
}
use seo_optimizer.Crawler.Crawl.Walk.{
  fetch_entry, visit, walk, discover, add_page, discover_from, take_entry, take_next, round,
}
use seo_optimizer.Crawler.Crawl.Walk.Frames.{
  Post, Post-bind, Same, Still, fetch_entry-Still, fetch_entry-entry,
}
use seo_optimizer.Crawler.Crawl.Walk.Discovery.{
  is_followed, discover-is_followed, is_followed-Grows, discover-Grows, discover_rule,
}

abbrev pub entries : List CrawledPage → List QueueEntry
entries [] = []
entries (page ∷ pages) = page.entry ∷ entries pages

entries-snoc :
    (pages : List CrawledPage) (page : CrawledPage)
    → entries (pages ++ page ∷ []) ≡ entries pages ++ page.entry ∷ []
entries-snoc [] page = refl
entries-snoc (p ∷ pages) page = ap (λ es. p.entry ∷ es) (entries-snoc pages page)

pub all_seen-Grows :
    (site : Site) (f g : Frontier) (urls : List String)
    → Grows f g
    → all (λ url. is_seen (ltb site.max_depth 0) f (target site url)) urls ≡ true
    → all (λ url. is_seen (ltb site.max_depth 0) g (target site url)) urls ≡ true
all_seen-Grows site f g [] k h = refl
all_seen-Grows site f g (url ∷ urls) k h =
    ground (arith, k (ltb site.max_depth 0) (target site url), all_seen-Grows site f g urls k)

module _ (site : Site) (max_pages : ℕ) where
  -- Each page is in scope and stands once, and there are no more than the budget.
  pub record IsWithin (pages : List CrawledPage) : Type 0 where
    pub in_scope : All (IsInScope site) (entries pages)
    pub once : (key : String) → count_if (is_key key) (entries pages) ≤ 1
    pub bounded : length pages ≤ max_pages

-- `given` are the URLs that the walk begins with.
module _ (web : Web) (setting : Setting) (given : List String) where
  -- Besides, each URL that was queued stands in one place, and each page was followed.
  pub record IsWalked (c : Crawling) : Type 0 where
    pub counted : (key : String) → IsCounted (entries c.pages) c.frontier key
    pub scoped : IsScoped setting.site c.frontier
    pub in_scope : All (IsInScope setting.site) (entries c.pages)
    pub followed : All (λ page. is_followed web setting c.frontier page ≡ true) c.pages
    pub bounded : length c.pages ≤ setting.options.max_pages
    pub known :
        all
          (λ url. is_seen (ltb setting.site.max_depth 0) c.frontier (target setting.site url))
          given
        ≡ true

  pub IsWalked-IsWithin :
      (c : Crawling) → IsWalked c → IsWithin setting.site setting.options.max_pages c.pages
  IsWalked-IsWithin c w = record {
    in_scope = w.in_scope;
    once = λ key. ground (arith, w.counted key);
    bounded = w.bounded;
  }

  still_followed :
      (f g : Frontier) (pages : List CrawledPage)
      → Grows f g
      → All (λ page. is_followed web setting f page ≡ true) pages
      → All (λ page. is_followed web setting g page ≡ true) pages
  still_followed f g [] k h = tt
  still_followed f g (page ∷ pages) k h =
      (is_followed-Grows web setting f g page k h.0, still_followed f g pages k h.1)

  Took-Grows : {e : QueueEntry} {f g : Frontier} → Took e f g → Grows f g
  Took-Grows (from_walk w l k) deep none h = refl
  Took-Grows (from_walk w l k) deep (some n) h = rw (k.queued, k.beyond_depth) h
  Took-Grows (from_listed w l k) deep none h = refl
  Took-Grows (from_listed w l k) deep (some n) h = rw (k.queued, k.beyond_depth) h

  -- A round, from its entry to the page's links.
  visited-IsWalked :
      (c d : Crawling) (f : Frontier) (page : CrawledPage)
      → Took page.entry c.frontier f
      → IsWalked c
      → length c.pages < setting.options.max_pages
      → d.frontier ≡ discover web setting page f
      → d.pages ≡ c.pages ++ page ∷ []
      → IsWalked d
  visited-IsWalked c d f page took w h fr ps =
      let taken = entries-snoc c.pages page in
      let scoped = Took-IsScoped setting.site took w.scoped in
      record {
        counted = λ key.
            rw (fr, ps, taken)
              (discover_rule web setting (λ g. IsCounted (entries c.pages ++ page.entry ∷ []) g key)
                (λ url depth from g k.
                  enqueue-IsCounted setting.site (entries c.pages ++ page.entry ∷ []) key to_walk
                    url depth from g k)
                page f (Took-IsCounted (entries c.pages) key took (w.counted key)));
        scoped = rw fr (
            discover_rule web setting (IsScoped setting.site)
              (λ url depth from g k. enqueue-IsScoped setting.site to_walk url depth from g k) page
              f scoped.1);
        in_scope =
            rw (ps, taken)
              (All-snoc (IsInScope setting.site) (entries c.pages) w.in_scope scoped.0);
        followed =
            rw (fr, ps)
              (All-snoc (λ p. is_followed web setting (discover web setting page f) p ≡ true)
                c.pages
                (still_followed c.frontier (discover web setting page f) c.pages
                  (λ deep o s. discover-Grows web setting page f deep o (Took-Grows took deep o s))
                  w.followed)
                (discover-is_followed web setting page f));
        bounded = rw ps (omega (arith, length-append {0} c.pages (page ∷ []), h));
        known = rw fr (
            all_seen-Grows setting.site c.frontier (discover web setting page f) given
              (λ deep o s. discover-Grows web setting page f deep o (Took-Grows took deep o s))
              w.known);
      }

  -- The walk is over: the budget is spent, or no URL waits.
  abbrev pub IsSpent : Crawling → Type 0
  IsSpent c =
      (length c.pages ≡ setting.options.max_pages)
      ⊎ (c.frontier.walk ≡ []) × (c.frontier.listed ≡ [])

  abbrev Stopped : Crawling → Type 0
  Stopped c = IsWithin setting.site setting.options.max_pages c.pages

  abbrev Fetched : QueueEntry → Crawling → CrawledPage → Crawling → Type 0
  Fetched e c page d = (page.entry ≡ e) × Same c d

  both_hold :
      (e : QueueEntry) (c : Crawling) (r : Run CrawledPage)
      → Still c r
      → Post (λ (page : CrawledPage) d. page.entry ≡ e) (λ d. Unit {0}) r
      → IsWithin setting.site setting.options.max_pages c.pages
      → Post (Fetched e c) Stopped r
  both_hold e c (goes page d) s h w = (h, s)
  both_hold e c (stops d) s h w = rw s.pages w

  abbrev Rounded : Crawling → Crawling → Type 0
  Rounded c d = IsWalked d × (length d.pages ≡ suc (length c.pages))

  take_entry-IsWalked :
      (e : QueueEntry) (f : Frontier) (c : Crawling)
      → Took e c.frontier f
      → IsWalked c
      → length c.pages < setting.options.max_pages
      → Post (λ u d. Rounded c d) Stopped (take_entry web setting e f c)
  unfolding visit
  take_entry-IsWalked e f c took w h =
      let c' = record c { frontier = f } in
      Post-bind (Fetched e c') (λ u d. Rounded c d) Stopped (fetch_entry web setting e)
        (λ page. add_page web setting page >> discover_from web setting page) c'
        (both_hold e c' (fetch_entry web setting e c') (fetch_entry-Still web setting e c')
          (fetch_entry-entry web setting e c') (IsWalked-IsWithin c w))
        (λ page d p. (
          visited-IsWalked c _ f page (rw p.0 took) w h
              (ap (discover web setting page) p.1.frontier) (ap (λ ps. ps ++ page ∷ []) p.1.pages),
          rw p.1.pages (omega (arith, length-append {0} c.pages (page ∷ []))),
        ))

  abbrev Ended : Run (Unit {0}) → Type 0
  Ended r = Post (λ u d. IsWalked d × IsSpent d) Stopped r

  taken_ends :
      (rest : M (Unit {0})) (c : Crawling) (o : Option (QueueEntry × Frontier))
      → next_entry c.frontier ≡ o
      → IsWalked c
      → length c.pages < setting.options.max_pages
      → ((d : Crawling) → Rounded c d → Ended (rest d))
      → Ended (take_next web setting rest o c)
  taken_ends rest c none e w h k = (w, inr (next_entry-none c.frontier e))
  taken_ends rest c (some (entry, f)) e w h k =
      Post-bind (λ u d. Rounded c d) (λ u d. IsWalked d × IsSpent d) Stopped
        (take_entry web setting entry f) (λ u. rest) c
        (take_entry-IsWalked entry f c (next_entry-Took c.frontier e) w h) (λ u d r. k d r)

  unless_cancelled :
      (m : M (Unit {0})) (c : Crawling)
      → IsWalked c
      → Ended (m c)
      → Ended ((stop_if_cancelled web setting >> m) c)
  unless_cancelled m c w h =
      Post-bind (λ u d. Ended (m d)) (λ u d. IsWalked d × IsSpent d) Stopped
        (stop_if_cancelled web setting) (λ u. m) c
        (signalled (Bool-cases (web.aborted (history web setting c)))) (λ u d k. k)
    where
      signalled :
          (web.aborted (history web setting c) ≡ true)
            ⊎ (web.aborted (history web setting c) ≡ false)
          → Post (λ u d. Ended (m d)) Stopped (stop_if_cancelled web setting c)
      signalled (inl e) = unfold stop_if_cancelled in rw e (IsWalked-IsWithin c w)
      signalled (inr e) = unfold stop_if_cancelled in rw e h

  -- The whole walk, with as many rounds as pages may still be fetched.
  pub walk_ends :
      (rounds : ℕ) (c : Crawling)
      → IsWalked c
      → length c.pages + rounds ≡ setting.options.max_pages
      → Ended (walk web setting rounds c)
  unfolding walk
  walk_ends zero c w h = (w, inl (omega (arith, h)))
  walk_ends (suc rounds) c w h =
      let more : ltb (length c.pages) setting.options.max_pages ≡ true = ground arith in
      rw more (
        unless_cancelled (round web setting (walk web setting rounds)) c w (
          taken_ends (walk web setting rounds) c (next_entry c.frontier) refl w (omega (arith, h))
            (λ d r. walk_ends rounds d r.0 (omega (arith, r.1, h)))))
