-- ===== src/Crawler/Crawl/Whole/Reach.antt =====
-- Which pages a crawl fetches, and where everything that it found is accounted for.
use seo_optimizer.Prelude.{
  ◌≡◌, refl, ◌∙◌, String, Bool, true, none, List, [], ◌∷◌, ◌++◌, all-append, ltb, all, arith,
}
use seo_optimizer.Crawler.Frontier.{Site, Lane, to_walk, to_listed, Frontier, enqueue, target}
use seo_optimizer.Crawler.Frontier.Keys.{IsCounted, enqueue-IsCounted}
use seo_optimizer.Crawler.Frontier.Scope.{IsScoped, enqueue-IsScoped}
use seo_optimizer.Crawler.Frontier.Seen.{
  is_seen, Grows, Grows-refl, Grows-trans, enqueue-Grows, enqueue-is_seen,
}
use seo_optimizer.Crawler.Crawl.{Web, Setting, Crawling, Run, ◌>>◌, goes, stops}
use seo_optimizer.Crawler.Crawl.Walk.{walk}
use seo_optimizer.Crawler.Crawl.Walk.Frames.{Post, Post-bind, Same, Still}
use seo_optimizer.Crawler.Crawl.Whole.Frames.{before_walk-Still, after_walk-Still, when-Still}
use seo_optimizer.Crawler.Crawl.Walk.Invariant.{
  IsWithin, IsWalked, IsSpent, IsWalked-IsWithin, walk_ends, all_seen-Grows,
}
use seo_optimizer.Crawler.Crawl.Aside.{before_walk, after_walk}
use seo_optimizer.Crawler.Crawl.Whole.{explore, begin, enqueue_all, empty_frontier, when}

enqueue_all_rule {ℓ} :
    (P : Frontier → Type ℓ) (site : Site) (lane : Lane)
    → ((url : String) (f : Frontier) → P f → P (enqueue site lane url 0 none f))
    → (urls : List String) (f : Frontier) → P f
    → P (enqueue_all site lane urls f)
enqueue_all_rule P site lane keep [] f h = h
enqueue_all_rule P site lane keep (url ∷ urls) f h =
    enqueue_all_rule P site lane keep urls (enqueue site lane url 0 none f) (keep url f h)

enqueue_all-Grows :
    (site : Site) (lane : Lane) (urls : List String) (f : Frontier)
    → Grows f (enqueue_all site lane urls f)
enqueue_all-Grows site lane urls f =
    enqueue_all_rule (Grows f) site lane
      (λ url g h.
        Grows-trans f g (enqueue site lane url 0 none g) h (enqueue-Grows site lane url 0 none g))
      urls f (Grows-refl f)

abbrev pub shallow : Site → Bool
shallow site = ltb site.max_depth 0

enqueue_all-seen :
    (site : Site) (lane : Lane) (urls : List String) (f : Frontier)
    → all (λ url. is_seen (shallow site) (enqueue_all site lane urls f) (target site url)) urls
      ≡ true
enqueue_all-seen site lane [] f = refl
enqueue_all-seen site lane (url ∷ urls) f =
    rw
      (enqueue_all-Grows site lane urls (enqueue site lane url 0 none f) (shallow site)
        (target site url) (enqueue-is_seen site lane url 0 none f))
      (enqueue_all-seen site lane urls (enqueue site lane url 0 none f))

module _ (web : Web) (setting : Setting) (urls : List String) where
  abbrev pub given : List String
  given = setting.options.seeds ++ urls

  begin-IsWalked : IsWalked web setting given (begin web setting urls)
  begin-IsWalked =
      let site = setting.site in
      let seeds = setting.options.seeds in
      let f = enqueue_all site to_walk seeds empty_frontier in
      let g = enqueue_all site to_listed urls f in
      record {
        counted = λ key.
            enqueue_all_rule (λ h. IsCounted [] h key) site to_listed
              (λ url h k. enqueue-IsCounted site [] key to_listed url 0 none h k) urls f
              (enqueue_all_rule (λ h. IsCounted [] h key) site to_walk
                (λ url h k. enqueue-IsCounted site [] key to_walk url 0 none h k) seeds
                empty_frontier (omega arith));
        scoped =
            enqueue_all_rule (IsScoped site) site to_listed
              (λ url h k. enqueue-IsScoped site to_listed url 0 none h k) urls f
              (enqueue_all_rule (IsScoped site) site to_walk
                (λ url h k. enqueue-IsScoped site to_walk url 0 none h k) seeds empty_frontier
                (record { walk = tt; listed = tt; blocked = tt }));
        in_scope = tt;
        followed = tt;
        bounded = omega arith;
        known =
            all-append (λ url. is_seen (shallow site) g (target site url)) seeds urls
            ∙ rw (enqueue_all-seen site to_listed urls f) (
                rw
                  (all_seen-Grows site f g seeds (enqueue_all-Grows site to_listed urls f)
                    (enqueue_all-seen site to_walk seeds empty_frontier))
                  refl);
      }

  Same-IsWalked :
      (c d : Crawling) → Same c d → IsWalked web setting given c → IsWalked web setting given d
  Same-IsWalked c d s w = record {
    counted = λ key. rw (s.frontier, s.pages) (w.counted key);
    scoped = rw s.frontier w.scoped;
    in_scope = rw s.pages w.in_scope;
    followed = rw (s.frontier, s.pages) w.followed;
    bounded = rw s.pages w.bounded;
    known = rw s.frontier w.known;
  }

  abbrev pub Explored : Run (Unit {0}) → Type 0
  Explored r =
      Post (λ u d. IsWalked web setting given d × IsSpent web setting given d)
        (λ d. IsWithin setting.site setting.options.max_pages d.pages) r

  abbrev Begun : Run (Unit {0}) → Type 0
  Begun r =
      Post (λ u d. IsWalked web setting given d × (d.pages ≡ []))
        (λ d. IsWithin setting.site setting.options.max_pages d.pages) r

  Still-Begun :
      (c : Crawling) (r : Run (Unit {0}))
      → Still c r
      → IsWalked web setting given c
      → c.pages ≡ []
      → Begun r
  Still-Begun c (goes u d) s w e = (Same-IsWalked c d s w, s.pages ∙ e)
  Still-Begun c (stops d) s w e = rw s.pages (IsWalked-IsWithin web setting given c w)

  Still-Explored :
      (c : Crawling) (r : Run (Unit {0}))
      → Still c r
      → IsWalked web setting given c
      → IsSpent web setting given c
      → Explored r
  Still-Explored c (goes u d) s w e = (Same-IsWalked c d s w, rw (s.frontier, s.pages) e)
  Still-Explored c (stops d) s w e = rw s.pages (IsWalked-IsWithin web setting given c w)

  pub explore_ends : Explored (explore web setting (begin web setting urls))
  unfolding explore
  explore_ends =
      let before = when web setting.options.auxiliary (before_walk web setting) in
      let after = when web setting.options.auxiliary (after_walk web setting) in
      let whole = walk web setting setting.options.max_pages in
      Post-bind (λ u d. IsWalked web setting given d × (d.pages ≡ []))
        (λ u d. IsWalked web setting given d × IsSpent web setting given d)
        (λ d. IsWithin setting.site setting.options.max_pages d.pages) before (λ u. whole >> after)
        (begin web setting urls)
        (Still-Begun (begin web setting urls) (before (begin web setting urls))
          (when-Still web setting setting.options.auxiliary (before_walk web setting)
            (before_walk-Still web setting) (begin web setting urls))
          begin-IsWalked refl)
        (λ u d w.
          Post-bind (λ u e. IsWalked web setting given e × IsSpent web setting given e)
            (λ u e. IsWalked web setting given e × IsSpent web setting given e)
            (λ e. IsWithin setting.site setting.options.max_pages e.pages) whole (λ u. after) d
            (walk_ends web setting given setting.options.max_pages d w.0 (rw w.1 (omega arith)))
            (λ u e x.
              Still-Explored e (after e)
                (when-Still web setting setting.options.auxiliary (after_walk web setting)
                  (after_walk-Still web setting) e)
                x.0 x.1))
