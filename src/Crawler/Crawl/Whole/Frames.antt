-- ===== src/Crawler/Crawl/Whole/Frames.antt =====
-- What the requests outside the walk leave as it was.
use seo_optimizer.Prelude.{
  refl, inl, inr, String, Bool, true, false, Option, none, some, List, [], ◌∷◌, is_some, get_or,
  Bool-cases,
}
use seo_optimizer.Crawler.Crawl.{
  Web, Setting, Crawling, M, ◌>>=◌, ◌>>◌, goes, stop_if_cancelled, pace, ask, act, Act, negotiates,
  looks_up,
}
use seo_optimizer.Crawler.Crawl.Walk.Frames.{
  Still, Same-refl, Still-bind, stop_if_cancelled-Still, pace-Still, ask-Still,
}
use seo_optimizer.Crawler.Crawl.Aside.{
  before_walk, after_walk, run_errands, aside, Errand, add_answer, visit_host, negotiate_at,
  look_up_host, host_landed, landed_of, root_of, errands_before, errands_after,
}
use text.Mathlib.Text.{starts_with}
use seo_optimizer.Crawler.Hosts.{registrable_domain, strip_port}
use seo_optimizer.Crawler.Crawl.Whole.{when}

module _ (web : Web) (setting : Setting) where
  aside-Still : (e : Errand) (c : Crawling) → Still c (aside web setting e c)
  unfolding aside
  aside-Still e c =
      Still-bind (pace web setting) (λ u. asked) c (pace-Still web setting c) (λ u d. asked-Still d)
    where
      asked : M (Unit {0})
      asked = do
        result ← ask web setting e.url (get_or e.user_agent setting.options.user_agent)
        add_answer web setting e result

      asked-Still : (d : Crawling) → Still d (asked d)
      asked-Still d =
          Still-bind (ask web setting e.url (get_or e.user_agent setting.options.user_agent))
            (add_answer web setting e) d
            (ask-Still web setting e.url (get_or e.user_agent setting.options.user_agent) d)
            (λ r g. record { frontier = refl; pages = refl })

  run_errands-Still : (es : List Errand) (c : Crawling) → Still c (run_errands web setting es c)
  unfolding run_errands
  run_errands-Still [] c = Same-refl c
  run_errands-Still (e ∷ es) c =
      Still-bind (stop_if_cancelled web setting)
        (λ u. aside web setting e >> run_errands web setting es) c
        (stop_if_cancelled-Still web setting c)
        (λ u d.
          Still-bind (aside web setting e) (λ v. run_errands web setting es) d (aside-Still e d)
            (λ v g. run_errands-Still es g))

  visit_host-Still : (a : Act) (c : Crawling) → Still c (visit_host web setting a c)
  visit_host-Still a c =
      Still-bind (stop_if_cancelled web setting) (λ u. pace web setting >> noted) c
        (stop_if_cancelled-Still web setting c)
        (λ u d.
          Still-bind (pace web setting) (λ v. noted) d (pace-Still web setting d)
            (λ v g. record { frontier = refl; pages = refl }))
    where
      noted : M (Unit {0})
      noted c = goes tt (act a c)

  negotiate_at-Still : (o : Option String) (c : Crawling) → Still c (negotiate_at web setting o c)
  negotiate_at-Still none c = Same-refl c
  negotiate_at-Still (some url) c = elim (Bool-cases (starts_with url "https://")) [
    | inl e ↦ rw e (visit_host-Still (negotiates url) c)
    | inr e ↦ rw e (Same-refl c)
  ]

  look_up_host-Still : (o : Option String) (c : Crawling) → Still c (look_up_host web setting o c)
  look_up_host-Still none c = Same-refl c
  look_up_host-Still (some host) c =
      elim (Bool-cases (is_some (registrable_domain web.is_ip (strip_port host)))) [
        | inl e ↦ rw e (visit_host-Still (looks_up (strip_port host)) c)
        | inr e ↦ rw e (Same-refl c)
      ]

  pub before_walk-Still : (c : Crawling) → Still c (before_walk web setting c)
  unfolding before_walk
  before_walk-Still c = run_errands-Still (errands_before web setting) c

  pub after_walk-Still : (c : Crawling) → Still c (after_walk web setting c)
  unfolding after_walk
  after_walk-Still c =
      let landed = landed_of (root_of c.pages) in
      Still-bind (run_errands web setting (errands_after web setting c.pages))
        (λ u.
          negotiate_at web setting landed
          >> look_up_host web setting (host_landed web setting landed))
        c (run_errands-Still (errands_after web setting c.pages) c)
        (λ u d.
          Still-bind (negotiate_at web setting landed)
            (λ v. look_up_host web setting (host_landed web setting landed)) d
            (negotiate_at-Still landed d)
            (λ v g. look_up_host-Still (host_landed web setting landed) g))

  pub when-Still :
      (b : Bool) (m : M (Unit {0}))
      → ((c : Crawling) → Still c (m c))
      → (c : Crawling) → Still c (when web b m c)
  when-Still false m k c = Same-refl c
  when-Still true m k c = k c
