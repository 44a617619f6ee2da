-- ===== src/Crawler/Crawl/Walk/Frames.antt =====
-- What the requests and waits of a page leave as it was.
use seo_optimizer.Prelude.{
  ℕ, get_or, ◌≡◌, refl, ◌∙◌, inl, inr, String, Bool, true, false, Option, none, some, ltb, ◌&&◌,
  Bool-cases,
}
use seo_optimizer.Crawler.Frontier.{QueueEntry}
use seo_optimizer.Crawler.Crawl.{
  Web, Setting, Crawling, CrawledPage, Extracted, RenderedPage, FetchResult, pure, Run, M, ◌>>=◌,
  goes, stops, stop_if_cancelled, sleep, pace, ask, history, waited, act, waits,
}
use seo_optimizer.Crawler.Crawl.Walk.{
  fetch_entry, render_once, render_desktop, render_phone, render_second, render_first,
  request_entry, extracted_of, desktop_of, page_of,
}

-- What holds where a piece of the crawl went on, and where it was stopped.
abbrev pub Post {ℓ} : {A : Type 0} → (A → Crawling → Type ℓ) → (Crawling → Type ℓ) → Run A → Type ℓ
Post Q S (goes a c) = Q a c
Post Q S (stops c) = S c

pub Post-bind {ℓ} :
    {A B : Type 0} (Q : A → Crawling → Type ℓ) (R : B → Crawling → Type ℓ) (S : Crawling → Type ℓ)
    (m : M A) (f : A → M B) (c : Crawling)
    → Post Q S (m c)
    → ((a : A) (d : Crawling) → Q a d → Post R S (f a d))
    → Post R S ((m >>= f) c)
Post-bind Q R S m f c h k = after (m c) h
  where
    after : (r : Run _) → Post Q S r → Post R S (elim r [ goes a d ↦ f a d | stops d ↦ stops d ])
    after (goes a d) h = k a d h
    after (stops d) h = h

anything : {A : Type 0} (r : Run A) → Post (λ a d. Unit {0}) (λ d. Unit {0}) r
anything (goes a c) = tt
anything (stops c) = tt

-- Neither the lanes nor the pages were touched.
pub record Same (c d : Crawling) : Type 0 where
  pub frontier : d.frontier ≡ c.frontier
  pub pages : d.pages ≡ c.pages

abbrev pub Still : {A : Type 0} → Crawling → Run A → Type 0
Still c r = Post (λ a d. Same c d) (Same c) r

pub Same-refl : (c : Crawling) → Same c c
Same-refl c = record { frontier = refl; pages = refl }

pub Same-trans : {c d e : Crawling} → Same c d → Same d e → Same c e
Same-trans s t = record { frontier = t.frontier ∙ s.frontier; pages = t.pages ∙ s.pages }

widen : {A : Type 0} {c d : Crawling} (r : Run A) → Same c d → Still d r → Still c r
widen (goes a e) s h = Same-trans s h
widen (stops e) s h = Same-trans s h

pub Still-bind :
    {A B : Type 0} (m : M A) (f : A → M B) (c : Crawling)
    → Still c (m c)
    → ((a : A) (d : Crawling) → Still d (f a d))
    → Still c ((m >>= f) c)
Still-bind m f c h k =
    Post-bind (λ a d. Same c d) (λ b d. Same c d) (Same c) m f c h
      (λ a d s. widen (f a d) s (k a d))

module _ (web : Web) (setting : Setting) where
  pub stop_if_cancelled-Still : (c : Crawling) → Still c (stop_if_cancelled web setting c)
  unfolding stop_if_cancelled
  stop_if_cancelled-Still c = elim (Bool-cases (web.aborted (history web setting c))) [
    | inl e ↦ rw e (Same-refl c)
    | inr e ↦ rw e (Same-refl c)
  ]

  waited-Still : (ms : ℕ) (c : Crawling) → Still c (waited web setting ms c)
  waited-Still ms c = elim (Bool-cases (ltb 0 ms && web.aborted (history web setting c))) [
    | inl e ↦ rw e (Same-refl c)
    | inr e ↦ rw e (Same-refl c)
  ]

  pub sleep-Still : (c : Crawling) → Still c (sleep web setting c)
  unfolding sleep
  sleep-Still c =
      Still-bind (stop_if_cancelled web setting) _ c (stop_if_cancelled-Still c)
        (λ a d. waited-still d)
    where
      waited-still :
          (d : Crawling)
          → Still d (waited web setting setting.delay_ms (act (waits setting.delay_ms) d))
      waited-still d =
          widen _ (record { frontier = refl; pages = refl })
            (waited-Still setting.delay_ms (act (waits setting.delay_ms) d))

  pub pace-Still : (c : Crawling) → Still c (pace web setting c)
  unfolding pace
  pace-Still c = elim (Bool-cases c.first) [
    | inl e ↦ simp e (record { frontier = refl; pages = refl })
    | inr e ↦ simp e (sleep-Still c)
  ]

  pub ask-Still : (url agent : String) (c : Crawling) → Still c (ask web setting url agent c)
  unfolding ask
  ask-Still url agent c = record { frontier = refl; pages = refl }

  render_once-Still :
      (url : String) (mobile : Bool) (against : Extracted) (c : Crawling)
      → Still c (render_once web setting url mobile against c)
  unfolding render_once
  render_once-Still url mobile against c =
      Still-bind (sleep web setting) _ c (sleep-Still c)
        (λ a d. record { frontier = refl; pages = refl })

  render_desktop-Still :
      (url : String) (asked : Bool) (o : Option Extracted) (c : Crawling)
      → Still c (render_desktop web setting url asked o c)
  render_desktop-Still url false o c = Same-refl c
  render_desktop-Still url true none c = Same-refl c
  render_desktop-Still url true (some x) c =
      Still-bind (render_once web setting url false x) _ c (render_once-Still url false x c)
        (λ a d. Same-refl d)

  render_phone-Still :
      (url : String) (asked : Bool) (o desktop : Option Extracted) (c : Crawling)
      → Still c (render_phone web setting url asked o desktop c)
  render_phone-Still url false o desktop c = Same-refl c
  render_phone-Still url true none desktop c = Same-refl c
  render_phone-Still url true (some x) desktop c =
      Still-bind (render_once web setting url true (get_or desktop x)) _ c
        (render_once-Still url true (get_or desktop x) c) (λ a d. Same-refl d)

  render_second-Still :
      (e : QueueEntry) (r : FetchResult) (o : Option (Option RenderedPage)) (c : Crawling)
      → Still c (render_second web setting e r o c)
  render_second-Still e r o c =
      let phone =
        render_phone web setting r.final_url setting.options.render_mobile
          (extracted_of web setting r) (desktop_of web setting o) in
      Still-bind phone (λ q. pure (page_of web setting e r o q)) c
        (render_phone-Still r.final_url setting.options.render_mobile (extracted_of web setting r)
          (desktop_of web setting o) c)
        (λ q d. Same-refl d)

  render_first-Still :
      (e : QueueEntry) (r : FetchResult) (c : Crawling) → Still c (render_first web setting e r c)
  render_first-Still e r c =
      Still-bind
        (render_desktop web setting r.final_url setting.options.render_pages
          (extracted_of web setting r))
        (render_second web setting e r) c
        (render_desktop-Still r.final_url setting.options.render_pages (extracted_of web setting r)
          c)
        (λ o d. render_second-Still e r o d)

  request_entry-Still : (e : QueueEntry) (c : Crawling) → Still c (request_entry web setting e c)
  request_entry-Still e c =
      Still-bind (ask web setting e.url setting.options.user_agent) (render_first web setting e) c
        (ask-Still e.url setting.options.user_agent c) (λ r d. render_first-Still e r d)

  pub fetch_entry-Still : (e : QueueEntry) (c : Crawling) → Still c (fetch_entry web setting e c)
  unfolding fetch_entry
  fetch_entry-Still e c =
      Still-bind (pace web setting) (λ a. request_entry web setting e) c (pace-Still c)
        (λ a d. request_entry-Still e d)

  -- The page that comes back is the entry's.
  pub fetch_entry-entry :
      (e : QueueEntry) (c : Crawling)
      → Post
          (λ (page : CrawledPage) d. page.entry ≡ e)
          (λ d. Unit {0})
          (fetch_entry web setting e c)
  unfolding fetch_entry
  fetch_entry-entry e c =
      onward (pace web setting) (λ a. request_entry web setting e) c
        λ a d.
          onward (ask web setting e.url setting.options.user_agent) (render_first web setting e) d
            λ r g.
              onward
                (render_desktop web setting r.final_url setting.options.render_pages
                  (extracted_of web setting r))
                (render_second web setting e r) g
                λ o h.
                  onward
                    (render_phone web setting r.final_url setting.options.render_mobile
                      (extracted_of web setting r) (desktop_of web setting o))
                    (λ q. pure (page_of web setting e r o q)) h λ q k. refl
    where
      onward :
          {A : Type 0} (m : M A) (f : A → M CrawledPage) (c : Crawling)
          → ((a : A) (d : Crawling)
              → Post (λ (page : CrawledPage) d. page.entry ≡ e) (λ d. Unit {0}) (f a d))
          → Post (λ (page : CrawledPage) d. page.entry ≡ e) (λ d. Unit {0}) ((m >>= f) c)
      onward m f c k =
          Post-bind (λ a d. Unit {0}) (λ page d. page.entry ≡ e) (λ d. Unit {0}) m f c
            (anything (m c)) (λ a d u. k a d)
