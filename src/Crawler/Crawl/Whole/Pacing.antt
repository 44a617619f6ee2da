-- ===== src/Crawler/Crawl/Whole/Pacing.antt =====
-- The politeness delay between what a crawl asks of others.
use seo_optimizer.Prelude.{
  ℕ, zero, suc, ◌≡◌, refl, inl, inr, String, Bool, true, false, not, ◌&&◌, ◌||◌, Option, none, some,
  List, [], ◌∷◌, ◌==◌, ==_iff, ltb, get_or, is_some, length, any, arith, Bool-cases,
}
use text.Mathlib.Text.{starts_with}
use seo_optimizer.Crawler.Hosts.{registrable_domain, strip_port}
use seo_optimizer.Crawler.Frontier.{QueueEntry, Frontier, next_entry}
use seo_optimizer.Crawler.Crawl.{
  Web, Setting, Crawling, Extracted, RenderResult, Run, M, ◌>>=◌, ◌>>◌, pure, goes, stops, Act,
  asks, waits, renders, reports, negotiates, looks_up, act, history, stop_if_cancelled, sleep,
  waited, pace, ask,
}
use seo_optimizer.Crawler.Crawl.Walk.{
  walk, round, take_next, take_entry, visit, fetch_entry, request_entry, render_first,
  render_second, render_desktop, render_phone, render_once, extracted_of, desktop_of, page_of,
  add_page, discover_from, compared, render_extracted, visit_browser, against_desktop,
}
use seo_optimizer.Crawler.Crawl.Walk.Frames.{Post, Post-bind}
use seo_optimizer.Crawler.Crawl.Aside.{
  before_walk, after_walk, run_errands, aside, Errand, add_answer, visit_host, negotiate_at,
  look_up_host, host_landed, landed_of, root_of, errands_before, errands_after,
}
use seo_optimizer.Crawler.Crawl.Whole.{explore, begin, when}

-- What another machine is asked for.
abbrev pub visits : Act → Bool
visits (asks url agent) = true
visits (renders url mobile) = true
visits (negotiates url) = true
visits (looks_up host) = true
visits (waits ms) = false
visits (reports url) = false

abbrev just_waited : ℕ → List Act → Bool
just_waited ms [] = false
just_waited ms (waits n ∷ trace) = n == ms
just_waited ms (asks url agent ∷ trace) = false
just_waited ms (renders url mobile ∷ trace) = false
just_waited ms (negotiates url ∷ trace) = false
just_waited ms (looks_up host ∷ trace) = false
just_waited ms (reports url ∷ trace) = false

-- Right before each visit but the first is a wait of so many milliseconds. The latest act stands first.
abbrev pub is_paced : ℕ → List Act → Bool
is_paced ms [] = true
is_paced ms (a ∷ trace) =
    is_paced ms trace && (not (visits a) || not (any visits trace) || just_waited ms trace)

module _ (web : Web) (setting : Setting) where
  abbrev Paced : Crawling → Type 0
  Paced c = is_paced setting.delay_ms c.trace ≡ true

  -- Before a request: paced, and where the first is still to come nothing was visited.
  record Calm (c : Crawling) : Type 0 where
    paced : Paced c
    fresh : c.first ≡ true → any visits c.trace ≡ false

  -- A visit may follow.
  record Ready (c : Crawling) : Type 0 where
    paced : Paced c
    begun : c.first ≡ false
    due : (not (any visits c.trace) || just_waited setting.delay_ms c.trace) ≡ true

  record Begun (c : Crawling) : Type 0 where
    paced : Paced c
    begun : c.first ≡ false

  abbrev Triple : {A : Type 0} → (Crawling → Type 0) → M A → (Crawling → Type 0) → Type 0
  Triple P m Q = (c : Crawling) → P c → Post (λ a d. Q d) Paced (m c)

  triple-bind :
      {A B : Type 0} (P Q R : Crawling → Type 0) (m : M A) (f : A → M B)
      → Triple P m Q
      → ((a : A) → Triple Q (f a) R)
      → Triple P (m >>= f) R
  triple-bind P Q R m f h k c p =
      Post-bind (λ a d. Q d) (λ b d. R d) Paced m f c (h c p) (λ a d q. k a d q)

  Begun-Calm : (c : Crawling) → Begun c → Calm c
  Begun-Calm c b = record { paced = b.paced; fresh = λ e. cc (e, b.begun) }

  stop_if_cancelled-keeps :
      (P : Crawling → Type 0)
      → ((c : Crawling) → P c → Paced c)
      → Triple P (stop_if_cancelled web setting) P
  unfolding stop_if_cancelled
  stop_if_cancelled-keeps P k c p = elim (Bool-cases (web.aborted (history web setting c))) [
    | inl e ↦ rw e (k c p)
    | inr e ↦ rw e p
  ]

  waited-keeps : (ms : ℕ) → Triple Ready (waited web setting ms) Ready
  waited-keeps ms c p = elim (Bool-cases (ltb 0 ms && web.aborted (history web setting c))) [
    | inl e ↦ rw e p.paced
    | inr e ↦ rw e p
  ]

  sleep-Ready : Triple Begun (sleep web setting) Ready
  unfolding sleep
  sleep-Ready =
      triple-bind Begun Begun Ready (stop_if_cancelled web setting) (λ u. wait_then)
        (stop_if_cancelled-keeps Begun (λ c b. b.paced))
        (λ u c b. waited-keeps setting.delay_ms (act (waits setting.delay_ms) c) (record {
          paced = ground (arith, b.paced);
          begun = b.begun;
          due = ground (arith, ==_iff setting.delay_ms setting.delay_ms);
        }))
    where
      wait_then : M (Unit {0})
      wait_then =
          (λ c. goes tt (act (waits setting.delay_ms) c)) >> waited web setting setting.delay_ms

  pace-Ready : Triple Calm (pace web setting) Ready
  unfolding pace
  pace-Ready c p = elim (Bool-cases c.first) [
    | inl e ↦ simp e (record { paced = p.paced; begun = refl; due = ground (arith, p.fresh e) })
    | inr e ↦ simp e (sleep-Ready c (record { paced = p.paced; begun = e }))
  ]

  ask-Begun : (url agent : String) → Triple Ready (ask web setting url agent) Begun
  unfolding ask
  ask-Begun url agent c p = record { paced = ground (arith, p.paced, p.due); begun = p.begun }

  act_due : (a : Act) (c : Crawling) → Ready c → Begun (act a c)
  act_due a c p = record { paced = ground (arith, p.paced, p.due); begun = p.begun }

  render_once-Begun :
      (url : String) (mobile : Bool) (against : Extracted)
      → Triple Begun (render_once web setting url mobile against) Begun
  unfolding render_once
  render_once-Begun url mobile against =
      triple-bind Begun Ready Begun (sleep web setting)
        (λ u. visited >>= λ render.
          pure (compared web setting against render (render_extracted web setting render)))
        sleep-Ready (λ u c r. act_due (renders url mobile) c r)
    where
      visited : M RenderResult
      visited = visit_browser web setting url mobile

  render_desktop-Begun :
      (url : String) (asked : Bool) (o : Option Extracted)
      → Triple Begun (render_desktop web setting url asked o) Begun
  render_desktop-Begun url false o c b = b
  render_desktop-Begun url true none c b = b
  render_desktop-Begun url true (some x) c b =
      triple-bind Begun Begun Begun (render_once web setting url false x)
        (λ page. pure (some (some page))) (render_once-Begun url false x) (λ page c b. b) c b

  render_phone-Begun :
      (url : String) (asked : Bool) (o desktop : Option Extracted)
      → Triple Begun (render_phone web setting url asked o desktop) Begun
  render_phone-Begun url false o desktop c b = b
  render_phone-Begun url true none desktop c b = b
  render_phone-Begun url true (some x) desktop c b =
      triple-bind Begun Begun Begun (render_once web setting url true (get_or desktop x))
        (λ page. pure (some (some (against_desktop web setting desktop page))))
        (render_once-Begun url true (get_or desktop x)) (λ page c b. b) c b

  request_entry-Begun : (e : QueueEntry) → Triple Ready (request_entry web setting e) Begun
  request_entry-Begun e =
      triple-bind Ready Begun Begun (ask web setting e.url setting.options.user_agent)
        (render_first web setting e) (ask-Begun e.url setting.options.user_agent)
        λ r.
          triple-bind Begun Begun Begun
            (render_desktop web setting r.final_url setting.options.render_pages
              (extracted_of web setting r))
            (render_second web setting e r)
            (render_desktop-Begun r.final_url setting.options.render_pages
              (extracted_of web setting r))
            λ o.
              triple-bind Begun Begun Begun
                (render_phone web setting r.final_url setting.options.render_mobile
                  (extracted_of web setting r) (desktop_of web setting o))
                (λ q. pure (page_of web setting e r o q))
                (render_phone-Begun r.final_url setting.options.render_mobile
                  (extracted_of web setting r) (desktop_of web setting o))
                (λ q c b. b)

  take_entry-Calm : (e : QueueEntry) (f : Frontier) → Triple Calm (take_entry web setting e f) Calm
  unfolding visit fetch_entry
  take_entry-Calm e f c p =
      triple-bind Calm Begun Calm (fetch_entry web setting e)
        (λ page. add_page web setting page >> discover_from web setting page)
        (triple-bind Calm Ready Begun (pace web setting) (λ u. request_entry web setting e)
          pace-Ready (λ u. request_entry-Begun e))
        (λ page d b. record { paced = ground (arith, b.paced); fresh = λ h. cc (h, b.begun) })
        (record c { frontier = f }) (record { paced = p.paced; fresh = p.fresh })

  take_next-Calm :
      (rest : M (Unit {0}))
      → Triple Calm rest Calm
      → (o : Option (QueueEntry × Frontier)) → Triple Calm (take_next web setting rest o) Calm
  take_next-Calm rest k none c p = p
  take_next-Calm rest k (some (e, f)) c p =
      triple-bind Calm Calm Calm (take_entry web setting e f) (λ u. rest) (take_entry-Calm e f)
        (λ u. k) c p

  walk-Calm : (rounds : ℕ) → Triple Calm (walk web setting rounds) Calm
  unfolding walk
  walk-Calm zero c p = p
  walk-Calm (suc rounds) c p = elim (Bool-cases (ltb (length c.pages) setting.options.max_pages)) [
    | inl e ↦ rw e (
        triple-bind Calm Calm Calm (stop_if_cancelled web setting)
          (λ u. round web setting (walk web setting rounds))
          (stop_if_cancelled-keeps Calm (λ d q. q.paced))
          (λ u d q.
            take_next-Calm (walk web setting rounds) (walk-Calm rounds) (next_entry d.frontier) d q)
          c p)
    | inr e ↦ rw e p
  ]

  aside-Calm : (e : Errand) → Triple Calm (aside web setting e) Calm
  unfolding aside
  aside-Calm e =
      triple-bind Calm Ready Calm (pace web setting) (λ u. asked) pace-Ready (λ u. asked-Calm)
    where
      agent : String
      agent = get_or e.user_agent setting.options.user_agent

      asked : M (Unit {0})
      asked = ask web setting e.url agent >>= add_answer web setting e

      asked-Calm : Triple Ready asked Calm
      asked-Calm =
          triple-bind Ready Begun Calm (ask web setting e.url agent) (add_answer web setting e)
            (ask-Begun e.url agent)
            (λ r c b. record { paced = b.paced; fresh = λ h. cc (h, b.begun) })

  run_errands-Calm : (es : List Errand) → Triple Calm (run_errands web setting es) Calm
  unfolding run_errands
  run_errands-Calm [] c p = p
  run_errands-Calm (e ∷ es) c p =
      triple-bind Calm Calm Calm (stop_if_cancelled web setting)
        (λ u. aside web setting e >> run_errands web setting es)
        (stop_if_cancelled-keeps Calm (λ d q. q.paced))
        (λ u.
          triple-bind Calm Calm Calm (aside web setting e) (λ v. run_errands web setting es)
            (aside-Calm e) (λ v. run_errands-Calm es))
        c p

  visit_host-Calm : (a : Act) → Triple Calm (visit_host web setting a) Calm
  visit_host-Calm a =
      triple-bind Calm Calm Calm (stop_if_cancelled web setting) (λ u. pace web setting >> noted)
        (stop_if_cancelled-keeps Calm (λ d q. q.paced))
        (λ u.
          triple-bind Calm Ready Calm (pace web setting) (λ v. noted) pace-Ready
            (λ v d r. Begun-Calm (act a d) (act_due a d r)))
    where
      noted : M (Unit {0})
      noted c = goes tt (act a c)

  negotiate_at-Calm : (o : Option String) → Triple Calm (negotiate_at web setting o) Calm
  negotiate_at-Calm none c p = p
  negotiate_at-Calm (some url) c p = elim (Bool-cases (starts_with url "https://")) [
    | inl e ↦ rw e (visit_host-Calm (negotiates url) c p)
    | inr e ↦ rw e p
  ]

  look_up_host-Calm : (o : Option String) → Triple Calm (look_up_host web setting o) Calm
  look_up_host-Calm none c p = p
  look_up_host-Calm (some host) c p =
      elim (Bool-cases (is_some (registrable_domain web.is_ip (strip_port host)))) [
        | inl e ↦ rw e (visit_host-Calm (looks_up (strip_port host)) c p)
        | inr e ↦ rw e p
      ]

  when-Calm : (b : Bool) (m : M (Unit {0})) → Triple Calm m Calm → Triple Calm (when web b m) Calm
  when-Calm false m k c p = p
  when-Calm true m k c p = k c p

  before_walk-Calm : Triple Calm (before_walk web setting) Calm
  unfolding before_walk
  before_walk-Calm = run_errands-Calm (errands_before web setting)

  after_walk-Calm : Triple Calm (after_walk web setting) Calm
  unfolding after_walk
  after_walk-Calm c p =
      let landed = landed_of (root_of c.pages) in
      triple-bind Calm Calm Calm (run_errands web setting (errands_after web setting c.pages))
        (λ u.
          negotiate_at web setting landed
          >> look_up_host web setting (host_landed web setting landed))
        (run_errands-Calm (errands_after web setting c.pages))
        (λ u.
          triple-bind Calm Calm Calm (negotiate_at web setting landed)
            (λ v. look_up_host web setting (host_landed web setting landed))
            (negotiate_at-Calm landed) (λ v. look_up_host-Calm (host_landed web setting landed)))
        c p

  explore-Calm : Triple Calm (explore web setting) Calm
  unfolding explore
  explore-Calm =
      let after = when web setting.options.auxiliary (after_walk web setting) in
      triple-bind Calm Calm Calm (when web setting.options.auxiliary (before_walk web setting))
        (λ u. walk web setting setting.options.max_pages >> after)
        (when-Calm setting.options.auxiliary (before_walk web setting) before_walk-Calm)
        (λ u.
          triple-bind Calm Calm Calm (walk web setting setting.options.max_pages) (λ v. after)
            (walk-Calm setting.options.max_pages)
            (λ v. when-Calm setting.options.auxiliary (after_walk web setting) after_walk-Calm))

  abbrev pub HasPaced : Run (Unit {0}) → Type 0
  HasPaced (goes u c) = is_paced setting.delay_ms c.trace ≡ true
  HasPaced (stops c) = is_paced setting.delay_ms c.trace ≡ true

  Calm-Paced : (r : Run (Unit {0})) → Post (λ u d. Calm d) Paced r → HasPaced r
  Calm-Paced (goes u c) h = h.paced
  Calm-Paced (stops c) h = h

-- After robots.txt and the sitemaps, whatever they said, right before each request, render, handshake and
-- lookup but the first stands a wait of the politeness delay: in the walk and in the requests around it, also
-- where the crawl is cancelled.
pub explore-HasPaced :
    (web : Web) (setting : Setting) (urls : List String)
    → HasPaced web setting (explore web setting (begin web setting urls))
explore-HasPaced web setting urls =
    Calm-Paced web setting (explore web setting (begin web setting urls)) (
      explore-Calm web setting (begin web setting urls)
        (record { paced = refl; fresh = λ e. refl }))
