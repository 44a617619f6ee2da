-- ===== src/Crawler/Crawl/Walk.antt =====
-- The walk of packages/crawler/src/crawl.ts: the loop over the lanes, and what it does with a page.
pub mod Frames
pub mod Invariant
pub mod Discovery
use seo_optimizer.Prelude.{
  ℕ, zero, suc, ◌+◌, String, Bool, true, false, not, Option, none, some, List, [], ◌∷◌, ◌++◌, ltb,
  str_eq, if◌then◌else◌, length, is_some, get_or, ◌&&◌,
}
use seo_optimizer.Crawler.Frontier.{QueueEntry, Lane, to_walk, Frontier, enqueue, next_entry}
use seo_optimizer.Crawler.Crawl.{
  Web, Setting, Crawling, CrawledPage, FetchResult, ExtractedLink, Extracted, RenderResult,
  RenderedPage, Run, M, ◌>>=◌, ◌>>◌, pure, act, renders, reports, goes, stops, compare_renders,
  is_html, history, stop_if_cancelled, sleep, pace, ask,
}

module _ (web : Web) (setting : Setting) where
  abbrev pub extracted_of : FetchResult → Option Extracted
  extracted_of result =
      if is_html result.content_type && not (str_eq result.body "")
      then some (web.extract result.body result.final_url)
      else none

  abbrev pub render_extracted : RenderResult → Option Extracted
  render_extracted render =
      if not (is_some render.error) && not (str_eq render.html "")
      then some (web.extract render.html render.final_url)
      else none

  abbrev pub compared : Extracted → RenderResult → Option Extracted → RenderedPage
  compared against render none = record { render = render; extracted = none; comparison = none }
  compared against render (some rendered) = record {
    render = render;
    extracted = some rendered;
    comparison = some (compare_renders against rendered);
  }

  abbrev pub visit_browser : String → Bool → M RenderResult
  visit_browser url mobile c =
      goes (web.render (history web setting c) url mobile) (act (renders url mobile) c)

  unfoldable pub render_once : String → Bool → Extracted → M RenderedPage
  render_once url mobile against = do
    sleep web setting
    render ← visit_browser url mobile
    pure (compared against render (render_extracted render))

  -- The renders of a page; the outer `none` is one that was not asked for.
  abbrev pub render_desktop : String → Bool → Option Extracted → M (Option (Option RenderedPage))
  render_desktop url false extracted = pure none
  render_desktop url true none = pure (some none)
  render_desktop url true (some extracted) = do
    page ← render_once url false extracted
    pure (some (some page))

  abbrev pub desktop_of : Option (Option RenderedPage) → Option Extracted
  desktop_of none = none
  desktop_of (some none) = none
  desktop_of (some (some page)) = page.extracted

  -- A comparison with the raw page would read as one with the desktop render.
  abbrev pub against_desktop : Option Extracted → RenderedPage → RenderedPage
  against_desktop none page = record page { comparison = none }
  against_desktop (some desktop) page = page

  abbrev pub render_phone :
      String → Bool → Option Extracted → Option Extracted → M (Option (Option RenderedPage))
  render_phone url false extracted desktop = pure none
  render_phone url true none desktop = pure (some none)
  render_phone url true (some extracted) desktop = do
    page ← render_once url true (get_or desktop extracted)
    pure (some (some (against_desktop desktop page)))

  -- `pages.push(page)` and `onPage`.
  abbrev pub add_page : CrawledPage → M (Unit {0})
  add_page page c =
      goes tt (act (reports page.entry.normalized_url) (record c { pages = c.pages ++ page ∷ [] }))

  abbrev pub has_hop : List String → Bool
  has_hop [] = false
  has_hop (hop ∷ hops) = true

  abbrev pub enqueue_redirect : QueueEntry → FetchResult → Frontier → Frontier
  enqueue_redirect e result f =
      if has_hop result.redirect_chain
      then enqueue setting.site to_walk result.final_url e.depth (some e.normalized_url) f
      else f

  abbrev pub follow : QueueEntry → ExtractedLink → Frontier → Frontier
  follow e link f =
      if link.nofollow
      then f
      else enqueue setting.site to_walk link.url (e.depth + 1) (some e.normalized_url) f

  -- The loop over a page's links.
  unfoldable pub enqueue_links : QueueEntry → List ExtractedLink → Frontier → Frontier
  enqueue_links e [] f = f
  enqueue_links e (link ∷ links) f = enqueue_links e links (follow e link f)

  abbrev pub links_of : Option Extracted → List ExtractedLink
  links_of none = []
  links_of (some extracted) = extracted.links

  unfoldable pub discover : CrawledPage → Frontier → Frontier
  unfolding enqueue_links
  discover page f =
      enqueue_links page.entry (links_of page.extracted) (enqueue_redirect page.entry page.fetch f)

  abbrev pub discover_from : CrawledPage → M (Unit {0})
  discover_from page c = goes tt (record c { frontier = discover page c.frontier })

  abbrev pub page_of :
      QueueEntry
      → FetchResult
      → Option (Option RenderedPage)
      → Option (Option RenderedPage)
      → CrawledPage
  page_of e result rendered phone = record {
    entry = e;
    fetch = result;
    extracted = extracted_of result;
    rendered = rendered;
    rendered_mobile = phone;
  }

  abbrev pub render_second : QueueEntry → FetchResult → Option (Option RenderedPage) → M CrawledPage
  render_second e result rendered = do
    phone ←
        render_phone result.final_url setting.options.render_mobile (extracted_of result)
          (desktop_of rendered)
    pure (page_of e result rendered phone)

  abbrev pub render_first : QueueEntry → FetchResult → M CrawledPage
  render_first e result = do
    rendered ← render_desktop result.final_url setting.options.render_pages (extracted_of result)
    render_second e result rendered

  abbrev pub request_entry : QueueEntry → M CrawledPage
  request_entry e = do
    result ← ask web setting e.url setting.options.user_agent
    render_first e result

  -- A round of the loop up to the page.
  unfoldable pub fetch_entry : QueueEntry → M CrawledPage
  fetch_entry e = do pace web setting; request_entry e

  unfoldable pub visit : QueueEntry → M (Unit {0})
  unfolding fetch_entry discover
  visit e = do page ← fetch_entry e; add_page page; discover_from page

  abbrev pub take_entry : QueueEntry → Frontier → M (Unit {0})
  take_entry e f c = visit e (record c { frontier = f })

  abbrev pub take_next : M (Unit {0}) → Option (QueueEntry × Frontier) → M (Unit {0})
  take_next rest none = pure tt
  take_next rest (some (e, f)) = take_entry e f >> rest

  -- A round: the next entry and then the rest of the loop, or the end where no entry waits.
  abbrev pub round : M (Unit {0}) → M (Unit {0})
  round rest c = take_next rest (next_entry c.frontier) c

  -- The loop, for as many rounds as pages may still be fetched.
  unfoldable pub walk : ℕ → M (Unit {0})
  unfolding visit
  walk zero c = goes tt c
  walk (suc rounds) c =
      if ltb (length c.pages) setting.options.max_pages
      then (stop_if_cancelled web setting >> round (walk rounds)) c
      else goes tt c
