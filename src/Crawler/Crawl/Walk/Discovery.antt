-- ===== src/Crawler/Crawl/Walk/Discovery.antt =====
-- Following what a page leads to.
use seo_optimizer.Prelude.{
  ℕ, ◌+◌, ◌≡◌, refl, inl, inr, String, Bool, true, not, ◌&&◌, ◌||◌, Option, some, List, [], ◌∷◌,
  ltb, all, arith, Bool-cases,
}
use seo_optimizer.Crawler.Frontier.{QueueEntry, to_walk, Frontier, enqueue, target}
use seo_optimizer.Crawler.Frontier.Seen.{
  is_seen, Grows, Grows-refl, Grows-trans, enqueue-Grows, enqueue-is_seen,
}
use seo_optimizer.Crawler.Crawl.{Web, Setting, CrawledPage, FetchResult, ExtractedLink}
use seo_optimizer.Crawler.Crawl.Walk.{
  enqueue_links, enqueue_redirect, discover, links_of, has_hop, follow,
}

module _ (web : Web) (setting : Setting) where
  -- Anything that `enqueue` keeps is kept.
  links_rule {ℓ} :
      (P : Frontier → Type ℓ)
      → ((url : String) (depth : ℕ) (from : Option String) (f : Frontier)
          → P f
          → P (enqueue setting.site to_walk url depth from f))
      → (e : QueueEntry) (links : List ExtractedLink) (f : Frontier) → P f
      → P (enqueue_links web setting e links f)
  unfolding enqueue_links
  links_rule P keep e [] f h = h
  links_rule P keep e (link ∷ links) f h =
      let next = follow web setting e link f in
      let held : P next = elim (Bool-cases link.nofollow) [
        | inl n ↦ rw n h
        | inr n ↦ rw n (keep link.url (e.depth + 1) (some e.normalized_url) f h)
      ] in
      links_rule P keep e links next held

  redirect_rule {ℓ} :
      (P : Frontier → Type ℓ)
      → ((url : String) (depth : ℕ) (from : Option String) (f : Frontier)
          → P f
          → P (enqueue setting.site to_walk url depth from f))
      → (e : QueueEntry) (result : FetchResult) (f : Frontier) → P f
      → P (enqueue_redirect web setting e result f)
  redirect_rule P keep e result f h =
      elim (Bool-cases (has_hop web setting result.redirect_chain)) [
        | inl r ↦ rw r (keep result.final_url e.depth (some e.normalized_url) f h)
        | inr r ↦ rw r h
      ]

  pub discover_rule {ℓ} :
      (P : Frontier → Type ℓ)
      → ((url : String) (depth : ℕ) (from : Option String) (f : Frontier)
          → P f
          → P (enqueue setting.site to_walk url depth from f))
      → (page : CrawledPage) (f : Frontier) → P f
      → P (discover web setting page f)
  unfolding discover
  discover_rule P keep page f h =
      links_rule P keep page.entry (links_of web setting page.extracted)
        (enqueue_redirect web setting page.entry page.fetch f)
        (redirect_rule P keep page.entry page.fetch f h)

  -- What a page leads to: where it redirects, and every link that is not `nofollow`.
  abbrev pub too_deep : ℕ → Bool
  too_deep depth = ltb setting.site.max_depth depth

  -- A test holds of every URL that a page leads to, with whether it lies too deep.
  abbrev pub leads_to : (Bool → Option String → Bool) → CrawledPage → Bool
  leads_to p page =
      (not (has_hop web setting page.fetch.redirect_chain)
        || p (too_deep page.entry.depth) (target setting.site page.fetch.final_url))
      && all
          (λ link.
            link.nofollow || p (too_deep (page.entry.depth + 1)) (target setting.site link.url))
          (links_of web setting page.extracted)

  abbrev pub is_followed : Frontier → CrawledPage → Bool
  is_followed f page = leads_to (λ deep o. is_seen deep f o) page

  pub discover-Grows : (page : CrawledPage) (f : Frontier) → Grows f (discover web setting page f)
  discover-Grows page f =
      discover_rule (Grows f)
        (λ url depth from g h.
          Grows-trans f g (enqueue setting.site to_walk url depth from g) h
            (enqueue-Grows setting.site to_walk url depth from g))
        page f (Grows-refl f)

  links-Grows :
      (e : QueueEntry) (links : List ExtractedLink) (f : Frontier)
      → Grows f (enqueue_links web setting e links f)
  links-Grows e links f =
      links_rule (Grows f)
        (λ url depth from g h.
          Grows-trans f g (enqueue setting.site to_walk url depth from g) h
            (enqueue-Grows setting.site to_walk url depth from g))
        e links f (Grows-refl f)

  links_seen :
      (e : QueueEntry) (links : List ExtractedLink) (f : Frontier)
      → all
          (λ link.
            link.nofollow
            || is_seen
                (too_deep (e.depth + 1))
                (enqueue_links web setting e links f)
                (target setting.site link.url))
          links
        ≡ true
  unfolding enqueue_links
  links_seen e [] f = refl
  links_seen e (link ∷ links) f =
      ground (arith, links_seen e links (follow web setting e link f), followed)
    where
      followed :
          link.nofollow
            || is_seen
                (too_deep (e.depth + 1))
                (enqueue_links web setting e links (follow web setting e link f))
                (target setting.site link.url)
          ≡ true
      followed = elim (Bool-cases link.nofollow) [
        | inl n ↦ rw n refl
        | inr n ↦ rw n (
            links-Grows e links
              (enqueue setting.site to_walk link.url (e.depth + 1) (some e.normalized_url) f)
              (too_deep (e.depth + 1)) (target setting.site link.url)
              (enqueue-is_seen setting.site to_walk link.url (e.depth + 1) (some e.normalized_url)
                f))
      ]

  -- All that a page leads to is seen once it is followed.
  pub discover-is_followed :
      (page : CrawledPage) (f : Frontier) → is_followed (discover web setting page f) page ≡ true
  unfolding discover
  discover-is_followed page f =
      let links = links_of web setting page.extracted in
      let g = enqueue_redirect web setting page.entry page.fetch f in
      rw (links_seen page.entry links g) (ground (arith, kept))
    where
      kept :
          (not (has_hop web setting page.fetch.redirect_chain)
            || is_seen
                (too_deep page.entry.depth)
                (discover web setting page f)
                (target setting.site page.fetch.final_url))
          ≡ true
      kept = elim (Bool-cases (has_hop web setting page.fetch.redirect_chain)) [
        | inl r ↦ rw r (
            links-Grows page.entry (links_of web setting page.extracted)
              (enqueue setting.site to_walk page.fetch.final_url page.entry.depth
                (some page.entry.normalized_url) f)
              (too_deep page.entry.depth) (target setting.site page.fetch.final_url)
              (enqueue-is_seen setting.site to_walk page.fetch.final_url page.entry.depth
                (some page.entry.normalized_url) f))
        | inr r ↦ rw r refl
      ]

  links_mono :
      (p q : Bool → Option String → Bool)
      → ((deep : Bool) (o : Option String) → p deep o ≡ true → q deep o ≡ true)
      → (deep : Bool) (links : List ExtractedLink)
      → all (λ link. link.nofollow || p deep (target setting.site link.url)) links ≡ true
      → all (λ link. link.nofollow || q deep (target setting.site link.url)) links ≡ true
  links_mono p q k deep [] h = refl
  links_mono p q k deep (link ∷ links) h =
      ground (arith, k deep (target setting.site link.url), links_mono p q k deep links)

  pub leads_to_mono :
      (p q : Bool → Option String → Bool) (page : CrawledPage)
      → ((deep : Bool) (o : Option String) → p deep o ≡ true → q deep o ≡ true)
      → leads_to p page ≡ true
      → leads_to q page ≡ true
  leads_to_mono p q page k h = ground (
    arith,
    k (too_deep page.entry.depth) (target setting.site page.fetch.final_url),
    links_mono p q k (too_deep (page.entry.depth + 1)) (links_of web setting page.extracted),
  )

  -- It stays so.
  pub is_followed-Grows :
      (f g : Frontier) (page : CrawledPage)
      → Grows f g
      → is_followed f page ≡ true
      → is_followed g page ≡ true
  is_followed-Grows f g page k h =
      leads_to_mono (λ deep o. is_seen deep f o) (λ deep o. is_seen deep g o) page k h
