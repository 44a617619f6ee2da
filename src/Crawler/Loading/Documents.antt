-- ===== src/Crawler/Loading/Documents.antt =====
-- Which sitemap documents a crawl asks for.
use mathlib.Core.List.{append-nil}
use seo_optimizer.Prelude.{
  ℕ, zero, suc, ◌+◌, ◌≡◌, ◌≤◌, ◌⊎◌, inl, inr, refl, sym, ap, ◌∙◌, String, Bool, true, ◌||◌, Option,
  none, some, List, [], ◌∷◌, ◌++◌, map, has, has-append, str_eq, if◌then◌else◌, length,
  length-append, count_if, count_if-append, any, arith, Bool-cases, eq_iff,
}
use seo_optimizer.Crawler.Robots.{Robots}
use seo_optimizer.Crawler.Crawl.{
  Act, asks, waits, renders, reports, negotiates, looks_up, Web, FetchResult, CrawlOptions,
}
use seo_optimizer.Crawler.Loading.{
  Sitemaps, SitemapFetch, Draw, draw, enough, is_waiting, is_200, snoc, parsed_of, fetch_document,
  failed_document, read_document, Load, loads, cancels, fails, load_documents, load_drawn,
  load_roots, load_sitemaps, nothing_loaded, roots_of, one_lane, max_sitemap_documents,
}
use seo_optimizer.Crawler.Loading.Draws.{
  in_lanes, in_lanes-snoc, none_waiting, draw-none, draw-IsDrawn,
}

abbrev pub is_document : String → SitemapFetch → Bool
is_document url document = str_eq document.url url

module _ (web : Web) (options : CrawlOptions) where
  -- The sitemaps that an answer lists: none where its status is not 200.
  abbrev pub listed : FetchResult → List String
  listed result = if is_200 result.status then (parsed_of web options result).sitemaps else []

  -- Those that the latest requests' answers list.
  abbrev pub found : ℕ → List Act → List String
  found zero history = []
  found (suc n) [] = []
  found (suc n) (asks url agent ∷ history) =
      listed (web.request history url agent) ++ found n history
  found (suc n) (waits ms ∷ history) = found n history
  found (suc n) (renders url mobile ∷ history) = found n history
  found (suc n) (reports url ∷ history) = found n history
  found (suc n) (negotiates url ∷ history) = found n history
  found (suc n) (looks_up host ∷ history) = found n history

  abbrev pub declared : List String → Sitemaps → String → Bool
  declared roots s url = has roots url || has (found (length s.documents) s.trace) url

  abbrev reached : Sitemaps → String → Bool
  reached s url = has s.seen url || in_lanes s.lanes url

  -- The requests for these documents, on top of what was done before.
  abbrev pub asked_for : List Act → List SitemapFetch → List Act
  asked_for history [] = history
  asked_for history (document ∷ documents) =
      asked_for (asks document.url options.user_agent ∷ history) documents

  asked_for-snoc :
      (history : List Act) (documents : List SitemapFetch) (document : SitemapFetch)
      → asked_for history (snoc documents document)
        ≡ asks document.url options.user_agent ∷ asked_for history documents
  asked_for-snoc history [] document = refl
  asked_for-snoc history (other ∷ documents) document =
      asked_for-snoc (asks other.url options.user_agent ∷ history) documents document

  record IsLoading (roots : List String) (history : List Act) (budget : ℕ) (s : Sitemaps)
      : Type 0 where
    acted : s.trace ≡ asked_for history s.documents
    counted :
        (url : String) → count_if (is_document url) s.documents ≡ (if has s.seen url then 1 else 0)
    spent : length s.documents + budget ≡ max_sitemap_documents
    kept : (url : String) → declared roots s url ≡ true → reached s url ≡ true

  -- What asking for a document changes.
  record Added (d : Draw) (s s' : Sitemaps) : Type 0 where
    document : SitemapFetch
    about : document.url ≡ d.next
    documents : s'.documents ≡ snoc s.documents document
    seen : s'.seen ≡ d.next ∷ s.seen
    trace : s'.trace ≡ asks d.next options.user_agent ∷ s.trace
    lanes :
        s'.lanes ≡ snoc d.others (d.lane ++ listed (web.request s.trace d.next options.user_agent))

  fetch_document-Added : (d : Draw) (s : Sitemaps) → Added d s (fetch_document web options d s)
  unfolding fetch_document
  fetch_document-Added d s =
      elim (Bool-cases (is_200 (web.request s.trace d.next options.user_agent).status)) [
        | inl e ↦ rw e (record {
          document =
              read_document web options d (web.request s.trace d.next options.user_agent)
                (parsed_of web options (web.request s.trace d.next options.user_agent));
          about = refl;
          documents = refl;
          seen = refl;
          trace = refl;
          lanes = rw e refl;
        })
        | inr e ↦ rw e (record {
          document = failed_document web options d (web.request s.trace d.next options.user_agent);
          about = refl;
          documents = refl;
          seen = refl;
          trace = refl;
          lanes = rw e (rw (append-nil d.lane) refl);
        })
      ]

  Added-IsLoading :
      (roots : List String) (history : List Act) (budget : ℕ) (s s' : Sitemaps) (d : Draw)
      → draw (enough s.lanes) s.seen s.lanes ≡ some d
      → Added d s s'
      → IsLoading roots history (suc budget) s
      → IsLoading roots history budget s'
  Added-IsLoading roots history budget s s' d e a l =
      let drawn = draw-IsDrawn (enough s.lanes) s.seen s.lanes e in
      let answer = web.request s.trace d.next options.user_agent in
      record {
        acted =
            a.trace
            ∙ (ap (λ h. asks d.next options.user_agent ∷ h) l.acted
                ∙ (ap (λ url. asks url options.user_agent ∷ asked_for history s.documents)
                      (sym a.about)
                    ∙ (sym (asked_for-snoc history s.documents a.document)
                        ∙ ap (asked_for history) (sym a.documents))));
        counted = λ url. ground (
          arith,
          a.documents,
          a.seen,
          a.about,
          l.counted url,
          drawn.fresh,
          eq_iff d.next url,
          count_if-append {0} (is_document url) s.documents (a.document ∷ []),
        );
        spent =
            rw a.documents
              (omega (arith, l.spent, length-append {0} s.documents (a.document ∷ [])));
        kept = λ url h.
            rw (a.seen, a.lanes)
              (rw
                (
                  in_lanes-snoc d.others (d.lane ++ listed answer) url,
                  has-append d.lane (listed answer) url,
                )
                (ground (
                  arith,
                  declares url h,
                  l.kept url,
                  drawn.kept url,
                  in_lanes-snoc d.others d.lane url,
                )));
      }
    where
      declares :
          (url : String)
          → declared roots s' url ≡ true
          → (has roots url
              || (has (listed (web.request s.trace d.next options.user_agent)) url
                  || has (found (length s.documents) s.trace) url))
            ≡ true
      declares url h =
          let more : length s'.documents ≡ suc (length s.documents) =
            rw a.documents (omega (arith, length-append {0} s.documents (a.document ∷ []))) in
          let told = rw (more, a.trace) at h in
          ground (
            arith,
            told,
            has-append (listed (web.request s.trace d.next options.user_agent))
                (found (length s.documents) s.trace) url,
          )

  -- Nothing was done but to ask for these documents: none twice, and so many at most.
  pub record HasAsked (history : List Act) (s : Sitemaps) : Type 0 where
    pub acted : s.trace ≡ asked_for history s.documents
    pub once : (url : String) → count_if (is_document url) s.documents ≤ 1
    pub bounded : length s.documents ≤ max_sitemap_documents

  -- The loop ends with the budget of documents spent or every declared sitemap asked for.
  pub record IsLoaded (roots : List String) (history : List Act) (s : Sitemaps) : Type 0 where
    pub requests : HasAsked history s
    pub complete :
        (length s.documents ≡ max_sitemap_documents)
        ⊎ ((url : String)
            → declared roots s url ≡ true
            → count_if (is_document url) s.documents ≡ 1)

  abbrev pub EndsFrom : List String → List Act → Load web options → Type 0
  EndsFrom roots history (loads s) = IsLoaded roots history s
  EndsFrom roots history (cancels s) = HasAsked history s × (web.aborted s.trace ≡ true)
  EndsFrom roots history fails = ⊥

  abbrev pub LoadEnds : Option (List String) → List Act → Load web options → Type 0
  LoadEnds none history l = l ≡ fails
  LoadEnds (some roots) history l = EndsFrom roots history l

  loading-HasAsked :
      (roots : List String) (history : List Act) (budget : ℕ) (s : Sitemaps)
      → IsLoading roots history budget s
      → HasAsked history s
  loading-HasAsked roots history budget s l = record {
    acted = l.acted;
    once = λ url. ground (arith, l.counted url);
    bounded = omega (arith, l.spent);
  }

  drained :
      (roots : List String) (history : List Act) (budget : ℕ) (s s' : Sitemaps)
      → s'.documents ≡ s.documents
      → s'.trace ≡ s.trace
      → IsLoading roots history budget s
      → ((url : String) → in_lanes s.lanes url ≡ true → has s.seen url ≡ true)
      → IsLoaded roots history s'
  drained roots history budget s s' same trace l out = record {
    requests = record {
      acted = rw (trace, same) l.acted;
      once = λ url. ground (arith, same, l.counted url);
      bounded = rw same (omega (arith, l.spent));
    };
    complete = inr (λ url h.
        let told : declared roots s url ≡ true = rw (same, trace) at h in
        rw same (ground (arith, l.kept url told, out url, l.counted url)));
  }

  drawn_ends :
      (roots : List String) (history : List Act) (budget : ℕ) (s : Sitemaps)
      (rest : Sitemaps → Load web options)
      → ((s' : Sitemaps) → IsLoading roots history budget s' → EndsFrom roots history (rest s'))
      → IsLoading roots history (suc budget) s
      → (o : Option Draw) → draw (enough s.lanes) s.seen s.lanes ≡ o
      → EndsFrom roots history (load_drawn web options rest s o)
  drawn_ends roots history budget s rest k l none e =
      drained roots history (suc budget) s (record s { lanes = [] }) refl refl l
        (λ url h. draw-none s.seen s.lanes url e h)
  drawn_ends roots history budget s rest k l (some d) e = k (fetch_document web options d s) (
      Added-IsLoading roots history budget s (fetch_document web options d s) d e
        (fetch_document-Added d s) l)

  documents_end :
      (roots : List String) (history : List Act) (budget : ℕ) (s : Sitemaps)
      → IsLoading roots history budget s
      → EndsFrom roots history (load_documents web options budget s)
  unfolding load_documents
  documents_end roots history zero s l = record {
    requests = loading-HasAsked roots history zero s l;
    complete = inl (omega (arith, l.spent));
  }
  documents_end roots history (suc budget) s l = elim (Bool-cases (any is_waiting s.lanes)) [
    | inl w ↦ rw w (elim (Bool-cases (web.aborted s.trace)) [
      | inl a ↦ rw a (loading-HasAsked roots history (suc budget) s l, a)
      | inr a ↦ rw a (
          drawn_ends roots history budget s (load_documents web options budget)
            (documents_end roots history budget) l (draw (enough s.lanes) s.seen s.lanes) refl)
    ])
    | inr w ↦ rw w (
        drained roots history (suc budget) s s refl refl l
          (λ url h. absurd (cc (h, none_waiting s.lanes url w))))
  ]

  roots_wait :
      (roots : List String) (url : String)
      → in_lanes (map (one_lane web options) roots) url ≡ has roots url
  roots_wait [] url = refl
  roots_wait (root ∷ roots) url = ground (arith, roots_wait roots url)

  -- `loadSitemaps` asks for no document twice, for fifty at most and for nothing else, also where it is
  -- cancelled, and then the signal is up. Where it is not cancelled, it has asked for fifty, or else for every
  -- sitemap that robots.txt declares (`/sitemap.xml` where it declares none) and for every one that a document
  -- it was given with status 200 lists. Where the address of `/sitemap.xml` is needed and cannot be made from
  -- the origin, it throws.
  pub load_sitemaps-ends :
      (robots : Robots) (origin : String) (history : List Act)
      → LoadEnds
          (roots_of web options robots origin)
          history
          (load_sitemaps web options robots origin history)
  unfolding load_sitemaps
  load_sitemaps-ends robots origin history = from_roots (roots_of web options robots origin)
    where
      from_roots :
          (o : Option (List String)) → LoadEnds o history (load_roots web options history o)
      from_roots none = refl
      from_roots (some roots) =
          documents_end roots history max_sitemap_documents
            (nothing_loaded web options roots history)
            (record {
              acted = refl;
              counted = λ url. refl;
              spent = refl;
              kept = λ url h. rw (roots_wait roots url) (ground (arith, h));
            })
