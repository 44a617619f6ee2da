-- ===== src/Crawler/Sitemap/RoundTrip.antt =====
-- Reading what the author of a sitemap wrote.
use mathlib.Core.List
use text.Mathlib.TextLemmas.{nil-append}
use seo_optimizer.Prelude.{
  ◌≡◌, refl, ap, ◌∙◌, inl, inr, String, true, false, Option, none, some, List, [], ◌∷◌, ◌++◌, map,
  flat_map, concat, str_eq, clean, Bool-cases, arith,
}
use seo_optimizer.Crawler.Sitemap.{
  XmlEvent, opens, texts, closes, ParsedSitemap, SitemapParser, read_events, snoc, read_sitemap,
  fresh_parser, video_of, news_of,
}
use seo_optimizer.Crawler.Sitemap.Printing.{
  Text, Tags, IsSpelled, WrittenVideo, WrittenNews, WrittenUrl, element, content, nonblank,
  video_events, news_events, url_events, urlset_events, video_content, news_content, url_content,
  urlset_content, joined,
}
use seo_optimizer.Crawler.Sitemap.Fields.{texts_read}
use seo_optimizer.Crawler.Sitemap.Entries.{
  video_fields, video_of-fields, news_item_fields, news_of-fields, in_entry, videos_read,
  all_news_read,
}

-- Reading a `<url>` to its end, after those before it.
abbrev in_urlset : ParsedSitemap → SitemapParser
in_urlset parsed = record {
  parsed = parsed;
  path = "urlset" ∷ [];
  entry = none;
  in_video = false;
  in_news = false;
  text = none;
}

module _ (t : Tags) (spelled : IsSpelled t) where
  -- The location alone.
  abbrev located : Option String → ParsedSitemap → ParsedSitemap
  located none parsed = parsed
  located (some loc) parsed = record parsed { urls = snoc parsed.urls loc }

  abbrev locs_of : Option String → List String
  locs_of none = []
  locs_of (some loc) = loc ∷ []

  abbrev loc_text : ParsedSitemap → String → SitemapParser
  loc_text parsed value = record {
    parsed = parsed;
    path = "urlset" ∷ "url" ∷ "loc" ∷ [];
    entry = some (record { locs = []; videos = []; news = [] });
    in_video = false;
    in_news = false;
    text = some (record { depth = 3; value = value });
  }

  loc_text_read :
      (value : String) (parsed : ParsedSitemap) (rest : List XmlEvent)
      → read_events false (closes "loc" ∷ rest) (loc_text parsed value)
        ≡ read_events false rest (
            in_entry t spelled
              (located (nonblank (clean value)) parsed)
              (locs_of (nonblank (clean value)))
              []
              [])
  unfolding read_events
  loc_text_read value parsed rest = elim (Bool-cases (str_eq (clean value) "")) [
    | inl e ↦ rw e refl
    | inr e ↦ rw e refl
  ]

  loc_read :
      (pieces : Text) (parsed : ParsedSitemap) (rest : List XmlEvent)
      → read_events false (opens "url" ∷ (element "loc" pieces ++ rest)) (in_urlset parsed)
        ≡ read_events false rest
            (in_entry t spelled (located (content pieces) parsed) (locs_of (content pieces)) [] [])
  unfolding read_events
  loc_read pieces parsed rest =
      ap (λ l. read_events false l (loc_text parsed ""))
        (List.append_assoc (map texts pieces) (closes "loc" ∷ []) rest)
      ∙ (texts_read pieces (closes "loc" ∷ rest) (loc_text parsed "")
            (record { depth = 3; value = "" })
          ∙ rw (nil-append (concat pieces)) (loc_text_read (concat pieces) parsed rest))

  map-video_of :
      (loc : String) (vs : List WrittenVideo)
      → map (video_of loc) (map video_fields vs) ≡ map (video_content loc) vs
  map-video_of loc [] = refl
  map-video_of loc (v ∷ vs) = ground (arith, video_of-fields loc v, map-video_of loc vs)

  map-news_of :
      (loc : String) (ns : List WrittenNews)
      → map (news_of loc) (map news_item_fields ns) ≡ map (news_content loc) ns
  map-news_of loc [] = refl
  map-news_of loc (n ∷ ns) = ground (arith, news_of-fields loc n, map-news_of loc ns)

  url_closed :
      (u : WrittenUrl) (o : Option String) (parsed : ParsedSitemap) (rest : List XmlEvent)
      → read_events false (closes "url" ∷ rest) (
          in_entry t spelled
            (located o parsed)
            (locs_of o)
            (map video_fields u.videos)
            (map news_item_fields u.news))
        ≡ read_events false rest (in_urlset (joined parsed (url_content o u)))
  unfolding read_events
  url_closed u none parsed rest = simp (
    List.append-nil parsed.urls,
    List.append-nil parsed.sitemaps,
    List.append-nil parsed.videos,
    List.append-nil parsed.news,
  )
  url_closed u (some loc) parsed rest =
      simp (map-video_of loc u.videos, map-news_of loc u.news, List.append-nil parsed.sitemaps)

  url_read :
      (u : WrittenUrl) (parsed : ParsedSitemap) (rest : List XmlEvent)
      → read_events false (url_events t u ++ rest) (in_urlset parsed)
        ≡ read_events false rest (in_urlset (joined parsed (url_content (content u.loc) u)))
  url_read u parsed rest =
      let o = content u.loc in
      let vs = flat_map (video_events t) u.videos in
      let ns = flat_map (news_events t) u.news in
      let after = located o parsed in
      ap (λ l. read_events false (opens "url" ∷ l) (in_urlset parsed))
        (List.append_assoc (element "loc" u.loc) (vs ++ (ns ++ closes "url" ∷ [])) rest
          ∙ ap (λ l. element "loc" u.loc ++ l)
              (List.append_assoc vs (ns ++ closes "url" ∷ []) rest
                ∙ ap (λ l. vs ++ l) (List.append_assoc ns (closes "url" ∷ []) rest)))
      ∙ (loc_read u.loc parsed (vs ++ (ns ++ closes "url" ∷ rest))
          ∙ (videos_read t spelled after (locs_of o) u.videos [] [] (ns ++ closes "url" ∷ rest)
              ∙ (all_news_read t spelled after (locs_of o) u.news (map video_fields u.videos) []
                    (closes "url" ∷ rest)
                  ∙ url_closed u o parsed rest)))

  urls_read :
      (us : List WrittenUrl) (parsed : ParsedSitemap) (rest : List XmlEvent)
      → read_events false (flat_map (url_events t) us ++ rest) (in_urlset parsed)
        ≡ read_events false rest (in_urlset (joined parsed (urlset_content us)))
  urls_read [] parsed rest = simp (
    List.append-nil parsed.urls,
    List.append-nil parsed.sitemaps,
    List.append-nil parsed.videos,
    List.append-nil parsed.news,
  )
  urls_read (u ∷ us) parsed rest =
      ap (λ l. read_events false l (in_urlset parsed))
        (List.append_assoc (url_events t u) (flat_map (url_events t) us) rest)
      ∙ (url_read u parsed (flat_map (url_events t) us ++ rest)
          ∙ (urls_read us (joined parsed (url_content (content u.loc) u)) rest
              ∙ simp List.append_assoc))

-- Reading the events of a written urlset, whichever prefix its extensions' tags have and in whatever pieces
-- its texts come, gives back what was written: of each entry whose location is not blank the location, its
-- videos and its news items, in order, with every text cleaned and null for each field that is left out or
-- blank. An entry with a blank location gives nothing.
pub read_sitemap-urlset_events :
    (t : Tags) (spelled : IsSpelled t) (us : List WrittenUrl)
    → read_sitemap true (urlset_events t us) [] ≡ urlset_content us
unfolding read_sitemap
read_sitemap-urlset_events t spelled us =
    ap (λ p. p.parsed) (urls_read t spelled us fresh_parser.parsed (closes "urlset" ∷ []))
