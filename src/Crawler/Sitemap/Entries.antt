-- ===== src/Crawler/Sitemap/Entries.antt =====
-- Reading the videos and the news items of an entry.
use mathlib.Core.List
use seo_optimizer.Prelude.{
  ◌≡◌, refl, sym, ap, subst, ◌∙◌, inl, inr, String, false, Option, none, some, List, [], ◌∷◌, ◌++◌,
  map, flat_map, str_eq, Bool-cases, eq_iff,
}
use seo_optimizer.Crawler.Sitemap.{
  XmlEvent, opens, closes, ParsedSitemap, SitemapParser, read_events, on_event, snoc, local_name,
  Fields, video_of, news_of,
}
use seo_optimizer.Crawler.Sitemap.Printing.{
  Tags, IsSpelled, WrittenVideo, WrittenNews, field, field_content, video_events, news_events,
  video_content, news_content,
}
use seo_optimizer.Crawler.Sitemap.Fields.{
  put, lookup-put, or_else, in_video_at, video_field_read, in_news_at, news_field_read,
}

-- A tag whose local name is not `loc` is not `loc`.
not_loc :
    (tag name : String)
    → local_name tag ≡ name
    → str_eq name "loc" ≡ false
    → str_eq tag "loc" ≡ false
unfolding local_name
not_loc tag name h n = elim (Bool-cases (str_eq tag "loc")) [
  | inl e ↦
      let same : "loc" ≡ name = subst (λ x. local_name x ≡ name) ((eq_iff tag "loc").0 e) h in
      let other : str_eq "loc" "loc" ≡ false = subst (λ x. str_eq x "loc" ≡ false) (sym same) n in
      cc
  | inr e ↦ e
]

abbrev pub video_fields : WrittenVideo → Fields
video_fields v = put "player_loc" (field_content v.player_loc) (
    put "content_loc" (field_content v.content_loc) (
      put "thumbnail_loc" (field_content v.thumbnail_loc)
        (put "description" (field_content v.description) (put "title" (field_content v.title) []))))

or_else-none : (o : Option String) → or_else o none ≡ o
or_else-none none = refl
or_else-none (some s) = refl

pub video_of-fields :
    (loc : String) (v : WrittenVideo) → video_of loc (video_fields v) ≡ video_content loc v
video_of-fields loc v = simp (lookup-put, or_else-none)

abbrev pub news_item_fields : WrittenNews → Fields
news_item_fields n = put "title" (field_content n.title) (
    put "publication_date" (field_content n.publication_date)
      (put "language" (field_content n.language) (put "name" (field_content n.name) [])))

pub news_of-fields :
    (loc : String) (n : WrittenNews) → news_of loc (news_item_fields n) ≡ news_content loc n
news_of-fields loc n = simp (lookup-put, or_else-none)

module _ (t : Tags) (spelled : IsSpelled t) (parsed : ParsedSitemap) (locs : List String) where
  -- An entry between its elements.
  abbrev pub in_entry : List Fields → List Fields → SitemapParser
  in_entry videos news = record {
    parsed = parsed;
    path = "urlset" ∷ "url" ∷ [];
    entry = some (record { locs = locs; videos = videos; news = news });
    in_video = false;
    in_news = false;
    text = none;
  }

  video_closed :
      (tag : String) (videos news : List Fields) (f : Fields) (rest : List XmlEvent)
      → read_events false (closes tag ∷ rest) (in_video_at parsed tag locs news videos f)
        ≡ read_events false rest (in_entry (snoc videos f) news)
  unfolding read_events
  video_closed tag videos news f rest = refl

  fields_read :
      (v : WrittenVideo) (videos news : List Fields) (rest : List XmlEvent)
      → read_events false
          ((field t.title v.title
              ++ (field t.description v.description
                  ++ (field t.thumbnail_loc v.thumbnail_loc
                      ++ (field t.content_loc v.content_loc
                          ++ (field t.player_loc v.player_loc ++ closes t.video ∷ [])))))
            ++ rest)
          (in_video_at parsed t.video locs news videos [])
        ≡ read_events false rest (in_entry (snoc videos (video_fields v)) news)
  fields_read v videos news rest =
      simp
        (
          List.append_assoc, video_field_read, spelled.title, spelled.description,
          spelled.thumbnail_loc, spelled.content_loc, spelled.player_loc,
        )
        (video_closed t.video videos news (video_fields v) rest)

  video_opened :
      (videos news : List Fields)
      → on_event false (opens t.video) (in_entry videos news)
        ≡ in_video_at parsed t.video locs news videos []
  unfolding on_event
  video_opened videos news = rw (not_loc t.video "video" spelled.video refl, spelled.video) refl

  video_read :
      (v : WrittenVideo) (videos news : List Fields) (rest : List XmlEvent)
      → read_events false (video_events t v ++ rest) (in_entry videos news)
        ≡ read_events false rest (in_entry (snoc videos (video_fields v)) news)
  unfolding read_events
  video_read v videos news rest =
      ap (read_events false (List.tail (video_events t v ++ rest))) (video_opened videos news)
      ∙ fields_read v videos news rest

  pub videos_read :
      (vs : List WrittenVideo) (videos news : List Fields) (rest : List XmlEvent)
      → read_events false (flat_map (video_events t) vs ++ rest) (in_entry videos news)
        ≡ read_events false rest (in_entry (videos ++ map video_fields vs) news)
  videos_read [] videos news rest = rw (List.append-nil videos) refl
  videos_read (v ∷ vs) videos news rest =
      ap (λ l. read_events false l (in_entry videos news))
        (List.append_assoc (video_events t v) (flat_map (video_events t) vs) rest)
      ∙ (video_read v videos news (flat_map (video_events t) vs ++ rest)
          ∙ (videos_read vs (snoc videos (video_fields v)) news rest
              ∙ ap (λ l. read_events false rest (in_entry l news))
                  (List.append_assoc videos (video_fields v ∷ []) (map video_fields vs))))

  news_closed :
      (tag : String) (videos news : List Fields) (f : Fields) (rest : List XmlEvent)
      → read_events false (closes tag ∷ rest) (in_news_at parsed tag locs videos news none f)
        ≡ read_events false rest (in_entry videos (snoc news f))
  unfolding read_events
  news_closed tag videos news f rest = refl

  news_opened :
      (videos news : List Fields)
      → on_event false (opens t.news) (in_entry videos news)
        ≡ in_news_at parsed t.news locs videos news none []
  unfolding on_event
  news_opened videos news = rw (not_loc t.news "news" spelled.news refl, spelled.news) refl

  publication_opened :
      (videos news : List Fields) (f : Fields)
      → on_event false (opens t.publication) (in_news_at parsed t.news locs videos news none f)
        ≡ in_news_at parsed t.news locs videos news (some t.publication) f
  unfolding on_event
  publication_opened videos news f = rw spelled.publication refl

  publication_closed :
      (videos news : List Fields) (f : Fields) (rest : List XmlEvent)
      → read_events false
          (closes t.publication ∷ rest)
          (in_news_at parsed t.news locs videos news (some t.publication) f)
        ≡ read_events false rest (in_news_at parsed t.news locs videos news none f)
  unfolding read_events
  publication_closed videos news f rest = refl

  news_parts_read :
      (n : WrittenNews) (videos news : List Fields) (rest : List XmlEvent)
      → read_events false
          ((field t.name n.name
              ++ (field t.language n.language
                  ++ (closes t.publication
                      ∷ (field t.publication_date n.publication_date
                          ++ (field t.title n.title ++ closes t.news ∷ [])))))
            ++ rest)
          (in_news_at parsed t.news locs videos news (some t.publication) [])
        ≡ read_events false rest (in_entry videos (snoc news (news_item_fields n)))
  news_parts_read n videos news rest =
      simp
        (
          List.append_assoc, news_field_read, publication_closed, spelled.name, spelled.language,
          spelled.publication_date, spelled.title,
        )
        (news_closed t.news videos news (news_item_fields n) rest)

  news_read :
      (n : WrittenNews) (videos news : List Fields) (rest : List XmlEvent)
      → read_events false (news_events t n ++ rest) (in_entry videos news)
        ≡ read_events false rest (in_entry videos (snoc news (news_item_fields n)))
  unfolding read_events
  news_read n videos news rest =
      ap (read_events false (List.tail (news_events t n ++ rest))) (news_opened videos news)
      ∙ (ap (read_events false (List.tail (List.tail (news_events t n ++ rest))))
            (publication_opened videos news [])
          ∙ news_parts_read n videos news rest)

  pub all_news_read :
      (ns : List WrittenNews) (videos news : List Fields) (rest : List XmlEvent)
      → read_events false (flat_map (news_events t) ns ++ rest) (in_entry videos news)
        ≡ read_events false rest (in_entry videos (news ++ map news_item_fields ns))
  all_news_read [] videos news rest = rw (List.append-nil news) refl
  all_news_read (n ∷ ns) videos news rest =
      ap (λ l. read_events false l (in_entry videos news))
        (List.append_assoc (news_events t n) (flat_map (news_events t) ns) rest)
      ∙ (news_read n videos news (flat_map (news_events t) ns ++ rest)
          ∙ (all_news_read ns videos (snoc news (news_item_fields n)) rest
              ∙ ap (λ l. read_events false rest (in_entry videos l))
                  (List.append_assoc news (news_item_fields n ∷ []) (map news_item_fields ns))))
