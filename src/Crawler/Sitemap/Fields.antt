-- ===== src/Crawler/Sitemap/Fields.antt =====
-- Reading one field of an entry of a sitemap.
use text.Mathlib.TextLemmas.{append_assoc, append-nil, nil-append}
use mathlib.Core.List
use Prim.Native.String.{◌++◌ as ◌<>◌}
use seo_optimizer.Prelude.{
  ℕ, has, ◌≡◌, refl, ap, ◌∙◌, inl, inr, String, true, false, Option, none, some, List, [], ◌∷◌,
  ◌++◌, map, concat, str_eq, if◌then◌else◌, clean, lookup, insert, lookup-insert, Bool-cases, arith,
}
use seo_optimizer.Crawler.Sitemap.{
  XmlEvent, opens, texts, closes, ParsedSitemap, OpenText, SitemapParser, read_events, on_event,
  set_last, snoc, local_name, Fields, news_fields,
}
use seo_optimizer.Crawler.Sitemap.Printing.{Text, field, field_content, nonblank}

pub texts_read :
    (pieces : Text) (rest : List XmlEvent) (p : SitemapParser) (t : OpenText)
    → read_events false (map texts pieces ++ rest) (record p { text = some t })
      ≡ read_events false rest
          (record p { text = some (record t { value = t.value <> concat pieces }) })
unfolding read_events on_event concat
texts_read [] rest p t = rw (append-nil t.value)
texts_read (s ∷ pieces) rest p t =
    texts_read pieces rest p (record t { value = t.value <> s })
    ∙ rw (append_assoc t.value s (concat pieces))

abbrev pub or_else : Option String → Option String → Option String
or_else none o = o
or_else (some s) o = some s

-- A field that is left out or blank writes nothing.
abbrev pub put : String → Option String → Fields → Fields
put key none f = f
put key (some value) f = insert key value f

pub lookup-put :
    (key other : String) (o : Option String) (f : Fields)
    → lookup other (put key o f)
      ≡ (if str_eq key other then or_else o (lookup other f) else lookup other f)
lookup-put key other none f = ground arith
lookup-put key other (some value) f = lookup-insert key other value f

set_last-snoc :
    (key value : String) (fs : List Fields) (f : Fields)
    → set_last key value (snoc fs f) ≡ snoc fs (insert key value f)
set_last-snoc key value [] f = refl
set_last-snoc key value (g ∷ []) f = refl
set_last-snoc key value (g ∷ h ∷ fs) f = ap (λ l. g ∷ l) (set_last-snoc key value (h ∷ fs) f)

-- Inside a video of an entry, or inside a news item, of which `f` was read so far.
module _ (parsed : ParsedSitemap) (tag : String) (locs : List String)
    (others fs : List Fields) where
  abbrev pub in_video_at : Fields → SitemapParser
  in_video_at f = record {
    parsed = parsed;
    path = "urlset" ∷ "url" ∷ tag ∷ [];
    entry = some (record { locs = locs; videos = snoc fs f; news = others });
    in_video = true;
    in_news = false;
    text = none;
  }

  abbrev video_text_at : String → String → Fields → SitemapParser
  video_text_at name value f = record (in_video_at f) {
    path = "urlset" ∷ "url" ∷ tag ∷ name ∷ [];
    text = some (record { depth = 4; value = value });
  }

  video_text_read :
      (name value : String) (f : Fields) (rest : List XmlEvent)
      → read_events false (closes name ∷ rest) (video_text_at name value f)
        ≡ read_events false rest (in_video_at (put (local_name name) (nonblank (clean value)) f))
  unfolding read_events
  video_text_read name value f rest = elim (Bool-cases (str_eq (clean value) "")) [
    | inl e ↦ rw e refl
    | inr e ↦ rw e (rw (set_last-snoc (local_name name) (clean value) fs f) refl)
  ]

  pub video_field_read :
      (name : String) (o : Option Text) (f : Fields) (rest : List XmlEvent)
      → read_events false (field name o ++ rest) (in_video_at f)
        ≡ read_events false rest (in_video_at (put (local_name name) (field_content o) f))
  unfolding read_events
  video_field_read name none f rest = refl
  video_field_read name (some pieces) f rest =
      ap (λ l. read_events false l (in_video_at f))
        (List.append_assoc (opens name ∷ map texts pieces) (closes name ∷ []) rest)
      ∙ (texts_read pieces (closes name ∷ rest) (video_text_at name "" f)
            (record { depth = 4; value = "" })
          ∙ rw (nil-append (concat pieces)) (video_text_read name (concat pieces) f rest))

  -- The path inside a news item, and inside an element of it.
  abbrev pub news_path : Option String → List String → List String
  news_path none names = "urlset" ∷ "url" ∷ tag ∷ names
  news_path (some inner) names = "urlset" ∷ "url" ∷ tag ∷ inner ∷ names

  abbrev pub in_news_at : Option String → Fields → SitemapParser
  in_news_at inner f = record {
    parsed = parsed;
    path = news_path inner [];
    entry = some (record { locs = locs; videos = others; news = snoc fs f });
    in_video = false;
    in_news = true;
    text = none;
  }

  abbrev text_depth : Option String → ℕ
  text_depth none = 4
  text_depth (some inner) = 5

  abbrev news_text_at : Option String → String → String → Fields → SitemapParser
  news_text_at inner name value f = record (in_news_at inner f) {
    path = news_path inner (name ∷ []);
    text = some (record { depth = text_depth inner; value = value });
  }

  news_text_read :
      (inner : Option String) (name value : String) (f : Fields) (rest : List XmlEvent)
      → read_events false (closes name ∷ rest) (news_text_at inner name value f)
        ≡ read_events false rest
            (in_news_at inner (put (local_name name) (nonblank (clean value)) f))
  unfolding read_events
  news_text_read none name value f rest = elim (Bool-cases (str_eq (clean value) "")) [
    | inl e ↦ rw e refl
    | inr e ↦ rw e (rw (set_last-snoc (local_name name) (clean value) fs f) refl)
  ]
  news_text_read (some inner) name value f rest = elim (Bool-cases (str_eq (clean value) "")) [
    | inl e ↦ rw e refl
    | inr e ↦ rw e (rw (set_last-snoc (local_name name) (clean value) fs f) refl)
  ]

  news_tag_read :
      (inner : Option String) (name : String) (f : Fields) (rest : List XmlEvent)
      → has news_fields (local_name name) ≡ true
      → read_events false (opens name ∷ rest) (in_news_at inner f)
        ≡ read_events false rest (news_text_at inner name "" f)
  unfolding read_events
  news_tag_read none name f rest h = rw h refl
  news_tag_read (some inner) name f rest h = rw h refl

  pub news_field_read :
      (inner : Option String) (name : String) (o : Option Text) (f : Fields) (rest : List XmlEvent)
      → has news_fields (local_name name) ≡ true
      → read_events false (field name o ++ rest) (in_news_at inner f)
        ≡ read_events false rest (in_news_at inner (put (local_name name) (field_content o) f))
  news_field_read inner name none f rest h = refl
  news_field_read inner name (some pieces) f rest h =
      ap (λ l. read_events false l (in_news_at inner f))
        (List.append_assoc (opens name ∷ map texts pieces) (closes name ∷ []) rest)
      ∙ (news_tag_read inner name f (map texts pieces ++ closes name ∷ rest) h
          ∙ (texts_read pieces (closes name ∷ rest) (news_text_at inner name "" f)
                (record { depth = text_depth inner; value = "" })
              ∙ rw (nil-append (concat pieces)) (news_text_read inner name (concat pieces) f rest)))
