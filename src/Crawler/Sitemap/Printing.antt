-- ===== src/Crawler/Sitemap/Printing.antt =====
-- A sitemap as its author writes it, and the events it makes. A text may come in any pieces, and a field may
-- be left out; the extensions' tags may be spelled with any prefix.
use seo_optimizer.Prelude.{
  ◌≡◌, String, Option, none, some, List, [], ◌∷◌, ◌++◌, map, concat, str_eq, if◌then◌else◌, clean,
  flat_map,
}
use seo_optimizer.Crawler.Sitemap.{
  XmlEvent, opens, texts, closes, SitemapVideo, SitemapNews, ParsedSitemap, local_name,
}

abbrev pub Text : Type 0
Text = List String

pub record WrittenVideo : Type 0 where
  pub title : Option Text
  pub description : Option Text
  pub thumbnail_loc : Option Text
  pub content_loc : Option Text
  pub player_loc : Option Text

pub record WrittenNews : Type 0 where
  pub name : Option Text
  pub language : Option Text
  pub publication_date : Option Text
  pub title : Option Text

pub record WrittenUrl : Type 0 where
  pub loc : Text
  pub videos : List WrittenVideo
  pub news : List WrittenNews

pub record Tags : Type 0 where
  pub video : String
  pub title : String
  pub description : String
  pub thumbnail_loc : String
  pub content_loc : String
  pub player_loc : String
  pub news : String
  pub publication : String
  pub name : String
  pub language : String
  pub publication_date : String

pub record IsSpelled (t : Tags) : Type 0 where
  pub video : local_name t.video ≡ "video"
  pub title : local_name t.title ≡ "title"
  pub description : local_name t.description ≡ "description"
  pub thumbnail_loc : local_name t.thumbnail_loc ≡ "thumbnail_loc"
  pub content_loc : local_name t.content_loc ≡ "content_loc"
  pub player_loc : local_name t.player_loc ≡ "player_loc"
  pub news : local_name t.news ≡ "news"
  pub publication : local_name t.publication ≡ "publication"
  pub name : local_name t.name ≡ "name"
  pub language : local_name t.language ≡ "language"
  pub publication_date : local_name t.publication_date ≡ "publication_date"

-- An element that holds a text only.
abbrev pub element : String → Text → List XmlEvent
element tag pieces = opens tag ∷ map texts pieces ++ closes tag ∷ []

abbrev pub field : String → Option Text → List XmlEvent
field tag none = []
field tag (some pieces) = element tag pieces

abbrev pub video_events : Tags → WrittenVideo → List XmlEvent
video_events t v =
    opens t.video
    ∷ (field t.title v.title
        ++ (field t.description v.description
            ++ (field t.thumbnail_loc v.thumbnail_loc
                ++ (field t.content_loc v.content_loc
                    ++ (field t.player_loc v.player_loc ++ closes t.video ∷ [])))))

abbrev pub news_events : Tags → WrittenNews → List XmlEvent
news_events t n =
    opens t.news
    ∷ opens t.publication
    ∷ (field t.name n.name
        ++ (field t.language n.language
            ++ (closes t.publication
                ∷ (field t.publication_date n.publication_date
                    ++ (field t.title n.title ++ closes t.news ∷ [])))))

abbrev pub url_events : Tags → WrittenUrl → List XmlEvent
url_events t u =
    opens "url"
    ∷ (element "loc" u.loc
        ++ (flat_map (video_events t) u.videos
            ++ (flat_map (news_events t) u.news ++ closes "url" ∷ [])))

abbrev pub urlset_events : Tags → List WrittenUrl → List XmlEvent
urlset_events t us = opens "urlset" ∷ (flat_map (url_events t) us ++ closes "urlset" ∷ [])

-- What stands in a text: cleaned, and nothing where that is empty.
abbrev pub nonblank : String → Option String
nonblank s = if str_eq s "" then none else some s

abbrev pub content : Text → Option String
content pieces = nonblank (clean (concat pieces))

abbrev pub field_content : Option Text → Option String
field_content none = none
field_content (some pieces) = content pieces

abbrev pub video_content : String → WrittenVideo → SitemapVideo
video_content loc v = record {
  loc = loc;
  title = field_content v.title;
  description = field_content v.description;
  thumbnail_url = field_content v.thumbnail_loc;
  content_url = field_content v.content_loc;
  player_url = field_content v.player_loc;
}

abbrev pub news_content : String → WrittenNews → SitemapNews
news_content loc n = record {
  loc = loc;
  publication_name = field_content n.name;
  language = field_content n.language;
  publication_date = field_content n.publication_date;
  title = field_content n.title;
}

-- An entry whose location is blank has no page to be about.
abbrev pub url_content : Option String → WrittenUrl → ParsedSitemap
url_content none u = record { urls = []; sitemaps = []; videos = []; news = [] }
url_content (some loc) u = record {
  urls = loc ∷ [];
  sitemaps = [];
  videos = map (video_content loc) u.videos;
  news = map (news_content loc) u.news;
}

abbrev pub joined : ParsedSitemap → ParsedSitemap → ParsedSitemap
joined a b = record {
  urls = a.urls ++ b.urls;
  sitemaps = a.sitemaps ++ b.sitemaps;
  videos = a.videos ++ b.videos;
  news = a.news ++ b.news;
}

abbrev pub urlset_content : List WrittenUrl → ParsedSitemap
urlset_content [] = record { urls = []; sitemaps = []; videos = []; news = [] }
urlset_content (u ∷ us) = joined (url_content (content u.loc) u) (urlset_content us)
