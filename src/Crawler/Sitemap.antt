-- ===== src/Crawler/Sitemap.antt =====
-- packages/crawler/src/sitemap.ts: reading a sitemap from the events of an XML parser, which htmlparser2 makes
-- of the text. The source's `video` and `news` are the last elements of the open entry's lists, which is
-- where they are written here.
pub mod Printing
pub mod Entries
pub mod RoundTrip
pub mod Fields
use Prim.Native.Char.{code}
use Prim.Native.String.{[], ◌∷◌, ◌++◌ as ◌<>◌}
use mathlib.Core.List
use mathlib.Core.List.{◌++◌}
use seo_optimizer.Prelude.{
  ℕ, String, Bool, true, false, not, ◌&&◌, ◌||◌, Option, none, some, List, ◌==◌, str_eq, has,
  is_some, if◌then◌else◌, length, lookup, insert, to_lower_case, clean,
}

pub data XmlEvent : Type 0 where
  opens texts closes : String → XmlEvent

pub record SitemapVideo : Type 0 where
  pub loc : String
  pub title : Option String
  pub description : Option String
  pub thumbnail_url : Option String
  pub content_url : Option String
  pub player_url : Option String

pub record SitemapNews : Type 0 where
  pub loc : String
  pub publication_name : Option String
  pub language : Option String
  pub publication_date : Option String
  pub title : Option String

pub record ParsedSitemap : Type 0 where
  pub urls : List String
  pub sitemaps : List String
  pub videos : List SitemapVideo
  pub news : List SitemapNews

abbrev pub Fields : Type 0
Fields = List (String × String)

pub record OpenEntry : Type 0 where
  pub locs : List String
  pub videos : List Fields
  pub news : List Fields

-- The text of the field being read, and the depth it closes at.
pub record OpenText : Type 0 where
  pub depth : ℕ
  pub value : String

-- The variables of `createSitemapParser`.
pub record SitemapParser : Type 0 where
  pub parsed : ParsedSitemap
  pub path : List String
  pub entry : Option OpenEntry
  pub in_video : Bool
  pub in_news : Bool
  pub text : Option OpenText

-- `split(':').pop()`: what follows the last colon.
abbrev after_colon : String → String → String
after_colon last [] = last
after_colon last (c ∷ s) = after_colon (if code c == b':' then s else last) s

unfoldable pub local_name : String → String
local_name name = let lower = to_lower_case name in after_colon lower lower

abbrev pub news_fields : List String
news_fields =
    List.◌∷◌ "name" (List.◌∷◌ "language" (List.◌∷◌ "publication_date" (List.◌∷◌ "title" List.[])))

abbrev pub first_of : List String → Option String
first_of List.[] = none
first_of (List.◌∷◌ s ss) = some s

abbrev second_of : List String → Option String
second_of List.[] = none
second_of (List.◌∷◌ s ss) = first_of ss

abbrev pub is_text : Option String → String → Bool
is_text none t = false
is_text (some s) t = str_eq s t

abbrev pub snoc {ℓ} : {A : Type ℓ} → List A → A → List A
snoc xs x = xs ++ List.◌∷◌ x List.[]

abbrev begin_text : ℕ → SitemapParser → SitemapParser
begin_text depth p = record p { text = some (record { depth = depth; value = "" }) }

abbrev add_video : OpenEntry → OpenEntry
add_video e = record e { videos = snoc e.videos List.[] }

abbrev add_news : OpenEntry → OpenEntry
add_news e = record e { news = snoc e.news List.[] }

abbrev map_entry : (OpenEntry → OpenEntry) → Option OpenEntry → Option OpenEntry
map_entry f none = none
map_entry f (some e) = some (f e)

-- `onopentag`, at the depth of the tag that opens.
abbrev opened : Option OpenEntry → String → ℕ → SitemapParser → SitemapParser
opened entry name depth p =
    if is_text (first_of p.path) "urlset" && depth == 2 && str_eq name "url"
    then record p { entry = some (record { locs = List.[]; videos = List.[]; news = List.[] }) }
    else if is_some entry && depth == 3 && str_eq name "loc"
    then begin_text depth p
    else if is_some entry && depth == 3 && str_eq (local_name name) "video"
    then record p { in_video = true; entry = map_entry add_video entry }
    else if is_some entry && depth == 3 && str_eq (local_name name) "news"
    then record p { in_news = true; entry = map_entry add_news entry }
    else if p.in_video && depth == 4
    then begin_text depth p
    else if p.in_news && (depth == 4 || depth == 5) && has news_fields (local_name name)
    then begin_text depth p
    else if is_text (first_of p.path) "sitemapindex"
        && is_text (second_of p.path) "sitemap"
        && depth == 3
        && str_eq name "loc"
    then begin_text depth p
    else p

unfoldable pub on_open_tag : String → SitemapParser → SitemapParser
on_open_tag name p =
    let q = record p { path = snoc p.path name } in opened q.entry name (length q.path) q

abbrev longer_text : String → Option OpenText → Option OpenText
longer_text added none = none
longer_text added (some t) = some (record t { value = t.value <> added })

abbrev pub on_text : String → SitemapParser → SitemapParser
on_text added p = record p { text = longer_text added p.text }

-- `path.pop()`.
abbrev pub pop {ℓ} : {A : Type ℓ} → List A → List A
pop List.[] = List.[]
pop (List.◌∷◌ x List.[]) = List.[]
pop (List.◌∷◌ x (List.◌∷◌ y xs)) = List.◌∷◌ x (pop (List.◌∷◌ y xs))

abbrev pub set_last : String → String → List Fields → List Fields
set_last key value List.[] = List.[]
set_last key value (List.◌∷◌ f List.[]) = List.◌∷◌ (insert key value f) List.[]
set_last key value (List.◌∷◌ f (List.◌∷◌ g fs)) = List.◌∷◌ f (set_last key value (List.◌∷◌ g fs))

abbrev add_loc : String → OpenEntry → OpenEntry
add_loc value e = record e { locs = snoc e.locs value }

abbrev pub set_video : String → String → OpenEntry → OpenEntry
set_video key value e = record e { videos = set_last key value e.videos }

abbrev pub set_news : String → String → OpenEntry → OpenEntry
set_news key value e = record e { news = set_last key value e.news }

abbrev add_url : String → ParsedSitemap → ParsedSitemap
add_url value r = record r { urls = snoc r.urls value }

abbrev add_sitemap : String → ParsedSitemap → ParsedSitemap
add_sitemap value r = record r { sitemaps = snoc r.sitemaps value }

-- A field's text is complete.
unfoldable pub store_text : String → ℕ → String → SitemapParser → SitemapParser
store_text name depth value p =
    if str_eq value ""
    then p
    else if is_text (first_of p.path) "sitemapindex"
    then record p { parsed = add_sitemap value p.parsed }
    else if is_some p.entry && depth == 3
    then record p { entry = map_entry (add_loc value) p.entry; parsed = add_url value p.parsed }
    else if p.in_video
    then record p { entry = map_entry (set_video (local_name name) value) p.entry }
    else if p.in_news
    then record p { entry = map_entry (set_news (local_name name) value) p.entry }
    else p

abbrev pub video_of : String → Fields → SitemapVideo
video_of loc f = record {
  loc = loc;
  title = lookup "title" f;
  description = lookup "description" f;
  thumbnail_url = lookup "thumbnail_loc" f;
  content_url = lookup "content_loc" f;
  player_url = lookup "player_loc" f;
}

abbrev pub news_of : String → Fields → SitemapNews
news_of loc f = record {
  loc = loc;
  publication_name = lookup "name" f;
  language = lookup "language" f;
  publication_date = lookup "publication_date" f;
  title = lookup "title" f;
}

abbrev add_entry : OpenEntry → Option String → ParsedSitemap → ParsedSitemap
add_entry e none r = r
add_entry e (some loc) r = record r {
  videos = r.videos ++ List.map (video_of loc) e.videos;
  news = r.news ++ List.map (news_of loc) e.news;
}

-- An entry closes: its first location names the page of its videos and news.
abbrev finish_entry : OpenEntry → SitemapParser → SitemapParser
finish_entry e p = record p { entry = none; parsed = add_entry e (first_of e.locs) p.parsed }

abbrev close_entry : Option OpenEntry → SitemapParser → SitemapParser
close_entry none p = p
close_entry (some e) p = finish_entry e p

-- `onclosetag` behind the text that may close with it.
unfoldable pub close_element : ℕ → SitemapParser → SitemapParser
close_element depth p =
    if p.in_video && depth == 3
    then record p { in_video = false }
    else if p.in_news && depth == 3
    then record p { in_news = false }
    else if depth == 2
    then close_entry p.entry p
    else p

abbrev close_text : String → ℕ → Option OpenText → SitemapParser → SitemapParser
close_text name depth none p = close_element depth p
close_text name depth (some t) p =
    if depth == t.depth
    then store_text name depth (clean t.value) (record p { text = none })
    else close_element depth p

-- `onclosetag`; where the document was cut, what `end` closes is dropped.
unfoldable pub on_close_tag : (ending : Bool) → String → SitemapParser → SitemapParser
unfolding store_text close_element
on_close_tag ending name p =
    let q = record p { path = pop p.path } in
    if ending then q else close_text name (length p.path) p.text q

unfoldable pub on_event : (ending : Bool) → XmlEvent → SitemapParser → SitemapParser
unfolding on_open_tag on_close_tag
on_event ending (opens name) p = on_open_tag name p
on_event ending (texts added) p = on_text added p
on_event ending (closes name) p = on_close_tag ending name p

unfoldable pub read_events : (ending : Bool) → List XmlEvent → SitemapParser → SitemapParser
unfolding on_event
read_events ending List.[] p = p
read_events ending (List.◌∷◌ event events) p = read_events ending events (on_event ending event p)

abbrev pub fresh_parser : SitemapParser
fresh_parser = record {
  parsed = record { urls = List.[]; sitemaps = List.[]; videos = List.[]; news = List.[] };
  path = List.[];
  entry = none;
  in_video = false;
  in_news = false;
  text = none;
}

-- `createSitemapParser`, `write` and `end(complete)`: the events of the text, and those that ending the
-- parser makes.
unfoldable pub read_sitemap : (complete : Bool) → (written ending : List XmlEvent) → ParsedSitemap
unfolding read_events
read_sitemap complete written ending =
    (read_events (not complete) ending (read_events false written fresh_parser)).parsed
