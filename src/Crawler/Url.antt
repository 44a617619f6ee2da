-- ===== src/Crawler/Url.antt =====
-- packages/crawler/src/url.ts: when two URLs are one page. `UrlStandard` stands for the platform's `URL`
-- and `URLSearchParams`; a `Url` has the components of the URL standard, of which an absent query or
-- fragment is `none`.
pub mod Identity
use seo_optimizer.Prelude.{
  String, Bool, true, false, not, ◌&&◌, ◌||◌, Option, none, some, List, [], ◌∷◌, str_eq, any,
  concat, if◌then◌else◌, opt_str_eq, lower_is, lower_begins,
}

pub record Url : Type 0 where
  pub protocol : String
  pub credentials : String
  pub host_name : String
  pub port : String
  pub path_name : String
  pub query : Option String
  pub fragment : Option String

-- `new URL(input)`, `none` where it throws; `toString`; the keys of `searchParams`, in order; and the
-- query after `searchParams.delete(key)`.
pub record UrlStandard : Type 0 where
  pub parse : String → Option Url
  pub print : Url → String
  pub keys : Option String → List String
  pub without : String → Option String → Option String

abbrev tracking_params : List String
tracking_params =
    "utm_source" ∷ "utm_medium" ∷ "utm_campaign" ∷ "utm_term" ∷ "utm_content" ∷ "utm_id" ∷ "gclid"
    ∷ "gbraid" ∷ "wbraid" ∷ "dclid" ∷ "fbclid" ∷ "msclkid" ∷ "ttclid" ∷ "mc_cid" ∷ "mc_eid"
    ∷ "igshid" ∷ "ref_src" ∷ []

-- `TRACKING_PARAMS.has(key.toLowerCase())`.
unfoldable pub is_listed : String → Bool
is_listed key = any (λ param. lower_is key param) tracking_params

unfoldable pub is_tracking_param : String → Bool
unfolding is_listed
is_tracking_param key = is_listed key || lower_begins key "utm_"

abbrev pub default_port : String → Option String
default_port protocol =
    if str_eq protocol "http:"
    then some "80"
    else if str_eq protocol "https:"
    then some "443"
    else none

module _ (standard : UrlStandard) where
  -- The loop over the keys that the query had before it.
  unfoldable pub strip_keys : List String → Option String → Option String
  unfolding is_listed
  strip_keys [] query = query
  strip_keys (key ∷ keys) query =
      strip_keys keys (if is_listed key then standard.without key query else query)

  abbrev pub no_keys : List String → Bool
  no_keys [] = true
  no_keys (key ∷ keys) = false

  unfoldable pub strip_query : Option String → Option String
  unfolding strip_keys
  strip_query query =
      let kept = strip_keys (standard.keys query) query in
      if no_keys (standard.keys kept) then none else kept

  abbrev pub set_identity : Bool → Url → Url
  set_identity strip u = record u {
    fragment = none;
    port = if opt_str_eq (some u.port) (default_port u.protocol) then "" else u.port;
    path_name = if str_eq u.path_name "" then "/" else u.path_name;
    query = if strip then strip_query u.query else u.query;
  }

  abbrev pub identity : Bool → Option Url → Option String
  identity strip none = none
  identity strip (some u) =
      if not (str_eq u.protocol "http:") && not (str_eq u.protocol "https:")
      then none
      else some (standard.print (set_identity strip u))

  unfoldable pub normalize_url : Bool → String → Option String
  unfolding strip_query
  normalize_url strip input = identity strip (standard.parse input)

  -- `url.host`.
  abbrev pub host : Url → String
  host u = if str_eq u.port "" then u.host_name else concat (u.host_name ∷ ":" ∷ u.port ∷ [])

  abbrev same_host : Option Url → Option Url → Bool
  same_host (some a) (some b) = str_eq (host a) (host b)
  same_host (some a) none = false
  same_host none b = false

  unfoldable pub is_same_site : String → String → Bool
  is_same_site url origin = same_host (standard.parse url) (standard.parse origin)
