-- ===== src/Crawler/Hosts.antt =====
-- Host names in packages/crawler/src: `hostVariants` of crawl.ts and `registrableDomain` of rdap.ts. `is_ip`
-- stands for `isIP(host) !== 0` of node:net.
use Prim.Native.Char.{Char, code}
use Prim.Native.String.{[], ◌∷◌}
use mathlib.Core.List
use seo_optimizer.Prelude.{
  ℕ, zero, suc, String, Bool, true, false, not, ◌&&◌, ◌||◌, Option, none, some, List, ◌==◌, leb,
  ltb, str_eq, if◌then◌else◌, concat, join, length, filter, all, lower_begins, distinct_from,
  opt_str_eq,
}
use seo_optimizer.Crawler.Url.{Url, UrlStandard, default_port}

abbrev onto_first : Char → List String → List String
onto_first c List.[] = List.[]
onto_first c (List.◌∷◌ part parts) = List.◌∷◌ (c ∷ part) parts

-- `host.split('.')`.
abbrev split_dots : String → List String
split_dots [] = List.◌∷◌ "" List.[]
split_dots (c ∷ s) =
    let rest = split_dots s in if code c == b'.' then List.◌∷◌ "" rest else onto_first c rest

abbrev is_digits : String → Bool
is_digits [] = true
is_digits (c ∷ s) = leb b'0' (code c) && leb (code c) b'9' && is_digits s

abbrev characters : String → ℕ
characters [] = 0
characters (c ∷ s) = suc (characters s)

abbrev is_octet : String → Bool
is_octet s = is_digits s && ltb 0 (characters s) && ltb (characters s) 4

-- `/^\d{1,3}(\.\d{1,3}){3}$/.test(host)`.
abbrev pub is_ipv4 : String → Bool
is_ipv4 host = length (split_dots host) == 4 && all is_octet (split_dots host)

abbrev has_dot : String → Bool
has_dot host = ltb 1 (length (split_dots host))

abbrev begins_bracket : String → Bool
begins_bracket [] = false
begins_bracket (c ∷ s) = code c == b'['

abbrev drop : ℕ → String → String
drop zero s = s
drop (suc n) [] = []
drop (suc n) (c ∷ s) = drop n s

-- `host.replace(/^www\./i, '')`.
abbrev apex_of : String → String
apex_of host = if lower_begins host "www." then drop 4 host else host

-- The setters on a copy of the seed; a port that is the new protocol's own is dropped.
abbrev variant : Url → String → String → Url
variant u host protocol = record u {
  protocol = protocol;
  host_name = host;
  port = if opt_str_eq (some u.port) (default_port protocol) then "" else u.port;
  path_name = "/";
  query = none;
  fragment = none;
}

module _ (standard : UrlStandard) where
  abbrev variants_of : Url → String → List String
  variants_of u apex =
      let www = concat (List.◌∷◌ "www." (List.◌∷◌ apex List.[])) in
      distinct_from List.[] (
        List.map standard.print (
          List.◌∷◌ (variant u apex "http:") (
            List.◌∷◌ (variant u apex "https:")
              (List.◌∷◌ (variant u www "http:") (List.◌∷◌ (variant u www "https:") List.[])))))

  abbrev variants_for : Option Url → List String
  variants_for none = List.[]
  variants_for (some u) =
      if is_ipv4 u.host_name || begins_bracket u.host_name || not (has_dot u.host_name)
      then List.[]
      else variants_of u (apex_of u.host_name)

  unfoldable pub host_variants : String → List String
  host_variants seed = variants_for (standard.parse seed)

abbrev last_two : List String → List String
last_two List.[] = List.[]
last_two (List.◌∷◌ a List.[]) = List.◌∷◌ a List.[]
last_two (List.◌∷◌ a (List.◌∷◌ b List.[])) = List.◌∷◌ a (List.◌∷◌ b List.[])
last_two (List.◌∷◌ a (List.◌∷◌ b (List.◌∷◌ c rest))) = last_two (List.◌∷◌ b (List.◌∷◌ c rest))

unfoldable pub registrable_domain : (is_ip : String → Bool) → String → Option String
registrable_domain is_ip host =
    let labels = filter (λ label. not (str_eq label "")) (split_dots host) in
    if is_ip host
    then none
    else if ltb (length labels) 2
    then none
    else some (join "." (last_two labels))

-- `host.replace(/:\d+$/, '')`.
abbrev pub strip_port : String → String
strip_port [] = []
strip_port (c ∷ s) =
    let rest = c ∷ strip_port s in
    if code c == b':' && ltb 0 (characters s) && is_digits s then [] else rest
