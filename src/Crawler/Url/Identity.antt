-- ===== src/Crawler/Url/Identity.antt =====
-- Normalizing a URL twice.
use seo_optimizer.Prelude.{
  ◌≡◌, refl, sym, ap, ◌∙◌, inl, inr, String, Bool, true, false, not, ◌&&◌, Option, none, some, List,
  [], ◌∷◌, str_eq, filter, has, arith, Bool-cases, eq_iff, all,
}
use seo_optimizer.Crawler.Url.{
  Url, UrlStandard, normalize_url, is_listed, strip_keys, strip_query, set_identity, identity,
  no_keys,
}

-- What the platform makes by parsing and by the setters that `normalizeUrl` uses.
pub data IsMade (standard : UrlStandard) : Url → Type 0 where
  parsed : (s : String) {u : Url} → standard.parse s ≡ some u → IsMade standard u
  normalized :
      (strip : Bool) {u : Url} → IsMade standard u → IsMade standard (set_identity standard strip u)

-- The URL standard: a printed URL parses to itself; deleting a key leaves the other keys as they are; an
-- absent query has no keys.
pub record IsStandard (standard : UrlStandard) : Type 0 where
  pub parse_print : (u : Url) → IsMade standard u → standard.parse (standard.print u) ≡ some u
  pub keys_without :
      (key : String) (query : Option String)
      → standard.keys (standard.without key query)
        ≡ filter (λ k. not (str_eq k key)) (standard.keys query)
  pub no_query : standard.keys none ≡ []

module _ (standard : UrlStandard) (laws : IsStandard standard) where
  -- Neither listed, or not among these.
  abbrev survives : List String → String → Bool
  survives ks k = not (is_listed k && has ks k)

  drop_one :
      (key : String) (ks names : List String)
      → is_listed key ≡ true
      → filter (survives ks) (filter (λ k. not (str_eq k key)) names)
        ≡ filter (survives (key ∷ ks)) names
  drop_one key ks [] h = refl
  drop_one key ks (n ∷ names) h =
      ground (arith, drop_one key ks names h, eq_iff n key, eq_iff key n)

  keep_one :
      (key : String) (ks names : List String)
      → is_listed key ≡ false
      → filter (survives ks) names ≡ filter (survives (key ∷ ks)) names
  keep_one key ks [] h = refl
  keep_one key ks (n ∷ names) h = ground (arith, keep_one key ks names h, eq_iff key n)

  filter_all : (names : List String) → filter (survives []) names ≡ names
  filter_all [] = refl
  filter_all (n ∷ names) = ground (arith, filter_all names)

  -- What the loop leaves.
  keys-strip_keys :
      (ks : List String) (query : Option String)
      → standard.keys (strip_keys standard ks query) ≡ filter (survives ks) (standard.keys query)
  unfolding strip_keys
  keys-strip_keys [] query = sym (filter_all (standard.keys query))
  keys-strip_keys (key ∷ ks) query = elim (Bool-cases (is_listed key)) [
    | inl e ↦ rw e (
        keys-strip_keys ks (standard.without key query)
        ∙ ap (filter (survives ks)) (laws.keys_without key query)
        ∙ drop_one key ks (standard.keys query) e)
    | inr e ↦ rw e (keys-strip_keys ks query ∙ keep_one key ks (standard.keys query) e)
  ]

  abbrev none_listed : List String → Bool
  none_listed ks = all (λ k. not (is_listed k)) ks

  none_left :
      (ks names : List String)
      → all (has ks) names ≡ true
      → none_listed (filter (survives ks) names) ≡ true
  none_left ks [] h = refl
  none_left ks (n ∷ names) h = ground (arith, none_left ks names)

  has_more :
      (k : String) (ks names : List String)
      → all (has ks) names ≡ true
      → all (has (k ∷ ks)) names ≡ true
  has_more k ks [] h = refl
  has_more k ks (n ∷ names) h = ground (arith, has_more k ks names)

  has_self : (ks : List String) → all (has ks) ks ≡ true
  has_self [] = refl
  has_self (k ∷ ks) = ground (arith, eq_iff k k, has_more k ks ks (has_self ks))

  strip_keys-none_listed :
      (ks : List String) (query : Option String)
      → none_listed ks ≡ true
      → strip_keys standard ks query ≡ query
  unfolding strip_keys
  strip_keys-none_listed [] query h = refl
  strip_keys-none_listed (k ∷ ks) query h = ground (arith, strip_keys-none_listed ks query)

  -- No listed key is left.
  strip-none_listed :
      (query : Option String)
      → none_listed (standard.keys (strip_keys standard (standard.keys query) query)) ≡ true
  strip-none_listed query =
      rw (keys-strip_keys (standard.keys query) query)
        (none_left (standard.keys query) (standard.keys query) (has_self (standard.keys query)))

  strip_query_idem :
      (query : Option String)
      → strip_query standard (strip_query standard query) ≡ strip_query standard query
  unfolding strip_query
  strip_query_idem query =
      let kept = strip_keys standard (standard.keys query) query in
      elim (Bool-cases (no_keys standard (standard.keys kept))) [
        | inl e ↦ rw (e, laws.no_query) (ground (arith, strip_keys-none_listed [] none))
        | inr e ↦
            rw (e, strip_keys-none_listed (standard.keys kept) kept (strip-none_listed query), e)
      ]

  set_identity_idem :
      (strip : Bool) (u : Url)
      → set_identity standard strip (set_identity standard strip u) ≡ set_identity standard strip u
  set_identity_idem strip u = ground (arith, strip_query_idem u.query)

  identity_idem :
      (strip : Bool) (o : Option Url) {out : String}
      → ((u : Url) → o ≡ some u → IsMade standard u)
      → identity standard strip o ≡ some out
      → identity standard strip (standard.parse out) ≡ some out
  identity_idem strip none made h = cc
  identity_idem strip (some u) made h =
      let back =
        laws.parse_print (set_identity standard strip u) (normalized strip (made u refl)) in
      ground (arith, back, set_identity_idem strip u)

-- Where the platform follows the URL standard, what `normalizeUrl` gives is normal: normalized again, with
-- the same options, it is itself.
pub normalize_url_idem :
    (standard : UrlStandard) (laws : IsStandard standard) (strip : Bool) (input out : String)
    → normalize_url standard strip input ≡ some out
    → normalize_url standard strip out ≡ some out
unfolding normalize_url
normalize_url_idem standard laws strip input out h =
    identity_idem standard laws strip (standard.parse input) (λ u e. parsed input e) h
