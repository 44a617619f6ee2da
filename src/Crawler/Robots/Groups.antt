-- ===== src/Crawler/Robots/Groups.antt =====
-- Which group applies to an agent.
use seo_optimizer.Prelude.{
  ℕ, suc, ◌≡◌, ◌⊎◌, inl, inr, refl, sym, ap, subst, ◌∙◌, String, Bool, true, false, not, ◌&&◌, ◌||◌,
  Option, none, some, List, [], ◌∷◌, ◌++◌, ltb, leb, str_eq, all, get_or, arith, Bool-cases,
}
use seo_optimizer.Prelude.Codes.{codes, lower_codes, includes, utf16_length}
use seo_optimizer.Crawler.Robots.{
  RobotsGroup, Robots, Choice, consider, consider_agents, consider_groups, either_group, group_for,
}

-- The agent tokens of a file, each with its group, in order.
abbrev pub Token : Type 0
Token = RobotsGroup × String

abbrev tag : RobotsGroup → List String → List Token
tag group [] = []
tag group (a ∷ agents) = (group, a) ∷ tag group agents

abbrev pub tokens : List RobotsGroup → List Token
tokens [] = []
tokens (group ∷ groups) = tag group group.agents ++ tokens groups

abbrev pub is_wildcard : Token → Bool
is_wildcard (group, a) = str_eq a "*"

abbrev pub token_length : Token → ℕ
token_length (group, a) = utf16_length (codes a)

no_group : {g : RobotsGroup} → some g ≡ none → ⊥
no_group e = cc

some_same : {g h : RobotsGroup} → some g ≡ some h → g ≡ h
some_same {g} e = ap (λ o. get_or o g) e

abbrev nothing_yet : Choice
nothing_yet = record { best = none; best_length = 0; wildcard = none }

module _ (agent : List ℕ) where
  -- A token other than `*` that the agent's name contains.
  abbrev pub is_named : Token → Bool
  is_named (group, a) = not (str_eq a "*") && includes agent (codes a)

  abbrev run : Choice → List Token → Choice
  run c [] = c
  run c ((group, a) ∷ ts) = run (consider agent group c a) ts

  run-append : (c : Choice) (ts us : List Token) → run c (ts ++ us) ≡ run (run c ts) us
  run-append c [] us = refl
  run-append c ((group, a) ∷ ts) us = run-append (consider agent group c a) ts us

  run-tag :
      (c : Choice) (group : RobotsGroup) (agents : List String)
      → consider_agents agent group c agents ≡ run c (tag group agents)
  run-tag c group [] = refl
  run-tag c group (a ∷ agents) = run-tag (consider agent group c a) group agents

  run-tokens :
      (c : Choice) (groups : List RobotsGroup)
      → consider_groups agent c groups ≡ run c (tokens groups)
  run-tokens c [] = refl
  run-tokens c (group ∷ groups) =
      run-tokens (consider_agents agent group c group.agents) groups
      ∙ ap (λ d. run d (tokens groups)) (run-tag c group group.agents)
      ∙ sym (run-append c (tag group group.agents) (tokens groups))

  abbrev shorter : ℕ → Token → Bool
  shorter l t = not (is_named t) || ltb (token_length t) l

  abbrev no_longer : ℕ → Token → Bool
  no_longer l t = not (is_named t) || leb (token_length t) l

  -- A named token: those before it that are named are shorter, those behind it no longer.
  pub record IsLongest (ts : List Token) (t : Token) : Type 0 where
    pub before : List Token
    pub after : List Token
    pub split : ts ≡ before ++ t ∷ after
    pub named : is_named t ≡ true
    pub beats : all (shorter (token_length t)) before ≡ true
    pub stands : all (no_longer (token_length t)) after ≡ true

  -- What the loop leaves as the best group.
  abbrev BestFrom : Choice → List Token → Choice → Type 0
  BestFrom c ts d =
      (d.best ≡ c.best)
        × (all (λ t. not (is_named t) || ltb (token_length t) c.best_length) ts ≡ true)
      ⊎ ((t : Token) × IsLongest ts t
          × (leb c.best_length (token_length t) ≡ true)
          × (d.best ≡ some t.0))

  later_best :
      (t : Token) (ts : List Token) (u : Token)
      → shorter (token_length u) t ≡ true
      → IsLongest ts u
      → IsLongest (t ∷ ts) u
  later_best t ts u h k = record {
    before = t ∷ k.before;
    after = k.after;
    split = ap (λ l. t ∷ l) k.split;
    named = k.named;
    beats = ground (arith, k.beats);
    stands = k.stands;
  }

  passed_over :
      (c c' d : Choice) (t : Token) (ts : List Token)
      → c'.best ≡ c.best
      → c'.best_length ≡ c.best_length
      → not (is_named t) || ltb (token_length t) c.best_length ≡ true
      → BestFrom c' ts d
      → BestFrom c (t ∷ ts) d
  passed_over c c' d t ts same length_same h (inl (k, m)) =
      inl (k ∙ same, ground (arith, rw length_same at m))
  passed_over c c' d t ts same length_same h (inr (u, k, m, e)) =
      inr (u, later_best t ts u (ground arith) k, rw length_same at m, e)

  taken :
      (c c' d : Choice) (t : Token) (ts : List Token)
      → is_named t ≡ true
      → leb c.best_length (token_length t) ≡ true
      → c'.best ≡ some t.0
      → c'.best_length ≡ suc (token_length t)
      → BestFrom c' ts d
      → BestFrom c (t ∷ ts) d
  taken c c' d t ts named h best length_is (inl (k, m)) = inr (
    t,
    record {
      before = [];
      after = ts;
      split = refl;
      named = named;
      beats = refl;
      stands = within ts (rw length_is at m);
    },
    h,
    k ∙ best,
  )
    where
      within :
          (us : List Token)
          → all (λ u. not (is_named u) || ltb (token_length u) (suc (token_length t))) us ≡ true
          → all (no_longer (token_length t)) us ≡ true
      within [] e = refl
      within (u ∷ us) e = ground (arith, within us)
  taken c c' d t ts named h best length_is (inr (u, k, m, e)) =
      inr (u, later_best t ts u (ground arith) k, ground arith, e)

  run-BestFrom : (c : Choice) (ts : List Token) → BestFrom c ts (run c ts)
  run-BestFrom c [] = inl (refl, refl)
  run-BestFrom c ((group, a) ∷ ts) =
      let c' = consider agent group c a in
      let rest = run-BestFrom c' ts in
      let better = includes agent (codes a) && ltb c.best_length (suc (utf16_length (codes a))) in
      elim (Bool-cases (not (str_eq a "*") && better)) [
        | inl e ↦
            taken c c' (run c' ts) (group, a) ts (ground arith) (ground arith) (ground arith)
              (ground arith) rest
        | inr e ↦
            passed_over c c' (run c' ts) (group, a) ts (ground arith) (ground arith) (ground arith)
              rest
      ]

  -- The first token `*`, and no other before it.
  pub record IsFirstWildcard (ts : List Token) (t : Token) : Type 0 where
    pub before : List Token
    pub after : List Token
    pub split : ts ≡ before ++ t ∷ after
    pub here : is_wildcard t ≡ true
    pub none_before : all (λ u. not (is_wildcard u)) before ≡ true

  abbrev WildFrom : Choice → List Token → Choice → Type 0
  WildFrom c ts d =
      (all (λ t. not (is_wildcard t)) ts ≡ true) × (d.wildcard ≡ none)
      ⊎ ((t : Token) × IsFirstWildcard ts t × (d.wildcard ≡ some t.0))

  run-kept :
      (c : Choice) (group : RobotsGroup) (ts : List Token)
      → c.wildcard ≡ some group
      → (run c ts).wildcard ≡ some group
  run-kept c group [] h = h
  run-kept c group ((g, a) ∷ ts) h = run-kept (consider agent g c a) group ts (ground arith)

  run-WildFrom : (c : Choice) (ts : List Token) → c.wildcard ≡ none → WildFrom c ts (run c ts)
  run-WildFrom c [] h = inl (refl, h)
  run-WildFrom c ((group, a) ∷ ts) h =
      let c' = consider agent group c a in
      elim (Bool-cases (str_eq a "*")) [
        | inl e ↦ inr (
          (group, a),
          record { before = []; after = ts; split = refl; here = e; none_before = refl },
          run-kept c' group ts (ground arith),
        )
        | inr e ↦ wild_later (run-WildFrom c' ts (ground arith)) e
      ]
    where
      wild_later :
          WildFrom (consider agent group c a) ts (run (consider agent group c a) ts)
          → str_eq a "*" ≡ false
          → WildFrom c ((group, a) ∷ ts) (run (consider agent group c a) ts)
      wild_later (inl (k, m)) e = inl (ground arith, m)
      wild_later (inr (u, k, m)) e = inr (
        u,
        record {
          before = (group, a) ∷ k.before;
          after = k.after;
          split = ap (λ l. (group, a) ∷ l) k.split;
          here = k.here;
          none_before = ground (arith, k.none_before);
        },
        m,
      )

  -- The group that applies: the one of the longest token that the agent's name contains, the first
  -- among equals; without such a token the group of the first `*`, if there is one.
  abbrev pub Applies : List Token → Option RobotsGroup → Type 0
  Applies ts none =
      (all (λ t. not (is_named t)) ts ≡ true) × (all (λ t. not (is_wildcard t)) ts ≡ true)
  Applies ts (some group) =
      ((t : Token) × IsLongest ts t × (t.0 ≡ group))
      ⊎ (all (λ t. not (is_named t)) ts ≡ true)
        × ((t : Token) × IsFirstWildcard ts t × (t.0 ≡ group))

  none_named :
      (ts : List Token)
      → all (λ t. not (is_named t) || ltb (token_length t) 0) ts ≡ true
      → all (λ t. not (is_named t)) ts ≡ true
  none_named [] h = refl
  none_named (t ∷ ts) h = ground (arith, none_named ts)

  either-Applies :
      (ts : List Token) (best wild : Option RobotsGroup) (d : Choice)
      → d.best ≡ best
      → d.wildcard ≡ wild
      → BestFrom nothing_yet ts d
      → WildFrom nothing_yet ts d
      → Applies ts (either_group best wild)
  either-Applies ts none none d b w (inl (k, m)) (inl (l, n)) = (none_named ts m, l)
  either-Applies ts none (some g) d b w (inl (k, m)) (inl (l, n)) = absurd (no_group (sym w ∙ n))
  either-Applies ts none none d b w (inl (k, m)) (inr (u, l, n)) = absurd (no_group (sym n ∙ w))
  either-Applies ts none (some g) d b w (inl (k, m)) (inr (u, l, n)) =
      inr (none_named ts m, (u, l, some_same (sym n ∙ w)))
  either-Applies ts (some g) wild d b w (inl (k, m)) other = absurd (no_group (sym b ∙ k))
  either-Applies ts none wild d b w (inr (u, k, m, e)) other = absurd (no_group (sym e ∙ b))
  either-Applies ts (some g) wild d b w (inr (u, k, m, e)) other = inl (u, k, some_same (sym e ∙ b))

-- `groupFor` gives, of the groups with a token other than `*` that the lower-cased agent contains, the one
-- of the longest token, the first among equals; where there is none, the group of the first `*`; and null
-- where there is no `*` either.
pub group_for-Applies :
    (robots : Robots) (user_agent : String)
    → Applies (lower_codes (codes user_agent)) (tokens robots.groups) (group_for robots user_agent)
unfolding group_for
group_for-Applies robots user_agent =
    let agent = lower_codes (codes user_agent) in
    let ts = tokens robots.groups in
    let d = consider_groups agent nothing_yet robots.groups in
    let same : run agent nothing_yet ts ≡ d = sym (run-tokens agent nothing_yet robots.groups) in
    either-Applies agent ts d.best d.wildcard d refl refl
      (subst (BestFrom agent nothing_yet ts) same (run-BestFrom agent nothing_yet ts))
      (subst (WildFrom agent nothing_yet ts) same (run-WildFrom agent nothing_yet ts refl))
