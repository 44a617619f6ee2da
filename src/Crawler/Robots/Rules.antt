-- ===== src/Crawler/Robots/Rules.antt =====
-- Which rule decides.
use seo_optimizer.Prelude.{
  ℕ, ◌≡◌, ◌⊎◌, inl, inr, refl, ◌∙◌, String, Bool, true, false, not, ◌&&◌, ◌||◌, Option, none, some,
  List, [], ◌∷◌, ◌==◌, leb, any, all, arith, Bool-cases,
}
use seo_optimizer.Crawler.Robots.{
  RobotsRule, RobotsGroup, Robots, Ruling, matches, rule_length, wins, decide_rules, group_for,
  judged, is_allowed,
}

module _ (path : String) where
  -- The rule matches the path with a pattern of this length, and allows it.
  abbrev pub fits_at : ℕ → RobotsRule → Bool
  fits_at l rule = matches rule.path path && rule_length rule == l

  abbrev pub allows_at : ℕ → RobotsRule → Bool
  allows_at l rule = fits_at l rule && rule.allow

  abbrev pub no_longer : ℕ → RobotsRule → Bool
  no_longer l rule = not (matches rule.path path) || leb (rule_length rule) l

  -- The loop from a rule that is winning.
  record Continues (dec : Bool) (w : ℕ) (rules : List RobotsRule) (result : Ruling) (l : ℕ)
      : Type 0 where
    pub above : leb w l ≡ true
    pub longest : all (no_longer l) rules ≡ true
    pub reached : l == w || any (fits_at l) rules ≡ true
    pub decided : result.decision ≡ (l == w && dec || any (allows_at l) rules)

  decide_from :
      (dec : Bool) (w : ℕ) (rules : List RobotsRule)
      → (l : ℕ) × Continues dec w rules
          (decide_rules path (record { decision = dec; winning = some w }) rules)
          l
  unfolding decide_rules
  decide_from dec w [] = (
    w,
    record { above = ground arith; longest = refl; reached = ground arith; decided = ground arith },
  )
  decide_from dec w (rule ∷ rules) =
      elim (Bool-cases (matches rule.path path && wins rule (some w))) [
        | inl e ↦
            let (l, k) = decide_from rule.allow (rule_length rule) rules in
            (
              l,
              rw e (record {
                above = ground (arith, k.above);
                longest = ground (arith, k.above, k.longest);
                reached = ground (arith, k.reached);
                decided = k.decided ∙ ground (arith, k.above);
              }),
            )
        | inr e ↦
            let (l, k) = decide_from dec w rules in
            (
              l,
              rw e (record {
                above = k.above;
                longest = ground (arith, k.above, k.longest);
                reached = ground (arith, k.reached);
                decided = k.decided ∙ ground (arith, k.above);
              }),
            )
      ]

  -- What a decision about the path must be: true where no rule matches it, else what the rules of the
  -- longest matching pattern say, where one that allows is enough.
  abbrev pub IsRuled : List RobotsRule → Bool → Type 0
  IsRuled rules decision =
      (all (λ rule. not (matches rule.path path)) rules ≡ true) × (decision ≡ true)
      ⊎ ((l : ℕ) × (any (fits_at l) rules ≡ true)
          × (all (no_longer l) rules ≡ true)
          × (decision ≡ any (allows_at l) rules))

  decide-IsRuled :
      (rules : List RobotsRule)
      → IsRuled rules
          (decide_rules path (record { decision = true; winning = none }) rules).decision
  unfolding decide_rules
  decide-IsRuled [] = inl (refl, refl)
  decide-IsRuled (rule ∷ rules) = elim (Bool-cases (matches rule.path path)) [
    | inl e ↦
        let (l, k) = decide_from rule.allow (rule_length rule) rules in
        rw e (
          inr (
            l,
            ground (arith, k.reached, e),
            ground (arith, k.above, k.longest, e),
            k.decided ∙ ground (arith, e),
          ))
    | inr e ↦ skipped e (decide-IsRuled rules)
  ]
    where
      skipped :
          matches rule.path path ≡ false
          → IsRuled rules
              (decide_rules path (record { decision = true; winning = none }) rules).decision
          → IsRuled
              (rule ∷ rules)
              (decide_rules path
                (record { decision = true; winning = none })
                (rule ∷ rules)).decision
      skipped e (inl (none_match, allowed)) = rw e (inl (none_match, allowed))
      skipped e (inr (l, hit, longest, decided)) = rw e (inr (l, hit, longest, decided))

-- An answer about a URL: without a robots.txt, a group for the agent or a path it allows, and else it is
-- ruled by the group's rules.
abbrev pub IsPermitted : (absent : Bool) → Option RobotsGroup → Option String → Bool → Type 0
IsPermitted true group path answer = answer ≡ true
IsPermitted false none path answer = answer ≡ true
IsPermitted false (some group) none answer = answer ≡ true
IsPermitted false (some group) (some path) answer = IsRuled path group.rules answer

judged-IsPermitted :
    (absent : Bool) (group : Option RobotsGroup) (path : Option String)
    → IsPermitted absent group path (judged absent group path)
unfolding judged
judged-IsPermitted true group path = refl
judged-IsPermitted false none path = refl
judged-IsPermitted false (some group) none = refl
judged-IsPermitted false (some group) (some path) = decide-IsRuled path group.rules

-- `isAllowed` allows a URL where there is no robots.txt, no group for the agent or no path to judge; else,
-- where no rule of the group matches the path, it allows, and where some do, it allows exactly where a
-- matching rule of the longest matching pattern allows.
pub is_allowed-IsPermitted :
    (path_of : String → Option String) (robots : Robots) (user_agent url : String)
    → IsPermitted robots.absent
        (group_for robots user_agent)
        (path_of url)
        (is_allowed path_of robots user_agent url)
unfolding is_allowed
is_allowed-IsPermitted path_of robots user_agent url =
    judged-IsPermitted robots.absent (group_for robots user_agent) (path_of url)
