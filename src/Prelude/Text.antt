-- ===== src/Prelude/Text.antt =====
-- What the program uses of JavaScript's strings and of sets of strings.
use Prim.Native.Nat.{ℕ, zero, suc, ◌/◌, ◌%◌, Ordering}
use Prim.Native.String.{String, compare, ◌++◌ as ◌<>◌}
use mathlib.Core.Path.{◌≡◌, refl}
use mathlib.Core.Bool.{Bool, true, false, ◌||◌}
use mathlib.Core.List.{List, [], ◌∷◌, ◌++◌}
use mathlib.Core.Option.{Option, none, some}
use native.Mathlib.Omega.{arith}
use text.Mathlib.Text.{◌==◌ as str_eq}
use text.Mathlib.TextEquality.{eq_iff}
use seo_optimizer.Prelude.Tests.{ltb, if◌then◌else◌, Bool-cases}
use mathlib.Core.Logic.{inl, inr}
use native.Mathlib.Omega.{arith}
use text.Mathlib.TextLemmas.{append-eq-nil_iff}

-- A template literal, as the list of its pieces.
unfoldable pub concat : List String → String
concat [] = ""
concat (s ∷ ss) = s <> concat ss

-- `Array.prototype.join`.
pub join : String → List String → String
join sep [] = ""
join sep (s ∷ []) = s
join sep (s ∷ t ∷ ss) = s <> (sep <> join sep (t ∷ ss))

digit : ℕ → String
digit n =
    if ltb n 1
    then "0"
    else if ltb n 2
    then "1"
    else if ltb n 3
    then "2"
    else if ltb n 4
    then "3"
    else if ltb n 5
    then "4"
    else if ltb n 6
    then "5"
    else if ltb n 7
    then "6"
    else if ltb n 8
    then "7"
    else if ltb n 9
    then "8"
    else "9"

decimal_upto : ℕ → ℕ → String
decimal_upto zero n = ""
decimal_upto (suc f) n =
    let rest = decimal_upto f (n / 10) <> digit (n % 10) in if ltb n 10 then digit n else rest

-- A count written into a template literal.
pub decimal : ℕ → String
decimal n = decimal_upto (suc n) n

-- `Set.has` and `Array.includes`.
abbrev pub has : List String → String → Bool
has [] s = false
has (t ∷ ts) s = str_eq t s || has ts s

pub has-append : (xs ys : List String) (s : String) → has (xs ++ ys) s ≡ (has xs s || has ys s)
has-append [] ys s = refl
has-append (x ∷ xs) ys s = ground (arith, has-append xs ys s)

abbrev pub opt_str_eq : Option String → Option String → Bool
opt_str_eq none none = true
opt_str_eq none (some t) = false
opt_str_eq (some s) none = false
opt_str_eq (some s) (some t) = str_eq s t

-- The distinct elements, each at its first occurrence: `[...new Set(xs)]`, read from the left.
unfoldable pub distinct_from : List String → List String → List String
distinct_from seen [] = []
distinct_from seen (s ∷ ss) =
    let rest = s ∷ distinct_from (s ∷ seen) ss in
    let skipped = distinct_from seen ss in if has seen s then skipped else rest

abbrev insert_sorted : String → List String → List String
insert_sorted s [] = s ∷ []
insert_sorted s (t ∷ ts) = elim (compare s t) [
  | Ordering.gt ↦ t ∷ insert_sorted s ts
  | _ ↦ s ∷ t ∷ ts
]

-- `Array.prototype.sort` with no comparison function, on strings.
unfoldable pub sort : List String → List String
sort [] = []
sort (s ∷ ss) = insert_sorted s (sort ss)

-- `str_eq` as `ground` reads it: two texts that are equal compare as equal.
pub str_eq_refl : (s : String) → str_eq s s ≡ true
str_eq_refl s = (eq_iff s s).1 refl

-- A template that begins with some text is not empty.
pub concat-nonempty :
    (s : String) (ss : List String) → str_eq s "" ≡ false → str_eq (concat (s ∷ ss)) "" ≡ false
unfolding concat
concat-nonempty s ss h = elim (Bool-cases (str_eq (s <> concat ss) "")) [
  | inl e ↦ ground (
    arith,
    eq_iff s "",
    (append-eq-nil_iff {p = s} {q = concat ss}).0 ((eq_iff (s <> concat ss) "").0 e),
  )
  | inr e ↦ e
]
