-- ===== src/Prelude/Chars.antt =====
-- What the program does to a string character by character: `trim`, a comparison that ignores case, and
-- simple patterns.
use Prim.Native.Nat.{ℕ, ◌+◌, ◌-◌}
use Prim.Native.Char.{Char, code}
use Prim.Native.String.{String, [], ◌∷◌, slice, len, char_at}
use mathlib.Core.Bool.{Bool, true, false, not, ◌&&◌, ◌||◌}
use text.Mathlib.Text.{◌==◌ as str_eq, starts_with}
use seo_optimizer.Prelude.Tests.{ltb, ◌==◌, if◌then◌else◌}

-- The white space that `trim` and `\s` know.
abbrev is_space : Char → Bool
is_space c =
    ltb 8 (code c) && ltb (code c) 14
    || code c == 32
    || code c == 160
    || code c == 5760
    || ltb 8191 (code c) && ltb (code c) 8203
    || code c == 8232
    || code c == 8233
    || code c == 8239
    || code c == 8287
    || code c == 12288
    || code c == 65279

abbrev trim_start : String → String
trim_start [] = []
trim_start (c ∷ s) = let rest = trim_start s in if is_space c then rest else c ∷ s

-- A character stays where something else follows it.
abbrev trim_end : String → String
trim_end [] = []
trim_end (c ∷ s) = let rest = trim_end s in if is_space c && str_eq rest "" then [] else c ∷ rest

abbrev pub trim : String → String
trim s = trim_end (trim_start s)

-- A letter of `A` to `Z` in lower case. No other character has a lower case among the letters that the
-- program compares with.
abbrev lower : ℕ → ℕ
lower n = if ltb 64 n && ltb n 91 then n + 32 else n

-- `replace(/\s+/g, ' ')`; the flag says that the character before was white space.
abbrev collapse : Bool → String → String
collapse after [] = []
collapse after (c ∷ s) =
    let rest = collapse (is_space c) s in
    if is_space c then (if after then rest else char_at " " 0 ∷ rest) else c ∷ rest

-- `value.replace(/\s+/g, ' ').trim()`.
unfoldable pub clean : String → String
clean s = trim (collapse false s)

-- `toLowerCase` of ASCII text; other letters are left as they are.
abbrev lower_char : Char → Char
lower_char c =
    if ltb 64 (code c) && ltb (code c) 91
    then char_at "abcdefghijklmnopqrstuvwxyz" (code c - 65)
    else c

abbrev pub to_lower_case : String → String
to_lower_case [] = []
to_lower_case (c ∷ s) = lower_char c ∷ to_lower_case s

-- `s.toLowerCase() === word`, for a word in lower case.
abbrev pub lower_is : String → String → Bool
lower_is [] [] = true
lower_is [] (d ∷ t) = false
lower_is (c ∷ s) [] = false
lower_is (c ∷ s) (d ∷ t) = lower (code c) == code d && lower_is s t

-- `/^word/i.test(s)`, for a word in lower case.
abbrev pub lower_begins : String → String → Bool
lower_begins s [] = true
lower_begins [] (d ∷ t) = false
lower_begins (c ∷ s) (d ∷ t) = lower (code c) == code d && lower_begins s t

abbrev any_char : (ℕ → Bool) → String → Bool
any_char p [] = false
any_char p (c ∷ s) = p (code c) || any_char p s

-- `/[*?~]/.test(s)`.
abbrev pub has_wildcard : String → Bool
has_wildcard s = any_char (λ n. n == b'*' || n == b'?' || n == b'~') s

abbrev has_space_or_slash : String → Bool
has_space_or_slash [] = false
has_space_or_slash (c ∷ s) = is_space c || code c == b'/' || has_space_or_slash s

-- `/^https:\/\/[^\s/]+$/.test(s)`.
abbrev pub is_https_origin : String → Bool
is_https_origin s =
    starts_with s "https://"
    && not (str_eq (slice s 8 (len s)) "")
    && not (has_space_or_slash (slice s 8 (len s)))
