-- ===== src/Prelude/Codes.antt =====
-- Texts as the list of their characters' codes.
use Prim.Native.Nat.{ℕ, ◌+◌}
use Prim.Native.Char.{code}
use Prim.Native.String.{String}
use mathlib.Core.Bool.{Bool, true, false, ◌&&◌, ◌||◌}
use mathlib.Core.List.{List, [], ◌∷◌}
use seo_optimizer.Prelude.Tests.{ltb, ◌==◌, if◌then◌else◌}

abbrev pub codes : String → List ℕ
codes String.[] = []
codes (String.◌∷◌ c s) = code c ∷ codes s

-- `toLowerCase` of ASCII text, which a user agent is.
abbrev pub lower_codes : List ℕ → List ℕ
lower_codes [] = []
lower_codes (n ∷ s) = (if ltb 64 n && ltb n 91 then n + 32 else n) ∷ lower_codes s

abbrev begins : List ℕ → List ℕ → Bool
begins s [] = true
begins [] (d ∷ t) = false
begins (c ∷ s) (d ∷ t) = c == d && begins s t

-- `s.includes(t)`.
abbrev pub includes : List ℕ → List ℕ → Bool
includes [] t = begins [] t
includes (c ∷ s) t = begins (c ∷ s) t || includes s t

-- `length`, which counts UTF-16 units.
abbrev pub utf16_length : List ℕ → ℕ
utf16_length [] = 0
utf16_length (n ∷ s) = (if ltb n 65536 then 1 else 2) + utf16_length s
