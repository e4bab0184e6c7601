-- ===== src/Prelude/Texts.antt =====
-- The functions of package strings that the program uses.
use Prim.Native.Nat.{ℕ, ◌+◌}
use Prim.Native.Char.{code}
use Prim.Native.String.{String, ◌++◌}
use mathlib.Core.Bool.{Bool, true, false, not, ◌&&◌, ◌||◌}
use mathlib.Core.Option.{Option, none, some}
use mathlib.Core.List.{List, [], ◌∷◌}
use agenova.Prelude.Tests.{leb, if◌then◌else◌}
use agenova.Prelude.Equality.{◌==◌, nat_eq, list_eq}
use agenova.Prelude.Lists.{any}
use agenova.Prelude.Decimal.{decimal}

-- The code points of a text. `String` has its own `[]` and `∷`.
abbrev pub codes : String → List ℕ
codes String.[] = []
codes (String.◌∷◌ c s) = code c ∷ codes s

-- unicode.IsSpace
is_space : ℕ → Bool
is_space c =
    leb 9 c && leb c 13
    || c == 32
    || c == 0x85
    || c == 0xA0
    || c == 0x1680
    || leb 0x2000 c && leb c 0x200A
    || c == 0x2028
    || c == 0x2029
    || c == 0x202F
    || c == 0x205F
    || c == 0x3000

all_space : List ℕ → Bool
all_space [] = true
all_space (c ∷ cs) = is_space c && all_space cs

-- strings.TrimSpace(s) == ""
unfoldable pub is_blank : String → Bool
unfolding is_space all_space
is_blank s = all_space (codes s)

-- strings.ContainsAny(s, chars), the characters given by their codes.
unfoldable pub contains_any : List ℕ → List ℕ → Bool
contains_any s chars = any (λ c. any (λ d. c == d) chars) s

-- strings.HasPrefix
unfoldable pub has_prefix : List ℕ → List ℕ → Bool
has_prefix s [] = true
has_prefix [] (d ∷ ds) = false
has_prefix (c ∷ s) (d ∷ ds) = c == d && has_prefix s ds

-- strings.Contains
unfoldable pub contains_text : List ℕ → List ℕ → Bool
unfolding has_prefix
contains_text [] t = has_prefix [] t
contains_text (c ∷ s) t = has_prefix (c ∷ s) t || contains_text s t

-- strings.Cut at the first occurrence of a character.
unfoldable pub cut : ℕ → List ℕ → List ℕ × Option (List ℕ)
cut sep [] = ([], none)
cut sep (c ∷ s) =
    let (before, rest) = cut sep s in if c == sep then ([], some s) else (c ∷ before, rest)

-- strings.ToLower, exact on every character whose lower case is ASCII (U+0130 and the Kelvin sign
-- among them); it leaves the others as they are.
abbrev lower : ℕ → ℕ
lower c =
    if leb b'A' c && leb c b'Z'
    then c + 32
    else if c == 0x130
    then b'i'
    else if c == 0x212A
    then b'k'
    else c

unfoldable pub to_lower : List ℕ → List ℕ
to_lower [] = []
to_lower (c ∷ s) = lower c ∷ to_lower s

-- strings.HasSuffix
unfoldable pub has_suffix : List ℕ → List ℕ → Bool
has_suffix [] t = [] == t
has_suffix (c ∷ s) t = (c ∷ s) == t || has_suffix s t

-- strings.TrimSuffix(s, t) of a suffix of one character.
unfoldable pub trim_last : ℕ → List ℕ → List ℕ
trim_last t [] = []
trim_last t (c ∷ []) = if c == t then [] else c ∷ []
trim_last t (c ∷ d ∷ s) = c ∷ trim_last t (d ∷ s)

-- The place of a list element in an error: path[i].
abbrev pub place : String → ℕ → String
place path i = path ++ "[" ++ decimal i ++ "]"

ends_trimmed : ℕ → List ℕ → Bool
unfolding is_space
ends_trimmed c [] = not (is_space c)
ends_trimmed c (d ∷ s) = ends_trimmed d s

-- strings.TrimSpace(s) == s
unfoldable pub is_trimmed : List ℕ → Bool
unfolding is_space ends_trimmed
is_trimmed [] = true
is_trimmed (c ∷ s) = not (is_space c) && ends_trimmed c s
