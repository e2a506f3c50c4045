-- ===== src/Prelude/Text.antt =====
-- Text as Python's `str` methods see it: a list of code points.
use Prim.Native.Char.{code}
use Prim.Native.Nat.{ℕ, ◌+◌}
use Prim.Native.String.{String, ◌++◌ as append}
use mathlib.Core.Bool.{Bool, true, false, ◌&&◌, ◌||◌}
use mathlib.Core.Path.{◌≡◌, refl}
use mathlib.Core.List.{List, [], ◌∷◌, ◌++◌, reverse}
use pc_diagnostic_agent.Prelude.Tests.{leb, ◌==◌, if◌then◌else◌}
use pc_diagnostic_agent.Prelude.Lists.{any}

-- The code points of a text. `String` has its own `[]` and `∷`.
abbrev pub codes : String → List ℕ
codes String.[] = []
codes (String.◌∷◌ c s) = code c ∷ codes s

-- `c.lower()`. Of the letters outside ASCII only the Kelvin sign and the dotted capital I have an
-- ASCII letter in their lower case; the others stay as they are, and no needle contains them.
lower_code : ℕ → List ℕ
lower_code c =
    if leb b'A' c && leb c b'Z'
    then (c + 32) ∷ []
    else if c == 0x212a
    then b'k' ∷ []
    else if c == 0x130
    then b'i' ∷ 0x307 ∷ []
    else c ∷ []

unfoldable pub lower : List ℕ → List ℕ
unfolding lower_code
lower [] = []
lower (c ∷ s) = lower_code c ++ lower s

-- The code points that `str.strip` removes.
is_space : ℕ → Bool
is_space c =
    (leb 9 c && leb c 13)
    || (leb 28 c && leb c 32)
    || any (λ s. s == c) (0x85 ∷ 0xa0 ∷ 0x1680 ∷ 0x2028 ∷ 0x2029 ∷ 0x202f ∷ 0x205f ∷ 0x3000 ∷ [])
    || (leb 0x2000 c && leb c 0x200a)

unfoldable pub strip_left : List ℕ → List ℕ
unfolding is_space
strip_left [] = []
strip_left (c ∷ s) = let rest = strip_left s in if is_space c then rest else c ∷ s

unfoldable pub strip : List ℕ → List ℕ
unfolding strip_left
strip s = reverse (strip_left (reverse (strip_left s)))

-- Whether `s` begins with `t`.
unfoldable pub has_prefix : List ℕ → List ℕ → Bool
has_prefix s [] = true
has_prefix [] (d ∷ t) = false
has_prefix (c ∷ s) (d ∷ t) = (c == d) && has_prefix s t

-- `needle in text`.
unfoldable pub contains : List ℕ → List ℕ → Bool
unfolding has_prefix
contains needle [] = has_prefix [] needle
contains needle (c ∷ s) = has_prefix (c ∷ s) needle || contains needle s

-- Equality of texts.
unfoldable pub same_text : List ℕ → List ℕ → Bool
same_text [] [] = true
same_text (c ∷ s) (d ∷ t) = (c == d) && same_text s t
same_text _ _ = false

strip-lower_test : lower (strip (codes "  NTFS ")) ≡ codes "ntfs"
unfolding lower strip
strip-lower_test = refl

contains_test : contains (codes "check") (codes "BugcheckX") ≡ true
unfolding contains
contains_test = refl

-- `sep.join(texts)`.
unfoldable pub join : String → List String → String
join sep [] = ""
join sep (s ∷ []) = s
join sep (s ∷ t ∷ texts) = append s (append sep (join sep (t ∷ texts)))

-- `text.strip()`, as a text.
unfoldable pub strip_start : String → String
unfolding is_space
strip_start String.[] = String.[]
strip_start (String.◌∷◌ c s) =
    let rest = strip_start s in if is_space (code c) then rest else String.◌∷◌ c s

abbrev is_blank : String → Bool
is_blank String.[] = true
is_blank (String.◌∷◌ c s) = false

unfoldable pub strip_end : String → String
unfolding is_space
strip_end String.[] = String.[]
strip_end (String.◌∷◌ c s) =
    let rest = strip_end s in
    if is_space (code c) && is_blank rest then String.[] else String.◌∷◌ c rest

unfoldable pub strip_text : String → String
unfolding strip_start strip_end
strip_text s = strip_end (strip_start s)

-- `text.split(sep)`, for a separator of one character: there is a first part, and what follows it.
abbrev pub Parts : Type 0
Parts = String × List String

unfoldable pub split_text : ℕ → String → Parts
split_text sep String.[] = (String.[], [])
split_text sep (String.◌∷◌ c s) =
    let (part, parts) = split_text sep s in
    if code c == sep then (String.[], part ∷ parts) else (String.◌∷◌ c part, parts)

split_text_test : split_text b',' "GPU 0, 35,7" ≡ ("GPU 0", " 35" ∷ "7" ∷ [])
unfolding split_text
split_text_test = refl

strip_text_test : strip_text "  35 % " ≡ "35 %"
unfolding strip_text
strip_text_test = refl
