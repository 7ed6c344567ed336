-- ===== src/Text.antt =====
-- JavaScript strings as the program uses them: lists of UTF-16 code units, with the methods of
-- `String.prototype` that the sources call (startsWith, endsWith, includes, split, trim).
pub mod Laws
use Prim.Native.Char.{code}
use Prim.Native.String.{String}
use aisdlc.Prelude.{ℕ, Bool, true, false, ◌&&◌, ◌||◌, List, [], ◌∷◌, leb, ◌==◌, if◌then◌else◌}

abbrev pub Text : Type 0
Text = List ℕ

-- A literal of the source. (Every literal modelled here is ASCII.)
abbrev pub codes : String → Text
codes String.[] = []
codes (String.◌∷◌ c s) = code c ∷ codes s

-- `a === b`.
unfoldable pub same : Text → Text → Bool
same [] [] = true
same (a ∷ s) (b ∷ t) = a == b && same s t
same _ _ = false

-- `s.startsWith(p)`.
unfoldable pub starts_with : Text → Text → Bool
starts_with s [] = true
starts_with [] (b ∷ p) = false
starts_with (a ∷ s) (b ∷ p) = a == b && starts_with s p

-- `s.includes(p)`.
unfoldable pub includes : Text → Text → Bool
unfolding starts_with
includes [] p = starts_with [] p
includes (a ∷ s) p = starts_with (a ∷ s) p || includes s p

-- `s.endsWith(p)`.
unfoldable pub ends_with : Text → Text → Bool
unfolding same
ends_with [] p = same [] p
ends_with (a ∷ s) p = same (a ∷ s) p || ends_with s p

-- Puts a code unit in front of the first segment.
unfoldable pub onto : ℕ → List Text → List Text
onto c [] = (c ∷ []) ∷ []
onto c (s ∷ ss) = (c ∷ s) ∷ ss

-- `s.split(sep)` for a separator of one code unit.
unfoldable pub split : ℕ → Text → List Text
unfolding onto
split sep [] = [] ∷ []
split sep (c ∷ s) = let rest = split sep s in if c == sep then [] ∷ rest else onto c rest

-- WhiteSpace and LineTerminator of ECMA-262.
unfoldable pub is_space : ℕ → Bool
is_space c =
    (leb 9 c && leb c 13)
    || c == 32
    || c == 160
    || c == 0x1680
    || (leb 0x2000 c && leb c 0x200a)
    || c == 0x2028
    || c == 0x2029
    || c == 0x202f
    || c == 0x205f
    || c == 0x3000
    || c == 0xfeff

unfoldable pub trim_start : Text → Text
unfolding is_space
trim_start [] = []
trim_start (c ∷ s) = if is_space c then trim_start s else c ∷ s

unfoldable pub trim_end : Text → Text
unfolding is_space
trim_end [] = []
trim_end (c ∷ s) =
    let rest = trim_end s in
    if is_space c then elim rest [ [] ↦ [] | d ∷ r ↦ c ∷ d ∷ r ] else c ∷ rest

-- `s.trim()`.
unfoldable pub trim : Text → Text
unfolding trim_start trim_end
trim s = trim_end (trim_start s)

unfoldable pub is_empty : Text → Bool
is_empty [] = true
is_empty (c ∷ s) = false

-- A segment of the text between the characters `sep`.
unfoldable pub has_segment : Text → List Text → Bool
unfolding same
has_segment seg [] = false
has_segment seg (s ∷ ss) = same s seg || has_segment seg ss
