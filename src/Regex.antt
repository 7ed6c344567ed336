-- ===== src/Regex.antt =====
-- The regular expressions of the sources, as `RegExp.prototype.test` runs them (no flag but `i`,
-- which the character classes carry). A matcher gives every position at which a match that starts
-- at the given position may end; a position is the code unit before it and the rest of the text.
use aisdlc.Prelude.{
  [], ◌∷◌, Bool, true, false, not, ◌&&◌, ◌||◌, ◌++◌, leb, ◌==◌, suc, zero, length, ℕ, Option, List,
  none, some, ◌+◌,
}
use Prim.Native.Char.{code}
use Prim.Native.String.{String}
use aisdlc.Text.{Text}

pub data Regex : Type 0 where
  -- One code unit that the test accepts.
  one : (ℕ → Bool) → Regex
  empty : Regex
  seq : Regex → Regex → Regex
  either : Regex → Regex → Regex
  -- `r*`
  star : Regex → Regex
  -- `^`, `$` and `\b`
  line_start line_end word_boundary : Regex

pub record Position : Type 0 where
  pub before : Option ℕ
  pub rest : Text

unfoldable pub is_word : ℕ → Bool
is_word c =
    (leb b'a' c && leb c b'z')
    || (leb b'A' c && leb c b'Z')
    || (leb b'0' c && leb c b'9')
    || c == b'_'

abbrev is_word_at : Option ℕ → Bool
is_word_at none = false
is_word_at (some c) = is_word c

abbrev head : Text → Option ℕ
head [] = none
head (c ∷ s) = some c

abbrev differs : Bool → Bool → Bool
differs true b = not b
differs false b = b

abbrev when : Bool → Position → List Position
when true p = p ∷ []
when false p = []

unfoldable pub bind_all : List Position → (Position → List Position) → List Position
bind_all [] f = []
bind_all (p ∷ ps) f = f p ++ bind_all ps f

step_one : (ℕ → Bool) → Text → List Position
step_one test [] = []
step_one test (c ∷ s) = when (test c) (record { before = some c; rest = s })

-- `r*` from a position: each round must consume something, so the length of the text bounds them.
repeat : ℕ → (Position → List Position) → Position → List Position
repeat zero round p = p ∷ []
repeat (suc n) round p =
    p
    ∷ bind_all (round p)
        (λ q. elim (leb (length p.rest) (length q.rest)) [ true ↦ [] | false ↦ repeat n round q ])

unfoldable pub ends : Regex → Position → List Position
unfolding bind_all step_one repeat is_word
ends (one test) p = step_one test p.rest
ends empty p = p ∷ []
ends (seq r s) p = bind_all (ends r p) (ends s)
ends (either r s) p = ends r p ++ ends s p
ends (star r) p = repeat (length p.rest) (ends r) p
ends line_start p = elim p.before [ none ↦ p ∷ [] | some c ↦ [] ]
ends line_end p = elim p.rest [ [] ↦ p ∷ [] | c ∷ s ↦ [] ]
ends word_boundary p = when (differs (is_word_at p.before) (is_word_at (head p.rest))) p

unfoldable pub is_match : List Position → Bool
is_match [] = false
is_match (p ∷ ps) = true

-- Tries every position from left to right.
search_from : Regex → Option ℕ → Text → Bool
unfolding ends is_match
search_from r before [] = is_match (ends r (record { before = before; rest = [] }))
search_from r before (c ∷ s) =
    is_match (ends r (record { before = before; rest = c ∷ s })) || search_from r (some c) s

-- `r.test(text)`
unfoldable pub test : Regex → Text → Bool
unfolding search_from
test r text = search_from r none text

-- Building blocks.
abbrev pub plus : Regex → Regex
plus r = seq r (star r)

abbrev pub optional : Regex → Regex
optional r = either r empty

unfoldable pub lower : ℕ → ℕ
lower c = elim (leb b'A' c && leb c b'Z') [ true ↦ c + 32 | false ↦ c ]

-- A literal text, with the flag `i`.
abbrev pub literal_i : String → Regex
literal_i String.[] = empty
literal_i (String.◌∷◌ c s) = seq (one (λ d. lower d == lower (code c))) (literal_i s)

-- `.`
abbrev pub any_unit : ℕ → Bool
any_unit c = not (c == 10 || c == 13 || c == 0x2028 || c == 0x2029)

abbrev pub is_letter : ℕ → Bool
is_letter c = (leb b'a' c && leb c b'z') || (leb b'A' c && leb c b'Z')

abbrev pub is_digit : ℕ → Bool
is_digit c = leb b'0' c && leb c b'9'
