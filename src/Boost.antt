-- ===== src/Boost.antt =====
-- What Config.cpp, main.cpp and ui/console_ui.cpp take from boost's string libraries, as a parameter,
-- with the documented behaviour that results rely on.
use Prim.Native.Char.{code}
use Prim.Native.String.{String}
use spatter.Messages.Str.{Str}
use spatter.Prelude.{
  ℕ, ◌≡◌, Bool, true, false, ◌&&◌, ◌||◌, not, List, [], ◌∷◌, ◌++◌, Option, any, All, leb, ◌==◌,
}

-- The characters of a literal.
abbrev pub codes : String → Str
codes String.[] = []
codes (String.◌∷◌ c s) = code c ∷ codes s

abbrev pub member : ℕ → Str → Bool
member c s = any (λ x. x == c) s

-- `tokenize` is `boost::tokenizer` with a `char_separator` of those characters, `split` is
-- `boost::algorithm::split` by `is_any_of` those characters, `trim` is `boost::algorithm::trim`, and
-- `lexical_cast` gives a number of at most so many bits, or throws.
pub record Boost : Type 0 where
  pub tokenize : Str → Str → List Str
  pub split : Str → Str → List Str
  pub trim : Str → Str
  pub lexical_cast : ℕ → Str → Option ℕ

-- `isspace`
abbrev pub is_space : ℕ → Bool
is_space c = (c == 32) || (leb 9 c && leb c 13)

-- The first character, and the last one, are no spaces.
unfoldable pub starts_bare : Str → Bool
starts_bare [] = true
starts_bare (c ∷ s) = not (is_space c)

unfoldable pub ends_bare : Str → Bool
ends_bare [] = true
ends_bare (c ∷ []) = not (is_space c)
ends_bare (c ∷ d ∷ s) = ends_bare (d ∷ s)

-- Each text with the character `c` behind it.
abbrev pub terminated_by : ℕ → List Str → Str
terminated_by c [] = []
terminated_by c (t ∷ ts) = t ++ (c ∷ terminated_by c ts)

abbrev pub is_token : Str → Str → Bool
is_token separators [] = false
is_token separators (x ∷ t) = not (any (λ c. member c separators) (x ∷ t))

-- Tokens that are ended by a separator are found again; a text that has no spaces at its ends stays
-- under `trim`.
pub record IsDocumented (b : Boost) : Type 0 where
  pub tokenize :
      (separators : Str) (c : ℕ) (ts : List Str)
      → member c separators ≡ true
      → All (λ t. is_token separators t ≡ true) ts
      → b.tokenize separators (terminated_by c ts) ≡ ts
  pub trim : (s : Str) → starts_bare s ≡ true → ends_bare s ≡ true → b.trim s ≡ s
