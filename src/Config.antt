-- ===== src/Config.antt =====
-- Config.cpp: the parameters that are read from a file and written back, and the list of friends.
pub mod Files
pub mod RoundTrip
pub mod Friends
pub mod Lines
pub mod Settled
use spatter.Boost.{Boost, codes}
use spatter.Messages.Str.{Str, str_eq}
use spatter.Prelude.{
  ℕ, ◌<◌, ◌≡◌, Bool, true, false, List, [], ◌∷◌, ◌++◌, Option, none, some, ltb, ◌==◌, length, map,
  if◌then◌else◌, Outcome, ok, fault, thrown, ◌>>=◌,
}
use Files.{read_file}

abbrev pub Props : Type 0
Props = List (Str × Str)

-- The globals `configFile` and `props`, and the files, by what a stream that reads them gives: nothing
-- if there is no such file.
pub record Config : Type 0 where
  pub config_file : Str
  pub props : Props
  pub files : Str → Str

-- `props[key]`, as what it holds, and with `value` put there.
unfoldable pub find_prop : Str → Props → Option Str
find_prop key [] = none
find_prop key ((k, v) ∷ m) = if str_eq k key then some v else find_prop key m

unfoldable pub assign_prop : Str → Str → Props → Props
assign_prop key value [] = (key, value) ∷ []
assign_prop key value ((k, v) ∷ m) =
    if str_eq k key then (k, value) ∷ m else (k, v) ∷ assign_prop key value m

-- A key that is missing is inserted with the empty text, and that is the result.
unfoldable pub get_param : Str → Config → Str × Config
unfolding find_prop assign_prop
get_param key c = elim (find_prop key c.props) [
  | some value ↦ (value, c)
  | none ↦ ([], record c { props = assign_prop key [] c.props })
]

-- `find_first_of('=', 0)`: what stands before and behind it.
unfoldable pub split_equals : Str → Option (Str × Str)
split_equals [] = none
split_equals (c ∷ s) = elim (c == b'=') [
  | true ↦ some ([], s)
  | false ↦ elim (split_equals s) [ none ↦ none | some (k, v) ↦ some (c ∷ k, v) ]
]

-- `line.c_str()[0] == '#'`
abbrev pub is_comment : Str → Bool
is_comment [] = false
is_comment (c ∷ s) = c == b'#'

-- One line. Where there is no `=` the position is `npos`, which is above 0, and the constructor of
-- `param` throws for that length.
unfoldable pub load_line : (Str → Str) → Str → Props → Outcome Props
unfolding split_equals assign_prop
load_line trim line m = if is_comment line then ok m else elim (split_equals line) [
  | none ↦ fault thrown
  | some ([], value) ↦ ok m
  | some (c ∷ param, value) ↦ ok (assign_prop (trim (c ∷ param)) (trim value) m)
]

unfoldable pub load_lines : (Str → Str) → List Str → Props → Outcome Props
unfolding load_line
load_lines trim [] m = ok m
load_lines trim (line ∷ lines) m = load_line trim (trim line) m >>= λ m'. load_lines trim lines m'

abbrev pub line_separators : Str
line_separators = b'\n' ∷ []

unfoldable pub load_config : Boost → Str → Config → Outcome (Bool × Config)
unfolding load_lines read_file
load_config b file c = do
  text ← read_file (c.files file)
  m ← load_lines b.trim (b.tokenize line_separators text) c.props
  ok (ltb 0 (length m), record c { config_file = file; props = m })

abbrev pub prop_line : Str × Str → Str
prop_line (k, v) = k ++ (b'=' ∷ v)

-- The entries, in the order in which the loop over the map comes to them.
unfoldable pub saved_text : Props → Str
saved_text [] = []
saved_text (e ∷ m) = prop_line e ++ (b'\n' ∷ saved_text m)

-- `order` gives the entries of the table in the order in which a loop over the map comes to them. `opens` says whether the file can be written; if not, what is put to the stream is lost.
unfoldable pub save_config : (Props → Props) → (Str → Bool) → Config → Bool × Config
unfolding saved_text
save_config order opens c = (
  true,
  if opens c.config_file
      then record c {
        files = λ f. if str_eq f c.config_file then saved_text (order c.props) else c.files f;
      }
      else c,
)
