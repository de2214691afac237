-- ===== src/Config/Lines.antt =====
-- The lines and parameters of Config.cpp that go wrong.
use spatter.Boost.{Boost}
use spatter.Config.{
  Config, Props, find_prop, assign_prop, get_param, split_equals, is_comment, load_line, load_lines,
  line_separators, load_config, saved_text,
}
use spatter.Config.Files.{read_file}
use spatter.Messages.Str.{Str, str_eq_refl}
use spatter.Prelude.{
  ◌≡◌, refl, ◌∙◌, ap, false, List, [], ◌∷◌, ◌++◌, append_assoc, none, some, any, ◌==◌, ok, fault,
  thrown, ◌>>=◌, arith,
}

split_equals-none : (s : Str) → any (λ c. c == b'=') s ≡ false → split_equals s ≡ none
unfolding split_equals
split_equals-none [] h = refl
split_equals-none (c ∷ s) h = ground (arith, split_equals-none s)

load_lines-append :
    (trim : Str → Str) (l k : List Str) (m : Props)
    → load_lines trim (l ++ k) m ≡ (load_lines trim l m >>= load_lines trim k)
unfolding load_lines
load_lines-append trim [] k m = refl
load_lines-append trim (x ∷ l) k m =
    elim (load_line trim (trim x) m)
      as (λ o.
        (o >>= load_lines trim (l ++ k)) ≡ ((o >>= load_lines trim l) >>= load_lines trim k)) [
          | ok m' ↦ load_lines-append trim l k m'
          | fault e ↦ refl
        ]

-- A line that, once trimmed, is no comment and has no `=` makes `load_config` throw, if the file
-- can be read and the lines before it are taken in.
pub load_config_throws :
    (b : Boost) (file : Str) (c : Config) (text line : Str) (before after : List Str) (m : Props)
    → read_file (c.files file) ≡ ok text
    → b.tokenize line_separators text ≡ before ++ (line ∷ after)
    → load_lines b.trim before c.props ≡ ok m
    → is_comment (b.trim line) ≡ false
    → any (λ x. x == b'=') (b.trim line) ≡ false
    → load_config b file c ≡ fault thrown
unfolding load_config load_line
load_config_throws b file c text line before after m r t k h n =
    let bad : load_lines b.trim (line ∷ after) m ≡ fault thrown =
      unfold load_lines in rw (h, split_equals-none (b.trim line) n) in
    rw (r, t, load_lines-append b.trim before (line ∷ after) c.props, k, bad)

assign_prop-missing :
    (key : Str) (m : Props) → find_prop key m ≡ none → assign_prop key [] m ≡ m ++ ((key, []) ∷ [])
unfolding find_prop assign_prop
assign_prop-missing key [] h = refl
assign_prop-missing key ((k, v) ∷ m) h = ground (arith, assign_prop-missing key m)

saved_text-append : (l m : Props) → saved_text (l ++ m) ≡ saved_text l ++ saved_text m
unfolding saved_text
saved_text-append [] m = refl
saved_text-append (e ∷ l) m = simp (saved_text-append l m, append_assoc)

find_prop-last :
    (key value : Str) (m : Props)
    → find_prop key m ≡ none
    → find_prop key (m ++ ((key, value) ∷ [])) ≡ some value
unfolding find_prop
find_prop-last key value [] h = rw (str_eq_refl key)
find_prop-last key value ((k, v) ∷ m) h = ground (arith, find_prop-last key value m)

saved_text-one : (k : Str) → saved_text ((k, []) ∷ []) ≡ k ++ (b'=' ∷ b'\n' ∷ [])
unfolding saved_text
saved_text-one k = append_assoc k (b'=' ∷ []) (b'\n' ∷ [])

-- A parameter that is asked for and is missing is given as the empty text, and from then on it is in the
-- table: `save_config` will write a line for it, behind the others.
get_param_missing :
    (key : Str) (c : Config)
    → find_prop key c.props ≡ none
    → let (value, c') = get_param key c in
      (value ≡ [])
      × (find_prop key c'.props ≡ some [])
      × (saved_text c'.props ≡ saved_text c.props ++ (key ++ (b'=' ∷ b'\n' ∷ [])))
unfolding get_param
get_param_missing key c missing =
    rw (missing, get_param)
      (
        refl,
        rw (assign_prop-missing key c.props missing) (find_prop-last key [] c.props missing),
        rw (assign_prop-missing key c.props missing) (
            saved_text-append c.props ((key, []) ∷ [])
            ∙ ap (◌++◌ (saved_text c.props)) (saved_text-one key)),
      )
