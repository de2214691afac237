-- ===== src/Config/RoundTrip.antt =====
-- What `save_config` of Config.cpp writes, `load_config` reads.
use spatter.Boost.{Boost, IsDocumented, starts_bare, ends_bare, terminated_by, is_token, member}
use spatter.Config.{
  Config, Props, find_prop, assign_prop, split_equals, is_comment, load_line, load_lines,
  line_separators, load_config, prop_line, saved_text, save_config,
}
use spatter.Config.Files.{read_file, read_file_ends, until_nul, buffer_size}
use spatter.Messages.Str.{Str, str_eq, str_eq_refl}
use spatter.Prelude.{
  ℕ, ◌<◌, ◌≡◌, ◌≢◌, refl, ◌∙◌, ap, Bool, true, false, ◌||◌, not, [], ◌∷◌, ◌++◌, some, any, All,
  All-mono, All-map, append-nil, append_assoc, ltb, ◌==◌, length, map, ok, arith,
}

-- No character of the text is a NUL or ends a line.
abbrev is_plain : Str → Bool
is_plain s = not (any (λ c. (c == 0) || (c == b'\n')) s)

-- A parameter that can be written as a line: its name is not empty, has no `=` and does not start like
-- a comment, and neither text has spaces at its ends or a NUL or the end of a line in it.
pub record IsEntry (e : Str × Str) : Type 0 where
  pub named : e.0 ≢ []
  pub no_equals : any (λ c. c == b'=') e.0 ≡ false
  pub no_comment : is_comment e.0 ≡ false
  pub plain_name : is_plain e.0 ≡ true
  pub plain_value : is_plain e.1 ≡ true
  pub bare_name : (starts_bare e.0 ≡ true) × (ends_bare e.0 ≡ true)
  pub bare_value : (starts_bare e.1 ≡ true) × (ends_bare e.1 ≡ true)

-- No two of the parameters have the same name.
abbrev pub DistinctNames : Props → Type 0
DistinctNames [] = Unit {0}
DistinctNames ((k, v) ∷ m) = (any (λ e. str_eq k e.0) m ≡ false) × DistinctNames m

-- The second list has the entries of the first, in an order of its own.
pub record IsReordered (m m' : Props) : Type 0 where
  pub distinct : DistinctNames m → DistinctNames m'
  pub same : (k : Str) → find_prop k m' ≡ find_prop k m

split_equals-prop_line :
    (k v : Str) → any (λ c. c == b'=') k ≡ false → split_equals (prop_line (k, v)) ≡ some (k, v)
unfolding split_equals
split_equals-prop_line [] v h = refl
split_equals-prop_line (c ∷ k) v h = ground (arith, split_equals-prop_line k v)

is_comment-prop_line :
    (k v : Str) → k ≢ [] → is_comment k ≡ false → is_comment (prop_line (k, v)) ≡ false
is_comment-prop_line [] v n h = absurd (n refl)
is_comment-prop_line (c ∷ k) v n h = h

starts_bare-prop_line :
    (k v : Str) → k ≢ [] → starts_bare k ≡ true → starts_bare (prop_line (k, v)) ≡ true
unfolding starts_bare
starts_bare-prop_line [] v n h = absurd (n refl)
starts_bare-prop_line (c ∷ k) v n h = h

ends_bare-append : (s t : Str) (c : ℕ) → ends_bare (c ∷ t) ≡ true → ends_bare (s ++ (c ∷ t)) ≡ true
unfolding ends_bare
ends_bare-append [] t c h = h
ends_bare-append (x ∷ []) t c h = h
ends_bare-append (x ∷ y ∷ s) t c h = ends_bare-append (y ∷ s) t c h

ends_bare-prop_line : (k v : Str) → ends_bare v ≡ true → ends_bare (prop_line (k, v)) ≡ true
unfolding ends_bare
ends_bare-prop_line k [] h = ends_bare-append k [] b'=' refl
ends_bare-prop_line k (c ∷ v) h = ends_bare-append k (c ∷ v) b'=' h

any-append_false :
    (f : ℕ → Bool) (s t : Str) → any f s ≡ false → any f t ≡ false → any f (s ++ t) ≡ false
any-append_false f [] t h k = k
any-append_false f (c ∷ s) t h k = ground (arith, any-append_false f s t)

is_plain-prop_line :
    (k v : Str) → is_plain k ≡ true → is_plain v ≡ true → is_plain (prop_line (k, v)) ≡ true
is_plain-prop_line k v h i =
    ground (arith, any-append_false (λ c. (c == 0) || (c == b'\n')) k (b'=' ∷ v))

-- A line of such a parameter is one token.
any-both :
    (f g : ℕ → Bool) (s : Str)
    → ((c : ℕ) → g c ≡ true → f c ≡ true)
    → any f s ≡ false
    → any g s ≡ false
any-both f g [] w h = refl
any-both f g (c ∷ s) w h = ground (arith, w c, any-both f g s w)

is_token-plain :
    (c : ℕ) (s : Str) → is_plain (c ∷ s) ≡ true → is_token line_separators (c ∷ s) ≡ true
is_token-plain c s h = ground (
  arith,
  any-both (λ x. (x == 0) || (x == b'\n')) (λ x. member x line_separators) (c ∷ s)
      (λ x e. ground arith),
)

is_token-prop_line : (e : Str × Str) → IsEntry e → is_token line_separators (prop_line e) ≡ true
is_token-prop_line ([], v) w = absurd (w.named refl)
is_token-prop_line (c ∷ k, v) w =
    is_token-plain c (k ++ (b'=' ∷ v)) (is_plain-prop_line (c ∷ k) v w.plain_name w.plain_value)

-- The text of the file.
saved_text-terminated_by : (m : Props) → saved_text m ≡ terminated_by b'\n' (map prop_line m)
unfolding saved_text
saved_text-terminated_by [] = refl
saved_text-terminated_by (e ∷ m) = rw (saved_text-terminated_by m)

until_nul-append : (s t : Str) → any (λ c. c == 0) s ≡ false → until_nul (s ++ t) ≡ s ++ until_nul t
unfolding until_nul
until_nul-append [] t h = refl
until_nul-append (c ∷ s) t h = ground (arith, until_nul-append s t)

no_nul : (s : Str) → is_plain s ≡ true → any (λ c. c == 0) s ≡ false
no_nul s h =
    any-both (λ x. (x == 0) || (x == b'\n')) (λ x. x == 0) s (λ x e. ground arith) (ground arith)

until_nul-saved_text : (m : Props) → All IsEntry m → until_nul (saved_text m) ≡ saved_text m
unfolding until_nul saved_text
until_nul-saved_text [] w = refl
until_nul-saved_text ((k, v) ∷ m) w =
    until_nul-append (prop_line (k, v)) (b'\n' ∷ saved_text m)
      (no_nul (prop_line (k, v)) (is_plain-prop_line k v w.0.plain_name w.0.plain_value))
    ∙ rw (until_nul-saved_text m w.1)

-- Names that are new go to the end.
assign_prop-new :
    (k v : Str) (m : Props)
    → any (λ e. str_eq e.0 k) m ≡ false
    → assign_prop k v m ≡ m ++ ((k, v) ∷ [])
unfolding assign_prop
assign_prop-new k v [] h = refl
assign_prop-new k v ((j, w) ∷ m) h = ground (arith, assign_prop-new k v m)

load_line_parts :
    (trim : Str → Str) (line : Str) (c : ℕ) (k v : Str) (m : Props)
    → is_comment line ≡ false
    → split_equals line ≡ some (c ∷ k, v)
    → load_line trim line m ≡ ok (assign_prop (trim (c ∷ k)) (trim v) m)
unfolding load_line
load_line_parts trim line c k v m h e = rw (h, e)

any-last :
    (k : Str) (seen : Props) (j v : Str)
    → any (λ x. str_eq x.0 k) seen ≡ false
    → str_eq j k ≡ false
    → any (λ x. str_eq x.0 k) (seen ++ ((j, v) ∷ [])) ≡ false
any-last k [] j v h e = ground arith
any-last k (x ∷ seen) j v h e = ground (arith, any-last k seen j v)

still_new :
    (k v : Str) (seen m : Props)
    → any (λ e. str_eq k e.0) m ≡ false
    → All (λ e. any (λ x. str_eq x.0 e.0) seen ≡ false) m
    → All (λ e. any (λ x. str_eq x.0 e.0) (seen ++ ((k, v) ∷ [])) ≡ false) m
still_new k v seen [] h n = tt
still_new k v seen (e ∷ m) h n =
    (any-last e.0 seen k v n.0 (ground arith), still_new k v seen m (ground arith) n.1)

module _ (b : Boost) (d : IsDocumented b) where
  load_line-prop_line :
      (e : Str × Str) (m : Props)
      → IsEntry e
      → load_line b.trim (b.trim (prop_line e)) m ≡ ok (assign_prop e.0 e.1 m)
  load_line-prop_line ([], v) m w = absurd (w.named refl)
  load_line-prop_line (c ∷ k, v) m w =
      ap (λ (x : Str). load_line b.trim x m)
        (d.trim (prop_line (c ∷ k, v)) (starts_bare-prop_line (c ∷ k) v w.named w.bare_name.0)
          (ends_bare-prop_line (c ∷ k) v w.bare_value.1))
      ∙ load_line_parts b.trim (prop_line (c ∷ k, v)) c k v m
          (is_comment-prop_line (c ∷ k) v w.named w.no_comment)
          (split_equals-prop_line (c ∷ k) v w.no_equals)
      ∙ rw (d.trim (c ∷ k) w.bare_name.0 w.bare_name.1, d.trim v w.bare_value.0 w.bare_value.1)

  -- Each name of `m` is new for `seen`, which stands in front.
  load_lines-prop_line :
      (m seen : Props)
      → All IsEntry m
      → DistinctNames m
      → All (λ e. any (λ x. str_eq x.0 e.0) seen ≡ false) m
      → load_lines b.trim (map prop_line m) seen ≡ ok (seen ++ m)
  unfolding load_lines
  load_lines-prop_line [] seen w u n = rw (append-nil seen)
  load_lines-prop_line ((k, v) ∷ m) seen w u n =
      let taken : load_line b.trim (b.trim (prop_line (k, v))) seen ≡ ok (seen ++ ((k, v) ∷ [])) =
        load_line-prop_line (k, v) seen w.0 ∙ ap ok (assign_prop-new k v seen n.0) in
      rw taken (
        load_lines-prop_line m (seen ++ ((k, v) ∷ [])) w.1 u.1 (still_new k v seen m u.0 n.1)
        ∙ ap ok (append_assoc seen ((k, v) ∷ []) m))

-- Writing the parameters and reading them back.
module _ (b : Boost) (d : IsDocumented b) where
  saved_lines :
      (m : Props) → All IsEntry m → b.tokenize line_separators (saved_text m) ≡ map prop_line m
  saved_lines m w =
      ap (b.tokenize line_separators) (saved_text-terminated_by m)
      ∙ d.tokenize line_separators b'\n' (map prop_line m) refl (
          All-map prop_line IsEntry (λ t. is_token line_separators t ≡ true) m is_token-prop_line w)

  read_saved :
      (m : Props)
      → All IsEntry m
      → length (saved_text m) < buffer_size
      → read_file (saved_text m) ≡ ok (saved_text m)
  read_saved m w n = read_file_ends (saved_text m) ∙ ground (arith, until_nul-saved_text m w)

  -- In the order in which the entries are written.
  pub load_config-save_config :
      (order : Props → Props) (opens : Str → Bool) (c : Config)
      → opens c.config_file ≡ true
      → DistinctNames (order c.props)
      → All IsEntry (order c.props)
      → length (saved_text (order c.props)) < buffer_size
      → let saved = (save_config order opens c).1 in
        load_config b c.config_file (record saved { props = [] })
        ≡ ok (ltb 0 (length (order c.props)), record saved { props = order c.props })
  unfolding load_config save_config
  load_config-save_config order opens c o u w n =
      let m = order c.props in
      rw (o, str_eq_refl c.config_file)
        (rw (read_saved m w n, saved_lines m w)
          (rw (load_lines-prop_line b d m [] w u (All-mono IsEntry _ m (λ e h. refl) w))))

  -- What `save_config` writes, `load_config` reads back, in whatever order the map gives its entries: a
  -- program that loads the file into an empty table succeeds, and finds under every name what there was,
  -- the parameter's value or none. This is for a table that has no name twice, an order that gives its
  -- entries, a file that can be written, parameters that can be written as lines, and a text shorter
  -- than the buffer.
  pub load_config-save_config_any :
      (order : Props → Props) (opens : Str → Bool) (c : Config)
      → opens c.config_file ≡ true
      → DistinctNames c.props
      → IsReordered c.props (order c.props)
      → All IsEntry (order c.props)
      → length (saved_text (order c.props)) < buffer_size
      → let saved = (save_config order opens c).1 in
        (c' : Config) × (load_config b c.config_file (record saved { props = [] })
          ≡ ok (ltb 0 (length (order c.props)), c'))
        × ((k : Str) → find_prop k c'.props ≡ find_prop k c.props)
  load_config-save_config_any order opens c o u r w n =
      (_, load_config-save_config order opens c o (r.distinct u) w n, r.same)
