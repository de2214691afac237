-- ===== src/Config/Settled.antt =====
-- What asking for parameters leaves of a configuration, Config.cpp.
use spatter.Boost.{Boost}
use spatter.Config.{
  Config, Props, find_prop, assign_prop, get_param, load_line, load_lines, load_config,
  line_separators, is_comment, split_equals,
}
use spatter.Config.Files.{read_file}
use spatter.Config.RoundTrip.{DistinctNames}
use spatter.Messages.Str.{Str, str_eq, str_eq_refl, str_eq_iff}
use spatter.Prelude.{
  ◌≡◌, refl, ◌∙◌, Bool, true, false, List, [], ◌∷◌, any, Option, none, some, Option-cases,
  Bool-cases, inl, inr, Outcome, ok, fault, thrown, OnOk, OnOk-known, OnOk-ok, if◌then◌else◌, arith,
}

-- The later configuration has the file names, the files and the parameters of the earlier one.
pub record Settled (c d : Config) : Type 0 where
  pub config_file : d.config_file ≡ c.config_file
  pub files : d.files ≡ c.files
  pub props :
      (key value : Str) → find_prop key c.props ≡ some value → find_prop key d.props ≡ some value

pub Settled-refl : (c : Config) → Settled c c
Settled-refl c = record { config_file = refl; files = refl; props = λ key value h. h }

pub Settled-trans : (c d e : Config) → Settled c d → Settled d e → Settled c e
Settled-trans c d e u v = record {
  config_file = v.config_file ∙ u.config_file;
  files = v.files ∙ u.files;
  props = λ key value h. v.props key value (u.props key value h);
}

find_prop-assign_prop :
    (key k v : Str) (m : Props)
    → find_prop key (assign_prop k v m) ≡ (if str_eq k key then some v else find_prop key m)
unfolding find_prop assign_prop
find_prop-assign_prop key k v [] = refl
find_prop-assign_prop key k v ((j, w) ∷ m) =
    ground
      (arith, find_prop-assign_prop key k v m, str_eq_iff j k, str_eq_iff k key, str_eq_iff j key)

none_not_some : {o : Option Str} {value : Str} → o ≡ none → o ≡ some value → ⊥
none_not_some h k = cc

kept :
    (key k value : Str) (m : Props)
    → find_prop k m ≡ none
    → find_prop key m ≡ some value
    → find_prop key (assign_prop k [] m) ≡ some value
kept key k value m missing h = elim (Bool-cases (str_eq k key)) [
  | inl same ↦ let e = (str_eq_iff k key).0 same in absurd (none_not_some (rw e at missing) h)
  | inr other ↦ find_prop-assign_prop key k [] m ∙ rw other h
]

get_param_absent :
    (key : Str) (c : Config)
    → find_prop key c.props ≡ none
    → get_param key c ≡ ([], record c { props = assign_prop key [] c.props })
unfolding get_param
get_param_absent key c e = rw (get_param, e) refl

pub get_param_present :
    (key value : Str) (c : Config)
    → find_prop key c.props ≡ some value
    → get_param key c ≡ (value, c)
unfolding get_param
get_param_present key value c e = rw (get_param, e) refl

-- What it is given as is in the table.
pub same_value :
    (key : Str) (c d : Config) → c.props ≡ d.props → (get_param key d).0 ≡ (get_param key c).0
same_value key c d e = elim (Option-cases (find_prop key c.props)) [
  | inl missing ↦ rw (get_param_absent key c missing, get_param_absent key d (rw e at missing)) refl
  | inr (value, there) ↦
      rw (get_param_present key value c there, get_param_present key value d (rw e at there)) refl
]

-- What a parameter is given as, it is then set to.
pub get_param-Settled :
    (key : Str) (c : Config)
    → (find_prop key (get_param key c).1.props ≡ some (get_param key c).0)
      × Settled c (get_param key c).1
get_param-Settled key c = elim (Option-cases (find_prop key c.props)) [
  | inl missing ↦ rw (get_param_absent key c missing) (
    find_prop-assign_prop key key [] c.props ∙ rw (str_eq_refl key) refl,
    record { config_file = refl; files = refl; props = λ k v h. kept k key v c.props missing h },
  )
  | inr (value, there) ↦ rw (get_param_present key value c there) (there, Settled-refl c)
]

any-assign_prop :
    (x k v : Str) (m : Props)
    → any (λ e. str_eq x e.0) m ≡ false
    → str_eq x k ≡ false
    → any (λ e. str_eq x e.0) (assign_prop k v m) ≡ false
unfolding assign_prop
any-assign_prop x k v [] h o = ground arith
any-assign_prop x k v ((j, w) ∷ m) h o = ground (arith, any-assign_prop x k v m)

assign_prop-DistinctNames :
    (k v : Str) (m : Props) → DistinctNames m → DistinctNames (assign_prop k v m)
unfolding assign_prop
assign_prop-DistinctNames k v [] d = (refl, tt)
assign_prop-DistinctNames k v ((j, w) ∷ m) d = elim (Bool-cases (str_eq j k)) [
  | inl same ↦ rw same (d.0, d.1)
  | inr other ↦ rw other (any-assign_prop j k v m d.0 other, assign_prop-DistinctNames k v m d.1)
]

pub get_param-DistinctNames :
    (key : Str) (c : Config) → DistinctNames c.props → DistinctNames (get_param key c).1.props
get_param-DistinctNames key c d = elim (Option-cases (find_prop key c.props)) [
  | inl missing ↦ rw (get_param_absent key c missing) (assign_prop-DistinctNames key [] c.props d)
  | inr (value, there) ↦ rw (get_param_present key value c there) d
]

load_line-DistinctNames :
    (trim : Str → Str) (line : Str) (m : Props)
    → DistinctNames m
    → OnOk DistinctNames (load_line trim line m)
unfolding load_line
load_line-DistinctNames trim line m d =
    let parts : Option (Str × Str) → Outcome Props = λ o. elim o [
      | none ↦ fault thrown
      | some ([], value) ↦ ok m
      | some (c ∷ param, value) ↦ ok (assign_prop (trim (c ∷ param)) (trim value) m)
    ] in
    elim (is_comment line)
      as (λ b. OnOk DistinctNames (if b then ok m else parts (split_equals line))) [
        | true ↦ d
        | false ↦ elim (split_equals line) as (λ o. OnOk DistinctNames (parts o)) [
          | none ↦ tt
          | some ([], value) ↦ d
          | some (c ∷ param, value) ↦ assign_prop-DistinctNames (trim (c ∷ param)) (trim value) m d
        ]
      ]

load_lines-DistinctNames :
    (trim : Str → Str) (lines : List Str) (m : Props)
    → DistinctNames m
    → OnOk DistinctNames (load_lines trim lines m)
unfolding load_lines
load_lines-DistinctNames trim [] m d = d
load_lines-DistinctNames trim (line ∷ lines) m d =
    OnOk-known DistinctNames (load_line trim (trim line) m) _ (λ m' e.
      load_lines-DistinctNames trim lines m'
        (OnOk-ok DistinctNames _ m' e (load_line-DistinctNames trim (trim line) m d)))

-- What `load_config` leaves.
pub record Loaded (file : Str) (c d : Config) : Type 0 where
  pub config_file : d.config_file ≡ file
  pub files : d.files ≡ c.files
  pub distinct : DistinctNames d.props

pub load_config-Loaded :
    (b : Boost) (file : Str) (c d : Config) (found : Bool)
    → DistinctNames c.props
    → load_config b file c ≡ ok (found, d)
    → Loaded file c d
unfolding load_config
load_config-Loaded b file c d found v e =
    OnOk-ok (λ (x : Bool × Config). Loaded file c x.1) (load_config b file c) (found, d) e
      (OnOk-known (λ (x : Bool × Config). Loaded file c x.1) (read_file (c.files file)) _
        (λ text r.
          OnOk-known (λ (x : Bool × Config). Loaded file c x.1)
            (load_lines b.trim (b.tokenize line_separators text) c.props) _
            (λ m l. record {
              config_file = refl;
              files = refl;
              distinct = OnOk-ok DistinctNames _ m l (load_lines-DistinctNames b.trim _ c.props v);
            })))
