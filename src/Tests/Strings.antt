-- ===== src/Tests/Strings.antt =====
-- Tokenizing, splitting and trimming as boost documents it, for the examples.
use spatter.Boost.{
  Boost, IsDocumented, member, is_space, starts_bare, ends_bare, terminated_by, is_token,
}
use spatter.Messages.Str.{Str}
use spatter.Prelude.{
  ℕ, ◌+◌, ◌*◌, ◌-◌, ◌^◌, ◌≡◌, refl, ◌∙◌, ap, Bool, true, false, not, ◌&&◌, List, [], ◌∷◌, ◌++◌,
  append_assoc, append-nil, any, leb, ltb, Option, none, some, All, if◌then◌else◌, arith,
}

-- `token` has been read of the current token.
unfoldable pub tokens_from : Str → Str → Str → List Str
tokens_from separators [] [] = []
tokens_from separators (x ∷ token) [] = (x ∷ token) ∷ []
tokens_from separators [] (c ∷ s) =
    if member c separators then tokens_from separators [] s else tokens_from separators (c ∷ []) s
tokens_from separators (x ∷ token) (c ∷ s) =
    if member c separators
    then (x ∷ token) ∷ tokens_from separators [] s
    else tokens_from separators (x ∷ (token ++ (c ∷ []))) s

unfoldable pub split_from : Str → Str → Str → List Str
split_from separators part [] = part ∷ []
split_from separators part (c ∷ s) =
    if member c separators
    then part ∷ split_from separators [] s
    else split_from separators (part ++ (c ∷ [])) s

unfoldable pub trim_start : Str → Str
trim_start [] = []
trim_start (c ∷ s) = if is_space c then trim_start s else c ∷ s

abbrev unless_blank : ℕ → Str → Str
unless_blank c [] = if is_space c then [] else c ∷ []
unless_blank c (d ∷ s) = c ∷ d ∷ s

unfoldable pub trim_end : Str → Str
trim_end [] = []
trim_end (c ∷ s) = unless_blank c (trim_end s)

-- The number of a decimal text, from the digits read so far.
unfoldable pub number_from : ℕ → Str → Option ℕ
number_from n [] = some n
number_from n (c ∷ s) =
    if leb b'0' c && leb c b'9' then number_from (n * 10 + (c - b'0')) s else none

abbrev cast : ℕ → Str → Option ℕ
cast bits [] = none
cast bits (c ∷ s) = elim (number_from 0 (c ∷ s)) [
  | none ↦ none
  | some n ↦ if ltb n (2 ^ bits) then some n else none
]

abbrev pub string_boost : Boost
string_boost = record {
  tokenize = λ separators s. tokens_from separators [] s;
  split = λ separators s. split_from separators [] s;
  trim = λ s. trim_end (trim_start s);
  lexical_cast = cast;
}

any_head : (f : ℕ → Bool) (c : ℕ) (s : Str) → any f (c ∷ s) ≡ false → f c ≡ false
any_head f c s h = ground arith

any_tail : (f : ℕ → Bool) (c : ℕ) (s : Str) → any f (c ∷ s) ≡ false → any f s ≡ false
any_tail f c s h = ground arith

untrue : (b : Bool) → not b ≡ true → b ≡ false
untrue b h = ground arith

tokens_from-begun :
    (separators token t rest : Str) (x c : ℕ)
    → any (λ y. member y separators) t ≡ false
    → member c separators ≡ true
    → tokens_from separators (x ∷ token) (t ++ (c ∷ rest))
      ≡ (x ∷ (token ++ t)) ∷ tokens_from separators [] rest
unfolding tokens_from
tokens_from-begun separators token [] rest x c h m = rw (m, append-nil token) refl
tokens_from-begun separators token (y ∷ t) rest x c h m =
    rw (any_head (λ z. member z separators) y t h) (
      tokens_from-begun separators (token ++ (y ∷ [])) t rest x c
        (any_tail (λ z. member z separators) y t h) m
      ∙ ap (λ l. (x ∷ l) ∷ tokens_from separators [] rest) (append_assoc token (y ∷ []) t))

tokens_from-terminated_by :
    (separators : Str) (c : ℕ) (ts : List Str)
    → member c separators ≡ true
    → All (λ t. is_token separators t ≡ true) ts
    → tokens_from separators [] (terminated_by c ts) ≡ ts
unfolding tokens_from
tokens_from-terminated_by separators c [] m w = refl
tokens_from-terminated_by separators c ([] ∷ ts) m w = absurd (ground (arith, w.0))
tokens_from-terminated_by separators c ((x ∷ t) ∷ ts) m w =
    let clean : any (λ z. member z separators) (x ∷ t) ≡ false =
      untrue (any (λ z. member z separators) (x ∷ t)) w.0 in
    rw (any_head (λ z. member z separators) x t clean) (
      tokens_from-begun separators [] t (terminated_by c ts) x c
        (any_tail (λ z. member z separators) x t clean) m
      ∙ ap (◌∷◌ (x ∷ t)) (tokens_from-terminated_by separators c ts m w.1))

trim_start-bare : (s : Str) → starts_bare s ≡ true → trim_start s ≡ s
unfolding trim_start starts_bare
trim_start-bare [] h = refl
trim_start-bare (c ∷ s) h = ground arith

trim_end-bare : (s : Str) → ends_bare s ≡ true → trim_end s ≡ s
unfolding trim_end ends_bare
trim_end-bare [] h = refl
trim_end-bare (c ∷ []) h = ground arith
trim_end-bare (c ∷ d ∷ s) h = ap (unless_blank c) (trim_end-bare (d ∷ s) h)

pub string_boost-IsDocumented : IsDocumented string_boost
string_boost-IsDocumented = record {
  tokenize = tokens_from-terminated_by;
  trim = λ s h k. ap trim_end (trim_start-bare s h) ∙ trim_end-bare s k;
}
