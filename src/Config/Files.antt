-- ===== src/Config/Files.antt =====
-- The loop that reads a file in `load_config` and `load_friends_list` of Config.cpp.
use spatter.Messages.Str.{Str}
use spatter.Prelude.{
  ℕ, zero, suc, ◌<◌, ◌≡◌, refl, false, [], ◌∷◌, ◌++◌, append-nil, length, take, drop, ◌==◌, leb,
  if◌then◌else◌, Bool-cases, inl, inr, Outcome, ok, fault, endless, out_of_bounds, arith,
}

-- `sizeof(buff)`
abbrev pub buffer_size : ℕ
buffer_size = 512

-- `confString += buff` takes the characters before the first NUL.
unfoldable pub until_nul : Str → Str
until_nul [] = []
until_nul (c ∷ s) = let rest = until_nul s in if c == 0 then [] else c ∷ rest

-- `buff[f.gcount()] = 0` is a write behind the array's end if the buffer has been filled. A `read` that
-- gets nothing ends the loop.
unfoldable pub read_rounds : ℕ → ℕ → Str → Str → Outcome Str
read_rounds size zero content text = fault endless
read_rounds size (suc n) [] text = ok text
read_rounds size (suc n) (c ∷ content) text =
    let chunk = take size (c ∷ content) in
    let rest = read_rounds size n (drop size (c ∷ content)) (text ++ until_nul chunk) in
    if length chunk == size then fault out_of_bounds else rest

-- With one round for each character and one for the end.
unfoldable pub read_file : Str → Outcome Str
unfolding read_rounds
read_file content = read_rounds buffer_size (suc (length content)) content []

length-take : (n : ℕ) (s : Str) → (length (take n s) == n) ≡ leb n (length s)
length-take zero [] = refl
length-take zero (c ∷ s) = ground arith
length-take (suc n) [] = ground arith
length-take (suc n) (c ∷ s) = ground (arith, length-take n s)

take_all : (n : ℕ) (s : Str) → leb n (length s) ≡ false → (take n s ≡ s) × (drop n s ≡ [])
take_all zero [] h = (refl, refl)
take_all zero (c ∷ s) h = absurd (ground arith)
take_all (suc n) [] h = (refl, refl)
take_all (suc n) (c ∷ s) h = ground (arith, take_all n s)

read_rounds_lem :
    (size n : ℕ) (content text : Str)
    → length content < n
    → 0 < size
    → read_rounds size n content text
      ≡ (if leb size (length content) then fault out_of_bounds else ok (text ++ until_nul content))
unfolding read_rounds until_nul
read_rounds_lem size zero content text h k = absurd (omega arith)
read_rounds_lem size (suc n) [] text h k = ground (arith, append-nil text)
read_rounds_lem size (suc zero) (c ∷ content) text h k = absurd (omega arith)
read_rounds_lem size (suc (suc n)) (c ∷ content) text h k =
    elim (Bool-cases (leb size (length (c ∷ content)))) [
      | inl full ↦ rw (full, length-take size (c ∷ content), full) refl
      | inr fits ↦
          let (all, none_left) = take_all size (c ∷ content) fits in
          rw (fits, length-take size (c ∷ content), fits, none_left, all) refl
    ]

-- The rounds suffice for every file: reading ends, with the text up to the first NUL if the file is
-- shorter than the buffer, and with a write behind the buffer if it is not.
pub read_file_ends :
    (content : Str)
    → read_file content
      ≡ (if leb buffer_size (length content) then fault out_of_bounds else ok (until_nul content))
unfolding read_file
read_file_ends content =
    read_rounds_lem buffer_size (suc (length content)) content [] (omega arith) (omega arith)
