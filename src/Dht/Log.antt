-- ===== src/Dht/Log.antt =====
-- What dht/DHT.cpp promises, without the table: the records that have been inserted, in their order.
use spatter.Messages.File.{FileInfo, FileType, file, dir, type_eq, file_eq, file_eq_refl}
use spatter.Messages.Hash.{Hash, hash_eq, hash_eq_left}
use spatter.Messages.Node.{node_eq_left}
use spatter.Messages.Str.{Str, str_eq}
use spatter.Dht.{Dht, new_dht, insert_file_info_record, query}
use spatter.Dht.Table.{lookup}
use spatter.Dht.Queries.{query-insert_file_info_record}
use spatter.Prelude.{
  ℕ, ◌≡◌, refl, sym, ◌∙◌, ap, append-nil, append_assoc, true, false, List, [], ◌∷◌, ◌++◌, any,
  if◌then◌else◌, Bool-cases, inl, inr, arith,
}

-- The records for a key.
unfoldable pub of_key : Hash → List FileInfo → List FileInfo
of_key h [] = []
of_key h (r ∷ l) = let rest = of_key h l in if hash_eq r.key h then r ∷ rest else rest

unfoldable pub without : FileInfo → List FileInfo → List FileInfo
without r [] = []
without r (x ∷ l) = let rest = without r l in if file_eq r x then rest else x ∷ rest

-- Of equal records the first.
unfoldable pub first_ones : List FileInfo → List FileInfo
unfolding without
first_ones [] = []
first_ones (r ∷ l) = r ∷ without r (first_ones l)

-- Calls of `insertFileInfoRecord`, one after the other.
unfoldable pub insert_all : List FileInfo → Dht → Dht
insert_all [] dht = dht
insert_all (r ∷ l) dht = insert_all l (insert_file_info_record dht r)

str_eq_trans : (a b c : Str) → str_eq a b ≡ true → str_eq b c ≡ true → str_eq a c ≡ true
unfolding str_eq
str_eq_trans [] [] c h k = k
str_eq_trans [] (y ∷ b) c h k = absurd (ground arith)
str_eq_trans (x ∷ a) [] c h k = absurd (ground arith)
str_eq_trans (x ∷ a) (y ∷ b) [] h k = absurd (ground arith)
str_eq_trans (x ∷ a) (y ∷ b) (z ∷ c) h k = ground (arith, str_eq_trans a b c)

type_eq_trans : (a b c : FileType) → type_eq a b ≡ true → type_eq b c ≡ true → type_eq a c ≡ true
type_eq_trans file file c h k = k
type_eq_trans file dir c h k = absurd (ground arith)
type_eq_trans dir file c h k = absurd (ground arith)
type_eq_trans dir dir c h k = k

file_eq_trans : (a b c : FileInfo) → file_eq a b ≡ true → file_eq b c ≡ true → file_eq a c ≡ true
unfolding file_eq
file_eq_trans a b c h k = ground (
  arith,
  hash_eq_left a.key b.key c.key,
  node_eq_left a.node b.node c.node,
  str_eq_trans a.path b.path c.path,
  type_eq_trans a.type b.type c.type,
)

-- `push_back` of a record that is not there.
abbrev add : List FileInfo → FileInfo → List FileInfo
add l r = if any (λ x. file_eq x r) l then l else l ++ (r ∷ [])

any-without :
    (x r : FileInfo) (l : List FileInfo)
    → file_eq x r ≡ false
    → any (λ y. file_eq y r) (without x l) ≡ any (λ y. file_eq y r) l
unfolding without
any-without x r [] h = refl
any-without x r (y ∷ l) h = ground (arith, any-without x r l h, file_eq_trans x y r)

without-append :
    (x r : FileInfo) (l : List FileInfo)
    → without x (l ++ (r ∷ [])) ≡ (if file_eq x r then without x l else without x l ++ (r ∷ []))
unfolding without
without-append x r [] = ground arith
without-append x r (y ∷ l) = ground (arith, without-append x r l)

first_ones-append :
    (l : List FileInfo) (r : FileInfo) → first_ones (l ++ (r ∷ [])) ≡ add (first_ones l) r
unfolding first_ones
first_ones-append [] r = ground (arith, file_eq_refl r)
first_ones-append (x ∷ l) r =
    rw (first_ones-append l r)
      (ground (arith, any-without x r (first_ones l), without-append x r (first_ones l)))

of_key-append :
    (h : Hash) (l : List FileInfo) (r : FileInfo)
    → of_key h (l ++ (r ∷ [])) ≡ of_key h l ++ (if hash_eq r.key h then r ∷ [] else [])
unfolding of_key
of_key-append h [] r = ground arith
of_key-append h (x ∷ l) r = ground (arith, of_key-append h l r)

-- The table answers each query as the log does.
abbrev pub Implements : Dht → List FileInfo → Type 0
Implements dht log = (h : Hash) → query dht h ≡ first_ones (of_key h log)

new_dht-Implements :
    (tiger : Str → Hash) (lexical_cast : ℕ → Str) (ip : Str) (port random : ℕ)
    → Implements (new_dht tiger lexical_cast ip port random) []
unfolding new_dht query lookup first_ones of_key
new_dht-Implements tiger lexical_cast ip port random h = refl

insert-Implements :
    (dht : Dht) (log : List FileInfo) (r : FileInfo)
    → Implements dht log
    → Implements (insert_file_info_record dht r) (log ++ (r ∷ []))
unfolding first_ones of_key
insert-Implements dht log r v h = elim (Bool-cases (hash_eq r.key h)) [
  | inl same ↦
      rw (query-insert_file_info_record dht r h, same, v h, of_key-append h log r, same)
        (sym (first_ones-append (of_key h log) r))
  | inr other ↦
      rw
        (
          query-insert_file_info_record dht r h,
          other,
          v h,
          of_key-append h log r,
          other,
          append-nil (of_key h log),
        )
        refl
]

insert_all-Implements :
    (dht : Dht) (log l : List FileInfo)
    → Implements dht log
    → Implements (insert_all l dht) (log ++ l)
unfolding insert_all
insert_all-Implements dht log [] v h = rw (append-nil log) (v h)
insert_all-Implements dht log (r ∷ l) v h =
    insert_all-Implements (insert_file_info_record dht r) (log ++ (r ∷ [])) l
      (insert-Implements dht log r v) h
    ∙ ap (λ k. first_ones (of_key h k)) (append_assoc log (r ∷ []) l)

-- The table implements the log of insertions: after any records have been inserted into a new table, a
-- query gives those of its key, in the order in which they came, of equal ones the first only: all of
-- them, the expired ones too, whatever their `valid_till`.
pub query-insert_all :
    (tiger : Str → Hash) (lexical_cast : ℕ → Str) (ip : Str) (port random : ℕ) (log : List FileInfo)
    (h : Hash)
    → query (insert_all log (new_dht tiger lexical_cast ip port random)) h
      ≡ first_ones (of_key h log)
query-insert_all tiger lexical_cast ip port random log h =
    insert_all-Implements (new_dht tiger lexical_cast ip port random) [] log
      (new_dht-Implements tiger lexical_cast ip port random) h
