-- ===== src/Dht/Queries.antt =====
-- What `query` gives after `insertFileInfoRecord`.
use spatter.Messages.Hash.{Hash, hash_eq, hash_eq_symm, hash_eq_left}
use spatter.Messages.File.{FileInfo, file_eq, file_eq_refl}
use spatter.Dht.{Dht, query, insert_file_info_record}
use spatter.Dht.Table.{
  HashTable, find, lookup, add_record, add_to_entry, has_entry, commit_record, insert_record,
}
use spatter.Prelude.{
  ◌≡◌, refl, Bool, true, false, List, [], ◌∷◌, ◌++◌, any, if◌then◌else◌, Bool-cases, inl, inr,
  arith,
}

-- The entries of the other keys are as they were.
find-add_to_entry :
    (h : Hash) (r : FileInfo) (t : HashTable)
    → lookup h (add_to_entry r t) ≡ (
        if hash_eq r.key h
        then (if has_entry r t then add_record r (lookup h t) else [])
        else lookup h t)
unfolding lookup find add_to_entry has_entry
find-add_to_entry h r [] = ground arith
find-add_to_entry h r ((k, l) ∷ t) = ground (
  arith,
  find-add_to_entry h r t,
  hash_eq_left k r.key h,
  hash_eq_left r.key h k,
  hash_eq_symm k r.key,
  hash_eq_symm h k,
)

pub lookup_absent : (r : FileInfo) (t : HashTable) → has_entry r t ≡ false → lookup r.key t ≡ []
unfolding lookup find has_entry
lookup_absent r [] h = refl
lookup_absent r ((k, l) ∷ t) h = ground (arith, lookup_absent r t)

pub lookup_same_key : (h k : Hash) (t : HashTable) → hash_eq h k ≡ true → lookup h t ≡ lookup k t
unfolding lookup find
lookup_same_key h k [] e = refl
lookup_same_key h k ((j, l) ∷ t) e =
    ground (arith, lookup_same_key h k t e, hash_eq_left h k j, hash_eq_symm h j, hash_eq_symm k j)

-- What the second critical section leaves, by the answer that the first one gave.
pub lookup-commit_record :
    (h : Hash) (b : Bool) (r : FileInfo) (t : HashTable)
    → lookup h (commit_record b r t) ≡ (
        if hash_eq r.key h
        then (if has_entry r t
            then (if b then add_record r (lookup h t) else lookup h t)
            else (if b then [] else r ∷ []))
        else lookup h t)
unfolding commit_record lookup find
lookup-commit_record h true r t = rw (find-add_to_entry h r t) (ground arith)
lookup-commit_record h false r t = ground arith

pub lookup-insert_record :
    (h : Hash) (r : FileInfo) (t : HashTable)
    → lookup h (insert_record r t)
      ≡ (if hash_eq r.key h then add_record r (lookup h t) else lookup h t)
unfolding insert_record add_record
lookup-insert_record h r t = ground (
  arith,
  lookup-commit_record h (has_entry r t) r t,
  lookup_absent r t,
  lookup_same_key r.key h t,
)

-- After `insertFileInfoRecord` the list for the record's key is the one before with the record at
-- its end, or unchanged if it held an equal record. The lists for other keys are unchanged.
pub query-insert_file_info_record :
    (dht : Dht) (r : FileInfo) (h : Hash)
    → query (insert_file_info_record dht r) h ≡ (
        if hash_eq r.key h
        then (if any (λ x. file_eq x r) (query dht h) then query dht h else query dht h ++ r ∷ [])
        else query dht h)
unfolding query insert_file_info_record add_record
query-insert_file_info_record dht r h = lookup-insert_record h r dht.hash_table

any-same :
    (f : FileInfo → Bool) (r : FileInfo) (l : List FileInfo)
    → f r ≡ true
    → any f (l ++ (r ∷ [])) ≡ true
any-same f r [] h = ground arith
any-same f r (x ∷ l) h = ground (arith, any-same f r l h)

-- A record that has been inserted is found.
pub inserted_found :
    (dht : Dht) (r : FileInfo) (h : Hash)
    → hash_eq r.key h ≡ true
    → any (λ x. file_eq x r) (query (insert_file_info_record dht r) h) ≡ true
inserted_found dht r h e = elim (Bool-cases (any (λ x. file_eq x r) (query dht h))) [
  | inl there ↦ rw (query-insert_file_info_record dht r h, e, there) there
  | inr missing ↦
      rw (query-insert_file_info_record dht r h, e, missing)
        (any-same (λ x. file_eq x r) r (query dht h) (file_eq_refl r))
]
