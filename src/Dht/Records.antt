-- ===== src/Dht/Records.antt =====
-- What every entry of `hashTable` satisfies: its records carry its key, and no two are equal.
use spatter.Messages.Hash.{Hash, hash_eq, hash_eq_refl, hash_eq_symm}
use spatter.Messages.File.{FileInfo, file_eq}
use spatter.Dht.{Dht, insert_file_info_record}
use spatter.Dht.Table.{HashTable, add_record, add_to_entry, commit_record, insert_record}
use spatter.Prelude.{
  ◌≡◌, refl, Bool, true, false, List, [], ◌∷◌, ◌++◌, any, Bool-cases, inl, inr, ◌∙◌, arith,
}

-- No record of the list equals an earlier one.
abbrev pub Distinct : List FileInfo → Type 0
Distinct [] = Unit {0}
Distinct (x ∷ l) = (any (λ y. file_eq x y) l ≡ false) × Distinct l

abbrev pub Keyed : Hash → List FileInfo → Type 0
Keyed k [] = Unit {0}
Keyed k (x ∷ l) = (hash_eq x.key k ≡ true) × Keyed k l

abbrev pub IsTable : HashTable → Type 0
IsTable [] = Unit {0}
IsTable ((k, l) ∷ t) = Keyed k l × Distinct l × IsTable t

Keyed-append :
    (k : Hash) (r : FileInfo) (l : List FileInfo)
    → hash_eq r.key k ≡ true
    → Keyed k l
    → Keyed k (l ++ r ∷ [])
Keyed-append k r [] h v = (h, tt)
Keyed-append k r (x ∷ l) h v = (v.0, Keyed-append k r l h v.1)

any-append :
    (x r : FileInfo) (l : List FileInfo)
    → any (λ y. file_eq x y) l ≡ false
    → file_eq x r ≡ false
    → any (λ y. file_eq x y) (l ++ r ∷ []) ≡ false
any-append x r [] h k = rw k
any-append x r (y ∷ l) h k = ground (arith, any-append x r l)

Distinct-append :
    (r : FileInfo) (l : List FileInfo)
    → any (λ x. file_eq x r) l ≡ false
    → Distinct l
    → Distinct (l ++ r ∷ [])
Distinct-append r [] h v = (refl, tt)
Distinct-append r (x ∷ l) h v =
    (any-append x r l v.0 (ground arith), Distinct-append r l (ground arith) v.1)

add_record-Keyed :
    (k : Hash) (r : FileInfo) (l : List FileInfo)
    → hash_eq r.key k ≡ true
    → Keyed k l
    → Keyed k (add_record r l)
unfolding add_record
add_record-Keyed k r l h v = ground (arith, Keyed-append k r l h v)

add_record-Distinct : (r : FileInfo) (l : List FileInfo) → Distinct l → Distinct (add_record r l)
unfolding add_record
add_record-Distinct r l v = ground (arith, Distinct-append r l)

add_to_entry-IsTable : (r : FileInfo) (t : HashTable) → IsTable t → IsTable (add_to_entry r t)
unfolding add_to_entry
add_to_entry-IsTable r [] v = tt
add_to_entry-IsTable r ((k, l) ∷ t) v = elim (Bool-cases (hash_eq k r.key)) [
  | inl same ↦
      rw same
        (add_record-Keyed k r l (hash_eq_symm r.key k ∙ same) v.0, add_record-Distinct r l v.1, v.2)
  | inr other ↦ rw other (v.0, v.1, add_to_entry-IsTable r t v.2)
]

-- So whatever the first critical section has answered.
pub commit_record-IsTable :
    (b : Bool) (r : FileInfo) (t : HashTable) → IsTable t → IsTable (commit_record b r t)
unfolding commit_record
commit_record-IsTable true r t v = add_to_entry-IsTable r t v
commit_record-IsTable false r t v = ground (arith, hash_eq_refl r.key)

-- `insertFileInfoRecord` keeps the table such that each entry's records carry the entry's key and no
-- two of them are equal.
pub insert_file_info_record-IsTable :
    (dht : Dht) (r : FileInfo)
    → IsTable dht.hash_table
    → IsTable (insert_file_info_record dht r).hash_table
unfolding insert_file_info_record insert_record
insert_file_info_record-IsTable dht r v = commit_record-IsTable _ r dht.hash_table v
