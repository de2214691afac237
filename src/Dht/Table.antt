-- ===== src/Dht/Table.antt =====
-- `hashTable` of dht/DHT.cpp and the two critical sections of `insertFileInfoRecord`.
use spatter.Messages.Hash.{Hash, hash_eq}
use spatter.Messages.File.{FileInfo, file_eq}
use spatter.Prelude.{Bool, true, false, List, [], ◌∷◌, ◌++◌, Option, none, some, any, if◌then◌else◌}

abbrev pub HashTable : Type 0
HashTable = List (Hash × List FileInfo)

-- `hashTable.find(h)`
unfoldable pub find : Hash → HashTable → Option (List FileInfo)
find h [] = none
find h ((k, l) ∷ t) = if hash_eq k h then some l else find h t

abbrev pub or_empty : Option (List FileInfo) → List FileInfo
or_empty none = []
or_empty (some l) = l

unfoldable pub lookup : Hash → HashTable → List FileInfo
unfolding find
lookup h t = or_empty (find h t)

-- The end of `insertFileInfoRecord`: `std::find`, and `push_back` if it finds nothing.
unfoldable pub add_record : FileInfo → List FileInfo → List FileInfo
add_record r l = if any (λ x. file_eq x r) l then l else l ++ r ∷ []

-- The same on the entry that an iterator points to, as long as it is valid: that of its key.
unfoldable pub add_to_entry : FileInfo → HashTable → HashTable
unfolding add_record
add_to_entry r [] = []
add_to_entry r ((k, l) ∷ t) =
    if hash_eq k r.key then (k, add_record r l) ∷ t else (k, l) ∷ add_to_entry r t

-- The first critical section, under the shared lock: is there an entry for the key?
unfoldable pub has_entry : FileInfo → HashTable → Bool
unfolding find
has_entry r t = elim (find r.key t) [ none ↦ false | some l ↦ true ]

-- The second, under the unique lock, by the answer of the first, where the iterator is still valid,
-- as it is if no other call has rehashed the table in between (`Dht/Race`). `insert` of an `unordered_map`
-- does nothing if the key is there.
unfoldable pub commit_record : Bool → FileInfo → HashTable → HashTable
unfolding add_to_entry has_entry
commit_record true r t = add_to_entry r t
commit_record false r t = if has_entry r t then t else (r.key, r ∷ []) ∷ t

-- The call by itself: one section after the other.
unfoldable pub insert_record : FileInfo → HashTable → HashTable
unfolding commit_record
insert_record r t = commit_record (has_entry r t) r t
