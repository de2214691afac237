-- ===== src/Tests/Records.antt =====
-- Examples for the table and its concurrent inserts.
use spatter.Messages.Hash.{hash_eq}
use spatter.Messages.Memory.{memcmp}
use spatter.Messages.Node.{node_eq}
use spatter.Messages.Str.{str_eq}
use spatter.Messages.File.{FileInfo, file_eq}
use spatter.Dht.{Dht, new_dht, query}
use spatter.Dht.Table.{HashTable, lookup, find, has_entry, commit_record, insert_record}
use spatter.Dht.Log.{of_key, first_ones, without, insert_all, query-insert_all}
use spatter.Dht.Race.{
  waiting, looked, done, System, look, commit, Reach, here, next, set_task, holds,
}
use spatter.Dht.Race.Safety.{Reach-holds, lost_record}
use spatter.Tests.{id_of, alice, shared_file}
use spatter.Prelude.{if◌then◌else◌, ◌==◌, ◌≡◌, refl, true, List, [], ◌∷◌}

abbrev other_file : FileInfo
other_file = record shared_file { path = 48 ∷ [] }

abbrev one_file : HashTable
one_file = (id_of 7, shared_file ∷ []) ∷ []

abbrev keeper : Dht
keeper = record { this_node = alice; hash_table = one_file }

abbrev racing : System
racing = record { table = one_file; tasks = λ i. waiting other_file }

abbrev has_looked : System
has_looked = record racing { tasks = set_task racing.tasks 0 (looked other_file true) }

abbrev has_stored : System
has_stored = record {
  table = commit_record true other_file one_file;
  tasks = set_task has_looked.tasks 0 (done other_file);
}

look_and_commit : Reach racing has_stored
unfolding has_entry find hash_eq memcmp
look_and_commit =
    next (next here (look 0 other_file refl refl)) (commit 0 other_file true refl refl)

Reach-holds_example : holds other_file has_stored.table ≡ true
unfolding has_entry find hash_eq memcmp
Reach-holds_example = Reach-holds 0 other_file (λ j. (other_file, refl)) look_and_commit refl refl

-- A second thread inserts a file under a new key.
abbrev new_file : FileInfo
new_file = record shared_file { key = id_of 8 }

abbrev two_racing : System
two_racing = record {
  table = one_file;
  tasks = λ i. if i == 0 then waiting other_file else waiting new_file;
}

lost_record_example :
    (lookup shared_file.key (
        commit_record
          (has_entry other_file [])
          other_file
          (commit_record (has_entry shared_file []) shared_file []))
      ≡ shared_file ∷ [])
    × (lookup shared_file.key (insert_record other_file (insert_record shared_file []))
        ≡ shared_file ∷ other_file ∷ [])
unfolding has_entry find hash_eq file_eq node_eq str_eq memcmp
lost_record_example = lost_record [] shared_file other_file refl refl refl

abbrev log : List FileInfo
log = shared_file ∷ other_file ∷ shared_file ∷ record shared_file { key = id_of 8 } ∷ []

query-insert_all_example :
    query (insert_all log (new_dht (λ t. id_of 0) (λ n. []) [] 80 0)) (id_of 7)
    ≡ shared_file ∷ other_file ∷ []
unfolding of_key first_ones without hash_eq memcmp file_eq node_eq str_eq
query-insert_all_example = query-insert_all (λ t. id_of 0) (λ n. []) [] 80 0 log (id_of 7)
