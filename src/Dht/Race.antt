-- ===== src/Dht/Race.antt =====
-- Concurrent calls of `insertFileInfoRecord`: the lock is let go between the look for the entry and
-- the write, so other threads' sections may come in between, and an `insert` among them may rehash the
-- table, which ends the validity of the iterator.
pub mod Safety
use spatter.Messages.Hash.{Hash, hash_eq, hash_eq_refl, hash_eq_symm, hash_eq_left}
use spatter.Messages.File.{FileInfo, file_eq, file_eq_refl}
use spatter.Dht.Table.{
  HashTable, lookup, add_record, has_entry, commit_record, insert_record, find, add_to_entry,
}
use spatter.Dht.Queries.{lookup-commit_record, lookup-insert_record, lookup_absent, lookup_same_key}
use spatter.Dht.Records.{IsTable, commit_record-IsTable}
use spatter.Prelude.{
  ℕ, ◌≡◌, refl, Bool, true, false, ◌||◌, List, [], ◌∷◌, ◌++◌, any, if◌then◌else◌, ◌==◌, arith,
}

-- A thread that inserts a record: with the answer of its first critical section once it has it, which
-- is an iterator if there is an entry; with an iterator that is not valid any more; or past the use of
-- such a one, where the source's behaviour is not defined.
pub data Task : Type 0 where
  waiting : FileInfo → Task
  looked : FileInfo → Bool → Task
  stale : FileInfo → Task
  done : FileInfo → Task
  undefined : FileInfo → Task

pub record System : Type 0 where
  pub table : HashTable
  pub tasks : ℕ → Task

abbrev pub set_task : (ℕ → Task) → ℕ → Task → ℕ → Task
set_task tasks i task j = if i == j then task else tasks j

-- The table is rehashed: no iterator stays valid.
abbrev pub lose_iterator : Task → Task
lose_iterator (looked r true) = stale r
lose_iterator (looked r false) = looked r false
lose_iterator (waiting r) = waiting r
lose_iterator (stale r) = stale r
lose_iterator (done r) = done r
lose_iterator (undefined r) = undefined r

-- One critical section of one thread. An `insert` of a new key rehashes the table or does not.
pub data Step (s u : System) : Type 0 where
  look :
      (i : ℕ) (r : FileInfo)
      → s.tasks i ≡ waiting r
      → u ≡ record s { tasks = set_task s.tasks i (looked r (has_entry r s.table)) }
      → Step s u
  commit :
      (i : ℕ) (r : FileInfo) (b : Bool)
      → s.tasks i ≡ looked r b
      → u ≡ record { table = commit_record b r s.table; tasks = set_task s.tasks i (done r) }
      → Step s u
  rehash :
      (i : ℕ) (r : FileInfo)
      → s.tasks i ≡ looked r false
      → has_entry r s.table ≡ false
      → u ≡ record {
        table = commit_record false r s.table;
        tasks = λ j. lose_iterator (set_task s.tasks i (done r) j);
      }
      → Step s u
  misuse :
      (i : ℕ) (r : FileInfo)
      → s.tasks i ≡ stale r
      → u ≡ record s { tasks = set_task s.tasks i (undefined r) }
      → Step s u

pub data Reach (s : System) : System → Type 0 where
  here : Reach s s
  next : {t u : System} → Reach s t → Step t u → Reach s u

abbrev pub holds : FileInfo → HashTable → Bool
holds r t = any (λ x. file_eq x r) (lookup r.key t)

has_entry-add_to_entry :
    (r q : FileInfo) (t : HashTable) → has_entry q (add_to_entry r t) ≡ has_entry q t
unfolding has_entry add_to_entry
has_entry-add_to_entry r q [] = refl
has_entry-add_to_entry r q ((k, l) ∷ t) = ground (arith, has_entry-add_to_entry r q t)

has_entry_inserted :
    (r q : FileInfo) (t : HashTable)
    → has_entry q t ≡ true
    → has_entry q (if has_entry r t then t else (r.key, r ∷ []) ∷ t) ≡ true
unfolding has_entry
has_entry_inserted r q t h = ground arith

pub has_entry-commit_record :
    (b : Bool) (r q : FileInfo) (t : HashTable)
    → has_entry q t ≡ true
    → has_entry q (commit_record b r t) ≡ true
unfolding commit_record
has_entry-commit_record true r q t h = rw has_entry-add_to_entry h
has_entry-commit_record false r q t h = has_entry_inserted r q t h

any_last :
    (r q : FileInfo) (l : List FileInfo)
    → any (λ x. file_eq x q) l || file_eq r q ≡ true
    → any (λ x. file_eq x q) (l ++ r ∷ []) ≡ true
any_last r q [] h = ground arith
any_last r q (x ∷ l) h = ground (arith, any_last r q l)

any-add_record :
    (r q : FileInfo) (l : List FileInfo)
    → any (λ x. file_eq x q) l ≡ true
    → any (λ x. file_eq x q) (add_record r l) ≡ true
unfolding add_record
any-add_record r q l h = ground (arith, any_last r q l)

any-add_record_self :
    (r : FileInfo) (l : List FileInfo) → any (λ x. file_eq x r) (add_record r l) ≡ true
unfolding add_record
any-add_record_self r l = ground (arith, any_last r r l, file_eq_refl r)

-- A record that is in the table stays, whoever writes.
pub holds-commit_record :
    (b : Bool) (r q : FileInfo) (t : HashTable)
    → holds q t ≡ true
    → holds q (commit_record b r t) ≡ true
holds-commit_record b r q t h = rw (lookup-commit_record q.key b r t) (
    ground (
      arith,
      any-add_record r q (lookup q.key t),
      lookup_absent r t,
      lookup_same_key r.key q.key t,
    ))

-- A thread that has found the entry stores its record.
pub commit_record-holds :
    (r : FileInfo) (t : HashTable) → has_entry r t ≡ true → holds r (commit_record true r t) ≡ true
commit_record-holds r t h =
    rw (lookup-commit_record r.key true r t, hash_eq_refl r.key, h)
      (any-add_record_self r (lookup r.key t))

pub has_entry_same_key :
    (r q : FileInfo) (t : HashTable) → hash_eq r.key q.key ≡ true → has_entry r t ≡ has_entry q t
unfolding has_entry find
has_entry_same_key r q [] h = refl
has_entry_same_key r q ((k, l) ∷ t) h = ground (
  arith,
  has_entry_same_key r q t h,
  hash_eq_left r.key q.key k,
  hash_eq_symm r.key k,
  hash_eq_symm q.key k,
)

pub has_entry-commit_record_self :
    (r : FileInfo) (t : HashTable) → has_entry r (commit_record false r t) ≡ true
unfolding has_entry commit_record find
has_entry-commit_record_self r t = ground (arith, hash_eq_refl r.key)
