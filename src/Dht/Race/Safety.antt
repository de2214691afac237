-- ===== src/Dht/Race/Safety.antt =====
-- What concurrent inserts keep, and what they lose.
use spatter.Messages.Hash.{hash_eq, hash_eq_refl, hash_eq_symm}
use spatter.Messages.File.{FileInfo, file_eq}
use spatter.Dht.Table.{HashTable, lookup, add_record, has_entry, commit_record, insert_record}
use spatter.Dht.Queries.{lookup-commit_record, lookup-insert_record, lookup_absent}
use spatter.Dht.Race.{
  Task, waiting, looked, stale, done, undefined, System, lose_iterator, set_task, rehash, misuse,
  Step, look, commit, Reach, here, next, holds, holds-commit_record, commit_record-holds,
  has_entry-commit_record, has_entry_same_key, has_entry-commit_record_self,
}
use spatter.Prelude.{
  Bool-cases, inl, inr, ◌==◌, ℕ, ◌≡◌, sym, Bool, true, false, [], ◌∷◌, arith, ◌∙◌,
}

-- Of the records with an entry at the start: their entries stay, their threads find them, and the
-- records of the threads that are done are stored.
record Inv (start : HashTable) (s : System) : Type 0 where
  entries : (q : FileInfo) → has_entry q start ≡ true → has_entry q s.table ≡ true
  found :
      (i : ℕ) (q : FileInfo) (b : Bool)
      → s.tasks i ≡ looked q b
      → has_entry q start ≡ true
      → b ≡ true
  stored :
      (i : ℕ) (q : FileInfo)
      → s.tasks i ≡ done q
      → has_entry q start ≡ true
      → holds q s.table ≡ true

-- What a thread that still has a valid answer after a rehash had before, and one that is done.
still_looked : (t : Task) (q : FileInfo) (c : Bool) → lose_iterator t ≡ looked q c → t ≡ looked q c
still_looked (waiting r) q c e = cc
still_looked (looked r true) q c e = cc
still_looked (looked r false) q c e = e
still_looked (stale r) q c e = cc
still_looked (done r) q c e = cc
still_looked (undefined r) q c e = cc

still_done : (t : Task) (q : FileInfo) → lose_iterator t ≡ done q → t ≡ done q
still_done (waiting r) q e = cc
still_done (looked r true) q e = cc
still_done (looked r false) q e = cc
still_done (stale r) q e = cc
still_done (done r) q e = e
still_done (undefined r) q e = cc

lose_iterator_looked :
    (tasks : ℕ → Task) (i : ℕ) (r : FileInfo) (j : ℕ) (q : FileInfo) (c : Bool)
    → lose_iterator (set_task tasks i (done r) j) ≡ looked q c
    → tasks j ≡ looked q c
lose_iterator_looked tasks i r j q c e =
    let before = still_looked (set_task tasks i (done r) j) q c e in
    elim (Bool-cases (i == j)) [
      | inl same ↦ absurd (let d : done r ≡ looked q c = rw same at before in cc)
      | inr other ↦ rw other at before
    ]

stored_rehashed :
    {A : Type 0} (tasks : ℕ → Task) (i : ℕ) (r : FileInfo) (j : ℕ) (q : FileInfo)
    → lose_iterator (set_task tasks i (done r) j) ≡ done q
    → (q ≡ r → A)
    → (tasks j ≡ done q → A)
    → A
stored_rehashed tasks i r j q e own before =
    let was = still_done (set_task tasks i (done r) j) q e in
    elim (Bool-cases (i == j)) [
      | inl same ↦ own (let d : done r ≡ done q = rw same at was in cc)
      | inr other ↦ before (rw other at was)
    ]

Step-Inv : (start : HashTable) (s u : System) → Step s u → Inv start s → Inv start u
Step-Inv start s u (look i r now e) v = rw e (record {
  entries = v.entries;
  found = λ j q b p h. ground (arith, v.entries q h, v.found j q b);
  stored = λ j q p h. ground (arith, v.stored j q);
})
Step-Inv start s u (commit i r b now e) v = rw e (record {
  entries = λ q h. has_entry-commit_record b r q s.table (v.entries q h);
  found = λ j q c p h. ground (arith, v.found j q c);
  stored = λ j q p h. ground (
    arith,
    holds-commit_record b r q s.table,
    commit_record-holds q s.table,
    v.entries q h,
    v.found i q b,
    v.stored j q,
  );
})
Step-Inv start s u (rehash i r now new e) v = rw e (record {
  entries = λ q h. has_entry-commit_record false r q s.table (v.entries q h);
  found = λ j q c p h. v.found j q c (lose_iterator_looked s.tasks i r j q c p) h;
  stored = λ j q p h.
      stored_rehashed s.tasks i r j q p
        (λ same. absurd (ground (arith, v.entries q h, v.found i q false)))
        (λ before. holds-commit_record false r q s.table (v.stored j q before h));
})
Step-Inv start s u (misuse i r now e) v = rw e (record {
  entries = v.entries;
  found = λ j q b p h. ground (arith, v.found j q b);
  stored = λ j q p h. ground (arith, v.stored j q);
})

Reach-Inv :
    {start s : System}
    → ((i : ℕ) → (r : FileInfo) × (start.tasks i ≡ waiting r))
    → Reach start s
    → Inv start.table s
Reach-Inv {start} idle here = record {
  entries = λ q h. h;
  found = λ i q b p h. absurd (let (r, w) = idle i in cc);
  stored = λ i q p h. absurd (let (r, w) = idle i in cc);
}
Reach-Inv {start} idle (next {t} {u} r st) = Step-Inv start.table t u st (Reach-Inv idle r)

-- In every interleaving of threads that each insert a record, with the table rehashed by any insert
-- of a new key or not, a thread that is done, and has got through without an iterator that is no
-- longer valid, has its record in the table, if the record's key had an entry at the start.
pub Reach-holds :
    {start s : System} (i : ℕ) (r : FileInfo)
    → ((j : ℕ) → (q : FileInfo) × (start.tasks j ≡ waiting q))
    → Reach start s
    → has_entry r start.table ≡ true
    → s.tasks i ≡ done r
    → holds r s.table ≡ true
Reach-holds i r idle run h p = (Reach-Inv idle run).stored i r p h

-- Of two different records with one key, which is new: if both threads look before either writes, the
-- second record is lost, while one call after the other keeps both.
pub lost_record :
    (t : HashTable) (r q : FileInfo)
    → has_entry r t ≡ false
    → hash_eq r.key q.key ≡ true
    → file_eq r q ≡ false
    → (lookup r.key (commit_record (has_entry q t) q (commit_record (has_entry r t) r t)) ≡ r ∷ [])
      × (lookup r.key (insert_record q (insert_record r t)) ≡ r ∷ q ∷ [])
unfolding add_record
lost_record t r q h k e =
    let absent : has_entry q t ≡ false = sym (has_entry_same_key r q t k) ∙ h in
    (
      ground (
        arith,
        lookup-commit_record r.key false q (commit_record false r t),
        lookup-commit_record r.key false r t,
        has_entry-commit_record_self r t,
        has_entry_same_key r q (commit_record false r t) k,
        hash_eq_refl r.key,
        hash_eq_symm r.key q.key,
      ),
      ground (
        arith,
        lookup-insert_record r.key q (insert_record r t),
        lookup-insert_record r.key r t,
        lookup_absent r t h,
        hash_eq_refl r.key,
        hash_eq_symm r.key q.key,
      ),
    )
