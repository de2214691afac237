-- ===== src/Program/Honest.antt =====
-- Where the file records of a node come from: of its table, of the packets that it has sent, and of
-- the answers and results of its searches.
pub mod Messages
pub mod Results
pub mod Sharing
pub mod Moves
use spatter.Control.Send.{udp_send, ping, insert_pending, ping_timeout}
use spatter.Dht.{query}
use spatter.Dht.Table.{
  HashTable, find, lookup, add_record, add_to_entry, commit_record, insert_record,
}
use spatter.Messages.Archive.{
  Packet, Message, publish, search, search_result, ping as ping_of, serialize_message,
}
use spatter.Messages.File.{FileInfo, file_eq}
use spatter.Messages.Hash.{Hash, hash_eq}
use spatter.Messages.Node.{NodeRecord, node_eq}
use spatter.Messages.Ping.{PingMessage}
use spatter.Messages.Search.{SearchMessage, is_key_search}
use spatter.NodeQueue.{mark_seen, trim_bucket, send_ping, set_bucket, bucket_size}
use spatter.NodeQueue.{ping_all, ping_bucket, ping_buckets, bucket_count}
use spatter.NodeQueue.Seen.{mark_seen-trim, mark_seen_inv}
use spatter.Search.SubSearches.{send_queries}
use spatter.Messages.Search.{SearchResult}
use spatter.State.{Search, SubSearch, State, Platform, Ranked}
use spatter.Prelude.{
  OnOk, OnOk-rule, OnOk-ok, OnOk-chain, All-snoc, ℕ, zero, suc, ◌+◌, ◌%◌, ◌^◌, ◌≡◌, refl, sym, ◌∙◌,
  Bool, true, false, List, [], ◌∷◌, ◌++◌, none, some, All, any, length, leb, back, pop_back,
  if◌then◌else◌, Option-cases, Bool-cases, inl, inr, Outcome, ok, fault, thrown, ◌>>=◌, >>=-eq-ok,
  arith,
}

module _ (P : FileInfo → Type 0) where
  abbrev pub GoodTable : HashTable → Type 0
  GoodTable = All (λ e. All P e.1)

  -- The answers that wait to be worked through, and the results so far.
  abbrev pub GoodSub : ℕ → SubSearch → Type 0
  GoodSub i ss = All (λ (x : SearchResult). All P x.file_list) ss.responses × GoodTable ss.results

  abbrev pub GoodSubs : List (ℕ × SubSearch) → Type 0
  GoodSubs = All (λ e. GoodSub e.0 e.1)

  abbrev pub GoodSearch : ℕ → Search → Type 0
  GoodSearch k sr = GoodSubs sr.sub_searches

  abbrev pub GoodMessage : Message → Type 0
  GoodMessage (publish m) = P m.file_info
  GoodMessage (search m) = Unit
  GoodMessage (search_result m) = All P m.file_list
  GoodMessage (ping_of m) = Unit

  add_record-All : (r : FileInfo) (l : List FileInfo) → P r → All P l → All P (add_record r l)
  unfolding add_record
  add_record-All r l h a = elim (Bool-cases (any (λ x. file_eq x r) l)) [
    | inl there ↦ rw there a
    | inr new ↦ rw new (All-snoc P r l a h)
  ]

  add_to_entry-GoodTable :
      (r : FileInfo) (t : HashTable) → P r → GoodTable t → GoodTable (add_to_entry r t)
  unfolding add_to_entry
  add_to_entry-GoodTable r [] h v = tt
  add_to_entry-GoodTable r ((k, l) ∷ t) h v = elim (Bool-cases (hash_eq k r.key)) [
    | inl same ↦ rw same (add_record-All r l h v.0, v.1)
    | inr other ↦ rw other (v.0, add_to_entry-GoodTable r t h v.1)
  ]

  pub insert_record-GoodTable :
      (r : FileInfo) (t : HashTable) → P r → GoodTable t → GoodTable (insert_record r t)
  unfolding insert_record commit_record
  insert_record-GoodTable r t h v = ground (arith, add_to_entry-GoodTable r t h v)

  pub lookup-All : (h : Hash) (t : HashTable) → GoodTable t → All P (lookup h t)
  unfolding lookup find
  lookup-All h [] v = tt
  lookup-All h ((k, l) ∷ t) v = elim (Bool-cases (hash_eq k h)) [
    | inl same ↦ rw same v.0
    | inr other ↦ rw other (lookup-All h t v.1)
  ]

module _ {Text : Type 0} (p : Platform Text) (P : FileInfo → Type 0) where
  -- The packet carries a message with such records only.
  abbrev pub GoodPacket : Packet Text → Type 0
  GoodPacket x = (m : Message) × (x ≡ serialize_message p.archive m) × GoodMessage P m

  pub record IsHonest (s : State Text) : Type 0 where
    pub table : GoodTable P s.hash_table
    pub sent : All (λ (x : Packet Text × NodeRecord). GoodPacket x.0) s.sent
    pub found : All (λ e. GoodSearch P e.0 e.1) s.searches

  handed_over :
      (b : Bool) (msg : Packet Text) (to : NodeRecord) (s : State Text)
      → GoodPacket msg
      → IsHonest s
      → OnOk IsHonest
          (if b then ok (record s { sent = s.sent ++ (msg, to) ∷ [] }) else fault thrown)
  handed_over true msg to s g v = record {
    table = v.table;
    sent = All-snoc (λ (x : Packet Text × NodeRecord). GoodPacket x.0) (msg, to) s.sent v.sent g;
    found = v.found;
  }
  handed_over false msg to s g v = tt

  pub udp_send-IsHonest :
      (msg : Packet Text) (to : NodeRecord) (s : State Text)
      → GoodPacket msg
      → IsHonest s
      → OnOk IsHonest (udp_send p msg to s)
  unfolding udp_send
  udp_send-IsHonest msg to s g v = elim (Option-cases s.control) [
    | inl closed ↦ rw closed tt
    | inr (c, is_open) ↦ rw is_open (elim (Bool-cases (node_eq to s.this_node)) [
      | inl self ↦ rw self (record { table = v.table; sent = v.sent; found = v.found })
      | inr other ↦ rw other (
          handed_over (p.resolves to) msg to (record s { control = some c }) g
            (record { table = v.table; sent = v.sent; found = v.found }))
    ])
  ]

  ping-IsHonest :
      (now : ℕ) (m : PingMessage) (s : State Text) → IsHonest s → OnOk IsHonest (ping p now m s)
  unfolding ping udp_send
  ping-IsHonest now m s v = elim (Option-cases s.control) [
    | inl closed ↦ rw closed tt
    | inr (c, is_open) ↦ rw is_open (elim (Bool-cases (node_eq m.receiver_node s.this_node)) [
      | inl self ↦ rw self (record { table = v.table; sent = v.sent; found = v.found })
      | inr other ↦ rw other (
          handed_over (p.resolves m.receiver_node) (serialize_message p.archive (ping_of m))
            m.receiver_node
            (record s {
              control = some (record c {
                unacknowledged_pings =
                    insert_pending ((now + ping_timeout) % 2 ^ 32, m) c.unacknowledged_pings;
              });
            })
            (ping_of m, refl, tt) (record { table = v.table; sent = v.sent; found = v.found }))
    ])
  ]

  send_ping-IsHonest :
      (now : ℕ) (to : NodeRecord) (s : State Text)
      → IsHonest s
      → OnOk IsHonest (send_ping p now to s)
  unfolding send_ping
  send_ping-IsHonest now to s v =
      ping-IsHonest now
        (record {
          sender_node = s.this_node;
          receiver_node = to;
          is_reply = 0;
          message_id = s.next_message_id;
        })
        (record s { next_message_id = (s.next_message_id + 1) % 2 ^ 32 })
        (record { table = v.table; sent = v.sent; found = v.found })

  trim_bucket-IsHonest :
      (now d : ℕ) (l : List NodeRecord) (s : State Text)
      → IsHonest s
      → OnOk IsHonest (trim_bucket p now d l s)
  unfolding trim_bucket
  trim_bucket-IsHonest now d l s v = elim (Bool-cases (leb bucket_size (length l))) [
    | inl full ↦ rw full (elim (Option-cases (back l)) [
      | inl empty ↦ rw empty v
      | inr (last, here) ↦ rw here (
          send_ping-IsHonest now last (record s { buckets = set_bucket s.buckets d (pop_back l) })
            (record { table = v.table; sent = v.sent; found = v.found }))
    ])
    | inr room ↦ rw room (record { table = v.table; sent = v.sent; found = v.found })
  ]

  pub mark_seen-IsHonest :
      (now : ℕ) (n : NodeRecord) (s : State Text) → IsHonest s → OnOk IsHonest (mark_seen p now n s)
  mark_seen-IsHonest now n s v = OnOk-rule IsHonest _ (λ s' e.
      let (port, range) = mark_seen_inv p now n s s' e in
      OnOk-ok IsHonest _ s' (sym (mark_seen-trim p now n s port range) ∙ e)
        (trim_bucket-IsHonest now _ _ s v))

  pub send_queries-IsHonest :
      (msg : Packet Text) (l : List Ranked) (s : State Text)
      → GoodPacket msg
      → IsHonest s
      → OnOk IsHonest (send_queries p msg l s)
  unfolding send_queries
  send_queries-IsHonest msg [] s g v = v
  send_queries-IsHonest msg (e ∷ l) s g v =
      OnOk-chain IsHonest IsHonest (udp_send p msg e.1 s) _ (udp_send-IsHonest msg e.1 s g v)
        (λ s' v'. send_queries-IsHonest msg l s' g v')

  ping_bucket-IsHonest :
      (now : ℕ) (l : List NodeRecord) (s : State Text)
      → IsHonest s
      → OnOk IsHonest (ping_bucket p now l s)
  unfolding ping_bucket
  ping_bucket-IsHonest now [] s v = v
  ping_bucket-IsHonest now (n ∷ l) s v =
      OnOk-chain IsHonest IsHonest (send_ping p now n s) _ (send_ping-IsHonest now n s v)
        (λ s' v'. ping_bucket-IsHonest now l s' v')

  ping_buckets-IsHonest :
      (now n i : ℕ) (s : State Text) → IsHonest s → OnOk IsHonest (ping_buckets p now n i s)
  unfolding ping_buckets
  ping_buckets-IsHonest now zero i s v = v
  ping_buckets-IsHonest now (suc n) i s v =
      OnOk-chain IsHonest IsHonest (ping_bucket p now (s.buckets i) s) _
        (ping_bucket-IsHonest now (s.buckets i) s v)
        (λ s' v'. ping_buckets-IsHonest now n (i + 1) s' v')

  pub ping_all-IsHonest : (now : ℕ) (s : State Text) → IsHonest s → OnOk IsHonest (ping_all p now s)
  unfolding ping_all
  ping_all-IsHonest now s v = ping_buckets-IsHonest now bucket_count 0 s v
