-- ===== src/Program/Ids.antt =====
-- The ids of searches, dht/protocol/search_manager.cpp: each search and each sub-search stands in its
-- map under the id that it has itself, and ids and the counters that give them stay within 32 bits.
pub mod Sharing
pub mod Messages
pub mod Moves
pub mod Reaching
use spatter.Control.Frame.{udp_send-SendsOnly, ping-SendsOnly}
use spatter.Control.Send.{udp_send}
use spatter.Messages.Archive.{Packet}
use spatter.Messages.Node.{NodeRecord}
use spatter.NodeQueue.{
  mark_seen, trim_bucket, send_ping, ping_bucket, ping_buckets, ping_all, set_bucket, bucket_size,
  bucket_count,
}
use spatter.NodeQueue.Seen.{mark_seen-trim, mark_seen_inv}
use spatter.Search.Manager.{find_search}
use spatter.Search.SubSearches.{send_queries}
use spatter.State.{State, Platform, Search, SubSearch, Ranked}
use spatter.Prelude.{
  OnOk, OnOk-if, OnOk-rule, OnOk-ok, OnOk-chain, ℕ, zero, suc, ◌+◌, ◌^◌, ◌<◌, ◌≡◌, refl, sym, ◌∙◌,
  Bool, true, false, ◌||◌, List, [], ◌∷◌, none, some, All, map, take, assign, length, leb, back,
  pop_back, find_id-All, assign-All, Option-cases, Bool-cases, inl, inr, Outcome, ok, ◌>>=◌,
}

-- A sub-search under its own id, and a search under its own id with all its sub-searches.
abbrev pub IsFiledSub : ℕ → SubSearch → Type 0
IsFiledSub i ss = (ss.search_id ≡ i) × (i < 2 ^ 32)

abbrev pub AllFiled : List (ℕ × SubSearch) → Type 0
AllFiled = All (λ e. IsFiledSub e.0 e.1)

abbrev pub IsFiledSearch : ℕ → Search → Type 0
IsFiledSearch k sr = (sr.master_search_id ≡ k) × (k < 2 ^ 32) × AllFiled sr.sub_searches

pub record IsFiled {Text : Type 0} (s : State Text) : Type 0 where
  pub searches : All (λ e. IsFiledSearch e.0 e.1) s.searches
  pub next_master : s.next_master_search_id < 2 ^ 32
  pub next_sub : s.next_sub_search_id < 2 ^ 32

pub IsFiled-same :
    {Text : Type 0} (s u : State Text)
    → u.searches ≡ s.searches
    → u.next_master_search_id ≡ s.next_master_search_id
    → u.next_sub_search_id ≡ s.next_sub_search_id
    → IsFiled s
    → IsFiled u
IsFiled-same s u e m n v = record {
  searches = rw e v.searches;
  next_master = rw m v.next_master;
  next_sub = rw n v.next_sub;
}

-- A changed search goes back to its place.
pub assign-IsFiled :
    {Text : Type 0} (k : ℕ) (sr : Search) (s : State Text)
    → IsFiledSearch k sr
    → IsFiled s
    → IsFiled (record s { searches = assign k sr s.searches })
assign-IsFiled k sr s f v = record {
  searches = assign-All IsFiledSearch k sr s.searches f v.searches;
  next_master = v.next_master;
  next_sub = v.next_sub;
}

module _ {Text : Type 0} (p : Platform Text) where
  pub udp_send-IsFiled :
      (msg : Packet Text) (to : NodeRecord) (s : State Text)
      → IsFiled s
      → OnOk IsFiled (udp_send p msg to s)
  udp_send-IsFiled msg to s v = OnOk-rule IsFiled (udp_send p msg to s) (λ u e.
      let f = udp_send-SendsOnly p msg to s u e in
      IsFiled-same s u f.searches f.next_master_search_id f.next_sub_search_id v)

  send_ping-IsFiled :
      (now : ℕ) (to : NodeRecord) (s : State Text) → IsFiled s → OnOk IsFiled (send_ping p now to s)
  unfolding send_ping
  send_ping-IsFiled now to s v = OnOk-rule IsFiled (send_ping p now to s) (λ u e.
      let f = ping-SendsOnly p now _ _ u e in
      IsFiled-same s u f.searches f.next_master_search_id f.next_sub_search_id v)

  trim_bucket-IsFiled :
      (now d : ℕ) (l : List NodeRecord) (s : State Text)
      → IsFiled s
      → OnOk IsFiled (trim_bucket p now d l s)
  unfolding trim_bucket
  trim_bucket-IsFiled now d l s v = elim (Bool-cases (leb bucket_size (length l))) [
    | inl full ↦ rw full (elim (Option-cases (back l)) [
      | inl empty ↦ rw empty v
      | inr (last, here) ↦ rw here (
          send_ping-IsFiled now last (record s { buckets = set_bucket s.buckets d (pop_back l) })
            (IsFiled-same s _ refl refl refl v))
    ])
    | inr room ↦ rw room (IsFiled-same s _ refl refl refl v)
  ]

  pub mark_seen-IsFiled :
      (now : ℕ) (n : NodeRecord) (s : State Text) → IsFiled s → OnOk IsFiled (mark_seen p now n s)
  mark_seen-IsFiled now n s v = OnOk-rule IsFiled _ (λ u e.
      let (port, range) = mark_seen_inv p now n s u e in
      OnOk-ok IsFiled _ u (sym (mark_seen-trim p now n s port range) ∙ e)
        (trim_bucket-IsFiled now _ _ s v))

  pub send_queries-IsFiled :
      (msg : Packet Text) (l : List Ranked) (s : State Text)
      → IsFiled s
      → OnOk IsFiled (send_queries p msg l s)
  unfolding send_queries
  send_queries-IsFiled msg [] s v = v
  send_queries-IsFiled msg (e ∷ l) s v =
      OnOk-chain IsFiled IsFiled (udp_send p msg e.1 s) _ (udp_send-IsFiled msg e.1 s v)
        (send_queries-IsFiled msg l)

  ping_bucket-IsFiled :
      (now : ℕ) (l : List NodeRecord) (s : State Text)
      → IsFiled s
      → OnOk IsFiled (ping_bucket p now l s)
  unfolding ping_bucket
  ping_bucket-IsFiled now [] s v = v
  ping_bucket-IsFiled now (n ∷ l) s v =
      OnOk-chain IsFiled IsFiled (send_ping p now n s) _ (send_ping-IsFiled now n s v)
        (ping_bucket-IsFiled now l)

  ping_buckets-IsFiled :
      (now n i : ℕ) (s : State Text) → IsFiled s → OnOk IsFiled (ping_buckets p now n i s)
  unfolding ping_buckets
  ping_buckets-IsFiled now zero i s v = v
  ping_buckets-IsFiled now (suc n) i s v =
      OnOk-chain IsFiled IsFiled (ping_bucket p now (s.buckets i) s) _
        (ping_bucket-IsFiled now (s.buckets i) s v) (ping_buckets-IsFiled now n (i + 1))

  pub ping_all-IsFiled : (now : ℕ) (s : State Text) → IsFiled s → OnOk IsFiled (ping_all p now s)
  unfolding ping_all
  ping_all-IsFiled now s v = ping_buckets-IsFiled now bucket_count 0 s v
