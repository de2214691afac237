-- ===== src/Program/Honest/Sharing.antt =====
-- What a round of the loop of `share`, and a round of a sub-search, make of the records in a node.
use spatter.Console.Share.{
  share_round, share_found, publish_to, touch_results, hops_done, queues_empty, sort_ranked,
  publish_redundancy,
}
use spatter.Messages.Archive.{publish, search, serialize_message}
use spatter.Messages.File.{FileInfo, PublishMessage}
use spatter.Program.Honest.{IsHonest, GoodSub, GoodSubs, GoodSearch, send_queries-IsHonest}
use spatter.Search.Manager.{find_search}
use spatter.Search.SubSearches.{ask_next_nodes, send_queries}
use spatter.State.{State, Platform, Search, SubSearch}
use spatter.Program.Honest.Messages.{assign-IsHonest, insert_file_info_record-IsHonest}
use spatter.Messages.Hash.{Hash, hash_eq}
use spatter.Prelude.{
  All, find_id, find_id-All, All-snoc, any, OnOk, OnOk-if, OnOk-chain, ℕ, refl, Bool, false, ◌||◌,
  List, [], ◌∷◌, map, take, Option-cases, Bool-cases, inl, inr,
}

pub touch_results-GoodSubs :
    (P : FileInfo → Type 0) (m : List (ℕ × SubSearch))
    → GoodSubs P m
    → GoodSubs P (map (λ (e : ℕ × SubSearch). (e.0, touch_results e.1)) m)
unfolding touch_results
touch_results-GoodSubs P [] g = tt
touch_results-GoodSubs P ((i, ss) ∷ m) g = (
  elim (Bool-cases (any (λ e. hash_eq e.0 ss.key) ss.results)) [
    | inl there ↦ rw there g.0
    | inr new ↦
        rw new (
          g.0.0,
          All-snoc (λ (e : Hash × List FileInfo). All P e.1) (ss.key, []) ss.results g.0.1 tt,
        )
  ],
  touch_results-GoodSubs P m g.1,
)

module _ {Text : Type 0} (p : Platform Text) (P : FileInfo → Type 0) where
  pub ask_next_nodes-IsHonest :
      (sr : Search) (ss : SubSearch) (s : State Text)
      → GoodSub P ss.search_id ss
      → IsHonest p P s
      → OnOk (λ x. GoodSub P ss.search_id x.0 × IsHonest p P x.1) (ask_next_nodes p sr ss s)
  unfolding ask_next_nodes
  ask_next_nodes-IsHonest sr ss s g v =
      OnOk-chain (IsHonest p P)
        (λ (x : SubSearch × State Text). GoodSub P ss.search_id x.0 × IsHonest p P x.1)
        (send_queries p _ ss.next_nodes_queue s) _
        (send_queries-IsHonest p P _ ss.next_nodes_queue s (search _, refl, tt) v)
        (λ s' v'. (g, v'))

  publish_to-IsHonest :
      (pm : PublishMessage) (m : List (ℕ × SubSearch)) (s : State Text)
      → P pm.file_info
      → GoodSubs P m
      → IsHonest p P s
      → OnOk (λ x. GoodSubs P x.0 × IsHonest p P x.1) (publish_to p pm m s)
  unfolding publish_to
  publish_to-IsHonest pm [] s g k v = (k, v)
  publish_to-IsHonest pm ((i, ss) ∷ m) s g k v =
      let msg = serialize_message p.archive (publish pm) in
      let first = take publish_redundancy (sort_ranked ss.pq) in
      OnOk-chain (IsHonest p P)
        (λ (x : List (ℕ × SubSearch) × State Text). GoodSubs P x.0 × IsHonest p P x.1)
        (send_queries p msg first s) _
        (send_queries-IsHonest p P msg first s (publish pm, refl, g) v)
        (λ s' v'.
          OnOk-chain (λ (x : List (ℕ × SubSearch) × State Text). GoodSubs P x.0 × IsHonest p P x.1)
            (λ (x : List (ℕ × SubSearch) × State Text). GoodSubs P x.0 × IsHonest p P x.1)
            (publish_to p pm m s') _ (publish_to-IsHonest pm m s' g k.1 v')
            (λ x w. ((k.0, w.0), w.1)))

  share_found-IsHonest :
      (id : ℕ) (info : FileInfo) (sr : Search) (s : State Text)
      → P info
      → GoodSearch P id sr
      → IsHonest p P s
      → OnOk (λ x. IsHonest p P x.1) (share_found p id info sr s)
  unfolding share_found
  share_found-IsHonest id info sr s g k v =
      let touched = touch_results-GoodSubs P sr.sub_searches k in
      let subs = map (λ (e : ℕ × SubSearch). (e.0, touch_results e.1)) sr.sub_searches in
      let pm : PublishMessage = record { file_info = info } in
      OnOk-if (λ (x : Bool × State Text). IsHonest p P x.1)
        (hops_done false subs || queues_empty subs) _ _
        (OnOk-chain (λ (x : List (ℕ × SubSearch) × State Text). GoodSubs P x.0 × IsHonest p P x.1)
          (λ (x : Bool × State Text). IsHonest p P x.1) (publish_to p pm subs s) _
          (publish_to-IsHonest pm subs s g touched v)
          (λ x w.
            assign-IsHonest p P id (record sr { sub_searches = x.0 }) _ w.0
              (insert_file_info_record-IsHonest p P info x.1 g w.1)))
        (assign-IsHonest p P id (record sr { sub_searches = subs }) s touched v)

  pub share_round-IsHonest :
      (id : ℕ) (info : FileInfo) (s : State Text)
      → P info
      → IsHonest p P s
      → OnOk (λ x. IsHonest p P x.1) (share_round p id info (λ x. x) s)
  unfolding share_round find_search
  share_round-IsHonest id info s g v = elim (Option-cases (find_id id s.searches)) [
    | inl gone ↦ rw (share_round, find_search, gone) v
    | inr (sr, there) ↦
        rw (share_round, find_search, there)
          (OnOk-chain (λ (x : Bool × State Text). IsHonest p P x.1)
            (λ (x : Bool × State Text). IsHonest p P x.1) (share_found p id info sr s) _
            (share_found-IsHonest id info sr s g
              (find_id-All (GoodSearch P) id sr s.searches there v.found) v)
            (λ x v'. v'))
  ]
