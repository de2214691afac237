-- ===== src/Program/Ids/Sharing.antt =====
-- What `share` of ui/console_ui.cpp makes of the ids of searches.
use spatter.Console.Share.{
  share_round, share_found, publish_to, touch_results, hops_done, queues_empty, sort_ranked,
  publish_redundancy,
}
use spatter.Messages.Archive.{Message, serialize_message}
use spatter.Messages.File.{FileInfo, PublishMessage}
use spatter.Messages.Hash.{hash_eq}
use spatter.Program.Ids.{
  IsFiledSearch, AllFiled, IsFiled, IsFiled-same, assign-IsFiled, send_queries-IsFiled,
}
use spatter.Search.Manager.{find_search}
use spatter.Search.SubSearches.{send_queries}
use spatter.State.{State, Platform, Search, SubSearch}
use spatter.Prelude.{
  OnOk, OnOk-if, OnOk-chain, ℕ, refl, Bool, false, ◌||◌, List, [], ◌∷◌, map, take, any, find_id-All,
  Option-cases, Bool-cases, inl, inr,
}

pub touch_results-AllFiled :
    (m : List (ℕ × SubSearch))
    → AllFiled m
    → AllFiled (map (λ (e : ℕ × SubSearch). (e.0, touch_results e.1)) m)
unfolding touch_results
touch_results-AllFiled [] f = tt
touch_results-AllFiled ((i, ss) ∷ m) f = (
  (
    (elim (Bool-cases (any (λ e. hash_eq e.0 ss.key) ss.results)) [
      | inl there ↦ rw there f.0.0
      | inr new ↦ rw new f.0.0
    ]),
    f.0.1,
  ),
  touch_results-AllFiled m f.1,
)

module _ {Text : Type 0} (p : Platform Text) where
  publish_to-AllFiled :
      (pm : PublishMessage) (m : List (ℕ × SubSearch)) (s : State Text)
      → AllFiled m
      → IsFiled s
      → OnOk (λ x. AllFiled x.0 × IsFiled x.1) (publish_to p pm m s)
  unfolding publish_to
  publish_to-AllFiled pm [] s f v = (tt, v)
  publish_to-AllFiled pm ((i, ss) ∷ m) s f v =
      OnOk-chain IsFiled (λ (x : List (ℕ × SubSearch) × State Text). AllFiled x.0 × IsFiled x.1)
        (send_queries p (serialize_message p.archive (Message.publish pm))
          (take publish_redundancy (sort_ranked ss.pq)) s)
        _ (send_queries-IsFiled p _ (take publish_redundancy (sort_ranked ss.pq)) s v)
        (λ s' v'.
          OnOk-chain (λ (x : List (ℕ × SubSearch) × State Text). AllFiled x.0 × IsFiled x.1)
            (λ (x : List (ℕ × SubSearch) × State Text). AllFiled x.0 × IsFiled x.1)
            (publish_to p pm m s') _ (publish_to-AllFiled pm m s' f.1 v')
            (λ x w. ((f.0, w.0), w.1)))

  share_found-IsFiled :
      (id : ℕ) (info : FileInfo) (sr : Search) (s : State Text)
      → IsFiledSearch id sr
      → IsFiled s
      → OnOk (λ x. IsFiled x.1) (share_found p id info sr s)
  unfolding share_found
  share_found-IsFiled id info sr s f v =
      let subs = map (λ (e : ℕ × SubSearch). (e.0, touch_results e.1)) sr.sub_searches in
      let filed = touch_results-AllFiled sr.sub_searches f.2 in
      let pm : PublishMessage = record { file_info = info } in
      OnOk-if (λ (x : Bool × State Text). IsFiled x.1) (hops_done false subs || queues_empty subs) _
        _
        (OnOk-chain (λ (x : List (ℕ × SubSearch) × State Text). AllFiled x.0 × IsFiled x.1)
          (λ (x : Bool × State Text). IsFiled x.1) (publish_to p pm subs s) _
          (publish_to-AllFiled pm subs s filed v)
          (λ x w.
            IsFiled-same _ _ refl refl refl
              (assign-IsFiled id (record sr { sub_searches = x.0 }) x.1 (f.0, f.1, w.0) w.1)))
        (assign-IsFiled id (record sr { sub_searches = subs }) s (f.0, f.1, filed) v)

  pub share_round-IsFiled :
      (id : ℕ) (info : FileInfo) (s : State Text)
      → IsFiled s
      → OnOk (λ x. IsFiled x.1) (share_round p id info (λ x. x) s)
  unfolding share_round find_search
  share_round-IsFiled id info s v = elim (Option-cases (find_search id s)) [
    | inl gone ↦ rw (share_round, find_search, gone) v
    | inr (sr, there) ↦
        rw (share_round, find_search, there)
          (OnOk-chain (λ (x : Bool × State Text). IsFiled x.1)
            (λ (x : Bool × State Text). IsFiled x.1) (share_found p id info sr s) _
            (share_found-IsFiled id info sr s
              (find_id-All IsFiledSearch id sr s.searches there v.searches) v)
            (λ x w. w))
  ]
