-- ===== src/Console/Share/Kept.antt =====
-- What `share` of ui/console_ui.cpp keeps: the well-formedness of the state.
use spatter.Search.Kept.{
  StateKept, pair_kept, loop_kept, start_hash_search_keeps, send_queries_keeps,
}
use spatter.Console.Share.{
  Moment, publish_to, share_found, share_round, share_loop, share_tokens, queues_empty, hops_done,
  publish_redundancy, sort_ranked, touch_results,
}
use spatter.Control.Invariant.{IsNode, IsNode-same}
use spatter.Dht.{insert_file_info_record}
use spatter.Dht.Records.{insert_file_info_record-IsTable}
use spatter.Messages.Archive.{Message, serialize_message}
use spatter.Messages.File.{FileInfo, PublishMessage}
use spatter.Messages.Hash.{Hash}
use spatter.Messages.Node.{NodeRecord}
use spatter.Messages.Str.{Str}
use spatter.Search.Manager.{start_hash_search, find_search}
use spatter.Search.SubSearches.{send_queries}
use spatter.State.{State, Platform, Search, SubSearch}
use spatter.Prelude.{
  OnOk, OnOk-if, OnOk-chain, ℕ, ◌+◌, refl, Bool, true, false, ◌||◌, List, [], ◌∷◌, map, none, some,
  Outcome, ok, assign, take, ◌>>=◌, All,
}

-- Other threads that keep it too.
abbrev pub AllKeep : {Text : Type 0} → List (State Text → State Text) → Type 0
AllKeep = All (λ f. (s : State _) → IsNode s → IsNode (f s))

pub record Orderly {Text : Type 0} (t : Moment Text) : Type 0 where
  pub others : (i : ℕ) → AllKeep (t.others i)
  pub meanwhile : (s : State Text) → IsNode s → IsNode (t.meanwhile s)

module _ {Text : Type 0} (p : Platform Text) where
  publish_to_keeps :
      (pm : PublishMessage) (m : List (ℕ × SubSearch)) (s : State Text)
      → IsNode s
      → StateKept (publish_to p pm m s)
  unfolding publish_to
  publish_to_keeps pm [] s v = v
  publish_to_keeps pm ((i, ss) ∷ m) s v =
      let msg = serialize_message p.archive (Message.publish pm) in
      let sorted = sort_ranked ss.pq in
      let first = take publish_redundancy sorted in
      OnOk-chain IsNode (λ (x : List (ℕ × SubSearch) × State Text). IsNode x.1)
        (send_queries p msg first s)
        (λ s'. do (m', s'') ← publish_to p pm m s'; ok ((i, record ss { pq = sorted }) ∷ m', s''))
        (send_queries_keeps p msg first s v)
        (λ s' v'.
          pair_kept (λ (x : List (ℕ × SubSearch) × State Text). IsNode x.1) (publish_to p pm m s')
            (λ (m', s''). ok ((i, record ss { pq = sorted }) ∷ m', s''))
            (publish_to_keeps pm m s' v') (λ m' s'' v''. v''))

  share_found_keeps :
      (id : ℕ) (info : FileInfo) (sr : Search) (s : State Text)
      → IsNode s
      → StateKept (share_found p id info sr s)
  unfolding share_found
  share_found_keeps id info sr s v =
      let subs = map (λ (e : ℕ × SubSearch). (e.0, touch_results e.1)) sr.sub_searches in
      let pm : PublishMessage = record { file_info = info } in
      OnOk-if (λ (x : Bool × State Text). IsNode x.1) (hops_done false subs || queues_empty subs) _
        _
        (pair_kept (λ (x : Bool × State Text). IsNode x.1) (publish_to p pm subs s)
          (λ (subs', s'). ok (
            true,
            record s' {
              searches = assign id (record sr { sub_searches = subs' }) s'.searches;
              dht = insert_file_info_record s'.dht info;
            },
          ))
          (publish_to_keeps pm subs s v)
          (λ subs' s' v'. record {
            buckets = v'.buckets;
            placed = unfold insert_file_info_record in v'.placed;
            table = insert_file_info_record-IsTable s'.dht info v'.table;
            receiving = v'.receiving;
          }))
        (IsNode-same s _ refl refl refl v)

  pub share_round_keeps :
      (id : ℕ) (info : FileInfo) (others : State Text → State Text) (s : State Text)
      → ((u : State Text) → IsNode u → IsNode (others u))
      → IsNode s
      → StateKept (share_round p id info others s)
  unfolding share_round
  share_round_keeps id info others s o v =
      elim (find_search id s)
        as (λ f. StateKept (elim f as (λ x. Outcome (Bool × State Text)) [
          | none ↦ ok (true, s)
          | some sr ↦ share_found p id info sr s >>= λ (done, s'). ok (done, others s')
        ])) [
          | none ↦ v
          | some sr ↦
              pair_kept (λ x. IsNode x.1) (share_found p id info sr s) _
                (share_found_keeps id info sr s v) (λ done s' v'. o s' v')
        ]

  share_loop_keeps :
      (id : ℕ) (info : FileInfo) (later : List (State Text → State Text)) (s : State Text)
      → AllKeep later
      → IsNode s
      → OnOk IsNode (share_loop p id info later s)
  unfolding share_loop
  share_loop_keeps id info [] s o v = tt
  share_loop_keeps id info (others ∷ later) s o v =
      pair_kept IsNode (share_round p id info others s) _ (share_round_keeps id info others s o.0 v)
        (λ done s' v'.
          loop_kept IsNode done (ok s') (share_loop p id info later s') v'
            (share_loop_keeps id info later s' o.1 v'))

  pub share_tokens_keeps :
      (tiger : Str → Hash) (sort : List NodeRecord → List NodeRecord) (path : Str) (t : Moment Text)
      (i : ℕ) (toks : List Str) (s : State Text)
      → Orderly t
      → IsNode s
      → OnOk IsNode (share_tokens p tiger sort path t i toks s)
  unfolding share_tokens
  share_tokens_keeps tiger sort path t i [] s o v = v
  share_tokens_keeps tiger sort path t i ([] ∷ toks) s o v =
      share_tokens_keeps tiger sort path t (i + 1) toks s o v
  share_tokens_keeps tiger sort path t i ((c ∷ tok) ∷ toks) s o v =
      pair_kept IsNode (start_hash_search tiger sort (t.now i) (tiger (c ∷ tok)) _ s) _
        (start_hash_search_keeps tiger sort (t.now i) (tiger (c ∷ tok)) _ s v)
        (λ id s' v'.
          OnOk-chain IsNode IsNode (share_loop p id _ (t.others i) s') _
            (share_loop_keeps id _ (t.others i) s' (o.others i) v')
            (λ s'' v''. share_tokens_keeps tiger sort path t (i + 1) toks s'' o v''))
