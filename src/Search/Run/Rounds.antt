-- ===== src/Search/Run/Rounds.antt =====
-- How often `sub_search::run` of dht/protocol/search_manager.cpp goes round its outer loop.
use spatter.Messages.Search.{SearchResult, SearchType}
use spatter.Search.Run.{
  Run, inner, taken, finished, current, update, Step, stop, round, leave, wait, time_out, take_all,
  break_off, work, respond, kill, tick, Reach, here, next,
}
use spatter.Search.Run.Bounds.{current-update, some_injective, advance_current, give_up_false}
use spatter.Search.SubSearches.{
  ask_next_nodes, send_queries, take_responses, add_response, max_hops,
}
use spatter.Search.Suggestions.{suggest_nodes, take_result, take_batch}
use spatter.State.{State, Platform, Search, SubSearch, terminated}
use spatter.Prelude.{
  OnOk-ok, ℕ, ◌+◌, ◌≤◌, ◌≡◌, refl, sym, ◌∙◌, ap, subst, true, List, [], ◌∷◌, some, ok, >>=-eq-ok,
  arith,
}

-- The next sub-search has `n` more hops, and is killed if this one is.
pub record Follows (n : ℕ) (ss ss' : SubSearch) : Type 0 where
  pub hops : ss'.hops ≡ ss.hops + n
  pub still_killed : ss.kill_search ≡ true → ss'.kill_search ≡ true

Follows-refl : (ss : SubSearch) → Follows 0 ss ss
Follows-refl ss = record { hops = omega arith; still_killed = λ k. k }

Follows-trans : (a b c : SubSearch) → Follows 0 a b → Follows 0 b c → Follows 0 a c
Follows-trans a b c f g = record {
  hops = omega (arith, f.hops, g.hops);
  still_killed = λ k. g.still_killed (f.still_killed k);
}

take_result-Follows :
    (type : SearchType) (srm : SearchResult) (ss ss' : SubSearch)
    → take_result type srm ss ≡ ok ss'
    → Follows 0 ss ss'
unfolding take_result
take_result-Follows type srm ss ss' e =
    let (q, done, rest) =
      >>=-eq-ok
        (suggest_nodes ss.next_nodes_queue_max_size ss.key srm.node_list ss.next_nodes_queue) _ e in
    OnOk-ok (Follows 0 ss) _ ss' rest (record { hops = omega arith; still_killed = λ k. k })

take_batch-Follows :
    (type : SearchType) (l : List SearchResult) (ss ss' : SubSearch)
    → take_batch type l ss ≡ ok ss'
    → Follows 0 ss ss'
unfolding take_batch
take_batch-Follows type [] ss ss' e = OnOk-ok (Follows 0 ss) (ok ss) ss' e (Follows-refl ss)
take_batch-Follows type (srm ∷ l) ss ss' e =
    let (mid, one, rest) = >>=-eq-ok (take_result type srm ss) _ e in
    Follows-trans ss mid ss' (take_result-Follows type srm ss mid one)
      (take_batch-Follows type l mid ss' rest)

ask_next_nodes_hops :
    {Text : Type 0} (p : Platform Text) (sr : Search) (ss asked : SubSearch) (s s' : State Text)
    → ask_next_nodes p sr ss s ≡ ok (asked, s')
    → asked.hops ≡ ss.hops
unfolding ask_next_nodes
ask_next_nodes_hops p sr ss asked s s' e =
    let (t, sent, rest) = >>=-eq-ok (send_queries p _ ss.next_nodes_queue s) _ e in
    OnOk-ok (λ x. x.0.hops ≡ ss.hops) _ (asked, s') rest refl

add_response-Follows : (srm : SearchResult) (ss : SubSearch) → Follows 0 ss (add_response srm ss)
unfolding add_response
add_response-Follows srm ss = record { hops = ground arith; still_killed = λ k. ground arith }

module _ {Text : Type 0} (p : Platform Text) where
  unfoldable pub is_round : {r u : Run Text} → Step p r u → ℕ
  is_round (stop ss at f g e) = 0
  is_round (round ss mid asked sr id s s' at f g moved m done e) = 1
  is_round (leave ss at f g e) = 0
  is_round (wait ss at f g e) = 0
  is_round (time_out ss at f g e) = 0
  is_round (take_all ss left batch at f g t e) = 0
  is_round (break_off ss batch at f g e) = 0
  is_round (work ss after batch at f g t e) = 0
  is_round (respond ss srm f e) = 0
  is_round (kill ss f e) = 0
  is_round (tick e) = 0

  -- The rounds of a run.
  unfoldable pub rounds : {r u : Run Text} → Reach p r u → ℕ
  unfolding is_round
  rounds here = 0
  rounds (next run step) = rounds run + is_round step

  -- Where the sub-search of a point comes from.
  abbrev pub From : (n : ℕ) (r : Run Text) (ss' : SubSearch) → Type 0
  From n r ss' = (ss : SubSearch) × (current r ≡ some ss) × Follows n ss ss'

  changed :
      (n : ℕ) (r t : Run Text) (ss new ss' : SubSearch)
      → current r ≡ some ss
      → Follows n ss new
      → current (update new t) ≡ some ss'
      → From n r ss'
  changed n r t ss new ss' f g e =
      (ss, f, subst (Follows n ss) (some_injective new ss' (sym (current-update t new) ∙ e)) g)

  kept :
      (r u : Run Text) (ss' : SubSearch)
      → current r ≡ current u
      → current u ≡ some ss'
      → From 0 r ss'
  kept r u ss' same e = (ss', same ∙ e, Follows-refl ss')

  pub Step-From :
      (r u : Run Text) (step : Step p r u) (ss' : SubSearch)
      → current u ≡ some ss'
      → From (is_round step) r ss'
  unfolding is_round take_responses
  Step-From r u (stop ss at f g e) ss' c =
      changed 0 r (record r { phase = finished }) ss (record ss { status = terminated }) ss' f
        (record { hops = omega arith; still_killed = λ k. k }) (rw e at c)
  Step-From r u (round ss mid asked sr id s s' at f g moved m done e) ss' c =
      let (hops, _, _) = advance_current r.id id r.search sr ss mid r.state s f moved m in
      changed 1 r (record r { phase = inner; id = id; search = sr; state = s' }) ss asked ss' f
        (record {
          hops = ask_next_nodes_hops p sr mid asked s s' done ∙ hops;
          still_killed = λ k. absurd (ground arith);
        })
        (rw e at c)
  Step-From r u (leave ss at f g e) ss' c = kept r u ss' (rw e refl) c
  Step-From r u (wait ss at f g e) ss' c = kept r u ss' (rw e refl) c
  Step-From r u (time_out ss at f g e) ss' c = kept r u ss' (rw e refl) c
  Step-From r u (take_all ss left batch at f g t e) ss' c =
      changed 0 r (record r { phase = taken batch }) ss left ss' f
        (subst (Follows 0 ss) (ap (λ (x : List SearchResult × SubSearch). x.1) t)
          (record { hops = omega arith; still_killed = λ k. k }))
        (rw e at c)
  Step-From r u (break_off ss batch at f g e) ss' c = kept r u ss' (rw e refl) c
  Step-From r u (work ss after batch at f g t e) ss' c =
      changed 0 r (record r { phase = inner }) ss after ss' f
        (take_batch-Follows r.search.type batch ss after t) (rw e at c)
  Step-From r u (respond ss srm f e) ss' c =
      changed 0 r r ss (add_response srm ss) ss' f (add_response-Follows srm ss) (rw e at c)
  Step-From r u (kill ss f e) ss' c =
      changed 0 r r ss (record ss { kill_search = true }) ss' f
        (record { hops = omega arith; still_killed = λ k. refl }) (rw e at c)
  Step-From r u (tick e) ss' c = kept r u ss' (rw e refl) c

  -- A round starts with at most `max_hops` hops, and not after a kill.
  Step-round :
      (r u : Run Text) (step : Step p r u) (n : ℕ)
      → n ≤ max_hops + 1
      → ((ss : SubSearch) → current r ≡ some ss → n ≤ ss.hops)
      → n + is_round step ≤ max_hops + 1
  unfolding is_round
  Step-round r u (round ss mid asked sr id s s' at f g moved m done e) n b h =
      omega (arith, h ss f, give_up_false ss g)
  Step-round r u step n b h = omega arith

  Step-killed :
      (r u : Run Text) (step : Step p r u)
      → ((ss : SubSearch) → current r ≡ some ss → ss.kill_search ≡ true)
      → is_round step ≡ 0
  unfolding is_round
  Step-killed r u (round ss mid asked sr id s s' at f g moved m done e) k =
      let dead = k ss f in absurd (ground arith)
  Step-killed r u step k = refl

  -- The counted rounds have each added a hop.
  Counted : {r u : Run Text} → Reach p r u → Type 0
  unfolding rounds
  Counted {r} {u} run =
      (rounds run ≤ max_hops + 1) × ((ss : SubSearch) → current u ≡ some ss → rounds run ≤ ss.hops)

  Reach-Counted : {r u : Run Text} (run : Reach p r u) → Counted run
  unfolding rounds Counted
  Reach-Counted here = (omega arith, λ ss e. omega arith)
  Reach-Counted (next {t} {u} run step) =
      let (b, h) = Reach-Counted run in
      (
        Step-round t u step (rounds run) b h,
        λ ss' e. let (ss, f, g) = Step-From t u step ss' e in omega (arith, h ss f, g.hops),
      )

  -- No run of a sub-search's thread goes round its outer loop more than 8 times, one more than
  -- `max_hops`, whatever responses come in and however long it lasts.
  pub rounds_at_most : (r u : Run Text) (run : Reach p r u) → rounds run ≤ max_hops + 1
  unfolding Counted
  rounds_at_most r u run = (Reach-Counted run).0

  Reach-killed :
      {r u : Run Text} (ss : SubSearch)
      → current r ≡ some ss
      → ss.kill_search ≡ true
      → (run : Reach p r u)
      → (rounds run ≡ 0) × ((ss' : SubSearch) → current u ≡ some ss' → ss'.kill_search ≡ true)
  unfolding rounds
  Reach-killed ss f k here = (
    refl,
    λ ss' e. subst (λ (x : SubSearch). x.kill_search ≡ true) (some_injective ss ss' (sym f ∙ e)) k,
  )
  Reach-killed ss f k (next {t} {u} run step) =
      let (none_yet, killed) = Reach-killed ss f k run in
      (
        omega (arith, none_yet, Step-killed t u step killed),
        λ ss' e. let (x, g, w) = Step-From t u step ss' e in w.still_killed (killed x g),
      )

  -- Once a sub-search is killed, its thread starts no further round, and it stays killed.
  pub killed_runs_out :
      (r u : Run Text) (ss ss' : SubSearch) (run : Reach p r u)
      → current r ≡ some ss
      → ss.kill_search ≡ true
      → current u ≡ some ss'
      → (rounds run ≡ 0) × (ss'.kill_search ≡ true)
  killed_runs_out r u ss ss' run f k g =
      let (none_yet, killed) = Reach-killed ss f k run in (none_yet, killed ss' g)
