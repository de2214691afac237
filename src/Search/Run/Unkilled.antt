-- ===== src/Search/Run/Unkilled.antt =====
-- How `sub_search::run` of dht/protocol/search_manager.cpp ends if nobody sets `kill_search`.
use spatter.Messages.Search.{SearchResult, SearchType}
use spatter.Search.Run.{
  Run, inner, taken, finished, start, current, update, Step, stop, round, leave, wait, time_out,
  take_all, break_off, work, respond, kill, tick, Reach, here, next,
}
use spatter.Search.Run.Bounds.{current-update, some_injective, advance_current}
use spatter.Search.Run.Rounds.{rounds, rounds_at_most, Step-From}
use spatter.Search.SubSearches.{
  ask_next_nodes, send_queries, take_responses, add_response, give_up_search, max_hops,
}
use spatter.Search.Suggestions.{suggest_nodes, take_result, take_batch}
use spatter.State.{State, Platform, Search, SubSearch, terminated}
use spatter.Prelude.{
  OnOk-ok, ℕ, ◌+◌, ◌≡◌, refl, sym, ◌∙◌, ap, subst, Bool, true, false, ◌||◌, ltb, List, [], ◌∷◌,
  some, ok, find_id, >>=-eq-ok, arith,
}

take_batch_kill :
    (type : SearchType) (l : List SearchResult) (ss ss' : SubSearch)
    → take_batch type l ss ≡ ok ss'
    → ss'.kill_search ≡ ss.kill_search
unfolding take_batch take_result
take_batch_kill type [] ss ss' e = OnOk-ok (λ x. x.kill_search ≡ ss.kill_search) (ok ss) ss' e refl
take_batch_kill type (srm ∷ l) ss ss' e =
    let (mid, one, rest) = >>=-eq-ok (take_result type srm ss) _ e in
    let (q, done, left) =
      >>=-eq-ok
        (suggest_nodes ss.next_nodes_queue_max_size ss.key srm.node_list ss.next_nodes_queue) _
        one in
    take_batch_kill type l mid ss' rest
    ∙ OnOk-ok (λ x. x.kill_search ≡ ss.kill_search) _ mid left refl

ask_next_nodes_kill :
    {Text : Type 0} (p : Platform Text) (sr : Search) (ss asked : SubSearch) (s s' : State Text)
    → ask_next_nodes p sr ss s ≡ ok (asked, s')
    → asked.kill_search ≡ ss.kill_search
unfolding ask_next_nodes
ask_next_nodes_kill p sr ss asked s s' e =
    let (t, sent, rest) = >>=-eq-ok (send_queries p _ ss.next_nodes_queue s) _ e in
    OnOk-ok (λ x. x.0.kill_search ≡ ss.kill_search) _ (asked, s') rest refl

add_response_hops : (srm : SearchResult) (ss : SubSearch) → (add_response srm ss).hops ≡ ss.hops
unfolding add_response
add_response_hops srm ss = ground arith

only_left : (a b : Bool) → a || b ≡ true → b ≡ false → a ≡ true
only_left a b h k = ground (arith, h, k)

add_response_kill :
    (srm : SearchResult) (ss : SubSearch) → (add_response srm ss).kill_search ≡ ss.kill_search
unfolding add_response
add_response_kill srm ss = ground arith

module _ {Text : Type 0} (p : Platform Text) where
  unfoldable pub is_kill : {r u : Run Text} → Step p r u → ℕ
  is_kill (stop ss at f g e) = 0
  is_kill (round ss mid asked sr id s s' at f g moved m done e) = 0
  is_kill (leave ss at f g e) = 0
  is_kill (wait ss at f g e) = 0
  is_kill (time_out ss at f g e) = 0
  is_kill (take_all ss left batch at f g t e) = 0
  is_kill (break_off ss batch at f g e) = 0
  is_kill (work ss after batch at f g t e) = 0
  is_kill (respond ss srm f e) = 0
  is_kill (kill ss f e) = 1
  is_kill (tick e) = 0

  -- How often `kill_search` is set in a run.
  unfoldable pub kills : {r u : Run Text} → Reach p r u → ℕ
  unfolding is_kill
  kills here = 0
  kills (next run step) = kills run + is_kill step

  abbrev Alive : Run Text → Type 0
  Alive r = (ss : SubSearch) → current r ≡ some ss → ss.kill_search ≡ false

  updated : (t : Run Text) (new : SubSearch) → new.kill_search ≡ false → Alive (update new t)
  updated t new k ss' e =
      subst (λ (x : SubSearch). x.kill_search ≡ false)
        (some_injective new ss' (sym (current-update t new) ∙ e)) k

  moved_on : (r u : Run Text) → current r ≡ current u → Alive r → Alive u
  moved_on r u same a ss' e = a ss' (same ∙ e)

  Step-Alive : (r u : Run Text) (step : Step p r u) → is_kill step ≡ 0 → Alive r → Alive u
  unfolding is_kill take_responses
  Step-Alive r u (stop ss at f g e) n a =
      rw e (updated (record r { phase = finished }) (record ss { status = terminated }) (a ss f))
  Step-Alive r u (round ss mid asked sr id s s' at f g moved m done e) n a = rw e (
      updated (record r { phase = inner; id = id; search = sr; state = s' }) asked
        (ask_next_nodes_kill p sr mid asked s s' done
          ∙ (advance_current r.id id r.search sr ss mid r.state s f moved m).2
          ∙ a ss f))
  Step-Alive r u (leave ss at f g e) n a = moved_on r u (rw e refl) a
  Step-Alive r u (wait ss at f g e) n a = moved_on r u (rw e refl) a
  Step-Alive r u (time_out ss at f g e) n a = moved_on r u (rw e refl) a
  Step-Alive r u (take_all ss left batch at f g t e) n a = rw e (
      updated (record r { phase = taken batch }) left
        (subst (λ (x : SubSearch). x.kill_search ≡ false)
          (ap (λ (x : List SearchResult × SubSearch). x.1) t) (a ss f)))
  Step-Alive r u (break_off ss batch at f g e) n a = moved_on r u (rw e refl) a
  Step-Alive r u (work ss after batch at f g t e) n a = rw e (
      updated (record r { phase = inner }) after
        (take_batch_kill r.search.type batch ss after t ∙ a ss f))
  Step-Alive r u (respond ss srm f e) n a =
      rw e (updated r (add_response srm ss) (add_response_kill srm ss ∙ a ss f))
  Step-Alive r u (kill ss f e) n a = absurd (omega (arith, n))
  Step-Alive r u (tick e) n a = moved_on r u (rw e refl) a

  -- Where a run has ended the sub-search has given up.
  abbrev Ended : Run Text → Type 0
  Ended r = r.phase ≡ finished → (ss : SubSearch) → current r ≡ some ss → give_up_search ss ≡ true

  given_up :
      (t : Run Text) (ss new ss' : SubSearch)
      → new.hops ≡ ss.hops
      → give_up_search ss ≡ true
      → current (update new t) ≡ some ss'
      → give_up_search ss' ≡ true
  unfolding give_up_search
  given_up t ss new ss' h g e =
      subst (λ (x : SubSearch). ltb max_hops x.hops ≡ true)
        (some_injective new ss' (sym (current-update t new) ∙ e)) (rw h g)

  Step-Ended : (r u : Run Text) (step : Step p r u) → Alive r → Ended r → Ended u
  Step-Ended r u (stop ss at f g e) a v = rw e (λ h ss' c.
      given_up (record r { phase = finished }) ss (record ss { status = terminated }) ss' refl
        (only_left (give_up_search ss) ss.kill_search g (a ss f)) c)
  Step-Ended r u (round ss mid asked sr id s s' at f g moved m done e) a v = rw e (λ h. cc)
  Step-Ended r u (leave ss at f g e) a v = rw e (λ h. cc)
  Step-Ended r u (wait ss at f g e) a v = rw e (λ h. cc)
  Step-Ended r u (time_out ss at f g e) a v = rw e (λ h. cc)
  Step-Ended r u (take_all ss left batch at f g t e) a v = rw e (λ h. cc)
  Step-Ended r u (break_off ss batch at f g e) a v = rw e (λ h. cc)
  Step-Ended r u (work ss after batch at f g t e) a v = rw e (λ h. cc)
  Step-Ended r u (respond ss srm f e) a v =
      rw e
        (λ h ss' c. given_up r ss (add_response srm ss) ss' (add_response_hops srm ss) (v h ss f) c)
  Step-Ended r u (kill ss f e) a v =
      rw e (λ h ss' c. given_up r ss (record ss { kill_search = true }) ss' refl (v h ss f) c)
  Step-Ended r u (tick e) a v = rw e v

  Reach-Ended :
      {r u : Run Text} (run : Reach p r u) → kills run ≡ 0 → Alive r → Ended r → Alive u × Ended u
  unfolding kills
  Reach-Ended here n a v = (a, v)
  Reach-Ended (next {t} {u} run step) n a v =
      let (b, w) = Reach-Ended run (omega (arith, n)) a v in
      (Step-Alive t u step (omega (arith, n)) b, Step-Ended t u step b w)

  Reach-hops :
      {r u : Run Text} (run : Reach p r u) (ss ss' : SubSearch)
      → current r ≡ some ss
      → current u ≡ some ss'
      → ss'.hops ≡ ss.hops + rounds p run
  unfolding rounds
  Reach-hops here ss ss' f g =
      omega (arith, ap (λ (x : SubSearch). x.hops) (some_injective ss ss' (sym f ∙ g)))
  Reach-hops (next {t} {u} run step) ss ss' f g =
      let (mid, h, w) = Step-From p t u step ss' g in
      omega (arith, Reach-hops run ss mid f h, w.hops)

  -- A thread that nobody kills ends only after eight rounds, one more than `max_hops`, whatever
  -- responses come in and however long it takes: so it is for every run from the start of a sub-search
  -- with no hop behind it in which nobody sets `kill_search`.
  pub unkilled_runs_through :
      (now id : ℕ) (sr : Search) (s : State Text) (u : Run Text) (ss ss' : SubSearch)
      (run : Reach p (start now id sr s) u)
      → find_id id sr.sub_searches ≡ some ss
      → ss.hops ≡ 0
      → ss.kill_search ≡ false
      → kills run ≡ 0
      → u.phase ≡ finished
      → current u ≡ some ss'
      → rounds p run ≡ max_hops + 1
  unfolding give_up_search
  unkilled_runs_through now id sr s u ss ss' run f zero_hops alive n ended g =
      let (_, v) =
        Reach-Ended run n
          (λ x e.
            subst (λ (y : SubSearch). y.kill_search ≡ false) (some_injective ss x (sym f ∙ e))
              alive)
          (λ e. cc) in
      let done = v ended ss' g in
      let hops = Reach-hops run ss ss' f g in
      let most = rounds_at_most p (start now id sr s) u run in ground arith
