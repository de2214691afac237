-- ===== src/Program/Session.antt =====
-- `main` of main.cpp from its start to its end: the start, the console's thread, `join`, and what is
-- saved. The other threads run between the console's lines; interrupting them at the end touches no
-- state of the model.
use spatter.Boost.{IsDocumented, codes}
use spatter.Config.{Config, Props, get_param, saved_text, save_config}
use spatter.Config.Files.{buffer_size}
use spatter.Config.RoundTrip.{IsEntry, DistinctNames, IsReordered}
use spatter.Config.Settled.{same_value}
use spatter.Console.{console}
use spatter.Console.Invariant.{console-IsNode}
use spatter.Console.Share.{Moment}
use spatter.Console.Share.Kept.{Orderly}
use spatter.Control.Invariant.{IsNode}
use spatter.Main.{Host, start_up, shut_down}
use spatter.Main.Restart.{start_up-shut_down}
use spatter.Main.Startup.{start_up-IsNode}
use spatter.Messages.Node.{NodeRecord}
use spatter.Messages.Str.{Str, str_eq}
use spatter.Program.{surroundings}
use spatter.State.{State}
use spatter.Prelude.{
  Bool-cases, inl, inr, ◌<◌, ◌≡◌, refl, sym, ap, subst, ◌∙◌, Bool, true, false, List, [], Option,
  none, some, length, if◌then◌else◌, All, Outcome, ok, >>=-eq-ok, ◌>>=◌,
}

ended_with :
    {A B : Type 0} (quit : Bool) (a a' : A) (b b' : B)
    → ◌≡◌ {A = Outcome (Option (A × B))}
        (ok (if quit then some (a, b) else none))
        (ok (some (a', b')))
    → (a' ≡ a) × ◌≡◌ {A = Outcome (Bool × B)} (ok (quit, b)) (ok (true, b'))
ended_with true a a' b b' e = (cc, cc)
ended_with false a a' b b' e = cc

module _ {Text : Type 0} (h : Host Text) (sort : List NodeRecord → List NodeRecord) where
  -- `none` if the console has not ended, on which `join` waits.
  unfoldable pub session :
      List (Str × Moment Text) → Config → Outcome (Option (Config × State Text))
  session lines c0 = do
    (c, s) ← start_up h c0
    (quit, s') ← console (surroundings h sort) lines s
    ok (if quit then some (shut_down h c, s') else none)

  shut_down_props : (c : Config) → (shut_down h c).props ≡ c.props
  unfolding shut_down save_config
  shut_down_props c = elim (Bool-cases (h.opens c.config_file)) [
    | inl open_file ↦ rw open_file refl
    | inr no_file ↦ rw no_file refl
  ]

  session_parts :
      (lines : List (Str × Moment Text)) (c0 c' : Config) (s' : State Text)
      → session lines c0 ≡ ok (some (c', s'))
      → (c : Config) × (s : State Text) × (start_up h c0 ≡ ok (c, s))
        × (console (surroundings h sort) lines s ≡ ok (true, s'))
        × (c' ≡ shut_down h c)
  unfolding session
  session_parts lines c0 c' s' e =
      let ((c, s), started, e1) = >>=-eq-ok (start_up h c0) _ e in
      let ((quit, t), typed, e2) = >>=-eq-ok (console (surroundings h sort) lines s) _ e1 in
      let (saved, ended) = ended_with quit (shut_down h c) c' t s' e2 in
      (c, s, started, typed ∙ ended, saved)

  -- A session that has ended leaves the state well-formed, whatever was typed and whatever the other
  -- threads did in between, as far as they keep it so; and the next start, with no parameters and the files
  -- as the session has left them, goes like the session's own start: it succeeds, with the saved
  -- parameters, in the order in which they were written, and in the same state. This is for a table of
  -- parameters that has no name twice at first, an order of writing that has its entries at the end, a
  -- file of parameters that can be written, is shorter than the buffer and is not the list of friends,
  -- parameters that can be written as lines, and the same answers of boost, the clock, the random numbers
  -- and the socket.
  pub session_restarts :
      (lines : List (Str × Moment Text)) (c0 c' : Config) (s' : State Text)
      → IsDocumented h.boost
      → DistinctNames c0.props
      → h.opens (codes "spatter.conf") ≡ true
      → All (λ l. Orderly l.1) lines
      → session lines c0 ≡ ok (some (c', s'))
      → IsReordered c'.props (h.order c'.props)
      → All IsEntry (h.order c'.props)
      → length (saved_text (h.order c'.props)) < buffer_size
      → str_eq (get_param (codes "dht.friendlist") c').0 (codes "spatter.conf") ≡ false
      → IsNode s'
        × ((c : Config) × (s : State Text) × (start_up h c0 ≡ ok (c, s))
            × (start_up h (record c' { props = [] })
                ≡ ok (record c' { props = h.order c'.props }, s)))
  session_restarts lines c0 c' s' documented v opens orderly e reordered entries short other =
      let (c, s, started, typed, saved) = session_parts lines c0 c' s' e in
      let props = ap (λ (x : Config). x.props) saved ∙ shut_down_props c in
      (
        console-IsNode (surroundings h sort) lines s s' true orderly
            (start_up-IsNode h c0 c s started) typed,
        (
          c,
          s,
          started,
          subst
              (λ (x : Config).
                start_up h (record x { props = [] })
                ≡ ok (record x { props = h.order c'.props }, s))
              (sym saved)
              (subst
                (λ (m : Props).
                  start_up h (record (shut_down h c) { props = [] })
                  ≡ ok (record (shut_down h c) { props = h.order m }, s))
                (sym props)
                (start_up-shut_down h c0 c s documented v opens started
                  (subst (λ (m : Props). IsReordered m (h.order m)) props reordered)
                  (subst (λ (m : Props). All IsEntry (h.order m)) props entries)
                  (subst (λ (m : Props). length (saved_text (h.order m)) < buffer_size) props short)
                  (ap (λ (x : Str). str_eq x (codes "spatter.conf")) (same_value _ c' c props)
                    ∙ other))),
        ),
      )
