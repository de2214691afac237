-- ===== src/Console/Invariant.antt =====
-- What the commands of ui/console_ui.cpp keep: the well-formedness of the state.
use spatter.Search.Kept.{StateKept, pair_kept, loop_kept, start_query_search_keeps}
use spatter.Console.Share.Kept.{Orderly, share_tokens_keeps}
use spatter.Boost.{codes}
use spatter.Console.{
  Surroundings, query_separators, share, query_search, search_result, search_kill, run_tokens,
  run_command, console,
}
use spatter.Console.Share.{Moment}
use spatter.Control.Invariant.{IsNode, IsNode-same}
use spatter.Messages.Str.{Str, str_eq}
use spatter.Search.Manager.{start_query_search, remove_search}
use spatter.State.{State}
use spatter.Prelude.{
  OnOk, OnOk-if, OnOk-chain, OnOk-rule, OnOk-ok, ◌≡◌, Bool, true, false, List, [], ◌∷◌, Outcome, ok,
  ◌>>=◌, All, arith,
}

module _ {Text : Type 0} (w : Surroundings Text) where
  share_keeps :
      (t : Moment Text) (args : List Str) (s : State Text)
      → Orderly t
      → IsNode s
      → OnOk IsNode (share w t args s)
  unfolding share
  share_keeps t [] s o v = tt
  share_keeps t (path ∷ args) s o v =
      share_tokens_keeps w.platform w.tiger w.sort path t 0 (w.boost.tokenize query_separators path)
        s o v

  pub query_search_keeps :
      (t : Moment Text) (command : Str) (s : State Text)
      → IsNode s
      → OnOk IsNode (query_search w t command s)
  unfolding query_search
  query_search_keeps t command s v =
      pair_kept IsNode (start_query_search w.tiger w.sort _ _ _ _ s) _
        (start_query_search_keeps w.tiger w.sort _ _ _ _ s v) (λ id s' v'. v')

  pub search_result_keeps :
      (args : List Str) (s : State Text) → IsNode s → OnOk IsNode (search_result w args s)
  unfolding search_result
  search_result_keeps [] s v = tt
  search_result_keeps (arg ∷ args) s v =
      OnOk-rule IsNode (search_result w (arg ∷ args) s)
        (λ s' e. IsNode-same s s' (ground arith) (ground arith) (ground arith) v)

  pub search_kill_keeps :
      (args : List Str) (s : State Text) → IsNode s → OnOk IsNode (search_kill w args s)
  unfolding search_kill remove_search
  search_kill_keeps [] s v = tt
  search_kill_keeps (arg ∷ args) s v =
      OnOk-rule IsNode (search_kill w (arg ∷ args) s)
        (λ s' e. IsNode-same s s' (ground arith) (ground arith) (ground arith) v)

  then_continue :
      (m : Outcome (State Text)) → OnOk IsNode m → StateKept (m >>= λ s'. ok (false, s'))
  then_continue m v = OnOk-chain IsNode (λ (x : Bool × State Text). IsNode x.1) m _ v (λ s' v'. v')

  run_tokens_keeps :
      (t : Moment Text) (command : Str) (toks : List Str) (s : State Text)
      → Orderly t
      → IsNode s
      → StateKept (run_tokens w t command toks s)
  unfolding run_tokens
  run_tokens_keeps t command [] s o v = tt
  run_tokens_keeps t command (tok ∷ args) s o v =
      OnOk-if (λ x. IsNode x.1) (str_eq tok (codes "share")) _ _
        (then_continue (share w t args s) (share_keeps t args s o v))
        (OnOk-if (λ x. IsNode x.1) (str_eq tok (codes "search")) _ _
          (then_continue (query_search w t command s) (query_search_keeps t command s v))
          (OnOk-if (λ x. IsNode x.1) (str_eq tok (codes "search_result")) _ _
            (then_continue (search_result w args s) (search_result_keeps args s v))
            (OnOk-if (λ x. IsNode x.1) (str_eq tok (codes "search_kill")) _ _
              (then_continue (search_kill w args s) (search_kill_keeps args s v)) v)))

  run_command_keeps :
      (t : Moment Text) (line : Str) (s : State Text)
      → Orderly t
      → IsNode s
      → StateKept (run_command w t line s)
  unfolding run_command
  run_command_keeps t [] s o v = v
  run_command_keeps t (c ∷ line) s o v = run_tokens_keeps t (c ∷ line) _ s o v

  console_keeps :
      (lines : List (Str × Moment Text)) (s : State Text)
      → All (λ l. Orderly l.1) lines
      → IsNode s
      → StateKept (console w lines s)
  unfolding console
  console_keeps [] s o v = v
  console_keeps ((line, t) ∷ lines) s o v =
      pair_kept (λ x. IsNode x.1) (run_command w t line (t.meanwhile s)) _
        (run_command_keeps t line (t.meanwhile s) o.0 (o.0.meanwhile s v))
        (λ quit s' v'.
          loop_kept (λ x. IsNode x.1) quit (ok (true, s')) (console w lines s') v'
            (console_keeps lines s' o.1 v'))

  -- Whatever is typed on the console, for any number of lines, a well-formed state stays
  -- well-formed, if the other threads keep it so and no command faults.
  pub console-IsNode :
      (lines : List (Str × Moment Text)) (s s' : State Text) (quit : Bool)
      → All (λ l. Orderly l.1) lines
      → IsNode s
      → console w lines s ≡ ok (quit, s')
      → IsNode s'
  console-IsNode lines s s' quit o v e =
      OnOk-ok (λ x. IsNode x.1) (console w lines s) (quit, s') e (console_keeps lines s o v)
