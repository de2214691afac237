-- ===== src/Console.antt =====
-- ui/console_ui.cpp: the commands. What is only written to the console is left out, and a line is what
-- readline gives: empty for an empty line and at the end of the input.
pub mod Share
pub mod Invariant
pub mod Publish
pub mod Kill
use spatter.Boost.{Boost, codes}
use spatter.Messages.Hash.{Hash}
use spatter.Messages.Node.{NodeRecord}
use spatter.Messages.Str.{Str, str_eq}
use spatter.Search.Manager.{start_query_search, find_search, remove_search}
use spatter.State.{State, Platform, Search, SubSearch, Ranked}
use spatter.Prelude.{
  ℕ, Bool, true, false, List, [], ◌∷◌, map, Option, none, some, drop, if◌then◌else◌, assign,
  Outcome, ok, fault, bad_iterator, thrown, ◌>>=◌,
}
use Share.{Moment, share_tokens, touch_results}

abbrev pub command_separators : Str
command_separators = codes " \t"

-- `q_sep` of this file and of `start_search`
abbrev pub query_separators : Str
query_separators = codes "`~!@#$%^&*()-_=+\\|[{]};:'\",<.>/? \t\n"

-- What all commands take from outside: boost, the archive and resolver, the hash function, and
-- `list::sort` on nodes.
pub record Surroundings (Text : Type 0) : Type 0 where
  pub boost : Boost
  pub platform : Platform Text
  pub tiger : Str → Hash
  pub sort : List NodeRecord → List NodeRecord

module _ {Text : Type 0} (w : Surroundings Text) where
  unfoldable pub share : Moment Text → List Str → State Text → Outcome (State Text)
  unfolding share_tokens
  share t [] s = fault bad_iterator
  share t (path ∷ args) s =
      share_tokens w.platform w.tiger w.sort path t 0 (w.boost.tokenize query_separators path) s

  -- The query is the command without its first six characters.
  unfoldable pub query_search : Moment Text → Str → State Text → Outcome (State Text)
  query_search t command s =
      start_query_search w.tiger w.sort (w.boost.tokenize query_separators) w.boost.trim (t.now 0)
        (drop 6 command) s
      >>= λ (id, s'). ok s'

  unfoldable pub search_result : List Str → State Text → Outcome (State Text)
  unfolding touch_results
  search_result [] s = fault bad_iterator
  search_result (arg ∷ args) s = elim (w.boost.lexical_cast 32 arg) [
    | none ↦ fault thrown
    | some id ↦ elim (find_search id s) [
      | none ↦ ok s
      | some sr ↦ ok (record s {
        searches =
            assign id
              (record sr {
                sub_searches =
                    map (λ (e : ℕ × SubSearch). (e.0, touch_results e.1)) sr.sub_searches;
              })
              s.searches;
      })
    ]
  ]

  unfoldable pub search_kill : List Str → State Text → Outcome (State Text)
  search_kill [] s = fault bad_iterator
  search_kill (arg ∷ args) s = elim (w.boost.lexical_cast 32 arg) [
    | none ↦ fault thrown
    | some id ↦ ok (remove_search id s).0
  ]

  -- One command, by its first token; the result says whether to quit.
  unfoldable pub run_tokens :
      Moment Text → Str → List Str → State Text → Outcome (Bool × State Text)
  unfolding share query_search search_result search_kill
  run_tokens t command [] s = fault bad_iterator
  run_tokens t command (tok ∷ args) s =
      if str_eq tok (codes "share")
      then (share t args s >>= λ s'. ok (false, s'))
      else (if str_eq tok (codes "search")
          then (query_search t command s >>= λ s'. ok (false, s'))
          else (if str_eq tok (codes "search_result")
              then (search_result args s >>= λ s'. ok (false, s'))
              else (if str_eq tok (codes "search_kill")
                  then (search_kill args s >>= λ s'. ok (false, s'))
                  else ok (str_eq tok (codes "quit"), s))))

  unfoldable pub run_command : Moment Text → Str → State Text → Outcome (Bool × State Text)
  unfolding run_tokens
  run_command t [] s = ok (false, s)
  run_command t (c ∷ command) s =
      run_tokens t (c ∷ command) (w.boost.tokenize command_separators (c ∷ command)) s

  -- The loop, for the lines that readline gives. The result says whether it has ended: with no more
  -- lines it has not.
  unfoldable pub console : List (Str × Moment Text) → State Text → Outcome (Bool × State Text)
  unfolding run_command
  console [] s = ok (false, s)
  console ((line, t) ∷ lines) s = run_command t line (t.meanwhile s) >>= λ (quit, s'). elim quit [
    | true ↦ ok (true, s')
    | false ↦ console lines s'
  ]
