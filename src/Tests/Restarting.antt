-- ===== src/Tests/Restarting.antt =====
-- An example for a whole session and the next start: the only line that is typed is `quit`.
use spatter.Boost.{codes, starts_bare, ends_bare}
use spatter.Config.{Config, save_config, saved_text, get_param, find_prop}
use spatter.Main.{start_up, shut_down}
use spatter.Program.Session.{session, session_restarts}
use spatter.Console.{console, run_command, run_tokens}
use spatter.Control.Invariant.{IsNode}
use spatter.Messages.Archive.{Message}
use spatter.State.{State}
use spatter.Tests.Sharing.{quiet}
use spatter.Messages.Str.{str_eq}
use spatter.Tests.Strings.{string_boost-IsDocumented, tokens_from}
use spatter.Tests.Starting.{host, unread, read, listening, bound}
use spatter.Prelude.{◌≡◌, refl, true, some, [], ◌∷◌, ok, arith}

quits :
    session (host true) (λ l. l) ((codes "quit", quiet) ∷ []) unread
    ≡ ok (some (shut_down (host true) read, listening))
unfolding session console run_command run_tokens tokens_from str_eq
quits = rw bound refl

session_restarts_example :
    IsNode listening
    × ((c : Config) × (s : State Message) × (start_up (host true) unread ≡ ok (c, s))
        × (start_up (host true) (record (shut_down (host true) read) { props = [] })
            ≡ ok (shut_down (host true) read, s)))
unfolding starts_bare ends_bare saved_text get_param find_prop str_eq shut_down save_config
session_restarts_example =
    session_restarts (host true) (λ l. l) ((codes "quit", quiet) ∷ []) unread
      (shut_down (host true) read) listening string_boost-IsDocumented tt refl
      (record { others = λ i. tt; meanwhile = λ s v. v }, tt) quits
      (record { distinct = λ u. u; same = λ k. refl })
      (
        record {
          named = λ e. cc;
          no_equals = refl;
          no_comment = refl;
          plain_name = refl;
          plain_value = refl;
          bare_name = (refl, refl);
          bare_value = (refl, refl);
        },
        (
          record {
            named = λ e. cc;
            no_equals = refl;
            no_comment = refl;
            plain_name = refl;
            plain_value = refl;
            bare_name = (refl, refl);
            bare_value = (refl, refl);
          },
          (
            record {
              named = λ e. cc;
              no_equals = refl;
              no_comment = refl;
              plain_name = refl;
              plain_value = refl;
              bare_name = (refl, refl);
              bare_value = (refl, refl);
            },
            (
              record {
                named = λ e. cc;
                no_equals = refl;
                no_comment = refl;
                plain_name = refl;
                plain_value = refl;
                bare_name = (refl, refl);
                bare_value = (refl, refl);
              },
              tt,
            ),
          ),
        ),
      )
      (omega arith) refl
