-- ===== src/Tests/Rounds.antt =====
-- An example for the whole run of a sub-search's thread: eight rounds without an answer, and the end.
use spatter.Messages.Archive.{Message}
use spatter.Search.Run.{Run, outer, finished, stop, round as start_round, leave, Reach, here, next}
use spatter.Search.Run.Rounds.{rounds}
use spatter.Search.Run.Unkilled.{kills, unkilled_runs_through}
use spatter.Search.SubSearches.{advance, ask_next_nodes, send_queries, give_up_search, unique}
use spatter.State.{State, Search, SubSearch, terminated}
use spatter.Tests.{platform}
use spatter.Tests.Searching.{home, round, search}
use spatter.Prelude.{
  ℕ, ◌+◌, ◌%◌, ◌^◌, ◌≡◌, refl, false, [], ◌∷◌, some, ok, ltb, find_id, assign, erase_id, ==_refl,
}

abbrev at : ℕ → ℕ → SubSearch
at id hops = record round { search_id = id; hops = hops }

abbrev of_search : ℕ → SubSearch → Search
of_search id ss = record search { sub_searches = (id, ss) ∷ [] }

-- The deadline has passed.
abbrev run_at : ℕ → ℕ → ℕ → Run Message
run_at id hops n = record {
  phase = outer;
  id = id;
  search = of_search id (at id hops);
  state = record home { next_sub_search_id = n };
  now = 9;
}

abbrev go_round_state : ℕ → State Message
go_round_state n = record home { next_sub_search_id = (n + 1) % 2 ^ 32 }

found_one : (id : ℕ) (ss : SubSearch) → find_id id ((id, ss) ∷ []) ≡ some ss
unfolding find_id
found_one id ss = rw (==_refl id) refl

erased_one : (id : ℕ) (ss : SubSearch) → erase_id id ((id, ss) ∷ []) ≡ []
unfolding erase_id
erased_one id ss = rw (==_refl id) refl

advanced :
    (id hops n : ℕ)
    → advance id (of_search id (at id hops)) (run_at id hops n).state
      ≡ ok (of_search n (at n (hops + 1)), n, go_round_state n)
unfolding advance assign
advanced id hops n = rw (found_one id (at id hops), advance, erased_one id (at id hops)) refl

go_round :
    (id hops n : ℕ)
    → ltb 7 hops ≡ false
    → Reach platform (run_at 4 0 8) (run_at id hops n)
    → Reach platform (run_at 4 0 8) (run_at n (hops + 1) ((n + 1) % 2 ^ 32))
unfolding find_id assign ask_next_nodes send_queries unique give_up_search
go_round id hops n h run =
    next
      (next run (
        start_round (at id hops) (at n (hops + 1)) (at n (hops + 1)) (of_search n (at n (hops + 1)))
          n (go_round_state n) (go_round_state n) refl (rw (==_refl id) refl) (rw h refl)
          (advanced id hops n) (rw (==_refl n) refl) refl (rw (==_refl n) refl)))
      (leave (at n (hops + 1)) refl (rw (==_refl n) refl) refl refl)

eight : Reach platform (run_at 4 0 8) (run_at 15 8 16)
eight = go_round 14 7 15 refl (
    go_round 13 6 14 refl (
      go_round 12 5 13 refl (
        go_round 11 4 12 refl (
          go_round 10 3 11 refl
            (go_round 9 2 10 refl (go_round 8 1 9 refl (go_round 4 0 8 refl here)))))))

abbrev given_up : SubSearch
given_up = record (at 15 8) { status = terminated }

abbrev over : Run Message
over = record (run_at 15 8 16) { phase = finished; search = of_search 15 given_up }

whole : Reach platform (run_at 4 0 8) over
unfolding find_id assign give_up_search
whole = next eight (stop (at 15 8) refl refl refl refl)

unkilled_runs_through_example : rounds platform whole ≡ 8
unfolding find_id kills whole eight go_round
unkilled_runs_through_example =
    unkilled_runs_through platform 9 4 (of_search 4 (at 4 0))
      (record home { next_sub_search_id = 8 }) over (at 4 0) given_up whole refl refl refl refl refl
      refl
