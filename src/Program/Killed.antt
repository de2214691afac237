-- ===== src/Program/Killed.antt =====
-- What `search_kill` of ui/console_ui.cpp leaves running: the threads of dht/protocol/search_manager.cpp.
use spatter.Console.{Surroundings}
use spatter.Messages.Str.{Str}
use spatter.Program.{World}
use spatter.State.{State, Search}
use spatter.Prelude.{ℕ, ◌∷◌, length, erase_id}

module _ {Text : Type 0} (w : Surroundings Text) where
  abbrev killed_at : ℕ → Search → World Text → World Text
  killed_at id sr x = record {
    node = record x.node { searches = erase_id id x.node.searches };
    loose = (length x.loose, sr) ∷ x.loose;
  }
