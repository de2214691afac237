-- ===== src/Search.antt =====
-- dht/protocol/search_manager.cpp: the searches that this node runs, and what it does for those of
-- others.
pub mod Gathered
pub mod Fresh
pub mod Asking
pub mod Suggestions
pub mod Queue
pub mod SubSearches
pub mod Manager
pub mod Start
pub mod Rounds
pub mod Answers
pub mod Run
pub mod Kept
