-- ===== src/Lib.antt =====
-- Spatter is a peer-to-peer file index: nodes with 192-bit ids keep file records in a distributed
-- table and find them by searches that go from node to node. This library models the node's own logic
-- in C++, as functions on an explicit state, and proves what they do.
--
-- The parts, and the files that model them:
-- * src/dht/protocol/messages.hpp and messages.cpp are Messages: ids (Messages/Hash, with memcmp and
--   word reads in Messages/Memory), node, file, ping and search records with their comparison
--   operators, and Messages/Archive for serialize_message of src/util/util.hpp. A struct is a record
--   with the source's fields; an integer is a natural number, a string the list of its characters.
-- * src/util/util.cpp is Util: Util/Table for init_util, Util/Distance for bit_distance, Util/Metric
--   for its laws, Util/Address for ip_str_to_num and ip_num_to_str, and Util/Bits for the arithmetic.
-- * src/dht/DHT.cpp is Dht: Dht/Table has the two critical sections of insertFileInfoRecord, Dht/Queries
--   and Dht/Records what a call does, Dht/Log the table as a log of insertions, and Dht/Race the calls
--   of several threads as steps, and the iterator that a rehash ends.
-- * src/dht/NodeQueue.cpp is NodeQueue: mark_seen, get_better_nodes and ping_all on the 192 buckets.
--   NodeQueue/Ranking has the queue of get_better_nodes.
-- * src/dht/protocol/control_protocol.cpp is Control: Control/Send for create, udp_send and ping,
--   Control/Handle for handle_receive_from and handle_message, and Control/Delivered,
--   Control/Invariant, Control/Success, Control/Publishing and Control/Pings for what they do.
-- * src/dht/protocol/search_manager.cpp is Search: Search/Suggestions for the queue that a running
--   sub-search keeps, Search/SubSearches for the class sub_search, Search/Run for the steps of its
--   thread among those of others, Search/Asking for what a round sends, Search/Manager for
--   handle_search, handle_search_result, start_search, find_search and remove_search.
-- * src/Config.cpp is Config: load_config, get_param and save_config on a table of parameters, with the
--   loop that reads a file in Config/Files and load_friends_list in Config/Friends.
-- * src/ui/console_ui.cpp is Console: one function per command and the loop over the lines, with share,
--   which searches and then publishes, in Console/Share.
-- * src/main.cpp is Main, up to the end of ping_all, and the saving at the end; Program/Session is the
--   whole of it. Program puts the parts together: after the start, the operations of all threads are
--   steps that take turns on one state. Program/Ids is about the ids of searches, Program/Exchange has
--   two nodes at once, and Program/Network any number of them, which get one another's packets.
-- State has the record of a node's globals and singletons, which the operations take and return;
-- Prelude has the shared tests on numbers, the maps from ids and the outcomes.
--
-- handle_message calls into all parts: it stores published records in the table, answers searches from
-- the table and the buckets, hands results to the searches, answers pings, and calls mark_seen on the
-- sender, which may ping a node that it evicts. An operation gives an Outcome: a state, or a fault
-- where the source throws, fails an assertion, follows a null pointer, uses an iterator that is not
-- valid or leaves an array.
--
-- Numbers that the source keeps in 32 bits wrap round: message ids, search ids and the time of a ping.
-- next_deadline of a sub-search, an int, is not cut: times are taken to be below 2^31.
-- Loops are recursion on lists or on the number of rounds left, which is the loop's own bound: 6 words
-- of an id, 65536 entries of the table, 192 buckets. The loop that reads a file has one round for each
-- character and one for the end as its fuel, which Config/Files proves enough. The loop of share has a
-- round for each second in which other threads are given something to do, and is endless, as a fault,
-- where they are used up.
--
-- Parameters stand for what the source calls: boost's archive (it reads back what it has written, where
-- a result needs that), resolver, std::list::sort on nodes, rand, atoi, and the Tiger hash of
-- src/lib/tigertree. Boost has the tokenizer, split, trim and lexical_cast as a record, with their
-- documented behaviour as another, and Main the outside of a start as a record. A file is what a stream
-- reads from it. An unordered container is a list of its entries. Their order shows only in the file that
-- save_config writes, for which the order in which the map gives them is a parameter.
--
-- A sub-search has no field for master_search: its constructor sets it, and nothing resets it, so the
-- search is the one in whose map it stands. Program has the searches that have gone from the map
-- searches, by search_kill or since another one is under their id, next to the node's state: their
-- threads hold them and go on.
--
-- Not modelled: the mutexes of the buckets and the threads, except for the two critical sections of
-- insertFileInfoRecord, the steps of sub_search::run and the turns of whole operations in Program; the
-- pointers that a function holds while it runs, except for the iterator of insertFileInfoRecord in
-- Dht/Race; a sub-search whose place in its search's map another one takes since the ids have wrapped
-- round, and which its thread still holds; the destructors of searches and sub-searches, which their
-- pointers to each other keep from running, and sub_search_finished, which nothing calls; what other
-- threads do while main.cpp starts; the Tiger hash of src/lib/tigertree, a copy of a library; readline,
-- and the output to the console.
pub mod Prelude
pub mod Util
pub mod Messages
pub mod Dht
pub mod State
pub mod Control
pub mod NodeQueue
pub mod Search
pub mod Boost
pub mod Config
pub mod Console
pub mod Main
pub mod Program
pub mod Tests
