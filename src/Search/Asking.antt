-- ===== src/Search/Asking.antt =====
-- What a round of `sub_search::run` of dht/protocol/search_manager.cpp sends.
use mathlib.Core.Logic.Or
use mathlib.Core.List.{
  Mem, Mem-prop, mem-cons_self, mem-append_right, eq-or-mem_of_mem-cons, not-mem-nil,
}
use spatter.Control.Send.{udp_send}
use spatter.Messages.Archive.{Packet, Message, serialize_message}
use spatter.Messages.Node.{NodeRecord, node_eq}
use spatter.Messages.Search.{SearchMessage}
use spatter.Search.SubSearches.{ask_next_nodes, send_queries, unique}
use spatter.Search.Suggestions.{ranked_eq}
use spatter.State.{State, Platform, Search, SubSearch, Ranked, ControlProtocol}
use spatter.Prelude.{
  ℕ, ◌≡◌, refl, ◌∙◌, ap, false, true, List, [], ◌∷◌, ◌++◌, append-nil, append_assoc, some,
  if◌then◌else◌, ok, All, Bool-cases, inl, inr, sym,
}

-- A packet for each of the nodes but this one.
unfoldable pub addressed :
    {Text : Type 0} → NodeRecord → Packet Text → List Ranked → List (Packet Text × NodeRecord)
addressed this msg [] = []
addressed this msg (e ∷ l) =
    (if node_eq e.1 this then [] else (msg, e.1) ∷ []) ++ addressed this msg l

-- The packet for a node of the list.
pub mem-addressed :
    {Text : Type 0} (this n : NodeRecord) (msg : Packet Text) (d : ℕ) (l : List Ranked)
    → node_eq n this ≡ false
    → Mem (d, n) l
    → Mem (msg, n) (addressed this msg l)
unfolding addressed
mem-addressed this n msg d [] other h = absurd (not-mem-nil h)
mem-addressed this n msg d (e ∷ l) other h =
    Or.elim Mem-prop (eq-or-mem_of_mem-cons h)
      (λ same. let e' : n ≡ e.1 = ap (λ (x : Ranked). x.1) same in rw (← e', other) mem-cons_self)
      (λ later. mem-append_right _ (mem-addressed this n msg d l other later))

pub resolves_each :
    {Text : Type 0} (p : Platform Text) (l : List Ranked)
    → ((x : NodeRecord) → p.resolves x ≡ true)
    → All (λ e. p.resolves e.1 ≡ true) l
resolves_each p [] found = tt
resolves_each p (e ∷ l) found = (found e.1, resolves_each p l found)

module _ {Text : Type 0} (p : Platform Text) where
  abbrev pub with_sent : State Text → List (Packet Text × NodeRecord) → State Text
  with_sent s l = record s { sent = s.sent ++ l }

  udp_send-addressed :
      (msg : Packet Text) (n : NodeRecord) (s : State Text) (c : ControlProtocol)
      → s.control ≡ some c
      → p.resolves n ≡ true
      → udp_send p msg n s ≡ ok (with_sent s (if node_eq n s.this_node then [] else (msg, n) ∷ []))
  unfolding udp_send
  udp_send-addressed msg n s c h r = elim (Bool-cases (node_eq n s.this_node)) [
    | inl self ↦
        rw (h, self)
          (ap (λ l. ok (record s { control = some c; sent = l })) (sym (append-nil s.sent)))
    | inr other ↦ rw (h, other, r) refl
  ]

  pub send_queries_sent :
      (msg : Packet Text) (l : List Ranked) (s : State Text) (c : ControlProtocol)
      → s.control ≡ some c
      → All (λ e. p.resolves e.1 ≡ true) l
      → send_queries p msg l s ≡ ok (with_sent s (addressed s.this_node msg l))
  unfolding send_queries addressed
  send_queries_sent msg [] s c h r = ap (λ l. ok (record s { sent = l })) (sym (append-nil s.sent))
  send_queries_sent msg (e ∷ l) s c h r =
      let first = if node_eq e.1 s.this_node then [] else (msg, e.1) ∷ [] in
      rw (udp_send-addressed msg e.1 s c h r.0) (
        send_queries_sent msg l (with_sent s first) c h r.1
        ∙ ap (λ k. ok (record s { sent = k })) (append_assoc s.sent first _))

  -- With the socket open and all addresses of the queue resolvable, a round sends the search message,
  -- with the sub-search's key and ids and with this node as the sender, to each node of the queue but
  -- this one, in order. The queue is empty after it, and its nodes stand in `pq`.
  pub ask_next_nodes_asks :
      (sr : Search) (ss : SubSearch) (s : State Text) (c : ControlProtocol)
      → s.control ≡ some c
      → All (λ e. p.resolves e.1 ≡ true) ss.next_nodes_queue
      → let sm : SearchMessage = record {
        key = ss.key;
        sender_node = s.this_node;
        search_id = sr.master_search_id;
        sub_search_id = ss.search_id;
        type = sr.type;
      } in
        ask_next_nodes p sr ss s
        ≡ ok (
          record ss { next_nodes_queue = []; pq = unique ranked_eq (ss.pq ++ ss.next_nodes_queue) },
          with_sent s (
              addressed s.this_node
                (serialize_message p.archive (Message.search sm))
                ss.next_nodes_queue),
        )
  unfolding ask_next_nodes
  ask_next_nodes_asks sr ss s c h r = rw (send_queries_sent _ ss.next_nodes_queue s c h r) refl
