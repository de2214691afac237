-- ===== src/Program/Ids/Messages.antt =====
-- What the messages that come in make of the ids of searches.
use spatter.Control.Handle.{
  handle_message, handle_receive_from, dispatch, or_throw, handle_publish, handle_search_message,
  handle_result_message, handle_ping, handle_ping_request, handle_ping_reply,
}
use spatter.Control.Send.{udp_send}
use spatter.Messages.Archive.{Packet}
use spatter.Messages.Ping.{PingMessage}
use spatter.Messages.Search.{SearchMessage, SearchResult}
use spatter.Program.Ids.{
  IsFiledSub, IsFiledSearch, IsFiled, IsFiled-same, assign-IsFiled, udp_send-IsFiled,
  mark_seen-IsFiled,
}
use spatter.Search.Manager.{handle_search, handle_search_result}
use spatter.Search.SubSearches.{add_response}
use spatter.State.{State, Platform, SubSearch}
use spatter.Prelude.{
  OnOk, OnOk-if, OnOk-chain, ℕ, refl, Bool, true, false, Option, none, some, ◌==◌, if◌then◌else◌,
  find_id, find_id-All, assign-All, Option-cases, Bool-cases, inl, inr, Outcome, ok,
}

add_response-IsFiledSub :
    (i : ℕ) (srm : SearchResult) (ss : SubSearch)
    → IsFiledSub i ss
    → IsFiledSub i (add_response srm ss)
unfolding add_response
add_response-IsFiledSub i srm ss f = elim (Bool-cases ss.kill_search) [
  | inl killed ↦ rw killed f
  | inr alive ↦ rw alive f
]

handle_search_result-IsFiled :
    {Text : Type 0} (srm : SearchResult) (s : State Text)
    → IsFiled s
    → IsFiled (handle_search_result srm s)
unfolding handle_search_result
handle_search_result-IsFiled srm s v = elim (Option-cases (find_id srm.search_id s.searches)) [
  | inl unknown ↦ rw (handle_search_result, unknown) v
  | inr (sr, there) ↦
      let f = find_id-All IsFiledSearch srm.search_id sr s.searches there v.searches in
      rw (handle_search_result, there)
        (elim (Option-cases (find_id srm.sub_search_id sr.sub_searches)) [
          | inl gone ↦ rw gone v
          | inr (ss, here) ↦
              let g = find_id-All IsFiledSub srm.sub_search_id ss sr.sub_searches here f.2 in
              rw here (
                assign-IsFiled srm.search_id _ s
                  (
                    f.0,
                    f.1,
                    assign-All IsFiledSub srm.sub_search_id (add_response srm ss) sr.sub_searches
                        (add_response-IsFiledSub srm.sub_search_id srm ss g) f.2,
                  )
                  v)
        ])
]

module _ {Text : Type 0} (p : Platform Text) (now : ℕ) where
  handle_ping-IsFiled :
      (m : PingMessage) (s : State Text) → IsFiled s → OnOk IsFiled (handle_ping p now m s)
  unfolding handle_ping handle_ping_reply handle_ping_request
  handle_ping-IsFiled m s v = elim (Bool-cases (m.is_reply == 0)) [
    | inl request ↦ rw request (
        OnOk-chain IsFiled IsFiled (udp_send p _ m.sender_node s) _
          (udp_send-IsFiled p _ m.sender_node s v) (mark_seen-IsFiled p now s.this_node))
    | inr reply ↦ rw reply (elim (Option-cases s.control) [
      | inl closed ↦ rw closed tt
      | inr (c, is_open) ↦
          rw is_open (mark_seen-IsFiled p now m.sender_node _ (IsFiled-same s _ refl refl refl v))
    ])
  ]

  handle_search_message-IsFiled :
      (m : SearchMessage) (s : State Text)
      → IsFiled s
      → OnOk IsFiled (handle_search_message p now m s)
  unfolding handle_search_message handle_search
  handle_search_message-IsFiled m s v =
      OnOk-chain IsFiled IsFiled (handle_search p m s) _
        (unfold handle_search in udp_send-IsFiled p _ m.sender_node s v)
        (mark_seen-IsFiled p now m.sender_node)

  or_throw-IsFiled :
      {A : Type 0} (o : Option A) (f : A → Outcome (State Text))
      → ((a : A) → OnOk IsFiled (f a))
      → OnOk IsFiled (or_throw o f)
  or_throw-IsFiled none f k = tt
  or_throw-IsFiled (some a) f k = k a

  dispatch-IsFiled :
      (type : ℕ) (text : Text) (s : State Text)
      → IsFiled s
      → OnOk IsFiled (dispatch p now type text s)
  unfolding dispatch handle_publish handle_result_message
  dispatch-IsFiled type text s v =
      OnOk-if IsFiled (type == 1) _ _
        (or_throw-IsFiled (p.read_publish text) _
          (λ m. mark_seen-IsFiled p now m.file_info.node _ (IsFiled-same s _ refl refl refl v)))
        (OnOk-if IsFiled (type == 2) _ _
          (or_throw-IsFiled (p.read_search text) _ (λ m. handle_search_message-IsFiled m s v))
          (OnOk-if IsFiled (type == 3) _ _
            (or_throw-IsFiled (p.read_search_result text) _
              (λ m. mark_seen-IsFiled p now m.sender_node _ (handle_search_result-IsFiled m s v)))
            (OnOk-if IsFiled (type == 4) _ _
              (or_throw-IsFiled (p.read_ping text) _ (λ m. handle_ping-IsFiled m s v)) v)))

  received-IsFiled :
      (error : Bool) (received : Option (Packet Text)) (s : State Text)
      → IsFiled s
      → OnOk IsFiled (
          if error then ok s else elim received [ none ↦ ok s | some m ↦ handle_message p now m s ])
  unfolding handle_message
  received-IsFiled true received s v = v
  received-IsFiled false none s v = v
  received-IsFiled false (some m) s v =
      OnOk-if IsFiled (p.opens m.body) _ _ (dispatch-IsFiled m.type m.body s v) tt

  pub handle_receive_from-IsFiled :
      (error : Bool) (received : Option (Packet Text)) (s : State Text)
      → IsFiled s
      → OnOk IsFiled (handle_receive_from p now error received s)
  unfolding handle_receive_from
  handle_receive_from-IsFiled error received s v = elim (Option-cases s.control) [
    | inl closed ↦ rw closed tt
    | inr (c, is_open) ↦
        rw is_open (received-IsFiled error received _ (IsFiled-same s _ refl refl refl v))
  ]
