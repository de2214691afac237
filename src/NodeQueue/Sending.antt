-- ===== src/NodeQueue/Sending.antt =====
-- The packets that have been handed to the socket, under `mark_seen` of dht/NodeQueue.cpp.
use mathlib.Core.List.{Mem, mem-append_left}
use spatter.Control.Send.{udp_send, ping}
use spatter.Messages.Archive.{Packet, Message, serialize_message}
use spatter.Messages.Node.{NodeRecord}
use spatter.Messages.Ping.{PingMessage}
use spatter.NodeQueue.{mark_seen, trim_bucket, send_ping, bucket_size}
use spatter.NodeQueue.Seen.{mark_seen-trim, mark_seen_inv}
use spatter.State.{State, Platform}
use spatter.Prelude.{
  ℕ, zero, suc, ◌≡◌, refl, sym, ap, subst, List, [], ◌∷◌, ◌++◌, length, take, drop, ok, ◌∙◌, back,
  leb, Option-cases, Bool-cases, inl, inr, arith,
}

module _ {A : Type 0} where
  take_whole : (l : List A) → take (length l) l ≡ l
  take_whole [] = refl
  take_whole (x ∷ l) = ap (◌∷◌ x) (take_whole l)

  take-append : (l m : List A) → take (length l) (l ++ m) ≡ l
  take-append [] m = refl
  take-append (x ∷ l) m = ap (◌∷◌ x) (take-append l m)

  take-drop : (n : ℕ) (l : List A) → take n l ++ drop n l ≡ l
  take-drop zero l = refl
  take-drop (suc n) [] = refl
  take-drop (suc n) (x ∷ l) = ap (◌∷◌ x) (take-drop n l)

  Mem-take : (x : A) (n : ℕ) (l : List A) → Mem x (take n l) → Mem x l
  Mem-take x n l h = subst (Mem x) (take-drop n l) (mem-append_left (drop n l) h)

module _ {Text : Type 0} (p : Platform Text) (now : ℕ) where
  ping-take :
      (m : PingMessage) (s s' : State Text)
      → ping p now m s ≡ ok s'
      → take (length s.sent) s'.sent ≡ s.sent
  unfolding ping udp_send
  ping-take m s s' e = ground (
    arith,
    take_whole s.sent,
    take-append s.sent ((serialize_message p.archive (Message.ping m), m.receiver_node) ∷ []),
  )

  trim_bucket-take :
      (d : ℕ) (l : List NodeRecord) (s s' : State Text)
      → trim_bucket p now d l s ≡ ok s'
      → take (length s.sent) s'.sent ≡ s.sent
  unfolding trim_bucket send_ping
  trim_bucket-take d l s s' e = elim (Bool-cases (leb bucket_size (length l))) [
    | inl full ↦ elim (Option-cases (back l)) [
      | inl empty ↦ ground (arith, take_whole s.sent)
      | inr (last, here) ↦ ping-take _ _ s' (rw (full, here) at e)
    ]
    | inr room ↦ ground (arith, take_whole s.sent)
  ]

  mark_seen-take :
      (n : NodeRecord) (s s' : State Text)
      → mark_seen p now n s ≡ ok s'
      → take (length s.sent) s'.sent ≡ s.sent
  mark_seen-take n s s' e =
      let (port, range) = mark_seen_inv p now n s s' e in
      trim_bucket-take _ _ s s' (sym (mark_seen-trim p now n s port range) ∙ e)

  -- What has been sent stays sent.
  pub mark_seen_sent :
      (n : NodeRecord) (s s' : State Text) (x : Packet Text × NodeRecord)
      → mark_seen p now n s ≡ ok s'
      → Mem x s.sent
      → Mem x s'.sent
  mark_seen_sent n s s' x e h =
      Mem-take x (length s.sent) s'.sent (subst (Mem x) (sym (mark_seen-take n s s' e)) h)
