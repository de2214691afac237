-- ===== src/NodeQueue/Receiving.antt =====
-- The receive that is posted on the socket, under what dht/NodeQueue.cpp sends.
use spatter.Control.Send.{udp_send, ping}
use spatter.Messages.Archive.{Packet}
use spatter.Messages.Node.{NodeRecord}
use spatter.Messages.Ping.{PingMessage}
use spatter.NodeQueue.{
  mark_seen, trim_bucket, send_ping, ping_all, ping_bucket, ping_buckets, bucket_count,
}
use spatter.State.{State, Platform, ControlProtocol}
use spatter.Prelude.{
  ℕ, zero, suc, ◌+◌, ◌≡◌, refl, ◌∙◌, List, [], ◌∷◌, Option, none, some, ok, >>=-eq-ok, arith,
}

-- There is exactly one, if there is a socket.
abbrev pub OneReceive : Option ControlProtocol → Type 0
OneReceive none = Unit {0}
OneReceive (some c) = c.receives ≡ 1

-- The same as a number.
unfoldable posted : Option ControlProtocol → ℕ
posted none = 1
posted (some c) = c.receives

posted_one : (o : Option ControlProtocol) → OneReceive o → posted o ≡ 1
unfolding posted
posted_one none h = refl
posted_one (some c) h = h

one_posted : (o : Option ControlProtocol) → posted o ≡ 1 → OneReceive o
unfolding posted
one_posted none h = tt
one_posted (some c) h = h

carried : (o o' : Option ControlProtocol) → posted o' ≡ posted o → OneReceive o → OneReceive o'
carried o o' e h = one_posted o' (e ∙ posted_one o h)

module _ {Text : Type 0} (p : Platform Text) where
  udp_send-posted :
      (msg : Packet Text) (to : NodeRecord) (s s' : State Text)
      → udp_send p msg to s ≡ ok s'
      → posted s'.control ≡ posted s.control
  unfolding udp_send
  udp_send-posted msg to s s' e = ground arith

  ping-posted :
      (now : ℕ) (m : PingMessage) (s s' : State Text)
      → ping p now m s ≡ ok s'
      → posted s'.control ≡ posted s.control
  unfolding ping udp_send posted
  ping-posted now m s s' e = ground arith

  mark_seen-posted :
      (now : ℕ) (n : NodeRecord) (s s' : State Text)
      → mark_seen p now n s ≡ ok s'
      → posted s'.control ≡ posted s.control
  unfolding mark_seen trim_bucket send_ping ping udp_send posted
  mark_seen-posted now n s s' e = ground arith

  pub udp_send-OneReceive :
      (msg : Packet Text) (to : NodeRecord) (s s' : State Text)
      → udp_send p msg to s ≡ ok s'
      → OneReceive s.control
      → OneReceive s'.control
  udp_send-OneReceive msg to s s' e = carried s.control s'.control (udp_send-posted msg to s s' e)

  pub mark_seen-OneReceive :
      (now : ℕ) (n : NodeRecord) (s s' : State Text)
      → mark_seen p now n s ≡ ok s'
      → OneReceive s.control
      → OneReceive s'.control
  mark_seen-OneReceive now n s s' e = carried s.control s'.control (mark_seen-posted now n s s' e)

  ping_bucket-posted :
      (now : ℕ) (l : List NodeRecord) (s s' : State Text)
      → ping_bucket p now l s ≡ ok s'
      → posted s'.control ≡ posted s.control
  unfolding ping_bucket send_ping
  ping_bucket-posted now [] s s' e = ground arith
  ping_bucket-posted now (n ∷ l) s s' e =
      let (t, sent, rest) = >>=-eq-ok (send_ping p now n s) _ e in
      ping_bucket-posted now l t s' rest ∙ ping-posted now _ _ t sent

  ping_buckets-posted :
      (now k i : ℕ) (s s' : State Text)
      → ping_buckets p now k i s ≡ ok s'
      → posted s'.control ≡ posted s.control
  unfolding ping_buckets
  ping_buckets-posted now zero i s s' e = ground arith
  ping_buckets-posted now (suc k) i s s' e =
      let (t, sent, rest) = >>=-eq-ok (ping_bucket p now (s.buckets i) s) _ e in
      ping_buckets-posted now k (i + 1) t s' rest ∙ ping_bucket-posted now (s.buckets i) s t sent

  pub ping_all-OneReceive :
      (now : ℕ) (s s' : State Text)
      → ping_all p now s ≡ ok s'
      → OneReceive s.control
      → OneReceive s'.control
  unfolding ping_all
  ping_all-OneReceive now s s' e =
      carried s.control s'.control (ping_buckets-posted now bucket_count 0 s s' e)
