-- ===== src/NodeQueue/PingKeeps.antt =====
-- What the pings of dht/NodeQueue.cpp leave as it was, with a socket and without.
use spatter.Control.Frame.{ping-SendsOnly}
use spatter.Control.Send.{ping}
use spatter.Messages.Node.{NodeRecord}
use spatter.NodeQueue.{ping_all, ping_bucket, ping_buckets, send_ping, bucket_count}
use spatter.NodeQueue.Dropped.{walk}
use spatter.State.{State, Platform}
use spatter.Prelude.{
  ℕ, zero, suc, ◌+◌, ◌≡◌, refl, ◌∙◌, List, [], ◌∷◌, none, ok, Outcome, fault, null_pointer, ◌++◌,
  ◌>>=◌, >>=-eq-ok, arith,
}

-- What the pings of nodes come to without a socket: to nothing, or to a call through the null pointer.
abbrev pub unconnected : {A : Type 0} → List NodeRecord → A → Outcome A
unconnected [] s = ok s
unconnected (n ∷ l) s = fault null_pointer

module _ {Text : Type 0} (p : Platform Text) (now : ℕ) where
  send_ping_keeps :
      (n : NodeRecord) (s s' : State Text)
      → send_ping p now n s ≡ ok s'
      → (s'.dht ≡ s.dht) × (s'.buckets ≡ s.buckets)
  unfolding send_ping
  send_ping_keeps n s s' e = let f = ping-SendsOnly p now _ _ s' e in (f.dht, f.buckets)

  ping_bucket_keeps :
      (l : List NodeRecord) (s s' : State Text)
      → ping_bucket p now l s ≡ ok s'
      → (s'.dht ≡ s.dht) × (s'.buckets ≡ s.buckets)
  unfolding ping_bucket
  ping_bucket_keeps [] s s' e = ground arith
  ping_bucket_keeps (n ∷ l) s s' e =
      let (t, sent, rest) = >>=-eq-ok (send_ping p now n s) _ e in
      let (d, b) = send_ping_keeps n s t sent in
      let (d', b') = ping_bucket_keeps l t s' rest in (d' ∙ d, b' ∙ b)

  ping_buckets_keeps :
      (k i : ℕ) (s s' : State Text)
      → ping_buckets p now k i s ≡ ok s'
      → (s'.dht ≡ s.dht) × (s'.buckets ≡ s.buckets)
  unfolding ping_buckets
  ping_buckets_keeps zero i s s' e = ground arith
  ping_buckets_keeps (suc k) i s s' e =
      let (t, sent, rest) = >>=-eq-ok (ping_bucket p now (s.buckets i) s) _ e in
      let (d, b) = ping_bucket_keeps (s.buckets i) s t sent in
      let (d', b') = ping_buckets_keeps k (i + 1) t s' rest in (d' ∙ d, b' ∙ b)

  pub ping_all_keeps :
      (s s' : State Text) → ping_all p now s ≡ ok s' → (s'.dht ≡ s.dht) × (s'.buckets ≡ s.buckets)
  unfolding ping_all
  ping_all_keeps s s' e = ping_buckets_keeps bucket_count 0 s s' e

  -- Without a socket there is nobody to ping.
  ping_bucket_unconnected :
      (l : List NodeRecord) (s s' : State Text)
      → s.control ≡ none
      → ping_bucket p now l s ≡ ok s'
      → (l ≡ []) × (s' ≡ s)
  unfolding ping_bucket send_ping ping
  ping_bucket_unconnected [] s s' c e = ground arith
  ping_bucket_unconnected (n ∷ l) s s' c e = absurd (ground arith)

  ping_buckets_unconnected :
      (k i : ℕ) (s s' : State Text)
      → s.control ≡ none
      → ping_buckets p now k i s ≡ ok s'
      → walk s.buckets k i ≡ []
  unfolding ping_buckets
  ping_buckets_unconnected zero i s s' c e = refl
  ping_buckets_unconnected (suc k) i s s' c e =
      let (t, sent, rest) = >>=-eq-ok (ping_bucket p now (s.buckets i) s) _ e in
      let (empty, same) = ping_bucket_unconnected (s.buckets i) s t c sent in
      let more = ping_buckets_unconnected k (i + 1) s s' c (rw same at rest) in rw empty more

  pub ping_all_unconnected :
      (s s' : State Text)
      → s.control ≡ none
      → ping_all p now s ≡ ok s'
      → walk s.buckets bucket_count 0 ≡ []
  unfolding ping_all
  ping_all_unconnected s s' c e = ping_buckets_unconnected bucket_count 0 s s' c e

  ping_bucket-unconnected :
      (l : List NodeRecord) (s : State Text)
      → s.control ≡ none
      → ping_bucket p now l s ≡ unconnected l s
  unfolding ping_bucket send_ping ping
  ping_bucket-unconnected [] s c = refl
  ping_bucket-unconnected (n ∷ l) s c = rw c refl

  after_bucket :
      (l m : List NodeRecord) (s : State Text) (f : State Text → Outcome (State Text))
      → f s ≡ unconnected m s
      → (unconnected l s >>= f) ≡ unconnected (l ++ m) s
  after_bucket [] m s f e = e
  after_bucket (n ∷ l) m s f e = refl

  ping_buckets-unconnected :
      (k i : ℕ) (s : State Text)
      → s.control ≡ none
      → ping_buckets p now k i s ≡ unconnected (walk s.buckets k i) s
  unfolding ping_buckets
  ping_buckets-unconnected zero i s c = refl
  ping_buckets-unconnected (suc k) i s c = rw (ping_bucket-unconnected (s.buckets i) s c) (
      after_bucket (s.buckets i) (walk s.buckets k (i + 1)) s _
        (ping_buckets-unconnected k (i + 1) s c))

  pub ping_all-unconnected :
      (s : State Text)
      → s.control ≡ none
      → ping_all p now s ≡ unconnected (walk s.buckets bucket_count 0) s
  unfolding ping_all
  ping_all-unconnected s c = ping_buckets-unconnected bucket_count 0 s c
