-- ===== src/Messages/Archive.antt =====
-- Messages as packets: `serialize_message` of util/util.hpp and the type byte in front. The text
-- archive is boost's, a parameter: `Text` are the archives' texts, each `write` the `serialize`
-- template of a message run for output, and each `read` the same run for input, `none` where the
-- archive throws. `opens` says of a text whether an input archive can be made of it.
use spatter.Messages.File.{PublishMessage}
use spatter.Messages.Ping.{PingMessage}
use spatter.Messages.Search.{SearchMessage, SearchResult}
use spatter.Prelude.{ℕ, ◌≡◌, Bool, true, Option, some}

pub data Message : Type 0 where
  publish : PublishMessage → Message
  search : SearchMessage → Message
  search_result : SearchResult → Message
  ping : PingMessage → Message

-- The type byte that the message is sent under.
abbrev pub message_type : Message → ℕ
message_type (publish m) = 1
message_type (search m) = 2
message_type (search_result m) = 3
message_type (ping m) = 4

pub record Archive (Text : Type 0) : Type 0 where
  pub opens : Text → Bool
  pub write : Message → Text
  pub read_publish : Text → Option PublishMessage
  pub read_search : Text → Option SearchMessage
  pub read_search_result : Text → Option SearchResult
  pub read_ping : Text → Option PingMessage

pub record Packet (Text : Type 0) : Type 0 where
  pub type : ℕ
  pub body : Text

unfoldable pub serialize_message : {Text : Type 0} → Archive Text → Message → Packet Text
serialize_message ar m = record { type = message_type m; body = ar.write m }

-- What the code relies on: a text that an archive has written opens, and reads as what was written.
pub record ReadsBack {Text : Type 0} (ar : Archive Text) : Type 0 where
  pub opens : (m : Message) → ar.opens (ar.write m) ≡ true
  pub publish : (m : PublishMessage) → ar.read_publish (ar.write (publish m)) ≡ some m
  pub search : (m : SearchMessage) → ar.read_search (ar.write (search m)) ≡ some m
  pub search_result :
      (m : SearchResult) → ar.read_search_result (ar.write (search_result m)) ≡ some m
  pub ping : (m : PingMessage) → ar.read_ping (ar.write (ping m)) ≡ some m
