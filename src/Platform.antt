-- ===== src/Platform.antt =====
-- What the workers take from the host that runs them, and the values that they keep in it. The KV
-- namespace, the Web Crypto calls, `fetch`, and the reading and writing of JSON texts are parameters.
pub mod Exec
pub mod Http
pub mod World
pub mod Laws
pub mod Ends
use nex_talk_relay.Base.{Text, ℕ, Bool, Option, none, some, List, number_digits}
use nex_talk_relay.Js.{Json, Number}
use nex_talk_relay.Encoding.{Bytes}

-- A stored mailbox (shard/worker.js). A message is a JSON object.
pub record Mailbox : Type 0 where
  pub read_secret_hash : Text
  pub client_pubkey : Json
  pub messages : List Json
  pub created_at : ℕ
  pub messages_enqueued_at : Option ℕ
  pub replica_shard_urls : Json

-- The own key pair of a shard.
pub record Identity : Type 0 where
  pub public_key_hex : Text
  pub private_key : Text

-- An entry of the Router's `registered_shards`.
pub record ShardRecord : Type 0 where
  pub url : Text
  pub pubkey : Text
  pub registered_at : ℕ
  pub updated_at : Option ℕ
  pub previous_pubkey : Option Text

-- What the Router keeps for an open proof-of-work challenge.
pub record Challenge : Type 0 where
  pub difficulty : ℕ
  pub expires_at : ℕ

-- A text in the KV namespace. One that `JSON.stringify` wrote stands as the value that it was
-- written from, since that is what `JSON.parse` reads back; any other is a `text`.
pub data Stored : Type 0 where
  text : Text → Stored
  mailbox : Mailbox → Stored
  identity : Identity → Stored
  shards : List ShardRecord → Stored
  challenge : Challenge → Stored
  doc : Json → Stored

-- `JSON.parse` at a mailbox; `none` is its exception.
abbrev pub as_mailbox : Stored → Option Mailbox
as_mailbox (mailbox m) = some m
as_mailbox _ = none

abbrev pub as_identity : Stored → Option Identity
as_identity (identity i) = some i
as_identity _ = none

abbrev pub as_challenge : Stored → Option Challenge
as_challenge (challenge c) = some c
as_challenge _ = none

abbrev pub as_doc : Stored → Option Json
as_doc (doc v) = some v
as_doc _ = none

-- The end of a `fetch`: an exception with its text, or a response with its status and text.
pub data Fetched : Type 0 where
  unreachable : Text → Fetched
  answered : ℕ → Text → Fetched

pub record Platform : Type 1 where
  -- the KV namespace: `read s t k`, `write s t k v ttl` and `remove s t k` at the time `t` in ms
  pub Store : Type 0
  pub read : Store → ℕ → Text → Option Stored
  pub write : Store → ℕ → Text → Stored → Option ℕ → Store
  pub remove : Store → ℕ → Text → Store
  -- Web Crypto. `verify` takes the key, the signature and the message, `sign` the private key;
  -- `none` is an exception.
  pub sha256 : Bytes → Bytes
  pub hmac : Bytes → Bytes → Bytes
  pub verify : Bytes → Bytes → Bytes → Option Bool
  pub sign : Text → Bytes → Option Bytes
  -- the n-th key pair and the n-th draw of random bytes
  pub generate_key : ℕ → Bytes × Text
  pub random_bytes : ℕ → ℕ → Bytes
  -- the n-th call of `fetch`, at a URL with a body
  pub fetch : ℕ → Text → Json → Fetched
  -- `JSON.parse` and `JSON.stringify` of texts that do not go through the KV namespace
  pub parse : Text → Option Json
  pub stringify : Json → Text
  -- `Number(s)` of a text that is not only digits
  pub number : Text → Number

-- `Number(s)` of a text.
unfoldable pub number_of : Platform → Text → Number
number_of p t = elim (number_digits t) [ some n ↦ some n | none ↦ p.number t ]
