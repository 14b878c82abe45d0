-- ===== src/Shard.antt =====
-- The shard node (shard/worker.js): its configuration, and a module for each group of handlers.
pub mod Limits
pub mod Crypto
pub mod Keys
pub mod Envelope
pub mod Create
pub mod Exists
pub mod Send
pub mod Replicate
pub mod Read
pub mod Frame
pub mod Capacity
pub mod Work
pub mod Table
pub mod Admin
pub mod Joining
pub mod Rotate
pub mod Dispatch
use nex_talk_relay.Base.{Text, ℕ, Option, none, some}

-- The variables of `env` that the shard reads as texts.
pub record Env : Type 0 where
  pub router_signing_public : Text
  pub router_shared_secret : Option Text
  pub router_url : Option Text
  pub self_url : Option Text

-- `cfg`. The values of an operator are natural numbers.
pub record Cfg : Type 0 where
  pub max_messages : ℕ
  pub max_msg_bytes : ℕ
  pub ttl_seconds : ℕ
  pub mailbox_ttl_seconds : ℕ
  pub max_clock_skew : ℕ
  pub max_sends_per_sender : ℕ
  pub max_sends_per_target : ℕ
  pub max_sends_per_ip : ℕ
  pub max_creates_per_ip : ℕ
  pub max_replicates_per_origin : ℕ

-- `DEFAULTS`
abbrev pub defaults : Cfg
defaults = record {
  max_messages = 50;
  max_msg_bytes = 32768;
  ttl_seconds = 1_209_600;
  mailbox_ttl_seconds = 31_536_000;
  max_clock_skew = 30_000;
  max_sends_per_sender = 30;
  max_sends_per_target = 60;
  max_sends_per_ip = 120;
  max_creates_per_ip = 20;
  max_replicates_per_origin = 200;
}
