-- ===== src/Shard/Read/Consumption.antt =====
-- What `handleRead` does to the mailboxes, on every branch.
use nex_talk_relay.Base.{codes, to_lower, ◌≡◌, refl, Bool, true, false, none, some}
use nex_talk_relay.Encoding.{constant_time_equal}
use nex_talk_relay.Platform.{Platform, Mailbox, mailbox}
use nex_talk_relay.Platform.Exec.{value, reply}
use nex_talk_relay.Platform.Http.{err}
use nex_talk_relay.Platform.World.{World, now, kv_put}
use nex_talk_relay.Shard.{Cfg}
use nex_talk_relay.Shard.Crypto.{sha256_hex}
use nex_talk_relay.Shard.Create.{mailbox_key}
use nex_talk_relay.Shard.Send.{drop_stale}
use nex_talk_relay.Shard.Send.Delivery.{load_mailbox-some, load_mailbox-none, missing_reply}
use nex_talk_relay.Shard.Read.{ReadRequest, consume, take_messages}
use nex_talk_relay.Shard.Frame.{view}

module _ (p : Platform) (cfg : Cfg) (r : ReadRequest) (w : World p) where
  -- Whether the reader holds the secret of the mailbox.
  abbrev pub may_read : Mailbox → Bool
  may_read m = constant_time_equal (sha256_hex p r.read_secret) m.read_secret_hash

  module _ (m : Mailbox) (found : view p w (to_lower r.mailbox_id) ≡ some m) where
    pub take_messages-run :
        may_read m ≡ true
        → (v : World p) × (take_messages p cfg r w ≡ (value (drop_stale cfg w.time m), v))
          × (v.time ≡ w.time)
          × (v.kv
              ≡ p.write w.kv w.time
                  (mailbox_key (to_lower r.mailbox_id))
                  (mailbox (consume r.peek (drop_stale cfg w.time m)))
                  (some cfg.mailbox_ttl_seconds))
    unfolding take_messages now kv_put
    take_messages-run ok =
        rw (load_mailbox-some p w (to_lower r.mailbox_id) m found, ok) (_, refl, refl, refl)

    pub take_messages-denied :
        may_read m ≡ false
        → take_messages p cfg r w ≡ (reply (err (codes "invalid read_secret") 401), w)
    unfolding take_messages
    take_messages-denied bad = rw (load_mailbox-some p w (to_lower r.mailbox_id) m found, bad) refl

  pub take_messages-missing :
      view p w (to_lower r.mailbox_id) ≡ none
      → take_messages p cfg r w
        ≡ (reply (missing_reply p (p.read w.kv w.time (mailbox_key (to_lower r.mailbox_id)))), w)
  unfolding take_messages
  take_messages-missing gone = rw (load_mailbox-none p w (to_lower r.mailbox_id) gone) refl
