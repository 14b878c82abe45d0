-- ===== src/Shard/Create/Refresh.antt =====
-- What `/create` does to a mailbox.
use nex_talk_relay.Base.{to_lower, ◌<◌, ◌≡◌, refl, true, false, Option, none, some}
use nex_talk_relay.Js.{Json}
use nex_talk_relay.Platform.{Platform, Stored, Mailbox, mailbox, as_mailbox}
use nex_talk_relay.Platform.Exec.{value}
use nex_talk_relay.Platform.Laws.{KvLaws}
use nex_talk_relay.Platform.World.{World, kv_get, kv_put, now}
use nex_talk_relay.Shard.{Cfg}
use nex_talk_relay.Shard.Create.{
  mailbox_key, CreateRequest, mailbox_after_create, refreshed, created_mailbox, store_with,
  store_mailbox, client_key, create_result,
}
use nex_talk_relay.Shard.Send.Delivery.{view-write}
use nex_talk_relay.Shard.Frame.{view, parsed}

stored_entry :
    (p : Platform) (o : Option Stored) (m : Mailbox)
    → parsed p o ≡ some m
    → (s : Stored) × (o ≡ some s) × (as_mailbox s ≡ some m)
stored_entry p none m h = cc
stored_entry p (some s) m h = (s, refl, h)

module _ (p : Platform) (laws : KvLaws p) (cfg : Cfg) (r : CreateRequest) (client : Json)
    (w : World p) where
  readable_entry :
      (m : Mailbox)
      → view p w (to_lower r.mailbox_id) ≡ some m
      → (s : Stored) × (p.read w.kv w.time (mailbox_key (to_lower r.mailbox_id)) ≡ some s)
        × (as_mailbox s ≡ some m)
  unfolding view
  readable_entry m found = stored_entry p _ m found

  -- The world and the answer behind a creation, from what it found.
  store-run :
      (o : Option Stored)
      → p.read w.kv w.time (mailbox_key (to_lower r.mailbox_id)) ≡ o
      → client_key r ≡ value client
      → store_mailbox p cfg r w ≡ (
        value (create_result cfg r (mailbox_after_create r client w.time o).1),
        record w {
          kv =
              p.write w.kv w.time
                (mailbox_key (to_lower r.mailbox_id))
                (mailbox (mailbox_after_create r client w.time o).0)
                (some cfg.mailbox_ttl_seconds);
        },
      )
  unfolding store_mailbox store_with kv_get kv_put now
  store-run o found key = rw (key, found) refl

  -- A creation over a mailbox `m` that is there keeps its messages, the age of its queue and the time
  -- of its creation, and gives it the new secret; the answer says that it is not new.
  pub create-keeps_messages :
      (m : Mailbox)
      → 0 < cfg.mailbox_ttl_seconds
      → client_key r ≡ value client
      → view p w (to_lower r.mailbox_id) ≡ some m
      → (n : Mailbox) × (view p (store_mailbox p cfg r w).1 (to_lower r.mailbox_id) ≡ some n)
        × (n.messages ≡ m.messages)
        × (n.messages_enqueued_at ≡ m.messages_enqueued_at)
        × (n.created_at ≡ m.created_at)
        × (n.read_secret_hash ≡ to_lower r.read_secret_hash)
        × ((store_mailbox p cfg r w).0 ≡ value (create_result cfg r false))
  create-keeps_messages m pos key found =
      let (s, stored, readable) = readable_entry m found in
      let after : (mailbox_after_create r client w.time (some s)) ≡ (refreshed r client m, false) =
        (unfold mailbox_after_create in rw readable refl) in
      rw (store-run (some s) stored key, after)
        (
          refreshed r client m,
          (view-write p laws w _ _ _ cfg.mailbox_ttl_seconds pos refl refl).0,
          unfold refreshed in refl,
          unfold refreshed in refl,
          unfold refreshed in refl,
          unfold refreshed in refl,
          refl,
        )

  -- A creation under a free id makes an empty mailbox with the secret.
  pub create-fresh :
      0 < cfg.mailbox_ttl_seconds
      → client_key r ≡ value client
      → p.read w.kv w.time (mailbox_key (to_lower r.mailbox_id)) ≡ none
      → (view p (store_mailbox p cfg r w).1 (to_lower r.mailbox_id)
          ≡ some (created_mailbox r client w.time))
        × ((store_mailbox p cfg r w).0 ≡ value (create_result cfg r true))
  create-fresh pos key free =
      let after : (mailbox_after_create r client w.time none)
          ≡ (created_mailbox r client w.time, true) =
        (unfold mailbox_after_create in refl) in
      rw (store-run none free key, after)
        ((view-write p laws w _ _ _ cfg.mailbox_ttl_seconds pos refl refl).0, refl)
