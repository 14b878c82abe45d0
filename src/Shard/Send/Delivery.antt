-- ===== src/Shard/Send/Delivery.antt =====
-- What `handleSend` does to the mailboxes, on every branch.
use nex_talk_relay.Base.{
  ap, Option-cases, ◌&&◌, leb, if◌then◌else◌, List, Text, codes, to_lower, ℕ, ◌+◌, ◌*◌, ◌≤◌, ◌<◌,
  ◌≡◌, ◌≢◌, refl, ◌∙◌, Option, none, some, [], ◌∷◌, ◌++◌, length, lt→ltb, le→leb, lt-leb,
  Bool-cases, inl, inr, arith,
}
use nex_talk_relay.Encoding.{bytes_to_hex}
use nex_talk_relay.Js.{num, str, get, Json}
use nex_talk_relay.Platform.{Platform, Stored, Mailbox, mailbox}
use nex_talk_relay.Platform.Exec.{value, reply}
use nex_talk_relay.Platform.Http.{Request, Response, err}
use nex_talk_relay.Platform.Laws.{KvLaws}
use nex_talk_relay.Platform.World.{World, now, kv_get, kv_put, random_hex, wait_until}
use nex_talk_relay.Shard.{Env, Cfg}
use nex_talk_relay.Shard.Limits.{is_backlog_stale}
use nex_talk_relay.Shard.Create.{mailbox_key}
use nex_talk_relay.Shard.Send.{
  SendRequest, drop_stale, enqueue, new_entry, has_siblings, mailbox_full, load_mailbox, deliver,
  handle_send, parse_send, admit_send,
}
use nex_talk_relay.Shard.Frame.{
  view, SameMailboxes, view-SameMailboxes, mailbox_key_injective, Frames-admit_send, Frames-respond,
}

-- What an entry of a queue says of a send at the time `t`: its message, who sent it, and when.
pub record IsEntry (t : ℕ) (r : SendRequest) (entry : Json) : Type 0 where
  pub message : get (codes "message") entry ≡ str r.message
  pub sender : get (codes "senderPubkey") entry ≡ str (to_lower r.sender_pubkey)
  pub time : get (codes "time") entry ≡ num t

pub new_entry-IsEntry :
    (id : Text) (t u : ℕ) (r : SendRequest) → t ≡ u → IsEntry u r (new_entry id t r)
unfolding new_entry get codes
new_entry-IsEntry id t u r e = record { message = refl; sender = refl; time = ap num e }

-- The messages of a mailbox at the time `t`: none of a queue that began `TTL_SECONDS` seconds ago.
abbrev pub kept_messages : Cfg → ℕ → Mailbox → List Json
kept_messages cfg t m = elim m.messages_enqueued_at [
  | none ↦ m.messages
  | some since ↦ if leb since t && leb (since + 1000 * cfg.ttl_seconds) t then [] else m.messages
]

pub drop_stale-kept :
    (cfg : Cfg) (t : ℕ) (m : Mailbox)
    → ((drop_stale cfg t m).messages ≡ kept_messages cfg t m)
      × ((drop_stale cfg t m).created_at ≡ m.created_at)
      × ((drop_stale cfg t m).read_secret_hash ≡ m.read_secret_hash)
unfolding drop_stale is_backlog_stale
drop_stale-kept cfg t m = elim (Option-cases m.messages_enqueued_at) [
  | inl idle ↦ rw idle (refl, refl, refl)
  | inr (since, begun) ↦ rw begun (ground arith, ground arith, ground arith)
]

module _ (p : Platform) where
  -- Reading a mailbox that is there.
  pub load_mailbox-some :
      (w : World p) (id : Text) (m : Mailbox)
      → view p w id ≡ some m
      → load_mailbox p (mailbox_key id) w ≡ (value m, w)
  unfolding load_mailbox view kv_get
  load_mailbox-some w id m h = ground arith

  -- What a handler answers where no mailbox can be read.
  abbrev pub missing_reply : Option Stored → Response
  missing_reply none = err (codes "Mailbox not found or expired") 404
  missing_reply (some s) = err (codes "Internal storage error") 500

  pub load_mailbox-none :
      (w : World p) (id : Text)
      → view p w id ≡ none
      → load_mailbox p (mailbox_key id) w
        ≡ (reply (missing_reply (p.read w.kv w.time (mailbox_key id))), w)
  unfolding load_mailbox view kv_get
  load_mailbox-none w id h = ground arith

  -- The entry that the next send of `r` makes, and the mailbox with it.
  unfoldable pub next_entry : World p → SendRequest → Json
  next_entry w r = new_entry (bytes_to_hex (p.random_bytes w.draws 8)) w.time r

  unfoldable pub delivered : Cfg → SendRequest → World p → Mailbox → Mailbox
  delivered cfg r w m = enqueue w.time (next_entry w r) (drop_stale cfg w.time m)

  -- A write under the key of a mailbox shows in the view, and in no other.
  pub view-write :
      (laws : KvLaws p) (w v : World p) (id : Text) (m : Mailbox) (ttl : ℕ)
      → 0 < ttl
      → v.time ≡ w.time
      → v.kv ≡ p.write w.kv w.time (mailbox_key id) (mailbox m) (some ttl)
      → (view p v id ≡ some m) × ((j : Text) → id ≢ j → view p v j ≡ view p w j)
  unfolding view
  view-write laws w v id m ttl pos same_time stored = (here, other)
    where
      here : view p v id ≡ some m
      here = rw (
        same_time,
        stored,
        laws.read-write_self w.kv w.time (mailbox_key id) (mailbox m) (some ttl) w.time
            (omega arith),
        lt→ltb w.time (w.time + 1000 * ttl) (omega arith),
      )

      other : (j : Text) → id ≢ j → view p v j ≡ view p w j
      other j ne = rw (
        same_time,
        stored,
        laws.read-write_ne w.kv w.time (mailbox_key id) (mailbox m) (some ttl) w.time
            (mailbox_key j) (λ e. ne (mailbox_key_injective id j e)),
      )

  -- The world behind a send that is accepted.
  pub deliver-run :
      (cfg : Cfg) (r : SendRequest) (w : World p) (m : Mailbox)
      → view p w (to_lower r.mailbox_id) ≡ some m
      → length (drop_stale cfg w.time m).messages < cfg.max_messages
      → (v : World p) × (deliver p cfg r w ≡ (value (delivered cfg r w m), v))
        × (v.time ≡ w.time)
        × (v.kv
            ≡ p.write w.kv w.time
                (mailbox_key (to_lower r.mailbox_id))
                (mailbox (delivered cfg r w m))
                (some cfg.mailbox_ttl_seconds))
  unfolding deliver delivered next_entry now random_hex kv_put wait_until
  deliver-run cfg r w m found room =
      rw (load_mailbox-some w (to_lower r.mailbox_id) m found, lt-leb _ _ room)
        (elim (Bool-cases (has_siblings (delivered cfg r w m).replica_shard_urls)) [
          | inl many ↦ rw many (_, refl, refl, refl)
          | inr alone ↦ rw alone (_, refl, refl, refl)
        ])

  -- Where there is room, the new entry stands last in the queue, and no other mailbox changes.
  pub deliver-accepts :
      (laws : KvLaws p) (cfg : Cfg) (r : SendRequest) (w : World p) (m : Mailbox)
      → 0 < cfg.mailbox_ttl_seconds
      → view p w (to_lower r.mailbox_id) ≡ some m
      → length (drop_stale cfg w.time m).messages < cfg.max_messages
      → ((deliver p cfg r w).0 ≡ value (delivered cfg r w m))
        × (view p (deliver p cfg r w).1 (to_lower r.mailbox_id) ≡ some (delivered cfg r w m))
        × ((j : Text) → to_lower r.mailbox_id ≢ j → view p (deliver p cfg r w).1 j ≡ view p w j)
  deliver-accepts laws cfg r w m pos found room =
      let (v, run, same_time, stored) = deliver-run cfg r w m found room in
      let (here, other) = view-write laws w v _ _ cfg.mailbox_ttl_seconds pos same_time stored in
      rw run (refl, here, other)

  pub deliver-full :
      (cfg : Cfg) (r : SendRequest) (w : World p) (m : Mailbox)
      → view p w (to_lower r.mailbox_id) ≡ some m
      → cfg.max_messages ≤ length (drop_stale cfg w.time m).messages
      → deliver p cfg r w ≡ (reply (mailbox_full cfg), w)
  unfolding deliver now
  deliver-full cfg r w m found full =
      rw (load_mailbox-some w (to_lower r.mailbox_id) m found, le→leb _ _ full) refl

  pub deliver-missing :
      (cfg : Cfg) (r : SendRequest) (w : World p)
      → view p w (to_lower r.mailbox_id) ≡ none
      → deliver p cfg r w
        ≡ (reply (missing_reply (p.read w.kv w.time (mailbox_key (to_lower r.mailbox_id)))), w)
  unfolding deliver
  deliver-missing cfg r w gone = rw (load_mailbox-none w (to_lower r.mailbox_id) gone) refl

module _ (p : Platform) (laws : KvLaws p) (request : Request) (env : Env) (cfg : Cfg) where
  pub admit-frame :
      (r : SendRequest) (w v : World p)
      → admit_send p request cfg r w ≡ (value tt, v)
      → SameMailboxes p w v
  admit-frame r w v h = rw h at ((Frames-admit_send p laws request cfg r).at w)

  module _ (r : SendRequest) (w v : World p) (m : Mailbox)
      (form : parse_send cfg request.body ≡ value r)
      (admitted : admit_send p request cfg r w ≡ (value tt, v))
      (found : view p w (to_lower r.mailbox_id) ≡ some m)
      (room : length (drop_stale cfg w.time m).messages < cfg.max_messages) where
    -- The world behind an accepted send differs from the one before it, as far as mailboxes go, by
    -- one write.
    pub handle_send-run :
        (u : World p) × SameMailboxes p u (handle_send p request env cfg w).1
        × SameMailboxes p w v
        × (u.time ≡ v.time)
        × (u.kv
            ≡ p.write v.kv v.time
                (mailbox_key (to_lower r.mailbox_id))
                (mailbox (delivered p cfg r v m))
                (some cfg.mailbox_ttl_seconds))
    unfolding handle_send
    handle_send-run =
        let f : SameMailboxes p w v = admit-frame r w v admitted in
        let found' : view p v (to_lower r.mailbox_id) ≡ some m =
          view-SameMailboxes p w v _ f ∙ found in
        let (u, run, same_time, stored) = deliver-run p cfg r v m found' (rw f.same_time room) in
        rw (form, admitted, run) (u, (Frames-respond p laws _ _ _).at u, f, same_time, stored)

    -- A send takes no time of the model's clock.
    pub handle_send-time : (handle_send p request env cfg w).1.time ≡ w.time
    handle_send-time =
        let (u, behind, f, same_time, stored) = handle_send-run in
        behind.same_time ∙ same_time ∙ f.same_time

    pub handle_send-stores :
        0 < cfg.mailbox_ttl_seconds
        → view p (handle_send p request env cfg w).1 (to_lower r.mailbox_id)
          ≡ some (enqueue w.time (next_entry p v r) (drop_stale cfg w.time m))
    handle_send-stores pos =
        let (u, behind, f, same_time, stored) = handle_send-run in
        let (here, other) =
          view-write p laws v u _ _ cfg.mailbox_ttl_seconds pos same_time stored in
        view-SameMailboxes p u _ _ behind ∙ here ∙ (unfold delivered in rw f.same_time refl)

    pub handle_send-other :
        (j : Text)
        → 0 < cfg.mailbox_ttl_seconds
        → to_lower r.mailbox_id ≢ j
        → view p (handle_send p request env cfg w).1 j ≡ view p w j
    handle_send-other j pos ne =
        let (u, behind, f, same_time, stored) = handle_send-run in
        let (here, other) =
          view-write p laws v u _ _ cfg.mailbox_ttl_seconds pos same_time stored in
        view-SameMailboxes p u _ j behind ∙ other j ne ∙ view-SameMailboxes p w v j f

  -- Let a send have the right form (`r`), and let it pass the authentication, the rate limits and
  -- the test of the envelope. If its mailbox is there and has room, the queue afterwards is the old
  -- one, without a stale backlog, with the new entry at its end, under the same read secret; any
  -- other mailbox `j` is as it was.
  pub handle_send-accepts :
      (r : SendRequest) (w v : World p) (m : Mailbox) (j : Text)
      → 0 < cfg.mailbox_ttl_seconds
      → parse_send cfg request.body ≡ value r
      → admit_send p request cfg r w ≡ (value tt, v)
      → view p w (to_lower r.mailbox_id) ≡ some m
      → length (drop_stale cfg w.time m).messages < cfg.max_messages
      → to_lower r.mailbox_id ≢ j
      → (n : Mailbox) × (view p (handle_send p request env cfg w).1 (to_lower r.mailbox_id)
          ≡ some n)
        × (n.messages ≡ (drop_stale cfg w.time m).messages ++ next_entry p v r ∷ [])
        × (n.read_secret_hash ≡ (drop_stale cfg w.time m).read_secret_hash)
        × (view p (handle_send p request env cfg w).1 j ≡ view p w j)
  unfolding enqueue
  handle_send-accepts r w v m j pos form admitted found room ne = (
    enqueue w.time (next_entry p v r) (drop_stale cfg w.time m),
    handle_send-stores r w v m form admitted found room pos,
    refl,
    refl,
    handle_send-other r w v m form admitted found room j pos ne,
  )
