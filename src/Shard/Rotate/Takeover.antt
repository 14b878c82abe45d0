-- ===== src/Shard/Rotate/Takeover.antt =====
-- After a rotation the shard holds the new key, whatever the Router answers.
use nex_talk_relay.Base.{
  Text, codes, ◌≤◌, ◌≡◌, ◌≢◌, refl, ap, ◌∙◌, none, some, append_cancel_left, ne_of_first,
  Bool-cases, inl, inr, arith,
}
use nex_talk_relay.Encoding.{Bytes, utf8, bytes_to_hex}
use nex_talk_relay.Js.{Json}
use nex_talk_relay.Platform.{Platform, identity}
use nex_talk_relay.Platform.Exec.{value, pure}
use nex_talk_relay.Platform.Laws.{KvLaws}
use nex_talk_relay.Platform.World.{World, kv_get, kv_put, kv_delete, fetch}
use nex_talk_relay.Shard.{Env}
use nex_talk_relay.Shard.Keys.{shard_identity_kv_key, ensure_shard_identity, sign_with_shard_key}
use nex_talk_relay.Shard.Admin.{self_register_kv_key, is_set, strip_slash, or_empty}
use nex_talk_relay.Shard.Rotate.{Rotation, rotate, notify_router, migration_message, accept_message}

module _ (p : Platform) (laws : KvLaws p) (env : Env) (r : Rotation) where
  register-ne-identity : self_register_kv_key ≢ shard_identity_kv_key
  unfolding self_register_kv_key shard_identity_kv_key codes
  register-ne-identity h = ne_of_first _ _ (omega arith) (append_cancel_left (codes "shard_") _ _ h)

  -- Telling the Router ends, and leaves the KV namespace as it was.
  notify-run :
      (old_sig new_sig : Text) (w : World p)
      → (x : Json) × (v : World p) × (notify_router p env r old_sig new_sig w ≡ (value x, v))
        × (v.kv ≡ w.kv)
  unfolding notify_router fetch
  notify-run old_sig new_sig w =
      elim (Bool-cases (is_set (some (strip_slash (or_empty env.router_url))))) [
        | inl told ↦ rw told (_, _, refl, refl)
        | inr alone ↦ rw alone (_, _, refl, refl)
      ]

  signed :
      (key message : Text) (a : Bytes)
      → p.sign key (utf8 message) ≡ some a
      → sign_with_shard_key p key message ≡ pure (bytes_to_hex a)
  unfolding sign_with_shard_key
  signed key message a h = rw (h, sign_with_shard_key) refl

  rotate-kv :
      (a b : Bytes) (w : World p)
      → p.sign r.old.private_key (utf8 (migration_message r)) ≡ some a
      → p.sign r.new.private_key (utf8 (accept_message r)) ≡ some b
      → (rotate p env r w).1.kv
        ≡ p.remove
            (p.write w.kv w.time shard_identity_kv_key (identity r.new) none)
            w.time
            self_register_kv_key
  unfolding rotate kv_put kv_delete
  rotate-kv a b w old_signs new_signs =
      let (x, v, run, same) = notify-run (bytes_to_hex a) (bytes_to_hex b) (record w {
        kv =
            p.remove (p.write w.kv w.time shard_identity_kv_key (identity r.new) none) w.time
              self_register_kv_key;
      }) in
      rw
        (
          signed r.old.private_key (migration_message r) a old_signs,
          signed r.new.private_key (accept_message r) b new_signs,
          run,
        )
        same

  -- Where both keys can sign, the shard's own key is the new one at every later time, as long as
  -- nothing else touches it, whether the Router could be told or not.
  pub rotate-takes_over :
      (a b : Bytes) (w z : World p)
      → p.sign r.old.private_key (utf8 (migration_message r)) ≡ some a
      → p.sign r.new.private_key (utf8 (accept_message r)) ≡ some b
      → w.time ≤ z.time
      → p.read z.kv z.time shard_identity_kv_key
        ≡ p.read (rotate p env r w).1.kv z.time shard_identity_kv_key
      → ensure_shard_identity p z ≡ (value r.new, z)
  unfolding ensure_shard_identity kv_get
  rotate-takes_over a b w z old_signs new_signs le untouched =
      let found : p.read z.kv z.time shard_identity_kv_key ≡ some (identity r.new) =
        untouched
        ∙ ap (λ s. p.read s z.time shard_identity_kv_key) (rotate-kv a b w old_signs new_signs)
        ∙ laws.read-remove_ne _ w.time self_register_kv_key z.time shard_identity_kv_key
            register-ne-identity
        ∙ laws.read-write_self w.kv w.time shard_identity_kv_key (identity r.new) none z.time le in
      rw found refl
