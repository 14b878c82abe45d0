-- ===== src/Shard/Replicate/Trust.antt =====
-- Whose copies a shard stores.
use nex_talk_relay.Base.{
  Text, codes, ℕ, ◌≡◌, ◌≢◌, ◌⊎◌, refl, true, false, not, Option, none, some, [], ◌∷◌, ◌++◌,
  ne_of_first, append_cancel_left, Option-cases, inl, inr, arith,
}
use nex_talk_relay.Js.{Json, to_text}
use nex_talk_relay.Platform.{Platform, Stored, as_doc}
use nex_talk_relay.Platform.Ends.{Outcome-cases}
use nex_talk_relay.Platform.Exec.{value}
use nex_talk_relay.Platform.Http.{Request, err}
use nex_talk_relay.Platform.Laws.{KvLaws}
use nex_talk_relay.Platform.World.{World, now, kv_get, kv_put}
use nex_talk_relay.Shard.{Env, Cfg}
use nex_talk_relay.Shard.Limits.{rate_limit, bucket_key}
use nex_talk_relay.Shard.Crypto.{lower_case, to_number, is_apart, verify_ed25519_message}
use nex_talk_relay.Shard.Replicate.{
  ReplicateRequest, parse_replicate, is_known_shard, routing_table_kv_key, get_cached_routing_table,
  admit_replicate, handle_replicate,
}
use nex_talk_relay.Shard.Frame.{
  SameMailboxes, SameMailboxes-refl, Frames, Frames-bind, Frames-now, Frames-lift, Frames-stop_if,
  Frames-rate_limit, Frames-kv_get, Frames-option, Frames-pure,
}

module _ (p : Platform) (laws : KvLaws p) (cfg : Cfg) where
  abbrev table_of : Option Stored → Option Json
  table_of none = none
  table_of (some s) = as_doc s

  -- The request is recent, it is signed, and the key that it is signed with is one that the cached
  -- routing table gives to a shard.
  pub record IsTrusted (r : ReplicateRequest) (w : World p) : Type 0 where
    pub origin : Text
    pub is_origin : lower_case r.origin_pubkey ≡ value origin
    pub recent : is_apart w.time (to_number p r.timestamp) 60_000 ≡ false
    pub known : is_known_shard (table_of (p.read w.kv w.time routing_table_kv_key)) origin ≡ true
    pub signed :
        verify_ed25519_message p
          (to_text r.origin_pubkey)
          (codes "replicate:" ++ p.stringify r.unsigned)
          r.signature
        ≡ true

  bucket-ne-table : (b : Text) (w t : ℕ) → bucket_key b w t ≢ routing_table_kv_key
  unfolding bucket_key routing_table_kv_key codes
  bucket-ne-table b w t h = ne_of_first _ _ (omega arith) (append_cancel_left (b'r' ∷ []) _ _ h)

  rate-table :
      (b : Text) (limit window : ℕ) (w : World p)
      → p.read
          (rate_limit p b limit window w).1.kv
          (rate_limit p b limit window w).1.time
          routing_table_kv_key
        ≡ p.read w.kv w.time routing_table_kv_key
  unfolding rate_limit now kv_get kv_put
  rate-table b limit window w = grind (arith, laws.read-write_ne, bucket-ne-table)

  cached :
      (w : World p)
      → get_cached_routing_table p w
        ≡ (value (table_of (p.read w.kv w.time routing_table_kv_key)), w)
  unfolding get_cached_routing_table kv_get
  cached w = elim (Option-cases (p.read w.kv w.time routing_table_kv_key)) [
    | inl e ↦ rw e refl
    | inr (s, e) ↦ rw e refl
  ]

  recent_lem :
      (r : ReplicateRequest) (w : World p) (u : Unit)
      → (admit_replicate p cfg r w).0 ≡ value u
      → is_apart w.time (to_number p r.timestamp) 60_000 ≡ false
  unfolding admit_replicate now
  recent_lem r w u h = ground arith

  named_lem :
      (r : ReplicateRequest) (w : World p) (u : Unit)
      → (admit_replicate p cfg r w).0 ≡ value u
      → (o : Text) × (lower_case r.origin_pubkey ≡ value o)
  unfolding admit_replicate now
  named_lem r w u h = elim (Outcome-cases (lower_case r.origin_pubkey)) [
    | inl (o, e) ↦ (o, e)
    | inr (inl (x, bad)) ↦ absurd (ground arith)
    | inr (inr (x, bad)) ↦ absurd (ground arith)
  ]

  known_lem :
      (r : ReplicateRequest) (w : World p) (u : Unit) (o : Text)
      → lower_case r.origin_pubkey ≡ value o
      → (admit_replicate p cfg r w).0 ≡ value u
      → (is_known_shard (table_of (p.read w.kv w.time routing_table_kv_key)) o ≡ true)
        × (verify_ed25519_message p
              (to_text r.origin_pubkey)
              (codes "replicate:" ++ p.stringify r.unsigned)
              r.signature
            ≡ true)
  unfolding admit_replicate now
  known_lem r w u o e h =
      let table = rate-table (codes "replicate-origin:" ++ o) cfg.max_replicates_per_origin 60 w in
      let c =
        cached
          (rate_limit p (codes "replicate-origin:" ++ o) cfg.max_replicates_per_origin 60 w).1 in
      ground arith

  admitted :
      (r : ReplicateRequest) (w : World p) (u : Unit)
      → (admit_replicate p cfg r w).0 ≡ value u
      → IsTrusted r w
  admitted r w u h =
      let (o, e) = named_lem r w u h in
      let (known, signed) = known_lem r w u o e h in
      record {
        origin = o;
        is_origin = e;
        recent = recent_lem r w u h;
        known = known;
        signed = signed;
      }

  Frames-cached : Frames p (get_cached_routing_table p)
  unfolding get_cached_routing_table
  Frames-cached =
      Frames-bind p _ _ _ _ (Frames-kv_get p _)
        λ raw. Frames-option p _ _ raw _ _ (Frames-pure p _ _) (λ s. Frames-pure p _ _)

  Frames-admit_replicate : (r : ReplicateRequest) → Frames p (admit_replicate p cfg r)
  unfolding admit_replicate
  Frames-admit_replicate r = Frames-bind p _ _ _ _ (Frames-now p) λ t.
      Frames-bind p _ _ _ _ (Frames-stop_if p _ _) λ _.
        Frames-bind p _ _ _ _ (Frames-lift p Text (lower_case r.origin_pubkey)) λ origin.
          Frames-bind p _ _ _ _ (Frames-rate_limit p laws _ _ _) λ ok.
            Frames-bind p _ _ _ _ (Frames-stop_if p _ _) λ _.
              Frames-bind p _ _ _ _ Frames-cached λ table.
                Frames-bind p _ _ _ _ (Frames-stop_if p (not (is_known_shard table origin)) _) λ _.
                  Frames-stop_if p
                    (not (
                      verify_ed25519_message p (to_text r.origin_pubkey)
                        (codes "replicate:" ++ p.stringify r.unsigned) r.signature))
                    (err (codes "replicate signature verification failed") 401)

  -- A replication request changes no mailbox, or its body has the form that is asked for, its time is
  -- within a minute of the clock, its signature is good, and the key of the signature is one that the
  -- cached routing table gives to a shard.
  pub handle_replicate-trusted :
      (request : Request) (env : Env) (w : World p)
      → SameMailboxes p w (handle_replicate p request env cfg w).1
        ⊎ ((r : ReplicateRequest) × (parse_replicate request.body ≡ value r) × IsTrusted r w)
  unfolding handle_replicate
  handle_replicate-trusted request env w = elim (Outcome-cases (parse_replicate request.body)) [
    | inl (r, e) ↦ elim (Outcome-cases (admit_replicate p cfg r w).0) [
      | inl (u, ok) ↦ inr (r, e, admitted r w u ok)
      | inr (inl (x, bad)) ↦ inl (rw (e, bad) ((Frames-admit_replicate r).at w))
      | inr (inr (x, bad)) ↦ inl (rw (e, bad) ((Frames-admit_replicate r).at w))
    ]
    | inr (inl (x, e)) ↦ inl (rw e (SameMailboxes-refl p w))
    | inr (inr (x, e)) ↦ inl (rw e (SameMailboxes-refl p w))
  ]
