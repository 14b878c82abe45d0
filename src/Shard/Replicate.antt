-- ===== src/Shard/Replicate.antt =====
-- `replicateToSiblings` and `handleReplicate` of shard/worker.js, and the cached routing table.
pub mod Copies
pub mod Trust
use nex_talk_relay.Base.{
  Text, codes, same, to_lower, ℕ, Bool, true, false, not, ◌&&◌, ◌||◌, Option, none, some, List, [],
  ◌∷◌, ◌++◌, map, any, keep, decimal, if◌then◌else◌,
}
use nex_talk_relay.Js.{
  Json, undefined, null, bool, num, str, arr, nil, Number, get, truthy, is_string, is_object,
  elements, to_text, object, without,
}
use nex_talk_relay.Js.Regex.{is_digits}
use nex_talk_relay.Platform.{Platform, Mailbox, Stored, mailbox, as_mailbox, as_doc, Fetched}
use nex_talk_relay.Platform.Exec.{Outcome, value, reply, throw, pure, lift, stop_if, ◌>>=◌, ◌>>◌}
use nex_talk_relay.Platform.Http.{Request, Response, bad_request, err, err_with, json, retry_after}
use nex_talk_relay.Platform.World.{Run, now, kv_get, kv_put, fetch}
use nex_talk_relay.Shard.{Env, Cfg}
use nex_talk_relay.Shard.Limits.{rate_limit}
use nex_talk_relay.Shard.Crypto.{
  is_hex_string, is_hex_value, lower_case, to_number, is_apart, verify_ed25519_message,
}
use nex_talk_relay.Shard.Keys.{ensure_shard_identity, sign_with_shard_key}
use nex_talk_relay.Shard.Create.{mailbox_key}
use nex_talk_relay.Shard.Send.{enqueue}

unfoldable pub routing_table_kv_key : Text
unfolding codes
routing_table_kv_key = codes "routing_table_cache"

-- What `handleReplicate` reads from its body.
pub record ReplicateRequest : Type 0 where
  pub mailbox_id : Text
  pub entry : Json
  pub replica_shard_urls : Json
  pub origin_pubkey : Json
  pub timestamp : Json
  pub signature : Text
  -- the body without its signature
  pub unsigned : Json

-- the tests on the form of the body
unfoldable pub parse_replicate : Option Json → Outcome ReplicateRequest
parse_replicate none = reply (bad_request (codes "Request body must be valid JSON"))
parse_replicate (some body) =
    let mailbox_id = get (codes "mailbox_id") body in
    let entry = get (codes "entry") body in
    let origin_pubkey = get (codes "origin_shard_pubkey") body in
    let timestamp = get (codes "timestamp") body in
    let signature = get (codes "signature") body in
    if not (is_hex_string 16 128 mailbox_id)
    then reply (bad_request (codes "mailbox_id must be a hex string"))
    else if not (
        is_object entry
        && is_string (get (codes "id") entry)
        && is_string (get (codes "message") entry))
    then reply (bad_request (codes "entry must include id and message"))
    else if not (is_hex_value 64 64 origin_pubkey)
    then reply (bad_request (codes "origin_shard_pubkey must be 64-char hex"))
    else if not (truthy timestamp && is_digits (to_text timestamp))
    then reply (bad_request (codes "timestamp required"))
    else if not (is_hex_value 128 128 signature)
    then reply (bad_request (codes "signature must be 128-char hex"))
    else value (record {
      mailbox_id = to_text mailbox_id;
      entry = entry;
      replica_shard_urls = get (codes "replica_shard_urls") body;
      origin_pubkey = origin_pubkey;
      timestamp = timestamp;
      signature = to_text signature;
      unsigned = without (codes "signature") body;
    })

-- `s.pubkey && s.pubkey.toLowerCase() === origin`; the keys of a signed table are texts or `null`
unfoldable pub has_pubkey : Text → Json → Bool
has_pubkey origin s = elim (get (codes "pubkey") s) [
  | str t ↦ truthy (str t) && same (to_lower t) origin
  | _ ↦ false
]

-- Whether the shards of a cached table hold the key.
unfoldable pub is_known_shard : Option Json → Text → Bool
is_known_shard none origin = false
is_known_shard (some table) origin = any (has_pubkey origin) (elements (get (codes "shards") table))

-- `m.id === entry.id`, where the id of the entry is a text
unfoldable pub has_id : Text → Json → Bool
has_id id m = elim (get (codes "id") m) [ str t ↦ same t id | _ ↦ false ]

-- The record of a replica that has seen no `/create`.
unfoldable pub shell_mailbox : ReplicateRequest → ℕ → Mailbox
shell_mailbox r t = record {
  read_secret_hash = [];
  client_pubkey = undefined;
  messages = [];
  created_at = t;
  messages_enqueued_at = none;
  replica_shard_urls = if truthy r.replica_shard_urls then r.replica_shard_urls else arr nil;
}

abbrev pub deduped : Response
deduped = json (object ((codes "replicated", bool true) ∷ (codes "deduped", bool true) ∷ []))

abbrev pub replicated : Response
replicated = json (object ((codes "replicated", bool true) ∷ []))

module _ (p : Platform) where
  unfoldable pub get_cached_routing_table : Run p (Option Json)
  get_cached_routing_table = do
    raw ← kv_get p routing_table_kv_key
    (elim raw [ none ↦ pure none | some s ↦ pure (as_doc s) ])

  -- The origin: its rate, its key in the Router's table, and its signature.
  unfoldable pub admit_replicate : Cfg → ReplicateRequest → Run p Unit
  admit_replicate cfg r = do
    t ← now p
    stop_if (is_apart t (to_number p r.timestamp) 60_000)
        (err (codes "timestamp outside allowed skew") 401)
    origin ← lift (lower_case r.origin_pubkey)
    origin_ok ← rate_limit p (codes "replicate-origin:" ++ origin) cfg.max_replicates_per_origin 60
    stop_if (not origin_ok) (
        err_with (codes "Too many replicate requests from this origin, slow down") 429
          (retry_after (codes "60")))
    cached ← get_cached_routing_table
    stop_if (not (is_known_shard cached origin))
        (err (codes "origin shard is not a Router-recognized identity") 401)
    stop_if
        (not (
          verify_ed25519_message p (to_text r.origin_pubkey)
            (codes "replicate:" ++ p.stringify r.unsigned) r.signature))
        (err (codes "replicate signature verification failed") 401)

  -- The stored mailbox at a key, or a shell.
  unfoldable pub load_or_shell : ReplicateRequest → Text → Run p Mailbox
  load_or_shell r key = do
    raw ← kv_get p key
    t ← now p
    (elim raw [
      | none ↦ pure (shell_mailbox r t)
      | some s ↦ elim (as_mailbox s) [
        | none ↦ lift (reply (err (codes "Internal storage error") 500))
        | some m ↦ pure m
      ]
    ])

  -- The copy is appended unless an entry with its id is there.
  unfoldable pub append_copy : Cfg → ReplicateRequest → Mailbox → Run p Response
  append_copy cfg r stored =
      if any (has_id (to_text (get (codes "id") r.entry))) stored.messages then pure deduped else do
        t ← now p
        kv_put p (mailbox_key (to_lower r.mailbox_id)) (mailbox (enqueue t r.entry stored))
            (some cfg.mailbox_ttl_seconds)
        pure replicated

  unfoldable pub store_replica : Cfg → ReplicateRequest → Run p Response
  store_replica cfg r = do
    stored ← load_or_shell r (mailbox_key (to_lower r.mailbox_id))
    append_copy cfg r stored

  unfoldable pub handle_replicate : Request → Env → Cfg → Run p Response
  handle_replicate request env cfg = do
    r ← lift (parse_replicate request.body)
    admit_replicate cfg r
    store_replica cfg r

  -- The fetches of `Promise.all`, each of which catches its own failure.
  unfoldable pub push_copies : Json → List Text → Run p Unit
  push_copies body [] = pure tt
  push_copies body (url ∷ urls) = do
    fetch p (url ++ codes "/internal/replicate") body
    push_copies body urls

  -- `u !== env.SELF_URL`
  abbrev pub is_other : Option Text → Json → Bool
  is_other none u = true
  is_other (some self) u = elim u [ str t ↦ not (same t self) | _ ↦ true ]

  -- `replicateToSiblings`, up to the exceptions that it catches
  unfoldable pub replicate_to_siblings : Env → Text → Json → Json → Run p Unit
  replicate_to_siblings env mailbox_id entry urls =
      let siblings = keep (is_other env.self_url) (elements urls) in
      elim siblings [
        | [] ↦ pure tt
        | s ∷ ss ↦ do
          own ← ensure_shard_identity p
          t ← now p
          let payload =
              (codes "mailbox_id", str mailbox_id)
              ∷ (codes "entry", entry)
              ∷ (codes "replica_shard_urls", urls)
              ∷ (codes "origin_shard_pubkey", str own.public_key_hex)
              ∷ (codes "timestamp", str (decimal t))
              ∷ []
          signature ←
              sign_with_shard_key p own.private_key
                (codes "replicate:" ++ p.stringify (object payload))
          push_copies (object (payload ++ (codes "signature", str signature) ∷ []))
              (to_text s ∷ map to_text ss)
      ]
