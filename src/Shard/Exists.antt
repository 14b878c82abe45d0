-- ===== src/Shard/Exists.antt =====
-- `handleExists` of shard/worker.js.
use nex_talk_relay.Base.{Text, codes, to_lower, true, false, not, Option, none, some, [], ◌∷◌, ◌++◌}
use nex_talk_relay.Js.{bool, object}
use nex_talk_relay.Js.Regex.{is_hex}
use nex_talk_relay.Platform.{Platform}
use nex_talk_relay.Platform.Exec.{Outcome, value, reply, pure, lift, stop_if, ◌>>=◌, ◌>>◌}
use nex_talk_relay.Platform.Http.{Request, Response, search_param, err, err_with, json, retry_after}
use nex_talk_relay.Platform.World.{Run, kv_get}
use nex_talk_relay.Shard.Limits.{client_ip, rate_limit}
use nex_talk_relay.Shard.Create.{mailbox_key}

-- The parameter `mailbox_id`, which must be hexadecimal.
unfoldable pub mailbox_id_param : Option Text → Outcome Text
mailbox_id_param none = reply (err (codes "mailbox_id required") 400)
mailbox_id_param (some id) = elim (is_hex 16 128 id) [
  | true ↦ value id
  | false ↦ reply (err (codes "mailbox_id required") 400)
]

module _ (p : Platform) where
  unfoldable pub handle_exists : Request → Run p Response
  handle_exists request = do
    id ← lift (mailbox_id_param (search_param (codes "mailbox_id") request))
    ip_ok ← rate_limit p (codes "exists-ip:" ++ client_ip request) 300 60
    stop_if (not ip_ok) (err_with (codes "Too many requests") 429 (retry_after (codes "60")))
    raw ← kv_get p (mailbox_key (to_lower id))
    (elim raw [
      | none ↦ lift (reply (err (codes "not found") 404))
      | some s ↦ pure (json (object ((codes "exists", bool true) ∷ [])))
    ])
