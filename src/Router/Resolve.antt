-- ===== src/Router/Resolve.antt =====
-- `handleResolve` of router/router.js: where the mailbox of a public key is.
pub mod First
use nex_talk_relay.Base.{
  Text, codes, to_lower, ℕ, Bool, true, false, not, ◌&&◌, Option, none, some, List, [], ◌∷◌, ◌++◌,
  length, if◌then◌else◌,
}
use nex_talk_relay.Js.{Json, undefined, num, str, object}
use nex_talk_relay.Js.Regex.{is_hex}
use nex_talk_relay.Platform.{Platform, Fetched, unreachable, answered}
use nex_talk_relay.Platform.Exec.{Outcome, value, reply, pure, lift, ◌>>=◌, ◌>>◌}
use nex_talk_relay.Platform.Http.{Request, Response, search_param, json_ok, json_err}
use nex_talk_relay.Platform.World.{Run, fetch}
use nex_talk_relay.Router.Config.{
  RouterEnv, hmac_hex, get_prior_shard_counts, get_routing_table_version,
}
use nex_talk_relay.Router.Enroll.{url_json, url_text, url_array, first_url, factor_turns}
use nex_talk_relay.Router.Ring.{replication_factor, replicas_for_era, era_counts_descending}
use nex_talk_relay.Shard.Admin.{is_ok}

-- The query parameter, which has 64 hexadecimal digits.
unfoldable pub pubkey_param : Option Text → Outcome Text
pubkey_param none = reply (json_err (codes "pubkey (64-char hex) query param required") 400)
pubkey_param (some t) =
    if is_hex 64 64 t
    then value t
    else reply (json_err (codes "pubkey (64-char hex) query param required") 400)

abbrev pub says_yes : Fetched → Bool
says_yes (unreachable e) = false
says_yes (answered status body) = is_ok status

-- The answer for an era, with a note or none.
unfoldable pub resolution : Text → List (Option Text) → ℕ → ℕ → List (Text × Json) → Json
resolution mailbox_id replicas era version note = object (
    (codes "mailbox_id", str mailbox_id)
    ∷ (codes "shard_url", url_json (first_url replicas))
    ∷ (codes "replica_shard_urls", url_array replicas)
    ∷ (codes "era", num era)
    ∷ (codes "table_version", num version)
    ∷ note)

abbrev pub unconfirmed : List (Text × Json)
unconfirmed = (codes "note", str (codes "mailbox not confirmed to exist yet on any known era")) ∷ []

module _ (p : Platform) where
  unfoldable pub era_replicas : RouterEnv → List Text → Text → ℕ → List (Option Text)
  era_replicas env urls pubkey n =
      replicas_for_era p pubkey n urls (factor_turns (replication_factor env.replication_factor n))

  -- Whether the primary of an era has the mailbox.
  unfoldable pub probe : Text → List (Option Text) → Run p Bool
  probe mailbox_id replicas = do
    answer ←
        fetch p (url_text (first_url replicas) ++ (codes "/exists?mailbox_id=" ++ mailbox_id))
          undefined
    pure (says_yes answer)

  -- The first era whose primary has the mailbox.
  unfoldable pub find_era : RouterEnv → List Text → Text → Text → List ℕ → Run p (Option ℕ)
  find_era env urls pubkey mailbox_id [] = pure none
  find_era env urls pubkey mailbox_id (n ∷ ns) = do
    found ← probe mailbox_id (era_replicas env urls pubkey n)
    elim found [ true ↦ pure (some n) | false ↦ find_era env urls pubkey mailbox_id ns ]

  unfoldable pub resolve_answer : RouterEnv → List Text → Text → Text → Option ℕ → ℕ → Json
  resolve_answer env urls pubkey mailbox_id (some n) version =
      resolution mailbox_id (era_replicas env urls pubkey n) n version []
  resolve_answer env urls pubkey mailbox_id none version =
      resolution mailbox_id (era_replicas env urls pubkey (length urls)) (length urls) version
        unconfirmed

  unfoldable pub handle_resolve : Request → RouterEnv → List Text → Run p Response
  handle_resolve request env urls = do
    pubkey ← lift (pubkey_param (search_param (codes "pubkey") request))
    let mailbox_id = hmac_hex p (to_lower pubkey) env.server_secret
    prior ← get_prior_shard_counts p env.topology
    era ← find_era env urls pubkey mailbox_id (era_counts_descending urls prior)
    version ← get_routing_table_version p env.cfg
    pure (json_ok (resolve_answer env urls pubkey mailbox_id era version) [])
