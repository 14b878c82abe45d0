-- ===== src/Combined/Resolve.antt =====
-- `existsOnReplica` and `handleResolve` of combined/worker.js.
use nex_talk_relay.Base.{
  Text, codes, to_lower, ℕ, Bool, true, false, Option, none, some, List, [], ◌∷◌, ◌++◌,
  if◌then◌else◌,
}
use nex_talk_relay.Js.{undefined}
use nex_talk_relay.Platform.{Platform, Stored}
use nex_talk_relay.Platform.Exec.{pure, lift, ◌>>=◌}
use nex_talk_relay.Platform.Http.{Request, Response, search_param, json_ok}
use nex_talk_relay.Platform.World.{Run, kv_get, fetch}
use nex_talk_relay.Combined.{NodeEnv, router_env, is_self, with_err}
use nex_talk_relay.Router.Config.{hmac_hex, get_prior_shard_counts, get_routing_table_version}
use nex_talk_relay.Router.Enroll.{first_url, url_text}
use nex_talk_relay.Router.Resolve.{pubkey_param, says_yes, era_replicas, resolve_answer}
use nex_talk_relay.Router.Ring.{era_counts_descending}
use nex_talk_relay.Shard.Create.{mailbox_key}

abbrev pub is_stored : Option Stored → Bool
is_stored none = false
is_stored (some s) = true

module _ (p : Platform) where
  -- The node asks its own KV namespace for itself, and any other node over the network.
  unfoldable pub exists_on_replica : NodeEnv → Option Text → Text → Run p Bool
  exists_on_replica env url mailbox_id =
      if is_self env url
      then (do raw ← kv_get p (mailbox_key (to_lower mailbox_id)); pure (is_stored raw))
      else (do
        answer ← fetch p (url_text url ++ (codes "/exists?mailbox_id=" ++ mailbox_id)) undefined
        pure (says_yes answer))

  unfoldable pub node_find_era : NodeEnv → List Text → Text → Text → List ℕ → Run p (Option ℕ)
  node_find_era env urls pubkey mailbox_id [] = pure none
  node_find_era env urls pubkey mailbox_id (n ∷ ns) = do
    found ←
        exists_on_replica env (first_url (era_replicas p (router_env env) urls pubkey n)) mailbox_id
    elim found [ true ↦ pure (some n) | false ↦ node_find_era env urls pubkey mailbox_id ns ]

  unfoldable pub node_resolve : Request → NodeEnv → List Text → Run p Response
  node_resolve request env urls = do
    pubkey ← with_err p (lift (pubkey_param (search_param (codes "pubkey") request)))
    let mailbox_id = hmac_hex p (to_lower pubkey) env.server_secret
    prior ← get_prior_shard_counts p env.topology
    era ← node_find_era env urls pubkey mailbox_id (era_counts_descending urls prior)
    version ← get_routing_table_version p env.cfg
    pure (json_ok (resolve_answer p (router_env env) urls pubkey mailbox_id era version) [])
