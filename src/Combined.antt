-- ===== src/Combined.antt =====
-- The combined worker (combined/worker.js): one node that is a shard and, where the secrets of the
-- Router are set, the Router too. The functions that it shares with the two other workers are those of
-- their models; the modules below hold what is its own. MAILBOX_KV and ROUTER_ADMIN_KV, which share no
-- key, are one namespace here.
pub mod Create
pub mod Table
pub mod Enroll
pub mod Resolve
pub mod Admin
pub mod Dispatch
pub mod Accepted
pub mod Agreement
pub mod Own
use nex_talk_relay.Base.{
  Text, codes, same, Bool, true, false, not, ◌&&◌, Option, none, some, List, [], ◌∷◌, ◌++◌,
  if◌then◌else◌,
}
use nex_talk_relay.Js.{Number}
use nex_talk_relay.Platform.{Platform}
use nex_talk_relay.Platform.Exec.{Outcome, value, reply, throw, pure, ◌>>=◌}
use nex_talk_relay.Platform.Http.{Response, set_header}
use nex_talk_relay.Platform.World.{Run}
use nex_talk_relay.Router.Config.{TopologyEnv, RouterEnv, get_shard_urls}
use nex_talk_relay.Router.Register.{RouterCfg}
use nex_talk_relay.Router.Topology.{includes}
use nex_talk_relay.Shard.{Env}

-- The variables of the node's `env`; a text that is not set is empty.
pub record NodeEnv : Type 0 where
  pub server_secret : Text
  pub signing_key : Text
  pub signing_public : Text
  pub shared_secret : Option Text
  pub replication_factor : Option Number
  pub topology : TopologyEnv
  pub cfg : RouterCfg
  pub router_url : Option Text
  pub self_url : Option Text

-- The same variables, as each half of the node reads them.
abbrev pub router_env : NodeEnv → RouterEnv
router_env env = record {
  server_secret = env.server_secret;
  signing_key = env.signing_key;
  signing_public = env.signing_public;
  shared_secret = env.shared_secret;
  replication_factor = env.replication_factor;
  topology = env.topology;
  cfg = env.cfg;
}

abbrev pub shard_env : NodeEnv → Env
shard_env env = record {
  router_signing_public = env.signing_public;
  router_shared_secret = env.shared_secret;
  router_url = env.router_url;
  self_url = env.self_url;
}

-- `url === env.SELF_URL`
unfoldable pub is_self : NodeEnv → Option Text → Bool
is_self env none = elim env.self_url [ none ↦ true | some u ↦ false ]
is_self env (some url) = elim env.self_url [ none ↦ false | some u ↦ same url u ]

-- The node answers with `err` where the Router does with `jsonErr`: the header `Cache-Control` is set.
abbrev pub no_store : Response → Response
no_store r = record r { headers = set_header (codes "Cache-Control", codes "no-store") r.headers }

abbrev pub err_style : {A : Type 0} → Outcome A → Outcome A
err_style (value a) = value a
err_style (reply r) = reply (no_store r)
err_style (throw e) = throw e

-- The last step of `getShardUrls`: the node itself is in the list.
unfoldable pub add_self : Option Text → List Text → List Text
add_self none urls = urls
add_self (some []) urls = urls
add_self (some (c ∷ t)) urls = if includes (c ∷ t) urls then urls else urls ++ (c ∷ t) ∷ []

module _ (p : Platform) where
  abbrev pub with_err : {A : Type 0} → Run p A → Run p A
  with_err m w = let (o, v) = m w in (err_style o, v)

  unfoldable pub node_shard_urls : NodeEnv → Run p (List Text)
  node_shard_urls env = do urls ← get_shard_urls p env.topology; pure (add_self env.self_url urls)
