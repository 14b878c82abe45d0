-- ===== src/Combined/Enroll.antt =====
-- `handleRegister` of combined/worker.js.
use nex_talk_relay.Base.{Text, codes, Bool, true, false, Option, List, [], ◌∷◌, if◌then◌else◌}
use nex_talk_relay.Js.{Json, truthy}
use nex_talk_relay.Platform.{Platform}
use nex_talk_relay.Platform.Exec.{Outcome, value, reply, throw, pure, lift, ◌>>=◌, ◌>>◌}
use nex_talk_relay.Platform.Http.{Request, Response, err, json}
use nex_talk_relay.Platform.World.{Run}
use nex_talk_relay.Combined.{NodeEnv, router_env, with_err}
use nex_talk_relay.Combined.Create.{create_on_replica}
use nex_talk_relay.Router.Answers.{build_signed_response}
use nex_talk_relay.Router.Config.{get_routing_table_version}
use nex_talk_relay.Router.Enroll.{
  Capability, parse_client, authenticate_client, mint_capability, register_response,
}
use nex_talk_relay.Shard.{Cfg}

-- `createResults[0].ok`, a TypeError where there is no result
unfoldable pub primary_ok : List Bool → Outcome Unit
primary_ok [] = throw (codes "TypeError")
primary_ok (true ∷ rs) = value tt
primary_ok (false ∷ rs) = reply (err (codes "Failed to create mailbox on primary shard") 502)

module _ (p : Platform) where
  unfoldable pub create_on_all : NodeEnv → Cfg → Capability → List (Option Text) → Run p (List Bool)
  create_on_all env cfg c [] = pure []
  create_on_all env cfg c (url ∷ urls) = do
    ok ← create_on_replica p env cfg c url
    rest ← create_on_all env cfg c urls
    pure (ok ∷ rest)

  unfoldable pub node_answer : NodeEnv → Json → Json → Run p Response
  node_answer env request_id response =
      if truthy request_id
      then (do
        signed ← build_signed_response p (router_env env) request_id 200 response
        pure (json signed))
      else pure (json response)

  unfoldable pub node_register : Request → NodeEnv → Cfg → List Text → Run p Response
  node_register request env cfg urls = do
    r ← with_err p (lift (parse_client request.body))
    client ← with_err p (authenticate_client p r)
    c ← mint_capability p (router_env env) urls client
    results ← create_on_all env cfg c c.replicas
    lift (primary_ok results)
    version ← get_routing_table_version p env.cfg
    node_answer env r.request_id (register_response p c version)
