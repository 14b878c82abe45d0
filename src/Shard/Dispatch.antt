-- ===== src/Shard/Dispatch.antt =====
-- The entry point of the shard: the default export of shard/worker.js.
use nex_talk_relay.Base.{Text, codes, same, ℕ, Bool, ◌&&◌, [], ◌++◌, if◌then◌else◌}
use nex_talk_relay.Js.{str}
use nex_talk_relay.Platform.{Platform}
use nex_talk_relay.Platform.Exec.{Outcome, value, reply, throw, pure}
use nex_talk_relay.Platform.Http.{Request, Response, err, cors_headers}
use nex_talk_relay.Platform.World.{World, Run, wait_until, self_register}
use nex_talk_relay.Shard.{Env, Cfg}
use nex_talk_relay.Shard.Create.{handle_create}
use nex_talk_relay.Shard.Exists.{handle_exists}
use nex_talk_relay.Shard.Send.{handle_send}
use nex_talk_relay.Shard.Read.{handle_read}
use nex_talk_relay.Shard.Replicate.{handle_replicate}
use nex_talk_relay.Shard.Table.{handle_routing_table_push, handle_routing_table_serve}
use nex_talk_relay.Shard.Admin.{
  handle_health, handle_admin_shard_info, handle_admin_register, handle_server_hello,
}
use nex_talk_relay.Shard.Rotate.{handle_admin_rotate_key}

abbrev pub is_route : Text → Text → Request → Bool
is_route path method request = same request.path path && same request.method method

-- `new Response(text, { status, headers: CORS_HEADERS })`; the text stands as a JSON string
abbrev pub plain_response : Text → ℕ → Response
plain_response t status = record { status = status; body = str t; headers = cors_headers }

abbrev pub answer_of : Outcome Response → Response
answer_of (value r) = r
answer_of (reply r) = r
answer_of (throw e) = err (codes "Internal server error: " ++ e) 500

module _ (p : Platform) where
  -- the `try` block, with the response behind it
  unfoldable pub route : Request → Env → Cfg → Run p Response
  route request env cfg =
      if is_route (codes "/health") (codes "GET") request
      then handle_health p request env
      else if is_route (codes "/server_hello") (codes "POST") request
      then handle_server_hello p request
      else if is_route (codes "/create") (codes "POST") request
      then handle_create p request env cfg
      else if is_route (codes "/exists") (codes "GET") request
      then handle_exists p request
      else if is_route (codes "/send") (codes "POST") request
      then handle_send p request env cfg
      else if is_route (codes "/read") (codes "GET") request
      then handle_read p request env cfg
      else if is_route (codes "/internal/routing_table") (codes "POST") request
      then handle_routing_table_push p request env
      else if is_route (codes "/internal/replicate") (codes "POST") request
      then handle_replicate p request env cfg
      else if is_route (codes "/routing_table.json") (codes "GET") request
      then handle_routing_table_serve p
      else if is_route (codes "/admin/shard_info") (codes "GET") request
      then handle_admin_shard_info p request env
      else if is_route (codes "/admin/register") (codes "POST") request
      then handle_admin_register p request env
      else if is_route (codes "/admin/rotate_key") (codes "POST") request
      then handle_admin_rotate_key p request env
      else pure (plain_response (codes "Not Found") 404)

  -- `fetch`, with KV bound and the Router's key set; the handler's exceptions become a response.
  unfoldable pub handle_fetch : Request → Env → Cfg → World p → Response × World p
  handle_fetch request env cfg w =
      if same request.method (codes "OPTIONS")
      then (plain_response [] 204, w)
      else (let (_, u) = wait_until p self_register w in
          let (outcome, v) = route request env cfg u in (answer_of outcome, v))
