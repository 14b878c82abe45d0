-- ===== src/Platform/World.antt =====
-- The state that a handler runs in, and the host's operations on it. One request is handled at one
-- instant: the clock does not move while a handler runs.
use nex_talk_relay.Base.{Text, ℕ, ◌+◌, Option, List, [], ◌∷◌, ◌++◌}
use nex_talk_relay.Js.{Json}
use nex_talk_relay.Encoding.{Bytes, bytes_to_hex}
use nex_talk_relay.Platform.{Platform, Stored, Fetched}
use nex_talk_relay.Platform.Exec.{Exec, value}

-- Work that is handed to `ctx.waitUntil`: a fan-out of an accepted message, with the mailbox, the
-- entry and the replica URLs, or a self-registration.
pub data Task : Type 0 where
  replicate : Text → Json → Json → Task
  self_register : Task

pub record World (p : Platform) : Type 0 where
  pub kv : p.Store
  pub time : ℕ
  pub draws : ℕ
  pub calls : ℕ
  -- the bodies that were sent, and the background work, the latest last
  pub sent : List (Text × Json)
  pub tasks : List Task

module _ (p : Platform) where
  abbrev pub Run : Type 0 → Type 0
  Run A = Exec (World p) A

  unfoldable pub now : Run ℕ
  now w = (value w.time, w)

  unfoldable pub kv_get : Text → Run (Option Stored)
  kv_get k w = (value (p.read w.kv w.time k), w)

  unfoldable pub kv_put : Text → Stored → Option ℕ → Run Unit
  kv_put k v ttl w = (value tt, record w { kv = p.write w.kv w.time k v ttl })

  unfoldable pub kv_delete : Text → Run Unit
  kv_delete k w = (value tt, record w { kv = p.remove w.kv w.time k })

  -- `bytesToHex(crypto.getRandomValues(new Uint8Array(n)))`
  unfoldable pub random_hex : ℕ → Run Text
  random_hex n w =
      (value (bytes_to_hex (p.random_bytes w.draws n)), record w { draws = w.draws + 1 })

  unfoldable pub generate_key : Run (Bytes × Text)
  generate_key w = (value (p.generate_key w.draws), record w { draws = w.draws + 1 })

  unfoldable pub fetch : Text → Json → Run Fetched
  fetch url body w = (
    value (p.fetch w.calls url body),
    record w { calls = w.calls + 1; sent = w.sent ++ (url, body) ∷ [] },
  )

  unfoldable pub wait_until : Task → Run Unit
  wait_until t w = (value tt, record w { tasks = w.tasks ++ t ∷ [] })
