-- ===== src/Platform/Laws.antt =====
-- What the workers rely on of the host, as hypotheses of the theorems that need them.
use nex_talk_relay.Base.{
  Text, ℕ, ◌+◌, ◌*◌, ◌≤◌, ◌≡◌, ◌≢◌, Bool, true, Option, none, some, length, ltb, if◌then◌else◌,
}
use nex_talk_relay.Encoding.{Bytes, hex_to_bytes}
use nex_talk_relay.Encoding.RoundTrip.{AllBytes}
use nex_talk_relay.Platform.{Platform, Stored}

-- Whether a value that was written at `t` for `ttl` seconds is still there at `u`.
abbrev pub is_alive : ℕ → Option ℕ → ℕ → Bool
is_alive t none u = true
is_alive t (some ttl) u = ltb u (t + 1000 * ttl)

-- The documented behaviour of a KV namespace that one worker reads and writes: a read at a later
-- time returns what was written last under the key, until it expires.
pub record KvLaws (p : Platform) : Type 0 where
  pub read-write_self :
      (s : p.Store) (t : ℕ) (k : Text) (v : Stored) (ttl : Option ℕ) (u : ℕ)
      → t ≤ u
      → p.read (p.write s t k v ttl) u k ≡ (if is_alive t ttl u then some v else none)
  pub read-write_ne :
      (s : p.Store) (t : ℕ) (k : Text) (v : Stored) (ttl : Option ℕ) (u : ℕ) (j : Text)
      → k ≢ j
      → p.read (p.write s t k v ttl) u j ≡ p.read s u j
  pub read-remove_self :
      (s : p.Store) (t : ℕ) (k : Text) (u : ℕ) → t ≤ u → p.read (p.remove s t k) u k ≡ none
  pub read-remove_ne :
      (s : p.Store) (t : ℕ) (k : Text) (u : ℕ) (j : Text)
      → k ≢ j
      → p.read (p.remove s t k) u j ≡ p.read s u j

-- A digest of 32 bytes, and random bytes as many as are asked for.
pub record HashLaws (p : Platform) : Type 0 where
  pub sha256-bytes : (m : Bytes) → (length (p.sha256 m) ≡ 32) × AllBytes (p.sha256 m)
  pub hmac-bytes : (key m : Bytes) → (length (p.hmac key m) ≡ 32) × AllBytes (p.hmac key m)
  pub random-bytes : (n k : ℕ) → (length (p.random_bytes n k) ≡ k) × AllBytes (p.random_bytes n k)

-- A key pair of Ed25519, with its public key as a hexadecimal text: what the private key signs is
-- a text of 64 bytes, which the public key verifies.
pub record IsKeyPair (p : Platform) (private_key public_hex : Text) : Type 0 where
  pub public_bytes : Bytes
  pub public_read : hex_to_bytes public_hex ≡ some public_bytes
  pub signs :
      (m : Bytes)
      → (sig : Bytes) × (p.sign private_key m ≡ some sig)
        × (length sig ≡ 64)
        × AllBytes sig
        × (p.verify public_bytes sig m ≡ some true)
