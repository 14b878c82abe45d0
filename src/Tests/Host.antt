-- ===== src/Tests/Host.antt =====
-- A host with a KV namespace that expires its values, and trivial cryptography.
use nex_talk_relay.Base.{
  Text, codes, same, same_refl, same-false, ℕ, zero, suc, true, ◌≡◌, refl, ap, length, Option, none,
  some, [], ◌∷◌, leb, if◌then◌else◌, arith,
}
use nex_talk_relay.Encoding.{Bytes}
use nex_talk_relay.Encoding.RoundTrip.{AllBytes}
use nex_talk_relay.Platform.{Platform, Stored, unreachable}
use nex_talk_relay.Platform.Laws.{KvLaws, is_alive}
use nex_talk_relay.Platform.World.{World}

abbrev pub Kv : Type 0
Kv = Text → ℕ → Option Stored

abbrev pub kv_write : Kv → ℕ → Text → Stored → Option ℕ → Kv
kv_write s t k v ttl j u =
    if same k j
    then (if leb t u then (if is_alive t ttl u then some v else none) else s j u)
    else s j u

abbrev pub kv_remove : Kv → ℕ → Text → Kv
kv_remove s t k j u = if same k j then (if leb t u then none else s j u) else s j u

abbrev pub zeros : ℕ → Bytes
zeros zero = []
zeros (suc n) = 0 ∷ zeros n

pub zeros-bytes : (n : ℕ) → (length (zeros n) ≡ n) × AllBytes (zeros n)
zeros-bytes zero = (refl, tt)
zeros-bytes (suc n) = let (e, small) = zeros-bytes n in (ap suc e, (omega arith, small))

abbrev pub host : Platform
host = record {
  Store = Kv;
  read = λ s t k. s k t;
  write = kv_write;
  remove = kv_remove;
  sha256 = λ bs. bs;
  hmac = λ key bs. bs;
  verify = λ key sig message. some true;
  sign = λ key message. some (zeros 64);
  generate_key = λ n. (zeros 32, []);
  random_bytes = λ n k. zeros k;
  fetch = λ n url body. unreachable (codes "no network");
  parse = λ t. none;
  stringify = λ v. [];
  number = λ t. none;
}

pub host_laws : KvLaws host
host_laws = record {
  read-write_self = λ s t k v ttl u le. ground (arith, same_refl k);
  read-write_ne = λ s t k v ttl u j away. ground (arith, same-false k j away);
  read-remove_self = λ s t k u le. ground (arith, same_refl k);
  read-remove_ne = λ s t k u j away. ground (arith, same-false k j away);
}

-- A world at the time `t` with this KV namespace.
abbrev pub at_time : ℕ → Kv → World host
at_time t kv = record { kv = kv; time = t; draws = 0; calls = 0; sent = []; tasks = [] }

abbrev pub empty : Kv
empty j u = none
