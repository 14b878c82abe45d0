-- ===== src/Router/Resolve/First.antt =====
-- Which era `handleResolve` answers with (router/router.js).
use nex_talk_relay.Base.{
  any, length, ltb, leb, ◌==◌, ◌&&◌, ◌||◌, Text, codes, to_lower, ℕ, ◌+◌, ◌≡◌, refl, Bool-cases,
  inl, inr, true, false, Option, none, some, List, [], ◌∷◌, ◌++◌,
}
use nex_talk_relay.Js.{Json, undefined, num, str, get}
use nex_talk_relay.Js.Regex.{is_hex}
use nex_talk_relay.Platform.{Platform, Fetched}
use nex_talk_relay.Platform.Exec.{value}
use nex_talk_relay.Platform.Http.{Request, search_param, json_ok}
use nex_talk_relay.Platform.World.{World, kv_get, fetch}
use nex_talk_relay.Router.Config.{
  RouterEnv, hmac_hex, get_prior_shard_counts, get_routing_table_version, prior_counts_of,
}
use nex_talk_relay.Router.Enroll.{factor_turns, first_url, url_text, url_json, url_array}
use nex_talk_relay.Router.Register.{current_version, routing_table_version_key}
use nex_talk_relay.Router.Resolve.{
  pubkey_param, says_yes, era_replicas, probe, find_era, resolution, resolve_answer, handle_resolve,
}
use nex_talk_relay.Router.Ring.{replicas_for_era, replication_factor, era_counts_descending}
use nex_talk_relay.Router.Ring.Eras.{is_falling, is_number, era_counts_descending_lem}

-- The shards of an era: the ring of the first `n` shards at the key, with as many replicas as configured.
abbrev pub ring_of : Platform → RouterEnv → List Text → Text → ℕ → List (Option Text)
ring_of p env urls pubkey n =
    replicas_for_era p pubkey n urls (factor_turns (replication_factor env.replication_factor n))

module _ (p : Platform) (env : RouterEnv) (urls : List Text) (pubkey id : Text) where
  -- The answer of the primary of an era to the `k`-th request of the network.
  abbrev pub asked : ℕ → ℕ → Fetched
  asked k n =
      p.fetch k
        (url_text (first_url (ring_of p env urls pubkey n)) ++ (codes "/exists?mailbox_id=" ++ id))
        undefined

  -- The state behind that request.
  abbrev after : ℕ → World p → World p
  after n w =
      (fetch p
        (url_text (first_url (ring_of p env urls pubkey n)) ++ (codes "/exists?mailbox_id=" ++ id))
        undefined w).1

  -- The first era of the list whose primary says that it has the mailbox, where the primaries are
  -- asked in turn from the `k`-th request on, or `none` where no primary does.
  pub data FirstYes : ℕ → List ℕ → Option ℕ → Type 0 where
    nobody : (k : ℕ) → FirstYes k [] none
    here : (k n : ℕ) (ns : List ℕ) → says_yes (asked k n) ≡ true → FirstYes k (n ∷ ns) (some n)
    later :
        (k n : ℕ) (ns : List ℕ) (era : Option ℕ)
        → says_yes (asked k n) ≡ false
        → FirstYes (k + 1) ns era
        → FirstYes k (n ∷ ns) era

  find_era-FirstYes :
      (ns : List ℕ) (w : World p)
      → (era : Option ℕ) × (v : World p) × (find_era p env urls pubkey id ns w ≡ (value era, v))
        × FirstYes w.calls ns era
        × (v.kv ≡ w.kv)
        × (v.time ≡ w.time)
  unfolding find_era probe fetch era_replicas
  find_era-FirstYes [] w = (none, w, refl, nobody w.calls, refl, refl)
  find_era-FirstYes (n ∷ ns) w = elim (Bool-cases (says_yes (asked w.calls n))) [
    | inl found ↦ (some n, after n w, rw found refl, here w.calls n ns found, refl, refl)
    | inr absent ↦
        (let (era, v, run, first, kv, time) = find_era-FirstYes ns (after n w) in
          (era, v, rw (absent, run) refl, later w.calls n ns era absent first, kv, time))
  ]

-- The era that an answer names: the confirmed one, or else the current one.
abbrev pub named_era : List Text → Option ℕ → ℕ
named_era urls none = length urls
named_era urls (some n) = n

-- The note of an answer, which only an unconfirmed one has.
abbrev pub note_of : Option ℕ → Json
note_of none = str (codes "mailbox not confirmed to exist yet on any known era")
note_of (some n) = undefined

module _ (p : Platform) (env : RouterEnv) (urls : List Text) (pubkey id : Text) where
  -- What the answer for an era says: the mailbox, the era, its primary and its replicas.
  pub record IsResolution (version : ℕ) (era : Option ℕ) (body : Json) : Type 0 where
    pub mailbox : get (codes "mailbox_id") body ≡ str id
    pub named : get (codes "era") body ≡ num (named_era urls era)
    pub primary :
        get (codes "shard_url") body
        ≡ url_json (first_url (ring_of p env urls pubkey (named_era urls era)))
    pub replicas :
        get (codes "replica_shard_urls") body
        ≡ url_array (ring_of p env urls pubkey (named_era urls era))
    pub table : get (codes "table_version") body ≡ num version
    pub note : get (codes "note") body ≡ note_of era

  resolve_answer-IsResolution :
      (era : Option ℕ) (version : ℕ)
      → IsResolution version era (resolve_answer p env urls pubkey id era version)
  unfolding resolve_answer resolution era_replicas get codes
  resolve_answer-IsResolution none version = record {
    mailbox = refl;
    named = refl;
    primary = refl;
    replicas = refl;
    table = refl;
    note = refl;
  }
  resolve_answer-IsResolution (some n) version = record {
    mailbox = refl;
    named = refl;
    primary = refl;
    replicas = refl;
    table = refl;
    note = refl;
  }

-- The eras that are asked: each count of shards below the next, and a count is among them if and only
-- if it is positive, no larger than the number of shards, and that number or a prior count.
pub record AreEras (urls : List Text) (prior : List Json) (eras : List ℕ) : Type 0 where
  pub falling : is_falling eras ≡ true
  pub complete :
      (n : ℕ)
      → any (λ m. n == m) eras
        ≡ ((n == length urls || any (is_number n) prior) && (ltb 0 n && leb n (length urls)))

module _ (p : Platform) where
  -- Every request for a key of 64 hexadecimal digits is answered, whatever the shards do. The primaries
  -- of the eras are asked in turn, from the largest count of shards down, each era once and none left
  -- out. The answer names the first era whose primary says that it has the mailbox, with the primary and
  -- the replicas of that era and without a note, or, where no primary does, the current era, with its
  -- primary and replicas and the note. Nothing is written.
  pub handle_resolve-answers :
      (request : Request) (env : RouterEnv) (urls : List Text) (pubkey : Text) (w : World p)
      → search_param (codes "pubkey") request ≡ some pubkey
      → is_hex 64 64 pubkey ≡ true
      → (eras : List ℕ) × (era : Option ℕ) × (body : Json) × (v : World p) × (handle_resolve p
            request env urls w
          ≡ (value (json_ok body []), v))
        × AreEras urls
            (prior_counts_of p env.topology (p.read w.kv w.time (codes "prior_shard_counts")))
            eras
        × FirstYes p env urls pubkey
            (hmac_hex p (to_lower pubkey) env.server_secret)
            w.calls
            eras
            era
        × IsResolution p env urls pubkey
            (hmac_hex p (to_lower pubkey) env.server_secret)
            (current_version env.cfg.routing_table_version
              (p.read w.kv w.time routing_table_version_key))
            era
            body
        × (v.kv ≡ w.kv)
  unfolding handle_resolve get_prior_shard_counts get_routing_table_version kv_get pubkey_param
  handle_resolve-answers request env urls pubkey w param form =
      let id = hmac_hex p (to_lower pubkey) env.server_secret in
      let prior =
        prior_counts_of p env.topology (p.read w.kv w.time (codes "prior_shard_counts")) in
      let eras = era_counts_descending urls prior in
      let (era, v, run, first, kv, time) = find_era-FirstYes p env urls pubkey id eras w in
      (
        eras,
        era,
        _,
        v,
        rw (param, form, run, kv, time) refl,
        record {
          falling = (era_counts_descending_lem urls prior 0).0;
          complete = λ n. (era_counts_descending_lem urls prior n).1;
        },
        first,
        resolve_answer-IsResolution p env urls pubkey id era _,
        kv,
      )
