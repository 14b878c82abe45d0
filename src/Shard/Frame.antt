-- ===== src/Shard/Frame.antt =====
-- What the mailboxes of a shard look like from outside, and which steps leave them alone.
use nex_talk_relay.Base.{
  Text, codes, ℕ, ◌≡◌, ◌≢◌, refl, ap, ◌∙◌, Bool, true, false, Option, none, some,
  append_cancel_left, ne_of_first, arith, if◌then◌else◌,
}
use nex_talk_relay.Platform.{Platform, Stored, Mailbox, as_mailbox, as_identity}
use nex_talk_relay.Platform.Exec.{
  Outcome, value, reply, throw, continue, pure, lift, stop_if, ◌>>=◌,
}
use nex_talk_relay.Platform.Http.{Request, Response}
use nex_talk_relay.Shard.{Cfg}
use nex_talk_relay.Js.{Json}
use nex_talk_relay.Encoding.{utf8}
use nex_talk_relay.Platform.Laws.{KvLaws}
use nex_talk_relay.Platform.World.{World, Run, now, kv_get, kv_put, generate_key}
use nex_talk_relay.Shard.Limits.{bucket_key, rate_limit}
use nex_talk_relay.Shard.Crypto.{replay_key, check_sender, verify_sender_auth}
use nex_talk_relay.Shard.Keys.{
  shard_identity_kv_key, ensure_shard_identity, sign_with_shard_key, build_shard_signed_response,
}
use nex_talk_relay.Shard.Create.{mailbox_key}
use nex_talk_relay.Shard.Send.{SendRequest, envelope_error, admit_send, respond}

-- The key of a mailbox is the key of no counter, of no used request and of no key pair, and of no
-- other mailbox.
pub mailbox_key-ne-bucket_key :
    (id bucket : Text) (w t : ℕ) → bucket_key bucket w t ≢ mailbox_key id
unfolding mailbox_key bucket_key codes
mailbox_key-ne-bucket_key id bucket w t = ne_of_first _ _ (omega arith)

pub mailbox_key-ne-replay_key :
    (p : Platform) (id k t s : Text) → replay_key p k t s ≢ mailbox_key id
unfolding mailbox_key replay_key codes
mailbox_key-ne-replay_key p id k t s = ne_of_first _ _ (omega arith)

pub mailbox_key-ne-identity : (id : Text) → shard_identity_kv_key ≢ mailbox_key id
unfolding mailbox_key shard_identity_kv_key codes
mailbox_key-ne-identity id = ne_of_first _ _ (omega arith)

pub mailbox_key_injective : (a b : Text) → mailbox_key a ≡ mailbox_key b → a ≡ b
unfolding mailbox_key
mailbox_key_injective a b h = append_cancel_left (codes "mailbox:") a b h

module _ (p : Platform) where
  abbrev pub parsed : Option Stored → Option Mailbox
  parsed none = none
  parsed (some s) = as_mailbox s

  -- The mailbox under an id at the time of the world; `none` where it is missing or unreadable.
  unfoldable pub view : World p → Text → Option Mailbox
  view w id = parsed (p.read w.kv w.time (mailbox_key id))

  -- No mailbox differs, now or later.
  pub record SameMailboxes (w w' : World p) : Type 0 where
    pub same_time : w'.time ≡ w.time
    pub reads :
        (u : ℕ) (id : Text) → p.read w'.kv u (mailbox_key id) ≡ p.read w.kv u (mailbox_key id)

  pub view-SameMailboxes :
      (w w' : World p) (id : Text) → SameMailboxes w w' → view w' id ≡ view w id
  unfolding view
  view-SameMailboxes w w' id h = ap parsed (rw h.same_time (h.reads w.time id))

  pub SameMailboxes-refl : (w : World p) → SameMailboxes w w
  SameMailboxes-refl w = record { same_time = refl; reads = λ u id. refl }

  pub SameMailboxes-trans :
      (w v u : World p) → SameMailboxes w v → SameMailboxes v u → SameMailboxes w u
  SameMailboxes-trans w v u h k = record {
    same_time = k.same_time ∙ h.same_time;
    reads = λ t id. k.reads t id ∙ h.reads t id;
  }

  -- A step that leaves every mailbox alone, however it ends.
  pub record Frames {A : Type 0} (m : Run p A) : Type 0 where
    pub at : (w : World p) → SameMailboxes w (m w).1

module _ (p : Platform) (A : Type 0) where
  pub Frames-pure : (a : A) → Frames p (pure a)
  Frames-pure a = record { at = SameMailboxes-refl p }

  pub Frames-lift : (r : Outcome A) → Frames p (lift r)
  Frames-lift r = record { at = SameMailboxes-refl p }

  pub Frames-if :
      (b : Bool) (m n : Run p A) → Frames p m → Frames p n → Frames p (if b then m else n)
  Frames-if true m n hm hn = hm
  Frames-if false m n hm hn = hn

module _ (p : Platform) (A B : Type 0) where
  pub Frames-bind :
      (m : Run p A) (f : A → Run p B) → Frames p m → ((a : A) → Frames p (f a)) → Frames p (m >>= f)
  Frames-bind m f hm hf = record { at = λ w. after w (m w).0 (m w).1 (hm.at w) }
    where
      after :
          (w : World p) (r : Outcome A) (w' : World p)
          → SameMailboxes p w w'
          → SameMailboxes p w (continue r f w').1
      after w (value a) w' h = SameMailboxes-trans p w w' _ h ((hf a).at w')
      after w (reply e) w' h = h
      after w (throw e) w' h = h

  pub Frames-option :
      (o : Option A) (m : Run p B) (f : A → Run p B)
      → Frames p m
      → ((a : A) → Frames p (f a))
      → Frames p (elim o [ none ↦ m | some a ↦ f a ])
  Frames-option none m f hm hf = hm
  Frames-option (some a) m f hm hf = hf a

module _ (p : Platform) where
  pub Frames-now : Frames p (now p)
  unfolding now
  Frames-now = record { at = SameMailboxes-refl p }

  pub Frames-stop_if : (b : Bool) (r : Response) → Frames p (stop_if b r)
  Frames-stop_if true r = record { at = SameMailboxes-refl p }
  Frames-stop_if false r = record { at = SameMailboxes-refl p }

  pub Frames-kv_get : (k : Text) → Frames p (kv_get p k)
  unfolding kv_get
  Frames-kv_get k = record { at = SameMailboxes-refl p }

  pub Frames-generate_key : Frames p (generate_key p)
  unfolding generate_key
  Frames-generate_key = record { at = λ w. record { same_time = refl; reads = λ u id. refl } }

  pub Frames-kv_put :
      (laws : KvLaws p) (k : Text) (v : Stored) (ttl : Option ℕ)
      → ((id : Text) → k ≢ mailbox_key id)
      → Frames p (kv_put p k v ttl)
  unfolding kv_put
  Frames-kv_put laws k v ttl away = record {
    at = λ w. record {
      same_time = refl;
      reads = λ u id. laws.read-write_ne w.kv w.time k v ttl u (mailbox_key id) (away id);
    };
  }

module _ (p : Platform) (laws : KvLaws p) where
  pub Frames-rate_limit :
      (bucket : Text) (limit window : ℕ) → Frames p (rate_limit p bucket limit window)
  unfolding rate_limit
  Frames-rate_limit bucket limit window = Frames-bind p _ _ _ _ (Frames-now p) λ t.
      Frames-bind p _ _ _ _ (Frames-kv_get p _) λ raw. Frames-if p _ _ _ _ (Frames-pure p _ false) (
        Frames-bind p _ _ _ _
          (Frames-kv_put p laws _ _ _ λ id. mailbox_key-ne-bucket_key id bucket window t)
          λ _. Frames-pure p _ true)

  pub Frames-ensure_shard_identity : Frames p (ensure_shard_identity p)
  unfolding ensure_shard_identity
  Frames-ensure_shard_identity = Frames-bind p _ _ _ _ (Frames-kv_get p _) λ raw.
      Frames-option p _ _ raw _ _
        (Frames-bind p _ _ _ _ (Frames-generate_key p) λ key.
          Frames-bind p _ _ _ _ (Frames-kv_put p laws _ _ _ mailbox_key-ne-identity)
            λ _. Frames-pure p _ _)
        (λ s. Frames-option p _ _ (as_identity s) _ _ (Frames-lift p _ _) (λ i. Frames-pure p _ i))

  pub Frames-sign_with_shard_key :
      (key message : Text) → Frames p (sign_with_shard_key p key message)
  unfolding sign_with_shard_key
  Frames-sign_with_shard_key key message =
      Frames-option p _ _ (p.sign key (utf8 message)) _ _ (Frames-lift p _ _)
        (λ sig. Frames-pure p _ _)

  pub Frames-build_shard_signed_response :
      (id : Text) (status : ℕ) (body : Json)
      → Frames p (build_shard_signed_response p id status body)
  unfolding build_shard_signed_response
  Frames-build_shard_signed_response id status body =
      Frames-bind p _ _ _ _ Frames-ensure_shard_identity λ own.
        Frames-bind p _ _ _ _ (Frames-now p)
          λ t. Frames-bind p _ _ _ _ (Frames-sign_with_shard_key _ _) λ sig. Frames-pure p _ _

  pub Frames-respond :
      (signed : Bool) (id : Text) (result : Json) → Frames p (respond p signed id result)
  unfolding respond
  Frames-respond signed id result =
      Frames-if p _ signed _ _
        (Frames-bind p _ _ _ _ (Frames-build_shard_signed_response _ _ _) λ v. Frames-pure p _ _)
        (Frames-pure p _ _)

  pub Frames-check_sender :
      (pubkey timestamp signature : Text) (skew : ℕ) (message : Text)
      → Frames p (check_sender p pubkey timestamp signature skew message)
  unfolding check_sender
  Frames-check_sender pubkey timestamp signature skew message =
      Frames-bind p _ _ _ _ (Frames-now p) λ t. Frames-if p _ _ _ _ (Frames-pure p _ _) (
        Frames-bind p _ _ _ _ (Frames-kv_get p _) λ seen.
          Frames-option p _ _ seen _ _
            (Frames-if p _ _ _ _ (Frames-pure p _ _) (
              Frames-bind p _ _ _ _
                (Frames-kv_put p laws _ _ _
                  λ id. mailbox_key-ne-replay_key p id pubkey timestamp signature)
                λ _. Frames-pure p _ _))
            (λ s. Frames-pure p _ _))

  pub Frames-verify_sender_auth :
      (auth : Json) (skew : ℕ) (message : Text) → Frames p (verify_sender_auth p auth skew message)
  unfolding verify_sender_auth
  Frames-verify_sender_auth auth skew message = search (Frames-if, Frames-pure, Frames-check_sender)

  pub Frames-admit_send :
      (request : Request) (cfg : Cfg) (r : SendRequest) → Frames p (admit_send p request cfg r)
  unfolding admit_send
  Frames-admit_send request cfg r = Frames-bind p _ _ _ _ (Frames-verify_sender_auth _ _ _) λ e.
      Frames-bind p _ _ _ _ (Frames-option p _ _ e _ _ (Frames-pure p _ _) (λ s. Frames-lift p _ _))
        λ _. Frames-bind p _ _ _ _ (Frames-rate_limit _ _ _) λ a.
          Frames-bind p _ _ _ _ (Frames-stop_if p _ _) λ _.
            Frames-bind p _ _ _ _ (Frames-rate_limit _ _ _) λ b.
              Frames-bind p _ _ _ _ (Frames-stop_if p _ _) λ _.
                Frames-bind p _ _ _ _ (Frames-rate_limit _ _ _) λ c.
                  Frames-bind p _ _ _ _ (Frames-stop_if p _ _) λ _.
                    Frames-option p _ _ (envelope_error (p.parse r.message)) _ _ (Frames-pure p _ _)
                      (λ s. Frames-lift p _ _)
