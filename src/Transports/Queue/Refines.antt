-- ===== src/Transports/Queue/Refines.antt =====
-- The queue module (transports/tools/wasmasm.mjs) under a host (transports/tools/verify-wasm.mjs): it
-- implements a bounded queue of frames.
use nex_talk_relay.Base.{
  ℕ, ◌+◌, ◌*◌, ◌≤◌, ◌<◌, ◌≡◌, refl, Bool-cases, inl, inr, Option, none, some, List, [], ◌∷◌, ◌++◌,
  length, length-append, ltb, if◌then◌else◌, arith,
}
use nex_talk_relay.Encoding.{Bytes}
use nex_talk_relay.Transports.Assembler.{start_code}
use nex_talk_relay.Transports.Machine.{Memory, Instance, call}
use nex_talk_relay.Transports.Host.{Frames, send_frame, poll_frames}
use nex_talk_relay.Transports.Queue.{layout, Contains, AllFilled}
use nex_talk_relay.Transports.Queue.Calls.{inst_of}
use nex_talk_relay.Transports.Queue.Sent.{put_both, send_frame-full, send_frame-fits}
use nex_talk_relay.Transports.Queue.Polled.{poll_frames_lem}

-- What a host asks of the module, with the bytes that it puts into the memory for it.
pub data Ask : Type 0 where
  send : Bytes → Bytes → Ask
  poll : Bytes → Ask

pub data Answer : Type 0 where
  code : ℕ → Answer
  found : Frames → Answer

pub serve : Ask → Instance → Option (Answer × Instance)
serve (send f recipient) inst = elim (send_frame f recipient inst) [
  | none ↦ none
  | some (c, inst') ↦ some (code c, inst')
]
serve (poll mailbox) inst = elim (poll_frames mailbox inst) [
  | none ↦ none
  | some (fs, inst') ↦ some (found fs, inst')
]

pub serve_all : List Ask → Instance → Option (List Answer)
serve_all [] inst = some []
serve_all (a ∷ asks) inst = elim (serve a inst) [
  | none ↦ none
  | some (r, inst') ↦ elim (serve_all asks inst') [ none ↦ none | some rs ↦ some (r ∷ rs) ]
]

-- A module as it is instantiated, with any memory, that is started and asked; `none` is a trap.
unfoldable pub session : Memory → List Ask → Option (List Answer)
unfolding serve_all serve
session m asks = elim (call 0 start_code [] (inst_of 0 0 0x1000 m)) [
  | none ↦ none
  | some (r, inst) ↦ serve_all asks inst
]

-- The queue that is promised: frames of 16384 bytes in all, each counted with four bytes more.
abbrev pub size : List Bytes → ℕ
size [] = 0
size (f ∷ q) = length f + 4 + size q

abbrev pub queue_answers : List Ask → List Bytes → List Answer
queue_answers [] q = []
queue_answers (send f recipient ∷ asks) q =
    let refused = code 3 ∷ queue_answers asks q in
    let taken = code 0 ∷ queue_answers asks (q ++ f ∷ []) in
    if ltb 16384 (size q + length f + 4) then refused else taken
queue_answers (poll mailbox ∷ asks) q = found (q, []) ∷ queue_answers asks []

-- The arguments fit the heap of the module, and no frame is empty.
abbrev pub Fits : Ask → Type 0
Fits (send f recipient) = (0 < length f) × (length f + 7 + 2 * length recipient ≤ 12032)
Fits (poll mailbox) = length mailbox ≤ 12032

abbrev pub AllFit : List Ask → Type 0
AllFit [] = Unit
AllFit (a ∷ asks) = Fits a × AllFit asks

size-layout : (q : List Bytes) → size q ≡ length (layout q)
size-layout [] = refl
size-layout (f ∷ q) = omega (arith, size-layout q, length-append {0} f (layout q))

AllFilled-snoc : (q : List Bytes) (f : Bytes) → AllFilled q → 0 < length f → AllFilled (q ++ f ∷ [])
AllFilled-snoc [] f h k = (k, tt)
AllFilled-snoc (g ∷ q) f h k = (h.0, AllFilled-snoc q f h.1 k)

pub serve_all-nil : (inst : Instance) → serve_all [] inst ≡ some []
unfolding serve_all
serve_all-nil inst = refl

pub serve_all-cons :
    (a : Ask) (asks : List Ask) (inst inst' : Instance) (r : Answer) (rs : List Answer)
    → serve a inst ≡ some (r, inst')
    → serve_all asks inst' ≡ some rs
    → serve_all (a ∷ asks) inst ≡ some (r ∷ rs)
unfolding serve_all
serve_all-cons a asks inst inst' r rs h k = rw (h, k, serve_all) refl

pub serve-send :
    (f recipient : Bytes) (inst inst' : Instance) (c : ℕ)
    → send_frame f recipient inst ≡ some (c, inst')
    → serve (send f recipient) inst ≡ some (code c, inst')
unfolding serve
serve-send f recipient inst inst' c h = rw (h, serve) refl

pub serve-poll :
    (mailbox : Bytes) (inst inst' : Instance) (fs : Frames)
    → poll_frames mailbox inst ≡ some (fs, inst')
    → serve (poll mailbox) inst ≡ some (found fs, inst')
unfolding serve
serve-poll mailbox inst inst' fs h = rw (h, serve) refl

serve_all-refines :
    (asks : List Ask) (q : List Bytes) (qlen bump : ℕ) (m : Memory)
    → AllFit asks
    → AllFilled q
    → Contains q qlen bump m
    → serve_all asks (inst_of 1 qlen bump m) ≡ some (queue_answers asks q)
serve_all-refines [] q qlen bump m fit full c = unfold serve_all in refl
serve_all-refines (send f recipient ∷ asks) q qlen bump m fit full c =
    elim (Bool-cases (ltb 16384 (size q + length f + 4))) [
      | inl over ↦ rw over (
          serve_all-cons (send f recipient) asks _ _ (code 3) _
            (serve-send f recipient _ _ 3
              (send_frame-full f recipient fit.0.1 c (ground (arith, size-layout q))))
            (serve_all-refines asks q _ _ _ fit.1 full (put_both f recipient fit.0.1 c)))
      | inr room ↦
          (let (run, c') = send_frame-fits f recipient fit.0.1 c (ground (arith, size-layout q)) in
            rw room (
              serve_all-cons (send f recipient) asks _ _ (code 0) _
                (serve-send f recipient _ _ 0 run)
                (serve_all-refines asks (q ++ f ∷ []) _ _ _ fit.1 (AllFilled-snoc q f full fit.0.0)
                  c')))
    ]
serve_all-refines (poll mailbox ∷ asks) q qlen bump m fit full c =
    let (bump', m', run, c') = poll_frames_lem mailbox q 1 qlen bump m fit.0 c full in
    serve_all-cons (poll mailbox) asks _ (inst_of 1 0 bump' m') (found (q, [])) _
      (serve-poll mailbox _ _ _ run) (serve_all-refines asks [] 0 bump' m' fit.1 tt c')

-- A host that starts the module and then sends and polls in any order gets the answers of a bounded
-- queue: a frame is taken and goes to the end while 16384 bytes are not exceeded, and is refused
-- otherwise; a poll returns all frames in their order, and nothing is lost, doubled or mixed up. The
-- arguments of each call fit the module's heap of 12032 bytes: a frame, seven bytes and twice the
-- recipient; and no frame is empty.
pub session-refines :
    (asks : List Ask) (m : Memory) → AllFit asks → session m asks ≡ some (queue_answers asks [])
unfolding session call
session-refines asks m fit = serve_all-refines asks [] 0 0x1000 m fit tt (record {
  size = refl;
  room = omega arith;
  bottom = omega arith;
  top = omega arith;
  held = λ i h. absurd (omega arith);
})
