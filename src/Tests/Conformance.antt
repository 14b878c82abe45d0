-- ===== src/Tests/Conformance.antt =====
-- The conformance check of the queue module, run on the model of WebAssembly.
use nex_talk_relay.Base.{
  Text, codes, same, ℕ, ◌≡◌, refl, true, Option, none, some, List, [], ◌∷◌, map, length, find,
}
use nex_talk_relay.Encoding.{Bytes, utf8}
use nex_talk_relay.Transports.Assembler.{Fn, fns}
use nex_talk_relay.Transports.Machine.{Instance, memory_size, call}
use nex_talk_relay.Transports.Host.{write, frames}
use nex_talk_relay.Transports.Queue.Calls.{inst_of}
use nex_talk_relay.Transports.Ntx.Manifest.{known_capabilities}
use nex_talk_relay.Transports.Verify.{
  Engine, verify_wasm, check_instance, check_ready, check_claims, check_listed, check_caps,
  check_claim, check_idle, check_start, check_traffic, check_stop, check_loopback, send_test,
  poll_test, verify_put, verify_blob, verify_frames, put_alloc, listed, test_frame,
  required_exports, static_fails,
}
use nex_talk_relay.Transports.Verify.Sandbox.{IsConformant, verify_wasm-IsConformant}

abbrev pub caps : Text
caps = codes "message"

abbrev run_export : Option Fn → List ℕ → Instance → Option (ℕ × Instance)
run_export none args inst = none
run_export (some f) args inst = call f.nlocals f.code args inst

-- A host that has this one module.
abbrev pub queue_engine : Engine
queue_engine = record {
  Inst = Instance;
  validate = λ bytes. true;
  imports = λ bytes. [];
  exports = λ bytes. codes "memory" ∷ map (λ f. f.name) (fns (length caps));
  instantiate = λ bytes. inst_of 0 0 0x1000 (write (λ a. 0) 0x100 caps);
  invoke =
      λ name args inst. run_export (find (λ f. same f.name name) (fns (length caps))) args inst;
  size = λ inst. memory_size;
  load = λ inst. inst.memory;
  save = λ at d inst. record inst { memory = write inst.memory at d };
  grow = λ n inst. inst;
  decode = λ bytes. bytes;
}

pub queue_passes :
    (bytes : Bytes) → verify_wasm queue_engine bytes (some (caps ∷ [])) true ≡ some []
unfolding verify_wasm check_instance check_ready check_claims check_listed check_caps check_claim
    check_idle check_start check_traffic check_stop check_loopback send_test poll_test verify_put
    verify_blob verify_frames put_alloc listed test_frame required_exports static_fails call frames
    fns codes utf8 known_capabilities
queue_passes bytes = refl

verify_wasm-IsConformant_example : IsConformant queue_engine [] (some (caps ∷ []))
verify_wasm-IsConformant_example =
    verify_wasm-IsConformant queue_engine [] (some (caps ∷ [])) true (queue_passes [])
