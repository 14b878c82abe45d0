-- ===== src/Tests/Packages.antt =====
-- The theorems on the build tools at concrete modules, files and manifests.
use mathlib.Core.List.{Permᴰ}
use nex_talk_relay.Base.{
  ◌≢◌, Text, codes, to_lower, ℕ, ◌≡◌, refl, ne_of_same, true, Option, none, some, List, [], ◌∷◌,
  ◌++◌, map, length, arith,
}
use nex_talk_relay.Encoding.{Bytes, utf8}
use nex_talk_relay.Js.{Json, str, arr, nil, cons, object, get, to_text}
use nex_talk_relay.Tests.Host.{zeros, zeros-bytes}
use nex_talk_relay.Transports.Leb.{negsuc, sleb, uleb}
use nex_talk_relay.Transports.Assembler.{
  fns, code_section, build_queue_module, op, vec, sec, body, types, local_vec,
}
use nex_talk_relay.Transports.Assembler.Decode.{
  read_code_section, read_code_section-code_section, as_read,
}
use nex_talk_relay.Transports.Queue.Refines.{
  Ask, send, poll, code, found, session, queue_answers, session-refines,
}
use nex_talk_relay.Transports.Queue.Overlap.{overwritten, long_frame-overwritten}
use nex_talk_relay.Transports.Ntx.{crc32}
use nex_talk_relay.Transports.Ntx.Crc.{crc32_bits, crc32-bits}
use nex_talk_relay.Transports.Ntx.Zip.{File, zip, sort_files}
use nex_talk_relay.Transports.Ntx.Zip.Reading.{unzip}
use nex_talk_relay.Transports.Ntx.Zip.RoundTrip.{content_of, unzip-zip}
use nex_talk_relay.Transports.Ntx.Zip.Order.{zip-perm}
use nex_talk_relay.Transports.Ntx.Manifest.{
  validate_manifest, is_module, package_files, written, write_ntx, refuse_if, or_problem,
  permission_problem, wasm_problem, is_id, is_file_name, known_capabilities, known_permissions,
  ends_with,
}
use nex_talk_relay.Transports.Ntx.Manifest.Safe.{IsSafe}
use nex_talk_relay.Transports.Ntx.Manifest.Package.{
  Holds, manifest_view, entry_view, write_ntx-contents,
}

-- The encodings that the WebAssembly text gives as examples.
sleb_minus : sleb (negsuc 123455) ≡ 0xc0 ∷ 0xbb ∷ 0x78 ∷ []
unfolding sleb
sleb_minus = refl

uleb_large : uleb 624485 ≡ 0xe5 ∷ 0x8e ∷ 0x26 ∷ []
unfolding uleb
uleb_large = refl

-- The check value of CRC-32.
crc32_check : crc32 (utf8 (codes "123456789")) ≡ 0xcbf43926
unfolding crc32 utf8 codes
crc32_check = refl

read_code_section-code_section_example :
    read_code_section (code_section (fns 7) ++ 11 ∷ []) ≡ some (map as_read (fns 7), 11 ∷ [])
unfolding fns
read_code_section-code_section_example =
    read_code_section-code_section (fns 7) (11 ∷ []) (omega arith)

abbrev zero_memory : ℕ → ℕ
zero_memory a = 0

abbrev asks : List Ask
asks = send (3 ∷ 4 ∷ []) (7 ∷ 7 ∷ []) ∷ send (5 ∷ []) (7 ∷ []) ∷ poll (1 ∷ []) ∷ poll (1 ∷ []) ∷ []

session-refines_example : session zero_memory asks ≡ some (queue_answers asks [])
session-refines_example = session-refines asks zero_memory (omega arith)

queue_run :
    queue_answers asks []
    ≡ code 0 ∷ code 0 ∷ found ((3 ∷ 4 ∷ []) ∷ (5 ∷ []) ∷ [], []) ∷ found ([], []) ∷ []
queue_run = refl

crc32-bits_example : crc32 (0 ∷ 97 ∷ 255 ∷ []) ≡ crc32_bits (0 ∷ 97 ∷ 255 ∷ [])
crc32-bits_example = crc32-bits (0 ∷ 97 ∷ 255 ∷ []) (omega arith)

abbrev file_a : File
file_a = record { name = codes "a"; content = 1 ∷ 2 ∷ [] }

abbrev file_b : File
file_b = record { name = codes "b"; content = 3 ∷ [] }

-- A compression that never makes anything smaller.
abbrev pub keep_bytes : Bytes → Bytes
keep_bytes d = d

zip-perm_example : zip keep_bytes (file_b ∷ file_a ∷ []) ≡ zip keep_bytes (file_a ∷ file_b ∷ [])
unfolding codes
zip-perm_example =
    zip-perm keep_bytes (Permᴰ.swap refl refl)
      ((ne_of_same (codes "b") (codes "a") refl, tt), (tt, tt))

abbrev bytes_of : Option Bytes → Bytes
bytes_of none = []
bytes_of (some b) = b

abbrev archived : Bytes
archived = bytes_of (zip keep_bytes (file_b ∷ file_a ∷ []))

unzip-zip_example : unzip some archived ≡ some (map content_of (sort_files (file_b ∷ file_a ∷ [])))
unfolding zip crc32 utf8 codes
unzip-zip_example = unzip-zip some keep_bytes (file_b ∷ file_a ∷ []) archived (λ d. refl) refl

-- The manifest of the queue extension, but for its names.
abbrev pub manifest : Json
manifest = object (
    (codes "id", str (codes "queue-wasm"))
    ∷ (codes "name", str (codes "Queue"))
    ∷ (codes "version", str (codes "1.0.0"))
    ∷ (codes "api_version", str (codes "1"))
    ∷ (codes "entry", str (codes "queue.wasm"))
    ∷ (codes "capabilities", arr (cons (str (codes "message")) nil))
    ∷ (codes "permissions", arr nil)
    ∷ [])

abbrev pub module_bytes : Bytes
module_bytes = bytes_of (build_queue_module (codes "message"))

abbrev pub show_manifest : Json → Text
show_manifest m = codes "{}"

abbrev pub no_hash : Bytes → Text
no_hash b = codes "0"

abbrev pub pkg_bytes : Bytes
pkg_bytes = bytes_of (zip keep_bytes (package_files show_manifest manifest module_bytes))

pub package_written :
    write_ntx keep_bytes show_manifest no_hash manifest module_bytes true []
    ≡ written (codes "queue-wasm.ntx") pkg_bytes (codes "0")
unfolding write_ntx validate_manifest refuse_if or_problem permission_problem wasm_problem is_id
    is_file_name known_capabilities known_permissions ends_with to_lower get to_text
    build_queue_module utf8 codes zip crc32 package_files sec uleb vec op sleb code_section body
    local_vec nex_talk_relay.Transports.Assembler.str
package_written = refl

write_ntx-contents_example :
    IsSafe manifest
    × (is_module module_bytes ≡ true)
    × (codes "manifest.json" ≢ to_text (get (codes "entry") manifest))
    × Holds
        (unzip some pkg_bytes)
        (manifest_view show_manifest manifest)
        (entry_view manifest module_bytes)
    × (codes "0" ≡ no_hash pkg_bytes)
write_ntx-contents_example =
    write_ntx-contents some keep_bytes (λ d. refl) show_manifest no_hash manifest module_bytes
      pkg_bytes [] (codes "queue-wasm.ntx") (codes "0") package_written

-- A frame that the heap of the module holds, but not together with a recipient of 32 bytes.
unfoldable long_frame : Bytes
long_frame = zeros 12010

length-long_frame : length long_frame ≡ 12010
unfolding long_frame
length-long_frame = (zeros-bytes 12010).0

abbrev recipient : Bytes
recipient = zeros 32

long_frame-overwritten_example :
    session zero_memory (send long_frame recipient ∷ poll [] ∷ [])
    ≡ some (code 0 ∷ found (overwritten long_frame recipient ∷ [], []) ∷ [])
long_frame-overwritten_example =
    long_frame-overwritten long_frame recipient zero_memory (omega (arith, length-long_frame))
      (omega (arith, length-long_frame)) (omega (arith, length-long_frame)) [] (omega arith)
      (omega arith)
