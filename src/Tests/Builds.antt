-- ===== src/Tests/Builds.antt =====
-- The build of the queue extension, with the modelled module as its entry.
use mathlib.Core.List.{Memᴰ}
use nex_talk_relay.Base.{
  false, List, codes, to_lower, same, ◌≡◌, refl, true, Option, none, some, [], ◌∷◌, length, inr,
  if◌then◌else◌,
}
use nex_talk_relay.Encoding.{Bytes}
use nex_talk_relay.Js.{Json, bool, object, get, to_text}
use nex_talk_relay.Transports.Build.{
  Extension, Package, build_all, exit_code, build_extension, entry_file, loopback_option,
  raw_manifest, read_json, with_version, manifest_caps,
}
use nex_talk_relay.Transports.Build.Command.{
  Entry, begin, usage_error, begin_build, begin_found, version_refused, discover, is_source, named,
  is_version,
}
use nex_talk_relay.Transports.Build.Packaged.{
  IsPackaged, build_all_complete, build_extension-passes,
}
use nex_talk_relay.Transports.Ntx.Manifest.{
  validate_manifest, refuse_if, or_problem, permission_problem, wasm_problem, is_id, is_file_name,
  known_capabilities, known_permissions, ends_with,
}
use nex_talk_relay.Tests.Packages.{
  manifest, module_bytes, show_manifest, no_hash, keep_bytes, package_written, pkg_bytes,
}
use nex_talk_relay.Tests.Conformance.{queue_engine, queue_passes}

-- `manifest.json` is empty here, and `verify.json` is not.
abbrev parse_json : Bytes → Option Json
parse_json [] = some manifest
parse_json (b ∷ bs) = some (object ((codes "loopback", bool true) ∷ []))

abbrev queue_extension : Extension
queue_extension = record {
  files = λ name.
      if same name (codes "manifest.json")
      then some []
      else if same name (codes "verify.json")
      then some (0 ∷ [])
      else none;
  script = some (record { succeeded = true; output = λ name. some module_bytes });
}

abbrev queue_package : Package
queue_package = record { file = codes "queue-wasm.ntx"; content = pkg_bytes; hash = codes "0" }

queue_accepted : validate_manifest true manifest ≡ none
unfolding validate_manifest refuse_if or_problem permission_problem wasm_problem is_id is_file_name
    known_capabilities known_permissions ends_with to_lower get to_text codes
queue_accepted = refl

queue_built :
    build_extension queue_engine parse_json keep_bytes show_manifest no_hash none queue_extension
    ≡ inr queue_package
unfolding entry_file loopback_option raw_manifest read_json with_version manifest_caps get to_text
    codes
queue_built =
    build_extension-passes queue_engine parse_json some keep_bytes show_manifest no_hash (λ d. refl)
      none queue_extension manifest module_bytes true queue_package refl queue_accepted refl refl
      (queue_passes module_bytes) package_written

all_built :
    exit_code (
      build_all queue_engine parse_json keep_bytes show_manifest no_hash none
        (queue_extension ∷ []))
    ≡ 0
unfolding build_all
all_built = rw queue_built refl

build_all_complete_example :
    (length
        (build_all queue_engine parse_json keep_bytes show_manifest no_hash none
          (queue_extension ∷ [])).packages
      ≡ 1)
    × ((p : Package) × Memᴰ p
          (build_all queue_engine parse_json keep_bytes show_manifest no_hash none
            (queue_extension ∷ [])).packages
        × IsPackaged queue_engine parse_json some keep_bytes show_manifest no_hash
            (λ d. refl)
            none
            queue_extension
            p)
build_all_complete_example =
    build_all_complete queue_engine parse_json some keep_bytes show_manifest no_hash (λ d. refl)
      none (queue_extension ∷ []) queue_extension all_built (Memᴰ.head refl)

abbrev directories : List Entry
directories =
    record { name = codes "wide"; is_directory = true }
    ∷ record { name = codes "dist"; is_directory = true }
    ∷ record { name = codes "relay"; is_directory = true }
    ∷ record { name = codes "build.sh"; is_directory = false }
    ∷ []

-- A release of one extension, and one of all, in their order.
one_named :
    begin_build
      (λ n. true)
      (codes "--version" ∷ codes "1.4.0-rc.1" ∷ codes "relay" ∷ [])
      directories
    ≡ begin (some (codes "1.4.0-rc.1")) none (codes "relay" ∷ [])
unfolding begin_build begin_found version_refused discover is_source named is_version codes
one_named = refl

all_found :
    begin_build (λ n. true) (codes "--out" ∷ codes "x" ∷ []) directories
    ≡ begin none (some (codes "x")) (codes "relay" ∷ codes "wide" ∷ [])
unfolding begin_build begin_found version_refused discover is_source named codes
all_found = refl

short_version :
    begin_build (λ n. true) (codes "--version" ∷ codes "1.4" ∷ []) directories ≡ usage_error
unfolding begin_build begin_found version_refused is_version codes
short_version = refl
