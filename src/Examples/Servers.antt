-- ===== src/Examples/Servers.antt =====
-- Configurations of servers on concrete inputs.
use rustls_ffi.Prelude.{
  ℕ, ◌≡◌, refl, ◌⊎◌, Option, none, some, List, [], ◌∷◌, map, length, Result, ok, err, arith, ◌==◌,
  if◌then◌else◌,
}
use rustls_ffi.Panic.{Cmd, done}
use rustls_ffi.Memory.{null, from_raw_parts}
use rustls_ffi.Error.Codes.{RustlsResult}
use rustls_ffi.Error.Mapping.{RustlsError, map_error}
use rustls_ffi.World.{boxed, counted, World, put, set_heap}
use rustls_ffi.Ownership.{Arc}
use rustls_ffi.Ownership.Arcs.{addresses, drop_owner}
use rustls_ffi.Ownership.Counts.{plus_all, minus_all, Covered}
use rustls_ffi.Ownership.Taking.{Arcs}
use rustls_ffi.Server.Config.{from_choices, builder_on, set_resolver_arcs, config_arcs}
use rustls_ffi.Server.Config.Setters.{
  rustls_server_config_builder_set_certified_keys, rustls_server_config_builder_new_custom,
}
use rustls_ffi.Server.Config.Build.{config_of, rustls_server_connection_new}
use rustls_ffi.Server.Config.Keys.{with_keys, set_certified_keys_lem, set_certified_keys_null}
use rustls_ffi.Server.Config.Connecting.{server_connection_new_lem}
use rustls_ffi.Server.Config.Custom.{new_custom_lem}
use rustls_ffi.Ownership.Handles.{with_references, with_handle}
use rustls_ffi.Connection.State.{RustlsConnection, from_server}
use rustls_ffi.Versions.{SupportedVersion}
use rustls_ffi.Config.{find}
use rustls_ffi.Config.Lists.{Suites, known, number_of}
use rustls_ffi.Examples.{idle_thread}
use rustls_ffi.Examples.Configs.{
  ServerBuilder, Server, Thing, a_suite, a_server_builder, a_server_config, suite_thing,
  connection_thing, key_thing, server_builder_thing, server_config_thing, seven_twice, a_seven,
  with_key, and_at_700, at_900,
}

seven_twice-Arcs : Arcs seven_twice with_key.heap
seven_twice-Arcs = ((omega arith, omega arith, refl), ((omega arith, omega arith, refl), tt))

read_keys : from_raw_parts 300 2 with_key.mem ≡ addresses seven_twice
unfolding from_raw_parts
read_keys = refl

-- A builder that holds the key at 500.
abbrev keyed_builder : ServerBuilder
keyed_builder = with_keys (builder_on 9) (record { at = 500; value = a_seven } ∷ [])

abbrev rekeyed : World Thing
rekeyed = and_at_700 (boxed (a_server_builder keyed_builder))

old_key-Covered : Covered (set_resolver_arcs keyed_builder.cert_resolver) rekeyed.heap
old_key-Covered q = ground arith

rekeyed-Arcs : Arcs seven_twice rekeyed.heap
rekeyed-Arcs = ((omega arith, omega arith, refl), ((omega arith, omega arith, refl), tt))

set_certified_keys_example :
    rustls_server_config_builder_set_certified_keys ℕ ℕ ℕ ℕ 700 300 2 rekeyed
    ≡ done RustlsResult.ok (
        set_heap rekeyed (
          put 700
            (some (boxed (a_server_builder (with_keys keyed_builder seven_twice))))
            (minus_all (500 ∷ []) (plus_all (500 ∷ 500 ∷ []) rekeyed.heap))))
set_certified_keys_example =
    set_certified_keys_lem 700 300 2 keyed_builder seven_twice rekeyed (omega arith) (omega arith)
      refl read_keys rekeyed-Arcs old_key-Covered

read_null : from_raw_parts 300 4 with_key.mem ≡ 500 ∷ 500 ∷ null ∷ null ∷ []
unfolding from_raw_parts
read_null = refl

set_certified_keys_null_example :
    rustls_server_config_builder_set_certified_keys ℕ ℕ ℕ ℕ 700 300 4 rekeyed
    ≡ done RustlsResult.null_parameter rekeyed
set_certified_keys_null_example =
    set_certified_keys_null 700 300 4 keyed_builder seven_twice (null ∷ []) rekeyed (omega arith)
      (omega arith) refl read_null rekeyed-Arcs

-- A configuration at 700 that holds the key at 500, and that C has the only reference to.
abbrev a_config : Server
a_config = config_of keyed_builder (from_choices (record { at = 500; value = a_seven } ∷ []))

abbrev configured : World Thing
configured = and_at_700 (counted 1 (a_server_config a_config))

abbrev makes_three : Arc Server → Result RustlsError ℕ
makes_three config = ok 3

server_connection_new_example :
    let run = rustls_server_connection_new ℕ ℕ ℕ ℕ ℕ at_900 makes_three 700 400 configured in
    ((e : RustlsError) × (makes_three (record { at = 700; value = a_config }) ≡ err e)
      × (run ≡ done (map_error e) configured))
    ⊎ ((sc : ℕ) × (makes_three (record { at = 700; value = a_config }) ≡ ok sc)
        × (run
            ≡ done RustlsResult.ok (
                with_handle at_900 400
                  (from_server {A = ℕ} sc)
                  (with_references 700 2 a_config configured))))
server_connection_new_example =
    server_connection_new_lem ℕ at_900 makes_three 700 400 0 a_config configured (omega arith)
      (omega arith) refl

-- The drop of a connection that holds an Arc of the configuration at 700.
abbrev drops_700 : RustlsConnection ℕ ℕ → Cmd (World Thing) (Unit {0})
drops_700 c = drop_owner {T = Server} config_arcs 700

-- Suites are numbers, rustls has the suites 1 and 2, and makes a base of any that it is given.
abbrev counts : List ℕ → List SupportedVersion → Option ℕ
counts ss vs = some (length ss)

abbrev suites_world : World Thing
suites_world = record {
  mem = λ q. if q == 300 then 500 else if q == 310 then 772 else 0;
  heap = put 500 (some (boxed (a_suite 2))) (λ q. none);
  local = idle_thread;
}

suite_two : Suites ◌==◌ (1 ∷ 2 ∷ []) (from_raw_parts 300 1 suites_world.mem) (2 ∷ []) suites_world
unfolding from_raw_parts find
suite_two = ((2, omega arith, refl, refl), tt)

new_custom_example :
    let run =
      rustls_server_config_builder_new_custom ℕ ℕ ℕ at_900 ◌==◌
        (1 ∷ 2 ∷ [])
        counts
        300
        1
        310
        2
        400
        suites_world in
    (vs : List SupportedVersion) × (map number_of vs
      ≡ known (from_raw_parts 310 2 suites_world.mem))
    × (((counts (2 ∷ []) vs ≡ none) × (run ≡ done RustlsResult.invalid_parameter suites_world))
        ⊎ ((base : ℕ) × (counts (2 ∷ []) vs ≡ some base)
            × (run
                ≡ done RustlsResult.ok
                    (with_handle {T = ServerBuilder} at_900 400 (builder_on base) suites_world))))
new_custom_example =
    new_custom_lem ℕ ℕ ℕ at_900 ◌==◌ (1 ∷ 2 ∷ []) counts 300 1 310 2 400 (2 ∷ []) suites_world
      (omega arith) (omega arith) (omega arith) suite_two
