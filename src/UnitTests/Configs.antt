-- ===== src/UnitTests/Configs.antt =====
-- server.rs and client.rs: the tests of the builders. The strings lie at fixed places, and the
-- allocator gives 900 each time, which is free then.
use rustls_ffi.Prelude.{ℕ, true, false, ◌≡◌, refl, none, some, List, [], ◌∷◌, not}
use rustls_ffi.Panic.{Cmd, ◌>>=◌, ◌>>◌, ignoring, unit_null, ffi_panic_boundary}
use rustls_ffi.Memory.{null, copy, from_raw_parts}
use rustls_ffi.Error.Display.{codes}
use rustls_ffi.Slice.{Slice, RustlsSliceBytes, slice_bytes}
use rustls_ffi.World.{World}
use rustls_ffi.Ownership.Arcs.{drop_all, drop_owner}
use rustls_ffi.Ownership.{
  deref, drop_arc, try_ref_from_ptr, to_mut_ptr, to_const_ptr, try_mut_from_ptr, try_box_from_ptr,
}
use rustls_ffi.Config.{protocols_from}
use rustls_ffi.Server.Config.Setters.{
  rustls_server_config_builder_new, rustls_server_config_builder_set_alpn_protocols,
}
use rustls_ffi.Server.Config.Build.{rustls_server_config_builder_build, rustls_server_config_free}
use rustls_ffi.Client.Config.Setters.{
  rustls_client_config_builder_new, rustls_client_config_builder_set_alpn_protocols,
  rustls_client_config_builder_set_enable_sni,
}
use rustls_ffi.Client.Config.Build.{rustls_client_config_builder_build, rustls_client_config_free}
use rustls_ffi.Examples.{zeros, idle_thread}
use rustls_ffi.Examples.Configs.{
  Thing, Server, Client, server_builder_thing, server_config_thing, client_builder_thing,
  client_config_thing, at_900,
}
use rustls_ffi.UnitTests.{assert, assert_eq, same_all, passes}

abbrev h1 : Slice
unfolding codes
h1 = record { ptr = 100; elems = codes "http/1.1" }

abbrev h2 : Slice
unfolding codes
h2 = record { ptr = 200; elems = codes "h2" }

abbrev alpn : List RustlsSliceBytes
unfolding slice_bytes
alpn = slice_bytes h1 ∷ slice_bytes h2 ∷ []

-- The strings in memory, and no Rust object.
abbrev start : World Thing
start = record {
  mem = copy h1.elems h1.ptr (copy h2.elems h2.ptr zeros);
  heap = λ q. none;
  local = idle_thread;
}

-- The test of client.rs.
unfoldable client_test_config_builder : Cmd (World Thing) (Unit {0})
client_test_config_builder = do
  builder ← rustls_client_config_builder_new {Base = ℕ} ℕ ℕ at_900 0
  ignoring (rustls_client_config_builder_set_alpn_protocols ℕ ℕ ℕ builder (some alpn))
  rustls_client_config_builder_set_enable_sni ℕ ℕ ℕ builder false
  config ← rustls_client_config_builder_build ℕ ℕ ℕ at_900 builder
  try_ref_from_ptr {T = Client} config λ config2. do
    assert (not config2.enable_sni)
    assert (same_all config2.alpn_protocols (h1.elems ∷ h2.elems ∷ []))
    rustls_client_config_free ℕ ℕ ℕ config

-- The test of server.rs. `compare` is its assertion on the configuration.
unfoldable server_test_config_builder :
    (compare : Server → Cmd (World Thing) (Unit {0})) → Cmd (World Thing) (Unit {0})
server_test_config_builder compare = do
  builder ← rustls_server_config_builder_new {Base = ℕ} ℕ ℕ ℕ at_900 0
  ignoring (rustls_server_config_builder_set_alpn_protocols ℕ ℕ ℕ ℕ builder (some alpn))
  config ← rustls_server_config_builder_build ℕ ℕ ℕ ℕ at_900 builder
  try_ref_from_ptr {T = Server} config
      λ config2. compare config2 >> rustls_server_config_free ℕ ℕ ℕ ℕ config

unfoldable test_server_config_builder_new_empty : Cmd (World Thing) (Unit {0})
test_server_config_builder_new_empty = do
  builder ← rustls_server_config_builder_new {Base = ℕ} ℕ ℕ ℕ at_900 0
  config ← rustls_server_config_builder_build ℕ ℕ ℕ ℕ at_900 builder
  assert_eq config null

passes-client_test_config_builder : passes client_test_config_builder start ≡ true
unfolding client_test_config_builder rustls_client_config_builder_new ffi_panic_boundary to_mut_ptr
    rustls_client_config_builder_set_alpn_protocols try_mut_from_ptr protocols_from alpn h1 h2
    rustls_client_config_builder_set_enable_sni rustls_client_config_builder_build try_box_from_ptr
    to_const_ptr try_ref_from_ptr from_raw_parts copy rustls_client_config_free drop_owner drop_all
    deref drop_arc
passes-client_test_config_builder = refl

-- The assertion of the test is never run: without a key the configuration is NULL, and the macro
-- `try_ref_from_ptr!` leaves the test, which passes with any other assertion too.
passes-server_test_config_builder :
    (compare : Server → Cmd (World Thing) (Unit {0}))
    → passes (server_test_config_builder compare) start ≡ true
unfolding server_test_config_builder rustls_server_config_builder_new ffi_panic_boundary to_mut_ptr
    rustls_server_config_builder_set_alpn_protocols try_mut_from_ptr protocols_from alpn h1
    rustls_server_config_builder_build try_box_from_ptr drop_all try_ref_from_ptr
passes-server_test_config_builder compare = refl

passes-test_server_config_builder_new_empty :
    passes test_server_config_builder_new_empty start ≡ true
unfolding test_server_config_builder_new_empty rustls_server_config_builder_new ffi_panic_boundary
    to_mut_ptr rustls_server_config_builder_build try_box_from_ptr drop_all
passes-test_server_config_builder_new_empty = refl
