-- ===== src/Examples/Programs.antt =====
-- C programs with builders and configurations, on concrete inputs.
use rustls_ffi.Prelude.{
  ℕ, false, true, ◌≡◌, refl, ◌≢◌, ◌⊎◌, Option, inl, inr, none, some, List, [], ◌∷◌, arith,
}
use rustls_ffi.Panic.{done}
use rustls_ffi.Memory.{Ptr, null, from_raw_parts}
use rustls_ffi.World.{Slot, boxed, Heap, World, put, set_heap}
use rustls_ffi.Ownership.Pointers.{Pointer}
use rustls_ffi.Ownership.Releasing.{Allocates}
use rustls_ffi.Error.Codes.{RustlsResult}
use rustls_ffi.Cipher.Keys.{Fails, Built}
use rustls_ffi.Cipher.Keys as CipherKeys
use rustls_ffi.Server.Config.Releasing.{use_key, use_key_releases}
use rustls_ffi.Cipher.{CertifiedKey, RootCertStore, PemHost}
use rustls_ffi.Client.Config.Setters.{RootFiles}
use rustls_ffi.Client.Config.Script as ClientScript
use rustls_ffi.Client.Config.Script.{
  ClientBuilderCall, set_certificate_verifier, use_roots, load_roots_from_file, set_enable_sni,
  use_client_config,
}
use rustls_ffi.Client.Config.Ending.{use_client_config_restores}
use rustls_ffi.Server.Config.Script as ServerScript
use rustls_ffi.Server.Config.Script.{
  BuilderCall, set_hello_callback, set_persistence, set_client_verifier, use_builder, use_config,
}
use rustls_ffi.Server.Config.Life.{use_builder_restores}
use rustls_ffi.Server.Config.Ending.{use_config_restores}
use rustls_ffi.Examples.Configs.{
  Thing, a_root_store, suite_thing, key_thing, server_builder_thing, server_config_thing,
  client_builder_thing, client_config_thing, root_store_thing, a_seven, with_key, at_900,
}

-- The keys at 300 are given twice, first with a NULL pointer after them, then replaced by a callback.
abbrev server_calls : List BuilderCall
server_calls =
    ServerScript.set_certified_keys 300 3
    ∷ ServerScript.set_certified_keys 300 2
    ∷ set_hello_callback (some 5)
    ∷ ServerScript.set_certified_keys 300 2
    ∷ set_client_verifier 0
    ∷ set_persistence (some 1) none
    ∷ []

key-Pointer : Pointer (CertifiedKey ℕ) 500 with_key.heap
key-Pointer =
    inr (record { at = 500; value = a_seven }, refl, ((omega arith, omega arith, refl), tt))

null-Pointer : Pointer (CertifiedKey ℕ) 0 with_key.heap
null-Pointer = inl refl

server_MayCalls : ServerScript.MayCalls ℕ ℕ ℕ ℕ server_calls with_key
unfolding from_raw_parts
server_MayCalls = (
  inr (key-Pointer, (key-Pointer, (null-Pointer, tt))),
  (
    inr (key-Pointer, (key-Pointer, tt)),
    (tt, (inr (key-Pointer, (key-Pointer, tt)), (inl refl, (tt, tt)))),
  ),
)

at_900-Allocates : Allocates at_900 with_key
at_900-Allocates h keep = (omega arith, keep 900 refl)

use_builder_restores_example : use_builder ℕ ℕ ℕ ℕ at_900 9 server_calls with_key ≡ done tt with_key
use_builder_restores_example =
    use_builder_restores ℕ ℕ ℕ ℕ at_900 9 with_key at_900-Allocates server_calls server_MayCalls

use_config_restores_example : use_config ℕ ℕ ℕ ℕ at_900 9 server_calls with_key ≡ done tt with_key
use_config_restores_example =
    use_config_restores ℕ ℕ ℕ ℕ at_900 with_key at_900-Allocates 9 server_calls server_MayCalls

-- A root store at 600, besides the key.
abbrev a_store : RootCertStore ℕ
a_store = record { roots = 1 ∷ 2 ∷ [] }

abbrev with_store : World Thing
with_store = set_heap with_key (put 600 (some (boxed (a_root_store a_store))) with_key.heap)

abbrev client_calls : List ClientBuilderCall
client_calls =
    ClientScript.set_certified_key 300 2
    ∷ use_roots 600
    ∷ use_roots 0
    ∷ set_certificate_verifier (some 5)
    ∷ load_roots_from_file (some (1 ∷ []))
    ∷ set_enable_sni false
    ∷ []

store_key-Pointer : Pointer (CertifiedKey ℕ) 500 with_store.heap
store_key-Pointer =
    inr (record { at = 500; value = a_seven }, refl, ((omega arith, omega arith, refl), tt))

client_MayCalls : ClientScript.MayCalls ℕ ℕ ℕ client_calls with_store
unfolding from_raw_parts
client_MayCalls = (
  inr (store_key-Pointer, (store_key-Pointer, tt)),
  (inr (omega arith, a_store, refl), (inl refl, (tt, (tt, (tt, tt))))),
)

with_store-Allocates : Allocates at_900 with_store
with_store-Allocates h keep = (omega arith, keep 900 refl)

-- A host whose one certificate is rejected, and a file system of one file.
abbrev a_host : PemHost ℕ ℕ
a_host = record {
  pkcs8_private_keys = λ text. none;
  rsa_private_keys = λ text. none;
  certs = λ text. some (text ∷ []);
  any_supported_type = λ der. none;
  add_parsable_certificates = λ ders roots. ((0, 1), roots);
}

abbrev a_file_system : RootFiles ℕ
a_file_system = record {
  is_utf8 = λ name. true;
  open_file = λ name. some 3;
  read = λ file. some (1 ∷ 2 ∷ []);
}

use_client_config_restores_example :
    use_client_config ℕ ℕ ℕ a_host a_file_system at_900 9 client_calls with_store
    ≡ done tt with_store
use_client_config_restores_example =
    use_client_config_restores ℕ ℕ ℕ at_900 with_store with_store-Allocates a_host a_file_system 9
      client_calls client_MayCalls

-- An allocator with two places, and a host that finds a key in every text.
abbrev place : Option (Slot Thing) → Ptr
place none = 900
place (some s) = 901

abbrev two_places : World Thing → Ptr
two_places w = place (w.heap 900)

two_places-Unused :
    (h : Heap Thing) (s : Option (Slot Thing))
    → h 900 ≡ s
    → h 901 ≡ none
    → (place s ≢ null) × (h (place s) ≡ none)
two_places-Unused h none e free = (omega arith, e)
two_places-Unused h (some s) e free = (omega arith, free)

abbrev finding_host : PemHost ℕ ℕ
finding_host = record {
  pkcs8_private_keys = λ text. some (text ∷ []);
  rsa_private_keys = λ text. none;
  certs = λ text. some (text ∷ []);
  any_supported_type = λ der. some 7;
  add_parsable_certificates = λ ders roots. ((1, 0), roots);
}

use_key_releases_example :
    let run = use_key ℕ ℕ ℕ ℕ ℕ two_places 9 finding_host 300 1 300 1 350 with_key in
    ((rr : RustlsResult) × Fails finding_host
        (from_raw_parts 300 1 with_key.mem)
        (from_raw_parts 300 1 with_key.mem)
        rr
      × (run ≡ done tt with_key))
    ⊎ ((key : CertifiedKey ℕ) × Built finding_host
          (from_raw_parts 300 1 with_key.mem)
          (from_raw_parts 300 1 with_key.mem)
          key
        × (run ≡ done tt (CipherKeys.with_key two_places 350 key with_key)))
use_key_releases_example =
    use_key_releases ℕ ℕ ℕ ℕ ℕ two_places 9 finding_host 300 1 300 1 350 with_key (omega arith)
      (omega arith) (omega arith) (omega arith) refl
      λ key h keep. two_places-Unused h (h 900) refl (keep 901 refl)
