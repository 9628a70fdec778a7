-- ===== src/Examples/Clients.antt =====
-- Configurations and verifiers of clients on concrete inputs.
use Prim.Native.String.{String}
use rustls_ffi.Prelude.{
  Bool, ℕ, ◌<◌, ◌≡◌, refl, ◌⊎◌, inl, true, false, Option, none, some, List, [], ◌∷◌, map, length,
  Result, ok, err, arith,
}
use rustls_ffi.Panic.{Cmd, done, pure}
use rustls_ffi.Memory.{Ptr}
use rustls_ffi.Error.Codes.{RustlsResult}
use rustls_ffi.Error.Mapping.{RustlsError}
use rustls_ffi.Slice.{Slice, RustlsSliceBytes}
use rustls_ffi.Userdata.{FnPtr}
use rustls_ffi.Userdata.Guards.{pushed}
use rustls_ffi.World.{boxed, counted, World, put, set_heap}
use rustls_ffi.Ownership.{Arc}
use rustls_ffi.Ownership.Handles.{with_references, with_handle}
use rustls_ffi.Connection.State.{RustlsConnection, from_client}
use rustls_ffi.Ownership.Slots.{plus}
use rustls_ffi.Cipher.{CertifiedKey, PemHost}
use rustls_ffi.Client.Resolver.{NoneMatches, IsFirst, resolve_client_cert_lem}
use rustls_ffi.Client.{
  dns_name, other_name, ServerCert, VerifyServerCertParams, verify_server_cert, resolve_client_cert,
}
use rustls_ffi.Client.Verifier.{verify_server_cert_refuses}
use rustls_ffi.Client.Config.{builder_on, web_pki_verifier}
use rustls_ffi.Client.Config.Setters.{
  RootFiles, rustls_client_config_builder_load_roots_from_file,
  rustls_client_config_builder_set_alpn_protocols,
}
use rustls_ffi.Client.Config.Build.{HostNames, config_of, drop_config, rustls_client_connection_new}
use rustls_ffi.Client.Config.Connecting.{client_connection_new_lem}
use rustls_ffi.Client.Config.Roots.{Unreadable, Holds, load_roots_from_file_lem}
use rustls_ffi.Client.Config.Protocols.{set_alpn_protocols_lem}
use rustls_ffi.Config.Lists.{protocol_bytes, NoneNull, SomeNull}
use rustls_ffi.Examples.Configs.{
  ClientBuilder, Client, Thing, a_client_builder, a_client_config, connection_thing,
  client_builder_thing, client_config_thing, seven_twice, with_key, and_at_700, at_900,
}

abbrev bytes_at : Ptr → List ℕ → Slice
bytes_at p xs = record { ptr = p; elems = xs }

abbrev a_cert : ServerCert
a_cert = record {
  end_entity = bytes_at 10 (48 ∷ []);
  intermediates = [];
  server_name = dns_name (bytes_at 20 (97 ∷ 98 ∷ []));
  ocsp_response = bytes_at 30 [];
}

-- The callback says that the certificate's signature type is invalid.
abbrev says_no : FnPtr → Ptr → VerifyServerCertParams → Cmd (World Thing) ℕ
says_no cb u params = pure 7118

abbrev verifying : World Thing
verifying = record with_key { local = pushed 70 none with_key.local }

verify_server_cert_refuses_example :
    (text : String) × (verify_server_cert says_no 5
        (record a_cert { server_name = other_name })
        verifying
      ≡ done (err (RustlsError.general text)) verifying)
verify_server_cert_refuses_example =
    verify_server_cert_refuses says_no 5 (record a_cert { server_name = other_name }) verifying
      (inl refl)

abbrev a_builder : ClientBuilder
a_builder = builder_on 9

abbrev a_config : Client
a_config = config_of a_builder

abbrev configured : World Thing
configured = and_at_700 (counted 1 (a_client_config a_config))

-- All names are server names but the empty one, and rustls makes the connection 3.
abbrev some_name : List ℕ → Option ℕ
some_name [] = none
some_name (x ∷ xs) = some x

abbrev host_names : HostNames ℕ
host_names = record { is_utf8 = λ bs. true; server_name = some_name }

abbrev makes_three : Arc Client → ℕ → Result RustlsError ℕ
makes_three config n = ok 3

client_connection_new_example :
    let run =
      rustls_client_connection_new ℕ ℕ ℕ ℕ at_900 host_names makes_three 700
        (some (97 ∷ []))
        400
        configured in
    (((host_names.is_utf8 (97 ∷ []) ≡ false) ⊎ (host_names.server_name (97 ∷ []) ≡ none))
      × (run ≡ done RustlsResult.invalid_dns_name_error configured))
    ⊎ ((sn : ℕ) × (host_names.is_utf8 (97 ∷ []) ≡ true)
        × (host_names.server_name (97 ∷ []) ≡ some sn)
        × (((e : RustlsError) × (makes_three (record { at = 700; value = a_config }) sn ≡ err e)
              × (run ≡ done RustlsResult.panic configured))
            ⊎ ((client : ℕ) × (makes_three (record { at = 700; value = a_config }) sn ≡ ok client)
                × (run
                    ≡ done RustlsResult.ok (
                        with_handle at_900 400
                          (from_client {B = ℕ} client)
                          (with_references 700 2 a_config configured))))))
client_connection_new_example =
    client_connection_new_lem ℕ at_900 host_names makes_three 700 400 (97 ∷ []) 0 a_config
      configured (omega arith) (omega arith) refl

-- The drop of a connection that holds an Arc of the configuration at 700.
abbrev drops_700 : RustlsConnection ℕ ℕ → Cmd (World Thing) (Unit {0})
drops_700 c = drop_config ℕ ℕ ℕ 700

abbrev building : World Thing
building = and_at_700 (boxed (a_client_builder a_builder))

-- A file with one certificate, which is parsed.
abbrev one_file : RootFiles ℕ
one_file = record {
  is_utf8 = λ bs. true;
  open_file = λ name. some 1;
  read = λ file. some (65 ∷ []);
}

abbrev one_cert : PemHost ℕ ℕ
one_cert = record {
  pkcs8_private_keys = λ t. none;
  rsa_private_keys = λ t. none;
  certs = λ t. some (t ∷ []);
  any_supported_type = λ d. none;
  add_parsable_certificates = λ ders roots. ((length ders, 0), 5 ∷ roots);
}

load_roots_from_file_example :
    let run =
      rustls_client_config_builder_load_roots_from_file ℕ ℕ ℕ one_cert one_file 700
        (some [])
        building in
    (Unreadable one_cert one_file [] × (run ≡ done RustlsResult.io building))
    ⊎ ((ders : List (List ℕ)) × Holds one_cert one_file [] ders
        × (let ((parsed, failed), roots) = one_cert.add_parsable_certificates ders [] in
            (((0 < failed) × (run ≡ done RustlsResult.certificate_parse_error building))
              ⊎ ((failed ≡ 0)
                  × (run
                      ≡ done RustlsResult.ok (
                          set_heap building (
                            put 700
                              (some (
                                boxed (
                                  a_client_builder (record a_builder {
                                    verifier = web_pki_verifier (record { roots = roots });
                                  }))))
                              building.heap)))))))
load_roots_from_file_example =
    load_roots_from_file_lem one_cert one_file 700 [] a_builder building (omega arith) refl

abbrev protocols : List RustlsSliceBytes
protocols = record { bytes = 300; len = 2 } ∷ []

set_alpn_protocols_example :
    let run = rustls_client_config_builder_set_alpn_protocols ℕ ℕ ℕ 700 (some protocols) building in
    (NoneNull protocols
      × (run
          ≡ done RustlsResult.ok (
              set_heap building (
                put 700
                  (some (
                    boxed (
                      a_client_builder (record a_builder {
                        alpn_protocols = map (protocol_bytes building.mem) protocols;
                      }))))
                  building.heap))))
    ⊎ (SomeNull protocols × (run ≡ done RustlsResult.null_parameter building))
set_alpn_protocols_example =
    set_alpn_protocols_lem 700 protocols a_builder building (omega arith) refl

-- Every key supports every scheme.
abbrev supports_all : ℕ → List ℕ → Bool
supports_all k schemes = true

resolve_client_cert_example :
    let keys = seven_twice in
    let run = resolve_client_cert supports_all (1027 ∷ []) keys with_key in
    ((run ≡ done none with_key) × NoneMatches supports_all (1027 ∷ []) keys)
    ⊎ ((a : Arc (CertifiedKey ℕ)) × IsFirst supports_all (1027 ∷ []) a keys
        × (run
            ≡ done
                (some a)
                (set_heap with_key (put a.at (plus 1 (with_key.heap a.at)) with_key.heap))))
resolve_client_cert_example =
    resolve_client_cert_lem supports_all (1027 ∷ []) seven_twice with_key
      (omega arith, (omega arith, tt))
