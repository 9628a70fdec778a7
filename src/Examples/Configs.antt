-- ===== src/Examples/Configs.antt =====
-- Objects and states for the examples of configurations.
use rustls_ffi.Prelude.{ℕ, refl, Option, none, some, List, [], ◌∷◌, ◌==◌, if◌then◌else◌}
use rustls_ffi.Memory.{Ptr, Memory}
use rustls_ffi.World.{Slot, counted, Heap, World, put}
use rustls_ffi.Ownership.{CastPtr, Arc}
use rustls_ffi.Cipher.{CertifiedKey, RootCertStore}
use rustls_ffi.Connection.State.{Connection}
use rustls_ffi.Server.Config.{ServerConfigBuilder, ServerConfig}
use rustls_ffi.Client.Config.{ClientConfigBuilder, ClientConfig}
use rustls_ffi.Examples.{idle_thread}

abbrev pub ServerBuilder : Type 0
ServerBuilder = ServerConfigBuilder ℕ ℕ ℕ ℕ

abbrev pub Server : Type 0
Server = ServerConfig ℕ ℕ ℕ ℕ

abbrev pub ClientBuilder : Type 0
ClientBuilder = ClientConfigBuilder ℕ ℕ ℕ

abbrev pub Client : Type 0
Client = ClientConfig ℕ ℕ ℕ

pub data Thing : Type 0 where
  a_key : CertifiedKey ℕ → Thing
  a_suite : ℕ → Thing
  a_connection : Connection ℕ ℕ → Thing
  a_server_builder : ServerBuilder → Thing
  a_server_config : Server → Thing
  a_client_builder : ClientBuilder → Thing
  a_client_config : Client → Thing
  a_root_store : RootCertStore ℕ → Thing

abbrev key_of : Thing → Option (CertifiedKey ℕ)
key_of (a_key k) = some k
key_of _ = none

abbrev suite_of : Thing → Option ℕ
suite_of (a_suite n) = some n
suite_of _ = none

abbrev connection_of : Thing → Option (Connection ℕ ℕ)
connection_of (a_connection c) = some c
connection_of _ = none

abbrev server_builder_of : Thing → Option ServerBuilder
server_builder_of (a_server_builder b) = some b
server_builder_of _ = none

abbrev server_config_of : Thing → Option Server
server_config_of (a_server_config c) = some c
server_config_of _ = none

abbrev client_builder_of : Thing → Option ClientBuilder
client_builder_of (a_client_builder b) = some b
client_builder_of _ = none

abbrev client_config_of : Thing → Option Client
client_config_of (a_client_config c) = some c
client_config_of _ = none

abbrev root_store_of : Thing → Option (RootCertStore ℕ)
root_store_of (a_root_store s) = some s
root_store_of _ = none

instance abbrev pub root_store_thing : CastPtr Thing (RootCertStore ℕ)
root_store_thing = record {
  rust_type = root_store_of;
  object = a_root_store;
  rust_type-object = λ s. refl;
}

instance abbrev pub key_thing : CastPtr Thing (CertifiedKey ℕ)
key_thing = record { rust_type = key_of; object = a_key; rust_type-object = λ k. refl }

instance abbrev pub suite_thing : CastPtr Thing ℕ
suite_thing = record { rust_type = suite_of; object = a_suite; rust_type-object = λ k. refl }

instance abbrev pub connection_thing : CastPtr Thing (Connection ℕ ℕ)
connection_thing = record {
  rust_type = connection_of;
  object = a_connection;
  rust_type-object = λ c. refl;
}

instance abbrev pub server_builder_thing : CastPtr Thing ServerBuilder
server_builder_thing = record {
  rust_type = server_builder_of;
  object = a_server_builder;
  rust_type-object = λ b. refl;
}

instance abbrev pub server_config_thing : CastPtr Thing Server
server_config_thing = record {
  rust_type = server_config_of;
  object = a_server_config;
  rust_type-object = λ c. refl;
}

instance abbrev pub client_builder_thing : CastPtr Thing ClientBuilder
client_builder_thing = record {
  rust_type = client_builder_of;
  object = a_client_builder;
  rust_type-object = λ b. refl;
}

instance abbrev pub client_config_thing : CastPtr Thing Client
client_config_thing = record {
  rust_type = client_config_of;
  object = a_client_config;
  rust_type-object = λ c. refl;
}

abbrev pub a_seven : CertifiedKey ℕ
a_seven = record { cert = (1 ∷ []) ∷ []; key = 7; ocsp = none }

-- A key at 500, twice in an array at 300, of which the last pointer is NULL.
abbrev pub seven_twice : List (Arc (CertifiedKey ℕ))
seven_twice = record { at = 500; value = a_seven } ∷ record { at = 500; value = a_seven } ∷ []

abbrev pub array : Memory
array q = if q == 300 then 500 else if q == 301 then 500 else 0

abbrev pub key_heap : Heap Thing
key_heap = put 500 (some (counted 1 (a_key a_seven))) (λ q. none)

abbrev pub with_key : World Thing
with_key = record { mem = array; heap = key_heap; local = idle_thread }

-- The same with an object at 700.
abbrev pub and_at_700 : Slot Thing → World Thing
and_at_700 s = record with_key { heap = put 700 (some s) key_heap }

abbrev pub at_900 : World Thing → Ptr
at_900 w = 900
