-- ===== src/Server/Config/Sequences.antt =====
-- Sequences of calls on a server's builder, between its making and its end.
use rustls_ffi.Prelude.{ℕ, Bool, ◌≡◌, ◌≢◌, some, List, [], ◌∷◌, ◌++◌}
use rustls_ffi.Panic.{done, result_null, result_panic, unit_panic}
use rustls_ffi.Memory.{Ptr, null, from_raw_parts}
use rustls_ffi.Error.Codes.{RustlsResult}
use rustls_ffi.Userdata.{FnPtr}
use rustls_ffi.World.{boxed, World}
use rustls_ffi.Ownership.{CastPtr, Arc}
use rustls_ffi.Ownership.Arcs.{addresses}
use rustls_ffi.Ownership.Counts.{Covered}
use rustls_ffi.Ownership.Taking.{Arcs}
use rustls_ffi.Cipher.{CertifiedKey}
use rustls_ffi.Server.Config.{ServerConfigBuilder, builder_arcs}
use rustls_ffi.Server.Config.Setters.{
  rustls_server_config_builder_set_certified_keys, rustls_server_config_builder_set_hello_callback,
  rustls_server_config_builder_set_ignore_client_order,
  rustls_server_config_builder_set_alpn_protocols, rustls_server_config_builder_set_persistence,
  rustls_server_config_builder_set_client_verifier,
  rustls_server_config_builder_set_client_verifier_optional,
}
use rustls_ffi.Slice.{RustlsSliceBytes}

module _ {O : Type 0} (Base K V V' : Type 0) ⦃b : CastPtr O (ServerConfigBuilder Base K V V')⦄
    (p : Ptr) where
  -- At p stands a builder, and each Arc that it holds has a reference.
  abbrev pub IsBuilder : World O → Type 0
  IsBuilder w =
      (p ≢ null)
      × ((s : ServerConfigBuilder Base K V V') × (w.heap p ≡ some (boxed (b.object s)))
          × Covered (builder_arcs s) w.heap)

  module _ ⦃k : CastPtr O (CertifiedKey K)⦄ ⦃v : CastPtr O V⦄ ⦃v' : CastPtr O V'⦄ where
    -- Calls of C on the builder at p, one after another. Certified keys are given by pointers that each
    -- stand for an Arc, also with a NULL pointer after them, and so is a verifier of client certificates.
    pub data Calls : World O → World O → Type 0 where
      no_calls : {w : World O} → Calls w w
      sequence : {u v w : World O} → Calls u v → Calls v w → Calls u w
      keys_given :
          {w w' : World O} (at : Ptr) (n : ℕ) (keys : List (Arc (CertifiedKey K)))
          → at ≢ null
          → from_raw_parts at n w.mem ≡ addresses keys
          → Arcs keys w.heap
          → (r : RustlsResult)
          → rustls_server_config_builder_set_certified_keys Base K V V' p at n w ≡ done r w'
          → Calls w w'
      null_given :
          {w w' : World O} (at : Ptr) (n : ℕ) (keys : List (Arc (CertifiedKey K))) (rest : List Ptr)
          → at ≢ null
          → from_raw_parts at n w.mem ≡ addresses keys ++ null ∷ rest
          → Arcs keys w.heap
          → (r : RustlsResult)
          → rustls_server_config_builder_set_certified_keys Base K V V' p at n w ≡ done r w'
          → Calls w w'
      callback_given :
          {w w' : World O} (cb : FnPtr) (r : RustlsResult)
          → rustls_server_config_builder_set_hello_callback Base K V V' p (some cb) w ≡ done r w'
          → Calls w w'
      order_given :
          {w w' : World O} (ignore : Bool) (r : RustlsResult)
          → rustls_server_config_builder_set_ignore_client_order Base K V V' p ignore w ≡ done r w'
          → Calls w w'
      protocols_given :
          {w w' : World O} (ps : List RustlsSliceBytes) (r : RustlsResult)
          → rustls_server_config_builder_set_alpn_protocols Base K V V' p (some ps) w ≡ done r w'
          → Calls w w'
      persistence_given :
          {w w' : World O} (get_cb put_cb : FnPtr) (r : RustlsResult)
          → rustls_server_config_builder_set_persistence Base K V V' p (some get_cb) (some put_cb) w
            ≡ done r w'
          → Calls w w'
      verifier_given :
          {w w' : World O} (a : Arc V)
          → Arcs (a ∷ []) w.heap
          → rustls_server_config_builder_set_client_verifier Base K V V' p a.at w ≡ done tt w'
          → Calls w w'
      optional_verifier_given :
          {w w' : World O} (a : Arc V')
          → Arcs (a ∷ []) w.heap
          → rustls_server_config_builder_set_client_verifier_optional Base K V V' p a.at w
            ≡ done tt w'
          → Calls w w'
