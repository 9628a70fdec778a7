-- ===== src/Client/Config/Protocols.antt =====
-- The protocols of a client's builder.
use rustls_ffi.Prelude.{◌≡◌, refl, ◌≢◌, ◌⊎◌, inl, inr, some, List, [], map}
use rustls_ffi.Panic.{done, result_null, result_panic}
use rustls_ffi.Panic.Boundary.{boundary-done}
use rustls_ffi.Memory.{Ptr, null}
use rustls_ffi.Error.Codes.{RustlsResult}
use rustls_ffi.Slice.{RustlsSliceBytes}
use rustls_ffi.World.{boxed, World, put, set_heap}
use rustls_ffi.Ownership.{CastPtr}
use rustls_ffi.Ownership.Lending.{mut-done, mut_same}
use rustls_ffi.Config.Lists.{protocol_bytes, NoneNull, SomeNull, protocols_from_lem}
use rustls_ffi.Client.Config.{ClientConfigBuilder}
use rustls_ffi.Client.Config.Setters.{
  take_protocols, rustls_client_config_builder_set_alpn_protocols,
}

module _ {O Base K R : Type 0} ⦃b : CastPtr O (ClientConfigBuilder Base K R)⦄ where
  -- With a builder and an array of protocols, either none of them has NULL for its bytes, and the call
  -- returns Ok and has replaced the builder's protocols by the bytes of the given ones, in order, and
  -- changed nothing else; or one of them has NULL for its bytes, and the call returns NullParameter
  -- and the whole state is as it was.
  pub set_alpn_protocols_lem :
      (p : Ptr) (ps : List RustlsSliceBytes) (s : ClientConfigBuilder Base K R) (w : World O)
      → p ≢ null
      → w.heap p ≡ some (boxed (b.object s))
      → let run = rustls_client_config_builder_set_alpn_protocols Base K R p (some ps) w in
        (NoneNull ps
          × (run
              ≡ done RustlsResult.ok (
                  set_heap w (
                    put p
                      (some (
                        boxed
                          (b.object (record s { alpn_protocols = map (protocol_bytes w.mem) ps }))))
                      w.heap))))
        ⊎ (SomeNull ps × (run ≡ done RustlsResult.null_parameter w))
  unfolding rustls_client_config_builder_set_alpn_protocols
  set_alpn_protocols_lem p ps s w ne held = elim (protocols_from_lem w.mem ps []) [
    | inl (all, e) ↦ inl (
      all,
      boundary-done _ w (
          mut-done p s (record s { alpn_protocols = map (protocol_bytes w.mem) ps }) w _
            RustlsResult.ok (λ q t. t) ne held (rw (e, take_protocols) refl)),
    )
    | inr (bad, e) ↦ inr (
      bad,
      boundary-done _ w
          (mut_same p s w _ RustlsResult.null_parameter ne held (rw (e, take_protocols) refl)),
    )
  ]
