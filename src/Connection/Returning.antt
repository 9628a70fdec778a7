-- ===== src/Connection/Returning.antt =====
-- The calls that get a reference to a connection, and the set of its userdata: each returns, with a
-- connection still in its place and the thread's stack as before.
use rustls_ffi.Prelude.{
  Bool, true, false, ◌≡◌, refl, ◌∙◌, ap, ◌≢◌, Option, none, some, ◌||◌, if◌then◌else◌,
}
use rustls_ffi.Panic.{
  done, Cmd, pure, ignoring, ffi_panic_boundary, PanicOrDefault, NullParameterOrDefault,
  io_result_null, io_result_panic, result_null, result_panic, unit_null, unit_panic, bool_null,
  bool_panic, number_null, number_panic,
}
use rustls_ffi.Panic.Boundary.{boundary-done, ignoring-done}
use rustls_ffi.Memory.{Ptr, null, is_null}
use rustls_ffi.Slice.{Slice}
use rustls_ffi.Userdata.Nesting.{Nested}
use rustls_ffi.World.{borrowed, World, put}
use rustls_ffi.Ownership.{CastPtr, shared, try_ref_from_ptr}
use rustls_ffi.Ownership.References.{try_mut-boxed, try_ref-shared}
use rustls_ffi.Connection.State.{RustlsApi, Connection}
use rustls_ffi.Connection.Keeping.{
  HasConnection, Returns, unmoved-IsKept, unmoved-IsLeft, given_back-IsLeft,
}
use rustls_ffi.Connection.Tls.{rustls_connection_set_userdata}
use rustls_ffi.Connection.Getters.{alpn_out, rustls_connection_get_alpn_protocol}

module _ {O : Type 0} (A B : Type 0) ⦃c : CastPtr O (Connection A B)⦄ (Others : Ptr → Type 0)
    (p : Ptr) where
  pub ignoring-Returns :
      {R : Type 0} (m : Cmd (World O) R) (w : World O)
      → Returns A B Others p m w
      → Returns A B Others p (ignoring m) w
  ignoring-Returns m w (r, w', is, left) = (tt, w', ignoring-done m w is, left)

  module _ (w : World O) (ne : p ≢ null) (here : HasConnection A B p w) where
    -- A call that gets a reference, and neither moves the connection nor touches the stack.
    pub ref-Returns :
        {R : Type 0} ⦃d : NullParameterOrDefault R⦄ ⦃e : PanicOrDefault R⦄
        (k : Connection A B → Cmd (World O) R)
        → ((cn : Connection A B)
            → (r : R) × (w' : World O) × (k cn w ≡ done r w')
              × (w'.heap ≡ w.heap)
              × (w'.local ≡ w.local))
        → Returns A B Others p (ffi_panic_boundary (try_ref_from_ptr {T = Connection A B} p k)) w
    ref-Returns k runs =
        let (cn, held) = here in
        let (r, w', is, heap, local) = runs cn in
        (
          r,
          w',
          boundary-done _ w
              (try_ref-shared p cn w k ne (ap shared held ∙ c.rust_type-object cn) ∙ is),
          unmoved-IsLeft A B Others p w w' here heap local,
        )

    pub get-Returns :
        {R : Type 0} ⦃d : NullParameterOrDefault R⦄ ⦃e : PanicOrDefault R⦄
        (get : Connection A B → R)
        → Returns A B Others p
            (ffi_panic_boundary (try_ref_from_ptr {T = Connection A B} p λ cn. pure (get cn)))
            w
    get-Returns get = ref-Returns (λ cn. pure (get cn)) λ cn. (get cn, w, refl, refl, refl)

    pub alpn-Returns :
        {S : Type 0} (rustls : RustlsApi A B S (World O)) (out out_len : Ptr)
        → Returns A B Others p (rustls_connection_get_alpn_protocol rustls p out out_len) w
    unfolding rustls_connection_get_alpn_protocol
    alpn-Returns rustls out out_len =
        ref-Returns _ λ cn. stored (is_null out || is_null out_len) (rustls.alpn_protocol cn.conn)
      where
        stored :
            (b : Bool) (o : Option Slice)
            → (r : Unit {0}) × (w' : World O) × ((if b then pure tt else alpn_out o out out_len) w
                ≡ done r w')
              × (w'.heap ≡ w.heap)
              × (w'.local ≡ w.local)
        stored true o = (tt, w, refl, refl, refl)
        stored false (some x) = (tt, _, refl, refl, refl)
        stored false none = (tt, _, refl, refl, refl)

    pub set_userdata-Returns :
        (u : Ptr) → Returns A B Others p (rustls_connection_set_userdata A B p u) w
    unfolding rustls_connection_set_userdata
    set_userdata-Returns u =
        let lent = record w { heap = put p (some borrowed) w.heap } in
        (
          tt,
          _,
          try_mut-boxed p here.0 w _ ne here.1,
          given_back-IsLeft A B Others p w lent (record here.0 { userdata = u })
              (unmoved-IsKept Others p refl Nested.idle),
        )
