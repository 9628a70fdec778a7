-- ===== src/Connection/Nulls.antt =====
-- NULL arguments of the calls that move bytes.
use rustls_ffi.Prelude.{ℕ, ◌≡◌, ◌≢◌, Option, some, ◌∙◌, ◌==◌, if◌then◌else◌, Bool-cases, inl, inr}
use rustls_ffi.Panic.{
  done, pure, io_result, einval, io_result_null, io_result_panic, result_null, result_panic,
}
use rustls_ffi.Panic.Boundary.{boundary-done}
use rustls_ffi.Memory.{Ptr, null}
use rustls_ffi.Error.Codes.{RustlsResult}
use rustls_ffi.Userdata.{FnPtr}
use rustls_ffi.World.{boxed, World}
use rustls_ffi.Ownership.{CastPtr, give_back, try_slice}
use rustls_ffi.Ownership.References.{try_mut-boxed, try_mut-null, give_back_same}
use rustls_ffi.Io.{IoCallbacks}
use rustls_ffi.Connection.State.{RustlsApi, Connection}
use rustls_ffi.Connection.Tls.{
  rustls_connection_read_tls, rustls_connection_write_tls, rustls_connection_write_tls_vectored,
}
use rustls_ffi.Connection.Transfer.{lent}
use rustls_ffi.Connection.Plaintext.{rustls_connection_read, rustls_connection_write}

module _ {O A B S : Type 0} ⦃c : CastPtr O (Connection A B)⦄ (rustls : RustlsApi A B S (World O))
    (host : IoCallbacks (World O)) where
  -- The connection is NULL, or it is not but the place for the number of bytes is.
  pub data NullArgument (w : World O) : (conn out_n : Ptr) → Type 0 where
    no_conn : (out_n : Ptr) → NullArgument w null out_n
    no_out_n :
        (p : Ptr) (cn : Connection A B)
        → p ≢ null
        → w.heap p ≡ some (boxed (c.object cn))
        → NullArgument w p null

  -- The tests of a call for plaintext, when `out_n` is NULL.
  unchanged :
      (p : Ptr) (cn : Connection A B) (buf : Ptr) (w : World O)
      → w.heap p ≡ some (boxed (c.object cn))
      → give_back p (
          (if buf == null
              then pure RustlsResult.null_parameter
              else pure RustlsResult.null_parameter)
            (cn, lent p w))
        ≡ done RustlsResult.null_parameter w
  unchanged p cn buf w e = elim (Bool-cases (buf == null)) [
    | inl z ↦ rw z (give_back_same p cn w _ e)
    | inr z ↦ rw z (give_back_same p cn w _ e)
  ]

  -- Each of the five calls that move bytes, called with NULL for the connection or for the number of
  -- bytes, returns EINVAL or NullParameter and leaves the whole state as it was, whatever its other
  -- arguments are; neither rustls nor a callback is called.
  pub null_arguments :
      (p out_n : Ptr) (cb : Option FnPtr) (userdata buf : Ptr) (count : ℕ) (w : World O)
      → NullArgument w p out_n
      → (rustls_connection_read_tls rustls host p cb userdata out_n w ≡ done (io_result einval) w)
        × (rustls_connection_write_tls rustls host p cb userdata out_n w
            ≡ done (io_result einval) w)
        × (rustls_connection_write_tls_vectored rustls host p cb userdata out_n w
            ≡ done (io_result einval) w)
        × (rustls_connection_read rustls p buf count out_n w ≡ done RustlsResult.null_parameter w)
        × (rustls_connection_write rustls p buf count out_n w ≡ done RustlsResult.null_parameter w)
  unfolding rustls_connection_read_tls rustls_connection_write_tls
      rustls_connection_write_tls_vectored rustls_connection_read rustls_connection_write try_slice
  null_arguments _ _ cb userdata buf count w (no_conn out_n) = (
    boundary-done _ w (try_mut-null w _),
    boundary-done _ w (try_mut-null w _),
    boundary-done _ w (try_mut-null w _),
    boundary-done _ w (try_mut-null w _),
    boundary-done _ w (try_mut-null w _),
  )
  null_arguments _ _ cb userdata buf count w (no_out_n p cn ne e) = (
    boundary-done _ w (try_mut-boxed p cn w _ ne e ∙ give_back_same p cn w _ e),
    boundary-done _ w (try_mut-boxed p cn w _ ne e ∙ give_back_same p cn w _ e),
    boundary-done _ w (try_mut-boxed p cn w _ ne e ∙ give_back_same p cn w _ e),
    boundary-done _ w (try_mut-boxed p cn w _ ne e ∙ unchanged p cn buf w e),
    boundary-done _ w (try_mut-boxed p cn w _ ne e ∙ unchanged p cn buf w e),
  )
