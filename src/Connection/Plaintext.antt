-- ===== src/Connection/Plaintext.antt =====
-- connection.rs: the calls that move plaintext, and the free of a connection.
use rustls_ffi.Prelude.{ℕ, Option, none, some, ok, err, ◌||◌, if◌then◌else◌}
use rustls_ffi.Panic.{
  Cmd, pure, modify, ◌>>=◌, ◌>>◌, result_null, result_panic, unit_null, unit_panic,
  ffi_panic_boundary,
}
use rustls_ffi.Memory.{Ptr, is_null, write, from_raw_parts}
use rustls_ffi.Error.Codes.{RustlsResult}
use rustls_ffi.Slice.{Slice}
use rustls_ffi.World.{World, on_memory, lift}
use rustls_ffi.Ownership.{CastPtr, try_mut_from_ptr, try_slice, to_box}
use rustls_ffi.Io.{Io, ErrorKind, kind}
use rustls_ffi.Connection.State.{RustlsConnection, RustlsApi, Connection, with_conn}

-- `slice::from_raw_parts(buf, count)`: the elements are those that stand there now.
abbrev pub slice_at : {O : Type 0} → Ptr → ℕ → World O → Slice
slice_at buf count w = record { ptr = buf; elems = from_raw_parts buf count w.mem }

-- What an error of the reader is reported as.
unfoldable pub read_error : ErrorKind → RustlsResult
read_error ErrorKind.unexpected_eof = RustlsResult.unexpected_eof
read_error ErrorKind.would_block = RustlsResult.plaintext_empty
read_error ErrorKind.other = RustlsResult.io

module _ {O A B : Type 0} where
  -- `*out_n = n; rustls_result::Ok`
  abbrev pub store_n : Ptr → ℕ → Cmd (Connection A B × World O) RustlsResult
  store_n out_n n = lift (on_memory (modify (write out_n n))) >> pure RustlsResult.ok

  abbrev pub report_write : Ptr → Io ℕ → Cmd (Connection A B × World O) RustlsResult
  report_write out_n (ok n) = store_n out_n n
  report_write out_n (err _) = pure RustlsResult.io

  abbrev pub report_read : Ptr → Io ℕ → Cmd (Connection A B × World O) RustlsResult
  unfolding read_error
  report_read out_n (ok n) = store_n out_n n
  report_read out_n (err e) = pure (read_error (kind e))

  abbrev pub report_read_buf : Ptr → Io (Unit {0}) × ℕ → Cmd (Connection A B × World O) RustlsResult
  unfolding read_error
  report_read_buf out_n (ok _, filled_len) = store_n out_n filled_len
  report_read_buf out_n (err e, filled_len) = pure (read_error (kind e))

module _ {O A B : Type 0} ⦃c : CastPtr O (Connection A B)⦄
    (drop_connection : RustlsConnection A B → Cmd (World O) (Unit {0})) where
  abbrev pub drop_boxed : Option (Connection A B) → Cmd (World O) (Unit {0})
  drop_boxed none = pure tt
  drop_boxed (some c) = drop_connection c.conn

  -- The pointer becomes a Box, which is dropped. `drop_connection` is the drop of rustls' connection,
  -- which holds an Arc of its configuration.
  unfoldable pub rustls_connection_free : (conn : Ptr) → Cmd (World O) (Unit {0})
  rustls_connection_free conn =
      ffi_panic_boundary
        (if is_null conn then pure tt else to_box {T = Connection A B} conn >>= drop_boxed)

module _ {O A B S : Type 0} ⦃c : CastPtr O (Connection A B)⦄
    (rustls : RustlsApi A B S (World O)) where
  open rustls use {writer_write, reader_read, reader_read_buf}

  unfoldable pub rustls_connection_write :
      (conn buf : Ptr) (count : ℕ) (out_n : Ptr) → Cmd (World O) RustlsResult
  rustls_connection_write conn buf count out_n = ffi_panic_boundary (
      try_mut_from_ptr {T = Connection A B} conn (
        try_slice buf (
          if is_null out_n then pure RustlsResult.null_parameter else λ (c, w).
          (with_conn (writer_write (slice_at buf count w)) >>= report_write out_n) (c, w))))

  unfoldable pub rustls_connection_read :
      (conn buf : Ptr) (count : ℕ) (out_n : Ptr) → Cmd (World O) RustlsResult
  rustls_connection_read conn buf count out_n = ffi_panic_boundary (
      try_mut_from_ptr {T = Connection A B} conn (
        if is_null buf
        then pure RustlsResult.null_parameter
        else if is_null out_n
        then pure RustlsResult.null_parameter
        else (with_conn (reader_read buf count) >>= report_read out_n)))

  -- with the feature `read_buf`
  unfoldable pub rustls_connection_read_2 :
      (conn buf : Ptr) (count : ℕ) (out_n : Ptr) → Cmd (World O) RustlsResult
  rustls_connection_read_2 conn buf count out_n = ffi_panic_boundary (
      try_mut_from_ptr {T = Connection A B} conn (
        if is_null buf || is_null out_n
        then pure RustlsResult.null_parameter
        else (with_conn (reader_read_buf buf count) >>= report_read_buf out_n)))
