-- ===== src/Connection/Data.antt =====
-- The calls for plaintext: what they return and store for each outcome of rustls.
use rustls_ffi.Prelude.{ℕ, ◌≡◌, refl, ◌≢◌, false, some, ok, err, arith, ◌==◌, ◌∙◌, ap}
use rustls_ffi.Panic.{
  Run, done, panicked, fault, Cmd, ◌>>=◌, result_null, result_panic, ffi_panic_boundary,
}
use rustls_ffi.Panic.Boundary.{boundary-done, boundary-panicked, boundary-fault, bind-done}
use rustls_ffi.Memory.{Ptr, null}
use rustls_ffi.Error.Codes.{RustlsResult}
use rustls_ffi.World.{boxed, World}
use rustls_ffi.Ownership.{CastPtr, give_back, try_slice}
use rustls_ffi.Ownership.References.{try_mut-boxed}
use rustls_ffi.Io.{Io, IoError, ErrorKind}
use rustls_ffi.Connection.State.{RustlsConnection, RustlsApi, Connection, with_conn}
use rustls_ffi.Connection.Plaintext.{
  slice_at, read_error, report_read, report_write, rustls_connection_read, rustls_connection_write,
}
use rustls_ffi.Connection.Transfer.{with_conn-done, lent, returned, stored}

module _ {A B W R T : Type 0} (m : Cmd (RustlsConnection A B × W) R)
    (f : R → Cmd (Connection A B × W) T) (cn : Connection A B) (w : W) where
  call-panicked :
      {x : RustlsConnection A B} {w' : W}
      → m (cn.conn, w) ≡ panicked (x, w')
      → (with_conn m >>= f) (cn, w) ≡ panicked (record cn { conn = x }, w')
  call-panicked e = rw (e, with_conn, ◌>>=◌)

  call-fault : m (cn.conn, w) ≡ fault → (with_conn m >>= f) (cn, w) ≡ fault
  call-fault e = rw (e, with_conn, ◌>>=◌)

-- What a read and a write of plaintext return for an outcome of rustls.
abbrev pub read_status : Io ℕ → RustlsResult
read_status (ok n) = RustlsResult.ok
read_status (err (IoError.os e ErrorKind.unexpected_eof)) = RustlsResult.unexpected_eof
read_status (err (IoError.os e ErrorKind.would_block)) = RustlsResult.plaintext_empty
read_status (err (IoError.os e ErrorKind.other)) = RustlsResult.io
read_status (err (IoError.simple ErrorKind.unexpected_eof)) = RustlsResult.unexpected_eof
read_status (err (IoError.simple ErrorKind.would_block)) = RustlsResult.plaintext_empty
read_status (err (IoError.simple ErrorKind.other)) = RustlsResult.io

abbrev pub write_status : Io ℕ → RustlsResult
write_status (ok n) = RustlsResult.ok
write_status (err e) = RustlsResult.io

module _ {O A B : Type 0} ⦃c : CastPtr O (Connection A B)⦄ where
  -- How a call for plaintext ends when rustls' method ends with `run`: the connection is back at `p`
  -- in each case, and a panic of rustls is reported as Panic.
  abbrev pub ended :
      (status : Io ℕ → RustlsResult) (p out_n : Ptr)
      → Connection A B
      → Run (RustlsConnection A B × World O) (Io ℕ)
      → Run (World O) RustlsResult
  ended status p out_n cn (done r (x, w')) =
      done (status r) (returned p cn x (stored out_n r w'.mem) w')
  ended status p out_n cn (panicked (x, w')) = done RustlsResult.panic (returned p cn x w'.mem w')
  ended status p out_n cn fault = fault

  report_read-done :
      (out_n : Ptr) (r : Io ℕ) (cn : Connection A B) (w : World O)
      → report_read out_n r (cn, w)
        ≡ done (read_status r) (cn, record w { mem = stored out_n r w.mem })
  unfolding read_error
  report_read-done out_n (ok n) cn w = refl
  report_read-done out_n (err (IoError.os e ErrorKind.unexpected_eof)) cn w = refl
  report_read-done out_n (err (IoError.os e ErrorKind.would_block)) cn w = refl
  report_read-done out_n (err (IoError.os e ErrorKind.other)) cn w = refl
  report_read-done out_n (err (IoError.simple ErrorKind.unexpected_eof)) cn w = refl
  report_read-done out_n (err (IoError.simple ErrorKind.would_block)) cn w = refl
  report_read-done out_n (err (IoError.simple ErrorKind.other)) cn w = refl

  report_write-done :
      (out_n : Ptr) (r : Io ℕ) (cn : Connection A B) (w : World O)
      → report_write out_n r (cn, w)
        ≡ done (write_status r) (cn, record w { mem = stored out_n r w.mem })
  report_write-done out_n (ok n) cn w = refl
  report_write-done out_n (err e) cn w = refl

  -- The boundary around a method of rustls and the report of its outcome.
  boundary-ended :
      (status : Io ℕ → RustlsResult) (p out_n : Ptr) (cn : Connection A B) (w u : World O)
      (m : Cmd (RustlsConnection A B × World O) (Io ℕ))
      (report : Io ℕ → Cmd (Connection A B × World O) RustlsResult)
      (body : Cmd (World O) RustlsResult)
      → ((r : Io ℕ) (cn' : Connection A B) (w' : World O)
          → report r (cn', w') ≡ done (status r) (cn', record w' { mem = stored out_n r w'.mem }))
      → body w ≡ give_back p ((with_conn m >>= report) (cn, u))
      → (run : Run (RustlsConnection A B × World O) (Io ℕ)) → m (cn.conn, u) ≡ run
      → ffi_panic_boundary body w ≡ ended status p out_n cn run
  boundary-ended status p out_n cn w u m report body reports is_body (done r (x, w')) e =
      boundary-done body w (
        is_body
        ∙ ap (give_back p)
            {y = done (status r)
              (record cn { conn = x }, record w' { mem = stored out_n r w'.mem })}
            (bind-done (with_conn m) report (with_conn-done m cn u e) ∙ reports r _ w'))
  boundary-ended status p out_n cn w u m report body reports is_body (panicked (x, w')) e =
      boundary-panicked body w (is_body ∙ ap (give_back p) (call-panicked m report cn u e))
  boundary-ended status p out_n cn w u m report body reports is_body fault e =
      boundary-fault body w (is_body ∙ ap (give_back p) (call-fault m report cn u e))

module _ {O A B S : Type 0} ⦃c : CastPtr O (Connection A B)⦄
    (rustls : RustlsApi A B S (World O)) where
  -- With a connection, a buffer and an `out_n`, a read and a write of plaintext end as rustls' method
  -- does. A success stores the number of bytes and returns Ok. An error stores nothing; a write
  -- returns Io for it, a read UnexpectedEof or PlaintextEmpty for errors of these two kinds and Io
  -- for any other. A panic returns Panic. In each case the connection is what rustls left.
  pub plaintext_lem :
      (p buf : Ptr) (count : ℕ) (out_n : Ptr) (cn : Connection A B) (w : World O)
      → p ≢ null
      → buf ≢ null
      → out_n ≢ null
      → w.heap p ≡ some (boxed (c.object cn))
      → (rustls_connection_read rustls p buf count out_n w
          ≡ ended read_status p out_n cn (rustls.reader_read buf count (cn.conn, lent p w)))
        × (rustls_connection_write rustls p buf count out_n w
            ≡ ended write_status p out_n cn
                (rustls.writer_write (slice_at buf count w) (cn.conn, lent p w)))
  unfolding rustls_connection_read rustls_connection_write try_slice
  plaintext_lem p buf count out_n cn w ne nb nout held =
      let z : (buf == null) ≡ false = ground arith in
      let y : (out_n == null) ≡ false = ground arith in
      (
        boundary-ended read_status p out_n cn w (lent p w) (rustls.reader_read buf count)
            (report_read out_n) _ (report_read-done out_n)
            (try_mut-boxed p cn w _ ne held ∙ rw (z, y) refl) _ refl,
        boundary-ended write_status p out_n cn w (lent p w)
            (rustls.writer_write (slice_at buf count w)) (report_write out_n) _
            (report_write-done out_n) (try_mut-boxed p cn w _ ne held ∙ rw (z, y) refl) _ refl,
      )
