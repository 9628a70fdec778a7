-- ===== src/Connection/Transfer.antt =====
-- The calls that move bytes: what they return and store, whatever rustls and the callbacks do.
use rustls_ffi.Prelude.{
  ℕ, ◌≤◌, ◌≡◌, refl, sym, ◌≢◌, ◌⊎◌, inl, inr, some, ok, err, arith, ◌==◌, if◌then◌else◌, ◌∙◌, ap,
  Bool-cases, ==_iff, true, false, unwrap_or,
}
use rustls_ffi.Panic.{
  Run, done, Cmd, IoResult, io_result, eio, io_result_null, io_result_panic, result_null,
  result_panic,
}
use rustls_ffi.Panic.Boundary.{boundary-done, bind-done}
use rustls_ffi.Memory.{Ptr, Memory, null, write}
use rustls_ffi.Userdata.{FnPtr}
use rustls_ffi.World.{boxed, borrowed, World, put, set_heap}
use rustls_ffi.Ownership.{CastPtr, give_back, try_callback}
use rustls_ffi.Ownership.References.{try_mut-boxed}
use rustls_ffi.Io.{Io, IoError, Reader, IoCallbacks, raw_os_error, callback_read}
use rustls_ffi.Connection.State.{RustlsConnection, RustlsApi, Connection, with_conn}
use rustls_ffi.Connection.Tls.{report_n, rustls_connection_read_tls}

module _ {A B W R : Type 0} (m : Cmd (RustlsConnection A B × W) R) (cn : Connection A B)
    (w : W) where
  -- A method of the inner connection leaves the rest of the outer one as it is.
  pub with_conn-done :
      {r : R} {x : RustlsConnection A B} {w' : W}
      → m (cn.conn, w) ≡ done r (x, w')
      → with_conn m (cn, w) ≡ done r (record cn { conn = x }, w')
  with_conn-done e = rw (e, with_conn)

-- The connection at `p` is borrowed for the time of a call.
abbrev pub lent : {O : Type 0} → Ptr → World O → World O
lent p w = set_heap w (put p (some borrowed) w.heap)

-- The state after the call: `x` is the connection that rustls left, and `mem` the memory.
abbrev pub returned :
    {O A B : Type 0}
    → ⦃c : CastPtr O (Connection A B)⦄ → Ptr
    → Connection A B
    → RustlsConnection A B
    → Memory
    → World O
    → World O
returned ⦃c⦄ p cn x mem w' = record w' {
  mem = mem;
  heap = put p (some (boxed (c.object (record cn { conn = x })))) w'.heap;
}

-- What the three calls for TLS bytes return, and what a call for bytes stores, for an outcome of
-- rustls.
abbrev pub io_status : Io ℕ → IoResult
io_status (ok n) = io_result 0
io_status (err e) = io_result (unwrap_or (raw_os_error e) eio)

-- A reader's outcome for a buffer of `n` bytes.
abbrev pub Fits : ℕ → Io ℕ → Type 0
Fits n (ok k) = k ≤ n
Fits n (err e) = Unit {0}

abbrev pub stored : Ptr → Io ℕ → Memory → Memory
stored out_n (ok n) m = write out_n n m
stored out_n (err e) m = m

module _ {O A B S : Type 0} ⦃c : CastPtr O (Connection A B)⦄ (rustls : RustlsApi A B S (World O))
    (host : IoCallbacks (World O)) where
  report_n-done :
      (out_n : Ptr) (r : Io ℕ) (cn : Connection A B) (w : World O)
      → report_n out_n r (cn, w) ≡ done (io_status r) (cn, record w { mem = stored out_n r w.mem })
  report_n-done out_n (ok n) cn w = refl
  report_n-done out_n (err e) cn w = refl

  read_tls-done :
      (p : Ptr) (cb : FnPtr) (userdata out_n : Ptr) (cn : Connection A B) (w w' : World O)
      (x : RustlsConnection A B) (r : Io ℕ)
      → p ≢ null
      → out_n ≢ null
      → w.heap p ≡ some (boxed (c.object cn))
      → rustls.read_tls
          (callback_read host (record { callback = cb; userdata = userdata }))
          (cn.conn, lent p w)
        ≡ done r (x, w')
      → rustls_connection_read_tls rustls host p (some cb) userdata out_n w
        ≡ done (io_status r) (returned p cn x (stored out_n r w'.mem) w')
  unfolding rustls_connection_read_tls try_callback
  read_tls-done p cb userdata out_n cn w w' x r ne nn e ran =
      let z : (out_n == null) ≡ false = ground arith in
      let rd = callback_read host (record { callback = cb; userdata = userdata }) in
      boundary-done _ w (
        try_mut-boxed p cn w _ ne e
        ∙ ap (give_back p)
            {y = done (io_status r)
              (record cn { conn = x }, record w' { mem = stored out_n r w'.mem })}
            (rw z (
              bind-done (with_conn (rustls.read_tls rd)) (report_n out_n)
                (with_conn-done (rustls.read_tls rd) cn _ ran)
              ∙ report_n-done out_n r (record cn { conn = x }) w')))

  -- The reader of a callback, in one call of it.
  callback_read-done :
      (cb : FnPtr) (userdata buf : Ptr) (n e k : ℕ) (w w' : World O)
      → host.read_callback cb userdata buf n 0 w ≡ done (io_result e, k) w'
      → callback_read host (record { callback = cb; userdata = userdata }) buf n w
        ≡ done (if e == 0 then ok k else err (IoError.os e (host.os_kind e))) w'
  unfolding callback_read
  callback_read-done cb userdata buf n e k w w' ran = ground arith

  -- rustls' `read_tls` makes one read, into a buffer of its own of `n` bytes, and passes on what the
  -- reader says. What the connection becomes depends on the bytes that the reader left and on its
  -- outcome. Nothing is said of a reader that claims more bytes than the buffer has.
  abbrev pub ReadsOnce :
      RustlsConnection A B → Ptr → ℕ → (World O → Io ℕ → RustlsConnection A B) → Type 0
  ReadsOnce conn buf n taken =
      (rd : Reader (World O)) (w w' : World O) (r : Io ℕ)
      → rd buf n w ≡ done r w'
      → Fits n r
      → rustls.read_tls rd (conn, w) ≡ done r (taken w' r, w')

  -- What the reader of a callback says for an errno and a count.
  abbrev pub io_answer : ℕ → ℕ → Io ℕ
  io_answer e k = if e == 0 then ok k else err (IoError.os e (host.os_kind e))

  io_answer-Fits : (n e k : ℕ) → (e ≡ 0 → k ≤ n) → Fits n (io_answer e k)
  io_answer-Fits n e k h = elim (Bool-cases (e == 0)) [
    | inl z ↦ rw z (h ((==_iff e 0).0 z))
    | inr nz ↦ rw nz tt
  ]

  -- With a connection, a place for the count, and a callback that returns, with no more bytes than
  -- the buffer has if it succeeds, and if rustls makes one read into its buffer and passes on the
  -- outcome: the errno that the callback returns is the result of `rustls_connection_read_tls`, also
  -- 0; exactly if it is 0, the count that the callback left is stored in `*out_n`; and the connection
  -- holds what rustls made of the bytes and the outcome, with its userdata and log callback.
  pub read_tls-callback :
      (p : Ptr) (cb : FnPtr) (userdata out_n buf : Ptr) (n e k : ℕ) (cn : Connection A B)
      (w w' : World O) (taken : World O → Io ℕ → RustlsConnection A B)
      → p ≢ null
      → out_n ≢ null
      → w.heap p ≡ some (boxed (c.object cn))
      → ReadsOnce cn.conn buf n taken
      → (e ≡ 0 → k ≤ n)
      → host.read_callback cb userdata buf n 0 (lent p w) ≡ done (io_result e, k) w'
      → rustls_connection_read_tls rustls host p (some cb) userdata out_n w
        ≡ done (io_result e) (
            returned p cn
              (taken w' (io_answer e k))
              (if e == 0 then write out_n k w'.mem else w'.mem)
              w')
  read_tls-callback p cb userdata out_n buf n e k cn w w' taken ne nn held once fits ran =
      read_tls-done p cb userdata out_n cn w w' _ _ ne nn held (
        once _ _ _ _ (callback_read-done cb userdata buf n e k _ w' ran)
          (io_answer-Fits n e k fits))
      ∙ cases (Bool-cases (e == 0))
    where
      cases :
          ((e == 0) ≡ true) ⊎ ((e == 0) ≡ false)
          → let r : Io ℕ = io_answer e k in
            let x = taken w' r in
            ◌≡◌ {A = Run (World O) IoResult}
              (done (io_status r) (returned p cn x (stored out_n r w'.mem) w'))
              (done
                (io_result e)
                (returned p cn x (if e == 0 then write out_n k w'.mem else w'.mem) w'))
      cases (inl z) = rw z (
          ap (λ j. done (io_result j) (returned p cn (taken w' (ok k)) (write out_n k w'.mem) w'))
            (sym ((==_iff e 0).0 z)))
      cases (inr nz) = rw nz
