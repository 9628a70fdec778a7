-- ===== src/Connection/Bodies.antt =====
-- What the bodies of the calls on a connection keep while it is borrowed, for a well-behaved rustls and
-- well-behaved callbacks.
use rustls_ffi.Prelude.{
  List, [], ◌∷◌, ℕ, ◌≡◌, refl, arith, Option, none, some, Result, ok, err, ◌==◌, Bool, true, false,
  if◌then◌else◌,
}
use mathlib.Core.Option.{some-injective}
use mathlib.Core.Path.{subst}
use rustls_ffi.Panic.{
  Run, done, panicked, fault, Cmd, pure, ◌>>=◌, IoResult, io_result_null, NullParameterOrDefault,
}
use rustls_ffi.Memory.{Ptr, is_null}
use rustls_ffi.Error.Mapping.{RustlsError}
use rustls_ffi.Slice.{Slice}
use rustls_ffi.Userdata.{FnPtr, UserdataGuard, UserdataError, Local, userdata_push}
use rustls_ffi.Userdata.Nesting.{Nested}
use rustls_ffi.World.{borrowed, World, lift, on_local}
use rustls_ffi.Ownership.{CastPtr, try_callback, try_slice}
use rustls_ffi.Io.{
  Io, IoCallbacks, Callback, outcome, callback_read, callback_write, callback_writer,
  callback_write_vectored, vectored_callback_writer,
}
use rustls_ffi.Log.{LogHost}
use rustls_ffi.Connection.State.{RustlsConnection, RustlsApi, Connection, with_conn}
use rustls_ffi.Connection.Tls.{report_n, process_guarded, guarded_by}
use rustls_ffi.Connection.Plaintext.{read_error, report_read, report_read_buf, report_write}
use rustls_ffi.Connection.Keeping.{
  Kept, KeptBy, Keeps, KeepsBy, unmoved-IsKept, pure-Keeps, if-Keeps,
}
use rustls_ffi.Connection.Script.{IsKeptWriter, IsWellBehaved}

module _ {O : Type 0} (Others : Ptr → Type 0) (p : Ptr) where
  -- The adapters: a callback, and what its result is turned into.
  outcome-Keeps :
      (host : IoCallbacks (World O)) (m : Cmd (World O) (IoResult × ℕ))
      → Keeps Others p m
      → Keeps Others p (m >>= outcome host)
  outcome-Keeps host m keeps w e = go (m w) (keeps w e)
    where
      ended :
          (b : Bool) (x y : Io ℕ) (w' : World O)
          → Kept Others p w (done x w')
          → Kept Others p w ((if b then pure x else pure y) w')
      ended true x y w' k = k
      ended false x y w' k = k

      go :
          (run : Run (World O) (IoResult × ℕ))
          → Kept Others p w run
          → Kept Others p w (elim run [
            | done a w' ↦ outcome host a w'
            | panicked w' ↦ panicked w'
            | fault ↦ fault
          ])
      go (done (r, n) w') k = ended (r.errno == 0) _ _ w' k
      go (panicked w') k = k
      go fault k = k

  module _ {A B S : Type 0} {rustls : RustlsApi A B S (World O)} {host : IoCallbacks (World O)}
      {log : LogHost (World O)} (behaved : IsWellBehaved rustls host log Others p)
      (cb : Callback) where
    pub callback_read-Keeps : (buf : Ptr) (n : ℕ) → Keeps Others p (callback_read host cb buf n)
    unfolding callback_read
    callback_read-Keeps buf n =
        outcome-Keeps host _ (behaved.read_callback_kept cb.callback cb.userdata buf n 0)

    pub vectored_writer-Keeps : IsKeptWriter Others p (vectored_callback_writer host cb)
    unfolding vectored_callback_writer callback_write_vectored
    vectored_writer-Keeps = record {
      write_kept = λ s.
          outcome-Keeps host _
            (behaved.write_vectored_callback_kept cb.callback cb.userdata (s ∷ []) 1 0);
      flush_kept = λ w e. unmoved-IsKept Others p refl Nested.idle;
      write_vectored_kept = λ f is.
          subst (λ g. (bufs : List Slice) → Keeps Others p (g bufs)) (some-injective _ _ is)
            λ bufs.
              outcome-Keeps host _
                (behaved.write_vectored_callback_kept cb.callback cb.userdata bufs _ 0);
    }

    pub callback_writer-Keeps : IsKeptWriter Others p (callback_writer host cb)
    unfolding callback_writer callback_write
    callback_writer-Keeps = record {
      write_kept =
          λ s. outcome-Keeps host _ (behaved.write_callback_kept cb.callback cb.userdata s.ptr _ 0);
      flush_kept = λ w e. unmoved-IsKept Others p refl Nested.idle;
      write_vectored_kept = λ f is. absurd (ground arith);
    }

  module _ {A B : Type 0} where
    pub report_n-Keeps :
        (out_n : Ptr) (r : Io ℕ) → KeepsBy Others p {T = Connection A B} (report_n {O = O} out_n r)
    report_n-Keeps out_n (ok n) cn w e = unmoved-IsKept Others p refl Nested.idle
    report_n-Keeps out_n (err x) cn w e = unmoved-IsKept Others p refl Nested.idle

    pub report_read-Keeps :
        (out_n : Ptr) (r : Io ℕ)
        → KeepsBy Others p {T = Connection A B} (report_read {O = O} out_n r)
    unfolding read_error
    report_read-Keeps out_n (ok n) cn w e = unmoved-IsKept Others p refl Nested.idle
    report_read-Keeps out_n (err x) cn w e = unmoved-IsKept Others p refl Nested.idle

    pub report_read_buf-Keeps :
        (out_n : Ptr) (r : Io (Unit {0}) × ℕ)
        → KeepsBy Others p {T = Connection A B} (report_read_buf {O = O} out_n r)
    unfolding read_error
    report_read_buf-Keeps out_n (ok x, n) cn w e = unmoved-IsKept Others p refl Nested.idle
    report_read_buf-Keeps out_n (err x, n) cn w e = unmoved-IsKept Others p refl Nested.idle

    pub report_write-Keeps :
        (out_n : Ptr) (r : Io ℕ)
        → KeepsBy Others p {T = Connection A B} (report_write {O = O} out_n r)
    report_write-Keeps out_n (ok n) cn w e = unmoved-IsKept Others p refl Nested.idle
    report_write-Keeps out_n (err x) cn w e = unmoved-IsKept Others p refl Nested.idle

    module _ {R : Type 0} ⦃d : NullParameterOrDefault R⦄ where
      pub try_callback-Keeps :
          (cb : Option FnPtr) (k : FnPtr → Cmd (Connection A B × World O) R)
          → ((f : FnPtr) → KeepsBy Others p (k f))
          → KeepsBy Others p (try_callback cb k)
      unfolding try_callback
      try_callback-Keeps none k keeps = pure-Keeps Others p d.null_value
      try_callback-Keeps (some f) k keeps = keeps f

      pub try_slice-Keeps :
          (buf : Ptr) (k : Cmd (Connection A B × World O) R)
          → KeepsBy Others p k
          → KeepsBy Others p (try_slice buf k)
      unfolding try_slice
      try_slice-Keeps buf k keeps =
          if-Keeps Others p (is_null buf) _ k (pure-Keeps Others p d.null_value) keeps

module _ {O A B S : Type 0} ⦃c : CastPtr O (Connection A B)⦄ (Others : Ptr → Type 0) (p : Ptr)
    (rustls : RustlsApi A B S (World O))
    (packets : KeepsBy Others p rustls.process_new_packets) where
  -- The processing under a guard: whatever happens, the guard's scope is closed.
  guarded-Keeps :
      (u : Ptr) (cb : Option FnPtr) (g : UserdataGuard) (cn : Connection A B) (w : World O)
      (l : Local)
      → userdata_push u cb w.local ≡ (ok g, l)
      → w.heap p ≡ some borrowed
      → KeptBy Others p w (process_guarded rustls g (cn, record w { local = l }))
  unfolding process_guarded
  guarded-Keeps u cb g cn w l push e =
      go (rustls.process_new_packets (cn.conn, record w { local = l }))
        (packets cn.conn (record w { local = l }) e) refl
    where
      go :
          (run : Run (RustlsConnection A B × World O) (Result RustlsError (Unit {0})))
          → KeptBy Others p (record w { local = l }) run
          → rustls.process_new_packets (cn.conn, record w { local = l }) ≡ run
          → KeptBy Others p w (process_guarded rustls g (cn, record w { local = l }))
      go (done r (x, w')) k is =
          rw (is, KeptBy, with_conn, ◌>>=◌, lift, on_local)
            (record {
              here = k.here;
              there = k.there;
              nested = Nested.scope u cb g push k.nested refl;
            })
      go (panicked (x, w')) k is =
          rw (is, KeptBy, with_conn, ◌>>=◌, lift, on_local)
            (record {
              here = k.here;
              there = k.there;
              nested = Nested.unwound u cb g push k.nested refl;
            })
      go fault k is = absurd k

  pub packets-Keeps : KeepsBy Others p λ (cn, w).
      (lift (on_local (userdata_push cn.userdata cn.log_callback)) >>= guarded_by rustls) (cn, w)
  packets-Keeps cn w e = go (userdata_push cn.userdata cn.log_callback w.local) refl
    where
      go :
          (r : Result UserdataError UserdataGuard × Local)
          → userdata_push cn.userdata cn.log_callback w.local ≡ r
          → KeptBy Others p w (
              (lift (on_local (userdata_push cn.userdata cn.log_callback)) >>= guarded_by rustls)
                (cn, w))
      go (ok g, l) is =
          rw (is, KeptBy, ◌>>=◌, lift, on_local)
            (guarded-Keeps cn.userdata cn.log_callback g cn w l is e)
      go (err x, l) is =
          rw (is, KeptBy, ◌>>=◌, lift, on_local)
            (unmoved-IsKept Others p refl (Nested.refused cn.userdata cn.log_callback x is))
