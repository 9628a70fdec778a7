-- ===== src/Connection/Ending.antt =====
-- The end of a connection: C makes any calls on it, and frees it.
use rustls_ffi.Prelude.{Bool, ◌≡◌, false, ◌∙◌, ◌≢◌, ◌==◌, none, List, arith, if◌then◌else◌}
use rustls_ffi.Panic.{
  Run, done, panicked, fault, Cmd, pure, ◌>>=◌, ◌>>◌, unit_panic, ffi_panic_boundary,
}
use rustls_ffi.Panic.Boundary.{boundary-done, boundary-panicked, bind-done, then-done}
use rustls_ffi.Memory.{Ptr, null, is_null}
use rustls_ffi.Userdata.Nesting.{Nested-restores}
use rustls_ffi.World.{World}
use rustls_ffi.Ownership.{CastPtr, to_box}
use rustls_ffi.Ownership.Dropping.{gone, to_box-boxed}
use rustls_ffi.Ownership.Slots.{put_here, put_there}
use rustls_ffi.Io.{IoCallbacks}
use rustls_ffi.Log.{LogHost}
use rustls_ffi.Connection.State.{RustlsConnection, RustlsApi, StaticSuite, Connection}
use rustls_ffi.Connection.Plaintext.{drop_boxed, rustls_connection_free}
use rustls_ffi.Connection.Keeping.{IsKept, Kept, HasConnection}
use rustls_ffi.Connection.Script.{ConnectionCall, calls, IsWellBehaved}
use rustls_ffi.Connection.Life.{calls-Returns}

module _ {O : Type 0} (Others : Ptr → Type 0) (p : Ptr) where
  -- While nothing stands at p, the drop of rustls' connection puts nothing there and leaves the objects
  -- in `Others`, and it ends, in a panic or not, after properly nested calls on the thread's stack.
  abbrev pub DropsWell : {A B : Type 0} → (RustlsConnection A B → Cmd (World O) (Unit {0})) → Type 0
  DropsWell {A} {B} drop_connection =
      (x : RustlsConnection A B) (w : World O)
      → w.heap p ≡ none
      → Kept Others p w (drop_connection x w)

  -- Nothing stands at p; the other objects and the thread's stack are as before.
  pub record IsGone (w w' : World O) : Type 0 where
    pub nothing : w'.heap p ≡ none
    pub others : (q : Ptr) → Others q → q ≢ p → w'.heap q ≡ w.heap q
    pub local : w'.local ≡ w.local

  -- A command that ends so.
  abbrev pub Ends : Cmd (World O) (Unit {0}) → World O → Type 0
  Ends m w = (w' : World O) × (m w ≡ done tt w') × IsGone w w'

  dropped-IsGone : (w w' : World O) → IsKept Others p (gone p w) w' → IsGone w w'
  dropped-IsGone w w' kept = record {
    nothing = kept.here ∙ put_here p none w.heap;
    others = λ q h ne. kept.there q h ∙ put_there q p none w.heap ne;
    local = Nested-restores kept.nested;
  }

module _ {O A B : Type 0} ⦃c : CastPtr O (Connection A B)⦄
    (drop_connection : RustlsConnection A B → Cmd (World O) (Unit {0})) (Others : Ptr → Type 0)
    (p : Ptr) where
  module _ (drops : DropsWell Others p drop_connection) (ne : p ≢ null) where
    free-Ends :
        (w : World O)
        → HasConnection A B p w
        → Ends Others p (rustls_connection_free drop_connection p) w
    unfolding rustls_connection_free
    free-Ends w (cn, held) =
        let z : (p == null) ≡ false = ground arith in
        go (drop_connection cn.conn (gone p w)) (drops cn.conn (gone p w) (put_here p none w.heap))
          (rw z (
            bind-done (to_box {T = Connection A B} p) (drop_boxed drop_connection) {w = w}
              (to_box-boxed p cn w ne held)))
      where
        body : Cmd (World O) (Unit {0})
        body =
            if is_null p
            then pure tt
            else to_box {T = Connection A B} p >>= drop_boxed drop_connection

        go :
            (run : Run (World O) (Unit {0}))
            → Kept Others p (gone p w) run
            → body w ≡ run
            → Ends Others p (ffi_panic_boundary body) w
        go (done _ w') kept is = (w', boundary-done body w is, dropped-IsGone Others p w w' kept)
        go (panicked w') kept is =
            (w', boundary-panicked body w is, dropped-IsGone Others p w w' kept)
        go fault kept is = absurd kept

    module _ {S : Type 0} (rustls : RustlsApi A B S (World O)) (host : IoCallbacks (World O))
        (log : LogHost (World O)) (suite_eq : S → S → Bool)
        (all_cipher_suites : List (StaticSuite S))
        (behaved : IsWellBehaved rustls host log Others p) where
      -- A program makes any list of calls on a connection, with any arguments, NULLs among them, and
      -- frees it. If a connection stands at the pointer, which is not NULL, and rustls, the callbacks,
      -- the logger and the drop of rustls' connection are well-behaved, then the program returns, also
      -- when rustls or a callback panics; nothing is left at the pointer, the Rust objects that these
      -- keep are as they were, and so is the thread's stack of userdata.
      pub use_connection-Ends :
          (cs : List ConnectionCall) (w : World O)
          → HasConnection A B p w
          → Ends Others p
              (calls rustls host log suite_eq all_cipher_suites p cs
                >> rustls_connection_free drop_connection p)
              w
      use_connection-Ends cs w here =
          let (r, w1, ran, left) =
            calls-Returns rustls host log suite_eq all_cipher_suites Others p behaved ne cs w
              here in
          let (w2, freed, gone) = free-Ends w1 left.connection in
          (
            w2,
            then-done (calls rustls host log suite_eq all_cipher_suites p cs)
                (rustls_connection_free drop_connection p) w ran freed,
            record {
              nothing = gone.nothing;
              others = λ q h ne. gone.others q h ne ∙ left.others q h ne;
              local = gone.local ∙ left.local;
            },
          )
