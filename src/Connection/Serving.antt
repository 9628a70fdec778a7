-- ===== src/Connection/Serving.antt =====
-- A connection from its making to its end, with any calls on it, after C has given up the
-- configuration that it holds an Arc of. `make` and `free_config` are the calls of server.rs or
-- client.rs that make the connection and give up the configuration.
use mathlib.Core.Path.{subst}
use rustls_ffi.Prelude.{
  false, ◌==◌, ℕ, Bool, ◌≡◌, sym, ap, ◌∙◌, ◌≢◌, fun_ext, arith, none, some, Option, List,
}
use rustls_ffi.Panic.{done, Cmd, ◌>>◌, ignoring, unit_null, unit_panic, result_null, result_panic}
use rustls_ffi.Panic.Boundary.{boundary-done, bind-done, then-done, ignoring-done}
use rustls_ffi.Memory.{Ptr, null, write}
use rustls_ffi.Error.Codes.{RustlsResult}
use rustls_ffi.World.{Slot, boxed, counted, Heap, World, put}
use rustls_ffi.Ownership.{CastPtr, to_box}
use rustls_ffi.Ownership.Arcs.{drop_owner}
use rustls_ffi.Ownership.Counts.{minus_all, Covered}
use rustls_ffi.Ownership.Slots.{at_each, put_here, put_there}
use rustls_ffi.Ownership.Dropping.{gone, to_box-boxed, drop_owner_last}
use rustls_ffi.Ownership.Handles.{with_references, with_handle}
use rustls_ffi.Io.{IoCallbacks}
use rustls_ffi.Log.{LogHost}
use rustls_ffi.Connection.State.{RustlsConnection, RustlsApi, StaticSuite, Connection}
use rustls_ffi.Connection.Plaintext.{drop_boxed, rustls_connection_free}
use rustls_ffi.Connection.Script.{ConnectionCall, calls, IsWellBehaved}
use rustls_ffi.Connection.Life.{calls-Returns}

-- Heaps that differ at an address only are the same without it.
same_without :
    {O : Type 0} (a : Ptr) (h h' : Heap O)
    → ((q : Ptr) → q ≢ a → h q ≡ h' q)
    → put a none h ≡ put a none h'
same_without a h h' same = fun_ext (
    at_each (λ q. put a none h q ≡ put a none h' q) a (put_here a none h ∙ sym (put_here a none h'))
      λ q ne. put_there q a none h ne ∙ (same q ne ∙ sym (put_there q a none h' ne)))

pub write_here : (p v : ℕ) (f : Ptr → ℕ) → write p v f p ≡ v
write_here p v f = ground arith

-- What is left of a heap.
pub rest_of :
    {O : Type 0} (p a : Ptr) (x y z : Option (Slot O)) (h : Heap O)
    → h a ≡ none
    → put p none (put a none (put p x (put a y (put p z h)))) ≡ put p none h
rest_of p a x y z h unused = fun_ext λ q. ground (arith, ap h)

-- A connection in a Box is freed by the drop of rustls' connection.
module _ {O A B : Type 0} ⦃m : CastPtr O (Connection A B)⦄
    (drop_connection : RustlsConnection A B → Cmd (World O) (Unit {0})) where
  pub free_boxed :
      (a : Ptr) (t : Connection A B) (w : World O)
      → a ≢ null
      → w.heap a ≡ some (boxed (m.object t))
      → {w' : World O} → drop_connection t.conn (gone a w) ≡ done tt w'
      → rustls_connection_free drop_connection a w ≡ done tt w'
  unfolding rustls_connection_free
  free_boxed a t w ne held e =
      let z : (a == null) ≡ false = ground arith in
      boundary-done _ w (
        rw z (
          bind-done (to_box {T = Connection A B} a) (drop_boxed drop_connection) {w = w}
            (to_box-boxed a t w ne held)
          ∙ e))

module _ {O A B S : Type 0} ⦃m : CastPtr O (Connection A B)⦄
    (drop_connection : RustlsConnection A B → Cmd (World O) (Unit {0}))
    (rustls : RustlsApi A B S (World O)) (host : IoCallbacks (World O)) (log : LogHost (World O))
    (suite_eq : S → S → Bool) (all_cipher_suites : List (StaticSuite S)) where
  -- The calls on the connection whose address stands at `conn_out`, and its end.
  abbrev pub served : (conn_out : Ptr) → List ConnectionCall → Cmd (World O) (Unit {0})
  served conn_out cs w =
      (calls rustls host log suite_eq all_cipher_suites (w.mem conn_out) cs
          >> rustls_connection_free drop_connection (w.mem conn_out))
        w

  -- C makes a connection, gives up the configuration, makes calls on the connection, and frees it.
  abbrev pub serve :
      (make : Cmd (World O) RustlsResult) (free_config : Cmd (World O) (Unit {0})) (conn_out : Ptr)
      → List ConnectionCall
      → Cmd (World O) (Unit {0})
  serve make free_config conn_out cs = ignoring make >> (free_config >> served conn_out cs)

  module _ {T : Type 0} ⦃c : CastPtr O T⦄ (config_arcs : T → List Ptr) (alloc : World O → Ptr)
      (make : Cmd (World O) RustlsResult) (free_config : Cmd (World O) (Unit {0})) where
    -- With a configuration `s` that C owns the only reference to.
    pub serve_lem :
        (p conn_out : Ptr) (s : T) (conn : Connection A B) (cs : List ConnectionCall) (w : World O)
        → w.heap p ≡ some (counted 1 (c.object s))
        → (let a = alloc (with_references p 2 s w) in
            (a ≢ null) × (w.heap a ≡ none) × IsWellBehaved rustls host log (λ q. q ≢ a) a)
        → make w ≡ done RustlsResult.ok (with_handle alloc conn_out conn (with_references p 2 s w))
        → ((w' : World O)
            → w'.heap p ≡ some (counted 2 (c.object s))
            → free_config w' ≡ done tt (with_references p 1 s w'))
        → ((x : RustlsConnection A B) (w' : World O)
            → drop_connection x w' ≡ drop_owner {T = T} config_arcs p w')
        → Covered (config_arcs s) (gone p w).heap
        → (w' : World O) × (serve make free_config conn_out cs w ≡ done tt w')
          × (w'.heap ≡ minus_all (config_arcs s) (gone p w).heap)
          × (w'.local ≡ w.local)
    serve_lem p conn_out s conn cs w held (nea, unused, behaved) made frees drops cover =
        let a = alloc (with_references p 2 s w) in
        let two : Option (Slot O) = some (counted 2 (c.object s)) in
        let one : Option (Slot O) = some (counted 1 (c.object s)) in
        let box : Option (Slot O) = some (boxed (m.object conn)) in
        let other : p ≢ a = λ e. ground (arith, ap w.heap e) in
        let w1 = with_handle {T = Connection A B} alloc conn_out conn (with_references p 2 s w) in
        let w2 = with_references p 1 s w1 in
        let (r, w3, ran, is_left) =
          calls-Returns rustls host log suite_eq all_cipher_suites (λ q. q ≢ a) a behaved nea cs w2
            (
              conn,
              put_there a p one w1.heap (λ e. other (sym e)) ∙ put_here a box (put p two w.heap),
            ) in
        let (cn, at_a) = is_left.connection in
        let called = λ (x : Ptr). calls rustls host log suite_eq all_cipher_suites x cs in
        let rest =
          ap (λ h. put p none h) (same_without a w3.heap w2.heap λ q ne. is_left.others q ne ne)
          ∙ rest_of p a one box two w.heap unused in
        (
          record w3 { heap = minus_all (config_arcs s) (put p none (put a none w3.heap)) },
          then-done (ignoring make) (free_config >> served conn_out cs) w
              (ignoring-done make w made)
              (then-done free_config (served conn_out cs) w1
                (frees w1 (put_there p a box (put p two w.heap) other ∙ put_here p two w.heap))
                (ap (λ x. (called x >> rustls_connection_free drop_connection x) w2)
                    (write_here conn_out a w.mem)
                  ∙ then-done (called a) (rustls_connection_free drop_connection a) w2 ran (
                      free_boxed drop_connection a cn w3 nea at_a (
                        drops cn.conn (gone a w3)
                        ∙ drop_owner_last config_arcs p s (gone a w3)
                            (put_there p a none w3.heap other
                              ∙ (is_left.others p other other ∙ put_here p one w1.heap))
                            (subst (Covered (config_arcs s)) (sym rest) cover))))),
          ap (minus_all (config_arcs s)) rest,
          is_left.local,
        )
