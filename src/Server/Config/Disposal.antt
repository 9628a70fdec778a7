-- ===== src/Server/Config/Disposal.antt =====
-- A server connection keeps its configuration, which C may free before it.
use mathlib.Core.Path.{subst}
use rustls_ffi.Prelude.{◌≡◌, sym, ap, ◌∙◌, ◌≢◌, none, some, Option, Result, ok, arith}
use rustls_ffi.Panic.{
  done, pure, Cmd, ◌>>=◌, ◌>>◌, result_null, result_panic, unit_null, unit_panic,
}
use rustls_ffi.Panic.Boundary.{boundary-done, bind-done, then-done}
use rustls_ffi.Memory.{Ptr, null, write}
use rustls_ffi.Error.Codes.{RustlsResult}
use rustls_ffi.Error.Mapping.{RustlsError}
use rustls_ffi.World.{Slot, boxed, counted, World, put}
use rustls_ffi.Ownership.{CastPtr, Arc}
use rustls_ffi.Ownership.References.{try_ref-shared}
use rustls_ffi.Ownership.Arcs.{drop_owner}
use rustls_ffi.Ownership.Counts.{minus_all, Covered}
use rustls_ffi.Ownership.Slots.{put_here, put_there}
use rustls_ffi.Ownership.Dropping.{gone, drop_owner_last, drop_owner_shared}
use rustls_ffi.Ownership.Handles.{with_references, with_handle}
use rustls_ffi.Connection.State.{RustlsConnection, server, Connection, from_server}
use rustls_ffi.Connection.Plaintext.{rustls_connection_free}
use rustls_ffi.Connection.Serving.{free_boxed, rest_of, write_here}
use rustls_ffi.Server.Config.{ServerConfig, config_arcs}
use rustls_ffi.Server.Config.Connecting.{connection_made}
use rustls_ffi.Server.Config.Build.{rustls_server_connection_new, rustls_server_config_free}

module _ {O Base K V V' : Type 0} {A B : Type 0} ⦃c : CastPtr O (ServerConfig Base K V V')⦄
    ⦃m : CastPtr O (Connection A B)⦄ (alloc : World O → Ptr)
    (server_connection : Arc (ServerConfig Base K V V') → Result RustlsError B)
    (drop_connection : RustlsConnection A B → Cmd (World O) (Unit {0})) where
  pub free_shared :
      (p : Ptr) (s : ServerConfig Base K V V') (w : World O)
      → p ≢ null
      → w.heap p ≡ some (counted 2 (c.object s))
      → rustls_server_config_free Base K V V' p w ≡ done tt (with_references p 1 s w)
  unfolding rustls_server_config_free
  free_shared p s w ne held = boundary-done _ w (
      try_ref-shared p s w (λ _. drop_owner {T = ServerConfig Base K V V'} config_arcs p) ne
        (rw held (c.rust_type-object s))
      ∙ drop_owner_shared config_arcs p 0 s w held)

  -- C owns the only reference to a configuration, makes a connection at an unused address, frees the
  -- configuration, and then the connection that stands at `conn_out`. If rustls makes the connection,
  -- and its drop drops its Arc of the configuration, then all calls succeed, and in the end both objects
  -- are gone and the configuration's Arcs are dropped; but for these and the connection's address at
  -- `conn_out`, the state is as it was before.
  pub connection_free-config_free :
      (p conn_out : Ptr) (s : ServerConfig Base K V V') (sc : B) (w : World O)
      → p ≢ null
      → conn_out ≢ null
      → w.heap p ≡ some (counted 1 (c.object s))
      → (let at = alloc (with_references p 2 s w) in (at ≢ null) × (w.heap at ≡ none))
      → server_connection (record { at = p; value = s }) ≡ ok sc
      → ((w' : World O)
          → drop_connection (server sc) w'
            ≡ drop_owner {T = ServerConfig Base K V V'} config_arcs p w')
      → Covered (config_arcs s) (gone p w).heap
      → (rustls_server_connection_new Base K V V' A alloc server_connection p conn_out >>= λ r.
            rustls_server_config_free Base K V V' p
            >> (λ w. rustls_connection_free drop_connection (w.mem conn_out) w)
            >> pure r)
          w
        ≡ done RustlsResult.ok (record w {
          mem = write conn_out (alloc (with_references p 2 s w)) w.mem;
          heap = minus_all (config_arcs s) (gone p w).heap;
        })
  unfolding from_server
  connection_free-config_free p conn_out s sc w ne out held (nea, unused) made drops cover =
      let a = alloc (with_references p 2 s w) in
      let conn : Connection A B = from_server sc in
      let two : Option (Slot O) = some (counted 2 (c.object s)) in
      let one : Option (Slot O) = some (counted 1 (c.object s)) in
      let box : Option (Slot O) = some (boxed (m.object conn)) in
      let apart : a ≢ p = λ e. ground (arith, ap w.heap e) in
      let w1 = with_handle {T = Connection A B} alloc conn_out conn (with_references p 2 s w) in
      let w2 = with_references p 1 s w1 in
      let other : p ≢ a = λ e. apart (sym e) in
      let rest = rest_of p a one box two w.heap unused in
      let free_conn = λ (w : World O). rustls_connection_free drop_connection (w.mem conn_out) w in
      bind-done (rustls_server_connection_new Base K V V' A alloc server_connection p conn_out) _
        {w = w} (connection_made A alloc server_connection p conn_out 0 s sc w ne out held made)
      ∙ then-done (rustls_server_config_free Base K V V' p >> free_conn) (pure RustlsResult.ok) w1
          (then-done (rustls_server_config_free Base K V V' p) free_conn w1
            (free_shared p s w1 ne
              (put_there p a box (put p two w.heap) other ∙ put_here p two w.heap))
            (ap (λ x. rustls_connection_free drop_connection x w2) (write_here conn_out a w.mem)
              ∙ free_boxed drop_connection a conn w2 nea
                  (put_there a p one w1.heap apart ∙ put_here a box (put p two w.heap))
                  (drops (gone a w2)
                    ∙ drop_owner_last config_arcs p s (gone a w2)
                        (put_there p a none w2.heap other ∙ put_here p one w1.heap)
                        (subst (Covered (config_arcs s)) (sym rest) cover))))
          (ap
            (λ h.
              done RustlsResult.ok
                (record w { mem = write conn_out a w.mem; heap = minus_all (config_arcs s) h }))
            rest)
