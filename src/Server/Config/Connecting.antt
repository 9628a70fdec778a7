-- ===== src/Server/Config/Connecting.antt =====
-- New server connections.
use rustls_ffi.Prelude.{ℕ, suc, ◌≡◌, ◌∙◌, ◌≢◌, ◌⊎◌, inl, inr, some, Result, ok, err, Result-cases}
use rustls_ffi.Panic.{done, pure, result_null, result_panic}
use rustls_ffi.Panic.Boundary.{boundary-done, bind-done}
use rustls_ffi.Memory.{Ptr, null}
use rustls_ffi.Error.Codes.{RustlsResult}
use rustls_ffi.Error.Mapping.{RustlsError, map_error}
use rustls_ffi.World.{counted, World}
use rustls_ffi.Ownership.{CastPtr, Arc, set_mut_ptr}
use rustls_ffi.Ownership.Arcs.{drop_owner}
use rustls_ffi.Ownership.Handles.{
  with_references, with_handle, set_mut_ptr_lem, try_arc-counted, drop_owner-retained,
}
use rustls_ffi.Connection.State.{Connection, from_server}
use rustls_ffi.Server.Config.{ServerConfig, config_arcs}
use rustls_ffi.Server.Config.Build.{connected, rustls_server_connection_new}

module _ {O Base K V V' : Type 0} (A : Type 0) {B : Type 0}
    ⦃c : CastPtr O (ServerConfig Base K V V')⦄ ⦃m : CastPtr O (Connection A B)⦄
    (alloc : World O → Ptr)
    (server_connection : Arc (ServerConfig Base K V V') → Result RustlsError B) where
  pub connection_made :
      (p conn_out : Ptr) (n : ℕ) (s : ServerConfig Base K V V') (sc : B) (w : World O)
      → p ≢ null
      → conn_out ≢ null
      → w.heap p ≡ some (counted (suc n) (c.object s))
      → server_connection (record { at = p; value = s }) ≡ ok sc
      → rustls_server_connection_new Base K V V' A alloc server_connection p conn_out w
        ≡ done RustlsResult.ok (
            with_handle alloc conn_out
              (from_server {A = A} sc)
              (with_references p (suc (suc n)) s w))
  unfolding rustls_server_connection_new
  connection_made p conn_out n s sc w ne out held q =
      let w' = with_references p (suc (suc n)) s w in
      boundary-done _ w (
        try_arc-counted p n s w
          (λ config. connected Base K V V' A alloc config conn_out (server_connection config)) ne
          held
        ∙ rw (q, connected)
            (bind-done (set_mut_ptr {T = Connection A B} alloc conn_out (from_server sc))
              (λ _. pure RustlsResult.ok) {w = w'}
              (set_mut_ptr_lem alloc conn_out (from_server sc) w' out)))

  -- With a configuration and a place for the result, the call either returns what `map_error` makes of
  -- rustls' error and leaves the whole state as it was, or returns Ok, has stored a new Connection of
  -- rustls' server connection in a Box and its address at `conn_out`, and has changed nothing else but
  -- that the configuration has one reference more.
  pub server_connection_new_lem :
      (p conn_out : Ptr) (n : ℕ) (s : ServerConfig Base K V V') (w : World O)
      → p ≢ null
      → conn_out ≢ null
      → w.heap p ≡ some (counted (suc n) (c.object s))
      → let run = rustls_server_connection_new Base K V V' A alloc server_connection p conn_out w in
        ((e : RustlsError) × (server_connection (record { at = p; value = s }) ≡ err e)
          × (run ≡ done (map_error e) w))
        ⊎ ((sc : B) × (server_connection (record { at = p; value = s }) ≡ ok sc)
            × (run
                ≡ done RustlsResult.ok (
                    with_handle alloc conn_out
                      (from_server {A = A} sc)
                      (with_references p (suc (suc n)) s w))))
  unfolding rustls_server_connection_new
  server_connection_new_lem p conn_out n s w ne out held =
      let config : Arc (ServerConfig Base K V V') = record { at = p; value = s } in
      let w' = with_references p (suc (suc n)) s w in
      let called =
        try_arc-counted p n s w
          (λ config. connected Base K V V' A alloc config conn_out (server_connection config)) ne
          held in
      elim (Result-cases (server_connection config)) [
        | inl (e, q) ↦ inl (
          e,
          q,
          boundary-done _ w (
              called
              ∙ rw (q, connected)
                  (bind-done (drop_owner {T = ServerConfig Base K V V'} config_arcs p)
                    (λ _. pure (map_error e)) {w = w'}
                    (drop_owner-retained config_arcs p n s w held))),
        )
        | inr (sc, q) ↦ inr (sc, q, connection_made p conn_out n s sc w ne out held q)
      ]
