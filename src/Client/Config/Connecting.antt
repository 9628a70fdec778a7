-- ===== src/Client/Config/Connecting.antt =====
-- New client connections.
use rustls_ffi.Prelude.{
  ℕ, suc, ◌≡◌, ◌∙◌, ◌≢◌, ◌⊎◌, inl, inr, true, false, none, some, List, Result, ok, err,
  Result-cases, Option-cases, Bool-cases,
}
use rustls_ffi.Panic.{done, panic, pure, Cmd, ◌>>◌, result_null, result_panic}
use rustls_ffi.Panic.Boundary.{boundary-done, boundary-panicked, bind-done}
use rustls_ffi.Memory.{Ptr, null}
use rustls_ffi.Error.Codes.{RustlsResult}
use rustls_ffi.Error.Mapping.{RustlsError}
use rustls_ffi.World.{counted, World}
use rustls_ffi.Ownership.{CastPtr, Arc, set_mut_ptr}
use rustls_ffi.Ownership.Handles.{
  with_references, with_handle, set_mut_ptr_lem, try_arc-counted, drop_owner-retained,
}
use rustls_ffi.Connection.State.{Connection, from_client}
use rustls_ffi.Client.Config.{ClientConfig, choice_arcs}
use rustls_ffi.Client.Config.Build.{
  HostNames, drop_config, connected, connect_to, rustls_client_connection_new,
}

module _ {O Base K R : Type 0} {A : Type 0} (B : Type 0) {N : Type 0}
    ⦃c : CastPtr O (ClientConfig Base K R)⦄ ⦃m : CastPtr O (Connection A B)⦄ (alloc : World O → Ptr)
    (names : HostNames N)
    (client_connection : Arc (ClientConfig Base K R) → N → Result RustlsError A) where
  -- A rejected host name, or an error of rustls, ends with the result `r` and the state as it was.
  dropped :
      (p : Ptr) (n : ℕ) (s : ClientConfig Base K R) (w : World O) (k : Cmd (World O) RustlsResult)
      → w.heap p ≡ some (counted (suc n) (c.object s))
      → (drop_config Base K R p >> k) (with_references p (suc (suc n)) s w) ≡ k w
  dropped p n s w k held =
      bind-done (drop_config Base K R p) (λ _. k)
        (drop_owner-retained (λ c. choice_arcs c.cert_resolver) p n s w held)

  -- The case in which the connection is made.
  pub connection_made :
      (p conn_out : Ptr) (hostname : List ℕ) (n : ℕ) (s : ClientConfig Base K R) (sn : N)
      (client : A) (w : World O)
      → p ≢ null
      → conn_out ≢ null
      → w.heap p ≡ some (counted (suc n) (c.object s))
      → names.is_utf8 hostname ≡ true
      → names.server_name hostname ≡ some sn
      → client_connection (record { at = p; value = s }) sn ≡ ok client
      → rustls_client_connection_new Base K R B alloc names client_connection p
          (some hostname)
          conn_out
          w
        ≡ done RustlsResult.ok (
            with_handle alloc conn_out
              (from_client {B = B} client)
              (with_references p (suc (suc n)) s w))
  unfolding rustls_client_connection_new
  connection_made p conn_out hostname n s sn client w ne out held u e q =
      let w' = with_references p (suc (suc n)) s w in
      boundary-done _ w (
        try_arc-counted p n s w _ ne held
        ∙ rw (u, e, connect_to)
            (rw (q, connected)
              (bind-done (set_mut_ptr {T = Connection A B} alloc conn_out (from_client client))
                (λ _. pure RustlsResult.ok) {w = w'}
                (set_mut_ptr_lem alloc conn_out (from_client client) w' out))))

  -- With a configuration, a host name and a place for the result, there are three cases. The host name
  -- is not UTF-8 or no server name: the call returns InvalidDnsNameError. rustls makes no connection:
  -- the call panics inside, and returns Panic. In these two cases the whole state is as it was. Else the
  -- call returns Ok, has stored a new Connection of rustls' client connection in a Box and its address
  -- at `conn_out`, and has changed nothing else but that the configuration has one reference more.
  pub client_connection_new_lem :
      (p conn_out : Ptr) (hostname : List ℕ) (n : ℕ) (s : ClientConfig Base K R) (w : World O)
      → p ≢ null
      → conn_out ≢ null
      → w.heap p ≡ some (counted (suc n) (c.object s))
      → let run =
          rustls_client_connection_new Base K R B alloc names client_connection p
            (some hostname)
            conn_out
            w in
        (((names.is_utf8 hostname ≡ false) ⊎ (names.server_name hostname ≡ none))
          × (run ≡ done RustlsResult.invalid_dns_name_error w))
        ⊎ ((sn : N) × (names.is_utf8 hostname ≡ true)
            × (names.server_name hostname ≡ some sn)
            × (((e : RustlsError) × (client_connection (record { at = p; value = s }) sn ≡ err e)
                  × (run ≡ done RustlsResult.panic w))
                ⊎ ((client : A) × (client_connection (record { at = p; value = s }) sn ≡ ok client)
                    × (run
                        ≡ done RustlsResult.ok (
                            with_handle alloc conn_out
                              (from_client {B = B} client)
                              (with_references p (suc (suc n)) s w))))))
  unfolding rustls_client_connection_new
  client_connection_new_lem p conn_out hostname n s w ne out held =
      let config : Arc (ClientConfig Base K R) = record { at = p; value = s } in
      let w' = with_references p (suc (suc n)) s w in
      let called = λ (k : Arc (ClientConfig Base K R) → Cmd (World O) RustlsResult).
        try_arc-counted p n s w k ne held in
      elim (Bool-cases (names.is_utf8 hostname)) [
        | inr u ↦ inl (
          inl u,
          boundary-done _ w
              (called _ ∙ rw u (dropped p n s w (pure RustlsResult.invalid_dns_name_error) held)),
        )
        | inl u ↦ elim (Option-cases (names.server_name hostname)) [
          | inl e ↦ inl (
            inr e,
            boundary-done _ w (
                called _
                ∙ rw (u, e, connect_to)
                    (dropped p n s w (pure RustlsResult.invalid_dns_name_error) held)),
          )
          | inr (sn, e) ↦ inr (
            sn,
            u,
            e,
            elim (Result-cases (client_connection config sn)) [
              | inl (x, q) ↦ inl (
                x,
                q,
                boundary-panicked _ w (
                    called _
                    ∙ rw (u, e, connect_to) (rw (q, connected) (dropped p n s w panic held))),
              )
              | inr (client, q) ↦
                  inr (
                    client,
                    q,
                    connection_made p conn_out hostname n s sn client w ne out held u e q,
                  )
            ],
          )
        ]
      ]
