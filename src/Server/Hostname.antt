-- ===== src/Server/Hostname.antt =====
-- The host name of a client hello, as C reads it.
use rustls_ffi.Prelude.{
  ℕ, ◌+◌, ◌≤◌, ◌<◌, ◌≡◌, refl, ◌≢◌, ◌⊎◌, inl, inr, Option, none, some, List, arith, ◌==◌, false,
  ◌∙◌, length,
}
use native.Mathlib.Decide.{ℕ_discrete, dec_lt}
use rustls_ffi.Panic.{done, result_null, result_panic}
use rustls_ffi.Panic.Boundary.{boundary-done}
use rustls_ffi.Memory.{
  Ptr, Memory, null, copy-Outside, write, copy, from_raw_parts, Outside, from_raw_parts-write,
  from_raw_parts-copy,
}
use rustls_ffi.Error.Codes.{RustlsResult}
use rustls_ffi.Slice.{Slice}
use rustls_ffi.World.{World}
use rustls_ffi.Ownership.{CastPtr, shared}
use rustls_ffi.Ownership.References.{try_ref-shared}
use rustls_ffi.Connection.State.{Connection, as_server}
use rustls_ffi.Server.{report_sni, rustls_server_connection_get_sni_hostname}

module _ {O : Type 0} where
  -- The three ways in which the host name is reported.
  pub data SniReport (sni : Option Slice) (buf : Ptr) (count : ℕ) (out_n : Ptr) (w : World O)
      : RustlsResult → World O → Type 0 where
    absent :
        sni ≡ none
        → SniReport sni buf count out_n w RustlsResult.ok (record w { mem = write out_n 0 w.mem })
    too_long :
        (name : Slice)
        → sni ≡ some name
        → count < length name.elems
        → SniReport sni buf count out_n w RustlsResult.insufficient_size
            (record w { mem = write out_n 0 w.mem })
    copied :
        (name : Slice) (w' : World O)
        → sni ≡ some name
        → length name.elems ≤ count
        → w'.mem out_n ≡ length name.elems
        → from_raw_parts buf (length name.elems) w'.mem ≡ name.elems
        → ((q : Ptr) → (w'.mem q ≡ w.mem q) ⊎ (q ≡ out_n) ⊎ ((buf ≤ q) × (q < buf + count)))
        → SniReport sni buf count out_n w RustlsResult.ok w'

copied_same :
    (xs : List ℕ) (buf : Ptr) (count : ℕ) (out_n : Ptr) (m : Memory) (q : Ptr)
    → length xs ≤ count
    → let m' = write out_n (length xs) (copy xs buf m) in
      (m' q ≡ m q) ⊎ (q ≡ out_n) ⊎ ((buf ≤ q) × (q < buf + count))
copied_same xs buf count out_n m q fits = elim (ℕ_discrete q out_n) [
  | yes h ↦ inr (inl h)
  | no ne ↦ elim (dec_lt q buf) [
    | yes below ↦ inl (ground (arith, copy-Outside xs buf m q))
    | no above ↦ elim (dec_lt q (buf + count)) [
      | yes inside ↦ inr (inr (omega arith, inside))
      | no past ↦ inl (ground (arith, copy-Outside xs buf m q))
    ]
  ]
]

module _ {O : Type 0} where
  report_sni-SniReport :
      (sni : Option Slice) (buf : Ptr) (count : ℕ) (out_n : Ptr) (w : World O)
      → Outside buf count out_n
      → (r : RustlsResult) × (w' : World O) × (report_sni sni buf count out_n w ≡ done r w')
        × SniReport sni buf count out_n w r w'
  report_sni-SniReport none buf count out_n w apart = (_, _, refl, absent refl)
  report_sni-SniReport (some name) buf count out_n w apart =
      elim (dec_lt count (length name.elems)) [
        | yes long ↦ (_, _, ground arith, too_long name refl long)
        | no fits ↦
            let m = copy name.elems buf w.mem in
            let n = length name.elems in
            (
              RustlsResult.ok,
              record w { mem = write out_n n m },
              ground arith,
              copied name _ refl (omega arith) (ground arith)
                  (from_raw_parts-write buf n m out_n n (omega arith)
                    ∙ from_raw_parts-copy name.elems buf w.mem)
                  (λ q. copied_same name.elems buf count out_n w.mem q (omega arith)),
            )
      ]

module _ {O A B : Type 0} ⦃c : CastPtr O (Connection A B)⦄ (sni_hostname : B → Option Slice) where
  -- A call for a server's connection, with a buffer and an `out_n` outside it, returns: Ok and a
  -- length of 0, if the client sent no host name; InsufficientSize and a length of 0, if the name is
  -- longer than the buffer; else Ok, with the name in the buffer and its length in `out_n`, and
  -- nothing outside the two changed.
  pub get_sni_hostname-SniReport :
      (p buf : Ptr) (count : ℕ) (out_n : Ptr) (cn : Connection A B) (s : B) (w : World O)
      → p ≢ null
      → buf ≢ null
      → out_n ≢ null
      → shared (w.heap p) ≡ some cn
      → as_server cn ≡ some s
      → Outside buf count out_n
      → (r : RustlsResult) × (w' : World O) × (rustls_server_connection_get_sni_hostname A
            sni_hostname p buf count out_n w
          ≡ done r w')
        × SniReport (sni_hostname s) buf count out_n w r w'
  unfolding rustls_server_connection_get_sni_hostname
  get_sni_hostname-SniReport p buf count out_n cn s w np nb nout held is_server apart =
      let z : (buf == null) ≡ false = ground arith in
      let y : (out_n == null) ≡ false = ground arith in
      let (r, w', e, report) = report_sni-SniReport (sni_hostname s) buf count out_n w apart in
      (r, w', boundary-done _ w (try_ref-shared p cn w _ np held ∙ rw (z, y, is_server) e), report)
