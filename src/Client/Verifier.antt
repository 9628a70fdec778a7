-- ===== src/Client/Verifier.antt =====
-- The verifier that asks a C callback about a server's certificates.
use Prim.Native.String.{String}
use rustls_ffi.Prelude.{
  Bool-cases, ℕ, ◌≡◌, refl, ◌≢◌, ◌⊎◌, inl, inr, true, false, Result, ok, err, length,
}
use rustls_ffi.Panic.{Cmd, done}
use rustls_ffi.Memory.{Ptr}
use rustls_ffi.Error.Codes.{RustlsResult, code}
use rustls_ffi.Error.Mapping.{RustlsError, map_error}
use rustls_ffi.Error.Report.{rustls_result_is_cert_error}
use rustls_ffi.Slice.{Slice, RustlsStr, contains, str_try_from}
use rustls_ffi.Userdata.{FnPtr, UserdataError, userdata_get}
use rustls_ffi.World.{World}
use rustls_ffi.Client.{
  dns_name, other_name, ServerCert, VerifyServerCertParams, verify_for, verify_str, verify_name,
  verify_server_cert,
}

-- What rustls is told for the number that the callback returns.
abbrev pub Told : ℕ → Result RustlsError (Unit {0}) → Type 0
Told n v =
    ((n ≡ code RustlsResult.ok) × (v ≡ ok tt))
    ⊎ ((n ≢ code RustlsResult.ok)
        × (((rustls_result_is_cert_error n ≡ true)
              × ((e : RustlsError) × (v ≡ err e) × (code (map_error e) ≡ n)))
            ⊎ ((rustls_result_is_cert_error n ≡ false) × (v ≡ err (RustlsError.general "")))))

module _ {O : Type 0}
    (verify_callback : FnPtr → (userdata : Ptr) → VerifyServerCertParams → Cmd (World O) ℕ) where
  -- The name as C sees it.
  abbrev pub c_name : Slice → RustlsStr
  c_name n = record { chars = n.ptr; len = length n.elems }

  -- The verifier refuses a name that is no DNS name, one with a NUL byte, and any certificate while
  -- there is no userdata on the stack. It does not call the callback then: the state is as it was.
  pub verify_server_cert_refuses :
      (callback : FnPtr) (cert : ServerCert) (w : World O)
      → (cert.server_name ≡ other_name)
        ⊎ ((n : Slice) × (cert.server_name ≡ dns_name n)
            × ((contains n.elems 0 ≡ true)
                ⊎ ((e : UserdataError) × (userdata_get w.local ≡ (err e, w.local)))))
      → (text : String) × (verify_server_cert verify_callback callback cert w
          ≡ done (err (RustlsError.general text)) w)
  unfolding verify_server_cert str_try_from
  verify_server_cert_refuses callback cert w (inl e) =
      ("unknown name type", rw (e, verify_name) refl)
  verify_server_cert_refuses callback cert w (inr (n, e, inl nul)) =
      ("NUL byte in SNI", rw (e, verify_name) (rw (nul, verify_str) refl))
  verify_server_cert_refuses callback cert w (inr (n, e, inr (x, got))) =
      elim (Bool-cases (contains n.elems 0)) [
        | inl nul ↦ ("NUL byte in SNI", rw (e, verify_name) (rw (nul, verify_str) refl))
        | inr clean ↦ (
          "internal error with thread-local storage",
          rw (e, verify_name) (rw (clean, got, verify_str, verify_for) refl),
        )
      ]
