-- ===== src/Server/Callback.antt =====
-- server.rs: `ClientHelloResolver`, which asks a C callback for the key of a client hello. What the
-- callback answers is the parameter `HelloHost`.
use rustls_ffi.Prelude.{ℕ, Option, none, some, List, [], Result, ok, err, unwrap_or}
use rustls_ffi.Panic.{Cmd, pure, modify, ◌>>=◌, ◌>>◌, option_null}
use rustls_ffi.Memory.{Ptr, copy}
use rustls_ffi.Slice.{Slice, RustlsStr, NulByte, slice_u16, str_try_from}
use rustls_ffi.Userdata.{FnPtr, UserdataError, userdata_get}
use rustls_ffi.World.{World, on_memory, on_local}
use rustls_ffi.Ownership.{CastPtr, try_ref_from_ptr}
use rustls_ffi.Cipher.{CertifiedKey}
use rustls_ffi.Server.{ClientHello}

-- `rustls::server::ClientHello`, its signature schemes as numbers.
pub record ReceivedHello : Type 0 where
  pub server_name : Option Slice
  pub signature_schemes : List ℕ
  pub alpn : Option (List Slice)

pub record HelloHost (W : Type 0) : Type 0 where
  -- the pointer to a certified key, or NULL
  pub hello_callback : FnPtr → (userdata : Ptr) → ClientHello → Cmd W Ptr
  -- where the numbers of the schemes are collected, and where the empty string lies
  pub vec_at : W → List ℕ → Ptr
  pub empty_at : Ptr

pub record ClientHelloResolver : Type 0 where
  pub callback : FnPtr

module _ {O : Type 0} (host : HelloHost (World O)) where
  -- `Some(c) => c, None => ""`
  abbrev pub name_of : ReceivedHello → Slice
  name_of client_hello =
      unwrap_or client_hello.server_name (record { ptr = host.empty_at; elems = [] })

  -- The hello for C.
  abbrev pub mapped : ReceivedHello → RustlsStr → World O → ClientHello
  mapped client_hello sni_name w = record {
    sni_name = sni_name;
    signature_schemes = slice_u16 (record {
      ptr = host.vec_at w client_hello.signature_schemes;
      elems = client_hello.signature_schemes;
    });
    alpn = record { inner = unwrap_or client_hello.alpn [] };
  }

module _ {O : Type 0} (K : Type 0) ⦃k : CastPtr O (CertifiedKey K)⦄
    (host : HelloHost (World O)) where
  -- The call of the callback. The key that it gives is copied.
  abbrev pub resolve_with :
      ClientHelloResolver
      → ReceivedHello
      → RustlsStr
      → (userdata : Ptr) → Cmd (World O) (Option (CertifiedKey K))
  resolve_with self client_hello sni_name userdata w =
      (on_memory (
            modify
              (copy client_hello.signature_schemes (host.vec_at w client_hello.signature_schemes)))
          >> (host.hello_callback self.callback userdata (mapped host client_hello sni_name w)
              >>= λ key_ptr.
                  try_ref_from_ptr {T = CertifiedKey K} key_ptr
                    λ certified_key. pure (some certified_key)))
        w

  abbrev pub resolve_for :
      ClientHelloResolver
      → ReceivedHello
      → RustlsStr
      → Result UserdataError Ptr
      → Cmd (World O) (Option (CertifiedKey K))
  resolve_for self client_hello sni_name (ok u) = resolve_with self client_hello sni_name u
  resolve_for self client_hello sni_name (err e) = pure none

  abbrev pub resolve_named :
      ClientHelloResolver
      → ReceivedHello
      → Result NulByte RustlsStr
      → Cmd (World O) (Option (CertifiedKey K))
  resolve_named self client_hello (ok sni_name) =
      on_local userdata_get >>= resolve_for self client_hello sni_name
  resolve_named self client_hello (err e) = pure none

  -- `ResolvesServerCert for ClientHelloResolver`
  unfoldable pub resolve_hello :
      ClientHelloResolver → ReceivedHello → Cmd (World O) (Option (CertifiedKey K))
  resolve_hello self client_hello =
      resolve_named self client_hello (str_try_from (name_of host client_hello))
