-- ===== src/Server/Resolver.antt =====
-- The resolver that asks a C callback for the key of a client hello.
use rustls_ffi.Prelude.{◌≡◌, refl, ◌≢◌, ◌⊎◌, inl, inr, false, Option, none, some, ok, length, ◌∙◌}
use rustls_ffi.Panic.{done, pure, option_null}
use rustls_ffi.Panic.Boundary.{bind-done}
use rustls_ffi.Memory.{Ptr, null, copy, from_raw_parts, from_raw_parts-copy}
use rustls_ffi.Slice.{slice_u16, contains, str_try_from}
use rustls_ffi.Userdata.{userdata_get}
use rustls_ffi.World.{World}
use rustls_ffi.Ownership.{CastPtr, shared, try_ref_from_ptr}
use rustls_ffi.Ownership.References.{try_ref-shared, try_ref-null}
use rustls_ffi.Cipher.{CertifiedKey}
use rustls_ffi.Server.{ClientHello}
use rustls_ffi.Server.Callback.{
  ReceivedHello, HelloHost, ClientHelloResolver, name_of, mapped, resolve_with, resolve_for,
  resolve_named, resolve_hello,
}

module _ {O : Type 0} (host : HelloHost (World O)) where
  -- The state in which the callback is called: the numbers of the schemes stand in the memory.
  abbrev pub with_schemes : ReceivedHello → World O → World O
  with_schemes ch w = record w {
    mem = copy ch.signature_schemes (host.vec_at w ch.signature_schemes) w.mem;
  }

  -- The hello that the callback gets.
  abbrev pub hello_for : ReceivedHello → World O → ClientHello
  hello_for ch w =
      let name = name_of host ch in
      mapped host ch (record { chars = name.ptr; len = length name.elems }) w

module _ {O K : Type 0} ⦃k : CastPtr O (CertifiedKey K)⦄ (host : HelloHost (World O)) where
  named :
      (self : ClientHelloResolver) (ch : ReceivedHello) (u : Ptr) (w : World O)
      → contains (name_of host ch).elems 0 ≡ false
      → userdata_get w.local ≡ (ok u, w.local)
      → resolve_hello K host self ch w
        ≡ resolve_with K host self ch
            (record { chars = (name_of host ch).ptr; len = length (name_of host ch).elems })
            u
            w
  unfolding resolve_hello str_try_from
  named self ch u w clean got = rw (clean, got, resolve_named, resolve_for) refl

  -- The certified key at a pointer, or none at NULL.
  answered :
      (p : Ptr) (o : Option (CertifiedKey K)) (w : World O)
      → (((p ≡ null) × (o ≡ none))
          ⊎ ((key : CertifiedKey K) × (p ≢ null) × (shared (w.heap p) ≡ some key) × (o ≡ some key)))
      → try_ref_from_ptr {T = CertifiedKey K} p (λ key. pure (some key)) w ≡ done o w
  answered p o w (inl (e, eo)) = rw (e, eo) (try_ref-null w _)
  answered p o w (inr (key, ne, held, eo)) = rw eo (try_ref-shared p key w _ ne held)

  -- For a hello whose host name has no NUL byte, with userdata on the stack, the callback is called
  -- once, with that userdata and a hello through which it reads the numbers of the client's schemes.
  -- If it returns NULL there is no key; if it returns a pointer to a key, that key.
  pub resolve_hello_lem :
      (self : ClientHelloResolver) (ch : ReceivedHello) (u p : Ptr) (o : Option (CertifiedKey K))
      (w w' : World O)
      → contains (name_of host ch).elems 0 ≡ false
      → userdata_get w.local ≡ (ok u, w.local)
      → host.hello_callback self.callback u (hello_for host ch w) (with_schemes host ch w)
        ≡ done p w'
      → (((p ≡ null) × (o ≡ none))
          ⊎ ((key : CertifiedKey K) × (p ≢ null)
              × (shared (w'.heap p) ≡ some key)
              × (o ≡ some key)))
      → let s = (hello_for host ch w).signature_schemes in
        (from_raw_parts s.words s.len (with_schemes host ch w).mem ≡ ch.signature_schemes)
        × (resolve_hello K host self ch w ≡ done o w')
  unfolding slice_u16
  resolve_hello_lem self ch u p o w w' clean got ran answer = (
    from_raw_parts-copy ch.signature_schemes (host.vec_at w ch.signature_schemes) w.mem,
    named self ch u w clean got
        ∙ (bind-done (host.hello_callback self.callback u (hello_for host ch w))
              (λ key_ptr. try_ref_from_ptr {T = CertifiedKey K} key_ptr λ key. pure (some key)) ran
            ∙ answered p o w' answer),
  )
