-- ===== src/Panic/Boundary.antt =====
-- Laws of `ffi_panic_boundary!`.
use rustls_ffi.Prelude.{◌≡◌, ◌∙◌, ◌≢◌, arith}
use rustls_ffi.Panic.{
  done, panicked, fault, Cmd, PanicOrDefault, Run, ffi_panic_boundary, ◌>>=◌, ◌>>◌, ignoring, pure,
}

module _ {W A : Type 0} ⦃d : PanicOrDefault A⦄ (m : Cmd W A) (w : W) where
  pub boundary-done : {a : A} {w' : W} → m w ≡ done a w' → ffi_panic_boundary m w ≡ done a w'
  unfolding ffi_panic_boundary
  boundary-done e = rw (e, ffi_panic_boundary)

  -- A panic ends at the boundary: the call returns the type's value, from the state reached.
  pub boundary-panicked :
      {w' : W} → m w ≡ panicked w' → ffi_panic_boundary m w ≡ done d.panic_value w'
  unfolding ffi_panic_boundary
  boundary-panicked e = rw (e, ffi_panic_boundary)

  pub boundary-fault : m w ≡ fault → ffi_panic_boundary m w ≡ fault
  unfolding ffi_panic_boundary
  boundary-fault e = rw (e, ffi_panic_boundary)

  pub boundary-ne-panicked : (w' : W) → ffi_panic_boundary m w ≢ panicked w'
  unfolding ffi_panic_boundary
  boundary-ne-panicked w' e = ground arith

module _ {W A B : Type 0} (m : Cmd W A) (f : A → Cmd W B) {w : W} where
  -- One step of a chain of calls.
  pub bind-done : {a : A} {w' : W} → m w ≡ done a w' → (m >>= f) w ≡ f a w'
  bind-done e = rw (e, ◌>>=◌)

module _ {W A : Type 0} (m : Cmd W A) (w : W) where
  pub ignoring-done : {a : A} {w' : W} → m w ≡ done a w' → ignoring m w ≡ done tt w'
  ignoring-done e = bind-done m (λ _. pure tt) {w = w} e

module _ {W B : Type 0} where
  pub then-done :
      (m : Cmd W (Unit {0})) (k : Cmd W B) (w : W) {w' : W} {r : Run W B}
      → m w ≡ done tt w'
      → k w' ≡ r
      → (m >> k) w ≡ r
  then-done m k w e e' = bind-done m (λ _. k) {w = w} e ∙ e'
