-- ===== src/Panic.antt =====
-- panic.rs, and how a call into the library runs. `Run W A` is the outcome of a call on a state
-- `W`: it returns, it panics and unwinds from the state reached, or it runs into undefined
-- behaviour, after which nothing can be said. `Cmd W A` is the monad of such calls.
pub mod Boundary
use rustls_ffi.Prelude.{ℕ, Bool, false, Option, none}
use rustls_ffi.Error.Codes.{RustlsResult}

pub data Run (W A : Type 0) : Type 0 where
  done : A → W → Run W A
  panicked : W → Run W A
  fault : Run W A

abbrev pub Cmd : Type 0 → Type 0 → Type 0
Cmd W A = W → Run W A

module _ {W A : Type 0} where
  abbrev pub pure : A → Cmd W A
  pure a w = done a w

  abbrev pub panic : Cmd W A
  panic w = panicked w

  abbrev pub undefined : Cmd W A
  undefined w = fault

infixl 5 ◌>>=◌ ◌>>◌
abbrev pub ◌>>=◌ : {W A B : Type 0} → Cmd W A → (A → Cmd W B) → Cmd W B
◌>>=◌ m f w = elim (m w) [ done a w' ↦ f a w' | panicked w' ↦ panicked w' | fault ↦ fault ]

abbrev pub ◌>>◌ : {W B : Type 0} → Cmd W (Unit {0}) → Cmd W B → Cmd W B
m >> k = m >>= λ _. k

abbrev pub modify : {W : Type 0} → (W → W) → Cmd W (Unit {0})
modify f w = done tt (f w)

-- A caller that does not look at what a call returns.
abbrev pub ignoring : {W A : Type 0} → Cmd W A → Cmd W (Unit {0})
ignoring m = m >>= λ _. pure tt

-- `rustls_io_result(pub libc::c_int)`: 0 for success, or an errno.
pub record IoResult : Type 0 where
  pub errno : ℕ

-- libc's numbers on Linux. Nothing below uses more of them than that they are not 0.
abbrev pub einval : ℕ
einval = 22

abbrev pub eio : ℕ
eio = 5

abbrev pub io_result : ℕ → IoResult
io_result e = record { errno = e }

-- The trait `PanicOrDefault`: what a call returns after a panic.
pub record PanicOrDefault (A : Type 0) : Type 0 where
  pub panic_value : A

-- The trait `NullParameterOrDefault`: what a call returns when a parameter is NULL.
pub record NullParameterOrDefault (A : Type 0) : Type 0 where
  pub null_value : A

-- `u16`, `usize` and the pointers, whose NULL is 0.
instance abbrev pub number_panic : PanicOrDefault ℕ
number_panic = record { panic_value = 0 }

instance abbrev pub bool_panic : PanicOrDefault Bool
bool_panic = record { panic_value = false }

instance abbrev pub unit_panic : PanicOrDefault (Unit {0})
unit_panic = record { panic_value = tt }

instance abbrev pub option_panic : {A : Type 0} → PanicOrDefault (Option A)
option_panic = record { panic_value = none }

instance abbrev pub result_panic : PanicOrDefault RustlsResult
result_panic = record { panic_value = RustlsResult.panic }

instance abbrev pub io_result_panic : PanicOrDefault IoResult
io_result_panic = record { panic_value = io_result einval }

instance abbrev pub number_null : NullParameterOrDefault ℕ
number_null = record { null_value = 0 }

instance abbrev pub bool_null : NullParameterOrDefault Bool
bool_null = record { null_value = false }

instance abbrev pub unit_null : NullParameterOrDefault (Unit {0})
unit_null = record { null_value = tt }

instance abbrev pub option_null : {A : Type 0} → NullParameterOrDefault (Option A)
option_null = record { null_value = none }

instance abbrev pub result_null : NullParameterOrDefault RustlsResult
result_null = record { null_value = RustlsResult.null_parameter }

instance abbrev pub io_result_null : NullParameterOrDefault IoResult
io_result_null = record { null_value = io_result einval }

-- `ffi_panic_boundary!`: no panic leaves the call.
unfoldable pub ffi_panic_boundary : {W A : Type 0} ⦃d : PanicOrDefault A⦄ → Cmd W A → Cmd W A
ffi_panic_boundary ⦃d⦄ m w = elim (m w) [
  | done a w' ↦ done a w'
  | panicked w' ↦ done d.panic_value w'
  | fault ↦ fault
]
