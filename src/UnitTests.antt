-- ===== src/UnitTests.antt =====
-- The unit tests that stand in the sources, as commands on the model: an assertion that fails, and an
-- `unwrap` of an error, is a panic. A test passes when it returns.
pub mod Guards
pub mod Texts
pub mod Configs
use rustls_ffi.Prelude.{
  ℕ, Bool, true, false, List, [], ◌∷◌, ◌&&◌, Result, ok, err, ◌==◌, if◌then◌else◌,
}
use rustls_ffi.Panic.{Cmd, done, pure, panic}

-- `assert!` and `assert_eq!`
abbrev pub assert : {W : Type 0} → Bool → Cmd W (Unit {0})
assert b = if b then pure tt else panic

abbrev pub assert_eq : {W : Type 0} → ℕ → ℕ → Cmd W (Unit {0})
assert_eq a b = assert (a == b)

abbrev pub unwrap : {W E A : Type 0} → Result E A → Cmd W A
unwrap (ok a) = pure a
unwrap (err e) = panic

-- `matches!(r, Err(_))`, asserted
abbrev pub assert_err : {W E A : Type 0} → Result E A → Cmd W (Unit {0})
assert_err (ok a) = panic
assert_err (err e) = pure tt

-- A call that only returns and changes the state.
abbrev pub runs : {W A : Type 0} → (W → A × W) → Cmd W A
runs f w = let (a, w') = f w in done a w'

-- Equality of texts and of lists of texts.
abbrev pub same : List ℕ → List ℕ → Bool
same [] [] = true
same (x ∷ xs) (y ∷ ys) = x == y && same xs ys
same _ _ = false

abbrev pub same_all : List (List ℕ) → List (List ℕ) → Bool
same_all [] [] = true
same_all (x ∷ xs) (y ∷ ys) = same x y && same_all xs ys
same_all _ _ = false

-- Whether a test returns.
abbrev pub passes : {W : Type 0} → Cmd W (Unit {0}) → W → Bool
passes test w = elim (test w) [ done _ _ ↦ true | _ ↦ false ]
