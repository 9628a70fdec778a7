-- ===== src/UnitTests/Guards.antt =====
-- lib.rs: the tests of the userdata stack. The addresses of their strings are parameters.
use rustls_ffi.Prelude.{Bool, true, false, ◌≡◌, ◌≢◌, none, [], Result, err, arith}
use rustls_ffi.Panic.{Cmd, done, ◌>>=◌, ◌>>◌}
use rustls_ffi.Memory.{Ptr}
use rustls_ffi.Userdata.{
  UserdataGuard, UserdataError, Local, guard_new, userdata_push, userdata_get, try_pop, try_drop,
  drop,
}
use rustls_ffi.UnitTests.{assert, assert_eq, assert_err, unwrap, runs}

-- `userdata_push(p, None).unwrap()`
abbrev push : Ptr → Cmd Local UserdataGuard
push p = runs (userdata_push p none) >>= unwrap

-- `assert_eq!(userdata_get().unwrap(), p)`
abbrev assert_top : Ptr → Cmd Local (Unit {0})
assert_top p = runs userdata_get >>= unwrap >>= λ got. assert_eq got p

-- `assert!(matches!(userdata_get(), Err(_)))`
abbrev assert_empty : Cmd Local (Unit {0})
assert_empty = runs userdata_get >>= assert_err

-- `guard.try_drop().unwrap()`
abbrev drop_now : UserdataGuard → Cmd Local (Unit {0})
drop_now g = runs (try_drop g) >>= unwrap

-- `guard.try_pop()`, and the guard after it
abbrev pop : UserdataGuard → Cmd Local (Result UserdataError (Unit {0}) × UserdataGuard)
pop g = runs (try_pop g)

-- The end of a guard's scope.
abbrev end_scope : UserdataGuard → Cmd Local (Unit {0})
end_scope g l = done tt (drop g l)

abbrev is_wrong_data : Result UserdataError (Unit {0}) → Bool
is_wrong_data (err UserdataError.wrong_data) = true
is_wrong_data _ = false

unfoldable guard_try_pop : (data_ptr : Ptr) → Cmd Local (Unit {0})
guard_try_pop data_ptr = do
  guard ← push data_ptr
  assert_top data_ptr
  first ← pop guard
  unwrap first.0
  second ← pop first.1
  assert_err second.0
  end_scope second.1

unfoldable guard_try_drop : (data_ptr : Ptr) → Cmd Local (Unit {0})
guard_try_drop data_ptr = do
  guard ← push data_ptr
  assert_top data_ptr
  drop_now guard
  assert_empty

unfoldable guard_drop : (data_ptr : Ptr) → Cmd Local (Unit {0})
guard_drop data_ptr = do guard ← push data_ptr; assert_top data_ptr; end_scope guard; assert_empty

unfoldable nested_guards : (hello_ptr yo_ptr : Ptr) → Cmd Local (Unit {0})
nested_guards hello_ptr yo_ptr = do
  guard ← push hello_ptr
  assert_top hello_ptr
  guard2 ← push yo_ptr
  assert_top yo_ptr
  drop_now guard2
  assert_top hello_ptr
  drop_now guard
  assert_empty

unfoldable out_of_order_drop : (hello_ptr yo_ptr : Ptr) → Cmd Local (Unit {0})
out_of_order_drop hello_ptr yo_ptr = do
  guard ← push hello_ptr
  assert_top hello_ptr
  guard2 ← push yo_ptr
  assert_top yo_ptr
  first ← runs (try_drop guard)
  assert (is_wrong_data first)
  second ← runs (try_drop guard2)
  assert (is_wrong_data second)

-- The thread that `userdata_multi_threads` spawns.
unfoldable thread1 : (yo_ptr greetz_ptr : Ptr) → Cmd Local (Unit {0})
thread1 yo_ptr greetz_ptr = do
  guard2 ← push yo_ptr
  assert_top yo_ptr
  guard3 ← push greetz_ptr
  assert_top greetz_ptr
  drop_now guard3
  assert_top yo_ptr
  drop_now guard2

-- A new thread.
abbrev fresh : Local
fresh = record { destroyed = false; borrowed = false; stack = [] }

module _ (p q : Ptr) where
  guard_try_pop_passes : guard_try_pop p fresh ≡ done tt fresh
  unfolding guard_try_pop userdata_push userdata_get try_pop drop guard_new
  guard_try_pop_passes = ground arith

  guard_try_drop_passes : guard_try_drop p fresh ≡ done tt fresh
  unfolding guard_try_drop userdata_push userdata_get try_drop guard_new
  guard_try_drop_passes = ground arith

  guard_drop_passes : guard_drop p fresh ≡ done tt fresh
  unfolding guard_drop userdata_push userdata_get drop guard_new
  guard_drop_passes = ground arith

  nested_guards_passes : nested_guards p q fresh ≡ done tt fresh
  unfolding nested_guards userdata_push userdata_get try_drop guard_new
  nested_guards_passes = ground arith

  thread1_passes : thread1 p q fresh ≡ done tt fresh
  unfolding thread1 userdata_push userdata_get try_drop guard_new
  thread1_passes = ground arith

  out_of_order_drop_passes : p ≢ q → out_of_order_drop p q fresh ≡ done tt fresh
  unfolding out_of_order_drop userdata_push userdata_get try_drop guard_new
  out_of_order_drop_passes ne = ground arith
