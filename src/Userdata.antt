-- ===== src/Userdata.antt =====
-- lib.rs: the stack of userdata pointers that each thread keeps, and its guards. `Local` is one
-- thread's `USERDATA`. The head of the list is the top of the stack, the last element of the Vec.
pub mod Nesting
pub mod Guards
use rustls_ffi.Prelude.{
  ℕ, Bool, true, false, Option, none, some, List, [], ◌∷◌, Result, ok, err, ◌==◌, if◌then◌else◌,
}
use rustls_ffi.Memory.{Ptr}

-- The address of a C function; a nullable one is an `Option`.
abbrev pub FnPtr : Type 0
FnPtr = ℕ

pub record Userdata : Type 0 where
  pub userdata : Ptr
  pub log_callback : Option FnPtr

pub record UserdataGuard : Type 0 where
  pub entry : Option Userdata

pub data UserdataError : Type 0 where
  already_popped already_borrowed empty_stack access_error wrong_data : UserdataError

-- `destroyed` says that the thread's destructors have run, `borrowed` that the RefCell is borrowed.
pub record Local : Type 0 where
  pub destroyed : Bool
  pub borrowed : Bool
  pub stack : List Userdata

-- `USERDATA.try_with(|userdata| userdata.try_borrow_mut().map_or_else(…, f))`
abbrev pub try_with : {A : Type 0} → (List Userdata → A × List Userdata) → A → A → Local → A × Local
try_with f destroyed borrowed l =
    if l.destroyed
    then (destroyed, l)
    else if l.borrowed
    then (borrowed, l)
    else (let (a, s) = f l.stack in (a, record l { stack = s }))

-- `UserdataGuard::new`
unfoldable pub guard_new : Ptr → UserdataGuard
guard_new u = record { entry = some (record { userdata = u; log_callback = none }) }

unfoldable pub userdata_push :
    Ptr → Option FnPtr → Local → Result UserdataError UserdataGuard × Local
unfolding guard_new
userdata_push u cb =
    try_with (λ s. (ok (guard_new u), record { userdata = u; log_callback = cb } ∷ s))
      (err UserdataError.access_error) (err UserdataError.already_borrowed)

abbrev pub last_userdata : List Userdata → Result UserdataError Ptr
last_userdata [] = err UserdataError.empty_stack
last_userdata (u ∷ s) = ok u.userdata

unfoldable pub userdata_get : Local → Result UserdataError Ptr × Local
userdata_get =
    try_with (λ s. (last_userdata s, s)) (err UserdataError.access_error)
      (err UserdataError.already_borrowed)

abbrev pub last_callback : List Userdata → Result UserdataError (Option FnPtr × Ptr)
last_callback [] = err UserdataError.empty_stack
last_callback (u ∷ s) = ok (u.log_callback, u.userdata)

unfoldable pub log_callback_get : Local → Result UserdataError (Option FnPtr × Ptr) × Local
log_callback_get =
    try_with (λ s. (last_callback s, s)) (err UserdataError.access_error)
      (err UserdataError.already_borrowed)

-- The result of a pop and the guard after it.
abbrev pub Popped : Type 0
Popped = Result UserdataError (Unit {0}) × UserdataGuard

-- The closure of `try_pop`: the guard is emptied once an entry is popped, also a wrong one.
abbrev pub pop_expected : UserdataGuard → Ptr → List Userdata → Popped × List Userdata
pop_expected g expected [] = ((err UserdataError.empty_stack, g), [])
pop_expected g expected (u ∷ s) = (
  (if u.userdata == expected then ok tt else err UserdataError.wrong_data, record { entry = none }),
  s,
)

abbrev pub try_pop_entry : Option Userdata → UserdataGuard → Local → Popped × Local
try_pop_entry none g l = ((err UserdataError.already_popped, g), l)
try_pop_entry (some d) g l =
    try_with (pop_expected g d.userdata) (err UserdataError.access_error, g)
      (err UserdataError.already_borrowed, g) l

unfoldable pub try_pop : UserdataGuard → Local → Popped × Local
try_pop g = try_pop_entry g.entry g

-- `Drop for UserdataGuard`
unfoldable pub drop : UserdataGuard → Local → Local
unfolding try_pop
drop g l = (try_pop g l).1

-- `try_drop` takes the guard by value, so the guard is dropped when it returns.
unfoldable pub try_drop : UserdataGuard → Local → Result UserdataError (Unit {0}) × Local
unfolding try_pop drop
try_drop g l = let ((r, g'), l') = try_pop g l in (r, drop g' l')
