-- ===== src/Userdata/Guards.antt =====
-- One guard: what it pops, once, and what it does not notice.
use rustls_ffi.Prelude.{
  ◌≡◌, refl, Bool, true, false, Option, none, some, List, [], ◌∷◌, ok, err, arith, ◌==◌,
  if◌then◌else◌,
}
use rustls_ffi.Memory.{Ptr}
use rustls_ffi.Userdata.{
  FnPtr, Userdata, UserdataGuard, UserdataError, Local, guard_new, userdata_push, userdata_get,
  log_callback_get, try_pop, try_drop,
}

-- The thread can use its stack.
pub record IsAvailable (l : Local) : Type 0 where
  pub alive : l.destroyed ≡ false
  pub free : l.borrowed ≡ false

-- The state with one more entry.
abbrev pub pushed : Ptr → Option FnPtr → Local → Local
pushed u cb l = record l { stack = record { userdata = u; log_callback = cb } ∷ l.stack }

pub push-pushed :
    (u : Ptr) (cb : Option FnPtr) (l : Local)
    → IsAvailable l
    → userdata_push u cb l ≡ (ok (guard_new u), pushed u cb l)
unfolding userdata_push
push-pushed u cb l a = ground arith

-- After a push on a thread that can use its stack, both getters see the pushed entry.
pub get-push :
    (u : Ptr) (cb : Option FnPtr) (l : Local)
    → IsAvailable l
    → let l' = (userdata_push u cb l).1 in
      (userdata_get l' ≡ (ok u, l')) × (log_callback_get l' ≡ (ok (cb, u), l'))
unfolding userdata_push userdata_get log_callback_get
get-push u cb l a = ground arith

try_drop_cases :
    (e : Option Userdata) (destroyed borrowed : Bool) (s : List Userdata)
    → let g : UserdataGuard = record { entry = e } in
      let l : Local = record { destroyed = destroyed; borrowed = borrowed; stack = s } in
      try_drop g l ≡ ((try_pop g l).0.0, (try_pop g l).1)
unfolding try_drop
try_drop_cases none destroyed borrowed s = refl
try_drop_cases (some d) true borrowed s = refl
try_drop_cases (some d) false true s = refl
try_drop_cases (some d) false false [] = refl
try_drop_cases (some d) false false (u ∷ s) = refl

-- The drop that ends `try_drop` pops nothing: whatever the guard and the state, `try_drop` gives
-- the result of its pop and leaves the state that its pop leaves.
pub try_drop-try_pop :
    (g : UserdataGuard) (l : Local) → try_drop g l ≡ ((try_pop g l).0.0, (try_pop g l).1)
try_drop-try_pop g l = try_drop_cases g.entry l.destroyed l.borrowed l.stack

pub try_pop-pushed :
    (u v : Ptr) (cb : Option FnPtr) (l : Local)
    → IsAvailable l
    → try_pop (guard_new u) (pushed v cb l)
      ≡ ((if v == u then ok tt else err UserdataError.wrong_data, record { entry = none }), l)
unfolding try_pop guard_new
try_pop-pushed u v cb l a = ground arith

pub try_drop-pushed :
    (u v : Ptr) (cb : Option FnPtr) (l : Local)
    → IsAvailable l
    → try_drop (guard_new u) (pushed v cb l)
      ≡ (if v == u then ok tt else err UserdataError.wrong_data, l)
try_drop-pushed u v cb l a = rw (try_drop-try_pop, try_pop-pushed u v cb l a)

-- Once a guard's pop has succeeded, popping it again fails and leaves the state as it is.
pub try_pop_twice :
    (g : UserdataGuard) (l : Local)
    → (try_pop g l).0.0 ≡ ok tt
    → let ((r, g'), l') = try_pop g l in
      try_pop g' l' ≡ ((err UserdataError.already_popped, g'), l')
unfolding try_pop
try_pop_twice g l h = cases g.entry l.destroyed l.borrowed l.stack h
  where
    cases :
        (e : Option Userdata) (destroyed borrowed : Bool) (s : List Userdata)
        → let g : UserdataGuard = record { entry = e } in
          let l : Local = record { destroyed = destroyed; borrowed = borrowed; stack = s } in
          (try_pop g l).0.0 ≡ ok tt
          → try_pop (try_pop g l).0.1 (try_pop g l).1
            ≡ ((err UserdataError.already_popped, (try_pop g l).0.1), (try_pop g l).1)
    cases none destroyed borrowed s h = cc
    cases (some d) true borrowed s h = cc
    cases (some d) false true s h = cc
    cases (some d) false false [] h = cc
    cases (some d) false false (u ∷ s) h = refl

-- On a thread that can use its stack, two guards are dropped in the wrong order, the first pushed
-- going first: each drop reports wrong data if the pointers differ and success if they do not, and
-- the stack is as before the pushes.
pub out_of_order :
    (u v : Ptr) (cb cb' : Option FnPtr) (l : Local)
    → IsAvailable l
    → let l₂ = (userdata_push v cb' (userdata_push u cb l).1).1 in
      let (r, l₁) = try_drop (guard_new u) l₂ in
      let (r', l₀) = try_drop (guard_new v) l₁ in
      (r ≡ (if v == u then ok tt else err UserdataError.wrong_data))
      × (r' ≡ (if u == v then ok tt else err UserdataError.wrong_data))
      × (l₀ ≡ l)
out_of_order u v cb cb' l a =
    rw
      (
        push-pushed u cb l a,
        push-pushed v cb' (pushed u cb l) (ground arith),
        try_drop-pushed u v cb' (pushed u cb l) (ground arith),
        try_drop-pushed v u cb l a,
      )
      (ground arith)

-- The guard compares userdata pointers only: when two connections share one pointer, on a thread
-- that can use its stack, an outer guard that is dropped first reports success, though it pops the
-- inner entry, with the other callback.
pub out_of_order_unnoticed :
    (u : Ptr) (cb cb' : Option FnPtr) (l : Local)
    → IsAvailable l
    → let l₂ = (userdata_push u cb' (userdata_push u cb l).1).1 in
      let (r, l₁) = try_drop (guard_new u) l₂ in
      (r ≡ ok tt)
      × (log_callback_get l₁ ≡ (ok (cb, u), l₁))
      × (log_callback_get l₂ ≡ (ok (cb', u), l₂))
unfolding log_callback_get
out_of_order_unnoticed u cb cb' l a =
    rw
      (
        push-pushed u cb l a,
        push-pushed u cb' (pushed u cb l) (ground arith),
        try_drop-pushed u u cb' (pushed u cb l) (ground arith),
      )
      (ground arith)
