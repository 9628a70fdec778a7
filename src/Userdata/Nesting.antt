-- ===== src/Userdata/Nesting.antt =====
-- Calls that nest: between a push and the drop of its guard, other such calls may run, as they do
-- when a C callback calls back into the library.
use rustls_ffi.Prelude.{◌≡◌, refl, Option, ok, err, arith, ◌∙◌, sym, ap, ==_refl}
use rustls_ffi.Memory.{Ptr}
use rustls_ffi.Userdata.{
  FnPtr, UserdataGuard, UserdataError, Local, guard_new, userdata_push, userdata_get,
  log_callback_get, drop, try_drop,
}
use rustls_ffi.Userdata.Guards.{
  IsAvailable, pushed, push-pushed, get-push, try_drop-pushed, try_drop-try_pop,
}

-- What a thread's calls may do to its stack from the state `l` to the state `n`.
pub data Nested : Local → Local → Type 0 where
  idle : {l : Local} → Nested l l
  sequence : {l m n : Local} → Nested l m → Nested m n → Nested l n
  -- a push that fails
  refused :
      (u : Ptr) (cb : Option FnPtr) (e : UserdataError) {l n : Local}
      → userdata_push u cb l ≡ (err e, n)
      → Nested l n
  -- a push, other calls, and the guard's `try_drop`
  scope :
      (u : Ptr) (cb : Option FnPtr) (g : UserdataGuard) {l k m n : Local}
      → userdata_push u cb l ≡ (ok g, k)
      → Nested k m
      → n ≡ (try_drop g m).1
      → Nested l n
  -- a push, other calls, and a panic that drops the guard
  unwound :
      (u : Ptr) (cb : Option FnPtr) (g : UserdataGuard) {l k m n : Local}
      → userdata_push u cb l ≡ (ok g, k)
      → Nested k m
      → n ≡ drop g m
      → Nested l n

-- A push that succeeds has found the stack available.
push-ok :
    (u : Ptr) (cb : Option FnPtr) {g : UserdataGuard} {l k : Local}
    → userdata_push u cb l ≡ (ok g, k)
    → IsAvailable l × (g ≡ guard_new u) × (k ≡ pushed u cb l)
unfolding userdata_push
push-ok u cb h = ground arith

push-err :
    (u : Ptr) (cb : Option FnPtr) {e : UserdataError} {l k : Local}
    → userdata_push u cb l ≡ (err e, k)
    → k ≡ l
unfolding userdata_push
push-err u cb h = ground arith

-- The guard's drop, right after the push, undoes the push and reports success.
try_drop-push :
    (u : Ptr) (cb : Option FnPtr) {g : UserdataGuard} {l k : Local}
    → userdata_push u cb l ≡ (ok g, k)
    → try_drop g k ≡ (ok tt, l)
try_drop-push u cb {l} h =
    let (a, e, e') = push-ok u cb h in rw (e, e', try_drop-pushed u u cb l a, ==_refl u)

-- Whatever nested calls a thread makes, panics included, its stack is afterwards as it was before.
pub Nested-restores : {l n : Local} → Nested l n → n ≡ l
unfolding drop
Nested-restores idle = refl
Nested-restores (sequence {l} {m} {n} p q) = Nested-restores q ∙ Nested-restores p
Nested-restores (refused u cb e h) = push-err u cb h
Nested-restores (scope u cb g {l} {k} {m} {n} h inner e) =
    e ∙ (ap (λ x. (try_drop g x).1) (Nested-restores inner) ∙ ap (λ x. x.1) (try_drop-push u cb h))
Nested-restores (unwound u cb g {l} {k} {m} {n} h inner e) =
    e
    ∙ (ap (λ x. drop g x) (Nested-restores inner)
        ∙ (sym (ap (λ x. x.1) (try_drop-try_pop g k)) ∙ ap (λ x. x.1) (try_drop-push u cb h)))

-- After a push that succeeds and any nested calls, the getters still see the pushed pointer and
-- callback, and the guard's `try_drop` succeeds and restores the state before the push.
pub Nested-scope :
    (u : Ptr) (cb : Option FnPtr) {g : UserdataGuard} {l k m : Local}
    → userdata_push u cb l ≡ (ok g, k)
    → Nested k m
    → (userdata_get m ≡ (ok u, m))
      × (log_callback_get m ≡ (ok (cb, u), m))
      × (try_drop g m ≡ (ok tt, l))
Nested-scope u cb {g} {l} {k} {m} h inner =
    rw (Nested-restores inner) (got.0, got.1, try_drop-push u cb h)
  where
    got : (userdata_get k ≡ (ok u, k)) × (log_callback_get k ≡ (ok (cb, u), k))
    got =
        rw ((push-ok u cb h).2, ← (ap (λ x. x.1) (push-pushed u cb l (push-ok u cb h).0)))
          (get-push u cb l (push-ok u cb h).0)
