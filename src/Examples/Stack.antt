-- ===== src/Examples/Stack.antt =====
-- The userdata stack on concrete states.
use rustls_ffi.Prelude.{◌≡◌, refl, none, some, ok}
use rustls_ffi.Userdata.{
  Local, guard_new, userdata_push, userdata_get, log_callback_get, try_pop, try_drop,
}
use rustls_ffi.Userdata.Guards.{pushed, push-pushed, out_of_order_unnoticed}
use rustls_ffi.Userdata.Nesting.{Nested, Nested-restores, Nested-scope}
use rustls_ffi.Examples.{idle_thread, idle_thread-IsAvailable, reentered}

abbrev pub inside : Local
inside = pushed 70 (some 5) idle_thread

-- A callback that calls back into the library once.
pub reentered-Nested : Nested inside (reentered inside)
unfolding userdata_push guard_new try_drop
reentered-Nested = Nested.scope 90 none (guard_new 90) refl Nested.idle refl

Nested-restores_example : reentered inside ≡ inside
Nested-restores_example = Nested-restores reentered-Nested

Nested-scope_example :
    (userdata_get (reentered inside) ≡ (ok 70, reentered inside))
    × (log_callback_get (reentered inside) ≡ (ok (some 5, 70), reentered inside))
    × (try_drop (guard_new 70) (reentered inside) ≡ (ok tt, idle_thread))
Nested-scope_example =
    Nested-scope 70 (some 5) (push-pushed 70 (some 5) idle_thread idle_thread-IsAvailable)
      reentered-Nested

try_pop_70 : (try_pop (guard_new 70) inside).0.0 ≡ ok tt
unfolding try_pop guard_new
try_pop_70 = refl

out_of_order_unnoticed_example :
    let l₂ = (userdata_push 70 (some 6) (userdata_push 70 (some 5) idle_thread).1).1 in
    let (r, l₁) = try_drop (guard_new 70) l₂ in
    (r ≡ ok tt)
    × (log_callback_get l₁ ≡ (ok (some 5, 70), l₁))
    × (log_callback_get l₂ ≡ (ok (some 6, 70), l₂))
out_of_order_unnoticed_example =
    out_of_order_unnoticed 70 (some 5) (some 6) idle_thread idle_thread-IsAvailable
