-- ===== src/Connection/Keeping.antt =====
-- Calls on a connection that run while it is borrowed: what rustls and the callbacks of C may do to
-- the rest of the state, and how this carries over to the calls of connection.rs.
use rustls_ffi.Prelude.{Bool, ◌≡◌, refl, ap, ◌∙◌, ◌≢◌, some, if◌then◌else◌, true, false}
use rustls_ffi.Panic.{
  Run, done, panicked, fault, Cmd, pure, ◌>>=◌, PanicOrDefault, NullParameterOrDefault,
  ffi_panic_boundary,
}
use rustls_ffi.Panic.Boundary.{boundary-done, boundary-panicked}
use rustls_ffi.Memory.{Ptr, null}
use rustls_ffi.Userdata.Nesting.{Nested, Nested-restores}
use rustls_ffi.World.{boxed, borrowed, World, put, lift}
use rustls_ffi.Ownership.{CastPtr, give_back, try_mut_from_ptr}
use rustls_ffi.Ownership.References.{try_mut-boxed}
use rustls_ffi.Ownership.Slots.{put_here, put_there}
use rustls_ffi.Connection.State.{RustlsConnection, Connection, with_conn}

module _ {O : Type 0} (Others : Ptr → Type 0) (p : Ptr) where
  -- What stands at p and at the addresses in `Others` is as it was, and the calls on the thread's stack
  -- were properly nested.
  pub record IsKept (w w' : World O) : Type 0 where
    pub here : w'.heap p ≡ w.heap p
    pub there : (q : Ptr) → Others q → w'.heap q ≡ w.heap q
    pub nested : Nested w.local w'.local

  -- A run that does not end in undefined behaviour, and keeps these.
  abbrev pub Kept : {R : Type 0} → World O → Run (World O) R → Type 0
  Kept w (done r w') = IsKept w w'
  Kept w (panicked w') = IsKept w w'
  Kept w fault = ⊥

  abbrev pub KeptBy : {T R : Type 0} → World O → Run (T × World O) R → Type 0
  KeptBy w (done r s) = IsKept w s.1
  KeptBy w (panicked s) = IsKept w s.1
  KeptBy w fault = ⊥

  pub unmoved-IsKept : {w w' : World O} → w'.heap ≡ w.heap → Nested w.local w'.local → IsKept w w'
  unmoved-IsKept e n = record { here = ap (λ h. h p) e; there = λ q _. ap (λ h. h q) e; nested = n }

  sequence-IsKept : {w v u : World O} → IsKept w v → IsKept v u → IsKept w u
  sequence-IsKept x y = record {
    here = y.here ∙ x.here;
    there = λ q h. y.there q h ∙ x.there q h;
    nested = Nested.sequence x.nested y.nested;
  }

  -- Every run is so while p is borrowed.
  abbrev pub Keeps : {R : Type 0} → Cmd (World O) R → Type 0
  Keeps m = (w : World O) → w.heap p ≡ some borrowed → Kept w (m w)

  abbrev pub KeepsBy : {T R : Type 0} → Cmd (T × World O) R → Type 0
  KeepsBy {T} m = (t : T) (w : World O) → w.heap p ≡ some borrowed → KeptBy w (m (t, w))

  kept_after :
      {T R : Type 0} (w w' : World O) (run : Run (T × World O) R)
      → IsKept w w'
      → KeptBy w' run
      → KeptBy w run
  kept_after w w' (done r s) x k = sequence-IsKept x k
  kept_after w w' (panicked s) x k = sequence-IsKept x k
  kept_after w w' fault x k = k

  module _ {T R : Type 0} where
    pub pure-Keeps : (r : R) → KeepsBy {T = T} (pure r)
    pure-Keeps r t w e = unmoved-IsKept refl Nested.idle

    pub bind-Keeps :
        {S : Type 0} (m : Cmd (T × World O) S) (f : S → Cmd (T × World O) R)
        → KeepsBy m
        → ((s : S) → KeepsBy (f s))
        → KeepsBy (m >>= f)
    bind-Keeps {S} m f first later t w e = go (m (t, w)) (first t w e)
      where
        go :
            (run : Run (T × World O) S)
            → KeptBy w run
            → KeptBy w (elim run [ done a s ↦ f a s | panicked s ↦ panicked s | fault ↦ fault ])
        go (done a (t', w')) k = kept_after w w' (f a (t', w')) k (later a t' w' (k.here ∙ e))
        go (panicked s) k = k
        go fault k = k

    pub lift-Keeps : (m : Cmd (World O) R) → Keeps m → KeepsBy {T = T} (lift m)
    lift-Keeps m keeps t w e = go (m w) (keeps w e)
      where
        go :
            (run : Run (World O) R)
            → Kept w run
            → KeptBy {T = T} w (elim run [
              | done a w' ↦ done a (t, w')
              | panicked w' ↦ panicked (t, w')
              | fault ↦ fault
            ])
        go (done a w') k = k
        go (panicked w') k = k
        go fault k = k

    pub if-Keeps :
        (b : Bool) (m n : Cmd (T × World O) R)
        → KeepsBy m
        → KeepsBy n
        → KeepsBy (if b then m else n)
    if-Keeps true m n x y = x
    if-Keeps false m n x y = y

  module _ {A B R : Type 0} where
    pub with_conn-Keeps :
        (m : Cmd (RustlsConnection A B × World O) R) → KeepsBy m → KeepsBy (with_conn m)
    with_conn-Keeps m keeps cn w e = go (m (cn.conn, w)) (keeps cn.conn w e)
      where
        go :
            (run : Run (RustlsConnection A B × World O) R)
            → KeptBy w run
            → KeptBy {T = Connection A B} w (elim run [
              | done r (conn, w') ↦ done r (record cn { conn = conn }, w')
              | panicked (conn, w') ↦ panicked (record cn { conn = conn }, w')
              | fault ↦ fault
            ])
        go (done r s) k = k
        go (panicked s) k = k
        go fault k = k

-- A connection stands at p.
abbrev pub HasConnection :
    {O : Type 0} (A B : Type 0) ⦃c : CastPtr O (Connection A B)⦄ → Ptr → World O → Type 0
HasConnection A B ⦃c⦄ p w = (cn : Connection A B) × (w.heap p ≡ some (boxed (c.object cn)))

module _ {O : Type 0} (A B : Type 0) ⦃c : CastPtr O (Connection A B)⦄ (Others : Ptr → Type 0)
    (p : Ptr) where
  -- How a call on the connection at p leaves the state: with a connection at p, the other objects and
  -- the thread's stack as before.
  pub record IsLeft (w w' : World O) : Type 0 where
    pub connection : HasConnection A B p w'
    pub others : (q : Ptr) → Others q → q ≢ p → w'.heap q ≡ w.heap q
    pub local : w'.local ≡ w.local

  -- A call that returns so.
  abbrev pub Returns : {R : Type 0} → Cmd (World O) R → World O → Type 0
  Returns {R} m w = (r : R) × (w' : World O) × (m w ≡ done r w') × IsLeft w w'

  pub unmoved-IsLeft :
      (w w' : World O) → HasConnection A B p w → w'.heap ≡ w.heap → w'.local ≡ w.local → IsLeft w w'
  unmoved-IsLeft w w' (cn, held) e l = record {
    connection = (cn, ap (λ h. h p) e ∙ held);
    others = λ q _ _. ap (λ h. h q) e;
    local = l;
  }

  pub sequence-IsLeft : {w v u : World O} → IsLeft w v → IsLeft v u → IsLeft w u
  sequence-IsLeft x y = record {
    connection = y.connection;
    others = λ q h ne. y.others q h ne ∙ x.others q h ne;
    local = y.local ∙ x.local;
  }

  -- The end of a borrow.
  pub given_back-IsLeft :
      (w w' : World O) (cn : Connection A B)
      → IsKept Others p (record w { heap = put p (some borrowed) w.heap }) w'
      → IsLeft w (record w' { heap = put p (some (boxed (c.object cn))) w'.heap })
  given_back-IsLeft w w' cn kept = record {
    connection = (cn, put_here p (some (boxed (c.object cn))) w'.heap);
    others = λ q h ne.
        put_there q p (some (boxed (c.object cn))) w'.heap ne
        ∙ (kept.there q h ∙ put_there q p (some borrowed) w.heap ne);
    local = Nested-restores kept.nested;
  }

  module _ {R : Type 0} ⦃d : NullParameterOrDefault R⦄ (k : Cmd (Connection A B × World O) R)
      (keeps : KeepsBy Others p k) where
    -- Also when it panics.
    pub mut-Returns :
        ⦃e : PanicOrDefault R⦄
        → (w : World O) → p ≢ null
        → HasConnection A B p w
        → Returns (ffi_panic_boundary (try_mut_from_ptr {T = Connection A B} p k)) w
    mut-Returns ⦃e⦄ w ne (cn, held) =
        let lent = record w { heap = put p (some borrowed) w.heap } in
        go (k (cn, lent)) (keeps cn lent (put_here p (some borrowed) w.heap))
          (try_mut-boxed p cn w k ne held)
      where
        go :
            (run : Run (Connection A B × World O) R)
            → KeptBy Others p (record w { heap = put p (some borrowed) w.heap }) run
            → try_mut_from_ptr {T = Connection A B} p k w ≡ give_back p run
            → Returns (ffi_panic_boundary (try_mut_from_ptr {T = Connection A B} p k)) w
        go (done r (cn', w')) kept is =
            (r, _, boundary-done _ w is, given_back-IsLeft w w' cn' kept)
        go (panicked (cn', w')) kept is =
            (e.panic_value, _, boundary-panicked _ w is, given_back-IsLeft w w' cn' kept)
        go fault kept is = absurd kept
