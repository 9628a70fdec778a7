-- ===== src/Session/Store.antt =====
-- The broker against the callbacks: what it makes of each answer, and of a store that keeps to the
-- documented contract.
use rustls_ffi.Prelude.{
  ℕ, ◌≤◌, ◌<◌, ◌≡◌, refl, sym, ◌≢◌, ◌⊎◌, inl, inr, Bool, true, false, Option, none, some, List, ok,
  err, arith, if◌then◌else◌, ◌∙◌, ap, Bool-cases, Option-cases, ltb, length, ◌↔◌,
}
use native.Mathlib.Decide.{ℕ_discrete, dec_lt}
use rustls_ffi.Panic.{Run, done, fault}
use rustls_ffi.Panic.Boundary.{bind-done}
use rustls_ffi.Memory.{Ptr, zeroed, from_raw_parts}
use rustls_ffi.Error.Codes.{RustlsResult, code, try_from, try_from_or}
use rustls_ffi.Error.Numbers.{try_from_iff, try_from_or-code}
use rustls_ffi.Slice.{Slice, slice_bytes}
use rustls_ffi.Userdata.{UserdataError, userdata_get}
use rustls_ffi.World.{World}
use rustls_ffi.Session.{
  SessionCallbacks, SessionStoreBroker, buffer_len, c_int, is_ok, set_len, received, retrieve_with,
  retrieve_for, retrieve, store_for, store,
}

is_ok_iff : (r : RustlsResult) → (is_ok r ≡ true) ↔ (r ≡ RustlsResult.ok)
unfolding is_ok
is_ok_iff RustlsResult.ok = (λ h. refl, λ h. refl)
is_ok_iff _ = (λ h. cc, λ h. cc)

is_ok-other :
    (n : ℕ) → n ≢ code RustlsResult.ok → is_ok (try_from_or n RustlsResult.general) ≡ false
unfolding try_from_or
is_ok-other n ne = elim (Option-cases (try_from n)) [
  | inl e ↦ rw e (unfold is_ok in refl)
  | inr (r, e) ↦ elim (Bool-cases (is_ok r)) [
    | inl h ↦ absurd (ne (sym ((try_from_iff n r).0 e) ∙ ap code ((is_ok_iff r).0 h)))
    | inr h ↦ rw (e, h)
  ]
]

not_found_ne_ok : code RustlsResult.not_found ≢ code RustlsResult.ok
unfolding code
not_found_ne_ok h = omega arith

set_len_fits :
    {O : Type 0}
    → (buf : Ptr) (v : List ℕ) (w' : World O) → from_raw_parts buf (length v) w'.mem ≡ v
    → length v ≤ buffer_len
    → set_len buf (length v) w' ≡ done (some v) w'
set_len_fits buf v w' m h = ground (arith, m)

module _ {O : Type 0} (host : SessionCallbacks (World O)) (vec_at : World O → ℕ → Ptr)
    (self : SessionStoreBroker) where
  -- The state in which the callback finds its buffer, zeroed.
  abbrev pub with_buffer : Ptr → World O → World O
  with_buffer p w = record w { mem = zeroed p buffer_len w.mem }

  -- The answer of the get callback for a key.
  abbrev pub answer : Slice → Bool → Ptr → World O → Run (World O) (ℕ × ℕ)
  answer key remove u w =
      let p = vec_at w buffer_len in
      host.get_callback self.get_cb u (slice_bytes key) (c_int remove) p buffer_len 0
        (with_buffer p w)

  answer-retrieve_with :
      (key : Slice) (remove : Bool) (u : Ptr) (w w' : World O) (r n : ℕ)
      → answer key remove u w ≡ done (r, n) w'
      → retrieve_with host vec_at self (slice_bytes key) remove u (vec_at w buffer_len) w
        ≡ received (vec_at w buffer_len) (r, n) w'
  unfolding retrieve_with
  answer-retrieve_with key remove u w w' r n e =
      bind-done
        (host.get_callback self.get_cb u (slice_bytes key) (c_int remove) (vec_at w buffer_len)
          buffer_len 0)
        (received (vec_at w buffer_len)) e

  retrieve-answer :
      (key : Slice) (remove : Bool) (u : Ptr) (w w' : World O) (r n : ℕ)
      → userdata_get w.local ≡ (ok u, w.local)
      → answer key remove u w ≡ done (r, n) w'
      → retrieve host vec_at self key remove w ≡ received (vec_at w buffer_len) (r, n) w'
  unfolding retrieve
  retrieve-answer key remove u w w' r n got e =
      rw (got, retrieve_for) (answer-retrieve_with key remove u w w' r n e)

  retrieve-ok :
      (key : Slice) (remove : Bool) (u : Ptr) (w w' : World O) (n : ℕ)
      → userdata_get w.local ≡ (ok u, w.local)
      → answer key remove u w ≡ done (code RustlsResult.ok, n) w'
      → retrieve host vec_at self key remove w ≡ set_len (vec_at w buffer_len) n w'
  retrieve-ok key remove u w w' n got e =
      retrieve-answer key remove u w w' _ n got e
      ∙ rw (
        try_from_or-code RustlsResult.ok RustlsResult.general,
        (is_ok_iff RustlsResult.ok).1 refl,
      )

  retrieve-other :
      (key : Slice) (remove : Bool) (u : Ptr) (w w' : World O) (r n : ℕ)
      → userdata_get w.local ≡ (ok u, w.local)
      → answer key remove u w ≡ done (r, n) w'
      → r ≢ code RustlsResult.ok
      → retrieve host vec_at self key remove w ≡ done none w'
  retrieve-other key remove u w w' r n got e ne =
      retrieve-answer key remove u w w' r n got e ∙ rw (is_ok-other r ne)

  -- What `retrieve` makes of each answer of the get callback, with userdata on the stack: of Ok the
  -- bytes of the buffer that the callback counts; of Ok with a count beyond the 65 KiB buffer,
  -- undefined behaviour; of any other number, unknown ones included, no session.
  pub retrieve_lem :
      (key : Slice) (remove : Bool) (u : Ptr) (w w' : World O) (r n : ℕ)
      → userdata_get w.local ≡ (ok u, w.local)
      → answer key remove u w ≡ done (r, n) w'
      → let got = retrieve host vec_at self key remove w in
        ((r ≡ code RustlsResult.ok)
          × (n ≤ buffer_len)
          × (got ≡ done (some (from_raw_parts (vec_at w buffer_len) n w'.mem)) w'))
        ⊎ ((r ≡ code RustlsResult.ok) × (buffer_len < n) × (got ≡ fault))
        ⊎ ((r ≢ code RustlsResult.ok) × (got ≡ done none w'))
  retrieve_lem key remove u w w' r n got e = elim (ℕ_discrete r (code RustlsResult.ok)) [
    | no ne ↦ inr (inr (ne, retrieve-other key remove u w w' r n got e ne))
    | yes q ↦
        let found = retrieve-ok key remove u w w' n got (e ∙ ap (λ k. done (k, n) w') q) in
        elim (dec_lt buffer_len n) [
          | yes over ↦ inr (inl (q, over, found ∙ ground arith))
          | no fits ↦ inl (q, omega arith, found ∙ ground arith)
        ]
  ]

  -- With no userdata on the stack, or none within reach, neither callback is called: there is no
  -- session, and none is stored.
  pub broker_without_userdata :
      (key value : Slice) (remove : Bool) (w : World O) (e : UserdataError)
      → userdata_get w.local ≡ (err e, w.local)
      → (retrieve host vec_at self key remove w ≡ done none w)
        × (store host vec_at self key value w ≡ done false w)
  unfolding retrieve store
  broker_without_userdata key value remove w e h = (rw (h, retrieve_for), rw (h, store_for))

  -- The session that the callback's documentation lets it hand out: one that fits the buffer.
  abbrev pub fitting : Option (List ℕ) → Option (List ℕ)
  fitting none = none
  fitting (some v) = if ltb buffer_len (length v) then none else some v

  -- The documented answer of a get callback whose store holds `found` for the key: a session that
  -- fits is copied to the buffer whole, and any other counts as not found.
  pub data Answers (found : Option (List ℕ)) (buf : Ptr) (run : Run (World O) (ℕ × ℕ))
      : Type 0 where
    copied :
        (v : List ℕ) (w' : World O)
        → fitting found ≡ some v
        → run ≡ done (code RustlsResult.ok, length v) w'
        → from_raw_parts buf (length v) w'.mem ≡ v
        → Answers found buf run
    missing :
        (n : ℕ) (w' : World O)
        → fitting found ≡ none
        → run ≡ done (code RustlsResult.not_found, n) w'
        → Answers found buf run

  fitting-le :
      (found : Option (List ℕ)) (v : List ℕ) → fitting found ≡ some v → length v ≤ buffer_len
  fitting-le none v e = cc
  fitting-le (some x) v e = ground arith

  -- With userdata on the stack, and against a callback that answers as documented, `retrieve` gives
  -- what the callback's store holds for the key, if that fits the buffer, and else nothing; it
  -- never runs into undefined behaviour.
  pub retrieve-Answers :
      (key : Slice) (remove : Bool) (u : Ptr) (w : World O) (found : Option (List ℕ))
      → userdata_get w.local ≡ (ok u, w.local)
      → Answers found (vec_at w buffer_len) (answer key remove u w)
      → (w' : World O) × (retrieve host vec_at self key remove w ≡ done (fitting found) w')
  retrieve-Answers key remove u w found got (copied v w' f e m) = (
    w',
    retrieve-ok key remove u w w' (length v) got e
        ∙ (set_len_fits (vec_at w buffer_len) v w' m (fitting-le found v f)
            ∙ ap (λ o. done o w') (sym f)),
  )
  retrieve-Answers key remove u w found got (missing n w' f e) =
      (w', retrieve-other key remove u w w' _ n got e not_found_ne_ok ∙ ap (λ o. done o w') (sym f))
